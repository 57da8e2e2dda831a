-- ===== src/Services/Interface.antt =====
-- The services and libraries behind the program, as parameters: Redis with the commands that
-- internal/queue and internal/ratelimit send, the outcome of every call, the clocks, the HTTP
-- transport of internal/delivery, the encodings of UUIDs, JSON and times, and packages validator,
-- net/mail and text/template. What a function
-- depends on beyond its arguments depends on the number of the call, so an environment is any
-- function of that number.
use event_driven_notificatio.Prelude.{ℕ, Bool, List, Option}
use event_driven_notificatio.Prelude.Text.{Str}
use event_driven_notificatio.Domain.{
  Vars, CreateNotificationRequest, BatchCreateRequest, CreateTemplateRequest, UpdateTemplateRequest,
}

-- How a call to a database or to Redis ends: it is carried out and answered; it fails and nothing
-- has happened; or it is carried out and the answer is lost.
pub data Fault : Type 0 where
  answered refused unacknowledged : Fault

-- The fields of a stream entry.
abbrev pub Entry : Type 0
Entry = List (Str × Str)

-- The entries that one stream delivers, each behind its message ID.
abbrev pub Delivery : Type 0
Delivery = Str × List (Str × Entry)

pub data HttpOutcome : Type 0 where
  transport_error : Str → HttpOutcome
  response : ℕ → Str → HttpOutcome

pub record Services : Type 1 where
  pub Redis : Type 0
  pub xadd : Str → Entry → Redis → Redis
  -- stream, group, message ID
  pub xack : Str → Str → Str → Redis → Redis
  -- `XGROUP CREATE ... MKSTREAM` of a stream, a group and the ID to start at, with its error's text
  pub xgroup_create_mk_stream : Str → Str → Str → Redis → Option Str × Redis
  -- group, consumer, streams, the most entries of each stream
  pub xread_group : Str → Str → List Str → ℕ → Redis → List Delivery × Redis
  -- group, consumer, stream, idle time, count
  pub xauto_claim : Str → Str → Str → ℕ → ℕ → Redis → List (Str × Entry) × Redis
  pub xrange : Str → Redis → List (Str × Entry)
  -- key, score, member
  pub zadd : Str → ℕ → Str → Redis → Redis
  pub zrem : Str → List Str → Redis → Redis
  -- key, highest score, most members
  pub zrange_by_score : Str → ℕ → ℕ → Redis → List Str
  pub zrem_range_by_score : Str → ℕ → Redis → Redis
  pub zcard : Str → Redis → ℕ
  pub pexpire : Str → ℕ → Redis → Redis
  pub fault : ℕ → Fault
  -- `time.Now()` of the program and `NOW()` of the database, in nanoseconds
  pub clock : ℕ → ℕ
  pub db_clock : ℕ → ℕ
  -- is the context done?
  pub cancelled : ℕ → Bool
  -- rows that another transaction has locked, and after how many rows a result set breaks off
  pub locked : ℕ → ℕ → Bool
  pub breaks_after : ℕ → Option ℕ
  -- `math.random` of the script, and `uuid.NewV7`
  pub random : ℕ → ℕ
  pub new_uuid : ℕ → ℕ
  pub uuid_string : ℕ → Str
  -- `uuid.Parse` with its error, and its first result where the error is dropped
  pub uuid_parse : Str → Option ℕ
  pub uuid_value : Str → ℕ
  -- why `http.NewRequestWithContext` refuses a URL, if it does
  pub request_error : Str → Option Str
  pub post : ℕ → Str → Str → HttpOutcome
  pub marshal : Vars → Str
  pub unmarshal : Str → Vars
  -- `t.Format(time.RFC3339)`
  pub format_time : ℕ → Str
  -- `json.NewDecoder(r.Body).Decode`, and `time.Parse` at the layout RFC3339Nano
  pub decode_notification : Str → Option CreateNotificationRequest
  pub decode_batch : Str → Option BatchCreateRequest
  pub decode_template : Str → Option CreateTemplateRequest
  pub decode_template_update : Str → Option UpdateTemplateRequest
  pub parse_time : Str → Option ℕ
  -- `validate.Struct` of package validator, `mail.ParseAddress`, and a text/template parsed and executed
  pub valid_struct : CreateNotificationRequest → Bool
  pub valid_batch : BatchCreateRequest → Bool
  pub valid_template : CreateTemplateRequest → Bool
  pub valid_template_update : UpdateTemplateRequest → Bool
  pub valid_address : Str → Bool
  pub parse_template : Str → Bool
  pub render_text : Str → Vars → Option Str
  -- the order of the database's collation: may the first text stand before the second?
  pub collates : Str → Str → Bool
