-- ===== src/Domain.antt =====
-- internal/domain: the notification and its vocabulary. `Channel` and `Priority` are Go strings, so
-- any text is a value of them; `Status` only ever takes its seven constants, so it is an
-- enumeration. Identifiers are UUIDs as 128-bit numbers, times are nanoseconds.
use event_driven_notificatio.Prelude.{ℕ, Bool, ◌||◌, ◌==◌, Option, List, ◌++◌}
use event_driven_notificatio.Prelude.Int.{ℤ}
use event_driven_notificatio.Prelude.Text.{Str, str, same}

-- The sentinel errors of errors.go; `internal` is any error that wraps none of them.
pub data Error : Type 0 where
  not_found duplicate idempotency_conflict invalid_status cannot_cancel batch_too_large : Error
  invalid_channel invalid_priority template_render rate_limited provider_failure : Error
  validation internal : Error

abbrev pub Channel : Type 0
Channel = Str

abbrev pub channel_sms : Channel
channel_sms = str "sms"

abbrev pub channel_email : Channel
channel_email = str "email"

abbrev pub channel_push : Channel
channel_push = str "push"

-- `Channel.Valid`
unfoldable pub channel_valid : Channel → Bool
channel_valid c = same c channel_sms || (same c channel_email || same c channel_push)

abbrev pub Priority : Type 0
Priority = Str

abbrev pub priority_high : Priority
priority_high = str "high"

abbrev pub priority_normal : Priority
priority_normal = str "normal"

abbrev pub priority_low : Priority
priority_low = str "low"

-- `Priority.Valid`
unfoldable pub priority_valid : Priority → Bool
priority_valid p = same p priority_high || (same p priority_normal || same p priority_low)

-- `Priority.StreamKey`
unfoldable pub stream_key : Priority → Str
stream_key p = str "notifications:" ++ p

pub data Status : Type 0 where
  pending scheduled queued processing delivered failed cancelled : Status

abbrev pub status_text : Status → Str
status_text pending = str "pending"
status_text scheduled = str "scheduled"
status_text queued = str "queued"
status_text processing = str "processing"
status_text delivered = str "delivered"
status_text failed = str "failed"
status_text cancelled = str "cancelled"

-- `s == t` on statuses.
abbrev pub status_rank : Status → ℕ
status_rank pending = 0
status_rank scheduled = 1
status_rank queued = 2
status_rank processing = 3
status_rank delivered = 4
status_rank failed = 5
status_rank cancelled = 6

abbrev pub is_status : Status → Status → Bool
is_status s t = status_rank s == status_rank t

abbrev pub Vars : Type 0
Vars = List (Str × Str)

pub record Notification : Type 0 where
  pub id : ℕ
  pub idempotency_key : Str
  pub batch_id : Option ℕ
  pub channel : Channel
  pub priority : Priority
  pub recipient : Str
  pub subject : Str
  pub body : Str
  pub template_id : Option ℕ
  pub template_vars : Vars
  pub status : Status
  pub scheduled_at : Option ℕ
  pub attempt_count : ℕ
  pub max_retries : ℤ
  pub last_error : Str
  pub delivered_at : Option ℕ
  pub created_at : ℕ
  pub updated_at : ℕ

pub record Cursor : Type 0 where
  pub created_at : ℕ
  pub id : ℕ

pub record CreateNotificationRequest : Type 0 where
  pub idempotency_key : Str
  pub channel : Channel
  pub priority : Priority
  pub recipient : Str
  pub subject : Str
  pub body : Str
  pub template_id : Option ℕ
  pub template_vars : Vars
  pub scheduled_at : Option ℕ
  pub max_retries : Option ℤ

pub record BatchCreateRequest : Type 0 where
  pub notifications : List CreateNotificationRequest

pub record NotificationFilter : Type 0 where
  -- any text: the handler does not check it
  pub status : Option Str
  pub channel : Option Channel
  pub batch_id : Option ℕ
  pub cursor : Option Cursor
  pub limit : ℤ

pub record NotificationList : Type 0 where
  pub notifications : List Notification
  pub next_cursor : Option Cursor

pub record DeliveryAttempt : Type 0 where
  pub id : ℕ
  pub notification_id : ℕ
  pub attempt_number : ℕ
  pub status_code : ℕ
  pub response_body : Str
  pub error : Str
  pub duration_ms : ℕ
  pub created_at : ℕ

pub record Template : Type 0 where
  pub id : ℕ
  pub name : Str
  pub channel : Channel
  pub subject : Str
  pub body : Str
  pub created_at : ℕ
  pub updated_at : ℕ

pub record CreateTemplateRequest : Type 0 where
  pub name : Str
  pub channel : Channel
  pub subject : Str
  pub body : Str

-- What a request leaves out stays as it is.
pub record UpdateTemplateRequest : Type 0 where
  pub name : Option Str
  pub channel : Option Channel
  pub subject : Option Str
  pub body : Option Str
