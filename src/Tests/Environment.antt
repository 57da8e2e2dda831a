-- ===== src/Tests/Environment.antt =====
-- An environment over an in-memory Redis, with the laws of Services.Laws.
use event_driven_notificatio.Prelude.{
  Bool, ◌&&◌, select-ext, ◌==◌, ltb, ℕ, zero, suc, ◌+◌, ◌*◌, ◌≡◌, refl, ap, true, false, leb, not,
  if◌then◌else◌, none, some, Option, drop, List, [], ◌∷◌, ◌++◌, map, take, length, select, any, All,
  ◌≢◌, arith,
}
use event_driven_notificatio.Prelude.Text.{Str, str, same}
use event_driven_notificatio.Domain.{Vars, CreateTemplateRequest, channel_email}
use event_driven_notificatio.Services.{Services, Entry, Fault, answered, HttpOutcome, response}
use event_driven_notificatio.Services.Laws.{
  busy_group, StreamLaws, ZsetLaws, WindowLaws, UuidLaws, set_score,
}

pub record Memory : Type 0 where
  pub streams : List (Str × Entry)
  pub zsets : List (Str × List (Str × ℕ))
  pub acks : List (Str × Str)
  pub groups : List (Str × Str)

abbrev pub empty_memory : Memory
empty_memory = record { streams = []; zsets = []; acks = []; groups = [] }

abbrev pub stream_of : Str → List (Str × Entry) → List Entry
stream_of k [] = []
stream_of k ((j, e) ∷ es) = let rest = stream_of k es in if same j k then e ∷ rest else rest

abbrev pub zset_of : Str → List (Str × List (Str × ℕ)) → List (Str × ℕ)
zset_of k [] = []
zset_of k ((j, z) ∷ zs) = if same j k then z else zset_of k zs

abbrev pub set_zset : Str → List (Str × ℕ) → Memory → Memory
set_zset k z r = record r { zsets = (k, z) ∷ r.zsets }

-- Entries are numbered from 0 for their message IDs.
abbrev number_from : ℕ → List Entry → List (Str × Entry)
number_from n [] = []
number_from n (e ∷ es) = (n ∷ [], e) ∷ number_from (suc n) es

abbrev pub due_members : ℕ → List (Str × ℕ) → List Str
due_members t [] = []
due_members t ((m, score) ∷ z) =
    let rest = due_members t z in if leb score t then m ∷ rest else rest

-- A UUID is written in unary here: as many digits as its number says.
abbrev pub tally : ℕ → Str
tally zero = []
tally (suc n) = b'1' ∷ tally n

-- Variables are written behind a 1 with every character raised by one and a 0 behind every string.
abbrev pub marshal_vars : Vars → Str
marshal_vars [] = []
marshal_vars ((k, v) ∷ vars) = map suc k ++ (0 ∷ (map suc v ++ (0 ∷ marshal_vars vars)))

abbrev pub read_vars : Option Str → Str → Str → Vars
read_vars key acc [] = []
read_vars none acc (zero ∷ s) = read_vars (some acc) [] s
read_vars (some k) acc (zero ∷ s) = (k, acc) ∷ read_vars none [] s
read_vars none acc (suc c ∷ s) = read_vars none (acc ++ c ∷ []) s
read_vars (some k) acc (suc c ∷ s) = read_vars (some k) (acc ++ c ∷ []) s

-- A body stands for a template for e-mails of that name.
abbrev pub template_of : Str → CreateTemplateRequest
template_of name = record { name = name; channel = channel_email; subject = []; body = str "Hello" }

abbrev pub listed : Memory → Str → Str → Bool
listed r key group = any (λ g. same g.0 key && same g.1 group) r.groups

abbrev pub create_group : Str → Str → Memory → Option Str × Memory
create_group key group r =
    if listed r key group
    then (some busy_group, r)
    else (none, record r { groups = (key, group) ∷ r.groups })

abbrev pub environment : (ℕ → Fault) → HttpOutcome → Services
environment faults outcome = record {
  Redis = Memory;
  xadd = λ key e r. record r { streams = r.streams ++ (key, e) ∷ [] };
  xack = λ key group id r. record r { acks = (key, id) ∷ r.acks };
  xgroup_create_mk_stream = λ key group id r. create_group key group r;
  xread_group = λ group consumer keys count r.
      (map (λ k. (k, take count (number_from 0 (stream_of k r.streams)))) keys, r);
  xauto_claim = λ group consumer key idle count r. ([], r);
  xrange = λ key r. number_from 0 (stream_of key r.streams);
  zadd = λ key score m r. set_zset key (set_score m score (zset_of key r.zsets)) r;
  zrem = λ key ms r.
      set_zset key (select (λ p. not (any (λ m. same m p.0) ms)) (zset_of key r.zsets)) r;
  zrange_by_score = λ key t count r. take count (due_members t (zset_of key r.zsets));
  zrem_range_by_score =
      λ key t r. set_zset key (select (λ p. not (leb p.1 t)) (zset_of key r.zsets)) r;
  zcard = λ key r. length (zset_of key r.zsets);
  pexpire = λ key window r. r;
  fault = faults;
  clock = λ n. 1700000000000000000 + n * 1000000;
  db_clock = λ n. 1700000000000000000 + n * 1000000;
  cancelled = λ n. false;
  locked = λ n id. false;
  breaks_after = λ n. none;
  random = λ n. n;
  new_uuid = λ n. 1000 + n;
  uuid_string = tally;
  uuid_parse = λ s. some (length s);
  uuid_value = length;
  request_error = λ url. none;
  post = λ n url body. outcome;
  marshal = λ vars. 1 ∷ marshal_vars vars;
  unmarshal = λ json. read_vars none [] (drop 1 json);
  format_time = λ t. str "later";
  decode_notification = λ body. none;
  decode_batch = λ body. none;
  decode_template = λ body. if ltb 0 (length body) then some (template_of body) else none;
  decode_template_update = λ body. none;
  parse_time = λ text. some (length text);
  valid_struct = λ req. ltb 0 (length req.recipient);
  valid_batch = λ req. true;
  valid_template = λ req. ltb 0 (length req.name);
  valid_template_update = λ req. true;
  valid_address = λ s. any (λ c. c == b'@') s;
  parse_template = λ text. not (any (λ c. c == b'{') text);
  render_text = λ text vars. some text;
  collates = λ s t. leb (length s) (length t);
}

abbrev pub steady : Services
steady = environment (λ n. answered) (response 202 (str "ok"))

abbrev pub failing : Services
failing = environment (λ n. answered) (response 503 (str "down"))

pub length-tally : (n : ℕ) → length (tally n) ≡ n
length-tally zero = refl
length-tally (suc n) = rw (length-tally n)

pub tally_digits : (n : ℕ) → All (λ c. c ≢ b':') (tally n)
tally_digits zero = tt
tally_digits (suc n) = (omega arith, tally_digits n)

module _ (faults : ℕ → Fault) (outcome : HttpOutcome) where
  pub stream_of-append :
      (k j : Str) (e : Entry) (es : List (Str × Entry))
      → stream_of k (es ++ (j, e) ∷ [])
        ≡ (if same j k then stream_of k es ++ e ∷ [] else stream_of k es)
  stream_of-append k j e [] = ground arith
  stream_of-append k j e ((i, e') ∷ es) = ground (arith, stream_of-append k j e es)

  abbrev pub environment-StreamLaws : StreamLaws (environment faults outcome)
  environment-StreamLaws = record {
    stream = λ r k. stream_of k r.streams;
    stream-xadd = λ key e r k. stream_of-append k key e r.streams;
    stream-xack = λ key group id r k. refl;
    stream-zadd = λ key score m r k. refl;
  }

  abbrev pub environment-UuidLaws : UuidLaws (environment faults outcome)
  environment-UuidLaws = record {
    parse-string = λ id. ap some (length-tally id);
    value-string = length-tally;
    no_colon = tally_digits;
  }

  abbrev pub environment-ZsetLaws : ZsetLaws (environment faults outcome)
  environment-ZsetLaws = record {
    zset = λ r k. zset_of k r.zsets;
    zset-xadd = λ key e r k. refl;
    zset-xack = λ key group id r k. refl;
    zset-zadd = λ key score m r k. refl;
  }

  pub kept_scores :
      (t : ℕ) (z : List (Str × ℕ)) → select (λ p. not (leb p.1 t)) z ≡ select (λ p. ltb t p.1) z
  kept_scores t z = select-ext (λ p. not (leb p.1 t)) (λ p. ltb t p.1) (λ p. ground arith) z

  abbrev pub environment-WindowLaws : WindowLaws (environment faults outcome) environment-ZsetLaws
  environment-WindowLaws = record {
    zset-zrem_range_by_score = λ key t r k.
        ap (λ z. if same key k then z else zset_of k r.zsets) (kept_scores t (zset_of key r.zsets));
    zset-pexpire = λ key window r k. refl;
    zcard_lem = λ key r. refl;
  }
