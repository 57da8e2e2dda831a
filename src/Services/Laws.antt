-- ===== src/Services/Laws.antt =====
-- What the theorems assume of the services: documented behaviour of Redis and of package uuid, as
-- records of laws over two views of the Redis state, the entries of a stream and a sorted set.
use event_driven_notificatio.Prelude.{
  ◌&&◌, ◌||◌, true, none, false, Bool, ltb, leb, select, any, not, ◌≤◌, Memᴰ, length, ◌<◌, ℕ, ◌≡◌,
  List, ◌∷◌, [], ◌++◌, some, if◌then◌else◌, All, ◌≢◌,
}
use event_driven_notificatio.Prelude.Text.{str, Str, same}
use event_driven_notificatio.Domain.{Vars}
use event_driven_notificatio.Services.Interface.{Services, Entry}

-- `ZADD` gives a member its score anew, or adds it.
unfoldable pub set_score : Str → ℕ → List (Str × ℕ) → List (Str × ℕ)
set_score m score [] = (m, score) ∷ []
set_score m score ((m', old) ∷ z) =
    if same m' m then (m, score) ∷ z else (m', old) ∷ set_score m score z

pub record StreamLaws (env : Services) : Type 0 where
  -- the entries ever added to a stream, oldest first
  pub stream : env.Redis → Str → List Entry
  pub stream-xadd :
      (key : Str) (e : Entry) (r : env.Redis) (k : Str)
      → stream (env.xadd key e r) k ≡ (if same key k then stream r k ++ e ∷ [] else stream r k)
  pub stream-xack :
      (key group id : Str) (r : env.Redis) (k : Str)
      → stream (env.xack key group id r) k ≡ stream r k
  pub stream-zadd :
      (key : Str) (score : ℕ) (m : Str) (r : env.Redis) (k : Str)
      → stream (env.zadd key score m r) k ≡ stream r k

pub record ZsetLaws (env : Services) : Type 0 where
  pub zset : env.Redis → Str → List (Str × ℕ)
  pub zset-xadd :
      (key : Str) (e : Entry) (r : env.Redis) (k : Str) → zset (env.xadd key e r) k ≡ zset r k
  pub zset-xack :
      (key group id : Str) (r : env.Redis) (k : Str) → zset (env.xack key group id r) k ≡ zset r k
  pub zset-zadd :
      (key : Str) (score : ℕ) (m : Str) (r : env.Redis) (k : Str)
      → zset (env.zadd key score m r) k
        ≡ (if same key k then set_score m score (zset r key) else zset r k)

-- `ZREMRANGEBYSCORE`, `ZCARD` and `PEXPIRE`. That a key expires later is left out: what a set holds
-- then has a score outside the window for which the key was kept.
pub record WindowLaws (env : Services) (zsets : ZsetLaws env) : Type 0 where
  pub zset-zrem_range_by_score :
      (key : Str) (t : ℕ) (r : env.Redis) (k : Str)
      → zsets.zset (env.zrem_range_by_score key t r) k
        ≡ (if same key k then select (λ p. ltb t p.1) (zsets.zset r key) else zsets.zset r k)
  pub zset-pexpire :
      (key : Str) (window : ℕ) (r : env.Redis) (k : Str)
      → zsets.zset (env.pexpire key window r) k ≡ zsets.zset r k
  pub zcard_lem : (key : Str) (r : env.Redis) → env.zcard key r ≡ length (zsets.zset r key)

-- `ZRANGEBYSCORE` and `ZREM`: when the due members fit into the count, every one is listed.
pub record DelayedLaws (env : Services) (streams : StreamLaws env) (zsets : ZsetLaws env)
    : Type 0 where
  pub stream-zrem :
      (key : Str) (ms : List Str) (r : env.Redis) (k : Str)
      → streams.stream (env.zrem key ms r) k ≡ streams.stream r k
  pub zset-zrem :
      (key : Str) (ms : List Str) (r : env.Redis) (k : Str)
      → zsets.zset (env.zrem key ms r) k ≡ (
          if same key k
          then select (λ p. not (any (λ m. same m p.0) ms)) (zsets.zset r key)
          else zsets.zset r k)
  pub due_listed :
      (key : Str) (t count : ℕ) (r : env.Redis) (m : Str) (score : ℕ)
      → length (select (λ p. leb p.1 t) (zsets.zset r key)) ≤ count
      → Memᴰ (m, score) (zsets.zset r key)
      → score ≤ t
      → Memᴰ m (env.zrange_by_score key t count r)

-- A UUID is written in hexadecimal digits and dashes, and read back.
pub record UuidLaws (env : Services) : Type 0 where
  pub parse-string : (id : ℕ) → env.uuid_parse (env.uuid_string id) ≡ some id
  pub value-string : (id : ℕ) → env.uuid_value (env.uuid_string id) ≡ id
  pub no_colon : (id : ℕ) → All (λ c. c ≢ b':') (env.uuid_string id)

-- JSON gives back these variables, from a text that is not empty.
pub record JsonLaws (env : Services) (vars : Vars) : Type 0 where
  pub unmarshal-marshal : env.unmarshal (env.marshal vars) ≡ vars
  pub marshal_nonempty : 0 < length (env.marshal vars)

-- What Redis answers where the group is there.
abbrev pub busy_group : Str
busy_group = str "BUSYGROUP Consumer Group name already exists"

-- `XGROUP CREATE` with `MKSTREAM`, on keys that hold nothing but streams.
pub record GroupLaws (env : Services) : Type 0 where
  -- Does the stream have the group?
  pub has_group : env.Redis → Str → Str → Bool
  pub create-missing :
      (key group id : Str) (r : env.Redis)
      → has_group r key group ≡ false
      → (env.xgroup_create_mk_stream key group id r).0 ≡ none
  pub create-present :
      (key group id : Str) (r : env.Redis)
      → has_group r key group ≡ true
      → env.xgroup_create_mk_stream key group id r ≡ (some busy_group, r)
  pub has_group-create :
      (key group id : Str) (r : env.Redis) (key' group' : Str)
      → has_group (env.xgroup_create_mk_stream key group id r).1 key' group'
        ≡ (has_group r key' group' || (same key key' && same group group'))
