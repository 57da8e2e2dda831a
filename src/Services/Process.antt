-- ===== src/Services/Process.antt =====
-- The state behind one process: the tables of migrations/, Redis, the WebSocket hub with what has
-- been written to its connections, the metrics and the HTTP requests made. `step` numbers the calls
-- to the services.
use event_driven_notificatio.Prelude.{
  ℕ, suc, List, ◌∷◌, [], ◌++◌, Option, none, some, Bool, Result, ok, err, take,
}
use event_driven_notificatio.Prelude.Int.{ℤ}
use event_driven_notificatio.Prelude.Text.{Str}
use event_driven_notificatio.Prelude.State.{M}
use event_driven_notificatio.Domain.{Channel, Priority, Status, Error, internal}
use event_driven_notificatio.Services.Interface.{Services, answered, refused, unacknowledged}

-- A row of `notifications`; what the schema lets be NULL is an `Option`.
pub record Row : Type 0 where
  pub id : ℕ
  pub idempotency_key : Option Str
  pub batch_id : Option ℕ
  pub channel : Channel
  pub priority : Priority
  pub recipient : Str
  pub subject : Option Str
  pub body : Str
  pub template_id : Option ℕ
  pub template_vars : Str
  pub status : Status
  pub scheduled_at : Option ℕ
  pub attempt_count : ℕ
  pub max_retries : ℤ
  pub last_error : Option Str
  pub delivered_at : Option ℕ
  pub created_at : ℕ
  pub updated_at : ℕ

-- A row of `delivery_attempts`.
pub record AttemptRow : Type 0 where
  pub id : ℕ
  pub notification_id : ℕ
  pub attempt_number : ℕ
  pub status_code : ℕ
  pub response_body : Option Str
  pub error : Option Str
  pub duration_ms : ℕ
  pub created_at : ℕ

-- A row of `templates`.
pub record TemplateRow : Type 0 where
  pub id : ℕ
  pub name : Str
  pub channel : Channel
  pub subject : Option Str
  pub body : Str
  pub created_at : ℕ
  pub updated_at : ℕ

pub record Database : Type 0 where
  pub notifications : List Row
  pub attempts : List AttemptRow
  pub templates : List TemplateRow

-- The increments of the counters, and the durations (in nanoseconds) that the histogram observed.
pub data Metric : Type 0 where
  processed : Str → Str → Metric
  observed : Str → ℕ → Metric
  retried dead_lettered : Metric

pub record Request : Type 0 where
  pub url : Str
  pub body : Str

pub record World (R : Type 0) : Type 0 where
  pub db : Database
  pub redis : R
  -- `Hub.subscribers`: the connections of each notification
  pub subscribers : List (ℕ × List ℕ)
  -- what has been written to which connection, oldest first
  pub frames : List (ℕ × Str)
  pub metrics : List Metric
  pub requests : List Request
  pub step : ℕ

abbrev pub W : Services → Type 0
W env = World env.Redis

abbrev pub Action : Services → Type 0 → Type 0
Action env = M (W env)

module _ (env : Services) where
  -- `pool.Exec` and `pool.Query` of a statement, which reads the database's clock. `lost` is the
  -- error of a call that the database did not answer.
  unfoldable pub exec :
      {E A : Type 0} → E → (ℕ → Database → Result E A × Database) → Action env (Result E A)
  exec lost statement w =
      let w1 = record w { step = suc w.step } in
      let (r, db') = statement (env.db_clock w.step) w.db in
      elim (env.fault w.step) [
        | answered ↦ (r, record w1 { db = db' })
        | refused ↦ (err lost, w1)
        | unacknowledged ↦ (err lost, record w1 { db = db' })
      ]

  -- `rows.Next()` until it is false. `rows.Err()` is never read, so a result set that breaks off looks
  -- like a short one.
  unfoldable pub read_rows : {A : Type 0} → List A → Action env (List A)
  read_rows rows w = (
    elim (env.breaks_after w.step) [ none ↦ rows | some n ↦ take n rows ],
    record w { step = suc w.step },
  )

  unfoldable pub redis_do : {A : Type 0} → (env.Redis → A × env.Redis) → Action env (Result Error A)
  redis_do command w =
      let w1 = record w { step = suc w.step } in
      let (a, redis') = command w.redis in
      elim (env.fault w.step) [
        | answered ↦ (ok a, record w1 { redis = redis' })
        | refused ↦ (err internal, w1)
        | unacknowledged ↦ (err internal, record w1 { redis = redis' })
      ]

  -- `time.Now()`
  unfoldable pub now : Action env ℕ
  now w = (env.clock w.step, record w { step = suc w.step })

  -- `uuid.Must(uuid.NewV7())`
  unfoldable pub next_uuid : Action env ℕ
  next_uuid w = (env.new_uuid w.step, record w { step = suc w.step })

  -- `<-ctx.Done()` in a `select` with another case
  unfoldable pub is_done : Action env Bool
  is_done w = (env.cancelled w.step, record w { step = suc w.step })

  unfoldable pub draw : Action env ℕ
  draw w = (env.random w.step, record w { step = suc w.step })

  unfoldable pub count_metric : Metric → Action env (Unit {0})
  count_metric m w = (tt, record w { metrics = w.metrics ++ m ∷ [] })
