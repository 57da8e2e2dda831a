-- ===== src/Worker/Answered.antt =====
-- Where every call to the database and to Redis is answered: the effect of each call of the
-- dispatcher, as an equation of worlds.
use event_driven_notificatio.Prelude.{ℕ, suc, ◌+◌, ◌≡◌, refl, ap, ◌∙◌, some, find, arith}
use mathlib.Core.Option
use event_driven_notificatio.Prelude.Text.{Str}
use event_driven_notificatio.Domain.{Status, DeliveryAttempt}
use event_driven_notificatio.Services.{
  Database, AttemptRow, Services, Row, W, answered, now, next_uuid,
}
use event_driven_notificatio.Services.Effects.{
  exec-SameButTables, SameButTables, exec-answered, exec-db,
}
use event_driven_notificatio.Repository.Rows.{to_micros, to_attempt_row}
use event_driven_notificatio.Repository.Sql.{
  failure, has_id, set_status, update_status_by_id, increment_by_id, insert_attempt,
}
use event_driven_notificatio.Repository.Lookup.{find-update_where}
use event_driven_notificatio.Repository.Notifications.{
  update_status, increment_attempt, create_delivery_attempt,
}
use event_driven_notificatio.Worker.Frame.{set_status-id}

-- The row of a notification, as it is found by its ID.
abbrev pub At : (env : Services) → ℕ → W env → Row → Type 0
At env id w row = find (has_id id) w.db.notifications ≡ some row

-- `attempt_count = attempt_count + 1`
abbrev pub counted : ℕ → Row → Row
counted t row = record row { attempt_count = row.attempt_count + 1; updated_at = t }

module _ (env : Services) (steady : (n : ℕ) → env.fault n ≡ answered) (id : ℕ) where
  pub update_status-world :
      (s : Status) (e : Str) (w : W env)
      → (update_status env id s e w).1 ≡ record w {
        step = suc (suc w.step);
        db = (update_status_by_id s e (to_micros (env.clock w.step)) id w.db).1;
      }
  unfolding update_status now
  update_status-world s e w =
      let w1 : W env = record w { step = suc w.step } in
      ap (λ p. p.1)
        (exec-answered env failure
          (λ (t : ℕ). update_status_by_id s e (to_micros (env.clock w.step)) id) w1
          (steady (suc w.step)))

  pub increment-world :
      (w : W env)
      → (increment_attempt env id w).1
        ≡ record w { step = suc w.step; db = (increment_by_id id (env.db_clock w.step) w.db).1 }
  unfolding increment_attempt
  increment-world w =
      ap (λ p. p.1) (exec-answered env failure (increment_by_id id) w (steady w.step))

  pub update-At :
      (s : Status) (e : Str) (w : W env) (row : Row)
      → At env id w row
      → (t : ℕ) × At env id (update_status env id s e w).1 (set_status s e t row)
  unfolding update_status_by_id
  update-At s e w row at =
      let t = to_micros (env.clock w.step) in
      (
        t,
        ap (λ v. find (has_id id) v.db.notifications) (update_status-world s e w)
            ∙ find-update_where id (set_status s e t) (set_status-id s e t) w.db.notifications
            ∙ ap (Option.map (set_status s e t)) at,
      )

  pub increment-At :
      (w : W env) (row : Row)
      → At env id w row
      → (t : ℕ) × At env id (increment_attempt env id w).1 (counted t row)
  unfolding increment_by_id
  increment-At w row at =
      let t = env.db_clock w.step in
      (
        t,
        ap (λ v. find (has_id id) v.db.notifications) (increment-world w)
            ∙ find-update_where id (counted t) (λ r. refl) w.db.notifications
            ∙ ap (Option.map (counted t)) at,
      )

insert_attempt-notifications :
    (a : AttemptRow) (db : Database) → (insert_attempt a db).1.notifications ≡ db.notifications
unfolding insert_attempt
insert_attempt-notifications a db = ground arith

module _ (env : Services) (id : ℕ) where
  -- An attempt that is recorded, or not, leaves the notifications alone.
  pub attempt-At :
      (a : DeliveryAttempt) (w : W env) (row : Row)
      → At env id w row
      → At env id (create_delivery_attempt env a w).1 row
  unfolding create_delivery_attempt now next_uuid
  attempt-At a w row at =
      let w1 : W env = record w { step = suc (suc w.step) } in
      let a' =
        to_attempt_row
          (record a { id = env.new_uuid w.step; created_at = env.clock (suc w.step) }) in
      exec-db env failure (λ _. insert_attempt a') w1
        (λ db. find (has_id id) db.notifications ≡ some row) at (kept a' w.db at)
    where
      kept :
          (a' : AttemptRow) (db : Database)
          → find (has_id id) db.notifications ≡ some row
          → find (has_id id) (insert_attempt a' db).1.notifications ≡ some row
      kept a' db e = rw (insert_attempt-notifications a' db) e

-- The statements change nothing but the tables, however they end.
module _ (env : Services) (id : ℕ) where
  pub update_status-Same :
      (s : Status) (e : Str) (w : W env) → SameButTables env w (update_status env id s e w).1
  unfolding update_status now
  update_status-Same s e w =
      let w1 : W env = record w { step = suc w.step } in
      let h =
        exec-SameButTables env failure
          (λ (t : ℕ). update_status_by_id s e (to_micros (env.clock w.step)) id) w1 in
      record {
        redis = h.redis;
        subscribers = h.subscribers;
        frames = h.frames;
        metrics = h.metrics;
        requests = h.requests;
      }

  pub increment-Same : (w : W env) → SameButTables env w (increment_attempt env id w).1
  unfolding increment_attempt
  increment-Same w = exec-SameButTables env failure (increment_by_id id) w

pub attempt-Same :
    (env : Services) (a : DeliveryAttempt) (w : W env)
    → SameButTables env w (create_delivery_attempt env a w).1
unfolding create_delivery_attempt now next_uuid
attempt-Same env a w =
    let w1 : W env = record w { step = suc (suc w.step) } in
    let a' =
      to_attempt_row (record a { id = env.new_uuid w.step; created_at = env.clock (suc w.step) }) in
    let h = exec-SameButTables env failure (λ (t : ℕ). insert_attempt a') w1 in
    record {
      redis = h.redis;
      subscribers = h.subscribers;
      frames = h.frames;
      metrics = h.metrics;
      requests = h.requests;
    }
