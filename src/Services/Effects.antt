-- ===== src/Services/Effects.antt =====
-- What a call can change, however it ends.
use event_driven_notificatio.Prelude.{ℕ, suc, ◌≡◌, refl, Result, ok, arith}
use event_driven_notificatio.Services.Interface.{Services, Fault, answered, refused, unacknowledged}
use event_driven_notificatio.Services.Process.{Database, W, exec, redis_do}

module _ (env : Services) where
  -- Everything but the tables and the call number.
  pub record SameButTables (w w' : W env) : Type 0 where
    pub redis : w'.redis ≡ w.redis
    pub subscribers : w'.subscribers ≡ w.subscribers
    pub frames : w'.frames ≡ w.frames
    pub metrics : w'.metrics ≡ w.metrics
    pub requests : w'.requests ≡ w.requests

  -- Everything but Redis and the call number.
  pub record SameButRedis (w w' : W env) : Type 0 where
    pub db : w'.db ≡ w.db
    pub subscribers : w'.subscribers ≡ w.subscribers
    pub frames : w'.frames ≡ w.frames
    pub metrics : w'.metrics ≡ w.metrics
    pub requests : w'.requests ≡ w.requests

  module _ {E A : Type 0} (lost : E) (stmt : ℕ → Database → Result E A × Database) (w : W env) where
    pub exec-SameButTables : SameButTables w (exec env lost stmt w).1
    unfolding exec
    exec-SameButTables = ground arith

    -- The tables are as they were, or as the statement leaves them.
    pub exec-db :
        (P : Database → Type 0)
        → P w.db
        → P (stmt (env.db_clock w.step) w.db).1
        → P (exec env lost stmt w).1.db
    unfolding exec
    exec-db P before done = go (env.fault w.step) refl
      where
        go : (f : Fault) → env.fault w.step ≡ f → P (exec env lost stmt w).1.db
        go answered e = rw (e, exec) done
        go refused e = rw (e, exec) before
        go unacknowledged e = rw (e, exec) done

    -- A result that is no error is the statement's own.
    pub exec-ok :
        {a : A} → (exec env lost stmt w).0 ≡ ok a → (stmt (env.db_clock w.step) w.db).0 ≡ ok a
    unfolding exec
    exec-ok {a} e = go (env.fault w.step) refl
      where
        go : (f : Fault) → env.fault w.step ≡ f → (stmt (env.db_clock w.step) w.db).0 ≡ ok a
        go answered f = ground arith
        go refused f = ground arith
        go unacknowledged f = ground arith

    pub exec-answered :
        env.fault w.step ≡ answered
        → exec env lost stmt w ≡ (
          (stmt (env.db_clock w.step) w.db).0,
          record w { step = suc w.step; db = (stmt (env.db_clock w.step) w.db).1 },
        )
    unfolding exec
    exec-answered e = ground arith

  module _ {A : Type 0} (command : env.Redis → A × env.Redis) (w : W env) where
    pub redis_do-SameButRedis : SameButRedis w (redis_do env command w).1
    unfolding redis_do
    redis_do-SameButRedis = ground arith

    pub redis_do-answered :
        env.fault w.step ≡ answered
        → redis_do env command w
          ≡ (ok (command w.redis).0, record w { step = suc w.step; redis = (command w.redis).1 })
    unfolding redis_do
    redis_do-answered e = ground arith
