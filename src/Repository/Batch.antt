-- ===== src/Repository/Batch.antt =====
-- CreateBatch of internal/repository/notification.go. The transaction reads and writes tables of its
-- own, which COMMIT puts in the place of the tables of the world; `tx.Rollback` drops them.
use event_driven_notificatio.Prelude.{ℕ, suc, List, [], ◌∷◌, Result, ok, err}
use event_driven_notificatio.Prelude.State.{pure, ◌>>=◌}
use event_driven_notificatio.Domain.{Error, idempotency_conflict, internal, Notification}
use event_driven_notificatio.Services.{
  Services, Database, Action, Fault, answered, refused, unacknowledged, exec, now, next_uuid,
}
use event_driven_notificatio.Repository.Rows.{to_row}
use event_driven_notificatio.Repository.Sql.{
  Statement, PgError, unique_violation, failure, insert_notification,
}

-- The error of an INSERT: no look at the constraint here.
unfoldable pub batch_error : PgError → Error
batch_error (unique_violation name) = idempotency_conflict
batch_error failure = internal

-- The result of a call in the transaction, with its tables where the call was answered.
abbrev pub in_transaction : Result PgError (Unit {0}) × Database → Result Error Database
in_transaction (ok u, tables) = ok tables
in_transaction (err e, tables) = err (batch_error e)

abbrev pub tx_result : Fault → Result PgError (Unit {0}) × Database → Result Error Database
tx_result answered x = in_transaction x
tx_result refused x = err internal
tx_result unacknowledged x = err internal

-- What is inserted, the notifications with their IDs and times, and the tables after it.
abbrev pub Inserted : Type 0
Inserted = List Notification × Database

abbrev pub and_inserted : Notification → Result Error Inserted → Result Error Inserted
and_inserted n (ok (ns, tables)) = ok (n ∷ ns, tables)
and_inserted n (err e) = err e

module _ (env : Services) where
  -- `tx.Exec`
  unfoldable pub tx_exec : Statement (Unit {0}) → Database → Action env (Result Error Database)
  unfolding batch_error
  tx_exec statement tables w =
      (tx_result (env.fault w.step) (statement tables), record w { step = suc w.step })

  abbrev pub stamp : ℕ → ℕ → Notification → Notification
  stamp time id n = record n { id = id; created_at = time; updated_at = time }

  unfoldable pub and_insert :
      (Database → Action env (Result Error Inserted))
      → Notification
      → Result Error Database
      → Action env (Result Error Inserted)
  and_insert next n (err e) = pure (err e)
  and_insert next n (ok tables) = do rest ← next tables; pure (and_inserted n rest)

  -- The loop, whose first error ends it.
  unfoldable pub insert_all : ℕ → List Notification → Database → Action env (Result Error Inserted)
  unfolding tx_exec and_insert
  insert_all time [] tables = pure (ok ([], tables))
  insert_all time (n ∷ ns) tables = do
    id ← next_uuid env
    r ← tx_exec (insert_notification (to_row env (stamp time id n))) tables
    and_insert (insert_all time ns) (stamp time id n) r

  abbrev pub committed :
      List Notification → Result PgError (Unit {0}) → Result Error (List Notification)
  committed ns (ok u) = ok ns
  committed ns (err e) = err internal

  unfoldable pub commit : Result Error Inserted → Action env (Result Error (List Notification))
  commit (err e) = pure (err e)
  commit (ok (ns, tables)) = do
    r ← exec env failure (λ _ db. (ok tt, tables))
    pure (committed ns r)

  unfoldable pub on_begun :
      List Notification → Result PgError Database → Action env (Result Error (List Notification))
  unfolding insert_all commit
  on_begun ns (err e) = pure (err internal)
  on_begun ns (ok tables) = do time ← now env; inserted ← insert_all time ns tables; commit inserted

  -- The notifications come back as the method leaves them.
  unfoldable pub create_batch : List Notification → Action env (Result Error (List Notification))
  unfolding on_begun
  create_batch ns = do began ← exec env failure (λ _ db. (ok db, db)); on_begun ns began
