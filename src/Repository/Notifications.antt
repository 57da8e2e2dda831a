-- ===== src/Repository/Notifications.antt =====
-- The methods of `NotificationRepository`. `exec` runs a statement in the environment; the database's
-- errors become the sentinel errors of the domain as in the source.
use event_driven_notificatio.Prelude.{
  ℕ, zero, suc, ◌+◌, ◌||◌, ltb, leb, if◌then◌else◌, none, some, List, [], ◌∷◌, map, length, take,
  get_last?, Result, ok, err, is_ok,
}
use event_driven_notificatio.Prelude.Int.{ℤ, pos, negsuc}
use event_driven_notificatio.Prelude.Text.{Str, str, contains}
use event_driven_notificatio.Prelude.State.{pure, ◌>>=◌}
use event_driven_notificatio.Domain.{
  Error, not_found, duplicate, idempotency_conflict, cannot_cancel, internal, Notification, Status,
  NotificationFilter, NotificationList, DeliveryAttempt,
}
use event_driven_notificatio.Services.{
  Row, AttemptRow, Services, Action, exec, read_rows, now, next_uuid,
}
use event_driven_notificatio.Repository.Rows.{
  to_row, scan_notification, to_attempt_row, scan_attempt, to_micros,
}
use event_driven_notificatio.Repository.Sql.{
  PgError, unique_violation, failure, insert_notification, select_by_id, update_status_by_id,
  increment_by_id, cancel_by_id, fetch_due, insert_attempt, select_attempts, select_page,
}

-- The error of an INSERT in Create.
unfoldable pub create_error : PgError → Error
create_error (unique_violation name) =
    if contains name (str "idempotency") then idempotency_conflict else duplicate
create_error failure = internal

abbrev pub create_result : Result PgError (Unit {0}) → Result Error (Unit {0})
create_result (ok _) = ok tt
create_result (err e) = err (create_error e)

-- `filter.Limit` once it is put in range.
unfoldable pub page_size : ℤ → ℕ
page_size (negsuc n) = 50
page_size (pos n) = if leb n 0 || ltb 100 n then 50 else n

abbrev pub to_result : {A : Type 0} → Result PgError A → Result Error A
to_result (ok a) = ok a
to_result (err e) = err internal

module _ (env : Services) where
  -- The notification comes back as the method leaves it: with its ID and times.
  unfoldable pub create : Notification → Action env (Notification × Result Error (Unit {0}))
  unfolding create_error
  create n = do
    t ← now env
    id ← next_uuid env
    let n' = record n { id = id; created_at = t; updated_at = t }
    r ← exec env failure (λ _. insert_notification (to_row env n'))
    pure (n', create_result r)

  unfoldable pub get_by_id : ℕ → Action env (Result Error Notification)
  get_by_id id = do
    r ← exec env failure (λ _. select_by_id id)
    pure (elim r [
      | ok (some row) ↦ ok (scan_notification env row)
      | ok none ↦ err not_found
      | err e ↦ err internal
    ])

  unfoldable pub update_status : ℕ → Status → Str → Action env (Result Error (Unit {0}))
  update_status id status last_error = do
    t ← now env
    r ← exec env failure (λ _. update_status_by_id status last_error (to_micros t) id)
    pure (elim r [ ok zero ↦ err not_found | ok (suc _) ↦ ok tt | err e ↦ err internal ])

  unfoldable pub increment_attempt : ℕ → Action env (Result Error (Unit {0}))
  increment_attempt id = do r ← exec env failure (increment_by_id id); pure (to_result r)

  -- What `Scan` found of the row that RETURNING gives back.
  unfoldable pub cancel_outcome :
      ℕ → Result PgError (List Row) → Action env (Result Error (Unit {0}))
  cancel_outcome id (err e) = pure (err internal)
  cancel_outcome id (ok (_ ∷ _)) = pure (ok tt)
  cancel_outcome id (ok []) = do
    existing ← get_by_id id
    pure (err (if is_ok existing then cannot_cancel else not_found))

  unfoldable pub cancel : ℕ → Action env (Result Error (Unit {0}))
  unfolding cancel_outcome
  cancel id = do r ← exec env failure (cancel_by_id id); cancel_outcome id r

  -- The loop over `rows` of the methods that return notifications.
  unfoldable pub scan_all :
      Result PgError (List Row) → Action env (Result Error (List Notification))
  scan_all (err e) = pure (err internal)
  scan_all (ok rows) = do read ← read_rows env rows; pure (ok (map (scan_notification env) read))

  unfoldable pub fetch_scheduled_due : ℕ → Action env (Result Error (List Notification))
  unfolding scan_all
  fetch_scheduled_due limit w =
      (do r ← exec env failure (fetch_due (env.locked w.step) limit); scan_all r) w

  unfoldable pub create_delivery_attempt : DeliveryAttempt → Action env (Result Error (Unit {0}))
  create_delivery_attempt attempt = do
    id ← next_uuid env
    t ← now env
    r ←
        exec env failure
          λ _. insert_attempt (to_attempt_row (record attempt { id = id; created_at = t }))
    pure (to_result r)

  unfoldable pub scan_attempts :
      Result PgError (List AttemptRow) → Action env (Result Error (List DeliveryAttempt))
  scan_attempts (err e) = pure (err internal)
  scan_attempts (ok rows) = do read ← read_rows env rows; pure (ok (map scan_attempt read))

  unfoldable pub get_delivery_attempts : ℕ → Action env (Result Error (List DeliveryAttempt))
  unfolding scan_attempts
  get_delivery_attempts id = do r ← exec env failure (λ _. select_attempts id); scan_attempts r

  -- The page of at most `limit` notifications out of one more, and the cursor if there was one more.
  unfoldable pub to_page : ℕ → List Notification → NotificationList
  to_page limit ns =
      if ltb limit (length ns)
      then record {
        notifications = take limit ns;
        next_cursor = elim (get_last? (take limit ns)) [
          | none ↦ none
          | some n ↦ some (record { created_at = n.created_at; id = n.id })
        ];
      }
      else record { notifications = ns; next_cursor = none }

  unfoldable pub list_outcome : ℕ → Result Error (List Notification) → Result Error NotificationList
  list_outcome limit (err e) = err e
  list_outcome limit (ok ns) = ok (to_page limit ns)

  unfoldable pub list : NotificationFilter → Action env (Result Error NotificationList)
  unfolding page_size scan_all list_outcome
  list filter = do
    let limit = page_size filter.limit
    r ← exec env failure (λ _. select_page filter (limit + 1))
    ns ← scan_all r
    pure (list_outcome limit ns)
