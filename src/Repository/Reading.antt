-- ===== src/Repository/Reading.antt =====
-- GetByID of internal/repository/notification.go: its results and the world after it.
use event_driven_notificatio.Prelude.{ℕ, suc, ◌≡◌, refl, Option, none, some, ok, err, find, arith}
use event_driven_notificatio.Domain.{Notification, Error}
use event_driven_notificatio.Services.{Services, Row, W, exec, answered}
use event_driven_notificatio.Repository.Rows.{scan_notification}
use event_driven_notificatio.Repository.Sql.{has_id, select_by_id}
use event_driven_notificatio.Repository.Lookup.{find-has_id}
use event_driven_notificatio.Repository.Notifications.{get_by_id}

module _ (env : Services) (id : ℕ) (w : W env) where
  -- The world afterwards, whatever the outcome of the call.
  pub get_by_id-world : (get_by_id env id w).1 ≡ record w { step = suc w.step }
  unfolding get_by_id exec select_by_id
  get_by_id-world = ground arith

  -- What it returns was found under the ID.
  pub get_by_id-ok :
      {n : Notification}
      → (get_by_id env id w).0 ≡ ok n
      → (row : Row) × (find (has_id id) w.db.notifications ≡ some row)
        × (scan_notification env row ≡ n)
  unfolding get_by_id exec select_by_id
  get_by_id-ok {n} h = go (find (has_id id) w.db.notifications) refl
    where
      go :
          (o : Option Row)
          → find (has_id id) w.db.notifications ≡ o
          → (row : Row) × (o ≡ some row) × (scan_notification env row ≡ n)
      go none e = absurd (ground arith)
      go (some row) e = (row, refl, ground arith)

  pub get_by_id-id : {n : Notification} → (get_by_id env id w).0 ≡ ok n → n.id ≡ id
  unfolding scan_notification
  get_by_id-id {n} h =
      let (row, found, read) = get_by_id-ok h in
      rw (← read) (find-has_id id w.db.notifications found)

  -- Where the call is answered, the result is the row, or `not_found`.
  pub get_by_id-answered :
      env.fault w.step ≡ answered
      → (get_by_id env id w).0 ≡ elim (find (has_id id) w.db.notifications) [
        | some row ↦ ok (scan_notification env row)
        | none ↦ err Error.not_found
      ]
  unfolding get_by_id exec select_by_id
  get_by_id-answered h = ground arith
