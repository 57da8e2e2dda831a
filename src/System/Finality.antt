-- ===== src/System/Finality.antt =====
-- Notifications that are over, across runs of the process.
use event_driven_notificatio.Prelude.{
  ℕ, ◌≡◌, ◌≢◌, refl, ap, ◌∙◌, sym, subst, List, [], ◌∷◌, ◌++◌, ok, some, Bool, false, Bool-cases,
  inl, inr, find, any, select, All, arith, ◌==◌,
}
use event_driven_notificatio.Prelude.Text.{Str}
use event_driven_notificatio.Domain.{Notification, Status, is_status}
use event_driven_notificatio.Services.{Services, Row, AttemptRow, Database, W, now}
use event_driven_notificatio.Services.Effects.{exec-db}
use event_driven_notificatio.Repository.Rows.{to_row, to_micros}
use event_driven_notificatio.Repository.Sql.{
  failure, has_id, may_cancel, insert_notification, update_status_by_id, set_status, cancel_by_id,
  fetch_due,
}
use event_driven_notificatio.Repository.Tables.{IsTable}
use event_driven_notificatio.Repository.Lookup.{
  find-update_where_other, find-update_where_any, any-has_id-of-find,
}
use event_driven_notificatio.Repository.Integrity.{IsSound}
use event_driven_notificatio.Repository.Keeping.{cancel_outcome-db, scan_all-db}
use event_driven_notificatio.Repository.Notifications
use event_driven_notificatio.Repository.Sql.{mark_pending, due_ids, listed}
use event_driven_notificatio.Repository.Due.{listed-due}
use event_driven_notificatio.Queue.Consumer.{Message}
use event_driven_notificatio.Worker.Dispatcher.{Dispatcher, handle}
use event_driven_notificatio.Worker.Frame.{set_status-id}
use event_driven_notificatio.Worker.Isolation.{handle-Frame}
use event_driven_notificatio.Worker.Requests.{handle_skips_final}
use event_driven_notificatio.Worker.Finality.{IsOver}

-- The row of a notification and the delivery attempts recorded for it.
abbrev pub attempts_of : ℕ → List AttemptRow → List AttemptRow
attempts_of id attempts = select (λ a. a.notification_id == id) attempts

abbrev pub History : Row → List AttemptRow → Database → Type 0
History row log db =
    (find (has_id row.id) db.notifications ≡ some row) × (attempts_of row.id db.attempts ≡ log)

not_cancellable : (s : Status) → IsOver s → may_cancel s ≡ false
not_cancellable s (inl e) = rw e
not_cancellable s (inr (inl e)) = rw e
not_cancellable s (inr (inr e)) = rw e

not_scheduled : (s : Status) → IsOver s → is_status s Status.scheduled ≡ false
not_scheduled s (inl e) = rw e
not_scheduled s (inr (inl e)) = rw e
not_scheduled s (inr (inr e)) = rw e

find-append_found :
    (id : ℕ) (row r : Row) (rows : List Row)
    → find (has_id id) rows ≡ some row
    → find (has_id id) (rows ++ r ∷ []) ≡ some row
unfolding find
find-append_found id row r [] e = cc
find-append_found id row r (x ∷ rows) e = ground (arith, find-append_found id row r rows)

insert_ok-fresh :
    (r : Row) (db : Database)
    → (insert_notification r db).0 ≡ ok tt
    → any (has_id r.id) db.notifications ≡ false
unfolding insert_notification
insert_ok-fresh r db e = ground arith

attempts_of-append :
    (id j : ℕ) (before new : List AttemptRow)
    → j ≢ id
    → All (λ a. a.notification_id ≡ j) new
    → attempts_of id (before ++ new) ≡ attempts_of id before
unfolding select
attempts_of-append id j [] [] other a = refl
attempts_of-append id j [] (x ∷ new) other a =
    ground (arith, attempts_of-append id j [] new other a.1)
attempts_of-append id j (x ∷ before) new other a =
    ground (arith, attempts_of-append id j before new other a)

module _ (row : Row) (log : List AttemptRow) (over : IsOver row.status) where
  abbrev pub P : Database → Type 0
  P = History row log

  pub insert-kept : (r : Row) (db : Database) → P db → P (insert_notification r db).1
  unfolding insert_notification
  insert-kept r db h = ground (arith, find-append_found row.id row r db.notifications h.0)

  update-kept :
      (j : ℕ) (s : Status) (e : Str) (t : ℕ) (db : Database)
      → j ≢ row.id
      → P db
      → P (update_status_by_id s e t j db).1
  unfolding update_status_by_id
  update-kept j s e t db other h = (
    find-update_where_other row.id (has_id j) (set_status s e t) (set_status-id s e t)
          db.notifications (λ r same. ground arith)
        ∙ h.0,
    h.1,
  )

  cancel-kept : (j t : ℕ) (db : Database) → P db → P (cancel_by_id j t db).1
  unfolding cancel_by_id
  cancel-kept j t db h =
      let stays = not_cancellable row.status over in
      (find-update_where_any row.id _ _ (λ r. refl) db.notifications ∙ rw h.0 (ground arith), h.1)

  fetch-kept :
      (locked : ℕ → Bool) (limit t : ℕ) (db : Database)
      → IsTable db.notifications
      → P db
      → P (fetch_due locked limit t db).1
  unfolding fetch_due
  fetch-kept locked limit t db valid h =
      let ids = due_ids locked limit t db.notifications in
      let after =
        find-update_where_any row.id (listed ids) (mark_pending t) (λ r. refl) db.notifications in
      let waits = not_scheduled row.status over in
      elim (Bool-cases (listed ids row)) [
        | inl picked ↦
            let due = listed-due locked limit t db.notifications row valid h.0 picked in
            absurd (ground arith)
        | inr other ↦ (after ∙ rw h.0 (rw other refl), h.1)
      ]

  module _ (env : Services) where
    -- A notification that was inserted under an ID was not there before.
    pub inserted-fresh :
        (n : Notification) (db : Database)
        → P db
        → (insert_notification (to_row env n) db).0 ≡ ok tt
        → n.id ≢ row.id
    unfolding to_row
    inserted-fresh n db h e =
        let fresh = insert_ok-fresh (to_row env n) db e in
        let there = any-has_id-of-find row.id db.notifications h.0 in
        λ same. cc (sym fresh ∙ ap (λ k. any (has_id k) db.notifications) same ∙ there)

    pub update_status-kept :
        (j : ℕ) (s : Status) (e : Str) (w : W env)
        → j ≢ row.id
        → P w.db
        → P (Notifications.update_status env j s e w).1.db
    unfolding Notifications.update_status now
    update_status-kept j s e w other h =
        exec-db env failure (λ (t : ℕ). update_status_by_id s e (to_micros (env.clock w.step)) j) _
          P h (update-kept j s e _ w.db other h)

    pub cancelled-kept : (j : ℕ) (w : W env) → P w.db → P (Notifications.cancel env j w).1.db
    unfolding Notifications.cancel
    cancelled-kept j w h =
        subst P (sym (cancel_outcome-db env j _ _))
          (exec-db env failure (cancel_by_id j) w P h (cancel-kept j _ w.db h))

    pub fetched-kept :
        (limit : ℕ) (w : W env)
        → IsSound w.db
        → P w.db
        → P (Notifications.fetch_scheduled_due env limit w).1.db
    unfolding Notifications.fetch_scheduled_due
    fetched-kept limit w valid h =
        let stmt = fetch_due (env.locked w.step) limit in
        subst P (sym (scan_all-db env _ _)) (
          exec-db env failure stmt w P h
            (fetch-kept (env.locked w.step) limit (env.db_clock w.step) w.db valid h))

    pub handled-kept :
        (d : Dispatcher) (msg : Message) (j : ℕ) (w : W env)
        → P w.db
        → P (handle env d msg j w).1.db
    handled-kept d msg j w h = elim (Bool-cases (j == row.id)) [
      | inl same ↦
          let e : j ≡ row.id = ground arith in
          subst P
            (sym
              (handle_skips_final env d msg j w row
                (subst (λ k. find (has_id k) w.db.notifications ≡ some row) (sym e) h.0) over).0)
            h
      | inr other ↦
          let ne : j ≢ row.id = λ e. ground arith in
          let f = (handle-Frame env d msg j w).db in
          let (new, after, mine) = f.attempts in
          (
            f.others row.id (λ e. ne (sym e)) ∙ h.0,
            ap (attempts_of row.id) after
                ∙ attempts_of-append row.id j w.db.attempts new ne mine
                ∙ h.1,
          )
    ]
