-- ===== src/Repository/Scheduling.antt =====
-- What FetchScheduledDue does to the table, and what it returns.
use event_driven_notificatio.Prelude.{
  ℕ, zero, suc, ◌≤◌, ◌≡◌, ◌⊎◌, inl, inr, refl, sym, ◌∙◌, subst, Bool, true, false, Bool-cases,
  Option-cases, none, some, Option, List, [], ◌∷◌, map, take, select, find, All, arith, Result, ok,
  err,
}
use event_driven_notificatio.Domain.{Notification, Status, scheduled, is_status}
use event_driven_notificatio.Services.{Services, Row, W, exec, read_rows}
use event_driven_notificatio.Services.Effects.{exec-ok, exec-db}
use event_driven_notificatio.Repository.Rows.{scan_notification}
use event_driven_notificatio.Repository.Sql.{
  PgError, failure, has_id, has_come, is_due, due_ids, listed, fetch_due, mark_pending,
}
use event_driven_notificatio.Repository.Tables.{IsTable}
use event_driven_notificatio.Repository.Lookup.{find-update_where_any}
use event_driven_notificatio.Repository.Due.{listed-due, selected-found}
use event_driven_notificatio.Repository.Notifications.{scan_all, fetch_scheduled_due}
use event_driven_notificatio.Repository.Keeping.{scan_all-db}

-- Scheduled, for a time that has come.
abbrev pub IsDue : ℕ → Row → Type 0
IsDue now row = (row.status ≡ scheduled) × (t : ℕ) × (row.scheduled_at ≡ some t) × (t ≤ now)

scheduled_of : (s : Status) → is_status s scheduled ≡ true → s ≡ scheduled
scheduled_of Status.pending e = cc
scheduled_of Status.scheduled e = refl
scheduled_of Status.queued e = cc
scheduled_of Status.processing e = cc
scheduled_of Status.delivered e = cc
scheduled_of Status.failed e = cc
scheduled_of Status.cancelled e = cc

come_at : (now : ℕ) (o : Option ℕ) → has_come now o ≡ true → (t : ℕ) × (o ≡ some t) × (t ≤ now)
come_at now none e = cc
come_at now (some t) e = (t, refl, ground arith)

is_due-IsDue : (now : ℕ) (row : Row) → is_due now row ≡ true → IsDue now row
is_due-IsDue now row e =
    let (t, at, past) = come_at now row.scheduled_at (ground arith) in
    (scheduled_of row.status (ground arith), t, at, past)

module _ (env : Services) (limit : ℕ) (w : W env) where
  abbrev t : ℕ
  t = env.db_clock w.step

  abbrev locked : ℕ → Bool
  locked = env.locked w.step

  fetched_rows :
      (row : Row)
      → IsTable w.db.notifications
      → find (has_id row.id) w.db.notifications ≡ some row
      → let rows' = (fetch_due locked limit t w.db).1.notifications in
        (find (has_id row.id) rows' ≡ some row)
        ⊎ (IsDue t row
            × (locked row.id ≡ false)
            × (find (has_id row.id) rows' ≡ some (mark_pending t row)))
  unfolding fetch_due
  fetched_rows row h found =
      let ids = due_ids locked limit t w.db.notifications in
      let after =
        find-update_where_any row.id (listed ids) (mark_pending t) (λ r. refl) w.db.notifications in
      elim (Bool-cases (listed ids row)) [
        | inl picked ↦
            let due = listed-due locked limit t w.db.notifications row h found picked in
            inr (is_due-IsDue t row (ground arith), ground arith, after ∙ rw found (rw picked refl))
        | inr other ↦ inl (after ∙ rw found (rw other refl))
      ]

  abbrev pub Fetched : Row → W env → Type 0
  Fetched row w' =
      (find (has_id row.id) w'.db.notifications ≡ some row)
      ⊎ (IsDue t row
          × (locked row.id ≡ false)
          × (find (has_id row.id) w'.db.notifications ≡ some (mark_pending t row)))

  -- A notification that FetchScheduledDue finds in the table stays as it is, or it was scheduled for a
  -- time that has come, no other transaction has locked it, and it is pending now: so a notification
  -- of any other status is never touched. This holds whichever calls fail, in a table that meets its
  -- constraints.
  pub fetch_scheduled_due_moves :
      (row : Row)
      → IsTable w.db.notifications
      → find (has_id row.id) w.db.notifications ≡ some row
      → Fetched row (fetch_scheduled_due env limit w).1
  unfolding fetch_scheduled_due
  fetch_scheduled_due_moves row h found =
      let stmt = fetch_due locked limit in
      let run = exec env failure stmt w in
      subst
        (λ db.
          (find (has_id row.id) db.notifications ≡ some row)
          ⊎ (IsDue t row
              × (locked row.id ≡ false)
              × (find (has_id row.id) db.notifications ≡ some (mark_pending t row))))
        (sym (scan_all-db env run.0 run.1))
        (exec-db env failure stmt w
          (λ db.
            (find (has_id row.id) db.notifications ≡ some row)
            ⊎ (IsDue t row
                × (locked row.id ≡ false)
                × (find (has_id row.id) db.notifications ≡ some (mark_pending t row))))
          (inl found) (fetched_rows row h found))

  -- What is returned, by the row that it was.
  abbrev pub Taken : Notification → Type 0
  Taken n =
      (row : Row) × (find (has_id row.id) w.db.notifications ≡ some row)
      × IsDue t row
      × (n ≡ scan_notification env (mark_pending t row))

  Taken-rows :
      (rs : List Row)
      → IsTable w.db.notifications
      → All
          (λ r.
            (find (has_id r.id) w.db.notifications ≡ some r)
            × (listed (due_ids locked limit t w.db.notifications) r ≡ true))
          rs
      → All Taken (map (scan_notification env) (map (mark_pending t) rs))
  Taken-rows [] h a = tt
  Taken-rows (r ∷ rs) h a =
      let due = listed-due locked limit t w.db.notifications r h a.0.0 a.0.1 in
      ((r, a.0.0, is_due-IsDue t r (ground arith), refl), Taken-rows rs h a.1)

  Taken-take :
      (k : ℕ) (rs : List Row)
      → All Taken (map (scan_notification env) rs)
      → All Taken (map (scan_notification env) (take k rs))
  Taken-take zero rs a = tt
  Taken-take (suc k) [] a = tt
  Taken-take (suc k) (r ∷ rs) a = (a.0, Taken-take k rs a.1)

  Taken-read :
      (ns : List Notification) (rs : List Row) (v : W env)
      → All Taken (map (scan_notification env) rs)
      → map (scan_notification env) (read_rows env rs v).0 ≡ ns
      → All Taken ns
  unfolding read_rows
  Taken-read ns rs v a e = elim (Option-cases (env.breaks_after v.step)) [
    | inl whole ↦ subst (All Taken) (sym (rw whole refl) ∙ e) a
    | inr (k, broken) ↦ subst (All Taken) (sym (rw broken refl) ∙ e) (Taken-take k rs a)
  ]

  Taken-scan :
      (ns : List Notification) (r : Result PgError (List Row)) (v : W env)
      → ((rs : List Row) → r ≡ ok rs → All Taken (map (scan_notification env) rs))
      → (scan_all env r v).0 ≡ ok ns
      → All Taken ns
  unfolding scan_all
  Taken-scan ns (err x) v h e = cc
  Taken-scan ns (ok rs) v h e = Taken-read ns rs v (h rs refl) cc

  fetched-rows :
      (rs : List Row)
      → (exec env failure (fetch_due locked limit) w).0 ≡ ok rs
      → IsTable w.db.notifications
      → All Taken (map (scan_notification env) rs)
  unfolding fetch_due
  fetched-rows rs e h =
      let ids = due_ids locked limit t w.db.notifications in
      let same : ok (map (mark_pending t) (select (listed ids) w.db.notifications)) ≡ ok rs =
        exec-ok env failure (fetch_due locked limit) w e in
      let unwrapped : map (mark_pending t) (select (listed ids) w.db.notifications) ≡ rs = cc in
      subst (λ x. All Taken (map (scan_notification env) x)) unwrapped
        (Taken-rows (select (listed ids) w.db.notifications) h
          (selected-found (listed ids) w.db.notifications h))

  -- What FetchScheduledDue returns are notifications of the table that were scheduled for a time that
  -- has come, as they are with the status pending; this holds also where the result set breaks off. It
  -- needs a table that meets its constraints.
  pub fetch_scheduled_due_returns :
      (ns : List Notification)
      → IsTable w.db.notifications
      → (fetch_scheduled_due env limit w).0 ≡ ok ns
      → All Taken ns
  unfolding fetch_scheduled_due
  fetch_scheduled_due_returns ns h e =
      let run = exec env failure (fetch_due locked limit) w in
      Taken-scan ns run.0 run.1 (λ rs read. fetched-rows rs read h) e
