-- ===== src/Repository/Sql.antt =====
-- The SQL statements of internal/repository/notification.go, each as a function on the tables that
-- it reads and writes, with the constraints of migrations/ that it can break. A connection that
-- fails is not modelled here but by the environment, and so is a text that its column refuses, being
-- too long, no UTF-8 or with a NUL character: such a call is one with the outcome `refused`.
use event_driven_notificatio.Prelude.{
  ℕ, ◌+◌, Bool, true, false, ◌&&◌, ◌||◌, not, ltb, leb, ◌==◌, if◌then◌else◌, Option, none, some,
  List, [], ◌∷◌, ◌++◌, map, length, take, select, find, any, Result, ok, err,
}
use event_driven_notificatio.Prelude.Text.{Str, str, same}
use event_driven_notificatio.Domain.{
  Status, pending, scheduled, queued, processing, delivered, failed, cancelled, status_text,
  is_status, channel_valid, priority_valid, NotificationFilter, Cursor,
}
use event_driven_notificatio.Services.{Row, AttemptRow, TemplateRow, Database}
use event_driven_notificatio.Repository.Rows.{to_micros}

-- An SQLSTATE 23505 names the unique constraint that was violated.
pub data PgError : Type 0 where
  unique_violation : Str → PgError
  failure : PgError

abbrev pub Statement : Type 0 → Type 0
Statement A = Database → Result PgError A × Database

-- `UPDATE … SET … WHERE …`
unfoldable pub update_where {ℓ} : {A : Type ℓ} → (A → Bool) → (A → A) → List A → List A
update_where p f [] = []
update_where p f (row ∷ rows) = (if p row then f row else row) ∷ update_where p f rows

-- `ORDER BY`: `le x y` says that `x` may stand before `y`.
unfoldable pub insert_by {ℓ} : {A : Type ℓ} → (A → A → Bool) → A → List A → List A
insert_by le x [] = x ∷ []
insert_by le x (y ∷ ys) = if le x y then x ∷ y ∷ ys else y ∷ insert_by le x ys

unfoldable pub order_by {ℓ} : {A : Type ℓ} → (A → A → Bool) → List A → List A
order_by le [] = []
order_by le (x ∷ xs) = insert_by le x (order_by le xs)

abbrev pub has_id : ℕ → Row → Bool
has_id id row = row.id == id

-- NULL keys are outside the partial unique index.
unfoldable pub same_key : Option Str → Option Str → Bool
same_key (some k) (some j) = same k j
same_key _ _ = false

-- The foreign key of `template_id`.
unfoldable pub has_template : Option ℕ → List TemplateRow → Bool
has_template none templates = true
has_template (some id) templates = any (λ t. t.id == id) templates

-- Create and CreateBatch: INSERT INTO notifications. The columns `channel` and `priority` are enums.
unfoldable pub insert_notification : Row → Statement (Unit {0})
unfolding same_key has_template
insert_notification row db =
    if not (channel_valid row.channel && priority_valid row.priority)
    then (err failure, db)
    else if any (has_id row.id) db.notifications
    then (err (unique_violation (str "notifications_pkey")), db)
    else if any (λ r. same_key r.idempotency_key row.idempotency_key) db.notifications
    then (err (unique_violation (str "idx_notifications_idempotency_key")), db)
    else if not (has_template row.template_id db.templates)
    then (err failure, db)
    else (ok tt, record db { notifications = db.notifications ++ row ∷ [] })

-- GetByID
unfoldable pub select_by_id : ℕ → Statement (Option Row)
select_by_id id db = (ok (find (has_id id) db.notifications), db)

-- The three statements of UpdateStatus: the columns that each sets.
unfoldable pub set_status : Status → Str → ℕ → Row → Row
set_status delivered error now row = record row {
  status = delivered;
  delivered_at = some now;
  updated_at = now;
}
set_status status [] now row = record row { status = status; updated_at = now }
set_status status (c ∷ error) now row = record row {
  status = status;
  last_error = some (c ∷ error);
  updated_at = now;
}

-- `tag.RowsAffected()` is the result.
unfoldable pub update_status_by_id : Status → Str → ℕ → ℕ → Statement ℕ
update_status_by_id status error now id db = (
  ok (length (select (has_id id) db.notifications)),
  record db {
    notifications = update_where (has_id id) (set_status status error now) db.notifications;
  },
)

-- IncrementAttempt
unfoldable pub increment_by_id : ℕ → ℕ → Statement (Unit {0})
increment_by_id id now db = (
  ok tt,
  record db {
    notifications =
        update_where (has_id id)
          (λ row. record row { attempt_count = row.attempt_count + 1; updated_at = now })
          db.notifications;
  },
)

-- `status IN ('pending', 'scheduled', 'queued')`
abbrev pub may_cancel : Status → Bool
may_cancel pending = true
may_cancel scheduled = true
may_cancel queued = true
may_cancel _ = false

-- Cancel, with the rows that RETURNING gives back.
unfoldable pub cancel_by_id : ℕ → ℕ → Statement (List Row)
cancel_by_id id now db = (
  ok (select (λ row. has_id id row && may_cancel row.status) db.notifications),
  record db {
    notifications =
        update_where (λ row. has_id id row && may_cancel row.status)
          (λ row. record row { status = cancelled; updated_at = now }) db.notifications;
  },
)

-- `scheduled_at <= NOW()`; a comparison with NULL does not hold.
abbrev pub has_come : ℕ → Option ℕ → Bool
has_come now none = false
has_come now (some t) = leb t now

-- `status = 'scheduled' AND scheduled_at <= NOW()`
abbrev pub is_due : ℕ → Row → Bool
is_due now row = is_status row.status scheduled && has_come now row.scheduled_at

abbrev pub due_before : Row → Row → Bool
due_before a b = elim a.scheduled_at [
  | none ↦ false
  | some t ↦ elim b.scheduled_at [ none ↦ true | some u ↦ leb t u ]
]

-- The subselect of FetchScheduledDue: SKIP LOCKED leaves out what another transaction has locked.
unfoldable pub due_ids : (ℕ → Bool) → ℕ → ℕ → List Row → List ℕ
due_ids locked limit now rows =
    map (λ r. r.id)
      (take limit (order_by due_before (select (λ r. is_due now r && not (locked r.id)) rows)))

abbrev pub mark_pending : ℕ → Row → Row
mark_pending now row = record row { status = pending; updated_at = now }

abbrev pub listed : List ℕ → Row → Bool
listed ids row = any (λ i. i == row.id) ids

unfoldable pub fetch_due : (ℕ → Bool) → ℕ → ℕ → Statement (List Row)
fetch_due locked limit now db =
    let ids = due_ids locked limit now db.notifications in
    (
      ok (map (mark_pending now) (select (listed ids) db.notifications)),
      record db { notifications = update_where (listed ids) (mark_pending now) db.notifications },
    )

-- CreateDeliveryAttempt: the notification has to exist.
unfoldable pub insert_attempt : AttemptRow → Statement (Unit {0})
insert_attempt row db =
    if not (any (has_id row.notification_id) db.notifications)
    then (err failure, db)
    else if any (λ a. a.id == row.id) db.attempts
    then (err (unique_violation (str "delivery_attempts_pkey")), db)
    else (ok tt, record db { attempts = db.attempts ++ row ∷ [] })

-- GetDeliveryAttempts
unfoldable pub select_attempts : ℕ → Statement (List AttemptRow)
select_attempts id db = (
  ok (
      order_by (λ a b. leb a.attempt_number b.attempt_number)
        (select (λ a. a.notification_id == id) db.attempts)),
  db,
)

-- List: `(created_at, id) < (t, i)` compares row-wise.
abbrev pub older : ℕ → ℕ → ℕ → ℕ → Bool
older t i t' i' = ltb t t' || (t == t' && ltb i i')

abbrev pub holds_if {ℓ} : {A : Type ℓ} → Option A → (A → Bool) → Bool
holds_if none p = true
holds_if (some a) p = p a

-- The conditions on status, channel and batch.
unfoldable pub matches_fields : NotificationFilter → Row → Bool
matches_fields f row =
    holds_if f.status (λ s. same (status_text row.status) s)
    && (holds_if f.channel (λ c. same row.channel c)
        && holds_if f.batch_id (λ b. elim row.batch_id [ none ↦ false | some b' ↦ b' == b ]))

-- The condition on the cursor, whose time the database reads to the microsecond.
abbrev pub is_after : Option Cursor → Row → Bool
is_after cursor row =
    holds_if cursor (λ c. older row.created_at row.id (to_micros c.created_at) c.id)

unfoldable pub matches : NotificationFilter → Row → Bool
unfolding matches_fields
matches f row = matches_fields f row && is_after f.cursor row

-- `ORDER BY created_at DESC, id DESC`
abbrev pub newest_first : Row → Row → Bool
newest_first a b = not (older a.created_at a.id b.created_at b.id)

abbrev pub is_status_text : Str → Bool
is_status_text s =
    any (λ t. same (status_text t) s)
      (pending ∷ scheduled ∷ queued ∷ processing ∷ delivered ∷ failed ∷ cancelled ∷ [])

-- A text that is no value of an enum column's type is an error.
unfoldable pub select_page : NotificationFilter → ℕ → Statement (List Row)
select_page f limit db =
    if holds_if f.status is_status_text && holds_if f.channel channel_valid
    then (ok (take limit (order_by newest_first (select (matches f) db.notifications))), db)
    else (err failure, db)
