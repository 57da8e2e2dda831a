-- ===== src/Repository/Catalog.antt =====
-- The table of templates and the references to it, from the constraints of migrations/.
use event_driven_notificatio.Prelude.{
  ℕ, ◌≡◌, refl, true, false, Bool, Option, List, [], ◌∷◌, ◌++◌, any, All, arith,
}
use event_driven_notificatio.Prelude.Text.{Str}
use event_driven_notificatio.Domain.{Status, channel_valid}
use event_driven_notificatio.Services.{Row, AttemptRow, TemplateRow, Database}
use event_driven_notificatio.Repository.Sql.{
  has_template, update_where, set_status, insert_notification, update_status_by_id, increment_by_id,
  cancel_by_id, fetch_due, insert_attempt,
}
use event_driven_notificatio.Repository.Templates.{is_template, is_named}

-- No two templates share an ID or a name, and every channel is a value of its enum.
abbrev pub IsCatalog : List TemplateRow → Type 0
IsCatalog [] = Unit
IsCatalog (t ∷ ts) =
    (any (is_template t.id) ts ≡ false)
    × (any (is_named t.name) ts ≡ false)
    × (channel_valid t.channel ≡ true)
    × IsCatalog ts

-- Every template that a notification refers to is there.
abbrev pub AreLinked : List TemplateRow → List Row → Type 0
AreLinked ts rows = All (λ r. has_template r.template_id ts ≡ true) rows

abbrev pub IsLinked : Database → Type 0
IsLinked db = IsCatalog db.templates × AreLinked db.templates db.notifications

append-AreLinked :
    (ts : List TemplateRow) (r : Row) (rows : List Row)
    → AreLinked ts rows
    → has_template r.template_id ts ≡ true
    → AreLinked ts (rows ++ r ∷ [])
append-AreLinked ts r [] h e = (e, tt)
append-AreLinked ts r (x ∷ rows) h e = (h.0, append-AreLinked ts r rows h.1 e)

update-AreLinked :
    (ts : List TemplateRow) (p : Row → Bool) (f : Row → Row)
    → ((r : Row) → (f r).template_id ≡ r.template_id)
    → (rows : List Row) → AreLinked ts rows
    → AreLinked ts (update_where p f rows)
unfolding update_where
update-AreLinked ts p f keeps [] h = tt
update-AreLinked ts p f keeps (r ∷ rows) h =
    (ground (arith, keeps r, h.0), update-AreLinked ts p f keeps rows h.1)

pub relink :
    (ts ts' : List TemplateRow)
    → ((id : Option ℕ) → has_template id ts ≡ true → has_template id ts' ≡ true)
    → (rows : List Row) → AreLinked ts rows
    → AreLinked ts' rows
relink ts ts' keeps [] h = tt
relink ts ts' keeps (r ∷ rows) h = (keeps r.template_id h.0, relink ts ts' keeps rows h.1)

set_status-template :
    (s : Status) (e : Str) (t : ℕ) (r : Row) → (set_status s e t r).template_id ≡ r.template_id
unfolding set_status
set_status-template Status.delivered e t r = refl
set_status-template s [] t r = refl
set_status-template s (c ∷ e) t r = refl

pub insert-IsLinked :
    (row : Row) (db : Database) → IsLinked db → IsLinked (insert_notification row db).1
unfolding insert_notification
insert-IsLinked row db h = ground (arith, append-AreLinked db.templates row db.notifications h.1)

pub update-IsLinked :
    (s : Status) (e : Str) (t id : ℕ) (db : Database)
    → IsLinked db
    → IsLinked (update_status_by_id s e t id db).1
unfolding update_status_by_id
update-IsLinked s e t id db h = (
  h.0,
  update-AreLinked db.templates _ (set_status s e t) (set_status-template s e t) db.notifications
      h.1,
)

pub increment-IsLinked :
    (id t : ℕ) (db : Database) → IsLinked db → IsLinked (increment_by_id id t db).1
unfolding increment_by_id
increment-IsLinked id t db h =
    (h.0, update-AreLinked db.templates _ _ (λ r. refl) db.notifications h.1)

pub cancel-IsLinked : (id t : ℕ) (db : Database) → IsLinked db → IsLinked (cancel_by_id id t db).1
unfolding cancel_by_id
cancel-IsLinked id t db h =
    (h.0, update-AreLinked db.templates _ _ (λ r. refl) db.notifications h.1)

pub fetch-IsLinked :
    (locked : ℕ → Bool) (limit t : ℕ) (db : Database)
    → IsLinked db
    → IsLinked (fetch_due locked limit t db).1
unfolding fetch_due
fetch-IsLinked locked limit t db h =
    (h.0, update-AreLinked db.templates _ _ (λ r. refl) db.notifications h.1)

pub attempt-IsLinked :
    (a : AttemptRow) (db : Database) → IsLinked db → IsLinked (insert_attempt a db).1
unfolding insert_attempt
attempt-IsLinked a db h = ground arith
