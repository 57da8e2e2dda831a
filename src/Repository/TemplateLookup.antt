-- ===== src/Repository/TemplateLookup.antt =====
-- Finding a template in a table that a statement has changed.
use event_driven_notificatio.Prelude.{
  ℕ, ◌≡◌, refl, sym, subst, true, false, ◌==◌, not, none, some, List, [], ◌∷◌, ◌++◌, Result, ok,
  err, find, any, select, length, arith, if◌then◌else◌, Bool-cases, inl, inr,
}
use event_driven_notificatio.Domain.{Template, UpdateTemplateRequest, not_found}
use event_driven_notificatio.Services.{TemplateRow, Database}
use event_driven_notificatio.Repository.Rows.{to_micros}
use event_driven_notificatio.Repository.RoundTrip.{or_empty-nil_if_empty}
use event_driven_notificatio.Repository.Sql.{PgError, update_where}
use event_driven_notificatio.Repository.Templates.{
  is_template, to_template_row, scan_template_row, insert_template, insert_result, set_template,
  delete_result,
}

-- What the table holds of a template: times to the microsecond.
abbrev pub stored_template : Template → Template
stored_template t = record t {
  created_at = to_micros t.created_at;
  updated_at = to_micros t.updated_at;
}

pub scan-to_template_row :
    (t : Template) → scan_template_row (to_template_row t) ≡ stored_template t
unfolding scan_template_row to_template_row
scan-to_template_row t = λ i. record {
  id = t.id;
  name = t.name;
  channel = t.channel;
  subject = or_empty-nil_if_empty t.subject i;
  body = t.body;
  created_at = to_micros t.created_at;
  updated_at = to_micros t.updated_at;
}

find-append_template :
    (id : ℕ) (r : TemplateRow) (ts : List TemplateRow)
    → any (is_template id) ts ≡ false
    → r.id ≡ id
    → find (is_template id) (ts ++ r ∷ []) ≡ some r
unfolding find any
find-append_template id r [] new same = ground arith
find-append_template id r (x ∷ ts) new same = ground (arith, find-append_template id r ts)

pub insert_template-found :
    (row : TemplateRow) (db : Database)
    → (insert_template row db).0 ≡ ok tt
    → find (is_template row.id) (insert_template row db).1.templates ≡ some row
unfolding insert_template
insert_template-found row db e = ground (arith, find-append_template row.id row db.templates)

pub ok_of_insert_result : (r : Result PgError (Unit {0})) → insert_result r ≡ ok tt → r ≡ ok tt
ok_of_insert_result (ok u) e = refl
ok_of_insert_result (err x) e = cc

module _ (req : UpdateTemplateRequest) (t id : ℕ) where
  find-edited_other :
      (j : ℕ) (ts : List TemplateRow)
      → (j == id) ≡ false
      → find (is_template j) (update_where (is_template id) (set_template req t) ts)
        ≡ find (is_template j) ts
  unfolding find update_where set_template
  find-edited_other j [] e = refl
  find-edited_other j (x ∷ ts) e = ground (arith, find-edited_other j ts)

  find-edited :
      (row : TemplateRow) (ts : List TemplateRow)
      → find (is_template id) ts ≡ some row
      → find (is_template id) (update_where (is_template id) (set_template req t) ts)
        ≡ some (set_template req t row)
  unfolding find update_where set_template
  find-edited row [] e = cc
  find-edited row (x ∷ ts) e = ground (arith, find-edited row ts)

  pub found_edited :
      (j : ℕ) (row : TemplateRow) (ts : List TemplateRow)
      → find (is_template id) ts ≡ some row
      → find (is_template j) (update_where (is_template id) (set_template req t) ts)
        ≡ (if j == id then some (set_template req t row) else find (is_template j) ts)
  found_edited j row ts e = elim (Bool-cases (j == id)) [
    | inl hit ↦
        let same : j ≡ id = ground arith in
        rw hit (
          subst
            (λ k.
              find (is_template k) (update_where (is_template id) (set_template req t) ts)
              ≡ some (set_template req t row))
            (sym same) (find-edited row ts e))
    | inr miss ↦ rw miss (find-edited_other j ts miss)
  ]

pub find-rest :
    (id j : ℕ) (ts : List TemplateRow)
    → find (is_template j) (select (λ t. not (is_template id t)) ts)
      ≡ (if j == id then none else find (is_template j) ts)
unfolding find select
find-rest id j [] = ground arith
find-rest id j (x ∷ ts) = ground (arith, find-rest id j ts)

module _ (id : ℕ) where
  -- `tag.RowsAffected()` of a Delete
  pub deleted_some :
      (ts : List TemplateRow)
      → any (is_template id) ts ≡ true
      → delete_result (ok (length (select (is_template id) ts))) ≡ ok tt
  unfolding any select delete_result
  deleted_some [] e = cc
  deleted_some (t ∷ ts) e = elim (Bool-cases (is_template id t)) [
    | inl hit ↦ rw hit refl
    | inr miss ↦ rw miss (deleted_some ts (ground arith))
  ]

  pub deleted_none :
      (ts : List TemplateRow)
      → any (is_template id) ts ≡ false
      → delete_result (ok (length (select (is_template id) ts))) ≡ err not_found
  unfolding any select delete_result
  deleted_none [] e = refl
  deleted_none (t ∷ ts) e = elim (Bool-cases (is_template id t)) [
    | inl hit ↦ absurd (ground arith)
    | inr miss ↦ rw miss (deleted_none ts (ground arith))
  ]
