-- ===== src/Repository/Linking.antt =====
-- The statements on templates, and the invariant of their table.
use event_driven_notificatio.Prelude.{
  subst, ℕ, ◌≡◌, refl, ap, ◌∙◌, true, false, ◌==◌, not, Option, none, some, List, [], ◌∷◌, ◌++◌,
  any, find, arith, Bool-cases, inl, inr, if◌then◌else◌,
}
use event_driven_notificatio.Prelude.Text.{Str, same}
use event_driven_notificatio.Domain.{UpdateTemplateRequest, channel_valid}
use event_driven_notificatio.Services.{TemplateRow, Database}
use event_driven_notificatio.Repository.Sql.{has_template, update_where, holds_if}
use event_driven_notificatio.Repository.Tables.{same_comm}
use event_driven_notificatio.Repository.Templates.{
  is_template, is_named, takes_name, or_kept, set_template, insert_template, update_found,
  update_template_by_id,
}
use event_driven_notificatio.Repository.Catalog.{IsCatalog, IsLinked, relink}

any-append_template :
    (id : ℕ) (r : TemplateRow) (ts : List TemplateRow)
    → any (is_template id) (ts ++ r ∷ []) ≡ (if any (is_template id) ts then true else r.id == id)
unfolding any
any-append_template id r [] = ground arith
any-append_template id r (x ∷ ts) = ground (arith, any-append_template id r ts)

any-append_name :
    (m : Str) (r : TemplateRow) (ts : List TemplateRow)
    → any (is_named m) (ts ++ r ∷ []) ≡ (if any (is_named m) ts then true else same r.name m)
unfolding any
any-append_name m r [] = ground arith
any-append_name m r (x ∷ ts) = ground (arith, any-append_name m r ts)

append-IsCatalog :
    (r : TemplateRow) (ts : List TemplateRow)
    → IsCatalog ts
    → any (is_template r.id) ts ≡ false
    → any (is_named r.name) ts ≡ false
    → channel_valid r.channel ≡ true
    → IsCatalog (ts ++ r ∷ [])
unfolding any
append-IsCatalog r [] h i k c = (refl, refl, c, tt)
append-IsCatalog r (x ∷ ts) h i k c = ground (
  arith,
  append-IsCatalog r ts h.3,
  any-append_template x.id r ts,
  any-append_name x.name r ts,
  same_comm x.name r.name,
)

append_links :
    (r : TemplateRow) (ts : List TemplateRow) (id : Option ℕ)
    → has_template id ts ≡ true
    → has_template id (ts ++ r ∷ []) ≡ true
unfolding has_template
append_links r ts none h = refl
append_links r ts (some id) h = ground (arith, any-append_template id r ts)

pub add-IsLinked :
    (r : TemplateRow) (db : Database) → IsLinked db → IsLinked (insert_template r db).1
unfolding insert_template
add-IsLinked r db h = ground (
  arith,
  append-IsCatalog r db.templates h.0,
  relink db.templates (db.templates ++ r ∷ []) (append_links r db.templates) db.notifications h.1,
)

module _ (req : UpdateTemplateRequest) (t id : ℕ) where
  abbrev edited : List TemplateRow → List TemplateRow
  edited = update_where (is_template id) (set_template req t)

  any-edited_id :
      (j : ℕ) (ts : List TemplateRow) → any (is_template j) (edited ts) ≡ any (is_template j) ts
  unfolding any update_where set_template
  any-edited_id j [] = refl
  any-edited_id j (x ∷ ts) = ground (arith, any-edited_id j ts)

  edited_links :
      (ts : List TemplateRow) (j : Option ℕ)
      → has_template j ts ≡ true
      → has_template j (edited ts) ≡ true
  unfolding has_template
  edited_links ts none h = refl
  edited_links ts (some j) h = any-edited_id j ts ∙ h

  kept_name :
      (m : Str) (o : Option Str) (s : Str)
      → same s m ≡ false
      → holds_if o (λ name. not (same name m)) ≡ true
      → same (or_kept o s) m ≡ false
  kept_name m none s h k = h
  kept_name m (some n) s h k = ground arith

  -- A name that no template has, and that is not set, no template has afterwards.
  any-edited_name :
      (m : Str) (ts : List TemplateRow)
      → any (is_named m) ts ≡ false
      → holds_if req.name (λ name. not (same name m)) ≡ true
      → any (is_named m) (edited ts) ≡ false
  unfolding any update_where set_template
  any-edited_name m [] h k = refl
  any-edited_name m (x ∷ ts) h k = ground (arith, any-edited_name m ts, kept_name m req.name x.name)

  -- Where no template has the ID, nothing is set.
  unedited : (ts : List TemplateRow) → any (is_template id) ts ≡ false → edited ts ≡ ts
  unfolding any update_where
  unedited [] h = refl
  unedited (x ∷ ts) h = ground (arith, unedited ts)

  not_named :
      (m : Str) (ts : List TemplateRow)
      → any (is_template id) ts ≡ false
      → any (takes_name id m) ts ≡ false
      → any (is_named m) ts ≡ false
  unfolding any
  not_named m [] h k = refl
  not_named m (x ∷ ts) h k = ground (arith, not_named m ts)

  abbrev IsFree : List TemplateRow → Type 0
  IsFree ts = holds_if req.name (λ name. not (any (takes_name id name) ts)) ≡ true

  free_tail :
      (o : Option Str) (x : TemplateRow) (ts : List TemplateRow)
      → holds_if o (λ name. not (any (takes_name id name) (x ∷ ts))) ≡ true
      → holds_if o (λ name. not (any (takes_name id name) ts)) ≡ true
  unfolding any
  free_tail none x ts h = refl
  free_tail (some n) x ts h = ground arith

  named_anew :
      (o : Option Str) (m : Str) (ts : List TemplateRow)
      → any (is_template id) ts ≡ false
      → any (is_named m) ts ≡ false
      → holds_if o (λ name. not (any (takes_name id name) ts)) ≡ true
      → any (is_named (or_kept o m)) ts ≡ false
  named_anew none m ts i h k = h
  named_anew (some n) m ts i h k = not_named n ts i (ground arith)

  named_otherwise :
      (o : Option Str) (x : TemplateRow) (ts : List TemplateRow)
      → is_template id x ≡ false
      → holds_if o (λ name. not (any (takes_name id name) (x ∷ ts))) ≡ true
      → holds_if o (λ name. not (same name x.name)) ≡ true
  unfolding any
  named_otherwise none x ts i h = refl
  named_otherwise (some n) x ts i h = ground (arith, same_comm n x.name)

  valid_anew :
      (o : Option Str) (c : Str)
      → channel_valid c ≡ true
      → holds_if o channel_valid ≡ true
      → channel_valid (or_kept o c) ≡ true
  valid_anew none c h k = h
  valid_anew (some d) c h k = k

  edited-IsCatalog :
      (ts : List TemplateRow)
      → IsCatalog ts
      → IsFree ts
      → holds_if req.channel channel_valid ≡ true
      → IsCatalog (edited ts)
  unfolding update_where set_template
  edited-IsCatalog [] h free valid = tt
  edited-IsCatalog (x ∷ ts) h free valid =
      let later = edited-IsCatalog ts h.3 (free_tail req.name x ts free) valid in
      let ids = any-edited_id x.id ts ∙ h.0 in
      elim (Bool-cases (is_template id x)) [
        | inl hit ↦
            let absent : any (is_template id) ts ≡ false =
              let e : x.id ≡ id = ground arith in
              subst (λ j. any (is_template j) ts ≡ false) e h.0 in
            rw hit (
              ids,
              ap (any (is_named (or_kept req.name x.name))) (unedited ts absent)
                  ∙ named_anew req.name x.name ts absent h.1 (free_tail req.name x ts free),
              valid_anew req.channel x.channel h.2 valid,
              later,
            )
        | inr miss ↦ rw miss (
          ids,
          any-edited_name x.name ts h.1 (named_otherwise req.name x ts miss free),
          h.2,
          later,
        )
      ]

  found-IsLinked :
      (o : Option TemplateRow) (db : Database)
      → holds_if req.channel channel_valid ≡ true
      → IsLinked db
      → IsLinked (update_found req t id o db).1
  unfolding update_found
  found-IsLinked none db valid h = h
  found-IsLinked (some row) db valid h =
      elim (Bool-cases (holds_if req.name (λ name. not (any (takes_name id name) db.templates)))) [
        | inr taken ↦ rw taken h
        | inl free ↦ rw free (
          edited-IsCatalog db.templates h.0 free valid,
          relink db.templates (edited db.templates) (edited_links db.templates) db.notifications
              h.1,
        )
      ]

  pub edit-IsLinked : (db : Database) → IsLinked db → IsLinked (update_template_by_id req t id db).1
  unfolding update_template_by_id
  edit-IsLinked db h = elim (Bool-cases (holds_if req.channel channel_valid)) [
    | inr invalid ↦ rw invalid h
    | inl valid ↦ rw valid (found-IsLinked (find (is_template id) db.templates) db valid h)
  ]
