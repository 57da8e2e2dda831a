-- ===== src/Repository/Unlinking.antt =====
-- Delete of a template, and the references to the templates.
use event_driven_notificatio.Prelude.{
  ℕ, ◌≡◌, refl, true, false, Bool, ◌==◌, not, Option, none, some, List, [], ◌∷◌, any, select, arith,
  Bool-cases, inl, inr,
}
use event_driven_notificatio.Services.{Row, TemplateRow, Database}
use event_driven_notificatio.Repository.Sql.{has_template}
use event_driven_notificatio.Repository.Templates.{
  is_template, is_named, refers_to, delete_template_by_id,
}
use event_driven_notificatio.Repository.Keeping.{IsKept}
use event_driven_notificatio.Repository.Catalog.{
  IsCatalog, AreLinked, IsLinked, insert-IsLinked, update-IsLinked, increment-IsLinked,
  cancel-IsLinked, fetch-IsLinked, attempt-IsLinked,
}
use event_driven_notificatio.Repository.Linking.{add-IsLinked, edit-IsLinked}

module _ (id : ℕ) where
  abbrev rest : List TemplateRow → List TemplateRow
  rest = select (λ t. not (is_template id t))

  any-rest :
      (q : TemplateRow → Bool) (ts : List TemplateRow) → any q ts ≡ false → any q (rest ts) ≡ false
  unfolding any select
  any-rest q [] h = refl
  any-rest q (t ∷ ts) h = ground (arith, any-rest q ts)

  rest-IsCatalog : (ts : List TemplateRow) → IsCatalog ts → IsCatalog (rest ts)
  unfolding select
  rest-IsCatalog [] h = tt
  rest-IsCatalog (t ∷ ts) h = ground (
    arith,
    rest-IsCatalog ts h.3,
    any-rest (is_template t.id) ts h.0,
    any-rest (is_named t.name) ts h.1,
  )

  any-rest_other :
      (j : ℕ) (ts : List TemplateRow)
      → (id == j) ≡ false
      → any (is_template j) ts ≡ true
      → any (is_template j) (rest ts) ≡ true
  unfolding any select
  any-rest_other j [] e h = cc
  any-rest_other j (t ∷ ts) e h = ground (arith, any-rest_other j ts)

  rest_link :
      (o : Option ℕ) (ts : List TemplateRow)
      → (elim o [ none ↦ false | some t ↦ t == id ]) ≡ false
      → has_template o ts ≡ true
      → has_template o (rest ts) ≡ true
  unfolding has_template
  rest_link none ts e h = refl
  rest_link (some j) ts e h = any-rest_other j ts (ground arith) h

  -- A template that no notification refers to can go.
  rest_links :
      (ts : List TemplateRow) (rows : List Row)
      → any (refers_to id) rows ≡ false
      → AreLinked ts rows
      → AreLinked (rest ts) rows
  unfolding any
  rest_links ts [] e h = tt
  rest_links ts (r ∷ rows) e h =
      (rest_link r.template_id ts (ground arith) h.0, rest_links ts rows (ground arith) h.1)

  pub rest_none : (ts : List TemplateRow) → any (is_template id) ts ≡ false → rest ts ≡ ts
  unfolding any select
  rest_none [] h = refl
  rest_none (t ∷ ts) h = ground (arith, rest_none ts)

  drop-IsLinked : (db : Database) → IsLinked db → IsLinked (delete_template_by_id id db).1
  unfolding delete_template_by_id
  drop-IsLinked db h = elim (Bool-cases (any (is_template id) db.templates)) [
    | inr absent ↦ rw (absent, rest_none db.templates absent) h
    | inl there ↦ elim (Bool-cases (any (refers_to id) db.notifications)) [
      | inl used ↦ rw (there, used) h
      | inr unused ↦
          rw (there, unused)
            (rest-IsCatalog db.templates h.0, rest_links db.templates db.notifications unused h.1)
    ]
  ]

pub IsLinked-IsKept : IsKept IsLinked
IsLinked-IsKept = record {
  insert = insert-IsLinked;
  update = update-IsLinked;
  increment = increment-IsLinked;
  cancel = cancel-IsLinked;
  fetch = fetch-IsLinked;
  attempt = attempt-IsLinked;
  templates = record {
    add_template = add-IsLinked;
    edit_template = edit-IsLinked;
    drop_template = drop-IsLinked;
  };
}
