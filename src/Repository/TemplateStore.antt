-- ===== src/Repository/TemplateStore.antt =====
-- The methods of `TemplateRepository`, followed by GetByID.
use event_driven_notificatio.Prelude.{
  ℕ, suc, ◌≡◌, refl, sym, ap, ◌∙◌, ◌==◌, not, none, some, Result, ok, err, any, select,
  if◌then◌else◌, Bool-cases, inl, inr,
}
use event_driven_notificatio.Domain.{
  Error, Template, UpdateTemplateRequest, channel_valid, not_found, internal,
}
use event_driven_notificatio.Services.{Services, TemplateRow, W, answered, now, next_uuid}
use event_driven_notificatio.Services.Effects.{exec-answered}
use event_driven_notificatio.Repository.Sql.{failure, holds_if}
use event_driven_notificatio.Repository.Unlinking.{rest_none}
use event_driven_notificatio.Repository.Templates.{
  is_template, takes_name, to_template_row, insert_template, insert_result, refers_to,
  delete_template_by_id, delete_result, scan_template, is_empty_update, create_template,
  get_template, update_template, delete_template,
}
use event_driven_notificatio.Repository.TemplateLookup.{
  stored_template, scan-to_template_row, insert_template-found, ok_of_insert_result, find-rest,
  deleted_some, deleted_none,
}
use event_driven_notificatio.Repository.TemplateEdits.{
  template_at, get_template-answered, Updates, edits, reports_duplicate, reports_channel, finds,
}

module _ (env : Services) (steady : (k : ℕ) → env.fault k ≡ answered) where
  -- Where the calls are answered, a template that Create reports as created is read back by GetByID
  -- under the ID that Create gave it, as Create left it but for what its times have below a
  -- microsecond.
  pub get-create_template :
      (t : Template) (w : W env)
      → (create_template env t w).0.1 ≡ ok tt
      → let t' = (create_template env t w).0.0 in
        (get_template env t'.id (create_template env t w).1).0 ≡ ok (stored_template t')
  unfolding create_template now next_uuid scan_template to_template_row
  get-create_template t w e =
      let t' = record t {
        id = env.new_uuid (suc w.step);
        created_at = env.clock w.step;
        updated_at = env.clock w.step;
      } in
      let w1 : W env = record w { step = suc (suc w.step) } in
      let row = to_template_row t' in
      let ran =
        exec-answered env failure (λ (k : ℕ). insert_template row) w1 (steady (suc (suc w.step))) in
      let inserted : (insert_template row w.db).0 ≡ ok tt =
        ok_of_insert_result _ (ap (λ x. insert_result x.0) (sym ran) ∙ e) in
      get_template-answered env steady t'.id (create_template env t w).1
      ∙ ap (λ x. scan_template (ok (template_at env steady t'.id x.1))) ran
      ∙ ap (λ o. scan_template (ok o)) (insert_template-found row w.db inserted)
      ∙ ap ok (scan-to_template_row t')

  -- Where the calls are answered, an Update of a template that is there does one of four things. If it
  -- sets nothing, it returns the template as it is and changes nothing in the tables, its update time
  -- included. If it sets a channel that is none of the three, it reports an error that is none of the
  -- domain's and changes nothing. If no other template has the name that it sets, it sets the columns
  -- that the request has, and the update time, and returns the template so; every other template is
  -- found as before, and no notification is changed. If another one has the name, it reports a
  -- duplicate and changes nothing in the tables.
  pub update_template_decides :
      (id : ℕ) (req : UpdateTemplateRequest) (row : TemplateRow) (w : W env)
      → template_at env steady id w ≡ some row
      → Updates env steady id req row (update_template env id req w) w
  update_template_decides id req row w there = elim (Bool-cases (is_empty_update req)) [
    | inl empty ↦ rw empty (finds env steady id req row w empty there)
    | inr some_set ↦ elim (Bool-cases (holds_if req.channel channel_valid)) [
      | inr invalid ↦ rw (some_set, invalid) (reports_channel env steady id req w some_set invalid)
      | inl valid ↦
          elim (Bool-cases
            (holds_if req.name (λ name. not (any (takes_name id name) w.db.templates)))) [
              | inl free ↦
                  rw (some_set, valid, free)
                    (edits env steady id req row w some_set valid there free)
              | inr taken ↦
                  rw (some_set, valid, taken)
                    (reports_duplicate env steady id req row w some_set valid there taken)
            ]
    ]
  ]

  abbrev pub Refused : Result Error (Unit {0}) × W env → W env → Type 0
  Refused (r, w') w = (r ≡ err internal) × (w'.db ≡ w.db)

  abbrev pub Deleted : ℕ → Result Error (Unit {0}) × W env → W env → Type 0
  Deleted id (r, w') w =
      (r ≡ ok tt)
      × ((j : ℕ)
          → template_at env steady j w' ≡ (if j == id then none else template_at env steady j w))
      × (w'.db.notifications ≡ w.db.notifications)

  abbrev pub Missing : Result Error (Unit {0}) × W env → W env → Type 0
  Missing (r, w') w = (r ≡ err not_found) × (w'.db ≡ w.db)

  -- Where the calls are answered, a template that Delete reports as deleted is not found afterwards,
  -- and every other one is found as before. A template that is there, and that a notification refers
  -- to, is not deleted: Delete reports an error that is none of the domain's, and changes nothing in
  -- the tables. A template that is not there is reported as not found, and
  -- nothing in the tables is changed.
  pub delete_template_decides :
      (id : ℕ) (w : W env)
      → if any (is_template id) w.db.templates
        then (if any (refers_to id) w.db.notifications
            then Refused (delete_template env id w) w
            else Deleted id (delete_template env id w) w)
        else Missing (delete_template env id w) w
  unfolding delete_template delete_template_by_id
  delete_template_decides id w =
      let ran = exec-answered env failure (λ (k : ℕ). delete_template_by_id id) w (steady w.step) in
      let w1 : W env = record w { step = suc w.step } in
      let whole : delete_template env id w ≡ (
        delete_result (delete_template_by_id id w.db).0,
        record w { step = suc w.step; db = (delete_template_by_id id w.db).1 },
      ) =
        ap (λ x. (delete_result x.0, x.1)) ran in
      let gone : W env = record w {
        step = suc w.step;
        db = record w.db { templates = select (λ t. not (is_template id t)) w.db.templates };
      } in
      elim (Bool-cases (any (is_template id) w.db.templates)) [
        | inr absent ↦
            let after : delete_template env id w ≡ (err not_found, gone) =
              whole ∙ rw absent (ap (λ r. (r, gone)) (deleted_none id w.db.templates absent)) in
            rw absent (
              ap (λ x. x.0) after,
              ap (λ x. x.1.db) after
                  ∙ ap (λ z. record w.db { templates = z }) (rest_none id w.db.templates absent),
            )
        | inl there ↦ elim (Bool-cases (any (refers_to id) w.db.notifications)) [
          | inl used ↦
              let after : delete_template env id w ≡ (err internal, w1) =
                whole ∙ rw (there, used, delete_result) refl in
              rw (there, used) (ap (λ x. x.0) after, ap (λ x. x.1.db) after)
          | inr unused ↦
              let after : delete_template env id w ≡ (ok tt, gone) =
                whole
                ∙ rw (there, unused) (ap (λ r. (r, gone)) (deleted_some id w.db.templates there)) in
              rw (there, unused)
                (
                  ap (λ x. x.0) after,
                  λ j. ap (λ x. template_at env steady j x.1) after ∙ find-rest id j w.db.templates,
                  ap (λ x. x.1.db.notifications) after,
                )
        ]
      ]
