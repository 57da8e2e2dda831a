-- ===== src/Repository/TemplateEdits.antt =====
-- What the Update of `TemplateRepository` does, case by case.
use event_driven_notificatio.Prelude.{
  ℕ, suc, ◌≡◌, refl, ap, ◌∙◌, true, false, ◌==◌, not, Option, none, some, Result, ok, err, find,
  any, if◌then◌else◌,
}
use event_driven_notificatio.Prelude.Text.{Str}
use event_driven_notificatio.Domain.{
  Error, Template, UpdateTemplateRequest, channel_valid, duplicate, internal,
}
use event_driven_notificatio.Services.{Services, TemplateRow, W, answered, now}
use event_driven_notificatio.Services.Effects.{exec-answered}
use event_driven_notificatio.Repository.Rows.{to_micros}
use event_driven_notificatio.Repository.Sql.{failure, holds_if, update_where}
use event_driven_notificatio.Repository.Templates.{
  or_kept, or_kept_text, is_template, takes_name, scan_template_row, set_template, update_found,
  update_template_by_id, select_template, scan_template, scan_updated, is_empty_update,
  get_template, set_columns, update_template,
}
use event_driven_notificatio.Repository.Queries.{get_template-Later}
use event_driven_notificatio.Repository.TemplateLookup.{found_edited}

-- The row with the columns of a request, where it has them, and the update time.
abbrev pub edited : UpdateTemplateRequest → ℕ → TemplateRow → TemplateRow
edited req time row = record {
  id = row.id;
  name = elim req.name [ none ↦ row.name | some name ↦ name ];
  channel = elim req.channel [ none ↦ row.channel | some channel ↦ channel ];
  subject = elim req.subject [ none ↦ row.subject | some subject ↦ some subject ];
  body = elim req.body [ none ↦ row.body | some body ↦ body ];
  created_at = row.created_at;
  updated_at = time;
}

or_kept_lem : {A : Type 0} (o : Option A) (a : A) → or_kept o a ≡ elim o [ none ↦ a | some b ↦ b ]
or_kept_lem none a = refl
or_kept_lem (some b) a = refl

or_kept_text_lem : (o s : Option Str) → or_kept_text o s ≡ elim o [ none ↦ s | some t ↦ some t ]
or_kept_text_lem none s = refl
or_kept_text_lem (some t) s = refl

edited_lem :
    (req : UpdateTemplateRequest) (time : ℕ) (row : TemplateRow)
    → set_template req time row ≡ edited req time row
unfolding set_template
edited_lem req time row = λ i. record {
  id = row.id;
  name = or_kept_lem req.name row.name i;
  channel = or_kept_lem req.channel row.channel i;
  subject = or_kept_text_lem req.subject row.subject i;
  body = or_kept_lem req.body row.body i;
  created_at = row.created_at;
  updated_at = time;
}

module _ (env : Services) (steady : (k : ℕ) → env.fault k ≡ answered) where
  abbrev pub template_at : ℕ → W env → Option TemplateRow
  template_at id w = find (is_template id) w.db.templates

  pub get_template-answered :
      (id : ℕ) (w : W env) → (get_template env id w).0 ≡ scan_template (ok (template_at id w))
  unfolding get_template select_template
  get_template-answered id w =
      ap (λ x. scan_template x.0)
        (exec-answered env failure (λ _. select_template id) w (steady w.step))

  -- Every template is found as before but the one, which is found with the new columns.
  abbrev pub Edited :
      ℕ → UpdateTemplateRequest → TemplateRow → Result Error Template × W env → W env → Type 0
  Edited id req row (r, w') w =
      let row' = edited req (to_micros (env.clock w.step)) row in
      (r ≡ ok (scan_template_row row'))
      × ((j : ℕ) → template_at j w' ≡ (if j == id then some row' else template_at j w))
      × (w'.db.notifications ≡ w.db.notifications)

  abbrev pub Reported : Error → Result Error Template × W env → W env → Type 0
  Reported e (r, w') w = (r ≡ err e) × (w'.db ≡ w.db)

  abbrev pub Found : TemplateRow → Result Error Template × W env → W env → Type 0
  Found row (r, w') w = (r ≡ ok (scan_template_row row)) × (w'.db ≡ w.db)

  -- What an Update of a template that is there does, by what it sets.
  abbrev pub Updates :
      ℕ → UpdateTemplateRequest → TemplateRow → Result Error Template × W env → W env → Type 0
  Updates id req row after w =
      if is_empty_update req
      then Found row after w
      else if not (holds_if req.channel channel_valid)
      then Reported internal after w
      else if holds_if req.name (λ name. not (any (takes_name id name) w.db.templates))
      then Edited id req row after w
      else Reported duplicate after w

  -- What the statement makes of a request that sets something.
  pub update_template-runs :
      (id : ℕ) (req : UpdateTemplateRequest) (w : W env)
      → is_empty_update req ≡ false
      → let after = update_template_by_id req (to_micros (env.clock w.step)) id w.db in
        update_template env id req w
        ≡ (scan_updated after.0, record w { step = suc (suc w.step); db = after.1 })
  unfolding update_template set_columns now
  update_template-runs id req w some_set =
      let w1 : W env = record w { step = suc w.step } in
      let ran =
        exec-answered env failure
          (λ (k : ℕ). update_template_by_id req (to_micros (env.clock w.step)) id) w1
          (steady (suc w.step)) in
      rw some_set (ap (λ x. (scan_updated x.0, x.1)) ran)

  pub edits :
      (id : ℕ) (req : UpdateTemplateRequest) (row : TemplateRow) (w : W env)
      → is_empty_update req ≡ false
      → holds_if req.channel channel_valid ≡ true
      → template_at id w ≡ some row
      → holds_if req.name (λ name. not (any (takes_name id name) w.db.templates)) ≡ true
      → Edited id req row (update_template env id req w) w
  unfolding update_template_by_id update_found scan_updated
  edits id req row w some_set valid there free =
      let time = to_micros (env.clock w.step) in
      let after : update_template env id req w ≡ (
        ok (scan_template_row (set_template req time row)),
        record w {
          step = suc (suc w.step);
          db = record w.db {
            templates = update_where (is_template id) (set_template req time) w.db.templates;
          };
        },
      ) =
        update_template-runs id req w some_set ∙ rw (valid, there, free) refl in
      let columns = edited_lem req time row in
      (
        ap (λ x. x.0) after ∙ ap (λ r. ok (scan_template_row r)) columns,
        λ j.
            ap (λ x. template_at j x.1) after
            ∙ found_edited req time id j row w.db.templates there
            ∙ ap (λ r. if j == id then some r else template_at j w) columns,
        ap (λ x. x.1.db.notifications) after,
      )

  pub reports_duplicate :
      (id : ℕ) (req : UpdateTemplateRequest) (row : TemplateRow) (w : W env)
      → is_empty_update req ≡ false
      → holds_if req.channel channel_valid ≡ true
      → template_at id w ≡ some row
      → holds_if req.name (λ name. not (any (takes_name id name) w.db.templates)) ≡ false
      → Reported duplicate (update_template env id req w) w
  unfolding update_template_by_id update_found scan_updated
  reports_duplicate id req row w some_set valid there taken =
      let after : update_template env id req w
          ≡ (err duplicate, record w { step = suc (suc w.step) }) =
        update_template-runs id req w some_set ∙ rw (valid, there, taken) refl in
      (ap (λ x. x.0) after, ap (λ x. x.1.db) after)

  pub reports_channel :
      (id : ℕ) (req : UpdateTemplateRequest) (w : W env)
      → is_empty_update req ≡ false
      → holds_if req.channel channel_valid ≡ false
      → Reported internal (update_template env id req w) w
  unfolding update_template_by_id scan_updated
  reports_channel id req w some_set invalid =
      let after : update_template env id req w
          ≡ (err internal, record w { step = suc (suc w.step) }) =
        update_template-runs id req w some_set ∙ rw invalid refl in
      (ap (λ x. x.0) after, ap (λ x. x.1.db) after)

  pub finds :
      (id : ℕ) (req : UpdateTemplateRequest) (row : TemplateRow) (w : W env)
      → is_empty_update req ≡ true
      → template_at id w ≡ some row
      → Found row (update_template env id req w) w
  unfolding update_template scan_template
  finds id req row w empty there = rw empty (
    get_template-answered id w ∙ ap (λ o. scan_template (ok o)) there,
    ap (λ v. v.db) (get_template-Later env id w).1,
  )
