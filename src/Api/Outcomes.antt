-- ===== src/Api/Outcomes.antt =====
-- Pairs of requests.
use event_driven_notificatio.Prelude.{
  ◌≤◌, ◌<◌, ℕ, ◌≡◌, refl, ap, sym, ◌∙◌, subst, Bool-cases, inl, inr, Option, none, some,
  Option-cases, Result, ok, err, find, arith,
}
use event_driven_notificatio.Prelude.Text.{Str, str}
use event_driven_notificatio.Domain.{
  Error, Template, CreateTemplateRequest, cannot_cancel, channel_valid,
}
use event_driven_notificatio.Services.{Services, W, Action, answered}
use event_driven_notificatio.Services.Laws.{UuidLaws}
use event_driven_notificatio.Repository.Sql.{has_id, may_cancel}
use event_driven_notificatio.Repository.Notifications.{cancel}
use event_driven_notificatio.Repository.Cancelling.{
  stopped_there, cancel_accepts, cancel_refuses, cancel_unknown,
}
use event_driven_notificatio.Repository.Integrity.{IsSound, IsSound-IsKept}
use event_driven_notificatio.Repository.Keeping.{cancel-keeps}
use event_driven_notificatio.Repository.Templates.{get_template}
use event_driven_notificatio.Repository.Templates
use event_driven_notificatio.Repository.TemplateLookup.{stored_template}
use event_driven_notificatio.Repository.TemplateStore.{get-create_template}
use event_driven_notificatio.Service.Notifications.{NotificationService}
use event_driven_notificatio.Service.Templates.{to_template, created_or}
use event_driven_notificatio.Service
use event_driven_notificatio.Api.Responses.{
  Body, status_body, template_body, Response, write_json, handle_domain_error,
}
use event_driven_notificatio.Api.Handlers.{
  respond, answer_with, with_body, with_id, cancel_notification, create_template, get_one_template,
}
use event_driven_notificatio.Api.Routes.{
  serve, post_notifications_cancel, post_templates, get_templates_id,
}

pub error_status : (e : Error) → 400 ≤ (handle_domain_error e).status
unfolding handle_domain_error
error_status Error.not_found = omega arith
error_status Error.duplicate = omega arith
error_status Error.idempotency_conflict = omega arith
error_status Error.invalid_status = omega arith
error_status Error.cannot_cancel = omega arith
error_status Error.batch_too_large = omega arith
error_status Error.invalid_channel = omega arith
error_status Error.invalid_priority = omega arith
error_status Error.template_render = omega arith
error_status Error.rate_limited = omega arith
error_status Error.provider_failure = omega arith
error_status Error.validation = omega arith
error_status Error.internal = omega arith

-- An error gets a status of its own.
answered_ok :
    {A : Type 0} (status : ℕ) (body : A → Body) (r : Result Error A)
    → status < 400
    → (respond status body r).status ≡ status
    → (a : A) × (r ≡ ok a)
unfolding respond
answered_ok status body (ok a) low e = (a, refl)
answered_ok status body (err x) low e = absurd (let high = error_status x in omega (arith, high, e))

template_told :
    (r : Result Error Template) (t : Template)
    → respond 201 template_body r ≡ write_json 201 (template_body t)
    → r ≡ ok t
unfolding respond
template_told (ok a) t e = let same = ap (λ x. x.body) e in cc
template_told (err x) t e =
    absurd (let high = error_status x in let low = ap (λ y. y.status) e in omega (arith, high, low))

module _ (env : Services) (steady : (k : ℕ) → env.fault k ≡ answered) where
  -- A second Cancel of a notification that a first one has cancelled.
  cancel_again :
      (id : ℕ) (w : W env)
      → IsSound w.db
      → (cancel env id w).0 ≡ ok tt
      → let w' = (cancel env id w).1 in
        ((cancel env id w').0 ≡ err cannot_cancel) × ((cancel env id w').1.db ≡ w'.db)
  cancel_again id w valid accepted = elim (Option-cases (find (has_id id) w.db.notifications)) [
    | inl missing ↦
        absurd (let r = cancel_unknown env steady id w missing in cc (sym r.0 ∙ accepted))
    | inr (row, found) ↦ elim (Bool-cases (may_cancel row.status)) [
      | inr may_not ↦ absurd (
          let r = cancel_refuses env steady id w row valid found may_not in cc (sym r.0 ∙ accepted))
      | inl may ↦
          let w' = (cancel env id w).1 in
          let there =
            stopped_there env steady id w row w'.db.notifications
              (cancel_accepts env steady id w row found may).1 in
          cancel_refuses env steady id w' _ (cancel-keeps env IsSound IsSound-IsKept id w valid)
            there refl
    ]
  ]

  abbrev cancel_parsed : Option ℕ → Action env Response
  cancel_parsed o =
      with_id env (str "invalid notification ID") o
        λ id. answer_with env 200 (λ u. status_body (str "cancelled")) (cancel env id)

  parsed-cancel_once :
      (o : Option ℕ) (w : W env)
      → IsSound w.db
      → (cancel_parsed o w).0.status ≡ 200
      → let w' = (cancel_parsed o w).1 in
        let again = cancel_parsed o w' in (again.0.status ≡ 422) × (again.1.db ≡ w'.db)
  unfolding with_id answer_with respond handle_domain_error
  parsed-cancel_once none w valid accepted = absurd (omega arith)
  parsed-cancel_once (some id) w valid accepted =
      let (u, told) =
        answered_ok 200 (λ u. status_body (str "cancelled")) (cancel env id w).0 (omega arith)
          accepted in
      let (refused, kept) = cancel_again id w valid told in
      (ap (λ r. (respond 200 (λ u. status_body (str "cancelled")) r).status) refused, kept)

  -- Where the calls are answered and the table meets its constraints, a notification can be cancelled
  -- once: after a cancellation with status 200, a second one gets status 422 and changes nothing in the
  -- tables.
  pub serve-cancel_once :
      (s : NotificationService) (path : Str) (w : W env)
      → IsSound w.db
      → (serve env s (post_notifications_cancel path) w).0.status ≡ 200
      → let w' = (serve env s (post_notifications_cancel path) w).1 in
        let again = serve env s (post_notifications_cancel path) w' in
        (again.0.status ≡ 422) × (again.1.db ≡ w'.db)
  unfolding serve cancel_notification
  serve-cancel_once s path w valid accepted =
      parsed-cancel_once (env.uuid_parse path) w valid accepted

  created_as :
      (t t' : Template) (r : Result Error (Unit {0}))
      → created_or t r ≡ ok t'
      → (r ≡ ok tt) × (t ≡ t')
  created_as t t' (ok u) e = (refl, cc)
  created_as t t' (err x) e = cc

  -- A template that the service reports as created is read back.
  created_template :
      (req : CreateTemplateRequest) (w : W env) (t : Template)
      → (Service.Templates.create env req w).0 ≡ ok t
      → (get_template env t.id (Service.Templates.create env req w).1).0 ≡ ok (stored_template t)
  unfolding Service.Templates.create
  created_template req w t e = elim (Bool-cases (env.valid_template req)) [
    | inr invalid ↦ absurd (ground arith)
    | inl valid ↦ elim (Bool-cases (channel_valid req.channel)) [
      | inr invalid ↦ absurd (ground arith)
      | inl ok_channel ↦ elim (Bool-cases (env.parse_template req.body)) [
        | inr invalid ↦ absurd (ground arith)
        | inl parsed ↦
            let made = Templates.create_template env (to_template req) w in
            let whole : Service.Templates.create env req w
                ≡ (created_or made.0.0 made.0.1, made.1) =
              rw (valid, ok_channel, parsed) refl in
            let (stored, same) = created_as made.0.0 t made.0.1 (sym (ap (λ x. x.0) whole) ∙ e) in
            subst (λ v. (get_template env t.id v).0 ≡ ok (stored_template t))
              (sym (ap (λ x. x.1) whole))
              (subst (λ t'. (get_template env t'.id made.1).0 ≡ ok (stored_template t')) same
                (get-create_template env steady (to_template req) w stored))
      ]
    ]
  ]

  posted :
      (o : Option CreateTemplateRequest) (p : Option ℕ) (w : W env) (t : Template)
      → p ≡ some t.id
      → let post : Action env Response =
          with_body env o
            (λ req. answer_with env 201 template_body (Service.Templates.create env req)) in
        (post w).0 ≡ write_json 201 (template_body t)
        → (with_id env
            (str "invalid template ID")
            p
            (λ id. answer_with env 200 template_body (get_template env id))
            (post w).1).0
          ≡ write_json 200 (template_body (stored_template t))
  unfolding with_body with_id answer_with respond
  posted none p w t read told = absurd (let low = ap (λ y. y.status) told in omega (arith, low))
  posted (some req) none w t read told = cc
  posted (some req) (some id) w t read told =
      let made = Service.Templates.create env req w in
      let same : t.id ≡ id = cc in
      let e = created_template req w t (template_told made.0 t told) in
      ap (respond 200 template_body)
        (subst (λ j. (get_template env j made.1).0 ≡ ok (stored_template t)) same e)

  -- Where the calls are answered, and a UUID is read back from its text, a template that a POST has
  -- created, with status 201, is what a GET of its ID returns, with status 200, but for what its times
  -- have below a microsecond.
  pub get_templates_id-post_templates :
      (uuids : UuidLaws env) (s : NotificationService) (body : Str) (w : W env) (t : Template)
      → (serve env s (post_templates body) w).0 ≡ write_json 201 (template_body t)
      → let w' = (serve env s (post_templates body) w).1 in
        (serve env s (get_templates_id (env.uuid_string t.id)) w').0
        ≡ write_json 200 (template_body (stored_template t))
  unfolding serve create_template get_one_template
  get_templates_id-post_templates uuids s body w t told =
      posted (env.decode_template body) (env.uuid_parse (env.uuid_string t.id)) w t
        (uuids.parse-string t.id) told
