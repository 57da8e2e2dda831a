-- ===== src/Service/Creating.antt =====
-- What Create of the service does before it stores a notification.
use event_driven_notificatio.Prelude.{
  ℕ, ◌≡◌, inl, inr, refl, ap, sym, ◌∙◌, subst, true, Bool-cases, Option, none, some, [], ◌∷◌,
  Result, ok, err, arith,
}
use event_driven_notificatio.Prelude.Text.{Str}
use event_driven_notificatio.Domain.{
  Error, Notification, Template, CreateNotificationRequest, channel_valid, priority_valid,
}
use event_driven_notificatio.Services.{Services, W}
use event_driven_notificatio.Repository.Notifications
use event_driven_notificatio.Validator.Rules.{IsAcceptable, validate_notification_content_iff}
use event_driven_notificatio.Service.Notifications.{
  NotificationService, to_notification, set_content, render_body, render, render_subject,
  apply_template, enqueue_created, finish, store, check_and_store, create,
}

-- What a template does not change.
pub record SameFields (n n' : Notification) : Type 0 where
  pub channel : n'.channel ≡ n.channel
  pub priority : n'.priority ≡ n.priority
  pub status : n'.status ≡ n.status
  pub scheduled_at : n'.scheduled_at ≡ n.scheduled_at
  pub max_retries : n'.max_retries ≡ n.max_retries
  pub idempotency_key : n'.idempotency_key ≡ n.idempotency_key
  pub batch_id : n'.batch_id ≡ n.batch_id

SameFields-refl : (n : Notification) → SameFields n n
SameFields-refl n = record {
  channel = refl;
  priority = refl;
  status = refl;
  scheduled_at = refl;
  max_retries = refl;
  idempotency_key = refl;
  batch_id = refl;
}

abbrev FieldsKept : Notification → Result Error Notification → Type 0
FieldsKept n r = (n' : Notification) → r ≡ ok n' → SameFields n n'

kept_of_ok : (n m : Notification) → SameFields n m → FieldsKept n (ok m)
kept_of_ok n m same n' e = let q : m ≡ n' = cc in subst (SameFields n) q same

module _ (env : Services) where
  set_content-kept :
      (n : Notification) (body : Str) (o : Option Str) → FieldsKept n (set_content env n body o)
  unfolding set_content
  set_content-kept n body none n' e = cc
  set_content-kept n body (some []) n' e =
      kept_of_ok n (record n { body = body })
        (record {
          channel = refl;
          priority = refl;
          status = refl;
          scheduled_at = refl;
          max_retries = refl;
          idempotency_key = refl;
          batch_id = refl;
        })
        n' e
  set_content-kept n body (some (c ∷ s)) n' e =
      kept_of_ok n (record n { body = body; subject = c ∷ s })
        (record {
          channel = refl;
          priority = refl;
          status = refl;
          scheduled_at = refl;
          max_retries = refl;
          idempotency_key = refl;
          batch_id = refl;
        })
        n' e

  render_body-kept :
      (t : Template) (n : Notification) (o : Option Str) → FieldsKept n (render_body env t n o)
  unfolding render_body
  render_body-kept t n none n' e = cc
  render_body-kept t n (some body) n' e =
      set_content-kept n body (render_subject env t.subject n.template_vars) n' e

  render-kept : (n : Notification) (r : Result Error Template) → FieldsKept n (render env n r)
  unfolding render
  render-kept n (err e) n' h = cc
  render-kept n (ok t) n' h = render_body-kept t n (env.render_text t.body n.template_vars) n' h

  pub apply_template-kept :
      (id : Option ℕ) (n : Notification) (w : W env) → FieldsKept n (apply_template env id n w).0
  unfolding apply_template
  apply_template-kept none n w n' e = kept_of_ok n n (SameFields-refl n) n' e
  apply_template-kept (some id) n w n' e = render-kept n _ n' e

  -- How a notification that Create reports came to be stored.
  pub record Stored (s : NotificationService) (req : CreateNotificationRequest) (w : W env)
      (n : Notification) : Type 0 where
    pub before : Notification
    pub accepted : IsAcceptable env before.channel before.recipient before.subject before.body
    pub channel : channel_valid req.channel ≡ true
    pub priority : priority_valid req.priority ≡ true
    pub applied : (apply_template env req.template_id (to_notification s req) w).0 ≡ ok before
    pub inserted :
        (Notifications.create env before
          (apply_template env req.template_id (to_notification s req) w).1).0.1
        ≡ ok tt
    pub outcome :
        let stored =
          Notifications.create env before
            (apply_template env req.template_id (to_notification s req) w).1 in
        let last = enqueue_created env s stored.0.0 stored.1 in
        (last.0 ≡ n) × ((create env s req w).1 ≡ last.1)

  module _ (s : NotificationService) where
    finish-ok :
        (n0 n : Notification) (r : Result Error (Unit {0})) (w : W env)
        → (finish env s n0 r w).0 ≡ ok n
        → (r ≡ ok tt)
          × ((enqueue_created env s n0 w).0 ≡ n)
          × ((finish env s n0 r w).1 ≡ (enqueue_created env s n0 w).1)
    unfolding finish
    finish-ok n0 n (err e) w h = cc
    finish-ok n0 n (ok u) w h = (refl, cc, refl)

    store-ok :
        (n0 n : Notification) (o : Option Error) (w : W env)
        → (store env s n0 o w).0 ≡ ok n
        → let stored = Notifications.create env n0 w in
          (o ≡ none)
          × (stored.0.1 ≡ ok tt)
          × ((enqueue_created env s stored.0.0 stored.1).0 ≡ n)
          × ((store env s n0 o w).1 ≡ (enqueue_created env s stored.0.0 stored.1).1)
    unfolding store
    store-ok n0 n (some e) w h = cc
    store-ok n0 n none w h =
        let stored = Notifications.create env n0 w in
        let (a, b, c) = finish-ok stored.0.0 n stored.0.1 stored.1 h in (refl, a, b, c)

    checked-ok :
        (r : Result Error Notification) (n : Notification) (w : W env)
        → (check_and_store env s r w).0 ≡ ok n
        → (n0 : Notification) × (r ≡ ok n0)
          × IsAcceptable env n0.channel n0.recipient n0.subject n0.body
          × (let stored = Notifications.create env n0 w in
              (stored.0.1 ≡ ok tt)
              × ((enqueue_created env s stored.0.0 stored.1).0 ≡ n)
              × ((check_and_store env s r w).1 ≡ (enqueue_created env s stored.0.0 stored.1).1))
    unfolding check_and_store
    checked-ok (err e) n w h = cc
    checked-ok (ok n0) n w h =
        let (valid, a, b, c) = store-ok n0 n _ w h in
        (n0, refl, (validate_notification_content_iff env _ _ _ _).0 valid, (a, b, c))

    -- A notification is reported only if the request passes every check, and then it was stored.
    pub create-Stored :
        (req : CreateNotificationRequest) (w : W env) (n : Notification)
        → (create env s req w).0 ≡ ok n
        → Stored s req w n
    unfolding create
    create-Stored req w n h = elim (Bool-cases (env.valid_struct req)) [
      | inr invalid ↦ absurd (ground arith)
      | inl ok_struct ↦ elim (Bool-cases (channel_valid req.channel)) [
        | inr invalid ↦ absurd (ground arith)
        | inl ok_channel ↦ elim (Bool-cases (priority_valid req.priority)) [
          | inr invalid ↦ absurd (ground arith)
          | inl ok_priority ↦
              let a = apply_template env req.template_id (to_notification s req) w in
              let whole : create env s req w ≡ check_and_store env s a.0 a.1 = ground arith in
              let (n0, applied, good, (stored, last, end_)) =
                checked-ok a.0 n a.1 (ap (λ x. x.0) (sym whole) ∙ h) in
              record {
                before = n0;
                accepted = good;
                channel = ok_channel;
                priority = ok_priority;
                applied = applied;
                inserted = stored;
                outcome = (last, ap (λ x. x.1) whole ∙ end_);
              }
        ]
      ]
    ]
