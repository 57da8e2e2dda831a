-- ===== src/Service/Preparing.antt =====
-- What CreateBatch makes of its requests before it stores anything.
use event_driven_notificatio.Prelude.{
  ℕ, ◌≡◌, refl, ap, sym, ◌∙◌, subst, true, Bool-cases, inl, inr, Option, none, some, List, [], ◌∷◌,
  Result, ok, err, arith,
}
use event_driven_notificatio.Domain.{
  Error, Notification, CreateNotificationRequest, channel_valid, priority_valid,
}
use event_driven_notificatio.Services.{Services, W, Action}
use event_driven_notificatio.Repository.Batch.{stamp}
use event_driven_notificatio.Repository.Inserting.{AreStamped}
use event_driven_notificatio.Validator.Rules.{IsAcceptable, validate_notification_content_iff}
use event_driven_notificatio.Service.Notifications.{
  NotificationService, to_notification, apply_template, first_status,
}
use event_driven_notificatio.Service.Creating.{apply_template-kept}
use event_driven_notificatio.Service.Batches.{
  Prepared, to_member, and_prepared, accept_if, accept, prepare, and_prepare, prepare_all,
}

module _ (env : Services) where
  -- A notification of a batch for a request of it.
  pub record IsFor (batch_id : ℕ) (req : CreateNotificationRequest) (n : Notification)
      : Type 0 where
    pub batch : n.batch_id ≡ some batch_id
    pub channel : n.channel ≡ req.channel
    pub priority : n.priority ≡ req.priority
    pub status : n.status ≡ first_status req.scheduled_at
    pub valid_channel : channel_valid n.channel ≡ true
    pub valid_priority : priority_valid n.priority ≡ true
    pub accepted : IsAcceptable env n.channel n.recipient n.subject n.body

  -- One for each request, in their order.
  abbrev pub AreFor : ℕ → List CreateNotificationRequest → List Notification → Type 0
  AreFor batch_id [] [] = Unit
  AreFor batch_id [] (n ∷ ns) = ⊥
  AreFor batch_id (req ∷ reqs) [] = ⊥
  AreFor batch_id (req ∷ reqs) (n ∷ ns) = IsFor batch_id req n × AreFor batch_id reqs ns

  accept_if-ok :
      (n n' : Notification) (o : Option Error) → accept_if env n o ≡ ok n' → (o ≡ none) × (n ≡ n')
  accept_if-ok n n' none e = (refl, cc)
  accept_if-ok n n' (some x) e = cc

  accept-ok :
      (r : Result Error Notification) (n : Notification)
      → accept env r ≡ ok n
      → (r ≡ ok n) × IsAcceptable env n.channel n.recipient n.subject n.body
  unfolding accept
  accept-ok (err x) n e = cc
  accept-ok (ok n0) n e =
      let (valid, same) = accept_if-ok n0 n _ e in
      (
        ap ok same,
        subst (λ m. IsAcceptable env m.channel m.recipient m.subject m.body) same
            ((validate_notification_content_iff env _ _ _ _).0 valid),
      )

  module _ (s : NotificationService) (batch_id : ℕ) where
    prepare-IsFor :
        (req : CreateNotificationRequest) (w : W env) (n : Notification)
        → (prepare env s batch_id req w).0 ≡ ok n
        → IsFor batch_id req n
    unfolding prepare to_member to_notification
    prepare-IsFor req w n e = elim (Bool-cases (channel_valid req.channel)) [
      | inr invalid ↦ absurd (ground arith)
      | inl ok_channel ↦ elim (Bool-cases (priority_valid req.priority)) [
        | inr invalid ↦ absurd (ground arith)
        | inl ok_priority ↦
            let member = to_member s batch_id req in
            let applied = (apply_template env req.template_id member w).0 in
            let whole : (prepare env s batch_id req w).0 ≡ accept env applied = ground arith in
            let (same, good) = accept-ok applied n (sym whole ∙ e) in
            let kept = apply_template-kept env req.template_id member w n same in
            record {
              batch = kept.batch_id;
              channel = kept.channel;
              priority = kept.priority;
              status = kept.status;
              valid_channel = ap channel_valid kept.channel ∙ ok_channel;
              valid_priority = ap priority_valid kept.priority ∙ ok_priority;
              accepted = good;
            }
      ]
    ]

    and_prepared-ok :
        (n : Notification) (r : Prepared) (ns : List Notification)
        → and_prepared n r ≡ ok ns
        → (rest : List Notification) × (r ≡ ok rest) × (n ∷ rest ≡ ns)
    and_prepared-ok n (ok rest) ns e = (rest, cc, cc)
    and_prepared-ok n (err x) ns e = cc

    and_prepare-AreFor :
        (req : CreateNotificationRequest) (reqs : List CreateNotificationRequest)
        (next : Action env Prepared) (r : Result Error Notification) (w : W env)
        (ns : List Notification)
        → ((n : Notification) → r ≡ ok n → IsFor batch_id req n)
        → ((v : W env) (rest : List Notification)
            → (next v).0 ≡ ok rest
            → AreFor batch_id reqs rest)
        → (and_prepare env next r w).0 ≡ ok ns
        → AreFor batch_id (req ∷ reqs) ns
    unfolding and_prepare
    and_prepare-AreFor req reqs next (err x) w ns first later e = cc
    and_prepare-AreFor req reqs next (ok n) w ns first later e =
        let (rest, found, whole) = and_prepared-ok n (next w).0 ns e in
        subst (AreFor batch_id (req ∷ reqs)) whole (first n refl, later w rest found)

    pub prepare_all-AreFor :
        (reqs : List CreateNotificationRequest) (w : W env) (ns : List Notification)
        → (prepare_all env s batch_id reqs w).0 ≡ ok ns
        → AreFor batch_id reqs ns
    unfolding prepare_all
    prepare_all-AreFor [] w ns e = let same : [] ≡ ns = cc in subst (AreFor batch_id []) same tt
    prepare_all-AreFor (req ∷ reqs) w ns e =
        let (r, w') = prepare env s batch_id req w in
        and_prepare-AreFor req reqs (prepare_all env s batch_id reqs) r w' ns
          (λ n h. prepare-IsFor req w n h) (λ v rest h. prepare_all-AreFor reqs v rest h) e

  -- IDs and times change none of it.
  pub stamped-AreFor :
      (batch_id time : ℕ) (reqs : List CreateNotificationRequest) (ns ns' : List Notification)
      → AreFor batch_id reqs ns
      → AreStamped env time ns ns'
      → AreFor batch_id reqs ns'
  stamped-AreFor batch_id time [] [] [] h k = tt
  stamped-AreFor batch_id time [] [] (n' ∷ ns') h k = absurd k
  stamped-AreFor batch_id time [] (n ∷ ns) ns' h k = absurd h
  stamped-AreFor batch_id time (req ∷ reqs) [] ns' h k = absurd h
  stamped-AreFor batch_id time (req ∷ reqs) (n ∷ ns) [] h k = absurd k
  stamped-AreFor batch_id time (req ∷ reqs) (n ∷ ns) (n' ∷ ns') h k =
      let stamped : IsFor batch_id req (stamp env time k.0.0 n) = record {
        batch = h.0.batch;
        channel = h.0.channel;
        priority = h.0.priority;
        status = h.0.status;
        valid_channel = h.0.valid_channel;
        valid_priority = h.0.valid_priority;
        accepted = h.0.accepted;
      } in
      (
        subst (IsFor batch_id req) (sym k.0.1) stamped,
        stamped-AreFor batch_id time reqs ns ns' h.1 k.1,
      )
