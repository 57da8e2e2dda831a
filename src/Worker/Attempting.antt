-- ===== src/Worker/Attempting.antt =====
-- A delivery attempt up to its settling, where every call is answered: one request, one more attempt
-- counted, and Redis as it was.
use event_driven_notificatio.Prelude.{ℕ, suc, ◌-◌, find, ◌≡◌, ap, ◌∙◌, none, [], ◌∷◌, ◌++◌, arith}
use event_driven_notificatio.Domain.{Notification}
use event_driven_notificatio.Services.{
  Services, Row, W, Request, HttpOutcome, answered, count_metric, now, observed,
}
use event_driven_notificatio.Repository.Sql.{has_id}
use event_driven_notificatio.Repository.Notifications.{increment_attempt}
use event_driven_notificatio.Delivery.Providers.{Provider, payload, answer, send}
use event_driven_notificatio.Worker.Dispatcher.{record_attempt, attempt_of}
use event_driven_notificatio.Worker.Isolation.{send-db}
use event_driven_notificatio.Worker.Answered.{
  At, counted, increment-At, attempt-At, increment-Same, attempt-Same,
}

-- The request that a provider makes for a notification.
abbrev pub request_of : (env : Services) → Provider → Notification → Request
request_of env p n = record { url = p.base_url ++ p.path; body = env.marshal (payload p.kind n) }

module _ (env : Services) (p : Provider) (n : Notification) where
  pub send-requests :
      (w : W env)
      → env.request_error (p.base_url ++ p.path) ≡ none
      → (send env p n w).1.requests ≡ w.requests ++ request_of env p n ∷ []
  unfolding send now
  send-requests w valid = rw (valid, send)

  pub send-error :
      (w : W env) (outcome : HttpOutcome)
      → env.request_error (p.base_url ++ p.path) ≡ none
      → env.post (suc w.step) (p.base_url ++ p.path) (env.marshal (payload p.kind n)) ≡ outcome
      → (send env p n w).0.error ≡ (answer p.kind outcome 0).error
  unfolding send now answer
  send-error w outcome valid posted = ground arith

module _ (env : Services) (steady : (n : ℕ) → env.fault n ≡ answered) where
  -- After an attempt: the count is one higher, one request was made, Redis is as it was, and the error
  -- is that of the provider's answer.
  pub record Attempted (p : Provider) (n : Notification) (w : W env) (row : Row)
      (outcome : HttpOutcome) : Type 0 where
    pub time : ℕ
    pub at : At env n.id (record_attempt env p n w).1 (counted time row)
    pub redis : (record_attempt env p n w).1.redis ≡ w.redis
    pub requests : (record_attempt env p n w).1.requests ≡ w.requests ++ request_of env p n ∷ []
    pub error : (record_attempt env p n w).0 ≡ (answer p.kind outcome 0).error

  pub record_attempt-Attempted :
      (p : Provider) (n : Notification) (w : W env) (row : Row) (outcome : HttpOutcome)
      → At env n.id w row
      → env.request_error (p.base_url ++ p.path) ≡ none
      → env.post (suc (suc w.step)) (p.base_url ++ p.path) (env.marshal (payload p.kind n))
        ≡ outcome
      → Attempted p n w row outcome
  unfolding record_attempt now count_metric
  record_attempt-Attempted p n w row outcome at valid posted =
      let w1 : W env = record w { step = suc w.step } in
      let w2 = (send env p n w1).1 in
      let w4 : W env = record w2 {
        step = suc w2.step;
        metrics = w2.metrics ++ observed n.channel (env.clock w2.step - env.clock w.step) ∷ [];
      } in
      let a = attempt_of n (send env p n w1).0 in
      let w5 = (increment_attempt env n.id w4).1 in
      let kept = send-db env p n w1 in
      let (t, at5) =
        increment-At env steady n.id w4 row
          (ap (λ db. find (has_id n.id) db.notifications) kept.0 ∙ at) in
      let i = increment-Same env n.id w4 in
      let c = attempt-Same env a w5 in
      record {
        time = t;
        at = attempt-At env n.id a w5 (counted t row) at5;
        redis = c.redis ∙ i.redis ∙ kept.2;
        requests = c.requests ∙ i.requests ∙ send-requests env p n w1 valid;
        error = send-error env p n w1 outcome valid posted;
      }
