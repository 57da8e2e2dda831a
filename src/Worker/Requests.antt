-- ===== src/Worker/Requests.antt =====
-- The HTTP requests that handling a message makes.
use event_driven_notificatio.Prelude.{
  subst, ◌-◌, ℕ, suc, ◌≡◌, refl, sym, ap, ◌∙◌, ◌⊎◌, inl, inr, some, [], ◌∷◌, ◌++◌, ok, arith,
  Bool-cases, Option-cases, Result-cases,
}
use event_driven_notificatio.Domain.{Notification, processing}
use event_driven_notificatio.Services.{observed, Services, Row, W, Metric, now, count_metric}
use event_driven_notificatio.Repository.Rows.{scan_notification}
use event_driven_notificatio.Repository.Reading.{get_by_id-world, get_by_id-ok}
use event_driven_notificatio.Repository.Notifications.{
  create_delivery_attempt, increment_attempt, get_by_id, update_status,
}
use event_driven_notificatio.Delivery.Retry.{retry_at}
use event_driven_notificatio.Delivery.Providers.{Provider, lookup, send}
use event_driven_notificatio.Queue.Consumer.{Message}
use event_driven_notificatio.Websocket.Broadcast.{broadcast-SameButFrames}
use event_driven_notificatio.Worker.Finality.{IsOpen, IsOver, is_final-IsOver, IsOpen-not_final}
use event_driven_notificatio.Worker.Dispatcher.{
  Dispatcher, ack_message, is_final, record_attempt, attempt_of, attempt_delivery, deliver,
  handle_read, handle,
}
use event_driven_notificatio.Worker.Footprint.{Quiet, settle-moves, refuse_channel-moves}
use event_driven_notificatio.Worker.Answered.{At, update_status-Same, increment-Same, attempt-Same}
use event_driven_notificatio.Worker.Settling.{ack-kept, delay-kept, dead-kept}
use event_driven_notificatio.Worker.Attempting.{request_of}

module _ (env : Services) where
  abbrev SameRequests : W env → W env → Type 0
  SameRequests w w' = w'.requests ≡ w.requests

  retry-requests : (n : ℕ) (w : W env) → SameRequests w (retry_at env n w).1
  unfolding retry_at now
  retry-requests n w = refl

  now-requests : (w : W env) → SameRequests w (now env w).1
  unfolding now
  now-requests w = refl

  metric-requests : (m : Metric) (w : W env) → SameRequests w (count_metric env m w).1
  unfolding count_metric
  metric-requests m w = refl

  Quiet-requests : (msg : Message) (id : ℕ) → Quiet env SameRequests msg id
  Quiet-requests msg id = record {
    same = λ w. refl;
    chain = λ a b c p q. q ∙ p;
    read = λ w. ap (λ v. v.requests) (get_by_id-world env id w);
    update = λ s e w. (update_status-Same env id s e w).requests;
    increment = λ w. (increment-Same env id w).requests;
    attempt = λ a w mine. (attempt-Same env a w).requests;
    clock = now-requests;
    retry = retry-requests;
    metric = metric-requests;
    acked = λ w. (ack-kept env msg w).1;
    delay = λ c p t w. (delay-kept env id c p t w).1;
    dead = λ c e w. (dead-kept env id c e w).1;
    tell = λ s w. (broadcast-SameButFrames env id s w).requests;
  }

  -- `Send` makes one request, or none if the URL is refused.
  send_requests :
      (p : Provider) (n : Notification) (w : W env)
      → ((send env p n w).1.requests ≡ w.requests)
        ⊎ ((send env p n w).1.requests ≡ w.requests ++ request_of env p n ∷ [])
  unfolding send now
  send_requests p n w = ground arith

  abbrev pub OneAtMost : W env → W env → Provider → Notification → Type 0
  OneAtMost w w' p n =
      (w'.requests ≡ w.requests) ⊎ (w'.requests ≡ w.requests ++ request_of env p n ∷ [])

  attempt_requests :
      (p : Provider) (msg : Message) (n : Notification) (w : W env)
      → OneAtMost w (attempt_delivery env p msg n w).1 p n
  unfolding attempt_delivery record_attempt now count_metric
  attempt_requests p msg n w =
      let w1 : W env = record w { step = suc w.step } in
      let w2 = (send env p n w1).1 in
      let a = attempt_of n (send env p n w1).0 in
      let w4 : W env = record w2 {
        step = suc w2.step;
        metrics = w2.metrics ++ observed n.channel (env.clock w2.step - env.clock w.step) ∷ [];
      } in
      let w5 = (increment_attempt env n.id w4).1 in
      let w6 = (create_delivery_attempt env a w5).1 in
      let later =
        settle-moves env SameRequests msg n (Quiet-requests msg n.id) (send env p n w1).0.error w6
        ∙ (attempt-Same env a w5).requests
        ∙ (increment-Same env n.id w4).requests in
      elim (send_requests p n w1) [
        | inl unsent ↦ inl (later ∙ unsent)
        | inr sent ↦ inr (later ∙ sent)
      ]

  -- What a request of `handle` presupposes and is.
  abbrev pub Sent : Dispatcher → ℕ → W env → W env → Type 0
  Sent d id w w' =
      (row : Row) × (p : Provider) × At env id w row
      × IsOpen row.status
      × (lookup row.channel d.providers ≡ some p)
      × (w'.requests ≡ w.requests ++ request_of env p (scan_notification env row) ∷ [])

  deliver_requests :
      (d : Dispatcher) (msg : Message) (n : Notification) (w : W env)
      → ((deliver env d msg n w).1.requests ≡ w.requests)
        ⊎ ((p : Provider) × (lookup n.channel d.providers ≡ some p)
            × ((deliver env d msg n w).1.requests ≡ w.requests ++ request_of env p n ∷ []))
  unfolding deliver
  deliver_requests d msg n w =
      let w' = (update_status env n.id processing [] w).1 in
      let same = (update_status-Same env n.id processing [] w).requests in
      elim (Option-cases (lookup n.channel d.providers)) [
        | inl missing ↦ inl (
            rw missing
              (refuse_channel-moves env SameRequests msg n (Quiet-requests msg n.id) w' ∙ same))
        | inr (p, provided) ↦ elim (attempt_requests p msg n w') [
          | inl unsent ↦ inl (rw provided (unsent ∙ same))
          | inr sent ↦
              inr (p, provided, rw provided (sent ∙ ap (λ q. q ++ request_of env p n ∷ []) same))
        ]
      ]

  handle_read_requests :
      (d : Dispatcher) (msg : Message) (id : ℕ) (w w1 : W env) (row : Row)
      → At env id w row
      → w1.requests ≡ w.requests
      → (((handle_read env d msg (ok (scan_notification env row)) w1).1.requests ≡ w.requests)
          ⊎ Sent d id w (handle_read env d msg (ok (scan_notification env row)) w1).1)
  unfolding handle_read scan_notification
  handle_read_requests d msg id w w1 row at same = elim (Bool-cases (is_final row.status)) [
    | inl final ↦ inl (rw final ((ack-kept env msg w1).1 ∙ same))
    | inr open_status ↦ elim (deliver_requests d msg (scan_notification env row) w1) [
      | inl unsent ↦ inl (rw open_status (unsent ∙ same))
      | inr (p, provided, sent) ↦ inr (
        row,
        p,
        at,
        IsOpen-not_final row.status open_status,
        provided,
        rw open_status
            (sent ∙ ap (λ q. q ++ request_of env p (scan_notification env row) ∷ []) same),
      )
    ]
  ]

  -- Handling a message makes no request, or exactly one: to the provider of the channel of the row
  -- that is found under the ID, for that row, and then the row was neither delivered, cancelled nor
  -- failed. This holds on every branch and whichever calls fail.
  pub handle_requests :
      (d : Dispatcher) (msg : Message) (id : ℕ) (w : W env)
      → ((handle env d msg id w).1.requests ≡ w.requests) ⊎ Sent d id w (handle env d msg id w).1
  unfolding handle
  handle_requests d msg id w =
      let w1 = (get_by_id env id w).1 in
      let same = ap (λ v. v.requests) (get_by_id-world env id w) in
      elim (Result-cases (get_by_id env id w).0) [
        | inr (e, unread) ↦ inl (rw unread (ack-kept' w1 ∙ same))
        | inl (n, read) ↦
            let (row, at, scanned) = get_by_id-ok env id w read in
            subst
              (λ r.
                ((handle_read env d msg r w1).1.requests ≡ w.requests)
                ⊎ Sent d id w (handle_read env d msg r w1).1)
              (sym (read ∙ ap ok (sym scanned))) (handle_read_requests d msg id w w1 row at same)
      ]
    where
      ack-kept' : (v : W env) → (ack_message env msg v).1.requests ≡ v.requests
      ack-kept' v = (ack-kept env msg v).1

-- A message for a notification that was delivered, cancelled or has failed changes no table, makes no
-- request and tells no watcher, whichever calls fail.
pub handle_skips_final :
    (env : Services) (d : Dispatcher) (msg : Message) (id : ℕ) (w : W env) (row : Row)
    → At env id w row
    → IsOver row.status
    → ((handle env d msg id w).1.db ≡ w.db)
      × ((handle env d msg id w).1.requests ≡ w.requests)
      × ((handle env d msg id w).1.frames ≡ w.frames)
unfolding handle handle_read scan_notification
handle_skips_final env d msg id w row at over =
    let final = is_final-IsOver row.status over in
    let w1 = (get_by_id env id w).1 in
    let k = ack-kept env msg w1 in
    let v = get_by_id-world env id w in
    let kept : (handle env d msg id w).1 ≡ (ack_message env msg w1).1 =
      elim (Result-cases (get_by_id env id w).0) [
        | inr (e, unread) ↦ rw unread
        | inl (n, read) ↦
            let (row', at', scanned) = get_by_id-ok env id w read in
            let same_row : row ≡ row' = cc in rw (read, ← scanned, ← same_row, final)
      ] in
    (
      ap (λ x. x.db) kept ∙ k.0 ∙ ap (λ x. x.db) v,
      ap (λ x. x.requests) kept ∙ k.1 ∙ ap (λ x. x.requests) v,
      ap (λ x. x.frames) kept ∙ k.2 ∙ ap (λ x. x.frames) v,
    )
