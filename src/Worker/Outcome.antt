-- ===== src/Worker/Outcome.antt =====
-- `processMessage` after the rate limit, where every call to the database and to Redis is answered and
-- the notification is found and not final.
use event_driven_notificatio.Prelude.{
  find, ℕ, suc, ◌+◌, ◌<◌, ◌≤◌, ◌≡◌, refl, ap, ◌∙◌, Option, none, some, [], ◌∷◌, ◌++◌, ok, arith,
}
use event_driven_notificatio.Prelude.Int.{pos_part}
use event_driven_notificatio.Prelude.Text.{Str}
use event_driven_notificatio.Domain.{Notification, processing, delivered, queued, failed}
use event_driven_notificatio.Services.{Services, Row, W, HttpOutcome, response, answered}
use event_driven_notificatio.Repository.Rows.{scan_notification}
use event_driven_notificatio.Repository.Sql.{set_status, has_id}
use event_driven_notificatio.Repository.Reading.{get_by_id-world, get_by_id-answered}
use event_driven_notificatio.Repository.Notifications.{get_by_id, update_status}
use event_driven_notificatio.Delivery.Retry.{backoff}
use event_driven_notificatio.Delivery.Backoff.{should_retry_iff, should_retry_over}
use event_driven_notificatio.Delivery.Providers.{
  Provider, SendError, error_text, payload, answer, lookup,
}
use event_driven_notificatio.Delivery.Sending.{answer_ok_iff}
use event_driven_notificatio.Queue.Producer.{delayed_key, member}
use event_driven_notificatio.Queue.Consumer.{Message}
use event_driven_notificatio.Queue.Dlq.{dlq_stream, dead_entry}
use event_driven_notificatio.Worker.Finality.{IsOpen, is_final-IsOpen}
use event_driven_notificatio.Worker.Dispatcher.{
  Dispatcher, record_attempt, ack_message, schedule_retry, give_up, settle, attempt_delivery,
  deliver, handle_read, handle, unix_milli,
}
use event_driven_notificatio.Worker.Answered.{
  At, update-At, update_status-world, update_status-Same,
}
use event_driven_notificatio.Worker.Settling.{
  acked, succeed-Leaves, schedule_retry-Leaves, give_up-Leaves, ack-kept, ack-redis,
}
use event_driven_notificatio.Worker.Attempting.{Attempted, record_attempt-Attempted, request_of}

-- The outcome of handling a message: the row afterwards, Redis, and the one request that was made.
pub record Outcome (env : Services) (id : ℕ) (w w' : W env) (p : Provider) (n : Notification)
    (row : Row) (r : env.Redis) : Type 0 where
  pub at : At env id w' row
  pub redis : w'.redis ≡ r
  pub requests : w'.requests ≡ w.requests ++ request_of env p n ∷ []

-- An outcome of one world is the outcome of an equal one.
Outcome-eq :
    {env : Services} {id : ℕ} {w v v' : W env} {p : Provider} {n : Notification} {row : Row}
    {r : env.Redis}
    → v ≡ v'
    → Outcome env id w v' p n row r
    → Outcome env id w v p n row r
Outcome-eq {id} same o = record {
  at = ap (λ x. find (has_id id) x.db.notifications) same ∙ o.at;
  redis = ap (λ x. x.redis) same ∙ o.redis;
  requests = ap (λ x. x.requests) same ∙ o.requests;
}

-- No error text is empty, so it replaces the last error.
set_status-error_text :
    (e : SendError) (t : ℕ) (row : Row)
    → (set_status queued (error_text e) t row
        ≡ record row { status = queued; last_error = some (error_text e); updated_at = t })
      × (set_status failed (error_text e) t row
          ≡ record row { status = failed; last_error = some (error_text e); updated_at = t })
unfolding set_status error_text
set_status-error_text (SendError.creating why) t row = (refl, refl)
set_status-error_text (SendError.sending what why) t row = (refl, refl)
set_status-error_text (SendError.provider_failure code) t row = (refl, refl)

module _ (env : Services) (steady : (n : ℕ) → env.fault n ≡ answered) (d : Dispatcher)
    (msg : Message) (w : W env) (row : Row) (p : Provider) (outcome : HttpOutcome)
    (found : At env row.id w row) (opened : IsOpen row.status)
    (provided : lookup row.channel d.providers ≡ some p)
    (valid : env.request_error (p.base_url ++ p.path) ≡ none)
    (posted : env.post
        (w.step + 5)
        (p.base_url ++ p.path)
        (env.marshal (payload p.kind (scan_notification env row)))
      ≡ outcome) where
  abbrev n : Notification
  n = scan_notification env row

  abbrev w1 : W env
  w1 = record w { step = suc w.step }

  abbrev w2 : W env
  w2 = (update_status env row.id processing [] w1).1

  handle-reaches : (handle env d msg row.id w).1 ≡ (attempt_delivery env p msg n w2).1
  unfolding handle handle_read deliver scan_notification
  handle-reaches =
      let e : (get_by_id env row.id w).0 ≡ ok n =
        get_by_id-answered env row.id w (steady w.step) ∙ rw found in
      rw (e, get_by_id-world env row.id w) (rw (is_final-IsOpen row.status opened) (rw provided))

  attempted : (t : ℕ) × Attempted env steady p n w2 (set_status processing [] t row) outcome
  unfolding scan_notification
  attempted =
      let (t, at2) = update-At env steady row.id processing [] w1 row found in
      let same_step : w2.step ≡ suc (suc (suc w.step)) =
        ap (λ v. v.step) (update_status-world env steady row.id processing [] w1) in
      let same_call : suc (suc w2.step) ≡ w.step + 5 = omega arith in
      (
        t,
        record_attempt-Attempted env steady p n w2 (set_status processing [] t row) outcome at2
            valid
            (ap (λ k. env.post k (p.base_url ++ p.path) (env.marshal (payload p.kind n))) same_call
              ∙ posted),
      )

  abbrev w6 : W env
  w6 = (record_attempt env p n w2).1

  settles :
      (e : Option SendError)
      → (record_attempt env p n w2).0 ≡ e
      → (handle env d msg row.id w).1 ≡ (settle env msg n e w6).1
  unfolding attempt_delivery
  settles e same = handle-reaches ∙ ap (λ o. (settle env msg n o w6).1) same

  -- Where every call is answered, the message's notification is found and not final, its channel has a
  -- provider and the provider's URL is accepted, an answer below 400 has this outcome: the row is delivered with one more attempt counted and is otherwise as it
  -- was, the message is acknowledged and nothing else has changed in Redis, and the provider's one
  -- request was made.
  pub handle_delivers :
      (code : ℕ) (body : Str)
      → outcome ≡ response code body
      → code < 400
      → (t : ℕ) × Outcome env row.id w
          (handle env d msg row.id w).1
          p
          n
          (record row {
            status = delivered;
            attempt_count = row.attempt_count + 1;
            delivered_at = some t;
            updated_at = t;
          })
          (acked env msg w.redis)
  unfolding attempt_delivery settle set_status scan_notification
  handle_delivers code body answer-eq good =
      let (t, a) = attempted in
      let u = update_status-Same env row.id processing [] w1 in
      let ok_error : (record_attempt env p n w2).0 ≡ none =
        a.error ∙ (answer_ok_iff p.kind outcome 0).1 (code, body, answer-eq, good) in
      let (t', l) = succeed-Leaves env steady msg n w6 _ a.at in
      (
        t',
        Outcome-eq (settles none ok_error) (record {
          at = l.at;
          redis = l.redis ∙ ap (acked env msg) (a.redis ∙ u.redis);
          requests = l.requests ∙ a.requests ∙ ap (λ q. q ++ request_of env p n ∷ []) u.requests;
        }),
      )

  module _ (e : SendError) (fails : (answer p.kind outcome 0).error ≡ some e) where
    abbrev again : ℕ
    again = row.attempt_count + 1

    -- Where every call is answered, the message's notification is found and not final, its channel has
    -- a provider and the provider's URL is accepted, a failed request while `max_retries` allows another
    -- attempt has this outcome: the row is queued with the error, and
    -- the notification stands in the delayed set at the time of the retry, which is the backoff of the
    -- new count after some reading of the clock; then the message is acknowledged.
    pub handle_retries :
        row.attempt_count + 1 < pos_part row.max_retries
        → (t : ℕ) × (k : ℕ) × Outcome env row.id w
            (handle env d msg row.id w).1
            p
            n
            (record row {
              status = queued;
              attempt_count = row.attempt_count + 1;
              last_error = some (error_text e);
              updated_at = t;
            })
            (acked env msg (
              env.zadd delayed_key
                (unix_milli (env.clock k + backoff (row.attempt_count + 1)))
                (member env row.id row.channel row.priority)
                w.redis))
    unfolding settle set_status scan_notification
    handle_retries more =
        let (t, a) = attempted in
        let u = update_status-Same env row.id processing [] w1 in
        let (t', k, l) = schedule_retry-Leaves env steady n (error_text e) w6 _ a.at in
        let w7 = (schedule_retry env n (error_text e) w6).1 in
        let kept = ack-kept env msg w7 in
        let settled : (settle env msg n (some e) w6).1 ≡ (ack_message env msg w7).1 =
          rw ((should_retry_iff (row.attempt_count + 1) row.max_retries).1 more) in
        (
          t',
          k,
          Outcome-eq (settles (some e) (a.error ∙ fails) ∙ settled) (record {
            at =
                ap (λ db. find (has_id row.id) db.notifications) kept.0
                ∙ l.at
                ∙ ap some (set_status-error_text e t' _).0;
            redis =
                ack-redis env steady msg w7
                ∙ ap (acked env msg) (
                    l.redis
                    ∙ ap
                        (λ r.
                          env.zadd delayed_key
                            (unix_milli (env.clock k + backoff (row.attempt_count + 1)))
                            (member env row.id row.channel row.priority) r)
                        (a.redis ∙ u.redis));
            requests =
                kept.1
                ∙ l.requests
                ∙ a.requests
                ∙ ap (λ q. q ++ request_of env p n ∷ []) u.requests;
          }),
        )

    -- Where every call is answered, the message's notification is found and not final, its channel has
    -- a provider and the provider's URL is accepted, a failed request that uses up `max_retries` has this
    -- outcome: the row has failed with the error, the notification is in
    -- the dead letter stream and not in the delayed set, and the message is acknowledged.
    pub handle_gives_up :
        pos_part row.max_retries ≤ row.attempt_count + 1
        → (t : ℕ) × Outcome env row.id w
            (handle env d msg row.id w).1
            p
            n
            (record row {
              status = failed;
              attempt_count = row.attempt_count + 1;
              last_error = some (error_text e);
              updated_at = t;
            })
            (acked env msg
              (env.xadd dlq_stream (dead_entry env row.id row.channel (error_text e)) w.redis))
    unfolding settle set_status scan_notification
    handle_gives_up over =
        let (t, a) = attempted in
        let u = update_status-Same env row.id processing [] w1 in
        let (t', l) = give_up-Leaves env steady n (error_text e) w6 _ a.at in
        let w7 = (give_up env n (error_text e) w6).1 in
        let kept = ack-kept env msg w7 in
        let settled : (settle env msg n (some e) w6).1 ≡ (ack_message env msg w7).1 =
          rw (should_retry_over (row.attempt_count + 1) row.max_retries over) in
        (
          t',
          Outcome-eq (settles (some e) (a.error ∙ fails) ∙ settled) (record {
            at =
                ap (λ db. find (has_id row.id) db.notifications) kept.0
                ∙ l.at
                ∙ ap some (set_status-error_text e t' _).1;
            redis =
                ack-redis env steady msg w7
                ∙ ap (acked env msg) (
                    l.redis
                    ∙ ap
                        (λ r.
                          env.xadd dlq_stream (dead_entry env row.id row.channel (error_text e)) r)
                        (a.redis ∙ u.redis));
            requests =
                kept.1
                ∙ l.requests
                ∙ a.requests
                ∙ ap (λ q. q ++ request_of env p n ∷ []) u.requests;
          }),
        )
