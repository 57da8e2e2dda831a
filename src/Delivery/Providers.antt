-- ===== src/Delivery/Providers.antt =====
-- internal/delivery/provider.go and the three providers. What `http.Client.Do` answers is up to the
-- environment; the request that it was given is kept in `World.requests`.
use event_driven_notificatio.Prelude.{
  ℕ, ◌+◌, ◌-◌, ◌/◌, leb, if◌then◌else◌, Option, none, some, List, [], ◌∷◌, ◌++◌, take,
}
use event_driven_notificatio.Prelude.Text.{Str, str, decimal, same}
use event_driven_notificatio.Prelude.State.{pure, ◌>>=◌}
use event_driven_notificatio.Domain.{
  Channel, channel_sms, channel_email, channel_push, Notification, Vars,
}
use event_driven_notificatio.Services.{
  Services, HttpOutcome, transport_error, response, Action, Request, now,
}

-- The errors of `Send`, and their texts. `sending` carries the word for the channel.
pub data SendError : Type 0 where
  creating : Str → SendError
  sending : Str → Str → SendError
  provider_failure : ℕ → SendError

unfoldable pub error_text : SendError → Str
error_text (creating why) = str "creating request: " ++ why
error_text (sending what why) = str "sending " ++ (what ++ (str ": " ++ why))
error_text (provider_failure code) = str "delivery provider failure: status " ++ decimal code

pub record SendResult : Type 0 where
  pub status_code : ℕ
  pub response_body : Str
  pub error : Option SendError
  pub duration_ms : ℕ

-- The three structs differ in their kind and have the same fields.
pub data Kind : Type 0 where
  email sms push : Kind

pub record Provider : Type 0 where
  pub kind : Kind
  pub base_url : Str
  pub path : Str

-- `Provider.Channel`
unfoldable pub channel_of : Kind → Channel
channel_of email = channel_email
channel_of sms = channel_sms
channel_of push = channel_push

-- The word in "sending …".
abbrev pub kind_word : Kind → Str
kind_word email = str "email"
kind_word sms = str "SMS"
kind_word push = str "push"

unfoldable pub payload : Kind → Notification → Vars
payload email n =
    (str "to", n.recipient)
    ∷ (str "subject", n.subject)
    ∷ (str "body", n.body)
    ∷ (str "channel", n.channel)
    ∷ []
payload sms n = (str "to", n.recipient) ∷ (str "body", n.body) ∷ (str "channel", n.channel) ∷ []
payload push n =
    (str "device_token", n.recipient)
    ∷ (str "title", n.subject)
    ∷ (str "body", n.body)
    ∷ (str "channel", n.channel)
    ∷ []

-- `time.Since(start).Milliseconds()`; the monotonic clock does not run backwards.
abbrev pub millis_since : ℕ → ℕ → ℕ
millis_since start t = (t - start) / 1000000

-- The status that a provider's answer stands for.
unfoldable pub answer : Kind → HttpOutcome → ℕ → SendResult
answer kind (transport_error why) ms = record {
  status_code = 0;
  response_body = [];
  error = some (sending (kind_word kind) why);
  duration_ms = ms;
}
answer kind (response code body) ms = record {
  status_code = code;
  response_body = take 4096 body;
  error = if leb 400 code then some (provider_failure code) else none;
  duration_ms = ms;
}

-- `providers[channel]`
abbrev pub Providers : Type 0
Providers = List (Channel × Provider)

unfoldable pub lookup : Channel → Providers → Option Provider
lookup c [] = none
lookup c ((c', p) ∷ ps) = if same c' c then some p else lookup c ps

module _ (env : Services) where
  -- `client.Do`
  unfoldable pub do_request : Request → Action env HttpOutcome
  do_request q w = (
    env.post w.step q.url q.body,
    record w { requests = w.requests ++ q ∷ []; step = w.step + 1 },
  )

  unfoldable pub send : Provider → Notification → Action env SendResult
  unfolding do_request answer
  send p n = do
    start ← now env
    let url = p.base_url ++ p.path
    elim (env.request_error url) [
      | some why ↦ do
        t ← now env
        pure (record {
          status_code = 0;
          response_body = [];
          error = some (creating why);
          duration_ms = millis_since start t;
        })
      | none ↦ do
        outcome ← do_request (record { url = url; body = env.marshal (payload p.kind n) })
        t ← now env
        pure (answer p.kind outcome (millis_since start t))
    ]
