-- ===== src/Delivery/Sending.antt =====
-- What `Send` of each provider does and reports.
use event_driven_notificatio.Prelude.{ℕ, ◌<◌, ◌≡◌, refl, ◌↔◌, none, List, arith}
use event_driven_notificatio.Services.{HttpOutcome, transport_error, response}
use event_driven_notificatio.Delivery.Providers.{answer, Kind}

-- A provider reports success exactly for an answer below 400; a transport error has no status.
pub answer_ok_iff :
    (kind : Kind) (outcome : HttpOutcome) (ms : ℕ)
    → ((answer kind outcome ms).error ≡ none)
      ↔ ((code : ℕ) × (body : List ℕ) × (outcome ≡ response code body) × (code < 400))
unfolding answer
answer_ok_iff kind (transport_error why) ms = (λ e. cc, λ s. cc s.2)
answer_ok_iff kind (response code body) ms =
    (λ e. (code, body, refl, ground arith), λ s. ground arith)
