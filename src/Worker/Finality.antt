-- ===== src/Worker/Finality.antt =====
-- The statuses in which a notification is over, written out.
use event_driven_notificatio.Prelude.{◌≡◌, ◌≢◌, ◌⊎◌, inl, inr, refl, true, false}
use event_driven_notificatio.Domain.{
  Status, pending, scheduled, queued, processing, delivered, failed, cancelled,
}
use event_driven_notificatio.Worker.Dispatcher.{is_final}

abbrev pub IsOver : Status → Type 0
IsOver s = (s ≡ delivered) ⊎ ((s ≡ cancelled) ⊎ (s ≡ failed))

abbrev pub IsOpen : Status → Type 0
IsOpen s = (s ≢ delivered) × (s ≢ cancelled) × (s ≢ failed)

pub is_final-IsOver : (s : Status) → IsOver s → is_final s ≡ true
is_final-IsOver s (inl e) = rw e
is_final-IsOver s (inr (inl e)) = rw e
is_final-IsOver s (inr (inr e)) = rw e

pub is_final-IsOpen : (s : Status) → IsOpen s → is_final s ≡ false
is_final-IsOpen pending h = refl
is_final-IsOpen scheduled h = refl
is_final-IsOpen queued h = refl
is_final-IsOpen processing h = refl
is_final-IsOpen delivered h = absurd (h.0 refl)
is_final-IsOpen failed h = absurd (h.2 refl)
is_final-IsOpen cancelled h = absurd (h.1 refl)

pub IsOpen-not_final : (s : Status) → is_final s ≡ false → IsOpen s
IsOpen-not_final pending h = (λ e. cc, λ e. cc, λ e. cc)
IsOpen-not_final scheduled h = (λ e. cc, λ e. cc, λ e. cc)
IsOpen-not_final queued h = (λ e. cc, λ e. cc, λ e. cc)
IsOpen-not_final processing h = (λ e. cc, λ e. cc, λ e. cc)
IsOpen-not_final delivered h = cc
IsOpen-not_final failed h = cc
IsOpen-not_final cancelled h = cc
