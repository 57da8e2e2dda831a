-- ===== src/Validator.antt =====
-- internal/validator/validator.go
pub mod Rules
use event_driven_notificatio.Prelude.{
  ℕ, ◌≡◌, Bool, true, false, ◌&&◌, ◌||◌, not, ltb, leb, ◌==◌, if◌then◌else◌, Option, none, some,
  List, [], ◌∷◌, length,
}
use event_driven_notificatio.Prelude.Text.{Str, str, same}
use event_driven_notificatio.Domain.{
  Error, validation, invalid_channel, Channel, channel_email, channel_sms, channel_push,
}
use event_driven_notificatio.Services.{Services}

abbrev pub is_digit : ℕ → Bool
is_digit c = leb b'0' c && leb c b'9'

unfoldable pub all_digits : Str → Bool
all_digits [] = true
all_digits (c ∷ s) = is_digit c && all_digits s

-- `^\+[1-9]\d{6,14}$`, where `$` is the end of the text
unfoldable pub is_phone : Str → Bool
unfolding all_digits
is_phone (c ∷ d ∷ ds) =
    c == b'+'
    && ((leb b'1' d && leb d b'9') && (all_digits ds && (leb 6 (length ds) && leb (length ds) 14)))
is_phone _ = false

-- The spaces of `unicode.IsSpace`, in UTF-8: of one byte, of two and of three.
abbrev space_1 : ℕ → Bool
space_1 a = (leb 9 a && leb a 13) || a == 32

abbrev space_2 : ℕ → ℕ → Bool
space_2 a b = a == 194 && (b == 133 || b == 160)

abbrev space_3 : ℕ → ℕ → ℕ → Bool
space_3 a b c =
    (a == 225 && (b == 154 && c == 128))
    || ((a == 226
          && ((b == 128 && ((leb 128 c && leb c 138) || (c == 168 || (c == 169 || c == 175))))
              || (b == 129 && c == 159)))
        || (a == 227 && (b == 128 && c == 128)))

-- `strings.TrimSpace(s) == ""`
unfoldable pub is_blank : Str → Bool
is_blank [] = true
is_blank (a ∷ []) = space_1 a
is_blank (a ∷ b ∷ []) = (space_1 a && space_1 b) || space_2 a b
is_blank (a ∷ b ∷ c ∷ s) =
    (space_1 a && is_blank (b ∷ c ∷ s))
    || ((space_2 a b && is_blank (c ∷ s)) || (space_3 a b c && is_blank s))

-- The end of `ValidateNotificationContent`, for a channel whose own rules are met.
unfoldable pub check_body : Str → Option Error
check_body body = if same body [] then some validation else none

module _ (env : Services) where
  -- `nil` is `none`.
  unfoldable pub validate_notification_content : Channel → Str → Str → Str → Option Error
  unfolding check_body
  validate_notification_content channel recipient subject body =
      if same channel channel_email
      then (if not (env.valid_address recipient)
          then some validation
          else if same subject []
          then some validation
          else check_body body)
      else if same channel channel_sms
      then (if not (is_phone recipient)
          then some validation
          else if ltb 1600 (length body)
          then some validation
          else check_body body)
      else if same channel channel_push
      then (if is_blank recipient
          then some validation
          else if ltb 4096 (length body)
          then some validation
          else check_body body)
      else some invalid_channel
