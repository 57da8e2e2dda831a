-- ===== src/Validator/Rules.antt =====
-- What the validator accepts, per channel.
use event_driven_notificatio.Prelude.{
  ℕ, ◌≡◌, ◌≢◌, ◌≤◌, ◌⊎◌, ◌↔◌, inl, inr, refl, ap, ◌∙◌, true, false, Bool-cases, none, [], ◌∷◌,
  length, All, arith,
}
use event_driven_notificatio.Prelude.Text.{Str, same, same_iff}
use event_driven_notificatio.Domain.{channel_email, channel_sms, channel_push}
use event_driven_notificatio.Services.{Services}
use event_driven_notificatio.Validator.{
  all_digits, is_phone, is_blank, check_body, validate_notification_content,
}

abbrev pub IsDigit : ℕ → Type 0
IsDigit c = (b'0' ≤ c) × (c ≤ b'9')

all_digits_iff : (s : Str) → (all_digits s ≡ true) ↔ All IsDigit s
unfolding all_digits
all_digits_iff [] = (λ e. tt, λ a. refl)
all_digits_iff (c ∷ s) = (
  λ e. ((ground arith, ground arith), (all_digits_iff s).0 (ground arith)),
  λ a. let rest = (all_digits_iff s).1 a.1 in ground (arith, a.0.0, a.0.1),
)

-- A plus sign, a digit that is not 0, and 6 to 14 more digits.
abbrev pub IsPhone : Str → Type 0
IsPhone s =
    (d : ℕ) × (ds : Str) × (s ≡ b'+' ∷ d ∷ ds)
    × (b'1' ≤ d)
    × (d ≤ b'9')
    × All IsDigit ds
    × (6 ≤ length ds)
    × (length ds ≤ 14)

is_phone-IsPhone : (s : Str) → is_phone s ≡ true → IsPhone s
unfolding is_phone
is_phone-IsPhone [] e = cc
is_phone-IsPhone (c ∷ []) e = cc
is_phone-IsPhone (c ∷ d ∷ ds) e =
    let plus : c ≡ b'+' = ground arith in
    (
      d,
      ds,
      ap (λ x. x ∷ d ∷ ds) plus,
      ground arith,
      ground arith,
      (all_digits_iff ds).0 (ground arith),
      ground arith,
      ground arith,
    )

IsPhone-is_phone :
    (d : ℕ) (ds : Str)
    → (b'1' ≤ d)
    → (d ≤ b'9')
    → All IsDigit ds
    → 6 ≤ length ds
    → length ds ≤ 14
    → is_phone (b'+' ∷ d ∷ ds) ≡ true
unfolding is_phone
IsPhone-is_phone d ds low high digits six most =
    let all = (all_digits_iff ds).1 digits in ground arith

-- `^\+[1-9]\d{6,14}$` matches exactly the phone numbers.
is_phone_iff : (s : Str) → (is_phone s ≡ true) ↔ IsPhone s
is_phone_iff s = (
  is_phone-IsPhone s,
  λ h.
      let (d, ds, e, low, high, digits, six, most) = h in
      ap is_phone e ∙ IsPhone-is_phone d ds low high digits six most,
)

same-false : (s t : Str) → same s t ≡ false → s ≢ t
same-false s t e = λ q. cc (e, (same_iff s t).1 q)

false-same : (s t : Str) → s ≢ t → same s t ≡ false
false-same s t h = elim (Bool-cases (same s t)) [
  | inl e ↦ absurd (h ((same_iff s t).0 e))
  | inr e ↦ e
]

module _ (env : Services) (channel recipient subject body : Str) where
  -- The rules of one channel.
  abbrev pub EmailRules : Type 0
  EmailRules = (channel ≡ channel_email) × (env.valid_address recipient ≡ true) × (subject ≢ [])

  abbrev pub SmsRules : Type 0
  SmsRules = (channel ≡ channel_sms) × IsPhone recipient × (length body ≤ 1600)

  abbrev pub PushRules : Type 0
  PushRules = (channel ≡ channel_push) × (is_blank recipient ≡ false) × (length body ≤ 4096)

  abbrev pub IsAcceptable : Type 0
  IsAcceptable = (body ≢ []) × (EmailRules ⊎ (SmsRules ⊎ PushRules))

  rules_of_none :
      validate_notification_content env channel recipient subject body ≡ none → IsAcceptable
  unfolding validate_notification_content check_body
  rules_of_none e = elim (Bool-cases (same channel channel_email)) [
    | inl email ↦ (
      same-false body [] (ground arith),
      inl (
        (same_iff channel channel_email).0 email,
        ground arith,
        same-false subject [] (ground arith),
      ),
    )
    | inr not_email ↦ elim (Bool-cases (same channel channel_sms)) [
      | inl sms ↦ (
        same-false body [] (ground arith),
        inr (
            inl (
              (same_iff channel channel_sms).0 sms,
              is_phone-IsPhone recipient (ground arith),
              ground arith,
            )),
      )
      | inr not_sms ↦ (
        same-false body [] (ground arith),
        inr (inr ((same_iff channel channel_push).0 (ground arith), ground arith, ground arith)),
      )
    ]
  ]

module _ (env : Services) (recipient subject body : Str) (full : body ≢ []) where
  email_accepted :
      env.valid_address recipient ≡ true
      → subject ≢ []
      → validate_notification_content env channel_email recipient subject body ≡ none
  unfolding validate_notification_content check_body same
  email_accepted valid titled =
      let a = false-same body [] full in let b = false-same subject [] titled in ground arith

  sms_accepted :
      IsPhone recipient
      → length body ≤ 1600
      → validate_notification_content env channel_sms recipient subject body ≡ none
  unfolding validate_notification_content check_body same
  sms_accepted phone short =
      let a = false-same body [] full in let b = (is_phone_iff recipient).1 phone in ground arith

  push_accepted :
      is_blank recipient ≡ false
      → length body ≤ 4096
      → validate_notification_content env channel_push recipient subject body ≡ none
  unfolding validate_notification_content check_body same
  push_accepted token short = let a = false-same body [] full in ground arith

-- The content of a notification passes validation exactly if its body is not empty and it meets the
-- rules of its channel: for an email an address that package net/mail parses and a subject, for an SMS
-- a plus sign with 7 to 15 digits of which the first is not 0 and a body of at most 1600 bytes, for a
-- push notification a device token that is not blank and a body of at most 4096 bytes.
pub validate_notification_content_iff :
    (env : Services) (channel recipient subject body : Str)
    → (validate_notification_content env channel recipient subject body ≡ none)
      ↔ IsAcceptable env channel recipient subject body
validate_notification_content_iff env channel recipient subject body =
    (rules_of_none env channel recipient subject body, λ h. accepts h.0 h.1)
  where
    accepts :
        body ≢ []
        → EmailRules env channel recipient subject body
          ⊎ (SmsRules env channel recipient subject body
              ⊎ PushRules env channel recipient subject body)
        → validate_notification_content env channel recipient subject body ≡ none
    accepts full (inl (e, valid, titled)) =
        rw e (email_accepted env recipient subject body full valid titled)
    accepts full (inr (inl (e, phone, short))) =
        rw e (sms_accepted env recipient subject body full phone short)
    accepts full (inr (inr (e, token, short))) =
        rw e (push_accepted env recipient subject body full token short)
