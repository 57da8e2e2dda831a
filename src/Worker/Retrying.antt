-- ===== src/Worker/Retrying.antt =====
-- A member of the delayed set, from EnqueueDelayed to processDelayedBatch.
use event_driven_notificatio.Prelude.{
  ◌||◌, ℕ, ◌≡◌, ◌≢◌, refl, sym, true, Bool-cases, inl, inr, some, [], ◌∷◌, arith, subst,
}
use event_driven_notificatio.Prelude.Text.{Str, same, same_iff}
use event_driven_notificatio.Domain.{
  Channel, Priority, channel_valid, priority_valid, channel_sms, channel_email, channel_push,
  priority_high, priority_normal, priority_low,
}
use event_driven_notificatio.Services.{Services, W}
use event_driven_notificatio.Services.Laws.{UuidLaws}
use event_driven_notificatio.Queue.Producer.{member, enqueue}
use event_driven_notificatio.Worker.Member.{parse_member}
use event_driven_notificatio.Worker.Parsing.{NoColon, parse_member_iff}
use event_driven_notificatio.Worker.Dispatcher.{re_enqueue, enqueue_parts}

-- One of three texts.
one_of_three :
    (P : Str → Type 0) (s a b c : Str)
    → P a
    → P b
    → P c
    → (same s a || (same s b || same s c)) ≡ true
    → P s
one_of_three P s a b c pa pb pc e = elim (Bool-cases (same s a)) [
  | inl is_a ↦ subst P (sym ((same_iff s a).0 is_a)) pa
  | inr not_a ↦ elim (Bool-cases (same s b)) [
    | inl is_b ↦ subst P (sym ((same_iff s b).0 is_b)) pb
    | inr not_b ↦ subst P (sym ((same_iff s c).0 (ground arith))) pc
  ]
]

channel-NoColon : (c : Channel) → channel_valid c ≡ true → NoColon c
unfolding channel_valid
channel-NoColon c valid =
    one_of_three NoColon c channel_sms channel_email channel_push (ground arith) (ground arith)
      (ground arith) valid

priority_nonempty : (p : Priority) → priority_valid p ≡ true → p ≢ []
unfolding priority_valid
priority_nonempty p valid =
    one_of_three (λ s. s ≢ []) p priority_high priority_normal priority_low (λ e. cc) (λ e. cc)
      (λ e. cc) valid

-- What `EnqueueDelayed` writes for a notification of a valid channel and priority is read back and
-- enqueued as `Enqueue` of the same notification, whichever calls fail. It needs that a UUID is read
-- back from its text, which has no colon.
pub re_enqueue-member :
    (env : Services) (laws : UuidLaws env) (id : ℕ) (c : Channel) (p : Priority) (w : W env)
    → channel_valid c ≡ true
    → priority_valid p ≡ true
    → (re_enqueue env (member env id c p) w).1 ≡ (enqueue env id c p w).1
unfolding re_enqueue enqueue_parts member
re_enqueue-member env laws id c p w c_valid p_valid =
    let parsed : parse_member (member env id c p) ≡ some (env.uuid_string id ∷ c ∷ p ∷ []) =
      (parse_member_iff (member env id c p) (env.uuid_string id ∷ c ∷ p ∷ [])).1 (
        env.uuid_string id,
        c,
        p,
        refl,
        refl,
        laws.no_colon id,
        channel-NoColon c c_valid,
        priority_nonempty p p_valid,
      ) in
    rw (parsed, laws.value-string id) refl
