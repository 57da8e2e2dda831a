-- ===== src/Ratelimit/Bound.antt =====
-- How many calls of the script are admitted within a window.
use event_driven_notificatio.Prelude.{
  ℕ, ◌-◌, ◌≤◌, ◌<◌, ◌==◌, ltb, ◌≡◌, ◌⊎◌, refl, ap, sym, ◌∙◌, subst, true, false, Bool-cases, inl,
  inr, List, [], ◌∷◌, ◌++◌, length, select, any, All, arith, append_assoc, append-nil,
  length-append, select-ext,
}
use event_driven_notificatio.Prelude.Text.{Str, same_refl}
use event_driven_notificatio.Services.{Services}
use event_driven_notificatio.Services.Laws.{ZsetLaws, WindowLaws, set_score}
use event_driven_notificatio.Ratelimit.{drop_expired, sliding_window}
use event_driven_notificatio.Ratelimit.Window.{
  Call, entry_of, admit, in_window, has_member, IsFrom, AreDistinct, AreNew, AreNew-append,
  set_score-new, select-append, any-select, later_window, length-later_window,
}

select_young : (window t : ℕ) (z : List (Str × ℕ)) → t < window → select (in_window window t) z ≡ z
unfolding select
select_young window t [] h = refl
select_young window t (p ∷ z) h = ground (arith, select_young window t z h)

module _ (env : Services) (zsets : ZsetLaws env) (laws : WindowLaws env zsets) (key : Str)
    (window max_requests : ℕ) (some_time : 0 < window) where
  abbrev entries : env.Redis → List (Str × ℕ)
  entries r = zsets.zset r key

  pub after_drop :
      (t : ℕ) (r : env.Redis)
      → entries (drop_expired env key window t r) ≡ select (in_window window t) (entries r)
  unfolding drop_expired
  after_drop t r = elim (Bool-cases (ltb t window)) [
    | inl young ↦ rw young (sym (select_young window t (entries r) (ground arith)))
    | inr old ↦ rw old (
        laws.zset-zrem_range_by_score key (t - window) r key
        ∙ rw (same_refl key) (
            select-ext (λ p. ltb (t - window) p.1) (in_window window t) (λ p. ground arith)
              (entries r)))
  ]

  -- The set holds the admitted calls of the window, and these are not too many.
  record Holds (t : ℕ) (acc : List (Str × ℕ)) (r : env.Redis) : Type 0 where
    now_in : entries r ≡ select (in_window window t) acc
    within : length (select (in_window window t) acc) ≤ max_requests

  dropped :
      (t t' : ℕ) (acc : List (Str × ℕ)) (r : env.Redis)
      → t ≤ t'
      → Holds t acc r
      → Holds t' acc (drop_expired env key window t' r)
  dropped t t' acc r later h = record {
    now_in =
        after_drop t' r
        ∙ ap (select (in_window window t')) h.now_in
        ∙ later_window window t t' acc later;
    within = omega (arith, length-later_window window t t' acc later, h.within);
  }

  pub self_in : (c : Call) → select (in_window window c.0) (entry_of c ∷ []) ≡ entry_of c ∷ []
  unfolding select
  self_in c = ground (arith, some_time)

  -- Either answer keeps the set exact.
  answered_call :
      (c : Call) (t : ℕ) (acc : List (Str × ℕ)) (r : env.Redis)
      → t ≤ c.0
      → any (has_member (entry_of c).0) acc ≡ false
      → Holds t acc r
      → let (answer, r') = sliding_window env key window max_requests c.0 c.1 r in
        (((answer == 1) ≡ true) × Holds c.0 (acc ++ entry_of c ∷ []) r')
        ⊎ (((answer == 1) ≡ false) × Holds c.0 acc r')
  unfolding sliding_window
  answered_call c t acc r later new h =
      let r1 = drop_expired env key window c.0 r in
      let kept = dropped t c.0 acc r later h in
      let counted : env.zcard key r1 ≡ length (select (in_window window c.0) acc) =
        laws.zcard_lem key r1 ∙ ap length kept.now_in in
      elim (Bool-cases (ltb (env.zcard key r1) max_requests)) [
        | inr full ↦ rw full (inr (refl, kept))
        | inl room ↦
            let self : select (in_window window c.0) (entry_of c ∷ []) ≡ entry_of c ∷ [] =
              self_in c in
            let grown : select (in_window window c.0) (acc ++ entry_of c ∷ [])
                ≡ select (in_window window c.0) acc ++ entry_of c ∷ [] =
              select-append (in_window window c.0) acc (entry_of c ∷ [])
              ∙ ap (λ z. select (in_window window c.0) acc ++ z) self in
            rw room (
              inl (
                refl,
                record {
                  now_in =
                      laws.zset-pexpire key window (env.zadd key c.0 (entry_of c).0 r1) key
                      ∙ zsets.zset-zadd key c.0 (entry_of c).0 r1 key
                      ∙ rw (same_refl key) (
                          ap (set_score (entry_of c).0 c.0) kept.now_in
                          ∙ set_score-new (entry_of c).0 c.0 (select (in_window window c.0) acc) (
                              any-select (in_window window c.0) (has_member (entry_of c).0) acc new)
                          ∙ sym grown);
                  within =
                      subst (λ z. length z ≤ max_requests) (sym grown)
                        (subst (λ n. n ≤ max_requests)
                          (sym
                            (length-append (select (in_window window c.0) acc) (entry_of c ∷ [])))
                          (ground (arith, counted, room)));
                },
              ))
      ]

  held_calls :
      (T t : ℕ) (calls : List Call) (acc : List (Str × ℕ)) (r : env.Redis)
      → Holds t acc r
      → t ≤ T
      → IsFrom t calls
      → AreNew acc calls
      → AreDistinct calls
      → All (λ c. c.0 ≤ T) calls
      → length (select (in_window window T) (acc ++ admit env key window max_requests calls r))
        ≤ max_requests
  unfolding admit
  held_calls T t [] acc r h before from new apart past =
      rw (append-nil acc) (omega (arith, length-later_window window t T acc before, h.within))
  held_calls T t (c ∷ calls) acc r h before from new apart past =
      let r' = (sliding_window env key window max_requests c.0 c.1 r).1 in
      elim (answered_call c t acc r from.0 new.0 h) [
        | inl let_in ↦ rw let_in.0 (
            subst (λ z. length (select (in_window window T) z) ≤ max_requests)
              (append_assoc acc (entry_of c ∷ []) (admit env key window max_requests calls r'))
              (held_calls T c.0 calls (acc ++ entry_of c ∷ []) r' let_in.1 past.0 from.1
                (AreNew-append acc c calls new.1 apart.0) apart.1 past.1))
        | inr left_out ↦
            rw left_out.0
              (held_calls T c.0 calls acc r' left_out.1 past.0 from.1 new.1 apart.1 past.1)
      ]

  new_to_none : (calls : List Call) → AreNew [] calls
  unfolding any
  new_to_none [] = tt
  new_to_none (c ∷ calls) = (refl, new_to_none calls)

  none_held : (r : env.Redis) → entries r ≡ [] → Holds 0 [] r
  unfolding select
  none_held r e = record { now_in = e; within = omega arith }

  -- Of the calls of the script for one key, whose set is empty at first, which come in the order of
  -- their times, up to `T`, and no two of which make the same member (the time and the number
  -- drawn), not more than `max_requests` are admitted with a time in the window that ends at `T`,
  -- when the window is not 0.
  pub admit_bound :
      (T : ℕ) (calls : List Call) (r : env.Redis)
      → entries r ≡ []
      → IsFrom 0 calls
      → AreDistinct calls
      → All (λ c. c.0 ≤ T) calls
      → length (select (in_window window T) (admit env key window max_requests calls r))
        ≤ max_requests
  admit_bound T calls r empty from apart past =
      held_calls T 0 calls [] r (none_held r empty) (omega arith) from (new_to_none calls) apart
        past
