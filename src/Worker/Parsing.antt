-- ===== src/Worker/Parsing.antt =====
-- `parseMember` of internal/worker/dispatcher.go, and the texts that `EnqueueDelayed` writes.
use event_driven_notificatio.Prelude.{
  ◌↔◌, subst, ℕ, suc, ◌+◌, ◌-◌, ◌≡◌, refl, sym, ap, ◌∙◌, ◌≢◌, ◌==◌, ltb, true, if◌then◌else◌, none,
  some, List, [], ◌∷◌, ◌++◌, length, take, drop, length-append, All, append_assoc, arith,
  Bool-cases, ==_iff, inl, inr, ◌⊎◌,
}
use event_driven_notificatio.Prelude.Text.{Str}
use event_driven_notificatio.Worker.Member.{slice, scan, parse_member}

abbrev pub NoColon : Str → Type 0
NoColon = All (λ c. c ≢ b':')

drop-append : (p s : Str) → drop (length p) (p ++ s) ≡ s
drop-append [] s = refl
drop-append (c ∷ p) s = drop-append p s

take-append : (p s : Str) → take (length p) (p ++ s) ≡ p
take-append [] s = refl
take-append (c ∷ p) s = rw (take-append p s)

-- The part of `p ++ a ++ s` between the ends of `p` and `a`.
slice-middle : (p a s : Str) → slice (length p) (length p + length a) (p ++ (a ++ s)) ≡ a
slice-middle p a s =
    let e : length p + length a - length p ≡ length a = omega arith in
    rw (e, drop-append p (a ++ s)) (take-append a s)

-- The loop passes over a text without colons.
scan-append :
    (s a rest : Str) (i start count : ℕ) (parts : List Str)
    → NoColon a
    → scan s (a ++ rest) i start count parts ≡ scan s rest (i + length a) start count parts
unfolding scan
scan-append s [] rest i start count parts h = let e : i + 0 ≡ i = omega arith in rw e
scan-append s (c ∷ a) rest i start count parts h =
    let e : i + suc (length a) ≡ i + 1 + length a = omega arith in
    rw e (ground (arith, scan-append s a rest (i + 1) start count parts h.1))

scan-colon_first :
    (s rest : Str) (i start : ℕ) (parts : List Str)
    → scan s (b':' ∷ rest) i start 0 parts
      ≡ scan s rest (i + 1) (i + 1) 1 (parts ++ slice start i s ∷ [])
unfolding scan
scan-colon_first s rest i start parts = refl

scan-colon_second :
    (s rest : Str) (i start : ℕ) (parts : List Str)
    → scan s (b':' ∷ rest) i start 1 parts ≡ (parts ++ slice start i s ∷ [], i + 1)
unfolding scan
scan-colon_second s rest i start parts = refl

-- `a:b:c`
abbrev pub join : Str → Str → Str → Str
join a b c = a ++ (b':' ∷ (b ++ (b':' ∷ c)))

-- A text in front of which `p` stands, its length given apart.
slice-at : (p a s : Str) (n : ℕ) → length p ≡ n → slice n (n + length a) (p ++ (a ++ s)) ≡ a
slice-at p a s n e = rw (← e) (slice-middle p a s)

drop-at : (p s : Str) (n : ℕ) → length p ≡ n → drop n (p ++ s) ≡ s
drop-at p s n e = rw (← e) (drop-append p s)

module _ (a b c : Str) where
  second_slice : slice (0 + length a + 1) (0 + length a + 1 + length b) (join a b c) ≡ b
  second_slice =
      subst (λ s. slice (0 + length a + 1) (0 + length a + 1 + length b) s ≡ b)
        (append_assoc a (b':' ∷ []) (b ++ (b':' ∷ c)))
        (slice-at (a ++ b':' ∷ []) b (b':' ∷ c) (0 + length a + 1)
          (omega (arith, length-append a (b':' ∷ []))))

  rest_of_join : drop (0 + length a + 1 + length b + 1) (join a b c) ≡ c
  rest_of_join =
      subst (λ s. drop (0 + length a + 1 + length b + 1) s ≡ c)
        (append_assoc a (b':' ∷ (b ++ b':' ∷ [])) c
          ∙ ap (λ s. a ++ (b':' ∷ s)) (append_assoc b (b':' ∷ []) c))
        (drop-at (a ++ b':' ∷ (b ++ b':' ∷ [])) c (0 + length a + 1 + length b + 1)
          (omega (arith, length-append a (b':' ∷ (b ++ b':' ∷ [])), length-append b (b':' ∷ []))))

  scan-join :
      NoColon a
      → NoColon b
      → scan (join a b c) (join a b c) 0 0 0 [] ≡ (a ∷ b ∷ [], 0 + length a + 1 + length b + 1)
  scan-join ha hb =
      let s = join a b c in
      rw (scan-append s a (b':' ∷ (b ++ (b':' ∷ c))) 0 0 0 [] ha) (
        rw (scan-colon_first s (b ++ (b':' ∷ c)) (0 + length a) 0 []) (
          rw (slice-middle [] a (b':' ∷ (b ++ (b':' ∷ c)))) (
            rw (scan-append s b (b':' ∷ c) (0 + length a + 1) (0 + length a + 1) 1 (a ∷ []) hb) (
              rw (scan-colon_second s c (0 + length a + 1 + length b) (0 + length a + 1) (a ∷ []))
                (rw second_slice)))))

  length-join : length (join a b c) ≡ 0 + length a + 1 + length b + 1 + length c
  length-join =
      omega (arith, length-append a (b':' ∷ (b ++ (b':' ∷ c))), length-append b (b':' ∷ c))

  parse-join_lem :
      NoColon a
      → NoColon b
      → parse_member (join a b c) ≡ (if ltb 0 (length c) then some (a ∷ b ∷ c ∷ []) else none)
  unfolding parse_member
  parse-join_lem ha hb = rw (scan-join ha hb) (ground (arith, length-join, rest_of_join))

-- A text up to its first colon.
split_colon : (s : Str) → NoColon s ⊎ ((a : Str) × (r : Str) × (s ≡ a ++ (b':' ∷ r)) × NoColon a)
split_colon [] = inl tt
split_colon (c ∷ s) = elim (Bool-cases (c == b':')) [
  | inl colon ↦ inr ([], s, ap (λ d. d ∷ s) ((==_iff c b':').0 colon), tt)
  | inr other ↦ elim (split_colon s) [
    | inl clear ↦ inl ((λ e. cc ((==_iff c b':').1 e)), clear)
    | inr (a, r, e, clear) ↦
        inr (c ∷ a, r, ap (λ t. c ∷ t) e, ((λ e'. cc ((==_iff c b':').1 e')), clear))
  ]
]

scan-clear :
    (s a : Str) (i start count : ℕ) (parts : List Str)
    → NoColon a
    → scan s a i start count parts ≡ (parts, start)
unfolding scan
scan-clear s [] i start count parts h = refl
scan-clear s (c ∷ a) i start count parts h =
    ground (arith, scan-clear s a (i + 1) start count parts h.1)

parse-clear : (s : Str) → NoColon s → parse_member s ≡ none
unfolding parse_member
parse-clear s h = rw (scan-clear s s 0 0 0 [] h) (ground arith)

parse-one : (a b : Str) → NoColon a → NoColon b → parse_member (a ++ (b':' ∷ b)) ≡ none
unfolding parse_member
parse-one a b ha hb =
    let s = a ++ (b':' ∷ b) in
    rw (scan-append s a (b':' ∷ b) 0 0 0 [] ha) (
      rw (scan-colon_first s b (0 + length a) 0 []) (
        rw
          (scan-clear s b (0 + length a + 1) (0 + length a + 1) 1
            ([] ++ slice 0 (0 + length a) s ∷ []) hb)
          (ground arith)))

-- What it is for a text to be read as `ps`.
abbrev pub Reads : Str → List Str → Type 0
Reads s ps =
    (a : Str) × (b : Str) × (c : Str) × (ps ≡ a ∷ b ∷ c ∷ [])
    × (s ≡ join a b c)
    × NoColon a
    × NoColon b
    × (c ≢ [])

nonempty : (c : Str) → ltb 0 (length c) ≡ true → c ≢ []
nonempty c h = λ e. cc (ap (λ d. ltb 0 (length d)) e)

parse-joined :
    (a b c : Str) (ps : List Str)
    → NoColon a
    → NoColon b
    → parse_member (join a b c) ≡ some ps
    → Reads (join a b c) ps
parse-joined a b c ps ha hb e =
    let e' = sym (parse-join_lem a b c ha hb) ∙ e in
    elim (Bool-cases (ltb 0 (length c))) [
      | inl full ↦ (a, b, c, ground arith, refl, ha, hb, nonempty c full)
      | inr empty ↦ absurd (ground arith)
    ]

parse-Reads : (s : Str) (ps : List Str) → parse_member s ≡ some ps → Reads s ps
parse-Reads s ps e = elim (split_colon s) [
  | inl clear ↦ absurd (cc (parse-clear s clear))
  | inr (a, r, s-eq, ha) ↦ elim (split_colon r) [
    | inl clear ↦ absurd (cc (parse-one a r ha clear, ap parse_member s-eq))
    | inr (b, c, r-eq, hb) ↦
        let whole = s-eq ∙ ap (λ t. a ++ (b':' ∷ t)) r-eq in
        subst (λ t. Reads t ps) (sym whole)
          (parse-joined a b c ps ha hb (sym (ap parse_member whole) ∙ e))
  ]
]

-- `parseMember` reads exactly the texts `a:b:c` where `a` and `b` hold no colon and `c` is not
-- empty, and gives back `a`, `b` and `c`; `c` may hold colons.
pub parse_member_iff : (s : Str) (ps : List Str) → (parse_member s ≡ some ps) ↔ Reads s ps
parse_member_iff s ps = (
  parse-Reads s ps,
  λ r.
      let (a, b, c, ps-eq, s-eq, ha, hb, full) = r in
      ap parse_member s-eq
      ∙ parse-join_lem a b c ha hb
      ∙ rw (ltb-full c full) (ap some (sym ps-eq)),
)
  where
    ltb-full : (c : Str) → c ≢ [] → ltb 0 (length c) ≡ true
    ltb-full [] h = absurd (h refl)
    ltb-full (d ∷ c) h = ground arith
