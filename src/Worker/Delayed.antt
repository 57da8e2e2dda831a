-- ===== src/Worker/Delayed.antt =====
-- A retry, from the delayed set to a stream.
use event_driven_notificatio.Prelude.{
  ℕ, ◌≡◌, refl, ap, sym, ◌∙◌, subst, true, false, not, Bool-cases, inl, inr, Option, none, some,
  List, [], ◌∷◌, ◌++◌, Memᴰ, any, select, arith,
}
use event_driven_notificatio.Prelude.Text.{Str, same, same_iff, same_refl}
use event_driven_notificatio.Prelude.State.{each}
use event_driven_notificatio.Domain.{Channel, Priority, stream_key}
use event_driven_notificatio.Services.{Services, Entry, W, answered}
use event_driven_notificatio.Services.Laws.{StreamLaws, ZsetLaws}
use event_driven_notificatio.Services.Effects.{redis_do-answered}
use event_driven_notificatio.Queue.Producer.{delayed_key, entry, enqueue}
use event_driven_notificatio.Worker.Member.{parse_member}
use event_driven_notificatio.Worker.Dispatcher.{enqueue_parts, re_enqueue}

module _ {ℓ} {A : Type ℓ} where
  Mem-append : (a : A) (xs ys : List A) → Memᴰ a xs → Memᴰ a (xs ++ ys)
  Mem-append a [] ys h = elim h [ ]
  Mem-append a (x ∷ xs) ys (Memᴰ.head e) = Memᴰ.head e
  Mem-append a (x ∷ xs) ys (Memᴰ.tail h) = Memᴰ.tail (Mem-append a xs ys h)

  Mem-last : (a : A) (xs : List A) → Memᴰ a (xs ++ a ∷ [])
  Mem-last a [] = Memᴰ.head refl
  Mem-last a (x ∷ xs) = Memᴰ.tail (Mem-last a xs)

listed_of_Mem : (m n : Str) (ms : List Str) → Memᴰ m ms → m ≡ n → any (λ x. same x n) ms ≡ true
unfolding any
listed_of_Mem m n [] h e = elim h [ ]
listed_of_Mem m n (x ∷ ms) (Memᴰ.head p) e =
    let q : same x n ≡ true = (same_iff x n).1 (sym p ∙ e) in rw q refl
listed_of_Mem m n (x ∷ ms) (Memᴰ.tail h) e = ground (arith, listed_of_Mem m n ms h e)

pub removed_lem :
    (m : Str) (ms : List Str) (z : List (Str × ℕ))
    → Memᴰ m ms
    → any (λ p. same p.0 m) (select (λ p. not (any (λ x. same x p.0) ms)) z) ≡ false
unfolding any select
removed_lem m ms [] h = refl
removed_lem m ms (p ∷ z) h = elim (Bool-cases (any (λ x. same x p.0) ms)) [
  | inl gone ↦ rw gone (removed_lem m ms z h)
  | inr kept ↦ elim (Bool-cases (same p.0 m)) [
    | inl is_m ↦ absurd (let l = listed_of_Mem m p.0 ms h (sym ((same_iff p.0 m).0 is_m)) in cc)
    | inr other ↦ rw (kept, other) (removed_lem m ms z h)
  ]
]

module _ (env : Services) (steady : (k : ℕ) → env.fault k ≡ answered) (streams : StreamLaws env)
    (zsets : ZsetLaws env) where
  -- Whatever a step appends to streams stays there, and the delayed set is left alone.
  pub record Grows (w w' : W env) : Type 0 where
    pub kept :
        (e : Entry) (k : Str)
        → Memᴰ e (streams.stream w.redis k)
        → Memᴰ e (streams.stream w'.redis k)
    pub delayed : zsets.zset w'.redis delayed_key ≡ zsets.zset w.redis delayed_key

  pub Grows-refl : (w : W env) → Grows w w
  Grows-refl w = record { kept = λ e k h. h; delayed = refl }

  pub Grows-trans : (a b c : W env) → Grows a b → Grows b c → Grows a c
  Grows-trans a b c p q = record {
    kept = λ e k h. q.kept e k (p.kept e k h);
    delayed = q.delayed ∙ p.delayed;
  }

  enqueue-redis :
      (id : ℕ) (c : Channel) (p : Priority) (w : W env)
      → (enqueue env id c p w).1.redis ≡ env.xadd (stream_key p) (entry env id c) w.redis
  unfolding enqueue
  enqueue-redis id c p w = ap (λ x. x.1.redis) (redis_do-answered env _ w (steady w.step))

  enqueue-Grows :
      (id : ℕ) (c : Channel) (p : Priority) (w : W env) → Grows w (enqueue env id c p w).1
  enqueue-Grows id c p w = record {
    kept = λ e k h.
        subst (λ r. Memᴰ e (streams.stream r k)) (sym (enqueue-redis id c p w))
          (subst (Memᴰ e) (sym (streams.stream-xadd (stream_key p) (entry env id c) w.redis k))
            (elim (Bool-cases (same (stream_key p) k)) [
              | inl this ↦ rw this (Mem-append e (streams.stream w.redis k) _ h)
              | inr other ↦ rw other h
            ]));
    delayed =
        ap (λ r. zsets.zset r delayed_key) (enqueue-redis id c p w)
        ∙ zsets.zset-xadd (stream_key p) (entry env id c) w.redis delayed_key;
  }

  pub enqueue-Mem :
      (id : ℕ) (c : Channel) (p : Priority) (w : W env)
      → Memᴰ (entry env id c) (streams.stream (enqueue env id c p w).1.redis (stream_key p))
  enqueue-Mem id c p w =
      subst (λ r. Memᴰ (entry env id c) (streams.stream r (stream_key p)))
        (sym (enqueue-redis id c p w))
        (subst (Memᴰ (entry env id c))
          (sym (streams.stream-xadd (stream_key p) (entry env id c) w.redis (stream_key p)))
          (rw (same_refl (stream_key p))
            (Mem-last (entry env id c) (streams.stream w.redis (stream_key p)))))

  enqueue_parts-Grows :
      (parts : Option (List Str)) (w : W env) → Grows w (enqueue_parts env parts w).1
  unfolding enqueue_parts
  enqueue_parts-Grows none w = Grows-refl w
  enqueue_parts-Grows (some []) w = Grows-refl w
  enqueue_parts-Grows (some (id ∷ [])) w = Grows-refl w
  enqueue_parts-Grows (some (id ∷ channel ∷ [])) w = Grows-refl w
  enqueue_parts-Grows (some (id ∷ channel ∷ priority ∷ [])) w =
      enqueue-Grows (env.uuid_value id) channel priority w
  enqueue_parts-Grows (some (id ∷ channel ∷ priority ∷ more ∷ rest)) w = Grows-refl w

  pub re_enqueue-Grows : (m : Str) (w : W env) → Grows w (re_enqueue env m w).1
  unfolding re_enqueue
  re_enqueue-Grows m w = enqueue_parts-Grows (parse_member m) w

  pub each-Grows : (ms : List Str) (w : W env) → Grows w (each (re_enqueue env) ms w).1
  unfolding each
  each-Grows [] w = Grows-refl w
  each-Grows (m ∷ ms) w =
      let w1 = (re_enqueue env m w).1 in
      Grows-trans w w1 (each (re_enqueue env) ms w1).1 (re_enqueue-Grows m w) (each-Grows ms w1)
