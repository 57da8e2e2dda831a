-- ===== src/Queue/Groups.antt =====
-- internal/queue/consumer.go: the consumer groups at the start of the program.
use event_driven_notificatio.Prelude.{
  err, if◌then◌else◌, suc, ◌∙◌, sym, subst, ◌||◌, inr, inl, Bool-cases, ℕ, ◌≡◌, refl, ap, true,
  List, [], ◌∷◌, All, ok, arith,
}
use event_driven_notificatio.Prelude.Text.{Str, str, same, same_refl}
use event_driven_notificatio.Prelude.State.{and_then, pure}
use event_driven_notificatio.Domain.{internal}
use event_driven_notificatio.Services.{Services, W, answered}
use event_driven_notificatio.Services.Effects.{redis_do-answered}
use event_driven_notificatio.Services.Laws.{GroupLaws}
use event_driven_notificatio.Queue.Consumer.{
  consumer_group, streams, is_ensured, ensure_from, ensure_groups,
}

module _ (env : Services) (steady : (k : ℕ) → env.fault k ≡ answered) (laws : GroupLaws env) where
  abbrev pub HasGroup : W env → Str → Type 0
  HasGroup w s = laws.has_group w.redis s consumer_group ≡ true

  -- What one command leaves.
  created : Str → W env → W env
  created s w = record w {
    step = suc w.step;
    redis = (env.xgroup_create_mk_stream s consumer_group (str "0") w.redis).1;
  }

  is_ensured-create :
      (s : Str) (w : W env)
      → is_ensured (env.xgroup_create_mk_stream s consumer_group (str "0") w.redis).0 ≡ true
  unfolding is_ensured same
  is_ensured-create s w = elim (Bool-cases (laws.has_group w.redis s consumer_group)) [
    | inl there ↦ rw (laws.create-present s consumer_group (str "0") w.redis there) refl
    | inr missing ↦ rw (laws.create-missing s consumer_group (str "0") w.redis missing) refl
  ]

  ensure_from-step :
      (s : Str) (ss : List Str) (w : W env)
      → ensure_from env (s ∷ ss) w ≡ ensure_from env ss (created s w)
  unfolding ensure_from created
  ensure_from-step s ss w =
      ap
        (λ x.
          and_then (λ _. x)
            (λ answer. if is_ensured answer then ensure_from env ss else pure (err internal)) w)
        (redis_do-answered env (env.xgroup_create_mk_stream s consumer_group (str "0")) w
          (steady w.step))
      ∙ ap (λ b. (if b then ensure_from env ss else pure (err internal)) (created s w))
          (is_ensured-create s w)

  has_group-created :
      (s t : Str) (w : W env)
      → laws.has_group (created s w).redis t consumer_group
        ≡ (laws.has_group w.redis t consumer_group || same s t)
  unfolding created
  has_group-created s t w =
      laws.has_group-create s consumer_group (str "0") w.redis t consumer_group
      ∙ ground (arith, same_refl consumer_group)

  -- A command for a group that is there changes nothing.
  redis-created : (s : Str) (w : W env) → HasGroup w s → (created s w).redis ≡ w.redis
  unfolding created
  redis-created s w there =
      ap (λ x. x.1) (laws.create-present s consumer_group (str "0") w.redis there)

  -- The loop reports no error.
  ensure_from-ok : (ss : List Str) (w : W env) → (ensure_from env ss w).0 ≡ ok tt
  unfolding ensure_from
  ensure_from-ok [] w = refl
  ensure_from-ok (s ∷ ss) w = rw (ensure_from-step s ss w) (ensure_from-ok ss (created s w))

  -- It takes no group away, and every stream it names has one in the end.
  ensure_from-kept :
      (ss : List Str) (w : W env) (t : Str) → HasGroup w t → HasGroup (ensure_from env ss w).1 t
  unfolding ensure_from
  ensure_from-kept [] w t there = there
  ensure_from-kept (s ∷ ss) w t there =
      let now_there : HasGroup (created s w) t = rw (has_group-created s t w, there) refl in
      rw (ensure_from-step s ss w) (ensure_from-kept ss (created s w) t now_there)

  ensure_from-All : (ss : List Str) (w : W env) → All (HasGroup (ensure_from env ss w).1) ss
  unfolding ensure_from
  ensure_from-All [] w = tt
  ensure_from-All (s ∷ ss) w =
      let there : HasGroup (created s w) s =
        rw (has_group-created s s w, same_refl s) (ground arith) in
      subst (λ x. All (HasGroup x.1) (s ∷ ss)) (sym (ensure_from-step s ss w))
        (ensure_from-kept ss (created s w) s there, ensure_from-All ss (created s w))

  -- Where every stream has its group, Redis stays as it is.
  ensure_from-same :
      (ss : List Str) (w : W env) → All (HasGroup w) ss → (ensure_from env ss w).1.redis ≡ w.redis
  unfolding ensure_from
  ensure_from-same [] w there = refl
  ensure_from-same (s ∷ ss) w (first, rest) =
      let same_redis : (created s w).redis ≡ w.redis = redis-created s w first in
      let still : All (HasGroup (created s w)) ss =
        subst (λ r. All (λ t. laws.has_group r t consumer_group ≡ true) ss) (sym same_redis) rest in
      ap (λ x. x.1.redis) (ensure_from-step s ss w)
      ∙ ensure_from-same ss (created s w) still
      ∙ same_redis

  -- With every call answered, on keys that hold nothing but streams, EnsureGroups reports no error,
  -- whichever groups are there before, and leaves each of the three streams with the group; a second
  -- call, as after a restart, reports no error and changes nothing in Redis.
  pub ensure_groups-All :
      (w : W env)
      → (ensure_groups env w).0 ≡ ok tt
        × All (HasGroup (ensure_groups env w).1) streams
        × (ensure_groups env (ensure_groups env w).1).0 ≡ ok tt
        × (ensure_groups env (ensure_groups env w).1).1.redis ≡ (ensure_groups env w).1.redis
  unfolding ensure_groups
  ensure_groups-All w =
      let w1 = (ensure_groups env w).1 in
      (
        ensure_from-ok streams w,
        ensure_from-All streams w,
        ensure_from-ok streams w1,
        ensure_from-same streams w1 (ensure_from-All streams w),
      )
