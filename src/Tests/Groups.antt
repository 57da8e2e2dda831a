-- ===== src/Tests/Groups.antt =====
-- The theorem about the consumer groups, where one of the three is there already.
use event_driven_notificatio.Prelude.{
  inr, ◌∙◌, sym, inl, Bool-cases, Bool, ◌≡◌, refl, ap, ℕ, true, false, ◌||◌, ◌&&◌, any,
  if◌then◌else◌, [], ◌∷◌, All, ok, arith,
}
use event_driven_notificatio.Prelude.Text.{same_iff, Str, str, same}
use event_driven_notificatio.Domain.{priority_normal, stream_key}
use event_driven_notificatio.Services.{Fault, answered, HttpOutcome, response, World}
use event_driven_notificatio.Services.Laws.{GroupLaws}
use event_driven_notificatio.Queue.Consumer.{consumer_group, streams, ensure_groups}
use event_driven_notificatio.Queue.Groups.{HasGroup, ensure_groups-All}
use event_driven_notificatio.Tests.Environment.{Memory, listed, create_group, steady, environment}

or_comm : (a b : Bool) → (if a then true else b) ≡ (b || a)
or_comm true true = refl
or_comm true false = refl
or_comm false true = refl
or_comm false false = refl

-- The group created is listed now, and the others as before.
listed-create :
    (key group : Str) (r : Memory) (key' group' : Str)
    → listed (create_group key group r).1 key' group'
      ≡ (listed r key' group' || (same key key' && same group group'))
unfolding any
listed-create key group r key' group' = elim (Bool-cases (listed r key group)) [
  | inl there ↦ elim (Bool-cases (same key key' && same group group')) [
    | inl equal ↦
        let same_key : key ≡ key' = (same_iff key key').0 (ground arith) in
        let same_group : group ≡ group' = (same_iff group group').0 (ground arith) in
        let there' : listed r key' group' ≡ true =
          sym (ap (λ k. listed r k group) same_key ∙ ap (listed r key') same_group) ∙ there in
        rw (there, there') refl
    | inr other ↦ rw (there, other) (ground arith)
  ]
  | inr missing ↦ rw missing (or_comm (same key key' && same group group') (listed r key' group'))
]

module _ (faults : ℕ → Fault) (outcome : HttpOutcome) where
  abbrev environment-GroupLaws : GroupLaws (environment faults outcome)
  environment-GroupLaws = record {
    has_group = listed;
    create-missing = λ key group id r missing. rw missing refl;
    create-present = λ key group id r there. rw there refl;
    has_group-create = λ key group id r key' group'. listed-create key group r key' group';
  }

abbrev started : World Memory
started = record {
  db = record { notifications = []; attempts = []; templates = [] };
  redis = record {
    streams = [];
    zsets = [];
    acks = [];
    groups = (stream_key priority_normal, consumer_group) ∷ [];
  };
  subscribers = [];
  frames = [];
  metrics = [];
  requests = [];
  step = 0;
}

ensure_groups-All_example :
    let w1 = (ensure_groups steady started).1 in
    (ensure_groups steady started).0 ≡ ok tt
    × All
        (HasGroup steady
          (λ k. refl)
          (environment-GroupLaws (λ n. answered) (response 202 (str "ok")))
          w1)
        streams
    × (ensure_groups steady w1).0 ≡ ok tt
    × (ensure_groups steady w1).1.redis ≡ w1.redis
ensure_groups-All_example =
    ensure_groups-All steady (λ k. refl)
      (environment-GroupLaws (λ n. answered) (response 202 (str "ok"))) started
