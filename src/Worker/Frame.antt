-- ===== src/Worker/Frame.antt =====
-- The frame of handling a message: the rows of other notifications, the templates, the subscribers and
-- the delivery attempts.
use event_driven_notificatio.Prelude.{
  ◌==◌, ℕ, suc, ◌≡◌, refl, sym, ◌∙◌, ap, ◌≢◌, Bool-cases, inl, inr, List, [], ◌∷◌, ◌++◌,
  append_assoc, append-nil, All, All-append, find, any, arith, subst,
}
use event_driven_notificatio.Prelude.Text.{Str}
use event_driven_notificatio.Domain.{Status, DeliveryAttempt}
use event_driven_notificatio.Services.{Services, Row, AttemptRow, Database, W, now, next_uuid}
use event_driven_notificatio.Services.Effects.{exec-SameButTables, exec-db}
use event_driven_notificatio.Repository.Rows.{to_micros, to_attempt_row}
use event_driven_notificatio.Repository.Sql.{
  failure, has_id, set_status, update_status_by_id, increment_by_id, insert_attempt,
}
use event_driven_notificatio.Repository.Lookup.{find-update_where_other}
use event_driven_notificatio.Repository.Notifications.{
  update_status, increment_attempt, create_delivery_attempt,
}

-- The rows of other notifications are found as before.
abbrev pub SameOthers : ℕ → List Row → List Row → Type 0
SameOthers id rows rows' = (j : ℕ) → j ≢ id → find (has_id j) rows' ≡ find (has_id j) rows

-- Attempts of one notification have been added at the end.
abbrev pub Extends : ℕ → List AttemptRow → List AttemptRow → Type 0
Extends id before after =
    (new : List AttemptRow) × (after ≡ before ++ new) × All (λ a. a.notification_id ≡ id) new

pub record FrameDb (id : ℕ) (db db' : Database) : Type 0 where
  pub others : SameOthers id db.notifications db'.notifications
  pub attempts : Extends id db.attempts db'.attempts
  pub templates : db'.templates ≡ db.templates

pub FrameDb-refl : (id : ℕ) (db : Database) → FrameDb id db db
FrameDb-refl id db = record {
  others = λ j h. refl;
  attempts = ([], sym (append-nil db.attempts), tt);
  templates = refl;
}

pub FrameDb-trans : (id : ℕ) (a b c : Database) → FrameDb id a b → FrameDb id b c → FrameDb id a c
FrameDb-trans id a b c p q = record {
  others = λ j h. q.others j h ∙ p.others j h;
  attempts =
      let (new, e, mine) = p.attempts in
      let (new', e', mine') = q.attempts in
      (
        new ++ new',
        e' ∙ ap (λ xs. xs ++ new') e ∙ append_assoc a.attempts new new',
        All-append (λ r. r.notification_id ≡ id) new new' mine mine',
      );
  templates = q.templates ∙ p.templates;
}

pub set_status-id : (s : Status) (e : Str) (t : ℕ) (r : Row) → (set_status s e t r).id ≡ r.id
unfolding set_status
set_status-id Status.delivered e t r = refl
set_status-id s [] t r = refl
set_status-id s (c ∷ e) t r = refl

update-FrameDb :
    (s : Status) (e : Str) (t id : ℕ) (db : Database)
    → FrameDb id db (update_status_by_id s e t id db).1
unfolding update_status_by_id
update-FrameDb s e t id db = record {
  others = λ j h.
      find-update_where_other j (has_id id) (set_status s e t) (set_status-id s e t)
        db.notifications (λ r at. ground arith);
  attempts = ([], sym (append-nil db.attempts), tt);
  templates = refl;
}

increment-FrameDb : (t id : ℕ) (db : Database) → FrameDb id db (increment_by_id id t db).1
unfolding increment_by_id
increment-FrameDb t id db = record {
  others = λ j h.
      find-update_where_other j (has_id id) _ (λ r. refl) db.notifications (λ r at. ground arith);
  attempts = ([], sym (append-nil db.attempts), tt);
  templates = refl;
}

insert-FrameDb :
    (a : AttemptRow) (id : ℕ) (db : Database)
    → a.notification_id ≡ id
    → FrameDb id db (insert_attempt a db).1
unfolding insert_attempt
insert-FrameDb a id db mine = elim (Bool-cases (any (has_id a.notification_id) db.notifications)) [
  | inr orphan ↦ rw orphan (FrameDb-refl id db)
  | inl known ↦ rw known (elim (Bool-cases (any (λ b. b.id == a.id) db.attempts)) [
    | inl taken ↦ rw taken (FrameDb-refl id db)
    | inr free ↦
        rw free
          (record { others = λ j h. refl; attempts = (a ∷ [], refl, (mine, tt)); templates = refl })
  ])
]

module _ (env : Services) where
  pub record Frame (id : ℕ) (w w' : W env) : Type 0 where
    pub db : FrameDb id w.db w'.db
    pub subscribers : w'.subscribers ≡ w.subscribers

  pub Frame-of_same :
      (id : ℕ) (w w' : W env) → w'.db ≡ w.db → w'.subscribers ≡ w.subscribers → Frame id w w'
  Frame-of_same id w w' d s = record {
    db = subst (FrameDb id w.db) (sym d) (FrameDb-refl id w.db);
    subscribers = s;
  }

  pub update_status-Frame :
      (id : ℕ) (s : Status) (e : Str) (w : W env) → Frame id w (update_status env id s e w).1
  unfolding update_status now
  update_status-Frame id s e w =
      let w1 : W env = record w { step = suc w.step } in
      let stmt = λ (t : ℕ). update_status_by_id s e (to_micros (env.clock w.step)) id in
      record {
        db =
            exec-db env failure stmt w1 (FrameDb id w.db) (FrameDb-refl id w.db)
              (update-FrameDb s e _ id w.db);
        subscribers = (exec-SameButTables env failure stmt w1).subscribers;
      }

  pub increment-Frame : (id : ℕ) (w : W env) → Frame id w (increment_attempt env id w).1
  unfolding increment_attempt
  increment-Frame id w = record {
    db =
        exec-db env failure (increment_by_id id) w (FrameDb id w.db) (FrameDb-refl id w.db)
          (increment-FrameDb _ id w.db);
    subscribers = (exec-SameButTables env failure (increment_by_id id) w).subscribers;
  }

  pub attempt-Frame :
      (id : ℕ) (a : DeliveryAttempt) (w : W env)
      → a.notification_id ≡ id
      → Frame id w (create_delivery_attempt env a w).1
  unfolding create_delivery_attempt now next_uuid to_attempt_row
  attempt-Frame id a w mine =
      let w1 : W env = record w { step = suc (suc w.step) } in
      let row =
        to_attempt_row
          (record a { id = env.new_uuid w.step; created_at = env.clock (suc w.step) }) in
      record {
        db =
            exec-db env failure (λ _. insert_attempt row) w1 (FrameDb id w.db)
              (FrameDb-refl id w.db) (insert-FrameDb row id w.db mine);
        subscribers = (exec-SameButTables env failure (λ _. insert_attempt row) w1).subscribers;
      }
