-- ===== src/Repository/Atomic.antt =====
-- CreateBatch and its transaction.
use event_driven_notificatio.Prelude.{
  ℕ, ◌≡◌, ◌⊎◌, inl, inr, refl, ap, sym, ◌∙◌, subst, List, map, All, Result, ok, err, is_ok, false,
}
use event_driven_notificatio.Domain.{Error, Notification, internal}
use event_driven_notificatio.Services.{
  Services, Database, Fault, answered, refused, unacknowledged, W, exec, now,
}
use event_driven_notificatio.Services.Effects.{exec-db, exec-ok}
use event_driven_notificatio.Repository.Rows.{to_row}
use event_driven_notificatio.Repository.Sql.{Statement, PgError, failure}
use event_driven_notificatio.Repository.Batch.{
  Inserted, insert_all, committed, commit, on_begun, create_batch,
}
use event_driven_notificatio.Repository.Inserting.{
  with_rows, AreStamped, Inserts, insert_all-db, insert_all-holds, insert_all-appends,
}

module _ (env : Services) where
  -- No row of the batch, or one for each of its notifications, in their order.
  abbrev pub AllOrNone :
      List Notification → Database → Result Error (List Notification) × W env → Type 0
  AllOrNone ns before (r, w') =
      ((is_ok r ≡ false) × (w'.db ≡ before))
      ⊎ ((time : ℕ) × (ns' : List Notification) × (AreStamped env time ns ns'
            × (w'.db ≡ with_rows (map (to_row env) ns') before)
            × ((r ≡ ok ns') ⊎ (r ≡ err internal))))

  commit-atomic :
      (time : ℕ) (ns : List Notification) (before : Database) (x : Result Error Inserted)
      (w : W env)
      → w.db ≡ before
      → ((ns' : List Notification) (t : Database)
          → x ≡ ok (ns', t)
          → (t ≡ with_rows (map (to_row env) ns') before) × AreStamped env time ns ns')
      → AllOrNone ns before (commit env x w)
  unfolding commit exec
  commit-atomic time ns before (err e) w same known = inl (refl, same)
  commit-atomic time ns before (ok (ns', t)) w same known = go (env.fault w.step) refl
    where
      go : (f : Fault) → env.fault w.step ≡ f → AllOrNone ns before (commit env (ok (ns', t)) w)
      go answered f =
          let (after, stamps) = known ns' t refl in
          rw (f, commit, exec) (inr (time, ns', (stamps, after, inl refl)))
      go refused f = rw (f, commit, exec) (inl (refl, same))
      go unacknowledged f =
          let (after, stamps) = known ns' t refl in
          rw (f, commit, exec) (inr (time, ns', (stamps, after, inr refl)))

  on_begun-atomic :
      (ns : List Notification) (before : Database) (r : Result PgError Database) (w : W env)
      → w.db ≡ before
      → ((t : Database) → r ≡ ok t → t ≡ before)
      → AllOrNone ns before (on_begun env ns r w)
  unfolding on_begun now
  on_begun-atomic ns before (err e) w same known = inl (refl, same)
  on_begun-atomic ns before (ok t) w same known =
      let w1 = (now env w).1 in
      let time = env.clock w.step in
      let inserted = insert_all env time ns t w1 in
      commit-atomic time ns before inserted.0 inserted.1 (insert_all-db env time ns t w1 ∙ same)
        (λ ns' t' e.
          let (after, stamps) = insert_all-appends env time ns ns' t t' w1 e in
          (after ∙ ap (with_rows (map (to_row env) ns')) (known t refl), stamps))

  -- Whichever calls fail, CreateBatch leaves the tables as they were, and reports an error; or it adds
  -- one row for each notification of the batch, in their order and with one time of creation, and
  -- changes nothing else in the tables. In the second case it reports the notifications as they were
  -- stored, or an error that is none of the domain's.
  pub create_batch-atomic :
      (ns : List Notification) (w : W env) → AllOrNone ns w.db (create_batch env ns w)
  unfolding create_batch
  create_batch-atomic ns w =
      let begin_ : ℕ → Statement Database = λ _ db. (ok db, db) in
      let began = exec env failure begin_ w in
      on_begun-atomic ns w.db began.0 began.1
        (exec-db env failure begin_ w (λ db. db ≡ w.db) refl refl)
        (λ t e. let same = exec-ok env failure begin_ w e in cc)

  committed-ok :
      (ns ns' : List Notification) (r : Result PgError (Unit {0}))
      → committed env ns r ≡ ok ns'
      → ns ≡ ns'
  committed-ok ns ns' (ok u) e = cc
  committed-ok ns ns' (err x) e = cc

  module _ (P : Database → Type 0) (Q : Notification → Type 0) (step : Inserts env P Q) where
    abbrev Holds : Result Error (List Notification) × W env → Type 0
    Holds (r, w') = P w'.db × ((ns' : List Notification) → r ≡ ok ns' → All Q ns')

    commit-Holds :
        (x : Result Error Inserted) (w : W env)
        → P w.db
        → ((ns' : List Notification) (t : Database) → x ≡ ok (ns', t) → P t × All Q ns')
        → Holds (commit env x w)
    unfolding commit
    commit-Holds (err e) w h known = (h, λ ns' e'. cc)
    commit-Holds (ok (ns', t)) w h known =
        let swap : ℕ → Statement (Unit {0}) = λ _ db. (ok tt, t) in
        let (p, q) = known ns' t refl in
        (
          exec-db env failure swap w P h p,
          λ ns'' e. subst (All Q) (committed-ok ns' ns'' (exec env failure swap w).0 e) q,
        )

    on_begun-Holds :
        (ns : List Notification) (r : Result PgError Database) (w : W env)
        → P w.db
        → ((t : Database) → r ≡ ok t → P t)
        → Holds (on_begun env ns r w)
    unfolding on_begun now
    on_begun-Holds ns (err e) w h known = (h, λ ns' e'. cc)
    on_begun-Holds ns (ok t) w h known =
        let w1 = (now env w).1 in
        let inserted = insert_all env (env.clock w.step) ns t w1 in
        commit-Holds inserted.0 inserted.1
          (subst P (sym (insert_all-db env (env.clock w.step) ns t w1)) h)
          (λ ns' t' e. insert_all-holds env P Q step _ ns ns' t t' w1 (known t refl) e)

    -- What every insertion keeps, CreateBatch keeps.
    pub create_batch-Holds :
        (ns : List Notification) (w : W env) → P w.db → Holds (create_batch env ns w)
    unfolding create_batch
    create_batch-Holds ns w h =
        let begin_ : ℕ → Statement Database = λ _ db. (ok db, db) in
        let began = exec env failure begin_ w in
        on_begun-Holds ns began.0 began.1 (exec-db env failure begin_ w P h h)
          (λ t e. subst P (let same = exec-ok env failure begin_ w e in cc) h)
