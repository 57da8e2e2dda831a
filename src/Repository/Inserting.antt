-- ===== src/Repository/Inserting.antt =====
-- The loop of CreateBatch: what it has inserted when it ends without an error.
use event_driven_notificatio.Prelude.{
  ℕ, ◌≡◌, refl, ap, sym, ◌∙◌, subst, List, [], ◌∷◌, ◌++◌, map, All, Result, ok, err, arith,
  append_assoc, append-nil,
}
use event_driven_notificatio.Domain.{Error, Notification}
use event_driven_notificatio.Services.{
  Services, Row, Database, Fault, answered, refused, unacknowledged, W, Action, next_uuid,
}
use event_driven_notificatio.Repository.Rows.{to_row}
use event_driven_notificatio.Repository.Sql.{PgError, insert_notification}
use event_driven_notificatio.Repository.Batch.{
  Inserted, in_transaction, tx_result, and_inserted, tx_exec, stamp, and_insert, insert_all,
}

-- The tables with some rows more.
abbrev pub with_rows : List Row → Database → Database
with_rows rows db = record db { notifications = db.notifications ++ rows }

insert_ok :
    (row : Row) (db : Database)
    → (insert_notification row db).0 ≡ ok tt
    → (insert_notification row db).1 ≡ with_rows (row ∷ []) db
unfolding insert_notification
insert_ok row db e = ground arith

in_transaction-ok :
    (x : Result PgError (Unit {0}) × Database) (tables : Database)
    → in_transaction x ≡ ok tables
    → (x.0 ≡ ok tt) × (x.1 ≡ tables)
in_transaction-ok (ok u, t) tables e = (refl, cc)
in_transaction-ok (err x, t) tables e = cc

tx_result-ok :
    (f : Fault) (x : Result PgError (Unit {0}) × Database) (tables : Database)
    → tx_result f x ≡ ok tables
    → (x.0 ≡ ok tt) × (x.1 ≡ tables)
tx_result-ok answered x tables e = in_transaction-ok x tables e
tx_result-ok refused x tables e = cc
tx_result-ok unacknowledged x tables e = cc

module _ (env : Services) where
  and_inserted-ok :
      (n : Notification) (r : Result Error Inserted) (ns' : List Notification) (tables' : Database)
      → and_inserted n r ≡ ok (ns', tables')
      → (rest : List Notification) × (r ≡ ok (rest, tables')) × (ns' ≡ n ∷ rest)
  and_inserted-ok n (ok (rest, t)) ns' tables' e = (rest, cc, cc)
  and_inserted-ok n (err x) ns' tables' e = cc

  -- How the loop got past a notification.
  abbrev Passed :
      ℕ → Notification → List Notification → Database → List Notification → Database → Type 0
  Passed time n ns tables ns' tables' =
      (id : ℕ) × (rest : List Notification) × (w : W env) × (let row =
          to_row env (stamp env time id n) in
        ((insert_notification row tables).0 ≡ ok tt)
        × ((insert_all env time ns (insert_notification row tables).1 w).0 ≡ ok (rest, tables'))
        × (ns' ≡ stamp env time id n ∷ rest))

  and_insert-ok :
      (time : ℕ) (n : Notification) (ns ns' : List Notification) (tables tables' : Database)
      (id : ℕ) (r : Result Error Database) (w : W env)
      → ((t : Database)
          → r ≡ ok t
          → let row = to_row env (stamp env time id n) in
            ((insert_notification row tables).0 ≡ ok tt) × ((insert_notification row tables).1 ≡ t))
      → (and_insert env (insert_all env time ns) (stamp env time id n) r w).0 ≡ ok (ns', tables')
      → Passed time n ns tables ns' tables'
  unfolding and_insert
  and_insert-ok time n ns ns' tables tables' id (err x) w known e = cc
  and_insert-ok time n ns ns' tables tables' id (ok t) w known e =
      let (stored, same) = known t refl in
      let (rest, found, whole) = and_inserted-ok _ _ ns' tables' e in
      (
        id,
        rest,
        w,
        (
          stored,
          subst (λ x. (insert_all env time ns x w).0 ≡ ok (rest, tables')) (sym same) found,
          whole,
        ),
      )

  insert_all-Passed :
      (time : ℕ) (n : Notification) (ns ns' : List Notification) (tables tables' : Database)
      (w : W env)
      → (insert_all env time (n ∷ ns) tables w).0 ≡ ok (ns', tables')
      → Passed time n ns tables ns' tables'
  unfolding insert_all tx_exec
  insert_all-Passed time n ns ns' tables tables' w e =
      let (id, w1) = next_uuid env w in
      let statement = insert_notification (to_row env (stamp env time id n)) in
      let (r, w2) = tx_exec env statement tables w1 in
      and_insert-ok time n ns ns' tables tables' id r w2
        (λ t h. tx_result-ok (env.fault w1.step) (statement tables) t h) e

  pub and_insert-db :
      (next : Database → Action env (Result Error Inserted)) (n : Notification)
      (r : Result Error Database) (w : W env)
      → ((t : Database) (v : W env) → (next t v).1.db ≡ v.db)
      → (and_insert env next n r w).1.db ≡ w.db
  unfolding and_insert
  and_insert-db next n (err e) w same = refl
  and_insert-db next n (ok t) w same = same t w

  pub insert_all-db :
      (time : ℕ) (ns : List Notification) (tables : Database) (w : W env)
      → (insert_all env time ns tables w).1.db ≡ w.db
  unfolding insert_all tx_exec next_uuid
  insert_all-db time [] tables w = refl
  insert_all-db time (n ∷ ns) tables w =
      and_insert-db (insert_all env time ns) _ _ _ (λ t v. insert_all-db time ns t v)

  -- A property that every insertion keeps, and one of what was inserted.
  abbrev pub Inserts : (Database → Type 0) → (Notification → Type 0) → Type 0
  Inserts P Q =
      (n : Notification) (tables : Database)
      → P tables
      → (insert_notification (to_row env n) tables).0 ≡ ok tt
      → P (insert_notification (to_row env n) tables).1 × Q n

  pub insert_all-holds :
      (P : Database → Type 0) (Q : Notification → Type 0) (step : Inserts P Q) (time : ℕ)
      (ns ns' : List Notification) (tables tables' : Database) (w : W env)
      → P tables
      → (insert_all env time ns tables w).0 ≡ ok (ns', tables')
      → P tables' × All Q ns'
  unfolding insert_all
  insert_all-holds P Q step time [] ns' tables tables' w h e =
      let same : ns' ≡ [] = cc in
      let kept : tables ≡ tables' = cc in (subst P kept h, subst (All Q) (sym same) tt)
  insert_all-holds P Q step time (n ∷ ns) ns' tables tables' w h e =
      let (id, rest, v, (stored, more, whole)) =
        insert_all-Passed time n ns ns' tables tables' w e in
      let (p, q) = step (stamp env time id n) tables h stored in
      let (ps, qs) = insert_all-holds P Q step time ns rest _ tables' v p more in
      (ps, subst (All Q) (sym whole) (q, qs))

  -- The notifications as the loop leaves them.
  abbrev pub AreStamped : ℕ → List Notification → List Notification → Type 0
  AreStamped time [] [] = Unit
  AreStamped time [] (n' ∷ ns') = ⊥
  AreStamped time (n ∷ ns) [] = ⊥
  AreStamped time (n ∷ ns) (n' ∷ ns') =
      ((id : ℕ) × (n' ≡ stamp env time id n)) × AreStamped time ns ns'

  pub insert_all-appends :
      (time : ℕ) (ns ns' : List Notification) (tables tables' : Database) (w : W env)
      → (insert_all env time ns tables w).0 ≡ ok (ns', tables')
      → (tables' ≡ with_rows (map (to_row env) ns') tables) × AreStamped time ns ns'
  unfolding insert_all
  insert_all-appends time [] ns' tables tables' w e =
      let same : ns' ≡ [] = cc in
      let kept : tables ≡ tables' = cc in
      (
        rw same (
            sym kept
            ∙ ap (λ z. record tables { notifications = z })
                (sym (append-nil tables.notifications))),
        subst (AreStamped time []) (sym same) tt,
      )
  insert_all-appends time (n ∷ ns) ns' tables tables' w e =
      let (id, rest, v, (stored, more, whole)) =
        insert_all-Passed time n ns ns' tables tables' w e in
      let row = to_row env (stamp env time id n) in
      let (after, stamps) = insert_all-appends time ns rest _ tables' v more in
      let first = insert_ok row tables stored in
      (
        rw whole (
            after
            ∙ ap (with_rows (map (to_row env) rest)) first
            ∙ ap (λ z. record tables { notifications = z })
                (append_assoc tables.notifications (row ∷ []) (map (to_row env) rest))),
        subst (AreStamped time (n ∷ ns)) (sym whole) ((id, refl), stamps),
      )
