-- ===== src/Repository/Pages.antt =====
-- The pages of List, followed by their cursors.
use event_driven_notificatio.Prelude.{
  map-take-drop, length-drop, select-ext, last_exists, get_last?-map, take-take-suc, take-map,
  length-take-suc, length-map, take_all, ℕ, zero, suc, ◌+◌, ◌≤◌, ◌<◌, ltb, leb, ◌⊎◌, ◌≡◌, refl, ap,
  sym, ◌∙◌, Bool, true, false, ◌&&◌, Bool-cases, inl, inr, none, some, Option, List, [], ◌∷◌, ◌++◌,
  map, take, drop, length, get_last?, select, All, arith, Result, ok, err,
}
use event_driven_notificatio.Prelude.Int.{ℤ, pos, negsuc}
use event_driven_notificatio.Prelude.State.{pure, ◌>>=◌}
use event_driven_notificatio.Domain.{
  Notification, NotificationFilter, NotificationList, Cursor, Error, channel_valid,
}
use event_driven_notificatio.Services.{Services, Row, W, Action, answered, read_rows}
use event_driven_notificatio.Services.Effects.{exec-answered}
use event_driven_notificatio.Repository.Rows.{to_micros, scan_notification}
use event_driven_notificatio.Repository.Sql.{
  failure, order_by, newest_first, matches, is_status_text, holds_if, select_page,
}
use event_driven_notificatio.Repository.Tables.{IsTable}
use event_driven_notificatio.Repository.Notifications.{
  page_size, to_page, list, scan_all, list_outcome,
}
use event_driven_notificatio.Repository.Paging.{
  last_of, All-insert_by, behind, cursor_of, order_by-IsNewestFirst, select-order_by, select-behind,
  matches-cursor,
}

module _ (env : Services) where
  -- What is done with a page, and with the rest of the pages.
  join_pages :
      List Notification → Result Error (List Notification) → Result Error (List Notification)
  join_pages ns (err e) = err e
  join_pages ns (ok rest) = ok (ns ++ rest)

  follow :
      (NotificationFilter → Action env (Result Error (List Notification)))
      → NotificationFilter
      → List Notification
      → Option Cursor
      → Action env (Result Error (List Notification))
  unfolding join_pages
  follow next f ns none = pure (ok ns)
  follow next f ns (some c) = do
    rest ← next (record f { cursor = some c })
    pure (join_pages ns rest)

  on_page :
      (NotificationFilter → Action env (Result Error (List Notification)))
      → NotificationFilter
      → Result Error NotificationList
      → Action env (Result Error (List Notification))
  unfolding follow
  on_page next f (err e) = pure (err e)
  on_page next f (ok page) = follow next f page.notifications page.next_cursor

  -- A client that asks for page after page, until a page has no cursor or the fuel is used up.
  unfoldable pub pages : ℕ → NotificationFilter → Action env (Result Error (List Notification))
  unfolding on_page
  pages zero f = pure (ok [])
  pages (suc fuel) f = do page ← list env f; on_page (pages fuel) f page

-- The rows that a filter matches, in order, with no limit.
abbrev pub in_order : NotificationFilter → List Row → List Row
in_order f rows = order_by newest_first (select (matches f) rows)

-- The columns that the rows of the table and of a page have in common: times to the microsecond.
abbrev pub InMicros : Row → Type 0
InMicros r = to_micros r.created_at ≡ r.created_at

abbrev pub IsQuery : NotificationFilter → Type 0
IsQuery f = (holds_if f.status is_status_text && holds_if f.channel channel_valid) ≡ true

page_size_pos : (n : ℤ) → 1 ≤ page_size n
unfolding page_size
page_size_pos (negsuc n) = omega arith
page_size_pos (pos n) = ground arith

module _ (P : Row → Type 0) where
  All-order_by : (le : Row → Row → Bool) (xs : List Row) → All P xs → All P (order_by le xs)
  unfolding order_by
  All-order_by le [] a = tt
  All-order_by le (x ∷ xs) a = All-insert_by P le x (order_by le xs) a.0 (All-order_by le xs a.1)

  All-select_test :
      (q : Row → Bool) (xs : List Row) → All P xs → All (λ r. (q r ≡ true) × P r) (select q xs)
  unfolding select
  All-select_test q [] a = tt
  All-select_test q (x ∷ xs) a = elim (Bool-cases (q x)) [
    | inl e ↦ rw e ((e, a.0), All-select_test q xs a.1)
    | inr e ↦ rw e (All-select_test q xs a.1)
  ]

All-in_order :
    (f : NotificationFilter) (rows : List Row)
    → All InMicros rows
    → All (λ r. (matches f r ≡ true) × InMicros r) (in_order f rows)
All-in_order f rows a =
    All-order_by (λ r. (matches f r ≡ true) × InMicros r) newest_first (select (matches f) rows)
      (All-select_test InMicros (matches f) rows a)

le_or_lt : (a b : ℕ) → (a ≤ b) ⊎ (b < a)
le_or_lt a b = elim (Bool-cases (leb a b)) [
  | inl e ↦ inl (ground arith)
  | inr e ↦ inr (ground arith)
]

-- A query of the whole table in one call, as notifications.
module _ (env : Services) where
  abbrev pub whole : NotificationFilter → List Row → List Notification
  whole f rows = map (scan_notification env) (in_order f rows)

  page_full :
      (limit : ℕ) (rows : List Row)
      → length rows ≤ limit
      → to_page env limit (map (scan_notification env) (take (suc limit) rows))
        ≡ record { notifications = map (scan_notification env) rows; next_cursor = none }
  unfolding to_page
  page_full limit rows h =
      let all = take_all (suc limit) rows (omega arith) in
      let len = length-map (scan_notification env) rows in
      let short : ltb limit (length (map (scan_notification env) rows)) ≡ false = ground arith in
      rw all (rw short refl)

  page_cut :
      (limit : ℕ) (rows : List Row) (x : Row)
      → limit < length rows
      → get_last? (take limit rows) ≡ some x
      → to_page env limit (map (scan_notification env) (take (suc limit) rows)) ≡ record {
        notifications = map (scan_notification env) (take limit rows);
        next_cursor = some (cursor_of x);
      }
  unfolding to_page scan_notification
  page_cut limit rows x h last =
      let scan = scan_notification env in
      let len : length (map scan (take (suc limit) rows)) ≡ suc limit =
        length-map scan (take (suc limit) rows) ∙ length-take-suc limit rows h in
      let long : ltb limit (length (map scan (take (suc limit) rows))) ≡ true = ground arith in
      let kept : take limit (map scan (take (suc limit) rows)) ≡ map scan (take limit rows) =
        take-map scan limit (take (suc limit) rows) ∙ ap (map scan) (take-take-suc limit rows) in
      let end_ : get_last? (map scan (take limit rows)) ≡ some (scan x) =
        get_last?-map scan x (take limit rows) last in
      rw long (rw kept (rw end_ refl))

  module _ (steady : (k : ℕ) → env.fault k ≡ answered)
      (unbroken : (k : ℕ) → env.breaks_after k ≡ none) where
    list-run :
        (f : NotificationFilter) (w : W env)
        → IsQuery f
        → ((list env f w).0
            ≡ ok (
                to_page env (page_size f.limit) (
                  map
                    (scan_notification env)
                    (take (page_size f.limit + 1) (in_order f w.db.notifications)))))
          × ((list env f w).1.db ≡ w.db)
    unfolding list list_outcome scan_all read_rows select_page
    list-run f w query =
        let run =
          exec-answered env failure (λ (t : ℕ). select_page f (page_size f.limit + 1)) w
            (steady w.step) in
        rw run (rw query (rw (unbroken (suc w.step)) refl, refl))

    -- The filter of the next page selects what the page has left.
    next_page :
        (f : NotificationFilter) (rows : List Row) (x : Row)
        → IsTable rows
        → All InMicros rows
        → get_last? (take (page_size f.limit) (in_order f rows)) ≡ some x
        → in_order (record f { cursor = some (cursor_of x) }) rows
          ≡ drop (page_size f.limit) (in_order f rows)
    next_page f rows x valid micros last =
        let (fits, exact) =
          last_of (λ r. (matches f r ≡ true) × InMicros r) x (page_size f.limit) (in_order f rows)
            (All-in_order f rows micros) last in
        ap (order_by newest_first) (
          select-ext (matches (record f { cursor = some (cursor_of x) }))
            (λ r. matches f r && behind x r) (λ r. matches-cursor f x r exact fits) rows)
        ∙ sym (select-order_by (matches f) (behind x) rows valid)
        ∙ select-behind (page_size f.limit) x (in_order f rows)
            (order_by-IsNewestFirst (matches f) rows valid) last

    collected :
        (fuel : ℕ) (f : NotificationFilter) (w : W env) (rows : List Row)
        → w.db.notifications ≡ rows
        → IsTable rows
        → All InMicros rows
        → IsQuery f
        → length (in_order f rows) < fuel
        → (pages env fuel f w).0 ≡ ok (whole f rows)
    unfolding pages on_page follow join_pages
    collected zero f w rows same valid micros query enough = absurd (omega arith)
    collected (suc fuel) f w rows same valid micros query enough =
        let limit = page_size f.limit in
        let sorted = in_order f rows in
        let (page, kept) = list-run f w query in
        let one : limit + 1 ≡ suc limit = omega arith in
        let page' : (list env f w).0
            ≡ ok (to_page env limit (map (scan_notification env) (take (suc limit) sorted))) =
          page ∙ rw (one, same) refl in
        elim (le_or_lt (length sorted) limit) [
          | inl short ↦ rw (page', page_full limit sorted short) refl
          | inr long ↦
              let (x, last) = last_exists limit sorted (page_size_pos f.limit) long in
              let f' = record f { cursor = some (cursor_of x) } in
              let next = next_page f rows x valid micros last in
              let fewer = length-drop limit sorted (page_size_pos f.limit) long in
              let len : length (in_order f' rows) ≡ length (drop limit sorted) = ap length next in
              let rest =
                collected fuel f' (list env f w).1 rows (ap (λ db. db.notifications) kept ∙ same)
                  valid micros query (omega arith) in
              rw (page', page_cut limit sorted x long last)
                (rw rest (
                  ap ok (
                    ap
                      (λ z.
                        map (scan_notification env) (take limit sorted)
                        ++ map (scan_notification env) z)
                      next
                    ∙ map-take-drop (scan_notification env) limit sorted)))
        ]

    -- With the calls answered and no result set broken off, a client that follows the cursors of List
    -- gets every notification that its filter matches, once and newest first, as one query of the table
    -- without a limit would return them; and it needs at most one call more than there are such
    -- notifications. It needs a table that meets its constraints, whose times are to the microsecond, and
    -- a filter whose status and channel the database knows.
    pub pages-whole :
        (fuel : ℕ) (f : NotificationFilter) (w : W env)
        → IsTable w.db.notifications
        → All InMicros w.db.notifications
        → IsQuery f
        → length (in_order f w.db.notifications) < fuel
        → (pages env fuel f w).0 ≡ ok (whole f w.db.notifications)
    pages-whole fuel f w valid micros query enough =
        collected fuel f w w.db.notifications refl valid micros query enough
