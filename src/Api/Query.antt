-- ===== src/Api/Query.antt =====
-- The query of List in internal/api/handler/notification.go, with `strconv.Atoi` for its limit. A value
-- that is missing is the empty text.
use event_driven_notificatio.Prelude.{
  ℕ, ◌+◌, ◌-◌, ◌*◌, ◌^◌, ltb, leb, ◌&&◌, Bool, if◌then◌else◌, Option, none, some, List, [], ◌∷◌,
  Result, ok, err,
}
use event_driven_notificatio.Prelude.Int.{ℤ, pos, negsuc}
use event_driven_notificatio.Prelude.Text.{Str, str, same}
use event_driven_notificatio.Domain.{NotificationFilter}
use event_driven_notificatio.Services.{Services}

abbrev pub Query : Type 0
Query = List (Str × Str)

-- `r.URL.Query().Get`
unfoldable pub query_value : Str → Query → Str
query_value key [] = []
query_value key ((k, v) ∷ query) = if same k key then v else query_value key query

-- `if s != "" { filter.Status = &status }`
abbrev pub if_given : Str → Option Str
if_given [] = none
if_given (c ∷ s) = some (c ∷ s)

abbrev pub is_decimal : ℕ → Bool
is_decimal c = leb b'0' c && leb c b'9'

unfoldable pub digits_value : ℕ → Str → Option ℕ
digits_value acc [] = some acc
digits_value acc (c ∷ s) = if is_decimal c then digits_value (acc * 10 + (c - b'0')) s else none

unfoldable pub unsigned : Str → Option ℕ
unfolding digits_value
unsigned [] = none
unsigned (c ∷ s) = digits_value 0 (c ∷ s)

-- A number of 63 bits and a sign.
abbrev pub positive : Option ℕ → Option ℤ
positive none = none
positive (some n) = if ltb n (2 ^ 63) then some (pos n) else none

abbrev pub negative : Option ℕ → Option ℤ
negative none = none
negative (some n) =
    if leb n (2 ^ 63) then some (if ltb 0 n then negsuc (n - 1) else pos 0) else none

unfoldable pub atoi : Str → Option ℤ
unfolding unsigned
atoi [] = none
atoi (c ∷ s) =
    if same (c ∷ []) (str "-")
    then negative (unsigned s)
    else if same (c ∷ []) (str "+")
    then positive (unsigned s)
    else positive (unsigned (c ∷ s))

-- A filter, or the message of a response with status 400.
abbrev pub Filtered : Type 0
Filtered = Result Str NotificationFilter

abbrev pub filter_first : Query → NotificationFilter
filter_first query = record {
  status = if_given (query_value (str "status") query);
  channel = if_given (query_value (str "channel") query);
  batch_id = none;
  cursor = none;
  limit = pos 0;
}

-- `err != nil || limit < 1`
unfoldable pub set_limit : NotificationFilter → Option ℤ → Filtered
set_limit f none = err (str "invalid limit")
set_limit f (some (negsuc n)) = err (str "invalid limit")
set_limit f (some (pos n)) =
    if ltb n 1 then err (str "invalid limit") else ok (record f { limit = pos n })

unfoldable pub filter_limit : Str → NotificationFilter → Filtered
unfolding set_limit atoi
filter_limit [] f = ok f
filter_limit (c ∷ s) f = set_limit f (atoi (c ∷ s))

abbrev pub and_filter : Filtered → (NotificationFilter → Filtered) → Filtered
and_filter (err message) next = err message
and_filter (ok f) next = next f

module _ (env : Services) where
  unfoldable pub set_batch : NotificationFilter → Option ℕ → Filtered
  set_batch f none = err (str "invalid batch_id")
  set_batch f (some id) = ok (record f { batch_id = some id })

  unfoldable pub filter_batch : Str → NotificationFilter → Filtered
  unfolding set_batch
  filter_batch [] f = ok f
  filter_batch (c ∷ s) f = set_batch f (env.uuid_parse (c ∷ s))

  unfoldable pub set_cursor : NotificationFilter → Option ℕ → Option ℕ → Filtered
  set_cursor f none id = err (str "invalid cursor_time")
  set_cursor f (some t) none = err (str "invalid cursor_id")
  set_cursor f (some t) (some id) =
      ok (record f { cursor = some (record { created_at = t; id = id }) })

  -- A cursor with one of its parts only is no cursor.
  unfoldable pub filter_cursor : Str → Str → NotificationFilter → Filtered
  unfolding set_cursor
  filter_cursor [] id f = ok f
  filter_cursor (c ∷ t) [] f = ok f
  filter_cursor (c ∷ t) (d ∷ id) f = set_cursor f (env.parse_time (c ∷ t)) (env.uuid_parse (d ∷ id))

  unfoldable pub parse_filter : Query → Filtered
  unfolding query_value filter_batch filter_limit filter_cursor
  parse_filter query =
      and_filter
        (and_filter (filter_batch (query_value (str "batch_id") query) (filter_first query))
          (filter_limit (query_value (str "limit") query)))
        (filter_cursor (query_value (str "cursor_time") query)
          (query_value (str "cursor_id") query))
