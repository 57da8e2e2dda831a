-- ===== src/Worker/Member.antt =====
-- `parseMember` of internal/worker/dispatcher.go. The loop ranges over runes; a colon is one byte and
-- no byte of another rune, so it ranges over bytes here.
use event_driven_notificatio.Prelude.{
  ℕ, ◌+◌, ◌-◌, ◌==◌, ltb, if◌then◌else◌, Option, none, some, List, [], ◌∷◌, ◌++◌, length, take,
  drop,
}
use event_driven_notificatio.Prelude.Text.{Str}

-- `s[start:i]`
abbrev pub slice : ℕ → ℕ → Str → Str
slice start i s = take (i - start) (drop start s)

-- The loop at index `i`, with its variables; the result is `parts` and `start` at the end.
unfoldable pub scan : Str → Str → ℕ → ℕ → ℕ → List Str → List Str × ℕ
scan s [] i start count parts = (parts, start)
scan s (c ∷ rest) i start count parts =
    let found = parts ++ slice start i s ∷ [] in
    let stop : List Str × ℕ = (found, i + 1) in
    let on = scan s rest (i + 1) (i + 1) (count + 1) found in
    let past = scan s rest (i + 1) start count parts in
    if c == b':' then (if count + 1 == 2 then stop else on) else past

unfoldable pub parse_member : Str → Option (List Str)
unfolding scan
parse_member s =
    let (found, start) = scan s s 0 0 0 [] in
    let parts = if ltb start (length s) then found ++ drop start s ∷ [] else found in
    if length parts == 3 then some parts else none
