-- ===== src/Cron/Crontab.antt =====
-- Project7/ssu_crontab.c: the grammar of a line, and the lines of the table.
use linux_project.Base.{
  ℕ, ◌+◌, Bool, true, false, not, ◌&&◌, Option, none, some, List, [], ◌∷◌, ◌++◌, ◌>>=◌, leb, ◌==◌,
  if◌then◌else◌, map, codes, same_string, has_char, next_token, c_string, length,
}
use linux_project.Base.Int.{ℤ, pos, atoi, leb_ℤ, ltb_ℤ, eqb_ℤ}
use linux_project.Cron.{
  comma, bar, slash, space, every, Position, min_of, max_of, Sections, sections,
}

abbrev pub in_limits : Position → ℤ → Bool
in_limits p num = leb_ℤ (pos (min_of p)) num && leb_ℤ num (pos (max_of p))

-- `bar_check(min, max, input)`; where C goes on with `NULL` or ends without a value the result is `none`.
unfoldable pub bar_check : Position → List ℕ → Option Bool
bar_check p input = do
  (cmp, rest) ← next_token bar input
  let num1 = atoi cmp
  if eqb_ℤ num1 (pos 0) && not (eqb_ℤ (atoi input) (pos (min_of p))) then some false else do
    (cmp', rest') ← next_token space rest
    let num2 = atoi cmp'
    if same_string cmp' every
        then none
        else if eqb_ℤ num2 (pos 0)
        then some false
        else some (in_limits p num1 && in_limits p num2 && ltb_ℤ num1 num2)

-- `sprintf(buf, "%s", ptr)` of a token, or of its `NULL`.
abbrev pub printed : Option (List ℕ × List ℕ) → List ℕ
printed none = codes "(null)"
printed (some (ptr, rest)) = ptr

-- `slash_check(min, max, input)`
unfoldable pub slash_check : Position → List ℕ → Option Bool
slash_check p input = do
  (cmp, rest) ← next_token slash input
  ox ← if has_char bar cmp then bar_check p cmp else some (same_string cmp every)
  if not ox then some false else do
    let num2 = atoi (printed (next_token space rest))
    some (not (eqb_ℤ num2 (pos 0)) && in_limits p num2)

-- `token_check(min, max, input)`
unfoldable pub token_check : Position → List ℕ → Option Bool
token_check p input =
    if has_char slash input
    then slash_check p input
    else if has_char bar input
    then bar_check p input
    else if same_string input every
    then some true
    else if eqb_ℤ (atoi input) (pos (min_of p))
    then some true
    else some (not (eqb_ℤ (atoi input) (pos 0)) && in_limits p (atoi input))

abbrev pub emitted : List ℕ → List (List ℕ) → List (List ℕ)
emitted [] ps = ps
emitted (c ∷ s) ps = (c ∷ s) ∷ ps

-- The tokens between commas, `part` being the one that has begun.
unfoldable pub parts : List ℕ → List ℕ → List (List ℕ)
parts [] part = emitted part []
parts (c ∷ s) part = if c == comma then emitted part (parts s []) else parts s (part ++ (c ∷ []))

unfoldable pub all_checked : Position → List (List ℕ) → Option Bool
all_checked p [] = some true
all_checked p (t ∷ ts) = do ox ← token_check p t; if not ox then some false else all_checked p ts

-- `grammar_check(min, max, input)`
unfoldable pub grammar_check : Position → List ℕ → Option Bool
grammar_check p input =
    if has_char comma input then all_checked p (parts input []) else token_check p input

-- The checks of `check_time`, down to the first that fails.
unfoldable pub all_sections : Sections → Option Bool
all_sections s = do
  min ← grammar_check Position.minposition s.min
  if not min then some false else do
    hour ← grammar_check Position.hourposition s.hour
    if not hour then some false else do
      day ← grammar_check Position.dayposition s.day
      if not day then some false else do
        month ← grammar_check Position.monthposition s.month
        if not month then some false else grammar_check Position.weekposition s.week

-- `check_time(input)`
unfoldable pub check_time : (Position → List ℕ) → List ℕ → Option Bool
check_time junk input = elim (sections junk input) [ none ↦ some false | some s ↦ all_sections s ]

abbrev pub end_line : ℕ → ℕ
end_line c = if c == 10 then 0 else c

-- `add(input)`: the text of a line, up to its newline, goes behind the last line.
unfoldable pub add : List (List ℕ) → List ℕ → List (List ℕ)
add table input = table ++ (c_string (map end_line input) ∷ [])

-- The loop of `remo(num)` from line `i` on.
unfoldable pub remo : List (List ℕ) → (num i : ℕ) → List (List ℕ)
remo [] num i = []
remo (l ∷ ls) num i = if i == num then remo ls num (i + 1) else l ∷ remo ls num (i + 1)

-- `remove num` of `main`: whether the number is taken, and the table.
unfoldable pub remove : List (List ℕ) → ℕ → Bool × List (List ℕ)
remove table renum = if leb renum (length table) then (true, remo table renum 0) else (false, table)

-- `add line` of `main`: the table is left as it is when the grammar is wrong.
unfoldable pub add_line : (Position → List ℕ) → List (List ℕ) → List ℕ → Option (List (List ℕ))
add_line junk table input = do
  ox ← check_time junk input
  if not ox then some table else some (add table input)
