-- ===== src/Cron/Daemon.antt =====
-- Project7/ssu_crond.c: whether a line of the table is due.
-- `strtok` keeps one place in one string for all its callers, here the value `saved`.
use linux_project.Base.{
  leb, length, ℕ, zero, suc, ◌+◌, Bool, true, false, not, ◌||◌, ◌&&◌, Option, none, some, List, [],
  ◌∷◌, ◌>>=◌, ◌==◌, if◌then◌else◌, map, codes, same_string, has_char, next_token, get_or,
}
use mathlib.Core.Option
use linux_project.Base.Int.{ℤ, pos, atoi, pos_part, leb_ℤ, eqb_ℤ}
use linux_project.Cron.{comma, bar, slash, space, every, Position, min_of, max_of, sections}

-- `if (!strcmp(month, ...)) temp = ...`, down a list of names; no name leaves `temp` as it was.
unfoldable pub named : List (List ℕ) → ℕ → List ℕ → ℤ → ℤ
named [] n name temp = temp
named (m ∷ ms) n name temp = if same_string name m then pos n else named ms (n + 1) name temp

abbrev pub month_names : List (List ℕ)
month_names =
    codes "Jan"
    ∷ codes "Feb"
    ∷ codes "Mar"
    ∷ codes "Apr"
    ∷ codes "May"
    ∷ codes "Jun"
    ∷ codes "Jul"
    ∷ codes "Aug"
    ∷ codes "Sep"
    ∷ codes "Oct"
    ∷ codes "Nov"
    ∷ codes "Dec"
    ∷ []

abbrev pub day_names : List (List ℕ)
day_names =
    codes "Sun"
    ∷ codes "Mon"
    ∷ codes "Tue"
    ∷ codes "Wed"
    ∷ codes "Thu"
    ∷ codes "Fri"
    ∷ codes "Sat"
    ∷ []

-- The parts of `ctime(&current)`.
pub record Clock : Type 0 where
  pub week : List ℕ
  pub month : List ℕ
  pub day : List ℕ
  pub hour : List ℕ
  pub min : List ℕ

unfoldable pub clock : List ℕ → Option Clock
clock now = do
  (week, rest) ← next_token space now
  (month, rest) ← next_token space rest
  (day, rest) ← next_token space rest
  (hour, rest) ← next_token 58 rest
  (min, rest) ← next_token 58 rest
  some (record { week = week; month = month; day = day; hour = hour; min = min })

-- The branches of `comparetime`. `temp` is what the variable held before; the week is looked up by the
-- name of the month.
unfoldable pub matches : ℤ → Clock → ℤ → Position → Bool
matches temp c num Position.minposition = eqb_ℤ num (atoi c.min)
matches temp c num Position.hourposition = eqb_ℤ num (atoi c.hour)
matches temp c num Position.dayposition = eqb_ℤ num (atoi c.day)
matches temp c num Position.monthposition = eqb_ℤ num (named month_names 1 c.month temp)
matches temp c num Position.weekposition = eqb_ℤ num (named day_names 0 c.month temp)

-- The part in front of the bar, and the number behind it.
unfoldable pub bounds : List ℕ → Option (ℤ × ℤ)
bounds range = do (com1, rest) ← next_token bar range; some (atoi com1, atoi rest)

-- `|`
abbrev pub end_mark : ℕ
end_mark = 124

-- `if (buf[i][j] == '\0') buf[i][j] = '|'`, over the bytes of a line
unfoldable pub marked : List ℕ → List ℕ
marked line = map (λ c. if c == 0 then end_mark else c) line

-- `timebuf[17]` and `timebuf[18]` are both `'0'`.
unfoldable pub at_minute : List ℕ → Bool
at_minute now = (get_or now 17 0 == 48) && (get_or now 18 0 == 48)

-- What stands behind the five sections; `strtok(NULL, "\0")` takes all that is left.
unfoldable pub command_text : List ℕ → Option (List ℕ)
command_text command = do
  (min, rest) ← next_token space command
  (hour, rest) ← next_token space rest
  (day, rest) ← next_token space rest
  (month, rest) ← next_token space rest
  (week, rest) ← next_token space rest
  elim rest [ [] ↦ none | c ∷ s ↦ some (c ∷ s) ]

-- The place of `strtok` behind a call of `comparetime`: in `timebuf`, an array of a call that is over. No
-- string has a NUL.
abbrev pub dangling : List ℕ
dangling = 0 ∷ []

-- A part with a slash fits into `range[6]` and `stand[2]`.
unfoldable pub fits_buffers : List ℕ → Bool
fits_buffers input = elim (next_token slash input) [
  | none ↦ true
  | some (range, rest) ↦
      leb (length range) 5
      && elim (next_token space rest) [ none ↦ true | some (stand, saved) ↦ leb (length stand) 1 ]
]

module _ (now : List ℕ) (temp : ℤ) where
  -- `comparetime(num, position)`. `strcpy(timebuf, ctime(&current))` writes a NUL one byte behind
  -- `timebuf[25]`, which is taken to hit nothing that is read.
  unfoldable pub comparetime : ℤ → Position → Option (Bool × List ℕ)
  comparetime num position = do c ← clock now; some (matches temp c num position, dangling)

  -- `for (i = ...; i <= last; i += st) if (comparetime(i, position)) ox = 1`, with fuel.
  unfoldable pub timer_loop : ℕ → (i st : ℕ) → ℤ → Position → Bool → List ℕ → Option (Bool × List ℕ)
  timer_loop zero i st last position ox saved = none
  timer_loop (suc fuel) i st last position ox saved =
      let rest = timer_loop fuel (i + st) st last position in
      if leb_ℤ (pos i) last
      then comparetime (pos i) position >>= (λ (due, saved'). rest (due || ox) saved')
      else some (ox, saved)

  -- The loop from `first` on, a step of at least 1 ends it within this fuel.
  unfoldable pub timer_range : ℤ → ℤ → ℤ → Position → List ℕ → Option (Bool × List ℕ)
  timer_range first st last position saved =
      timer_loop (suc (suc (pos_part last))) (pos_part first) (pos_part st) last position false
        saved

  -- The branches of `timer` for a part with a slash, and for one with a bar.
  unfoldable pub timer_slash : List ℕ → Position → Option (Bool × List ℕ)
  timer_slash input position = do
    (range, rest) ← next_token slash input
    (stand, saved) ← next_token space rest
    let st = atoi stand
    if not (fits_buffers input)
        then none
        else if same_string range every
        then timer_range (pos (min_of position)) st (pos (max_of position)) position saved
        else do (com1, com2) ← bounds range; timer_range com1 st com2 position saved

  unfoldable pub timer_bar : List ℕ → Position → List ℕ → Option (Bool × List ℕ)
  timer_bar input position saved = do
    (com1, com2) ← bounds input
    timer_range com1 (pos 1) com2 position saved

  -- `timer(min, max, input, position)`
  unfoldable pub timer : List ℕ → Position → List ℕ → Option (Bool × List ℕ)
  timer input position saved =
      if has_char slash input
      then timer_slash input position
      else if has_char bar input
      then timer_bar input position saved
      else if same_string input every
      then some (true, saved)
      else if eqb_ℤ (atoi input) (pos 0)
      then some (false, saved)
      else comparetime (atoi input) position

  -- The loop of `token_check` over the parts between commas: `ptr = strtok(NULL, ",")` goes on where
  -- `strtok` was left by `timer`; in an array that is gone it reads what nobody knows.
  unfoldable pub parts_loop : ℕ → List ℕ → Position → List ℕ → Option Bool
  parts_loop zero part position saved = none
  parts_loop (suc fuel) part position saved = do
    (ox, saved') ← timer part position saved
    if ox
        then some true
        else if same_string saved' dangling
        then none
        else elim (next_token comma saved') [
          | none ↦ some false
          | some (part', saved'') ↦ parts_loop fuel part' position saved''
        ]

  -- `token_check(min, max, input, position)`
  unfoldable pub token_check : ℕ → List ℕ → Position → Option Bool
  token_check fuel input position =
      if has_char comma input
      then elim (next_token comma input) [
        | none ↦ none
        | some (part, saved) ↦ parts_loop fuel part position saved
      ]
      else do (ox, saved) ← timer input position []; some ox

  -- `check(command)`
  unfoldable pub check : ℕ → (Position → List ℕ) → List ℕ → Option Bool
  check fuel junk command = do
    s ← sections junk command
    min ← token_check fuel s.min Position.minposition
    if not min then some false else do
      hour ← token_check fuel s.hour Position.hourposition
      if not hour then some false else do
        day ← token_check fuel s.day Position.dayposition
        if not day then some false else do
          month ← token_check fuel s.month Position.monthposition
          if not month then some false else token_check fuel s.week Position.weekposition

  -- `divide(arg)` and `succeed`: the line up to its mark, and what the shell is given where it is due.
  unfoldable pub divide : ℕ → (Position → List ℕ) → List ℕ → Option (Option (List ℕ))
  divide fuel junk line = do
    (command, rest) ← next_token end_mark line
    ox ← check fuel junk command
    if ox then Option.map some (command_text command) else some none

  unfoldable pub divide_all :
      ℕ → (Position → List ℕ) → List (List ℕ) → Option (List (Option (List ℕ)))
  divide_all fuel junk [] = some []
  divide_all fuel junk (l ∷ ls) = do
    run ← divide fuel junk (marked l)
    runs ← divide_all fuel junk ls
    some (run ∷ runs)

  -- One turn of the loop of `start`, for the lines of the table, one after the other: nothing runs
  -- before the second 00.
  unfoldable pub start_turn :
      ℕ → (Position → List ℕ) → List (List ℕ) → Option (List (Option (List ℕ)))
  start_turn fuel junk table = if at_minute now then divide_all fuel junk table else some []
