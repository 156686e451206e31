-- ===== src/Cron.antt =====
-- Project7: ssu_crontab.c checks and keeps the lines of the table, ssu_crond.c finds the lines that are
-- due. Both write the limits of the five sections of a line, and read its sections in one way.
mod Daemon
mod Due
mod Ranges
mod Accepted
mod Lines
mod Crontab
mod Tests
use linux_project.Base.{
  ℕ, zero, suc, Option, none, some, List, [], ◌∷◌, ◌++◌, take, ◌>>=◌, c_string, ltb, if◌then◌else◌,
  length, next_token,
}

abbrev pub space : ℕ
space = 32

abbrev pub comma : ℕ
comma = 44

abbrev pub bar : ℕ
bar = 45

abbrev pub slash : ℕ
slash = 47

-- `*`
abbrev pub every : List ℕ
every = 42 ∷ []

pub data Position : Type 0 where
  minposition hourposition dayposition monthposition weekposition : Position

abbrev pub min_of : Position → ℕ
min_of Position.minposition = 0
min_of Position.hourposition = 0
min_of Position.dayposition = 1
min_of Position.monthposition = 1
min_of Position.weekposition = 0

abbrev pub max_of : Position → ℕ
max_of Position.minposition = 59
max_of Position.hourposition = 23
max_of Position.dayposition = 59
max_of Position.monthposition = 12
max_of Position.weekposition = 6

-- `memcpy(hour, ptr, sizeof(ptr))`: 8 bytes of the token; behind them stands what the array held.
unfoldable pub copied : List ℕ → List ℕ → List ℕ
copied junk s = if ltb (length s) 8 then s else take 8 s ++ c_string junk

-- The five sections of a line.
pub record Sections : Type 0 where
  pub min : List ℕ
  pub hour : List ℕ
  pub day : List ℕ
  pub month : List ℕ
  pub week : List ℕ

-- The five calls of `strtok` on a line; `none` where the line has fewer sections.
unfoldable pub words : List ℕ → Option Sections
words line = do
  (min, rest) ← next_token space line
  (hour, rest) ← next_token space rest
  (day, rest) ← next_token space rest
  (month, rest) ← next_token space rest
  (week, rest) ← next_token space rest
  some (record { min = min; hour = hour; day = day; month = month; week = week })

-- The sections in their arrays, with what each array held before.
unfoldable pub sections : (Position → List ℕ) → List ℕ → Option Sections
sections junk line = do
  s ← words line
  some (record {
    min = s.min;
    hour = copied (junk Position.hourposition) s.hour;
    day = copied (junk Position.dayposition) s.day;
    month = copied (junk Position.monthposition) s.month;
    week = copied (junk Position.weekposition) s.week;
  })
