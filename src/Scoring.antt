-- ===== src/Scoring.antt =====
-- Project8/ssu_string.c: how the answers of students are compared with the right ones. A string is
-- the bytes before its terminator.
pub mod Tokens
pub mod Lexer
pub mod Shapes
pub mod Operators
pub mod Lexing
pub mod Marking
pub mod Marked
pub mod Groups
pub mod Compare
pub mod Stack
pub mod Postfix
pub mod Tally
mod Tests
mod MarkTests
use linux_project.Base.{
  ℕ, zero, suc, ◌+◌, ◌&&◌, ◌||◌, Bool, true, false, not, Option, none, some, List, [], ◌∷◌, ◌==◌,
  leb, if◌then◌else◌, map, length,
}

-- `strcmp(a, b) == 0`
abbrev pub eq_str : List ℕ → List ℕ → Bool
eq_str [] [] = true
eq_str [] (y ∷ ys) = false
eq_str (x ∷ xs) [] = false
eq_str (x ∷ xs) (y ∷ ys) = (x == y) && eq_str xs ys

-- `str[0]`
abbrev pub first_char : List ℕ → ℕ
first_char [] = 0
first_char (c ∷ cs) = c

-- The cases of a `switch`.
abbrev pub among : ℕ → List ℕ → Bool
among c [] = false
among c (d ∷ ds) = (c == d) || among c ds

-- `isblk`: a space or a tab, 1; the terminator, 2.
unfoldable pub isblk : ℕ → ℕ
isblk c = if among c (32 ∷ 9 ∷ []) then 1 else if among c (0 ∷ []) then 2 else 0

-- `tolower` of the C locale.
abbrev pub tolower : ℕ → ℕ
tolower c = if leb 65 c && leb c 90 then c + 32 else c

unfoldable pub strlwr : List ℕ → List ℕ
strlwr str = map tolower str

abbrev pub behind : List ℕ → List ℕ
behind [] = []
behind (c ∷ cs) = cs

-- The loop of `stringcmp`, for as many rounds as the answer has characters. The result is 0 or -1:
-- whether the texts agree. `none`: C reads behind the end of a text.
unfoldable pub stringcmp_loop : ℕ → List ℕ → List ℕ → Option Bool
stringcmp_loop zero [] std = some true
stringcmp_loop zero (c ∷ cs) std = none
stringcmp_loop (suc n) [] std = some true
stringcmp_loop (suc n) (c ∷ cs) [] = none
stringcmp_loop (suc n) (c ∷ cs) (d ∷ ds) =
    let ans = if isblk c == 0 then c ∷ cs else cs in
    let std = if isblk d == 0 then d ∷ ds else ds in
    let rest = stringcmp_loop n (behind ans) (behind std) in
    if first_char ans == first_char std
    then elim ans [ [] ↦ none | (a ∷ more) ↦ rest ]
    else some false

unfoldable pub stringcmp : List ℕ → List ℕ → Option Bool
stringcmp anstext stdtext =
    let ans = strlwr anstext in stringcmp_loop (length ans) ans (strlwr stdtext)
