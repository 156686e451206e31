-- ===== src/Base/Strings.antt =====
-- C's strings in buffers, and the copies of string.h.
use Prim.Native.Nat.{ℕ, zero, suc, ◌+◌, ◌*◌, ◌-◌}
use Prim.Native.Char.{code}
use Prim.Native.String.{String}
use mathlib.Core.Path.{◌≡◌, refl, ap, sym}
use mathlib.Core.List.{List, [], ◌∷◌}
use mathlib.Core.Bool.{Bool, true, false, ◌&&◌, ◌||◌}
use mathlib.Core.Option.{Option, none, some}
use native.Mathlib.Omega.{arith}
unfoldable use native.Mathlib.Decide.{ℕ_discrete}
use linux_project.Base.Tests.{◌==◌, leb, if◌then◌else◌}
use linux_project.Base.Lists.{replicate}

-- The string that starts with these bytes: up to the first NUL, or to the end of the buffer.
unfoldable pub c_string : List ℕ → List ℕ
c_string [] = []
c_string (c ∷ s) = if c == 0 then [] else c ∷ c_string s

-- The codes of a text's characters.
abbrev pub codes : String → List ℕ
codes String.[] = []
codes (String.◌∷◌ c s) = code c ∷ codes s

-- `strcmp(s, t) == 0`
abbrev pub same_string : List ℕ → List ℕ → Bool
same_string [] [] = true
same_string (c ∷ s) (d ∷ t) = (c == d) && same_string s t
same_string s t = false

-- `strchr(s, c) != NULL`
abbrev pub has_char : ℕ → List ℕ → Bool
has_char c [] = false
has_char c (d ∷ s) = (c == d) || has_char c s

abbrev pub skip_char : ℕ → List ℕ → List ℕ
skip_char d [] = []
skip_char d (c ∷ s) = if c == d then skip_char d s else c ∷ s

-- What stands before the character, and what stands behind it.
abbrev pub cut_at : ℕ → List ℕ → List ℕ × List ℕ
cut_at d [] = ([], [])
cut_at d (c ∷ s) = let (t, r) = cut_at d s in if c == d then ([], s) else (c ∷ t, r)

-- `strtok` with one delimiter: the token, and what is left for the next call; `none` is its `NULL`.
unfoldable pub next_token : ℕ → List ℕ → Option (List ℕ × List ℕ)
next_token d s = elim (skip_char d s) [ [] ↦ none | c ∷ t ↦ some (cut_at d (c ∷ t)) ]

abbrev pub is_digit : ℕ → Bool
is_digit c = leb 48 c && leb c 57

unfoldable pub digits_value : ℕ → List ℕ → ℕ
digits_value n [] = n
digits_value n (c ∷ s) = if is_digit c then digits_value (n * 10 + (c - 48)) s else n

-- `strncpy(buf, s, n)`: a NUL ends what is copied, and the rest of the `n` bytes is 0.
unfoldable pub strncpy : ℕ → List ℕ → List ℕ
strncpy zero s = []
strncpy (suc n) [] = 0 ∷ strncpy n []
strncpy (suc n) (c ∷ s) = if c == 0 then replicate (suc n) 0 else c ∷ strncpy n s

strncpy_nil : (n : ℕ) → strncpy n [] ≡ replicate n 0
unfolding strncpy
strncpy_nil zero = refl
strncpy_nil (suc n) = ap (λ s. 0 ∷ s) (strncpy_nil n)

pub strncpy_twice : (n : ℕ) (s : List ℕ) → strncpy n (strncpy n s) ≡ strncpy n s
unfolding strncpy
strncpy_twice zero s = refl
strncpy_twice (suc n) [] = ap (λ s. 0 ∷ s) (sym (strncpy_nil n))
strncpy_twice (suc n) (c ∷ s) = elim (ℕ_discrete c 0) [
  | yes e ↦ rw e refl
  | no ne ↦ ground (arith, ne, strncpy_twice n s)
]
