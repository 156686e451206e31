-- ===== src/Persons/Bytes.antt =====
-- The bytes in which Project11/person.c keeps its numbers, and the places that it overwrites.
use linux_project.Base.{
  ℕ, zero, suc, ◌+◌, ◌*◌, ◌-◌, ◌/◌, ◌%◌, ◌≤◌, ◌<◌, ◌≡◌, refl, sym, ap, ◌∙◌, List, [], ◌∷◌, ◌++◌,
  ltb, arith, if◌then◌else◌, length, get_or, take, drop, false,
}
use linux_project.Base.Int.{ℤ, pos, negsuc}
use linux_project.Persons.{bytes_of, int_bytes, int_at, overlay}

-- The word that stands for an integer, and the integers that have one.
abbrev pub unsigned : ℤ → ℕ
unsigned (pos n) = n
unsigned (negsuc n) = 4294967295 - n

abbrev pub IsInt : ℤ → Type 0
IsInt (pos n) = n < 2147483648
IsInt (negsuc n) = n < 2147483648

pub int_bytes_lem : (z : ℤ) → int_bytes z ≡ bytes_of (unsigned z)
unfolding int_bytes
int_bytes_lem (pos n) = refl
int_bytes_lem (negsuc n) = refl

word_lem :
    (n : ℕ)
    → n < 4294967296
    → n % 256 + 256 * (n / 256 % 256) + 65536 * (n / 65536 % 256) + 16777216 * (n / 16777216 % 256)
      ≡ n
word_lem n lt = omega arith

abbrev signed : ℕ → ℤ
signed u = if ltb u 2147483648 then pos u else negsuc (4294967295 - u)

signed-unsigned : (z : ℤ) → IsInt z → signed (unsigned z) ≡ z
signed-unsigned (pos n) h = ground (arith, h)
signed-unsigned (negsuc n) h =
    let e : 4294967295 - (4294967295 - n) ≡ n = omega (arith, h) in
    let big : ltb (4294967295 - n) 2147483648 ≡ false = ground (arith, h) in rw (big, e) refl

unsigned_lt : (z : ℤ) → IsInt z → unsigned z < 4294967296
unsigned_lt (pos n) h = omega (arith, h)
unsigned_lt (negsuc n) h = omega arith

-- Bytes of a number, read where they stand.
pub int_at-bytes :
    (s : List ℕ) (i : ℕ) (z : ℤ)
    → IsInt z
    → get_or s i 0 ≡ unsigned z % 256
    → get_or s (i + 1) 0 ≡ unsigned z / 256 % 256
    → get_or s (i + 2) 0 ≡ unsigned z / 65536 % 256
    → get_or s (i + 3) 0 ≡ unsigned z / 16777216 % 256
    → int_at s i ≡ z
unfolding int_at
int_at-bytes s i z h a b c d =
    rw (a, b, c, d, word_lem (unsigned z) (unsigned_lt z h)) (signed-unsigned z h)

module _ {ℓ} {A : Type ℓ} where
  pub get_or-append_left :
      (xs ys : List A) (i : ℕ) (d : A) → i < length xs → get_or (xs ++ ys) i d ≡ get_or xs i d
  get_or-append_left [] ys i d lt = absurd (omega arith)
  get_or-append_left (x ∷ xs) ys zero d lt = refl
  get_or-append_left (x ∷ xs) ys (suc i) d lt = get_or-append_left xs ys i d (omega arith)

  pub get_or-append_right :
      (xs ys : List A) (n i : ℕ) (d : A) → n ≡ length xs + i → get_or (xs ++ ys) n d ≡ get_or ys i d
  get_or-append_right [] ys n i d e =
      let e' : n ≡ i = omega (arith, e) in ap (λ k. get_or ys k d) e'
  get_or-append_right (x ∷ xs) ys zero i d e = absurd (omega (arith, e))
  get_or-append_right (x ∷ xs) ys (suc n) i d e = get_or-append_right xs ys n i d (omega (arith, e))

  pub length-take_of_le : (n : ℕ) (xs : List A) → n ≤ length xs → length (take n xs) ≡ n
  length-take_of_le zero xs le = refl
  length-take_of_le (suc n) [] le = absurd (omega arith)
  length-take_of_le (suc n) (x ∷ xs) le = ap suc (length-take_of_le n xs (omega arith))

  take-append_front : (xs ys : List A) (n : ℕ) → n ≡ length xs → take n (xs ++ ys) ≡ xs
  take-append_front [] ys zero e = refl
  take-append_front [] ys (suc n) e = absurd (omega (arith, e))
  take-append_front (x ∷ xs) ys zero e = absurd (omega (arith, e))
  take-append_front (x ∷ xs) ys (suc n) e =
      ap (λ zs. x ∷ zs) (take-append_front xs ys n (omega (arith, e)))

  drop-append_far : (xs ys : List A) (n k : ℕ) → n ≡ length xs + k → drop n (xs ++ ys) ≡ drop k ys
  drop-append_far [] ys n k e = let e' : n ≡ k = omega (arith, e) in ap (λ m. drop m ys) e'
  drop-append_far (x ∷ xs) ys zero k e = absurd (omega (arith, e))
  drop-append_far (x ∷ xs) ys (suc n) k e = drop-append_far xs ys n k (omega (arith, e))

  drop-drop : (m n : ℕ) (xs : List A) → drop m (drop n xs) ≡ drop (n + m) xs
  drop-drop m zero xs = let e : 0 + m ≡ m = omega arith in ap (λ k. drop k xs) (sym e)
  drop-drop zero (suc n) [] =
      let e : suc n + 0 ≡ suc (n + 0) = omega arith in ap (λ k. drop k []) (sym e)
  drop-drop (suc m) (suc n) [] =
      let e : suc n + suc m ≡ suc (n + suc m) = omega arith in ap (λ k. drop k []) (sym e)
  drop-drop m (suc n) (x ∷ xs) =
      let e : suc n + m ≡ suc (n + m) = omega arith in
      drop-drop m n xs ∙ ap (λ k. drop k (x ∷ xs)) (sym e)

-- What is written over a place, read back.
pub get_or-overlay :
    (page s : List ℕ) (at i n : ℕ)
    → at ≤ length page
    → i < length s
    → n ≡ at + i
    → get_or (overlay page at s) n 0 ≡ get_or s i 0
unfolding overlay
get_or-overlay page s at i n le lt e =
    get_or-append_right (take at page) (s ++ drop (at + length s) page) n i 0
      (omega (arith, e, length-take_of_le at page le))
    ∙ get_or-append_left s (drop (at + length s) page) i 0 lt

-- A longer text over a shorter one at the same place leaves nothing of it.
pub overlay-overlay :
    (page s t : List ℕ) (at : ℕ)
    → at ≤ length page
    → length s ≤ length t
    → overlay (overlay page at s) at t ≡ overlay page at t
unfolding overlay
overlay-overlay page s t at le shorter =
    let front = length-take_of_le at page le in
    let rest = drop (at + length s) page in
    let taken : take at (take at page ++ (s ++ rest)) ≡ take at page =
      take-append_front (take at page) (s ++ rest) at (sym front) in
    let skip : at + length t ≡ length (take at page) + length t = omega (arith, front) in
    let skip' : length t ≡ length s + (length t - length s) = omega (arith, shorter) in
    let all : at + length s + (length t - length s) ≡ at + length t = omega (arith, shorter) in
    let dropped : drop (at + length t) (take at page ++ (s ++ rest)) ≡ drop (at + length t) page =
      drop-append_far (take at page) (s ++ rest) (at + length t) (length t) skip
      ∙ drop-append_far s rest (length t) (length t - length s) skip'
      ∙ drop-drop (length t - length s) (at + length s) page
      ∙ ap (λ k. drop k page) all in
    rw (taken, dropped) refl
