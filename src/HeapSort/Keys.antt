-- ===== src/HeapSort/Keys.antt =====
-- The order of Project12/heapsort.c: `strcmp` on the first field of a record.
use linux_project.Base.{ℕ, ◌≡◌, refl, true, false, some, List, [], ◌∷◌, arith, strncpy}
use linux_project.HeapSort.{Record, strtok, above, key_of}

pub above_irrefl : (s : List ℕ) → above s s ≡ false
unfolding above
above_irrefl [] = refl
above_irrefl (c ∷ s) = ground (arith, above_irrefl s)

pub above_asymm : (s t : List ℕ) → above s t ≡ true → above t s ≡ false
unfolding above
above_asymm [] t h = cc
above_asymm (c ∷ s) [] h = refl
above_asymm (c ∷ s) (d ∷ t) h = ground (arith, above_asymm s t)

pub not_above_trans : (s t u : List ℕ) → above s t ≡ false → above t u ≡ false → above s u ≡ false
unfolding above
not_above_trans [] t u h k = refl
not_above_trans (c ∷ s) [] u h k = cc
not_above_trans (c ∷ s) (d ∷ t) [] h k = cc
not_above_trans (c ∷ s) (d ∷ t) (e ∷ u) h k = ground (arith, not_above_trans s t u)

-- The order on records: the key of the first is not above the key of the second.
abbrev pub Le : Record → Record → Type 0
Le r s = above (strtok r) (strtok s) ≡ false

-- A slot's record of this size: a copy of it is the same, and it has a key.
pub record IsRecord (size : ℕ) (r : Record) : Type 0 where
  pub copied : strncpy size r ≡ r
  pub keyed : key_of size r ≡ some (strtok r)
