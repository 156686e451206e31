-- ===== src/Base/Counts.antt =====
-- How many elements of an array pass a test, and what a write of one element changes in it.
use Prim.Native.Nat.{ℕ, zero, suc, ◌+◌, ◌≤◌}
use mathlib.Core.Path.{◌≡◌, refl}
use mathlib.Core.List.{List, [], ◌∷◌}
use mathlib.Core.Bool.{Bool, true, false}
use mathlib.Core.Option.{some}
use native.Mathlib.Omega.{arith}
use linux_project.Base.Tests.{if◌then◌else◌}
use linux_project.Base.Lists.{get_elem?, update, replicate}

abbrev pub one : Bool → ℕ
one b = if b then 1 else 0

module _ {ℓ} {A : Type ℓ} where
  unfoldable pub count_if : (A → Bool) → List A → ℕ
  count_if P [] = 0
  count_if P (x ∷ xs) = one (P x) + count_if P xs

  pub count_if-update :
      (P : A → Bool) (xs : List A) (i : ℕ) (f : A → A) {x : A}
      → get_elem? xs i ≡ some x
      → count_if P (update xs i f) + one (P x) ≡ count_if P xs + one (P (f x))
  unfolding count_if
  count_if-update P [] i f e = cc
  count_if-update P (y ∷ xs) zero f e = ground (arith, e)
  count_if-update P (y ∷ xs) (suc i) f e = omega (arith, count_if-update P xs i f e)

  -- An element that passes is counted.
  pub count_if_pos :
      (P : A → Bool) (xs : List A) (i : ℕ) {x : A}
      → get_elem? xs i ≡ some x
      → P x ≡ true
      → 1 ≤ count_if P xs
  unfolding count_if
  count_if_pos P [] i e pass = cc
  count_if_pos P (y ∷ xs) zero e pass = ground (arith, e, pass)
  count_if_pos P (y ∷ xs) (suc i) e pass = omega (arith, count_if_pos P xs i e pass)

  -- Tests that agree on the elements give the same number.
  pub count_if_ext :
      (P Q : A → Bool) (xs : List A)
      → ((i : ℕ) (x : A) → get_elem? xs i ≡ some x → P x ≡ Q x)
      → count_if P xs ≡ count_if Q xs
  unfolding count_if
  count_if_ext P Q [] h = refl
  count_if_ext P Q (x ∷ xs) h =
      ground (arith, h 0 x refl, count_if_ext P Q xs (λ i y at. h (suc i) y at))

  pub count_if-replicate :
      (P : A → Bool) (n : ℕ) (a : A) → P a ≡ false → count_if P (replicate n a) ≡ 0
  unfolding count_if
  count_if-replicate P zero a e = refl
  count_if-replicate P (suc n) a e = ground (arith, e, count_if-replicate P n a e)
