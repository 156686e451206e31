-- ===== src/HeapSort/Rest.antt =====
-- What the exchanges of Project12/heapsort.c leave in the slots of the records, and outside them.
use mathlib.Core.List.{Perm}
use mathlib.Core.List.Perm
use linux_project.Base.{
  ℕ, zero, suc, ◌+◌, ◌*◌, ◌≤◌, ◌<◌, ◌≡◌, refl, ap, List, [], ◌∷◌, arith, length, set, length-set,
  ℕ_discrete,
}
use linux_project.HeapSort.{Record, HeapArray}
use linux_project.HeapSort.Keys.{Le}
use linux_project.HeapSort.Swaps.{
  record_at, swap, record_at-set, record_at-swap, length-swap, Swaps,
}

-- The records 1 to `m`, the last one first.
abbrev pub listed : ℕ → (ℕ → Record) → List Record
listed zero f = []
listed (suc m) f = f (suc m) ∷ listed m f

pub listed_ext :
    (m : ℕ) (f g : ℕ → Record) → ((j : ℕ) → 1 ≤ j → j ≤ m → f j ≡ g j) → listed m f ≡ listed m g
listed_ext zero f g same = refl
listed_ext (suc m) f g same =
    rw (same (suc m) (omega arith) (omega arith))
      (ap (λ rs. g (suc m) ∷ rs) (listed_ext m f g (λ j one_le le. same j one_le (omega arith))))

-- Behind the slots that are listed a write is not seen.
pub listed-set_behind :
    (m : ℕ) (a : HeapArray) (i : ℕ) (v : Record)
    → m < i
    → i < length a
    → listed m (record_at (set a i v)) ≡ listed m (record_at a)
listed-set_behind m a i v lt room =
    listed_ext m (record_at (set a i v)) (record_at a)
      (λ j one_le le. ground (arith, record_at-set a i j v room))

-- A write trades the old record for the new one.
pub listed-set :
    (m : ℕ) (a : HeapArray) (i : ℕ) (v : Record)
    → 1 ≤ i
    → i ≤ m
    → i < length a
    → Perm (record_at a i ∷ listed m (record_at (set a i v))) (v ∷ listed m (record_at a))
listed-set zero a i v one_le le lt = absurd (omega arith)
listed-set (suc m) a i v one_le le lt = elim (ℕ_discrete i (suc m)) [
  | yes here ↦
      let new : record_at (set a i v) (suc m) ≡ v =
        ground (arith, here, record_at-set a i (suc m) v lt) in
      rw (listed-set_behind m a i v (omega (arith, here)) lt, new, here)
        (Perm.swap v (record_at a (suc m)) (listed m (record_at a)))
  | no other ↦
      let kept : record_at (set a i v) (suc m) ≡ record_at a (suc m) =
        ground (arith, other, record_at-set a i (suc m) v lt) in
      let x = record_at a (suc m) in
      let rest = Perm.cons x (listed-set m a i v one_le (omega (arith, other)) lt) in
      rw kept (Perm.trans (Perm.swap x _ _) (Perm.trans rest (Perm.swap v x _)))
]

pub listed-swap :
    (m : ℕ) (a : HeapArray) (i k : ℕ)
    → 1 ≤ i
    → i ≤ m
    → 1 ≤ k
    → k ≤ m
    → i < length a
    → k < length a
    → Perm (listed m (record_at (swap a i k))) (listed m (record_at a))
listed-swap m a i k one_i i_le one_k k_le hi hk =
    let b = set a k (record_at a i) in
    let kept : record_at b i ≡ record_at a i =
      ground (arith, record_at-set a k i (record_at a i) hk) in
    let second = rw kept at (listed-set m b i (record_at a k) one_i i_le (rw length-set hi)) in
    Perm.cons_inv (Perm.trans second (listed-set m a k (record_at a i) one_k k_le hk))

-- No record of the slots 1 to `m` is above the record of the slot behind them.
abbrev pub Topped : ℕ → HeapArray → Type 0
Topped m a = (j : ℕ) → 1 ≤ j → j ≤ m → Le (record_at a j) (record_at a (suc m))

-- The slots 1 to `m` hold the same records in another order.
pub record Rearranged (m : ℕ) (a b : HeapArray) : Type 1 where
  pub perm : Perm (listed m (record_at b)) (listed m (record_at a))
  pub every :
      (P : Record → Type 0)
      → ((j : ℕ) → 1 ≤ j → j ≤ m → P (record_at a j))
      → (j : ℕ) → 1 ≤ j
      → j ≤ m
      → P (record_at b j)

-- The last child may be the slot behind the records; then no exchange reaches it.
module _ {max m : ℕ} (le : max * 2 ≤ m) where
  pub Swaps-Rearranged :
      {a b : HeapArray}
      → Swaps max a b
      → max * 2 + 1 < length a
      → m < length a
      → (m ≡ max * 2 → Topped m a)
      → Rearranged m a b
  Swaps-Rearranged (Swaps.done a) room lt t = record { perm = Perm.rfl; every = λ P h. h }
  Swaps-Rearranged (Swaps.exchanged a b i k p q r s u rest) room lt t =
      let i_le : i ≤ m = omega (arith, le) in
      let k_le : k ≤ m = elim (ℕ_discrete m (max * 2)) [
        | yes e ↦ ground (arith, t e i p i_le, u, s, e)
        | no ne ↦ omega (arith, s, le, ne)
      ] in
      let at = record_at-swap a i k (omega arith) (omega arith) in
      let topped : m ≡ max * 2 → Topped m (swap a i k) = (λ e j one_le j_le.
        rw (at j, at (suc m))
          (ground
            (arith, i_le, k_le, t e i p i_le, t e k (omega arith) k_le, t e j one_le j_le))) in
      let later = Swaps-Rearranged rest (rw length-swap room) (rw length-swap lt) topped in
      record {
        perm =
            Perm.trans later.perm
              (listed-swap m a i k p i_le (omega arith) k_le (omega arith) (omega arith));
        every = λ P h. later.every P (λ j one_le j_le.
            rw (at j) (ground (arith, h i p i_le, h k (omega arith) k_le, h j one_le j_le)));
      }
