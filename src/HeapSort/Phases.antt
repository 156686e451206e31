-- ===== src/HeapSort/Phases.antt =====
-- `heapify` and the loops of Project12/heapsort.c that call it, from the last parent down to the root.
use linux_project.Base.{
  ℕ, zero, suc, ◌+◌, ◌*◌, ◌/◌, ◌≤◌, ◌<◌, ◌≡◌, refl, Bool, true, false, ◌||◌, ltb, arith, Returns,
  Returns-bind, Returns-map, subst, dec_le,
}
use linux_project.HeapSort.{HeapArray, strtok, heapify, heapify_down}
use linux_project.HeapSort.Keys.{above_irrefl, not_above_trans}
use linux_project.HeapSort.Swaps.{record_at, Swaps, Swaps-trans}
use linux_project.HeapSort.Order.{InOrder, IsHeap, IsHeld, Sifts, IsHeld-Swaps, skipping}
use linux_project.HeapSort.Sift.{sift_node}

module _ (size recordnum max lo : ℕ) (max_le : max ≤ recordnum) where
  -- With fuel for the levels under the node `heapify` gives a result, and with it the heap is in order.
  pub heapify_lem :
      (fuel h : ℕ) (skip : ℕ → Bool)
      → 1 ≤ h
      → lo ≤ h
      → 1 ≤ fuel
      → suc max < h + fuel
      → ((p : ℕ) → h ≤ p → skip p ≡ false)
      → Sifts size skip lo max h (heapify size fuel h recordnum max)
  unfolding heapify
  heapify_lem zero h skip one_le lo_le more enough full a held but = absurd (omega arith)
  heapify_lem (suc fuel) h skip one_le lo_le more enough full a held but = elim (dec_le h max) [
    | yes le ↦
        let left =
          heapify_lem fuel (h * 2) (skipping skip h) (omega arith) (omega arith) (omega arith)
            (omega arith) (λ p h_p. ground (arith, full p)) in
        let right =
          heapify_lem fuel (h * 2 + 1) skip (omega arith) (omega arith) (omega arith) (omega arith)
            (λ p h_p. full p (omega arith)) in
        let guard : (ltb h 1 || ltb recordnum h || ltb max h) ≡ false =
          ground (arith, le, max_le) in
        rw guard (
          sift_node size skip lo max h one_le le lo_le (full h (omega arith)) _ _ left right a held
            but)
    | no out ↦
        let guard : (ltb h 1 || ltb recordnum h || ltb max h) ≡ true = ground (arith, out) in
        rw guard (
          a,
          refl,
          record {
            heap = λ p k lo_p p_le e. but.other p k lo_p p_le (omega (arith, out)) e;
            swaps = Swaps.done a;
            frame = λ j ne lt. refl;
          },
        )
  ]

abbrev pub whole : ℕ → Bool
whole p = false

-- What the loop over the parents does to an array.
pub record Heaped (max : ℕ) (a b : HeapArray) : Type 0 where
  pub heap : IsHeap whole 1 max b
  pub swaps : Swaps max a b

module _ (size recordnum max : ℕ) (max_le : max ≤ recordnum) where
  pub heapify_down_lem :
      (i : ℕ) (a : HeapArray)
      → i ≤ max
      → IsHeld size max a
      → IsHeap whole (suc i) max a
      → Returns (Heaped max a) (heapify_down size i recordnum max a)
  unfolding heapify_down
  heapify_down_lem zero a le held heap = (a, refl, record { heap = heap; swaps = Swaps.done a })
  heapify_down_lem (suc i) a le held heap =
      Returns-bind
        (heapify_lem size recordnum max (suc i) max_le (suc max) (suc i) whole (omega arith)
          (omega arith) (omega arith) (omega arith) (λ p h_p. refl) a held
          (record {
            other = λ p k lo_p p_le ne e. heap p k (omega (arith, ne)) p_le e;
            bridge = λ p k lo_p p_lt h_le into out. absurd (omega arith);
          }))
        λ b s.
          Returns-map (heapify_down_lem i b (omega arith) (IsHeld-Swaps s.swaps held) s.heap)
            λ c t. record { heap = t.heap; swaps = Swaps-trans s.swaps t.swaps }

  -- An array with a slot for each child, whose slots hold records with a key, and no more parents than
  -- records: the loop from the last parent to the root ends, every parent is then not above its children,
  -- and all that happened are exchanges of a parent with a child under it.
  pub heapify_all :
      (a : HeapArray)
      → IsHeld size max a
      → Returns (Heaped max a) (heapify_down size max recordnum max a)
  heapify_all a held =
      heapify_down_lem max a (omega arith) held (λ p k lo_p p_le e. absurd (omega arith))

-- The root of a heap is not above any record under it.
root_least_below :
    (fuel max k : ℕ) (a : HeapArray)
    → IsHeap whole 1 max a
    → k < fuel
    → 1 ≤ k
    → k ≤ max * 2 + 1
    → InOrder a 1 k
root_least_below zero max k a heap lt one_le le = absurd (omega arith)
root_least_below (suc fuel) max k a heap lt one_le le = elim (dec_le k 1) [
  | yes root ↦ subst (λ j. InOrder a 1 j) (omega arith) (above_irrefl (strtok (record_at a 1)))
  | no other ↦
      not_above_trans _ _ _
        (root_least_below fuel max (k / 2) a heap (omega arith) (omega arith) (omega arith))
        (heap (k / 2) k (omega arith) (omega arith) (ground arith))
]

pub root_least :
    (max k : ℕ) (a : HeapArray) → IsHeap whole 1 max a → 1 ≤ k → k ≤ max * 2 + 1 → InOrder a 1 k
root_least max k a heap one_le le = root_least_below (suc k) max k a heap (omega arith) one_le le
