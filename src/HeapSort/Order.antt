-- ===== src/HeapSort/Order.antt =====
-- The heap order of Project12/heapsort.c, edge by edge, and what an exchange leaves of it.
use linux_project.Base.{
  ℕ, ◌+◌, ◌*◌, ◌≤◌, ◌<◌, ◌≡◌, ◌≢◌, inl, inr, ◌⊎◌, Bool, true, false, Option, ◌||◌, ◌==◌, arith,
  length, Returns,
}
use linux_project.HeapSort.{HeapArray, strtok, above}
use linux_project.HeapSort.Keys.{Le, above_asymm}
use linux_project.HeapSort.Swaps.{
  record_at, swap, record_at-swap, Records, Swaps, length-Swaps, Swaps-Records,
}

-- The edges from a node to its children, without the right ones that `skip` leaves out.
abbrev pub Edge : (ℕ → Bool) → ℕ → ℕ → Type 0
Edge skip p k = (k ≡ p * 2) ⊎ ((skip p ≡ false) × (k ≡ p * 2 + 1))

abbrev pub InOrder : HeapArray → ℕ → ℕ → Type 0
InOrder a p k = Le (record_at a p) (record_at a k)

-- Every edge from the nodes `lo` to `max` is in order.
abbrev pub IsHeap : (ℕ → Bool) → (lo max : ℕ) → HeapArray → Type 0
IsHeap skip lo max a = (p k : ℕ) → lo ≤ p → p ≤ max → Edge skip p k → InOrder a p k

-- Every edge is in order but those from the node `h`, and what stands above `h` is in order with what
-- stands below it.
pub record IsHeapBut (skip : ℕ → Bool) (lo max h : ℕ) (a : HeapArray) : Type 0 where
  pub other : (p k : ℕ) → lo ≤ p → p ≤ max → p ≢ h → Edge skip p k → InOrder a p k
  pub bridge : (p k : ℕ) → lo ≤ p → p < h → h ≤ max → Edge skip p h → Edge skip h k → InOrder a p k

module _ (skip : ℕ → Bool) (lo max h k : ℕ) (a : HeapArray) (one_le : 1 ≤ h) (le : h ≤ max) where
  -- After the exchange with the child `k` only the edges from `k` may be out of order.
  pub swap-IsHeapBut :
      max * 2 + 1 < length a
      → (k ≡ h * 2) ⊎ (k ≡ h * 2 + 1)
      → ((p j : ℕ) → lo ≤ p → p ≤ max → p ≢ h → Edge skip p j → InOrder a p j)
      → ((j : ℕ) → Edge skip h j → j ≢ k → InOrder a k j)
      → ((p : ℕ) → lo ≤ p → p < h → Edge skip p h → InOrder a p k)
      → lo ≤ h
      → above (strtok (record_at a h)) (strtok (record_at a k)) ≡ true
      → IsHeapBut skip lo max k (swap a h k)
  swap-IsHeapBut room child other others bridge lo_le more =
      let at =
        record_at-swap a h k (omega (arith, child, le, room)) (omega (arith, child, le, room)) in
      let turned = above_asymm (strtok (record_at a h)) (strtok (record_at a k)) more in
      record {
        other = λ p j lo_p p_le ne edge.
            rw (at p, at j)
              (ground (arith, child, edge, turned, other p j lo_p p_le, others j, bridge p lo_p));
        bridge = λ p j lo_p p_lt k_le into out.
            rw (at p, at j)
              (ground (arith, child, into, out, other k j (omega (arith, lo_le, child)) k_le));
      }

-- What a call for the node `h` does.
pub record Sifted (skip : ℕ → Bool) (lo max h : ℕ) (a b : HeapArray) : Type 0 where
  pub heap : IsHeap skip lo max b
  pub swaps : Swaps max a b
  pub frame : (j : ℕ) → j ≢ h → j < h * 2 → record_at b j ≡ record_at a j

-- An array of records, with a slot for each node's children.
pub record IsHeld (size max : ℕ) (a : HeapArray) : Type 0 where
  pub room : max * 2 + 1 < length a
  pub records : Records size a

abbrev pub Sifts : ℕ → (ℕ → Bool) → (lo max h : ℕ) → (HeapArray → Option HeapArray) → Type 0
Sifts size skip lo max h go =
    (a : HeapArray)
    → IsHeld size max a
    → IsHeapBut skip lo max h a
    → Returns (Sifted skip lo max h a) (go a)

pub IsHeld-Swaps :
    {size max : ℕ} {a b : HeapArray} → Swaps max a b → IsHeld size max a → IsHeld size max b
IsHeld-Swaps {size} s held = record {
  room = rw (length-Swaps s) held.room;
  records = Swaps-Records size s held.room held.records;
}

abbrev pub skipping : (ℕ → Bool) → ℕ → ℕ → Bool
skipping skip h p = (p == h) || skip p

pub Edge-of_skipping : (skip : ℕ → Bool) (h p k : ℕ) → Edge (skipping skip h) p k → Edge skip p k
Edge-of_skipping skip h p k (inl e) = inl e
Edge-of_skipping skip h p k (inr (e, f)) = inr (ground (arith, e), f)

pub Edge-skipping :
    (skip : ℕ → Bool) (h p k : ℕ) → p ≢ h → Edge skip p k → Edge (skipping skip h) p k
Edge-skipping skip h p k ne (inl e) = inl e
Edge-skipping skip h p k ne (inr (e, f)) = inr (ground (arith, e, ne), f)

pub Edge-at_skipped : (skip : ℕ → Bool) (h k : ℕ) → Edge (skipping skip h) h k → k ≡ h * 2
Edge-at_skipped skip h k (inl e) = e
Edge-at_skipped skip h k (inr (e, f)) = absurd (ground (arith, e))
