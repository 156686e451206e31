-- ===== src/HeapSort/Sift.antt =====
-- `heapify` of Project12/heapsort.c: it puts the heap in order again below one node.
use linux_project.Base.{
  ℕ, ◌+◌, ◌*◌, ◌≤◌, ◌<◌, ◌≡◌, ◌≢◌, refl, ◌∙◌, sym, ap, inl, inr, ◌⊎◌, Bool, true, false, Option,
  some, List, arith, if◌then◌else◌, length, Bool-cases, ◌>>=◌, Returns,
}
use linux_project.HeapSort.{HeapArray, strtok, above, key_at, exchange, go_left}
use linux_project.HeapSort.Keys.{above_asymm, not_above_trans}
use linux_project.HeapSort.Swaps.{
  record_at, swap, record_at-swap, length-swap, key_at_lem, exchange_lem, Swaps, Swaps-trans,
}
use linux_project.HeapSort.Order.{
  Edge, InOrder, IsHeapBut, swap-IsHeapBut, Sifted, IsHeld, Sifts, IsHeld-Swaps, skipping,
  Edge-of_skipping, Edge-skipping, Edge-at_skipped,
}

-- The left child is in order with its parent, and only the right edge may be out of order.
record IsHalf (skip : ℕ → Bool) (lo max h : ℕ) (a : HeapArray) : Type 0 where
  other : (p k : ℕ) → lo ≤ p → p ≤ max → p ≢ h → Edge skip p k → InOrder a p k
  left : InOrder a h (h * 2)
  bridge : (p : ℕ) → lo ≤ p → p < h → Edge skip p h → InOrder a p (h * 2 + 1)

record Lefted (skip : ℕ → Bool) (lo max h : ℕ) (a b : HeapArray) (par : List ℕ) : Type 0 where
  half : IsHalf skip lo max h b
  swaps : Swaps max a b
  frame : (j : ℕ) → j ≢ h → j < h * 2 → record_at b j ≡ record_at a j
  key : par ≡ strtok (record_at b h)

module _ (size : ℕ) (skip : ℕ → Bool) (lo max h : ℕ) (one_le : 1 ≤ h) (le : h ≤ max)
    (lo_le : lo ≤ h) (full : skip h ≡ false) where
  one_swap :
      (a : HeapArray) (k : ℕ)
      → (k ≡ h * 2) ⊎ (k ≡ h * 2 + 1)
      → above (strtok (record_at a h)) (strtok (record_at a k)) ≡ true
      → Swaps max a (swap a h k)
  one_swap a k child more =
      Swaps.exchanged a (swap a h k) h k one_le le (omega (arith, child)) (omega (arith, child, le))
        more (Swaps.done (swap a h k))

  right_lem :
      (go : HeapArray → Option HeapArray) (a : HeapArray)
      → Sifts size skip lo max (h * 2 + 1) go
      → IsHeld size max a
      → IsHalf skip lo max h a
      → Returns (Sifted skip lo max h a) (
          if above (strtok (record_at a h)) (strtok (record_at a (h * 2 + 1)))
          then exchange size a h (h * 2 + 1) >>= go
          else some a)
  right_lem go a sifts held half =
      elim (Bool-cases (above (strtok (record_at a h)) (strtok (record_at a (h * 2 + 1))))) [
        | inl more ↦
            let s = one_swap a (h * 2 + 1) (inr refl) more in
            let turned =
              above_asymm (strtok (record_at a h)) (strtok (record_at a (h * 2 + 1))) more in
            let below = not_above_trans _ _ _ turned half.left in
            let but =
              swap-IsHeapBut skip lo max h (h * 2 + 1) a one_le le held.room (inr refl) half.other
                (λ j e ne. ground (arith, e, ne, below)) half.bridge lo_le more in
            let (b, same, sifted) = sifts (swap a h (h * 2 + 1)) (IsHeld-Swaps s held) but in
            let run =
              exchange_lem size a h (h * 2 + 1) held.records one_le (omega arith)
                (omega (arith, le, held.room)) (omega (arith, le, held.room)) in
            rw more (
              b,
              rw (run, same),
              record {
                heap = sifted.heap;
                swaps = Swaps-trans s sifted.swaps;
                frame = λ j ne lt. ground (
                  arith,
                  one_le,
                  sifted.frame j,
                  record_at-swap a h (h * 2 + 1) (omega (arith, le, held.room))
                      (omega (arith, le, held.room)) j,
                );
              },
            )
        | inr less ↦ rw less (
          a,
          refl,
          record {
            heap = λ p k lo_p p_le e. ground (arith, e, less, half.left, half.other p k lo_p p_le);
            swaps = Swaps.done a;
            frame = λ j ne lt. refl;
          },
        )
      ]

  left_lem :
      (go : HeapArray → Option HeapArray) (a : HeapArray)
      → Sifts size (skipping skip h) lo max (h * 2) go
      → IsHeld size max a
      → IsHeapBut skip lo max h a
      → Returns
          (λ (b, par). Lefted skip lo max h a b par)
          (if above (strtok (record_at a h)) (strtok (record_at a (h * 2)))
            then go_left size go a h
            else some (a, strtok (record_at a h)))
  unfolding go_left
  left_lem go a sifts held but =
      elim (Bool-cases (above (strtok (record_at a h)) (strtok (record_at a (h * 2))))) [
        | inl more ↦
            let hi : h < length a = omega (arith, le, held.room) in
            let hk : h * 2 < length a = omega (arith, le, held.room) in
            let s = one_swap a (h * 2) (inl refl) more in
            let at = record_at-swap a h (h * 2) hi hk in
            let run = exchange_lem size a h (h * 2) held.records one_le (omega arith) hi hk in
            let keyed =
              key_at_lem size (swap a h (h * 2)) h (IsHeld-Swaps s held).records one_le
                (rw length-swap hi) in
            let (b, same, sifted) = sifts (swap a h (h * 2)) (IsHeld-Swaps s held) (
              swap-IsHeapBut (skipping skip h) lo max h (h * 2) a one_le le held.room (inl refl)
                (λ p j lo_p p_le ne e. but.other p j lo_p p_le ne (Edge-of_skipping skip h p j e))
                (λ j e ne. absurd (ne (Edge-at_skipped skip h j e)))
                (λ p lo_p p_lt e.
                  but.bridge p (h * 2) lo_p p_lt le (Edge-of_skipping skip h p h e) (inl refl))
                lo_le more) in
            let frame : (j : ℕ)
                → j ≢ h
                → j ≢ h * 2
                → j < h * 2 + 2
                → record_at b j ≡ record_at a j =
              (λ j ne ne' lt. ground (arith, one_le, sifted.frame j, at j)) in
            rw more (
              (b, strtok (record_at (swap a h (h * 2)) h)),
              rw (run, keyed, same),
              record {
                half = record {
                  other = λ p k lo_p p_le ne e.
                      sifted.heap p k lo_p p_le (Edge-skipping skip h p k ne e);
                  left = sifted.heap h (h * 2) lo_le le (inl refl);
                  bridge = λ p lo_p p_lt e.
                      rw
                        (
                          frame p (omega arith) (omega arith) (omega arith),
                          frame (h * 2 + 1) (omega arith) (omega arith) (omega arith),
                        )
                        (but.bridge p (h * 2 + 1) lo_p p_lt le e (inr (full, refl)));
                };
                swaps = Swaps-trans s sifted.swaps;
                frame = λ j ne lt. frame j ne (omega arith) (omega arith);
                key = ap strtok (sym (sifted.frame h (omega arith) (omega arith)));
              },
            )
        | inr less ↦ rw less (
          (a, strtok (record_at a h)),
          refl,
          record {
            half = record {
              other = but.other;
              left = less;
              bridge = λ p lo_p p_lt e. but.bridge p (h * 2 + 1) lo_p p_lt le e (inr (full, refl));
            };
            swaps = Swaps.done a;
            frame = λ j ne lt. refl;
            key = refl;
          },
        )
      ]

-- The call for a node at or under the last parent.
pub sift_node :
    (size : ℕ) (skip : ℕ → Bool) (lo max h : ℕ)
    → 1 ≤ h
    → h ≤ max
    → lo ≤ h
    → skip h ≡ false
    → (left right : HeapArray → Option HeapArray) → Sifts size (skipping skip h) lo max (h * 2) left
    → Sifts size skip lo max (h * 2 + 1) right
    → Sifts size skip lo max h (λ a. do
      par ← key_at size a h
      b1 ← key_at size a (h * 2)
      (a', par') ← if above par b1 then go_left size left a h else some (a, par)
      b2 ← key_at size a' (h * 2 + 1)
      if above par' b2 then exchange size a' h (h * 2 + 1) >>= right else some a')
sift_node size skip lo max h one_le le lo_le full left right lefts rights a held but =
    let ((a', par), first, d) =
      left_lem size skip lo max h one_le le lo_le full left a lefts held but in
    let held' = IsHeld-Swaps d.swaps held in
    let (b, second, r) =
      right_lem size skip lo max h one_le le lo_le full right a' rights held' d.half in
    (
      b,
      rw
          (
            key_at_lem size a h held.records one_le (omega (arith, le, held.room)),
            key_at_lem size a (h * 2) held.records (omega arith) (omega (arith, le, held.room)),
            first,
            key_at_lem size a' (h * 2 + 1) held'.records (omega arith)
                (omega (arith, le, held'.room)),
            d.key,
          )
          second,
      record {
        heap = r.heap;
        swaps = Swaps-trans d.swaps r.swaps;
        frame = λ j ne lt. r.frame j ne lt ∙ d.frame j ne lt;
      },
    )
