-- ===== src/HeapSort/Swaps.antt =====
-- The exchanges of `heapify` in Project12/heapsort.c, and what every sequence of them keeps.
use linux_project.Base.{
  ℕ, zero, suc, ◌+◌, ◌*◌, ◌/◌, ◌≤◌, ◌<◌, ◌≡◌, refl, ◌∙◌, true, some, [], ◌∷◌, ◌==◌, arith,
  if◌then◌else◌, length, get_elem?, get_or, set, length-set, strncpy,
}
use linux_project.HeapSort.{Record, HeapArray, strtok, above, key_at, store, exchange}
use linux_project.HeapSort.Keys.{IsRecord}

-- The record of a slot.
abbrev pub record_at : HeapArray → ℕ → Record
record_at a i = get_or a i []

abbrev pub swap : HeapArray → ℕ → ℕ → HeapArray
swap a i k = set (set a k (record_at a i)) i (record_at a k)

pub get_elem?-record_at :
    (a : HeapArray) (i : ℕ) → i < length a → get_elem? a i ≡ some (record_at a i)
get_elem?-record_at [] i lt = absurd (omega arith)
get_elem?-record_at (x ∷ a) zero lt = refl
get_elem?-record_at (x ∷ a) (suc i) lt = get_elem?-record_at a i (omega arith)

pub record_at-set :
    (a : HeapArray) (i j : ℕ) (v : Record)
    → i < length a
    → record_at (set a i v) j ≡ (if i == j then v else record_at a j)
record_at-set [] i j v h = absurd (omega arith)
record_at-set (x ∷ a) zero zero v h = refl
record_at-set (x ∷ a) (suc i) (suc j) v h = ground (arith, record_at-set a i j v)
record_at-set (x ∷ a) i j v h = ground arith

pub length-swap : (a : HeapArray) (i k : ℕ) → length (swap a i k) ≡ length a
length-swap a i k =
    length-set (set a k (record_at a i)) i (record_at a k) ∙ length-set a k (record_at a i)

module _ (a : HeapArray) (i k : ℕ) (hi : i < length a) (hk : k < length a) where
  pub record_at-swap :
      (j : ℕ)
      → record_at (swap a i k) j
        ≡ (if i == j then record_at a k else if k == j then record_at a i else record_at a j)
  record_at-swap j = rw (
    record_at-set (set a k (record_at a i)) i j (record_at a k) (rw length-set hi),
    record_at-set a k j (record_at a i) hk,
  )

module _ (size : ℕ) where
  -- Every slot but slot 0 holds a record.
  abbrev pub Records : HeapArray → Type 0
  Records a = (i : ℕ) → 1 ≤ i → i < length a → IsRecord size (record_at a i)

  Records-swap :
      (a : HeapArray) (i k : ℕ)
      → Records a
      → 1 ≤ i
      → 1 ≤ k
      → i < length a
      → k < length a
      → Records (swap a i k)
  Records-swap a i k h one_i one_k hi hk j one_j lt =
      let j_lt : j < length a = rw length-swap at lt in
      rw (record_at-swap a i k hi hk j) (ground (arith, h i one_i hi, h k one_k hk, h j one_j j_lt))

  pub key_at_lem :
      (a : HeapArray) (i : ℕ)
      → Records a
      → 1 ≤ i
      → i < length a
      → key_at size a i ≡ some (strtok (record_at a i))
  unfolding key_at
  key_at_lem a i h one_le lt = rw (get_elem?-record_at a i lt) (h i one_le lt).keyed

  pub store_lem :
      (a : HeapArray) (i : ℕ) (r : Record)
      → i < length a
      → strncpy size r ≡ r
      → store size a i r ≡ some (set a i r)
  unfolding store
  store_lem a i r lt same = ground (arith, lt, same)

  pub exchange_lem :
      (a : HeapArray) (i k : ℕ)
      → Records a
      → 1 ≤ i
      → 1 ≤ k
      → i < length a
      → k < length a
      → exchange size a i k ≡ some (swap a i k)
  unfolding exchange
  exchange_lem a i k h one_i one_k hi hk =
      let ri = h i one_i hi in
      let rk = h k one_k hk in
      rw (
        get_elem?-record_at a k hk,
        get_elem?-record_at a i hi,
        rk.copied,
        store_lem a k (record_at a i) hk ri.copied,
        store_lem (set a k (record_at a i)) i (record_at a k) (rw length-set hi) rk.copied,
      )

-- The exchanges that `heapify` makes: a node `i` with its child `k`, which is `i * 2` or `i * 2 + 1`, and
-- whose key is smaller.
pub data Swaps (max : ℕ) : HeapArray → HeapArray → Type 0 where
  done : (a : HeapArray) → Swaps max a a
  exchanged :
      (a b : HeapArray) (i k : ℕ)
      → 1 ≤ i
      → i ≤ max
      → k / 2 ≡ i
      → k ≤ max * 2 + 1
      → above (strtok (record_at a i)) (strtok (record_at a k)) ≡ true
      → Swaps max (swap a i k) b
      → Swaps max a b

pub Swaps-trans : {max : ℕ} {a b c : HeapArray} → Swaps max a b → Swaps max b c → Swaps max a c
Swaps-trans (Swaps.done a) t = t
Swaps-trans (Swaps.exchanged a b i k p q r s u rest) t =
    Swaps.exchanged a _ i k p q r s u (Swaps-trans rest t)

pub length-Swaps : {max : ℕ} {a b : HeapArray} → Swaps max a b → length b ≡ length a
length-Swaps (Swaps.done a) = refl
length-Swaps (Swaps.exchanged a b i k p q r s u rest) = length-Swaps rest ∙ length-swap a i k

module _ {max : ℕ} where
  pub Swaps-Records :
      (size : ℕ) {a b : HeapArray}
      → Swaps max a b
      → max * 2 + 1 < length a
      → Records size a
      → Records size b
  Swaps-Records size (Swaps.done a) lt h = h
  Swaps-Records size (Swaps.exchanged a b i k p q r s u rest) lt h =
      Swaps-Records size rest (rw length-swap lt)
        (Records-swap size a i k h p (omega arith) (omega arith) (omega arith))
