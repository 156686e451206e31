-- ===== src/HeapSort/Files.antt =====
-- How Project12/heapsort.c reads the pages of a record file into the array.
use linux_project.Base.{
  ℕ, zero, suc, ◌+◌, ◌*◌, ◌/◌, ◌%◌, ◌≤◌, ◌<◌, ◌≡◌, refl, ◌∙◌, sym, some, List, [], ◌∷◌, ◌==◌, arith,
  if◌then◌else◌, length, set, length-set, Returns, ℕ_discrete, drop, true, false, get_or, subst,
  strncpy, strncpy_twice,
}
use linux_project.HeapSort.{
  Record, HeapArray, closed, strtok, key_of, store, read_page, read_records,
}
use linux_project.HeapSort.Keys.{IsRecord}
use linux_project.HeapSort.Swaps.{record_at, record_at-set}

-- Record `k` of a file whose pages hold two records each, the first of them record 1.
abbrev pub file_record : ℕ → List (List ℕ) → ℕ → Record
file_record size file k =
    let page = get_or file ((k + 1) / 2) [] in
    strncpy size (if k % 2 == 1 then page else drop size page)

-- The record has a first field, with a mark or a NUL behind it.
abbrev pub HasKey : Record → Type 0
HasKey r = (closed r ≡ true) × (c : ℕ) × (s : List ℕ) × (strtok r ≡ c ∷ s)

pub HasKey-IsRecord :
    (size : ℕ) (s : List ℕ) → HasKey (strncpy size s) → IsRecord size (strncpy size s)
unfolding key_of
HasKey-IsRecord size s (end, c, t, e) =
    let copied = strncpy_twice size s in
    record {
      copied = copied;
      keyed =
          subst (λ q. key_of size (strncpy size s) ≡ some q) (sym e)
            (rw (copied, end, e, key_of) refl);
    }

pub store_any :
    (size : ℕ) (a : HeapArray) (i : ℕ) (r : Record)
    → i < length a
    → store size a i r ≡ some (set a i (strncpy size r))
unfolding store
store_any size a i r lt = ground (arith, lt)

read_page_in :
    (file : List (List ℕ)) (pagebuf : List ℕ) (i : ℕ)
    → i < length file
    → read_page file pagebuf i ≡ get_or file i []
unfolding read_page
read_page_in [] pagebuf i lt = absurd (omega arith)
read_page_in (p ∷ file) pagebuf zero lt = refl
read_page_in (p ∷ file) pagebuf (suc i) lt = read_page_in file pagebuf i (omega arith)

module _ (size : ℕ) (file : List (List ℕ)) (m : ℕ) where
  -- The slots that are filled so far, of an array with a slot for each record.
  pub record Filled (count : ℕ) (a : HeapArray) : Type 0 where
    pub slots : length a ≡ m * 2 + 2
    pub filled : (k : ℕ) → 1 ≤ k → k < count → record_at a k ≡ file_record size file k

  Filled-set :
      (k : ℕ) (a : HeapArray)
      → Filled k a
      → k < m * 2 + 2
      → Filled (suc k) (set a k (file_record size file k))
  Filled-set k a f lt = record {
    slots = length-set a k (file_record size file k) ∙ f.slots;
    filled = λ j one_le j_lt. ground (
      arith,
      record_at-set a k j (file_record size file k) (omega (arith, f.slots)),
      f.filled j one_le,
      f.slots,
    );
  }

  store_half :
      (a : HeapArray) (k : ℕ) (half : List ℕ)
      → k < length a
      → strncpy size half ≡ file_record size file k
      → store size a k (strncpy size half) ≡ some (set a k (file_record size file k))
  store_half a k half lt same =
      subst (λ r. store size a k (strncpy size half) ≡ some (set a k r)) same
        (subst (λ r. store size a k (strncpy size half) ≡ some (set a k r))
          (strncpy_twice size half) (store_any size a k (strncpy size half) lt))

  pub read_records_lem :
      (left i count : ℕ) (pagebuf : List ℕ) (a : HeapArray)
      → count + 1 ≡ i * 2
      → 1 ≤ i
      → i ≤ m + 1
      → m + 1 < i + left
      → m + 1 < length file
      → Filled count a
      → Returns
          (λ (b, last). (last ≡ m * 2 + 1) × Filled (m * 2 + 2) b)
          (read_records size file (m * 2 + 1) left i count pagebuf a)
  unfolding read_records
  read_records_lem zero i count pagebuf a at one_le le enough pages f = absurd (omega arith)
  read_records_lem (suc left) i count pagebuf a at one_le le enough pages f =
      let page = read_page file pagebuf i in
      let same = read_page_in file pagebuf i (omega arith) in
      let half : (count + 1) / 2 ≡ i = omega arith in
      let half' : (count + 1 + 1) / 2 ≡ i = omega arith in
      let odd : (count % 2 == 1) ≡ true = ground arith in
      let even : ((count + 1) % 2 == 1) ≡ false = ground arith in
      let first = store_half a count page (omega (arith, f.slots)) (rw (same, half, odd) refl) in
      let f1 = Filled-set count a f (omega arith) in
      elim (ℕ_discrete (m * 2 + 1) count) [
        | yes here ↦
            let stop : (m * 2 + 1 == count) ≡ true = ground (arith, here) in
            (
              (set a count (file_record size file count), count),
              rw (first, stop) refl,
              (
                sym here,
                subst (λ c. Filled c (set a count (file_record size file count)))
                    (omega (arith, here)) f1,
              ),
            )
        | no other ↦
            let go : (m * 2 + 1 == count) ≡ false = ground (arith, other) in
            let b = set a count (file_record size file count) in
            let second =
              store_half b (count + 1) (drop size page) (omega (arith, f1.slots, other))
                (rw (same, half', even) refl) in
            let f2 =
              Filled-set (count + 1) b (subst (λ c. Filled c b) (omega arith) f1)
                (omega (arith, other)) in
            let (c, run, done) =
              read_records_lem left (i + 1) (count + 2) page
                (set b (count + 1) (file_record size file (count + 1))) (omega arith) (omega arith)
                (omega (arith, other)) (omega arith) pages
                (subst (λ d. Filled d (set b (count + 1) (file_record size file (count + 1))))
                  (omega arith) f2) in
            (c, rw (first, go, second) run, done)
      ]
