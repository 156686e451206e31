-- ===== src/HeapSort/Program.antt =====
-- What `buildHeap` of Project12/heapsort.c makes of a file, with an odd number of records and with an even
-- one.
use mathlib.Core.List.{Perm}
use mathlib.Core.List.Perm
use linux_project.Base.{
  ℕ, zero, suc, ◌+◌, ◌*◌, ◌/◌, ◌≤◌, ◌<◌, ◌≡◌, refl, ◌∙◌, sym, none, List, [], ◌==◌, arith, length,
  set, length-set, Returns, ℕ_discrete, drop, true, false, subst, ltb, strncpy,
}
use linux_project.HeapSort.{HeapArray, store, heapify_down, read_page, read_records, build_heap}
use linux_project.HeapSort.Swaps.{record_at}
use linux_project.HeapSort.Order.{IsHeap, IsHeld}
use linux_project.HeapSort.Phases.{whole, heapify_all}
use linux_project.HeapSort.Rest.{listed, listed_ext, Swaps-Rearranged}
use linux_project.HeapSort.Files.{file_record, HasKey, HasKey-IsRecord, Filled, read_records_lem}

module _ (size : ℕ) (file : List (List ℕ)) (m : ℕ) (a : HeapArray)
    (f : Filled (suc size) file m (m * 2 + 2) a)
    (keys : (k : ℕ) → 1 ≤ k → k ≤ m * 2 + 1 → HasKey (file_record (suc size) file k)) where
  filled-IsHeld : IsHeld (suc size) m a
  filled-IsHeld = record {
    room = omega (arith, f.slots);
    records = λ k one_le lt.
        rw (f.filled k one_le (omega (arith, f.slots)))
          (HasKey-IsRecord (suc size) _ (keys k one_le (omega (arith, f.slots))));
  }

  -- A heap of the file's records.
  record Built (b : HeapArray) : Type 1 where
    heap : IsHeap whole 1 m b
    perm :
        Perm (listed (m * 2 + 1) (record_at b)) (listed (m * 2 + 1) (file_record (suc size) file))

  built_lem : Returns Built (heapify_down (suc size) m (m * 2 + 1) m a)
  built_lem =
      let (b, run, heaped) = heapify_all (suc size) (m * 2 + 1) m (omega arith) a filled-IsHeld in
      let rest =
        Swaps-Rearranged (omega arith) heaped.swaps filled-IsHeld.room (omega (arith, f.slots))
          (λ e. absurd (omega (arith, e))) in
      (
        b,
        run,
        record {
          heap = heaped.heap;
          perm = Perm.trans rest.perm (
              subst (λ rs. Perm rs (listed (m * 2 + 1) (file_record (suc size) file)))
                (sym (
                  listed_ext (m * 2 + 1) (record_at a) (file_record (suc size) file)
                    (λ k one_le le. f.filled k one_le (omega arith))))
                Perm.rfl);
        },
      )

-- A file with an odd number of records, each with a first field that has a mark or a NUL behind it, and
-- an array with slots for all of them, slot 0 included (`main` makes it one slot shorter): `buildHeap`
-- ends, and the array then holds the records of the file, each as often as it is there, and none of
-- them is above one of its children in the order of `strcmp` on the first field.
pub build_heap-IsHeap :
    (size : ℕ) (file : List (List ℕ)) (pagenum m : ℕ) (a : HeapArray)
    → length a ≡ m * 2 + 2
    → m + 1 ≤ pagenum
    → m + 1 < length file
    → ((k : ℕ) → 1 ≤ k → k ≤ m * 2 + 1 → HasKey (file_record (suc size) file k))
    → Returns
        (λ b.
          IsHeap whole 1 m b
          × Perm
              (listed (m * 2 + 1) (record_at b))
              (listed (m * 2 + 1) (file_record (suc size) file)))
        (build_heap (suc size) file pagenum (m * 2 + 1) [] a)
unfolding build_heap
build_heap-IsHeap size file pagenum m a slots enough pages keys =
    let ((a', last), run, (at, f)) =
      read_records_lem (suc size) file m pagenum 1 1 [] a refl (omega arith) (omega arith)
        (omega arith) pages
        (record { slots = slots; filled = λ k one_le lt. absurd (omega arith) }) in
    let half : last / 2 ≡ m = omega (arith, at) in
    let (b, run', built) = built_lem size file m a' f keys in
    (b, rw (run, half) run', (built.heap, built.perm))

-- While records are read two at a time, the first of a page has an odd number.
read_records_overrun :
    (size : ℕ) (file : List (List ℕ)) (m left i count : ℕ) (pagebuf : List ℕ) (a : HeapArray)
    → count + 1 ≡ i * 2
    → 1 ≤ i
    → i ≤ m + 1
    → m + 1 < i + left
    → length a ≡ m * 2 + 1
    → read_records size file (m * 2) left i count pagebuf a ≡ none
unfolding read_records store
read_records_overrun size file m zero i count pagebuf a at one_le le enough slots =
    absurd (omega arith)
read_records_overrun size file m (suc left) i count pagebuf a at one_le le enough slots =
    let page = read_page file pagebuf i in
    elim (ℕ_discrete i (m + 1)) [
      | yes behind ↦
          let full : ltb count (length a) ≡ false = ground (arith, behind, at, slots) in
          rw full refl
      | no other ↦
          let go : (m * 2 == count) ≡ false = ground (arith, at) in
          let b = set a count (strncpy size (strncpy size page)) in
          let same : length b ≡ length a = length-set a count (strncpy size (strncpy size page)) in
          let room : ltb count (length a) ≡ true = ground (arith, other, at, slots) in
          let room' : ltb (count + 1) (length b) ≡ true = ground (arith, other, at, slots, same) in
          let c = set b (count + 1) (strncpy size (strncpy size (drop size page))) in
          rw (room, go, room')
            (read_records_overrun size file m left (i + 1) (count + 2) page c (omega arith)
              (omega arith) (omega (arith, other)) (omega arith)
              (length-set b (count + 1) _ ∙ same ∙ slots))
    ]

-- An even number of records, in an array with slots for all of them, slot 0 included, and as many pages
-- to read as the header of person.c counts, its own among them: the loop that reads the records goes on
-- to the page behind the last record, and writes to a slot that the array does not have.
pub read_records_even :
    (size : ℕ) (file : List (List ℕ)) (m : ℕ) (pagebuf : List ℕ) (a : HeapArray)
    → length a ≡ m * 2 + 1
    → read_records size file (m * 2) (m + 1) 1 1 pagebuf a ≡ none
read_records_even size file m pagebuf a slots =
    read_records_overrun size file m (m + 1) 1 1 pagebuf a refl (omega arith) (omega arith)
      (omega arith) slots
