-- ===== src/HeapSort/Tests.antt =====
-- Runs of Project12/heapsort.c on small files.
use mathlib.Core.List.{Perm}
use linux_project.Base.{
  ℕ, zero, suc, ◌≤◌, ◌<◌, ◌≡◌, refl, some, none, List, [], ◌∷◌, get_or, arith, Returns, strncpy,
}
use linux_project.HeapSort.Keys.{IsRecord}
use linux_project.HeapSort.Swaps.{record_at}
use linux_project.HeapSort.Order.{IsHeap, IsHeld}
use linux_project.HeapSort.Phases.{whole, Heaped, heapify_all}
use linux_project.HeapSort.Rest.{listed}
use linux_project.HeapSort.Files.{file_record, HasKey}
use linux_project.HeapSort.Program.{build_heap-IsHeap, read_records_even}
use linux_project.HeapSort.{
  skip_marks, up_to_mark, strtok, above, closed, key_of, key_at, store, exchange, go_left, heapify,
  heapify_down, read_page, read_records, build_heap, empty_record, take_root, make_sorted,
}

abbrev page_ba : List ℕ
page_ba = 66 ∷ 35 ∷ 48 ∷ 65 ∷ 35 ∷ 49 ∷ []

abbrev page_c : List ℕ
page_c = 65 ∷ 65 ∷ 35 ∷ 255 ∷ 255 ∷ 255 ∷ []

abbrev file_of_three : List (List ℕ)
file_of_three = [] ∷ page_ba ∷ page_c ∷ []

abbrev four_slots : List (List ℕ)
four_slots = [] ∷ [] ∷ [] ∷ [] ∷ []

abbrev heap_of_three : List (List ℕ)
heap_of_three = [] ∷ (65 ∷ 35 ∷ 49 ∷ []) ∷ (66 ∷ 35 ∷ 48 ∷ []) ∷ (65 ∷ 65 ∷ 35 ∷ []) ∷ []

three_heaped : build_heap 3 file_of_three 3 3 [] four_slots ≡ some heap_of_three
unfolding strncpy skip_marks up_to_mark strtok above closed key_of key_at store exchange go_left
    heapify heapify_down read_page read_records build_heap
three_heaped = refl

-- The first turn puts a free slot under the node that the next exchange looks at: its token has no end.
three_not_sorted : make_sorted 3 3 heap_of_three ≡ none
unfolding strncpy skip_marks up_to_mark strtok above closed key_of key_at store exchange go_left
    heapify heapify_down empty_record take_root make_sorted
three_not_sorted = refl

three_keys : (k : ℕ) → 1 ≤ k → k ≤ 3 → HasKey (file_record 3 file_of_three k)
unfolding strncpy skip_marks up_to_mark strtok closed
three_keys zero one_le le = absurd (omega arith)
three_keys (suc zero) one_le le = (refl, 66, [], refl)
three_keys (suc (suc zero)) one_le le = (refl, 65, [], refl)
three_keys (suc (suc (suc zero))) one_le le = (refl, 65, 65 ∷ [], refl)
three_keys (suc (suc (suc (suc k)))) one_le le = absurd (omega arith)

build_heap-IsHeap_example :
    Returns
      (λ b.
        IsHeap whole 1 1 b × Perm (listed 3 (record_at b)) (listed 3 (file_record 3 file_of_three)))
      (build_heap 3 file_of_three 3 3 [] four_slots)
build_heap-IsHeap_example =
    build_heap-IsHeap 2 file_of_three 3 1 four_slots refl (omega arith) (omega arith) three_keys

read_records_even_example : read_records 3 ([] ∷ page_ba ∷ []) 2 2 1 1 [] ([] ∷ [] ∷ [] ∷ []) ≡ none
read_records_even_example = read_records_even 3 ([] ∷ page_ba ∷ []) 1 [] ([] ∷ [] ∷ [] ∷ []) refl

abbrev three_slots : List (List ℕ)
three_slots = [] ∷ (66 ∷ 35 ∷ []) ∷ (67 ∷ 35 ∷ []) ∷ (65 ∷ 35 ∷ []) ∷ []

three_slots-IsHeld : IsHeld 2 1 three_slots
unfolding strncpy skip_marks up_to_mark strtok closed key_of
three_slots-IsHeld = record { room = omega arith; records = held }
  where
    held : (i : ℕ) → 1 ≤ i → i < 4 → IsRecord 2 (get_or three_slots i [])
    held zero one_le lt = absurd (omega arith)
    held (suc zero) one_le lt = record { copied = refl; keyed = refl }
    held (suc (suc zero)) one_le lt = record { copied = refl; keyed = refl }
    held (suc (suc (suc zero))) one_le lt = record { copied = refl; keyed = refl }
    held (suc (suc (suc (suc i)))) one_le lt = absurd (omega arith)

heapify_all_example : Returns (Heaped 1 three_slots) (heapify_down 2 1 3 1 three_slots)
heapify_all_example = heapify_all 2 3 1 (omega arith) three_slots three_slots-IsHeld
