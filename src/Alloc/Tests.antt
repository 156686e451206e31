-- ===== src/Alloc/Tests.antt =====
-- Runs of `alloc` and `dealloc` on a page at address 4096, and the theorems at concrete heaps.
use linux_project.Base.{ℕ, ◌+◌, ◌*◌, ◌≤◌, ◌≡◌, refl, none, some, subst, arith}
use linux_project.Alloc.{Heap, init_slots, init_alloc, alloc, dealloc, find_run, mark, find_section}
use linux_project.Alloc.Invariant.{IsValid, init_alloc-IsValid, alloc-IsValid, Calls, Calls-IsValid}
use linux_project.Alloc.Blocks.{Holds, Got, alloc-Got, dealloc-alloc, alloc_merged}

abbrev fresh : Heap
fresh = init_alloc 4096

-- Two blocks, of one slot each.
abbrev two_blocks : Heap
two_blocks = (alloc (alloc fresh 8).1 8).1

fresh-IsValid : IsValid fresh
fresh-IsValid = init_alloc-IsValid 4096

two_blocks-IsValid : IsValid two_blocks
two_blocks-IsValid = alloc-IsValid _ 8 (alloc-IsValid fresh 8 fresh-IsValid)

-- `main`: two blocks of 512 bytes, one behind the other.
main_blocks : ((alloc fresh 512).0 ≡ some 4096) × ((alloc (alloc fresh 512).1 512).0 ≡ some 4608)
unfolding init_alloc init_slots alloc find_run mark
main_blocks = (refl, refl)

-- A request that is no multiple of 8 is refused.
odd_size : (alloc fresh 12).0 ≡ none
unfolding init_alloc init_slots alloc find_run
odd_size = refl

unknown_pointer : dealloc fresh 17 ≡ none
unfolding init_alloc init_slots dealloc find_section
unknown_pointer = refl

Calls-IsValid_example : IsValid two_blocks
Calls-IsValid_example = Calls-IsValid 4096 (Calls.allocs (Calls.allocs Calls.start 8) 8)

alloc-Got_example : Got fresh (alloc fresh 64).1 64 4096
unfolding init_alloc init_slots alloc find_run
alloc-Got_example = alloc-Got fresh 64 fresh-IsValid refl

slot_0 : Holds two_blocks 1 0
unfolding init_alloc init_slots alloc find_run mark
slot_0 = (_, refl, refl, refl)

slot_1 : Holds two_blocks 2 1
unfolding init_alloc init_slots alloc find_run mark
slot_1 = (_, refl, refl, refl)

dealloc-alloc_example :
    dealloc (alloc fresh 512).1 4096 ≡ some (record fresh { num = fresh.num + 1 })
dealloc-alloc_example = dealloc-alloc fresh 512 fresh-IsValid main_blocks.0

alloc_merged_example :
    (h' : Heap) × (dealloc two_blocks (two_blocks.map + 8 * 0) ≡ some h')
    × (h2 : Heap) × (dealloc h' (two_blocks.map + 8 * (0 + 1)) ≡ some h2)
    × (p : ℕ) × ((alloc h2 (8 * (1 + 1))).0 ≡ some p)
    × (p ≤ two_blocks.map + 8 * 0)
alloc_merged_example =
    alloc_merged two_blocks 0 1 1 1 2 two_blocks-IsValid (omega arith) (omega arith)
      (λ e. absurd (omega arith))
      (λ k lo hi. subst (Holds two_blocks 1) {x = 0} {y = k} (omega arith) slot_0)
      (λ k lo hi. subst (Holds two_blocks 2) {x = 1} {y = k} (omega arith) slot_1)
