-- ===== src/Alloc.antt =====
-- Project4/alloc/test_alloc.c and alloc.h: `alloc` and `dealloc` over one page that `mmap` returns.
-- The page is cut into 512 slots of 8 bytes, and the table `mmr` says which of them are in use.
mod Search
mod Table
pub mod Invariant
pub mod Blocks
mod Tests
use linux_project.Base.{
  ℕ, zero, suc, ◌+◌, ◌-◌, Bool, true, false, Option, none, some, List, [], ◌∷◌, map, ◌==◌,
  if◌then◌else◌, get_elem?, update,
}
use mathlib.Core.Option

-- `mst`. An address is a number; `status` is 1 for a slot in use.
pub record Slot : Type 0 where
  pub add : ℕ
  pub section : ℕ
  pub status : Bool

-- The globals `map`, `mmr` and `num`. `num` counts the calls of `alloc`, and is taken not to wrap.
pub record Heap : Type 0 where
  pub map : ℕ
  pub mmr : List Slot
  pub num : ℕ

-- `sizeof(int)`: `mad++` moves an `int *` on by as much.
abbrev pub int_size : ℕ
int_size = 4

abbrev pub slots : ℕ
slots = 512

-- The loop of `init_alloc`, with the rounds that are left.
pub init_slots : ℕ → ℕ → List Slot
init_slots zero mad = []
init_slots (suc n) mad =
    record { add = mad; section = 0; status = false } ∷ init_slots n (mad + int_size + int_size)

-- `init_alloc`, from the address that `mmap` returned.
pub init_alloc : ℕ → Heap
init_alloc page = record { map = page; mmr = init_slots slots page; num = 0 }

-- The search loop of `alloc` from index `i` on: the run's first and last slot, if one has size `a`.
pub find_run : ℕ → ℕ → Bool → ℕ → ℕ → List Slot → Option (ℕ × ℕ)
find_run a i search size start [] = none
find_run a i search size start (s ∷ ss) = elim s.status [
  | true ↦ find_run a (i + 1) false size start ss
  | false ↦
      let size' = if search then size + 8 else 8 in
      let start' = if search then start else i in
      elim (size' == a) [
        | true ↦ some (start', i)
        | false ↦ find_run a (i + 1) true size' start' ss
      ]
]

abbrev pub use_slot : ℕ → Slot → Slot
use_slot num s = record s { section = num; status = true }

-- `for(j=start;j<=i;j++)`, with the rounds that are left.
unfoldable pub mark : ℕ → ℕ → ℕ → List Slot → List Slot
mark zero j num mmr = mmr
mark (suc n) j num mmr = mark n (j + 1) num (update mmr j (use_slot num))

-- `alloc`. The pointer is `none` for NULL. A request that is negative in C finds no run, as 0 does.
pub alloc : Heap → ℕ → Option ℕ × Heap
alloc h a = elim (find_run a 0 false 0 0 h.mmr) [
  | none ↦ (none, record h { num = h.num + 1 })
  | some (start, i) ↦ (
    Option.map (λ s. s.add) (get_elem? h.mmr start),
    record h { num = h.num + 1; mmr = mark (i + 1 - start) start (h.num + 1) h.mmr },
  )
]

-- The first loop of `dealloc`: `sol` is `none` while the variable is uninitialised.
pub find_section : ℕ → Option ℕ → List Slot → Option ℕ
find_section p sol [] = sol
find_section p sol (s ∷ ss) = find_section p (if s.add == p then some s.section else sol) ss

abbrev pub free_slot : ℕ → Slot → Slot
free_slot sol s = if s.section == sol then record s { section = 0; status = false } else s

-- `dealloc`. `none`: no slot has the address, and C reads `sol` before it is set.
pub dealloc : Heap → ℕ → Option Heap
dealloc h p =
    Option.map (λ sol. record h { mmr = map (free_slot sol) h.mmr }) (find_section p none h.mmr)

-- `cleanup` hands the page back and returns 0; the table stays as it is.
pub cleanup : Heap → Heap × ℕ
cleanup h = (h, 0)
