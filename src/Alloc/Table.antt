-- ===== src/Alloc/Table.antt =====
-- The table `mmr` slot by slot: what the loops of `init_alloc`, `alloc` and `dealloc` leave in each.
use mathlib.Core.Option
use linux_project.Base.{
  ℕ, zero, suc, ◌+◌, ◌*◌, ◌<◌, ◌≡◌, refl, ◌∙◌, true, false, ◌&&◌, Option, some, List, [], ◌∷◌, ltb,
  leb, ◌==◌, if◌then◌else◌, length, get_elem?, length-update, update, get_elem?-update, arith,
}
use linux_project.Alloc.{Slot, init_slots, use_slot, mark, find_section, int_size}

pub length-mark : (n j num : ℕ) (mmr : List Slot) → length (mark n j num mmr) ≡ length mmr
unfolding mark
length-mark zero j num mmr = refl
length-mark (suc n) j num mmr = length-mark n (j + 1) num _ ∙ length-update mmr j (use_slot num)

pub get_elem?-mark :
    (n j num : ℕ) (mmr : List Slot) (k : ℕ)
    → get_elem? (mark n j num mmr) k ≡ (
        if leb j k && ltb k (j + n)
        then Option.map (use_slot num) (get_elem? mmr k)
        else get_elem? mmr k)
unfolding mark
get_elem?-mark zero j num mmr k = ground arith
get_elem?-mark (suc n) j num mmr k = ground (
  arith,
  get_elem?-mark n (j + 1) num (update mmr j (use_slot num)) k,
  get_elem?-update mmr j k (use_slot num),
)

pub length-init_slots : (n mad : ℕ) → length (init_slots n mad) ≡ n
unfolding init_slots
length-init_slots zero mad = refl
length-init_slots (suc n) mad = omega (arith, length-init_slots n (mad + int_size + int_size))

pub get_elem?-init_slots :
    (n mad k : ℕ) (s : Slot)
    → get_elem? (init_slots n mad) k ≡ some s
    → (s.add ≡ mad + 8 * k) × (s.section ≡ 0) × (s.status ≡ false)
unfolding init_slots
get_elem?-init_slots zero mad k s e = cc
get_elem?-init_slots (suc n) mad zero s e = ground arith
get_elem?-init_slots (suc n) mad (suc k) s e =
    ground (arith, get_elem?-init_slots n (mad + int_size + int_size) k s)

-- The addresses are those of consecutive slots, from `mad` on.
abbrev pub Placed : ℕ → List Slot → Type 0
Placed mad mmr = (k : ℕ) (s : Slot) → get_elem? mmr k ≡ some s → s.add ≡ mad + 8 * k

Placed-tail : (mad : ℕ) (s : Slot) (ss : List Slot) → Placed mad (s ∷ ss) → Placed (mad + 8) ss
Placed-tail mad s ss at k t e = omega (arith, at (suc k) t e)

find_section_below :
    (mad p : ℕ) (sol : Option ℕ) (mmr : List Slot)
    → Placed mad mmr
    → p < mad
    → find_section p sol mmr ≡ sol
unfolding find_section
find_section_below mad p sol [] at h = refl
find_section_below mad p sol (s ∷ ss) at h =
    let here = at 0 s refl in
    ground (arith, find_section_below (mad + 8) p sol ss (Placed-tail mad s ss at) (omega arith))

-- With distinct addresses the lookup of `dealloc` finds the slot at the address.
pub find_section_at :
    (mad p : ℕ) (sol : Option ℕ) (mmr : List Slot) (k : ℕ) {s : Slot}
    → Placed mad mmr
    → p ≡ mad + 8 * k
    → get_elem? mmr k ≡ some s
    → find_section p sol mmr ≡ some s.section
unfolding find_section
find_section_at mad p sol [] k at h e = cc
find_section_at mad p sol (t ∷ ts) zero at h e =
    let here = at 0 t refl in
    let hit : (t.add == p) ≡ true = ground arith in
    rw hit (
      find_section_below (mad + 8) p (some t.section) ts (Placed-tail mad t ts at) (omega arith)
      ∙ ground arith)
find_section_at mad p sol (t ∷ ts) (suc k) at h e =
    find_section_at (mad + 8) p (if t.add == p then some t.section else sol) ts k
      (Placed-tail mad t ts at) (omega arith) e
