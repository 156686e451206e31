-- ===== src/Ealloc/Tests.antt =====
-- Heaps of Project4/ealloc, and the theorems at them.
use linux_project.Base.{
  Returns, ℕ, zero, suc, ◌+◌, ◌*◌, ◌<◌, ◌≡◌, ◌≢◌, refl, Bool, true, false, none, some, List, [],
  ◌∷◌, length, get_elem?, arith,
}
use linux_project.Alloc.{Slot, slots, mark}
use linux_project.Ealloc.{
  Heap, pages, init_alloc, page_of, find_in_page, search_pages, alloc, dealloc,
}
use linux_project.Ealloc.Pages.{Strangers, Absent, alloc_grows, dealloc_page}

abbrev fresh : Heap
fresh = init_alloc

four_pages : length fresh.mmr ≡ pages
unfolding init_alloc
four_pages = refl

first_page : page_of (fresh.sz + 4096) ≡ some 0
unfolding init_alloc page_of
first_page = refl

alloc_grows_example :
    Returns
      (λ (r, h').
        (r ≡ some 8192)
        × ((k : ℕ)
            → k < slots
            → (table : List Slot) × (get_elem? h'.mmr 0 ≡ some table)
              × (get_elem? table k
                  ≡ some (record { add = 8192 + 8 * k; section = fresh.num; status = true })))
        × ((j : ℕ) → j ≢ 0 → get_elem? h'.mmr j ≡ get_elem? fresh.mmr j))
      (alloc fresh 4096 8192)
unfolding init_alloc
alloc_grows_example = alloc_grows fresh 4096 0 8192 four_pages first_page (omega arith)

-- The first call, for no bytes.
no_bytes : alloc fresh 0 8192 ≡ none
unfolding alloc page_of init_alloc
no_bytes = refl

abbrev slot : ℕ → ℕ → Bool → Slot
slot add section status = record { add = add; section = section; status = status }

-- Two short tables in use.
abbrev two_tables : Heap
two_tables = record {
  mmr = (slot 100 0 true ∷ []) ∷ (slot 200 1 true ∷ slot 208 1 true ∷ []) ∷ [];
  sz = 16384;
  num = 2;
}

two_tables-Strangers :
    (j : ℕ) (page : List Slot)
    → get_elem? ((slot 100 0 true ∷ []) ∷ []) j ≡ some page
    → Strangers 200 77 page
two_tables-Strangers zero page e zero s at = ground (arith, e, at)
two_tables-Strangers zero page e (suc k) s at = absurd (ground (arith, e, at))
two_tables-Strangers (suc j) page e k s at = absurd (ground (arith, e))

slot_208-Absent : Absent 200 (slot 208 1 true ∷ [])
slot_208-Absent zero s at = ground (arith, at)
slot_208-Absent (suc k) s at = absurd (ground (arith, at))

dealloc_page_example :
    (dealloc two_tables 200 77).mmr
    ≡ (slot 100 0 true ∷ []) ∷ (slot 200 0 false ∷ slot 208 0 false ∷ []) ∷ []
dealloc_page_example =
    dealloc_page two_tables 200 77 ((slot 100 0 true ∷ []) ∷ []) (slot 200 1 true)
      (slot 208 1 true ∷ []) [] refl two_tables-Strangers refl slot_208-Absent
      (λ j page e. absurd (ground (arith, e)))

-- The first page has room, and the search goes on: it marks room in the second page too, and returns
-- that.
twice_found :
    search_pages 8 5 false 0 0 none
      ((slot 100 0 false ∷ []) ∷ (slot 200 1 true ∷ slot 208 0 false ∷ []) ∷ [])
    ≡ (some 208, (slot 100 5 true ∷ []) ∷ (slot 200 1 true ∷ slot 208 5 true ∷ []) ∷ [])
unfolding search_pages find_in_page mark
twice_found = refl
