-- ===== src/Ealloc/Pages.antt =====
-- What callers of Project4/ealloc get, and what they give back.
use linux_project.Base.{
  Returns, ℕ, zero, suc, ◌+◌, ◌*◌, ◌<◌, ◌≡◌, ◌≢◌, refl, ◌∙◌, sym, ap, true, some, List, [], ◌∷◌,
  ◌++◌, map, ltb, length, get_elem?, update, arith, get_elem?-update_self, get_elem?-update_ne,
  get_elem?_of_lt,
}
use linux_project.Alloc.{Slot, slots, free_slot}
use linux_project.Ealloc.{
  Heap, pages, fill, page_of, alloc_in, alloc, free_page, free_pages, dealloc,
}

get_elem?-fill :
    (n mad num k : ℕ)
    → k < n
    → get_elem? (fill n mad num) k
      ≡ some (record { add = mad + 8 * k; section = num; status = true })
unfolding fill
get_elem?-fill zero mad num k lt = absurd (omega arith)
get_elem?-fill (suc n) mad num zero lt = ground arith
get_elem?-fill (suc n) mad num (suc k) lt =
    ground (arith, get_elem?-fill n (mad + 4 + 4) num k (omega arith))

-- Once a byte has been asked for, and while the bytes asked for in all fit into four pages, `alloc`
-- returns the page that `mmap` gave: all 512 slots of its table are in use, with the addresses of the page
-- and with the number of the calls before as their section, and the tables of the other pages are as they
-- were.
pub alloc_grows :
    (h : Heap) (a m page : ℕ)
    → length h.mmr ≡ pages
    → page_of (h.sz + a) ≡ some m
    → m < pages
    → Returns
        (λ (r, h').
          (r ≡ some page)
          × ((k : ℕ)
              → k < slots
              → (table : List Slot) × (get_elem? h'.mmr m ≡ some table)
                × (get_elem? table k
                    ≡ some (record { add = page + 8 * k; section = h.num; status = true })))
          × ((j : ℕ) → j ≢ m → get_elem? h'.mmr j ≡ get_elem? h.mmr j))
        (alloc h a page)
unfolding alloc alloc_in
alloc_grows h a m page four at_page fits =
    let low : ltb m pages ≡ true = ground (arith, fits) in
    let (old, at) = get_elem?_of_lt h.mmr m (omega (arith, four, fits)) in
    (
      (
        some page,
        record {
          mmr = update h.mmr m (λ _. fill slots page h.num);
          sz = h.sz + a;
          num = h.num + 1;
        },
      ),
      rw (at_page, low) refl,
      (
        refl,
        λ k lt. (
          fill slots page h.num,
          get_elem?-update_self h.mmr m (λ _. fill slots page h.num) at,
          get_elem?-fill slots page h.num k lt,
        ),
        λ j ne. get_elem?-update_ne h.mmr m j (λ _. fill slots page h.num) (λ e. ne (sym e)),
      ),
    )

-- Slots with neither the address nor the section.
abbrev pub Strangers : ℕ → ℕ → List Slot → Type 0
Strangers p ans page =
    (k : ℕ) (s : Slot) → get_elem? page k ≡ some s → (s.add ≢ p) × (s.section ≢ ans)

free_page_before :
    (p ans : ℕ) (page : List Slot) → Strangers p ans page → free_page p ans page ≡ (ans, page)
unfolding free_page
free_page_before p ans [] h = refl
free_page_before p ans (s ∷ ss) h =
    ground (arith, h 0 s refl, free_page_before p ans ss (λ k t at. h (suc k) t at))

-- No slot with the address.
abbrev pub Absent : ℕ → List Slot → Type 0
Absent p page = (k : ℕ) (s : Slot) → get_elem? page k ≡ some s → s.add ≢ p

free_page_after :
    (p ans : ℕ) (page : List Slot)
    → Absent p page
    → free_page p ans page ≡ (ans, map (free_slot ans) page)
unfolding free_page
free_page_after p ans [] h = refl
free_page_after p ans (s ∷ ss) h =
    ground (arith, h 0 s refl, free_page_after p ans ss (λ k t at. h (suc k) t at))

free_pages_after :
    (p ans : ℕ) (rest : List (List Slot))
    → ((j : ℕ) (page : List Slot) → get_elem? rest j ≡ some page → Absent p page)
    → free_pages p ans rest ≡ map (λ page. map (free_slot ans) page) rest
unfolding free_pages
free_pages_after p ans [] h = refl
free_pages_after p ans (page ∷ rest) h = ground (
  arith,
  free_page_after p ans page (h 0 page refl),
  free_pages_after p ans rest (λ j q at. h (suc j) q at),
)

free_pages_front :
    (p ans : ℕ) (front : List (List Slot)) (s : Slot) (ss : List Slot) (rest : List (List Slot))
    → ((j : ℕ) (page : List Slot) → get_elem? front j ≡ some page → Strangers p ans page)
    → s.add ≡ p
    → Absent p ss
    → ((j : ℕ) (page : List Slot) → get_elem? rest j ≡ some page → Absent p page)
    → free_pages p ans (front ++ (s ∷ ss) ∷ rest)
      ≡ front ++ map (λ page. map (free_slot s.section) page) ((s ∷ ss) ∷ rest)
unfolding free_pages free_page
free_pages_front p ans [] s ss rest before at after beyond =
    ground
      (arith, at, free_page_after p s.section ss after, free_pages_after p s.section rest beyond)
free_pages_front p ans (page ∷ front) s ss rest before at after beyond = ground (
  arith,
  free_page_before p ans page (before 0 page refl),
  free_pages_front p ans front s ss rest (λ j q here. before (suc j) q here) at after beyond,
)

-- `dealloc` of the pointer that the first slot of a page has frees every slot of that section in its
-- page and in those behind, and no other: provided that no slot before carries the number that the
-- uninitialised `ans` happens to hold, and no other slot has the address.
pub dealloc_page :
    (h : Heap) (p ans : ℕ) (front : List (List Slot)) (s : Slot) (ss : List Slot)
    (rest : List (List Slot))
    → h.mmr ≡ front ++ (s ∷ ss) ∷ rest
    → ((j : ℕ) (page : List Slot) → get_elem? front j ≡ some page → Strangers p ans page)
    → s.add ≡ p
    → Absent p ss
    → ((j : ℕ) (page : List Slot) → get_elem? rest j ≡ some page → Absent p page)
    → (dealloc h p ans).mmr
      ≡ front ++ map (λ page. map (free_slot s.section) page) ((s ∷ ss) ∷ rest)
unfolding dealloc
dealloc_page h p ans front s ss rest e before at after beyond =
    ap (free_pages p ans) e ∙ free_pages_front p ans front s ss rest before at after beyond
