-- ===== src/Ealloc.antt =====
-- Project4/ealloc/test_ealloc.c: the allocator that grows by up to four pages, each with a table of 512
-- slots. A slot is as in Project4/alloc.
pub mod Pages
mod Tests
use linux_project.Base.{
  ◌>>=◌, ℕ, zero, suc, ◌+◌, ◌-◌, ◌*◌, ◌/◌, ◌%◌, Bool, true, false, Option, none, some, List, [],
  ◌∷◌, map, ◌==◌, ltb, if◌then◌else◌, get_elem?, update, replicate,
}
use mathlib.Core.Option
use linux_project.Alloc.{Slot, int_size, slots, mark, free_slot}

-- The globals `mmr`, `sz` and `num`. (`m` is set anew by each call, and `map` is never read.)
pub record Heap : Type 0 where
  pub mmr : List (List Slot)
  pub sz : ℕ
  pub num : ℕ

abbrev pub page_size : ℕ
page_size = 4096

abbrev pub pages : ℕ
pages = 4

abbrev pub cleared : Slot
cleared = record { add = 0; section = 0; status = false }

unfoldable pub init_alloc : Heap
init_alloc = record { mmr = replicate pages (replicate slots cleared); sz = 0; num = 0 }

-- The loop that takes a new page at `mad`, for the rounds that are left.
unfoldable pub fill : ℕ → ℕ → ℕ → List Slot
fill zero mad num = []
fill (suc n) mad num =
    record { add = mad; section = num; status = true } ∷ fill n (mad + int_size + int_size) num

-- `m`, for the new `sz`; `none` stands for the -1 of 0 bytes in all.
unfoldable pub page_of : ℕ → Option ℕ
page_of sz =
    if sz == 0
    then none
    else some (if sz % page_size == 0 then sz / page_size - 1 else sz / page_size)

-- What the search has found in a page, and its variables behind it.
pub record Search : Type 0 where
  pub run : Option (ℕ × ℕ)
  pub search : Bool
  pub size : ℕ
  pub start : ℕ

-- The search over a page, from slot `j` on.
unfoldable pub find_in_page : ℕ → ℕ → Bool → ℕ → ℕ → List Slot → Search
find_in_page a j search size start [] = record {
  run = none;
  search = search;
  size = size;
  start = start;
}
find_in_page a j search size start (s ∷ ss) = elim s.status [
  | true ↦ find_in_page a (j + 1) false size start ss
  | false ↦
      let size' = if search then size + 8 else 8 in
      let start' = if search then start else j in
      elim (size' == a) [
        | true ↦ record { run = some (start', j); search = true; size = size'; start = start' }
        | false ↦ find_in_page a (j + 1) true size' start' ss
      ]
]

-- The search over the pages: `break` leaves only the inner loop, and the variables keep their values.
unfoldable pub search_pages :
    ℕ → ℕ → Bool → ℕ → ℕ → Option ℕ → List (List Slot) → Option ℕ × List (List Slot)
search_pages a num search size start sol [] = (sol, [])
search_pages a num search size start sol (page ∷ rest) =
    let f = find_in_page a 0 search size start page in
    elim f.run [
      | none ↦ let r = search_pages a num f.search f.size f.start sol rest in (r.0, page ∷ r.1)
      | some (from, to) ↦
          let got = Option.map (λ s. s.add) (get_elem? page from) in
          let r = search_pages a num f.search f.size f.start got rest in
          (r.0, mark (to + 1 - from) from num page ∷ r.1)
    ]

-- `alloc` behind the choice of `m`.
unfoldable pub alloc_in : Heap → (a m page : ℕ) → Option ℕ × Heap
alloc_in h a m page =
    let sz = h.sz + a in
    let grown = update h.mmr m (λ _. fill slots page h.num) in
    let found = search_pages a h.num false 0 0 none h.mmr in
    if ltb m pages
    then (some page, record { mmr = grown; sz = sz; num = h.num + 1 })
    else (found.0, record { mmr = found.1; sz = sz; num = h.num + 1 })

-- `alloc`, with the page that `mmap` returns where it is called. The inner `none` is NULL; the outer one
-- is a write to `mmr[-1]`.
unfoldable pub alloc : Heap → ℕ → ℕ → Option (Option ℕ × Heap)
alloc h a page = page_of (h.sz + a) >>= (λ m. some (alloc_in h a m page))

-- The loop of `dealloc` over a page: one pass both looks for the pointer and frees the slots of `ans`.
unfoldable pub free_page : ℕ → ℕ → List Slot → ℕ × List Slot
free_page p ans [] = (ans, [])
free_page p ans (s ∷ ss) =
    let ans' = if s.add == p then s.section else ans in
    let r = free_page p ans' ss in (r.0, free_slot ans' s ∷ r.1)

unfoldable pub free_pages : ℕ → ℕ → List (List Slot) → List (List Slot)
free_pages p ans [] = []
free_pages p ans (page ∷ rest) = let r = free_page p ans page in r.1 ∷ free_pages p r.0 rest

-- `dealloc`, with the value that the uninitialised variable `ans` happens to have.
unfoldable pub dealloc : Heap → ℕ → ℕ → Heap
dealloc h p ans = record h { mmr = free_pages p ans h.mmr }

unfoldable pub cleanup : Heap → Heap
cleanup h = record h { mmr = map (λ page. map (λ s. cleared) page) h.mmr }
