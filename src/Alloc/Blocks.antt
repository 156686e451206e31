-- ===== src/Alloc/Blocks.antt =====
-- What a caller of `alloc` and `dealloc` relies on: fresh blocks, first fit, and blocks given back.
use mathlib.Core.Option
use linux_project.Base.{
  ℕ, ◌+◌, ◌-◌, ◌*◌, ◌≤◌, ◌<◌, ◌≡◌, refl, sym, ap, inl, inr, ◌⊎◌, ◌≢◌, true, ◌&&◌, Option, none,
  some, map, ltb, leb, if◌then◌else◌, length, get_elem?, get_elem?-map, lt_of_get_elem?,
  ext_get_elem?, arith, dec_lt, subst, Option-cases,
}
use linux_project.Alloc.{Slot, Heap, alloc, dealloc, use_slot, free_slot}
use linux_project.Alloc.Search.{FreeAt, Fits, find_run_fits}
use linux_project.Alloc.Table.{get_elem?-mark, find_section_at}
use linux_project.Alloc.Invariant.{IsValid, marked, alloc-cases, alloc-IsValid, dealloc-IsValid}

-- The slot is in use, in the section `c`.
abbrev pub Holds : Heap → ℕ → ℕ → Type 0
Holds h c k = (s : Slot) × (get_elem? h.mmr k ≡ some s) × (s.status ≡ true) × (s.section ≡ c)

-- What a call that returned the pointer `p` did: the block has exactly the asked size, starts at `p`,
-- was free slot by slot, is now in use under the new section, and nothing else changed.
pub record Got (h h' : Heap) (a p : ℕ) : Type 0 where
  pub start : ℕ
  pub last : ℕ
  pub ordered : start ≤ last
  pub size : a ≡ 8 * (last + 1 - start)
  pub inside : last < length h.mmr
  pub address : p ≡ h.map + 8 * start
  pub was_free : (k : ℕ) → start ≤ k → k ≤ last → FreeAt h.mmr k
  pub held : (k : ℕ) → start ≤ k → k ≤ last → Holds h' (h.num + 1) k
  pub kept : (k : ℕ) → (k < start) ⊎ (last < k) → get_elem? h'.mmr k ≡ get_elem? h.mmr k

marked-Got :
    (h : Heap) (a start last : ℕ)
    → Fits (FreeAt h.mmr) a start last
    → Got h (marked h start last) a (h.map + 8 * start)
marked-Got h a start last f = record {
  start = start;
  last = last;
  ordered = f.ordered;
  size = f.exact;
  inside = let (s, at, _) = f.all last f.ordered (omega arith) in lt_of_get_elem? h.mmr last at;
  address = refl;
  was_free = f.all;
  held = λ k lo hi.
      let (s, at, _) = f.all k lo hi in (use_slot (h.num + 1) s, ground (arith, law k), refl, refl);
  kept = λ k out. ground (arith, law k);
}
  where
    law :
        (k : ℕ)
        → get_elem? (marked h start last).mmr k ≡ (
            if leb start k && ltb k (start + (last + 1 - start))
            then Option.map (use_slot (h.num + 1)) (get_elem? h.mmr k)
            else get_elem? h.mmr k)
    law = get_elem?-mark (last + 1 - start) start (h.num + 1) h.mmr

-- If `alloc` returns a pointer, the block behind it was wholly free, has exactly the asked size and
-- lies in the page, is now in use under a section of its own, and no other slot changed.
pub alloc-Got :
    (h : Heap) (a : ℕ) {p : ℕ} → IsValid h → (alloc h a).0 ≡ some p → Got h (alloc h a).1 a p
alloc-Got h a {p} v e = elim (alloc-cases h a v) [
  | inl (_, q) ↦ ground (arith, q)
  | inr (start, last, f, _, q) ↦
      let here : p ≡ h.map + 8 * start = ground (arith, q) in
      rw (q, here) (marked-Got h a start last f)
]

-- Where a run of `n` free slots starts at `u`, `alloc` finds room for `8 * n` bytes, and takes a
-- block that starts there or at a lower address.
pub alloc_first_fit :
    (h : Heap) (n u : ℕ)
    → IsValid h
    → 0 < n
    → ((k : ℕ) → u ≤ k → k < u + n → FreeAt h.mmr k)
    → (p : ℕ) × ((alloc h (8 * n)).0 ≡ some p) × (p ≤ h.map + 8 * u)
alloc_first_fit h n u v pos free = elim (alloc-cases h (8 * n) v) [
  | inl (missed, _) ↦ ground (arith, missed, find_run_fits (8 * n) n u h.mmr pos refl free)
  | inr (start, last, _, hit, q) ↦ (
    h.map + 8 * start,
    ground (arith, q),
    ground (arith, hit, find_run_fits (8 * n) n u h.mmr pos refl free),
  )
]

-- `alloc` returns NULL only where no run of free slots has the asked size, and leaves the table as
-- it was.
pub alloc_null :
    (h : Heap) (a : ℕ)
    → IsValid h
    → (alloc h a).0 ≡ none
    → ((alloc h a).1.mmr ≡ h.mmr)
      × ((n u : ℕ) → 0 < n → a ≡ 8 * n → ¬ ((k : ℕ) → u ≤ k → k < u + n → FreeAt h.mmr k))
alloc_null h a v e = elim (alloc-cases h a v) [
  | inl (missed, q) ↦ (
    ground (arith, q),
    λ n u pos size free. ground (arith, missed, find_run_fits a n u h.mmr pos size free),
  )
  | inr (start, last, _, _, q) ↦ ground (arith, q)
]

freed : Heap → ℕ → Heap
freed h c = record h { mmr = map (free_slot c) h.mmr }

dealloc_at :
    (h : Heap) (k : ℕ) {s : Slot}
    → IsValid h
    → get_elem? h.mmr k ≡ some s
    → dealloc h (h.map + 8 * k) ≡ some (freed h s.section)
unfolding dealloc freed
dealloc_at h k v at = rw (find_section_at h.map (h.map + 8 * k) none h.mmr k v.placed refl at)

-- `dealloc` of a pointer to a slot of the section `c` frees every slot of that section, and leaves
-- every other slot as it was.
pub dealloc_frees :
    (h : Heap) (c k : ℕ)
    → IsValid h
    → Holds h c k
    → (h' : Heap) × (dealloc h (h.map + 8 * k) ≡ some h')
      × (h'.map ≡ h.map)
      × ((j : ℕ) → Holds h c j → FreeAt h'.mmr j)
      × ((j d : ℕ) → d ≢ c → Holds h d j → Holds h' d j)
      × ((j : ℕ) → FreeAt h.mmr j → FreeAt h'.mmr j)
unfolding freed
dealloc_frees h c k v (s, at, busy, sec) = (
  freed h c,
  rw (dealloc_at h k v at, sec),
  refl,
  λ j (t, tj, tb, tc). (free_slot c t, ground (arith, law j), ground arith),
  λ j d ne (t, tj, tb, tc). (t, ground (arith, law j), tb, tc),
  λ j (t, tj, idle). (free_slot c t, ground (arith, law j), ground arith),
)
  where
    law :
        (j : ℕ)
        → get_elem? (map (free_slot c) h.mmr) j ≡ Option.map (free_slot c) (get_elem? h.mmr j)
    law = get_elem?-map (free_slot c) h.mmr

-- Freeing the section that `alloc` has just made undoes the marks.
freed-marked :
    (h : Heap) (a start last : ℕ)
    → IsValid h
    → Fits (FreeAt h.mmr) a start last
    → map (free_slot (h.num + 1)) (marked h start last).mmr ≡ h.mmr
freed-marked h a start last v f = ext_get_elem? _ h.mmr λ k.
    elim (Option-cases (get_elem? h.mmr k)) [
      | inl gone ↦ ground (arith, gone, freed-law k, mark-law k)
      | inr (s, at) ↦ ground (arith, at, freed-law k, mark-law k, v.ok k s at, f.all k)
    ]
  where
    freed-law :
        (k : ℕ)
        → get_elem? (map (free_slot (h.num + 1)) (marked h start last).mmr) k
          ≡ Option.map (free_slot (h.num + 1)) (get_elem? (marked h start last).mmr k)
    freed-law = get_elem?-map (free_slot (h.num + 1)) (marked h start last).mmr

    mark-law :
        (k : ℕ)
        → get_elem? (marked h start last).mmr k ≡ (
            if leb start k && ltb k (start + (last + 1 - start))
            then Option.map (use_slot (h.num + 1)) (get_elem? h.mmr k)
            else get_elem? h.mmr k)
    mark-law = get_elem?-mark (last + 1 - start) start (h.num + 1) h.mmr

-- A block given back at once leaves the table as it was before the call of `alloc`; only the counter
-- has moved on.
pub dealloc-alloc :
    (h : Heap) (a : ℕ) {p : ℕ}
    → IsValid h
    → (alloc h a).0 ≡ some p
    → dealloc (alloc h a).1 p ≡ some (record h { num = h.num + 1 })
unfolding freed marked-Got
dealloc-alloc h a {p} v e = elim (alloc-cases h a v) [
  | inl (_, q) ↦ ground (arith, q)
  | inr (start, last, f, _, q) ↦
      let here : p ≡ h.map + 8 * start = ground (arith, q) in
      let (s, at, _, sec) = (marked-Got h a start last f).held start (omega arith) f.ordered in
      let v' = subst (λ (r : Option ℕ × Heap). IsValid r.1) q (alloc-IsValid h a v) in
      rw (q, here)
        (ground
          (arith, dealloc_at (marked h start last) start v' at, freed-marked h a start last v f))
]

-- Neighbouring blocks merge: once the blocks of two sections that fill the slots from `u` on side by
-- side are given back, `alloc` finds room for both together there or at a lower address.
pub alloc_merged :
    (h : Heap) (u n m c d : ℕ)
    → IsValid h
    → 0 < n
    → 0 < m
    → c ≢ d
    → ((k : ℕ) → u ≤ k → k < u + n → Holds h c k)
    → ((k : ℕ) → u + n ≤ k → k < u + n + m → Holds h d k)
    → (h' : Heap) × (dealloc h (h.map + 8 * u) ≡ some h')
      × (h2 : Heap) × (dealloc h' (h.map + 8 * (u + n)) ≡ some h2)
      × (p : ℕ) × ((alloc h2 (8 * (n + m))).0 ≡ some p)
      × (p ≤ h.map + 8 * u)
alloc_merged h u n m c d v pn pm ne left right =
    let (h', e', m', mine', others', idle') =
      dealloc_frees h c u v (left u (omega arith) (omega arith)) in
    let v' = dealloc-IsValid h (h.map + 8 * u) v e' in
    let held = others' (u + n) d (λ e. ne (sym e)) (right (u + n) (omega arith) (omega arith)) in
    let (h2, e2, m2, mine2, others2, idle2) = dealloc_frees h' d (u + n) v' held in
    let v2 = dealloc-IsValid h' (h'.map + 8 * (u + n)) v' e2 in
    let free : (k : ℕ) → u ≤ k → k < u + (n + m) → FreeAt h2.mmr k = λ k lo hi.
      elim (dec_lt k (u + n)) [
        | yes l ↦ idle2 k (mine' k (left k lo l))
        | no r ↦ mine2 k (others' k d (λ e. ne (sym e)) (right k (omega arith) (omega arith)))
      ] in
    let (p, got, below) = alloc_first_fit h2 (n + m) u v2 (omega arith) free in
    (h', e', h2, ground (arith, e2, m'), p, got, omega (arith, ap (λ (x : ℕ). x) m', m2))
