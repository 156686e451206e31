-- ===== src/Alloc/Invariant.antt =====
-- The invariant of the slot table, kept by every call of `alloc` and `dealloc`.
use linux_project.Base.{
  ℕ, ◌+◌, ◌-◌, ◌*◌, ◌≤◌, ◌<◌, ◌≡◌, ◌∙◌, inl, inr, ◌⊎◌, true, false, none, some, List, map, length,
  get_elem?, get_elem?-map, length-map, arith, subst, Option-cases,
}
use linux_project.Alloc.{
  Slot, Heap, init_alloc, alloc, dealloc, use_slot, mark, find_run, find_section, free_slot, slots,
}
use linux_project.Alloc.Search.{FreeAt, Fits, find_run-Fits, closed}
use linux_project.Alloc.Table.{
  Placed, length-mark, get_elem?-mark, length-init_slots, get_elem?-init_slots,
}

-- What the table says of one slot: it carries a section exactly while it is in use.
abbrev pub SlotOk : ℕ → Slot → Type 0
SlotOk num s =
    ((s.status ≡ false) × (s.section ≡ 0))
    ⊎ ((s.status ≡ true) × (0 < s.section) × (s.section ≤ num))

pub record IsValid (h : Heap) : Type 0 where
  pub sized : length h.mmr ≡ slots
  pub placed : Placed h.map h.mmr
  pub ok : (k : ℕ) (s : Slot) → get_elem? h.mmr k ≡ some s → SlotOk h.num s
  -- The slots of one section stand side by side.
  pub joined :
      (i j k : ℕ) (r s t : Slot)
      → get_elem? h.mmr i ≡ some r
      → get_elem? h.mmr j ≡ some s
      → get_elem? h.mmr k ≡ some t
      → i ≤ j
      → j ≤ k
      → 0 < r.section
      → r.section ≡ t.section
      → s.section ≡ r.section

pub init_alloc-IsValid : (page : ℕ) → IsValid (init_alloc page)
unfolding init_alloc
init_alloc-IsValid page = record {
  sized = length-init_slots slots page;
  placed = λ k s e. (get_elem?-init_slots slots page k s e).0;
  ok = λ k s e. let z = get_elem?-init_slots slots page k s e in inl (z.2, z.1);
  joined = λ i j k r s t ei ej ek ij jk pos same.
      let z = get_elem?-init_slots slots page i r ei in absurd (omega (arith, z.1));
}

-- The two outcomes of `alloc`.
abbrev pub marked : Heap → ℕ → ℕ → Heap
marked h start last = record h {
  num = h.num + 1;
  mmr = mark (last + 1 - start) start (h.num + 1) h.mmr;
}

pub alloc-cases :
    (h : Heap) (a : ℕ)
    → IsValid h
    → ((find_run a 0 false 0 0 h.mmr ≡ none) × (alloc h a ≡ (none, record h { num = h.num + 1 })))
      ⊎ ((start : ℕ) × (last : ℕ) × Fits (FreeAt h.mmr) a start last
          × (find_run a 0 false 0 0 h.mmr ≡ some (start, last))
          × (alloc h a ≡ (some (h.map + 8 * start), marked h start last)))
unfolding alloc
alloc-cases h a v = elim (Option-cases (find_run a 0 false 0 0 h.mmr)) [
  | inl e ↦ inl (e, rw (e, alloc))
  | inr ((start, last), e) ↦
      let f =
        find_run-Fits (FreeAt h.mmr) a h.mmr 0 false 0 0
          (λ k f. subst (FreeAt h.mmr) (omega arith) f) (closed (FreeAt h.mmr) 0 0 0) e in
      let (s, at, idle) = f.all start (omega arith) f.ordered in
      inr (start, last, f, e, rw (e, at, alloc) (ground (arith, v.placed start s at)))
]

-- A slot after `alloc`, and the slot that it was.
record Was (h : Heap) (start last k : ℕ) (s' : Slot) : Type 0 where
  s : Slot
  at : get_elem? h.mmr k ≡ some s
  how :
      ((start ≤ k) × (k ≤ last) × (s' ≡ use_slot (h.num + 1) s))
      ⊎ (((k < start) ⊎ (last < k)) × (s' ≡ s))

was :
    (h : Heap) (start last k : ℕ) (s' : Slot)
    → start ≤ last
    → get_elem? (marked h start last).mmr k ≡ some s'
    → Was h start last k s'
was h start last k s' le e = elim (Option-cases (get_elem? h.mmr k)) [
  | inl none_at ↦ ground (arith, get_elem?-mark (last + 1 - start) start (h.num + 1) h.mmr k)
  | inr (s, at) ↦ record {
    s = s;
    at = at;
    how = ground (arith, get_elem?-mark (last + 1 - start) start (h.num + 1) h.mmr k);
  }
]

module _ (h : Heap) (a start last : ℕ) (v : IsValid h) (f : Fits (FreeAt h.mmr) a start last) where
  marked-ok :
      (k : ℕ) (s' : Slot) → get_elem? (marked h start last).mmr k ≡ some s' → SlotOk (h.num + 1) s'
  marked-ok k s' e =
      let w = was h start last k s' f.ordered e in ground (arith, w.how, v.ok k w.s w.at)

  marked-joined :
      (i j k : ℕ) (r s t : Slot)
      → Was h start last i r
      → Was h start last j s
      → Was h start last k t
      → i ≤ j
      → j ≤ k
      → 0 < r.section
      → r.section ≡ t.section
      → s.section ≡ r.section
  marked-joined i j k r s t wi wj wk ij jk pos same = ground (
    arith,
    wi.how,
    wj.how,
    wk.how,
    v.ok i wi.s wi.at,
    v.ok j wj.s wj.at,
    v.ok k wk.s wk.at,
    v.joined i j k wi.s wj.s wk.s wi.at wj.at wk.at ij jk,
    f.all j,
  )

pub alloc-IsValid : (h : Heap) (a : ℕ) → IsValid h → IsValid (alloc h a).1
alloc-IsValid h a v = elim (alloc-cases h a v) [
  | inl (_, e) ↦ rw e (record {
    sized = v.sized;
    placed = v.placed;
    ok = λ k s at. ground (arith, v.ok k s at);
    joined = v.joined;
  })
  | inr (start, last, f, _, e) ↦ rw e (record {
    sized = length-mark (last + 1 - start) start (h.num + 1) h.mmr ∙ v.sized;
    placed = λ k s at.
        let w = was h start last k s f.ordered at in ground (arith, w.how, v.placed k w.s w.at);
    ok = marked-ok h a start last v f;
    joined = λ i j k r s t ei ej ek ij jk pos same.
        marked-joined h a start last v f i j k r s t (was h start last i r f.ordered ei)
          (was h start last j s f.ordered ej) (was h start last k t f.ordered ek) ij jk pos same;
  })
]

-- A slot after the second loop of `dealloc`, and the slot that it was.
pub freed-was :
    (sol k : ℕ) (mmr : List Slot) (s' : Slot)
    → get_elem? (map (free_slot sol) mmr) k ≡ some s'
    → (s : Slot) × (get_elem? mmr k ≡ some s) × (s' ≡ free_slot sol s)
freed-was sol k mmr s' e = elim (Option-cases (get_elem? mmr k)) [
  | inl none_at ↦ ground (arith, get_elem?-map (free_slot sol) mmr k)
  | inr (s, at) ↦ (s, at, ground (arith, get_elem?-map (free_slot sol) mmr k))
]

pub freed-IsValid :
    (h : Heap) (sol : ℕ) → IsValid h → IsValid (record h { mmr = map (free_slot sol) h.mmr })
freed-IsValid h sol v = record {
  sized = length-map h.mmr (free_slot sol) ∙ v.sized;
  placed =
      λ k s' e. let (s, at, how) = freed-was sol k h.mmr s' e in ground (arith, v.placed k s at);
  ok = λ k s' e. let (s, at, how) = freed-was sol k h.mmr s' e in ground (arith, v.ok k s at);
  joined = λ i j k r' s' t' ei ej ek ij jk pos same.
      let (r, ri, hr) = freed-was sol i h.mmr r' ei in
      let (s, sj, hs) = freed-was sol j h.mmr s' ej in
      let (t, tk, ht) = freed-was sol k h.mmr t' ek in
      ground (arith, v.joined i j k r s t ri sj tk ij jk);
}

pub dealloc-IsValid :
    (h : Heap) (p : ℕ) {h' : Heap} → IsValid h → dealloc h p ≡ some h' → IsValid h'
unfolding dealloc
dealloc-IsValid h p {h'} v e = elim (Option-cases (find_section p none h.mmr)) [
  | inl unset ↦ ground (arith, unset)
  | inr (sol, found) ↦
      let same : record h { mmr = map (free_slot sol) h.mmr } ≡ h' = ground (arith, found) in
      subst IsValid same (freed-IsValid h sol v)
]

-- The heaps that calls of `alloc` and `dealloc` lead to. A call of `dealloc` that C leaves undefined
-- leads nowhere.
pub data Calls (page : ℕ) : Heap → Type 0 where
  start : Calls page (init_alloc page)
  allocs : {h : Heap} → Calls page h → (a : ℕ) → Calls page (alloc h a).1
  deallocs : {h h' : Heap} → Calls page h → (p : ℕ) → dealloc h p ≡ some h' → Calls page h'

-- After any history of calls the table is well formed: 512 slots at consecutive addresses, each with
-- a section of its own while in use and with none otherwise, and every section in one piece.
pub Calls-IsValid : (page : ℕ) {h : Heap} → Calls page h → IsValid h
Calls-IsValid page start = init_alloc-IsValid page
Calls-IsValid page (allocs {h} r a) = alloc-IsValid h a (Calls-IsValid page r)
Calls-IsValid page (deallocs {h} r p e) = dealloc-IsValid h p (Calls-IsValid page r) e
