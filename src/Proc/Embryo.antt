-- ===== src/Proc/Embryo.antt =====
-- The parts of `fork` in Project2/proc.c between which other calls come in keep the invariants.
use linux_project.Base.{
  ℕ, ◌+◌, ◌≡◌, refl, inl, inr, ◌⊎◌, Bool, true, false, none, some, get_elem?, update, arith,
  Option-cases,
}
use linux_project.Proc.{Proc, Kernel, is_embryo}
use linux_project.Proc.Life.{
  find_unused, embryo_of, alloc_slot, alloc_stack, copy_memory, make_runnable,
}
use linux_project.Proc.Valid.{ProcOk, IsValid, Keeps-update, Keeps-IsValid}
use linux_project.Proc.Steps.{Runs}
use linux_project.Proc.Create.{Unused, find_unused-Unused, with_slot}
use linux_project.Proc.Kept.{with_slot-IsValid}
use linux_project.Proc.Family.{Family, Tame, Tame-Family, update-Tame, adopted-Family}

-- The slot `i` is an embryo.
abbrev pub Embryo : Kernel → ℕ → Type 0
Embryo k i = (p : Proc) × (get_elem? k.procs i ≡ some p) × (is_embryo p.state ≡ true)

alloc_slot-found :
    (k : Kernel) (i : ℕ)
    → find_unused 0 k.procs ≡ some i
    → alloc_slot k ≡ with_slot k i (embryo_of k.nextpid)
unfolding alloc_slot
alloc_slot-found k i e = rw (e, alloc_slot)

alloc_slot-full : (k : Kernel) → find_unused 0 k.procs ≡ none → alloc_slot k ≡ k
unfolding alloc_slot
alloc_slot-full k e = rw (e, alloc_slot)

-- `allocproc` finds no free slot, or the first one becomes an embryo.
alloc_slot-cases :
    (k : Kernel)
    → (alloc_slot k ≡ k)
      ⊎ ((i : ℕ) × Unused k.procs i × (alloc_slot k ≡ with_slot k i (embryo_of k.nextpid)))
alloc_slot-cases k = elim (Option-cases (find_unused 0 k.procs)) [
  | inl gone ↦ inl (alloc_slot-full k gone)
  | inr (r, found) ↦
      let (i, same, free) = find_unused-Unused 0 k.procs found in
      inr (i, free, alloc_slot-found k i (ground (arith, found, same)))
]

pub alloc_slot-IsValid : (k : Kernel) → IsValid k → IsValid (alloc_slot k)
alloc_slot-IsValid k v = elim (alloc_slot-cases k) [
  | inl full ↦ rw full v
  | inr (i, free, same) ↦ rw same (
      with_slot-IsValid k i (embryo_of k.nextpid) v (λ p. refl)
        λ p at. ground (arith, v.started, v.ok i p at, free))
]

pub alloc_slot-Family : (k : Kernel) → Family k → Family (alloc_slot k)
alloc_slot-Family k f = elim (alloc_slot-cases k) [
  | inl full ↦ rw full f
  | inr (i, (u, ui, free), same) ↦ rw same (
      Tame-Family k _ (k.nextpid + 1)
        (update-Tame k.procs i _ λ p at. record {
          parent = refl;
          dead = λ z. cc;
          sleeps = λ z. cc;
          freed = λ z. ground (arith, ui, free, at);
        })
        f)
]

module _ (k : Kernel) (i : ℕ) (e : Embryo k i) where
  is_embryo_at : (p : Proc) → get_elem? k.procs i ≡ some p → is_embryo p.state ≡ true
  is_embryo_at p at = ground (arith, e.1, e.2)

  -- A change to the slot of the embryo.
  changed-IsValid :
      (g : Proc → Proc)
      → ((p : Proc)
          → get_elem? k.procs i ≡ some p
          → is_embryo p.state ≡ true
          → ProcOk k.nextpid p
          → ((g p).pid ≡ p.pid) × ProcOk k.nextpid (g p))
      → IsValid k
      → IsValid (record k { procs = update k.procs i g })
  changed-IsValid g good v =
      Keeps-IsValid k _
        (Keeps-update k.nextpid k.procs i g
          λ p at. let r = good p at (is_embryo_at p at) in ((r (v.ok i p at)).0, λ o. (r o).1))
        v

  changed-Family :
      (g : Proc → Proc)
      → ((p : Proc) → get_elem? k.procs i ≡ some p → is_embryo p.state ≡ true → Tame i p (g p))
      → Family k
      → Family (record k { procs = update k.procs i g })
  changed-Family g good f =
      Tame-Family k _ k.nextpid (update-Tame k.procs i g λ p at. good p at (is_embryo_at p at)) f

  pub alloc_stack-IsValid : (kalloc : Bool) → IsValid k → IsValid (alloc_stack k i kalloc)
  unfolding alloc_stack
  alloc_stack-IsValid true v = changed-IsValid _ (λ p at s o. (refl, ground arith)) v
  alloc_stack-IsValid false v = changed-IsValid _ (λ p at s o. (refl, ground arith)) v

  pub alloc_stack-Family : (kalloc : Bool) → Family k → Family (alloc_stack k i kalloc)
  unfolding alloc_stack
  alloc_stack-Family true f =
      changed-Family _
        (λ p at s. record { parent = refl; dead = λ z. z; sleeps = λ z. z; freed = λ z. z }) f
  alloc_stack-Family false f =
      changed-Family _
        (λ p at s. record {
          parent = refl;
          dead = λ z. cc;
          sleeps = λ z. cc;
          freed = λ z. ground (arith, s);
        })
        f

  pub copy_memory-IsValid :
      (me : ℕ) (copyuvm : Bool) → IsValid k → IsValid (copy_memory k me i copyuvm)
  unfolding copy_memory
  copy_memory-IsValid me true v = changed-IsValid _ (λ p at s o. (refl, ground arith)) v
  copy_memory-IsValid me false v = changed-IsValid _ (λ p at s o. (refl, ground arith)) v

  pub copy_memory-Family :
      (me : ℕ) (copyuvm : Bool) → Runs k me → Family k → Family (copy_memory k me i copyuvm)
  unfolding copy_memory
  copy_memory-Family me true run f =
      adopted-Family k me i k.nextpid _ e.0 run e.1 (ground (arith, e.2))
        (refl, ground (arith, e.2), ground (arith, e.2)) f
  copy_memory-Family me false run f =
      changed-Family _
        (λ p at s. record {
          parent = refl;
          dead = λ z. cc;
          sleeps = λ z. cc;
          freed = λ z. ground (arith, s);
        })
        f

  pub make_runnable-IsValid : e.0.kstack ≡ true → IsValid k → IsValid (make_runnable k i)
  unfolding make_runnable
  make_runnable-IsValid ready v =
      changed-IsValid _ (λ p at s o. (refl, ground (arith, e.1, at, ready))) v

  pub make_runnable-Family : Family k → Family (make_runnable k i)
  unfolding make_runnable
  make_runnable-Family f =
      changed-Family _
        (λ p at s. record { parent = refl; dead = λ z. cc; sleeps = λ z. cc; freed = λ z. cc }) f
