-- ===== src/Proc/Create.antt =====
-- What `allocproc`, `fork`, `userinit` and `wait` do to the table, and that they keep its invariant.
use linux_project.Base.{
  ℕ, zero, suc, ◌+◌, ◌≡◌, ◌≢◌, refl, ◌∙◌, sym, ap, inl, inr, Bool, true, false, none, some, List,
  [], ◌∷◌, if◌then◌else◌, get_elem?, get_or_of_some, update, update-update, Bool-cases, arith,
  get_elem?-update_self, get_elem?-update_ne,
}
use linux_project.Base.Int.{pos}
use linux_project.Proc.{State, Proc, Kernel, is_unused, blank, proc_at}
use linux_project.Proc.Query.{failed}
use linux_project.Proc.Life.{find_unused, embryo_of, given_stack, allocproc, fork_with, fork}
use linux_project.Proc.Steps.{Runs}

-- The slot is free.
abbrev pub Unused : List Proc → ℕ → Type 0
Unused procs i = (p : Proc) × (get_elem? procs i ≡ some p) × (is_unused p.state ≡ true)

pub find_unused-Unused :
    (i : ℕ) (ps : List Proc) {r : ℕ}
    → find_unused i ps ≡ some r
    → (k : ℕ) × (r ≡ i + k) × Unused ps k
unfolding find_unused
find_unused-Unused i [] e = cc
find_unused-Unused i (p ∷ ps) e = elim (Bool-cases (is_unused p.state)) [
  | inl free ↦ (0, ground (arith, free), (p, refl, free))
  | inr used ↦
      let (k, at, u) = find_unused-Unused (i + 1) ps (rw (used, find_unused) at e) in
      (suc k, omega arith, u)
]

pub find_unused-none :
    (i : ℕ) (ps : List Proc)
    → find_unused i ps ≡ none
    → (j : ℕ) (p : Proc) → get_elem? ps j ≡ some p
    → is_unused p.state ≡ false
unfolding find_unused
find_unused-none i [] e j p at = cc
find_unused-none i (q ∷ ps) e zero p at = ground arith
find_unused-none i (q ∷ ps) e (suc j) p at =
    ground (arith, find_unused-none (i + 1) ps (ground arith) j p at)

-- The child that a successful `fork` makes of a free slot.
abbrev pub newborn : Kernel → ℕ → Proc → Proc
newborn k me p = record p {
  kstack = true;
  state = State.runnable;
  pid = k.nextpid;
  ppid = (proc_at k me).pid;
  sz = (proc_at k me).sz;
  parent = some me;
}

-- What is left of a slot whose process could not be made.
abbrev pub stillborn : Kernel → ℕ → Proc → Proc
stillborn k ppid p = record p { kstack = false; state = State.unused; pid = k.nextpid; ppid = ppid }

abbrev pub with_slot : Kernel → ℕ → (Proc → Proc) → Kernel
with_slot k i f = record k { procs = update k.procs i f; nextpid = k.nextpid + 1 }

allocproc_at :
    (k : Kernel) (i : ℕ) (kalloc : Bool)
    → find_unused 0 k.procs ≡ some i
    → allocproc k kalloc ≡ (
      if kalloc then some i else none,
      with_slot k i (λ p. given_stack kalloc (embryo_of k.nextpid p)),
    )
unfolding allocproc
allocproc_at k i kalloc e = rw (e, allocproc)

allocproc_full :
    (k : Kernel) (kalloc : Bool) → find_unused 0 k.procs ≡ none → allocproc k kalloc ≡ (none, k)
unfolding allocproc
allocproc_full k kalloc e = rw (e, allocproc)

module _ (k : Kernel) (me i : ℕ) (run : Runs k me) (free : Unused k.procs i) where
  me-ne-free : i ≢ me
  me-ne-free e =
      let same : get_elem? k.procs i ≡ some run.0 = rw e run.1 in ground (arith, free, run)

  same_me : (f : Proc → Proc) → proc_at (with_slot k i f) me ≡ proc_at k me
  same_me f =
      get_or_of_some (update k.procs i f) me blank
        (get_elem?-update_ne k.procs i me f me-ne-free ∙ run.1)
      ∙ sym (get_or_of_some k.procs me blank run.1)

  -- The slot that `allocproc` has just filled.
  its_pid :
      proc_at (with_slot k i (λ p. given_stack true (embryo_of k.nextpid p))) i
      ≡ given_stack true (embryo_of k.nextpid free.0)
  its_pid = get_or_of_some _ i blank (get_elem?-update_self k.procs i _ free.1)

  pub fork_made :
      find_unused 0 k.procs ≡ some i
      → fork k me true true ≡ (pos k.nextpid, with_slot k i (newborn k me))
  unfolding fork
  fork_made e =
      rw (allocproc_at k i true e, its_pid, update-update)
        (ap
          (λ (q : Proc). (
            pos k.nextpid,
            with_slot k i (λ p. record p {
              kstack = true;
              state = State.runnable;
              pid = k.nextpid;
              ppid = q.pid;
              sz = q.sz;
              parent = some me;
            }),
          ))
          (same_me _))

  pub fork_no_memory :
      find_unused 0 k.procs ≡ some i
      → fork k me true false ≡ (failed, with_slot k i (stillborn k (proc_at k me).pid))
  unfolding fork
  fork_no_memory e =
      rw (allocproc_at k i true e, fork_with, update-update)
        (ap (λ (q : Proc). (failed, with_slot k i (stillborn k q.pid))) (same_me _))

pub fork_no_stack :
    (k : Kernel) (me i : ℕ) (copyuvm : Bool) (free : Unused k.procs i)
    → find_unused 0 k.procs ≡ some i
    → fork k me false copyuvm ≡ (failed, with_slot k i (λ p. stillborn k p.ppid p))
unfolding fork
fork_no_stack k me i copyuvm free e = rw (allocproc_at k i false e)

pub fork_full :
    (k : Kernel) (me : ℕ) (kalloc copyuvm : Bool)
    → find_unused 0 k.procs ≡ none
    → fork k me kalloc copyuvm ≡ (failed, k)
unfolding fork
fork_full k me kalloc copyuvm e = rw (allocproc_full k kalloc e)
