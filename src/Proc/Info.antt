-- ===== src/Proc/Info.antt =====
-- The queries on the table: `get_proc_info`, `get_max_pid`, `get_num_proc`; and what `fork` and
-- `wait` change in their answers.
use linux_project.Base.{
  ℕ, zero, suc, ◌+◌, ◌≤◌, ◌≡◌, refl, inl, inr, ◌⊎◌, Bool, false, not, ◌&&◌, Option, none, some,
  List, [], ◌∷◌, ◌==◌, if◌then◌else◌, ltb, get_elem?, update, arith, get_elem?-update_self,
}
use linux_project.Base.Int.{ℤ, pos}
use linux_project.Proc.{Proc, Kernel, is_unused, proc_at}
use linux_project.Proc.Query.{
  failed, Info, info_of, info_loop, get_proc_info, max_loop, get_max_pid, count_loop, get_num_proc,
}
use linux_project.Proc.Life.{fork}
use linux_project.Proc.Priority.{count_loop_add}
use linux_project.Proc.Valid.{IsValid}
use linux_project.Proc.Kept.{UpdatedAt, updated_at, Forked, fork-Forked, Forked-IsValid}
use linux_project.Proc.Create.{Unused, newborn, stillborn, with_slot}
use linux_project.Proc.Steps.{Runs}

-- A slot that `get_proc_info` would report for the pid.
abbrev pub Reports : List Proc → ℕ → ℕ → Proc → Type 0
Reports ps pid j p = (get_elem? ps j ≡ some p) × (p.pid ≡ pid) × (is_unused p.state ≡ false)

info_loop_all :
    (pid : ℕ) (info v : Option Info) (ps : List Proc)
    → ((j : ℕ) (p : Proc) → Reports ps pid j p → some (info_of p) ≡ v)
    → (info ≡ v) ⊎ ((j : ℕ) × (p : Proc) × Reports ps pid j p)
    → info_loop pid info ps ≡ v
unfolding info_loop
info_loop_all pid info v [] all (inl e) = e
info_loop_all pid info v [] all (inr (j, p, r)) = cc (r.0)
info_loop_all pid info v (q ∷ ps) all why =
    info_loop_all pid (if (q.pid == pid) && not (is_unused q.state) then some (info_of q) else info)
      v ps (λ j p r. all (suc j) p r) (next why)
  where
    next :
        (info ≡ v) ⊎ ((j : ℕ) × (p : Proc) × Reports (q ∷ ps) pid j p)
        → ((if (q.pid == pid) && not (is_unused q.state) then some (info_of q) else info) ≡ v)
          ⊎ ((j : ℕ) × (p : Proc) × Reports ps pid j p)
    next (inl e) = inl (ground (arith, all 0 q))
    next (inr (zero, p, r)) = inl (ground (arith, all 0 q))
    next (inr (suc j, p, r)) = inr (j, p, r)

-- `get_proc_info` with the pid of a process that is not UNUSED returns that pid, and the size, parent
-- id and switch count of that very process; with any other pid it returns -1 and fills nothing.
pub get_proc_info_lem :
    (k : Kernel) (pid : ℕ)
    → IsValid k
    → ((j : ℕ) (p : Proc)
        → Reports k.procs pid j p
        → get_proc_info k pid ≡ (pos pid, some (info_of p)))
      × (((j : ℕ) (p : Proc) → ¬ Reports k.procs pid j p) → get_proc_info k pid ≡ (failed, none))
unfolding get_proc_info
get_proc_info_lem k pid v = (
  λ j p r.
      rw (info_loop_all pid none (some (info_of p)) k.procs (unique j p r) (inr (j, p, r))) refl,
  λ nobody.
      rw (info_loop_all pid none none k.procs (λ j p r. absurd (nobody j p r)) (inl refl)) refl,
)
  where
    unique :
        (j : ℕ) (p : Proc)
        → Reports k.procs pid j p
        → (i : ℕ) (q : Proc) → Reports k.procs pid i q
        → some (info_of q) ≡ some (info_of p)
    unique j p (at, same, used) i q (bt, same', used') =
        let here = v.distinct i j q p bt at (cc) ((v.ok i q bt).live used') in ground (arith, here)

abbrev pub used : Proc → ℕ
used p = if is_unused p.state then 0 else 1

count_loop-update :
    (a i : ℕ) (f : Proc → Proc) (ps : List Proc) (p : Proc)
    → get_elem? ps i ≡ some p
    → count_loop a (update ps i f) + used p ≡ count_loop a ps + used (f p)
unfolding count_loop
count_loop-update a i f [] p at = cc
count_loop-update a zero f (q ∷ ps) p at = ground (arith, count_loop_add a ps)
count_loop-update a (suc i) f (q ∷ ps) p at =
    count_loop-update (if is_unused q.state then a else a + 1) i f ps p at

max_loop-ge : (a : ℕ) (ps : List Proc) → a ≤ max_loop a ps
unfolding max_loop
max_loop-ge a [] = omega arith
max_loop-ge a (p ∷ ps) =
    ground
      (arith, max_loop-ge (if is_unused p.state then a else if ltb a p.pid then p.pid else a) ps)

max_loop_bound :
    (a : ℕ) (ps : List Proc) (j : ℕ) (p : Proc)
    → get_elem? ps j ≡ some p
    → is_unused p.state ≡ false
    → p.pid ≤ max_loop a ps
unfolding max_loop
max_loop_bound a [] j p at live = cc
max_loop_bound a (q ∷ ps) zero p at live =
    ground
      (arith, max_loop-ge (if is_unused q.state then a else if ltb a q.pid then q.pid else a) ps)
max_loop_bound a (q ∷ ps) (suc j) p at live =
    max_loop_bound (if is_unused q.state then a else if ltb a q.pid then q.pid else a) ps j p at
      live

max_loop_least :
    (a b : ℕ) (ps : List Proc)
    → a ≤ b
    → ((j : ℕ) (p : Proc) → get_elem? ps j ≡ some p → is_unused p.state ≡ false → p.pid ≤ b)
    → max_loop a ps ≤ b
unfolding max_loop
max_loop_least a b [] le all = le
max_loop_least a b (q ∷ ps) le all =
    max_loop_least (if is_unused q.state then a else if ltb a q.pid then q.pid else a) b ps
      (ground (arith, all 0 q refl)) (λ j p at live. all (suc j) p at live)

-- `get_max_pid` is the largest pid of a process that is not UNUSED: none has a larger one, and every
-- bound on them all bounds it.
pub get_max_pid_lem :
    (k : Kernel)
    → ((j : ℕ) (p : Proc)
        → get_elem? k.procs j ≡ some p
        → is_unused p.state ≡ false
        → p.pid ≤ get_max_pid k)
      × ((b : ℕ)
          → ((j : ℕ) (p : Proc)
              → get_elem? k.procs j ≡ some p
              → is_unused p.state ≡ false
              → p.pid ≤ b)
          → get_max_pid k ≤ b)
unfolding get_max_pid
get_max_pid_lem k = (
  λ j p at live. max_loop_bound 0 k.procs j p at live,
  λ b all. max_loop_least 0 b k.procs (omega arith) all,
)

-- What the queries answer before and after a `fork` that returned `r`.
abbrev pub Answers : Kernel → ℕ → ℤ × Kernel → Type 0
Answers k me (r, k') =
    ((r ≡ failed) × (get_num_proc k' ≡ get_num_proc k))
    ⊎ ((r ≡ pos k.nextpid)
        × (get_num_proc k' ≡ get_num_proc k + 1)
        × (get_max_pid k' ≡ k.nextpid)
        × (switches : ℕ) × (get_proc_info k' k.nextpid ≡ (
          pos k.nextpid,
          some (record {
            psize = (proc_at k me).sz;
            ppid = (proc_at k me).pid;
            number_context_switches = switches;
          }),
        )))

module _ (k : Kernel) (me i : ℕ) (run : Runs k me) (free : Unused k.procs i) (v : IsValid k) where
  abbrev grown : Kernel
  grown = with_slot k i (newborn k me)

  child_at : get_elem? grown.procs i ≡ some (newborn k me free.0)
  child_at = get_elem?-update_self k.procs i _ free.1

  one_more : get_num_proc grown ≡ get_num_proc k + 1
  unfolding get_num_proc
  one_more = ground (arith, count_loop-update 0 i (newborn k me) k.procs free.0 free.1, free.2)

  newest : get_max_pid grown ≡ k.nextpid
  newest = omega (
    arith,
    (get_max_pid_lem grown).0 i (newborn k me free.0) child_at refl,
    (get_max_pid_lem grown).1 k.nextpid below,
  )
    where
      by_slot : (j : ℕ) (p : Proc) → UpdatedAt k.procs i (newborn k me) j p → p.pid ≤ k.nextpid
      by_slot j p (q, at, inl (_, e)) = ground arith
      by_slot j p (q, at, inr (_, e)) = ground (arith, (v.ok j q at).below)

      below :
          (j : ℕ) (p : Proc)
          → get_elem? grown.procs j ≡ some p
          → is_unused p.state ≡ false
          → p.pid ≤ k.nextpid
      below j p at live = by_slot j p (updated_at k.procs i _ j p at)

Forked-Answers :
    (k : Kernel) (me : ℕ) {r : ℤ × Kernel}
    → Runs k me
    → IsValid k
    → ((k' : Kernel) → (Forked k me (pos k.nextpid, k')) → IsValid k')
    → Forked k me r
    → Answers k me r
unfolding get_num_proc
Forked-Answers k me run v kept Forked.full = inl (refl, refl)
Forked-Answers k me run v kept (Forked.no_memory i f (u, at, free)) =
    inl (refl, ground (arith, count_loop-update 0 i (λ p. stillborn k (f p) p) k.procs u at, free))
Forked-Answers k me run v kept (Forked.made i free) =
    let v' = kept _ (Forked.made i free) in
    inr (
      refl,
      one_more k me i run free v,
      newest k me i run free v,
      free.0.count,
      (get_proc_info_lem (with_slot k i (newborn k me)) k.nextpid v').0 i (newborn k me free.0)
          (child_at k me i run free v, refl, refl),
    )

-- A `fork` that fails returns -1 and leaves the number of processes as it was. One that succeeds
-- returns the next pid: there is one process more, `get_max_pid` names the child, and
-- `get_proc_info` of it gives the caller's size, and the caller's pid as its parent's.
pub fork-Answers :
    (k : Kernel) (me : ℕ) (kalloc copyuvm : Bool)
    → Runs k me
    → IsValid k
    → Answers k me (fork k me kalloc copyuvm)
fork-Answers k me kalloc copyuvm run v =
    Forked-Answers k me run v (λ k' made. Forked-IsValid k me v made)
      (fork-Forked k me kalloc copyuvm run)
