-- ===== src/Proc/Kept.antt =====
-- `fork`, `wait` and `exit` keep the invariant of the process table.
use linux_project.Base.{
  ℕ, ◌+◌, ◌≤◌, ◌≡◌, ◌≢◌, refl, ◌∙◌, sym, inl, inr, ◌⊎◌, Bool, true, false, some, List, get_elem?,
  get_elem?-update, update, Option-cases, arith, ℕ_discrete,
}
use linux_project.Base.Int.{ℤ, pos}
use linux_project.Proc.{Proc, Kernel, is_running, proc_at}
use linux_project.Proc.Query.{failed}
use linux_project.Proc.Life.{find_unused, fork, exit, reaped}
use linux_project.Proc.Valid.{ProcOk, IsValid, Keeps, Keeps-IsValid}
use linux_project.Proc.Steps.{Runs}
use linux_project.Proc.Exit.{handed_over, exit-table, exit_slot, gone_zombie}
use linux_project.Proc.Create.{
  Unused, find_unused-Unused, newborn, stillborn, with_slot, fork_made, fork_no_memory,
  fork_no_stack, fork_full,
}

-- Where a slot's new value comes from: it was changed by `f`, or is another slot's old value.
abbrev pub UpdatedAt : List Proc → ℕ → (Proc → Proc) → ℕ → Proc → Type 0
UpdatedAt procs i f j p' =
    (p : Proc) × (get_elem? procs j ≡ some p) × (((i ≡ j) × (p' ≡ f p)) ⊎ ((i ≢ j) × (p' ≡ p)))

pub updated_at :
    (procs : List Proc) (i : ℕ) (f : Proc → Proc) (j : ℕ) (p' : Proc)
    → get_elem? (update procs i f) j ≡ some p'
    → UpdatedAt procs i f j p'
updated_at procs i f j p' e = elim (Option-cases (get_elem? procs j)) [
  | inl gone ↦ ground (arith, gone, get_elem?-update procs i j f)
  | inr (p, at) ↦ elim (ℕ_discrete i j) [
    | yes here ↦ (p, at, inl (here, ground (arith, at, here, get_elem?-update procs i j f)))
    | no other ↦ (p, at, inr (other, ground (arith, at, other, get_elem?-update procs i j f)))
  ]
]

pub ProcOk-mono : (n m : ℕ) (p : Proc) → n ≤ m → ProcOk n p → ProcOk m p
ProcOk-mono n m p le o = record {
  below = omega (arith, o.below);
  live = o.live;
  free = o.free;
  stack = o.stack;
  slice = o.slice;
  off = o.off;
}

-- A free slot filled under the next pid.
pub with_slot-IsValid :
    (k : Kernel) (i : ℕ) (f : Proc → Proc)
    → IsValid k
    → ((p : Proc) → (f p).pid ≡ k.nextpid)
    → ((p : Proc) → get_elem? k.procs i ≡ some p → ProcOk (k.nextpid + 1) (f p))
    → IsValid (with_slot k i f)
with_slot-IsValid k i f v fresh good = record {
  started = omega (arith, v.started);
  ok = λ j p' e. ok j p' (updated_at k.procs i f j p' e);
  distinct = λ a b p q ea eb.
      apart a b p q (updated_at k.procs i f a p ea) (updated_at k.procs i f b q eb);
}
  where
    ok : (j : ℕ) (p' : Proc) → UpdatedAt k.procs i f j p' → ProcOk (k.nextpid + 1) p'
    ok j p' (p, at, inl (here, e)) = rw e (good p (rw here at))
    ok j p' (p, at, inr (_, e)) = rw e (ProcOk-mono k.nextpid _ p (omega arith) (v.ok j p at))

    apart :
        (a b : ℕ) (p' q' : Proc)
        → UpdatedAt k.procs i f a p'
        → UpdatedAt k.procs i f b q'
        → p'.pid ≡ q'.pid
        → p'.pid ≢ 0
        → a ≡ b
    apart a b p' q' (p, at, inl (here, e)) (q, bt, inl (there, d)) same ne = sym here ∙ there
    apart a b p' q' (p, at, inl (here, e)) (q, bt, inr (_, d)) same ne =
        absurd (ground (arith, fresh p, (v.ok b q bt).below))
    apart a b p' q' (p, at, inr (_, e)) (q, bt, inl (there, d)) same ne =
        absurd (ground (arith, fresh q, (v.ok a p at).below))
    apart a b p' q' (p, at, inr (_, e)) (q, bt, inr (_, d)) same ne =
        v.distinct a b p q at bt (ground arith) (ground arith)

newborn-IsValid :
    (k : Kernel) (me i : ℕ) → Unused k.procs i → IsValid k → IsValid (with_slot k i (newborn k me))
newborn-IsValid k me i free v =
    with_slot-IsValid k i (newborn k me) v (λ p. refl)
      λ p at. ground (arith, v.started, v.ok i p at)

stillborn-IsValid :
    (k : Kernel) (i : ℕ) (f : Proc → ℕ)
    → Unused k.procs i
    → IsValid k
    → IsValid (with_slot k i (λ p. stillborn k (f p) p))
stillborn-IsValid k i f free v =
    with_slot-IsValid k i _ v (λ p. refl) λ p at. ground (arith, v.started, v.ok i p at)

-- What `fork` comes to: a full table, no memory, or a child in a free slot under the next pid.
pub data Forked (k : Kernel) (me : ℕ) : ℤ × Kernel → Type 0 where
  full : Forked k me (failed, k)
  no_memory :
      (i : ℕ) (f : Proc → ℕ)
      → Unused k.procs i
      → Forked k me (failed, with_slot k i (λ p. stillborn k (f p) p))
  made : (i : ℕ) → Unused k.procs i → Forked k me (pos k.nextpid, with_slot k i (newborn k me))

pub fork-Forked :
    (k : Kernel) (me : ℕ) (kalloc copyuvm : Bool)
    → Runs k me
    → Forked k me (fork k me kalloc copyuvm)
fork-Forked k me kalloc copyuvm run = elim (Option-cases (find_unused 0 k.procs)) [
  | inl none_free ↦ rw (fork_full k me kalloc copyuvm none_free) full
  | inr (r, found) ↦
      let (i, same, free) = find_unused-Unused 0 k.procs found in
      let here : find_unused 0 k.procs ≡ some i = ground (arith, found, same) in
      by_memory i here free kalloc copyuvm
]
  where
    by_memory :
        (i : ℕ)
        → find_unused 0 k.procs ≡ some i
        → Unused k.procs i
        → (kalloc copyuvm : Bool) → Forked k me (fork k me kalloc copyuvm)
    by_memory i here free false copyuvm =
        rw (fork_no_stack k me i copyuvm free here) (no_memory i (λ p. p.ppid) free)
    by_memory i here free true false =
        rw (fork_no_memory k me i run free here) (no_memory i (λ p. (proc_at k me).pid) free)
    by_memory i here free true true = rw (fork_made k me i run free here) (made i free)

pub Forked-IsValid :
    (k : Kernel) (me : ℕ) {r : ℤ × Kernel} → IsValid k → Forked k me r → IsValid r.1
Forked-IsValid k me v full = v
Forked-IsValid k me v (no_memory i f free) = stillborn-IsValid k i f free v
Forked-IsValid k me v (made i free) = newborn-IsValid k me i free v

pub fork-IsValid :
    (k : Kernel) (me : ℕ) (kalloc copyuvm : Bool)
    → Runs k me
    → IsValid k
    → IsValid (fork k me kalloc copyuvm).1
fork-IsValid k me kalloc copyuvm run v = Forked-IsValid k me v (fork-Forked k me kalloc copyuvm run)

-- A slot whose process is gone: its pid is 0 and its stack is given back.
pub reaped-IsValid :
    (k : Kernel) (i : ℕ)
    → ((p : Proc) → get_elem? k.procs i ≡ some p → is_running p.state ≡ false)
    → IsValid k
    → IsValid (record k { procs = update k.procs i reaped })
reaped-IsValid k i idle v = record {
  started = v.started;
  ok = λ j p' e. ok j p' (updated_at k.procs i reaped j p' e);
  distinct = λ a b p q ea eb.
      apart a b p q (updated_at k.procs i reaped a p ea) (updated_at k.procs i reaped b q eb);
}
  where
    ok : (j : ℕ) (p' : Proc) → UpdatedAt k.procs i reaped j p' → ProcOk k.nextpid p'
    ok j p' (p, at, inl (here, e)) = ground (arith, v.started, v.ok j p at, idle p (rw here at))
    ok j p' (p, at, inr (_, e)) = rw e (v.ok j p at)

    apart :
        (a b : ℕ) (p' q' : Proc)
        → UpdatedAt k.procs i reaped a p'
        → UpdatedAt k.procs i reaped b q'
        → p'.pid ≡ q'.pid
        → p'.pid ≢ 0
        → a ≡ b
    apart a b p' q' (p, at, inl (here, e)) (q, bt, d) same ne = absurd (ne (ground arith))
    apart a b p' q' (p, at, inr (_, e)) (q, bt, inl (there, d)) same ne = absurd (ne (ground arith))
    apart a b p' q' (p, at, inr (_, e)) (q, bt, inr (_, d)) same ne =
        v.distinct a b p q at bt (ground arith) (ground arith)

pub exit-IsValid :
    (k : Kernel) (me : ℕ) {k' : Kernel} → Runs k me → IsValid k → exit k me ≡ some k' → IsValid k'
exit-IsValid k me {k'} run v e = rw (exit-table k me e).0 (Keeps-IsValid k _ keeps v)
  where
    keeps : Keeps k.nextpid k.procs (update (handed_over k me) me gone_zombie)
    keeps j p' at =
        let x = exit_slot k me j p' at in
        record {
          p = x.p;
          at = x.at;
          pid = ground (arith, x.exited.rest);
          ok = λ o. elim (ℕ_discrete j me) [
            | yes mine ↦ ground (arith, x.exited.rest, x.exited.mine mine, run, x.at)
            | no other ↦ ground (arith, x.exited.rest, x.exited.other other)
          ];
        }
