-- ===== src/Proc/Orphans.antt =====
-- Fields that outlive their process: the parent id of an orphan, and the priority and the switch count
-- of a slot that is used again.
use linux_project.Base.{
  ℕ, ◌≡◌, ◌≢◌, refl, ◌∙◌, sym, true, false, some, get_elem?, update, arith, subst,
  get_elem?-update_self, some_eq,
}
use linux_project.Base.Int.{ℤ, pos}
use linux_project.Proc.{Proc, Kernel, is_unused, is_zombie, proc_at}
use linux_project.Proc.Query.{info_of, get_proc_info}
use linux_project.Proc.Life.{find_unused, fork, exit, reaped}
use linux_project.Proc.Valid.{IsValid}
use linux_project.Proc.Kept.{exit-IsValid, reaped-IsValid, fork-IsValid}
use linux_project.Proc.Create.{newborn, with_slot, fork_made}
use linux_project.Proc.Steps.{Runs}
use linux_project.Proc.Exit.{exit-table, exit_slot, Exited}
use linux_project.Proc.Info.{get_proc_info_lem}
use linux_project.Proc.Waiting.{ChildAt}

-- When `me` exits, each child of it that is still in use has `initproc` for its parent, but
-- `get_proc_info` goes on to report the `ppid` that it had before.
pub exit-ppid :
    (k : Kernel) (me c : ℕ) (q q' : Proc) {k' : Kernel}
    → Runs k me
    → IsValid k
    → exit k me ≡ some k'
    → ChildAt k.procs me c q
    → c ≢ me
    → is_unused q.state ≡ false
    → get_elem? k'.procs c ≡ some q'
    → (q'.parent ≡ k.initproc) × (get_proc_info k' q.pid ≡ (pos q.pid, some (info_of q)))
exit-ppid k me c q q' {k'} run v e (at, child) ne live at' =
    let x = exit_slot k me c q' (rw (exit-table k me e).0 at at') in
    let same : x.p ≡ q = some_eq (sym x.at ∙ at) in
    let r = subst (λ p. Exited k me c p q') same x.exited in
    let other = (r.other ne).1 in
    (
      ground (arith, r.parent),
      (get_proc_info_lem k' q.pid (exit-IsValid k me run v e)).0 c q'
            (at', ground (arith, r.rest), ground (arith, other))
          ∙ ground (arith, r.rest),
    )

-- A child that `fork` puts into the slot of a process that `wait` has reaped starts with the priority
-- of the dead process, and `get_proc_info` reports the context switches of the dead process for it.
pub fork-reaped :
    (k : Kernel) (me i : ℕ) (z : Proc)
    → IsValid k
    → Runs (record k { procs = update k.procs i reaped }) me
    → get_elem? k.procs i ≡ some z
    → is_zombie z.state ≡ true
    → find_unused 0 (update k.procs i reaped) ≡ some i
    → let k1 = record k { procs = update k.procs i reaped } in
      let k2 = (fork k1 me true true).1 in
      (child : Proc) × (get_elem? k2.procs i ≡ some child)
      × (child.nice ≡ z.nice)
      × (get_proc_info k2 k.nextpid ≡ (
        pos k.nextpid,
        some (record {
          psize = (proc_at k1 me).sz;
          ppid = (proc_at k1 me).pid;
          number_context_switches = z.count;
        }),
      ))
fork-reaped k me i z v run at dead first = (
  newborn k1 me (reaped z),
  rw made child_at,
  refl,
  rw made (
      (get_proc_info_lem (with_slot k1 i (newborn k1 me)) k.nextpid
          (subst (λ (r : ℤ × Kernel). IsValid r.1) made (fork-IsValid k1 me true true run v1))).0
        i (newborn k1 me (reaped z)) (child_at, refl, refl)),
)
  where
    k1 : Kernel
    k1 = record k { procs = update k.procs i reaped }

    gone : get_elem? k1.procs i ≡ some (reaped z)
    gone = get_elem?-update_self k.procs i reaped at

    v1 : IsValid k1
    v1 = reaped-IsValid k i (λ p here. ground (arith, here, at)) v

    made : fork k1 me true true ≡ (pos k.nextpid, with_slot k1 i (newborn k1 me))
    made = fork_made k1 me i run (reaped z, gone, refl) first

    child_at : get_elem? (with_slot k1 i (newborn k1 me)).procs i ≡ some (newborn k1 me (reaped z))
    child_at = get_elem?-update_self k1.procs i (newborn k1 me) gone
