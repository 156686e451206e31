-- ===== src/Proc/Killed.antt =====
-- `kill` with the pid 0, which free slots have.
use linux_project.Base.{
  ℕ, zero, suc, ◌+◌, ◌≡◌, ◌≢◌, refl, ◌∙◌, inl, inr, true, false, some, List, [], ◌∷◌, get_elem?,
  update, arith, Bool-cases, get_elem?-update_self, get_elem?-update_ne,
}
use linux_project.Base.Int.{pos}
use linux_project.Proc.{Proc, Kernel, is_unused}
use linux_project.Proc.Sched.{kill_proc, kill_loop, kill}
use linux_project.Proc.Life.{find_unused, fork}
use linux_project.Proc.Valid.{IsValid}
use linux_project.Proc.Steps.{Runs}
use linux_project.Proc.Create.{newborn, with_slot, fork_made}

-- No process in use has the pid 0.
abbrev Live : List Proc → Type 0
Live ps = (j : ℕ) (q : Proc) → get_elem? ps j ≡ some q → is_unused q.state ≡ false → q.pid ≢ 0

kill_loop_first :
    (c i : ℕ) (ps : List Proc) {p : Proc}
    → find_unused c ps ≡ some (c + i)
    → get_elem? ps i ≡ some p
    → p.pid ≡ 0
    → Live ps
    → kill_loop 0 ps ≡ some (update ps i kill_proc)
unfolding find_unused kill_loop
kill_loop_first c i [] first at free live = cc
kill_loop_first c zero (q ∷ ps) first at free live = ground (arith, at, free)
kill_loop_first c (suc i) (q ∷ ps) first at free live = elim (Bool-cases (is_unused q.state)) [
  | inl unused ↦ absurd (ground (arith, first, unused))
  | inr used ↦
      let later : find_unused (c + 1) ps ≡ some (c + 1 + i) = ground (arith, first, used) in
      let r = kill_loop_first (c + 1) i ps later at free (λ j q e. live (suc j) q e) in
      ground (arith, r, live 0 q refl used)
]

find_unused-kill :
    (c i : ℕ) (ps : List Proc)
    → find_unused c ps ≡ some (c + i)
    → find_unused c (update ps i kill_proc) ≡ some (c + i)
unfolding find_unused
find_unused-kill c i [] first = first
find_unused-kill c zero (q ∷ ps) first = elim (Bool-cases (is_unused q.state)) [
  | inl unused ↦ ground (arith, unused)
  | inr used ↦ ground (arith, used, first)
]
find_unused-kill c (suc i) (q ∷ ps) first = elim (Bool-cases (is_unused q.state)) [
  | inl unused ↦ absurd (ground (arith, first, unused))
  | inr used ↦
      let later : find_unused (c + 1) ps ≡ some (c + 1 + i) = ground (arith, first, used) in
      ground (arith, used, find_unused-kill (c + 1) i ps later)
]

-- Where a free slot with the pid 0 is the next one that `fork` takes, `kill` of the pid 0 succeeds, and
-- the child that `fork` puts there is marked as killed from the start.
pub fork-kill :
    (k : Kernel) (me i : ℕ) (p : Proc)
    → IsValid k
    → Runs k me
    → find_unused 0 k.procs ≡ some i
    → get_elem? k.procs i ≡ some p
    → is_unused p.state ≡ true
    → p.pid ≡ 0
    → let k1 = (kill k 0).1 in
      ((kill k 0).0 ≡ pos 0)
      × (child : Proc) × (get_elem? (fork k1 me true true).1.procs i ≡ some child)
      × (child.pid ≡ k.nextpid)
      × (child.killed ≡ true)
unfolding kill
fork-kill k me i p v (r, running, is_on) first at unused free =
    rw (hit, kill) (refl, newborn k1 me (kill_proc p), rw made child_at, refl, refl)
  where
    k1 : Kernel
    k1 = record k { procs = update k.procs i kill_proc }

    hit : kill_loop 0 k.procs ≡ some (update k.procs i kill_proc)
    hit = kill_loop_first 0 i k.procs (ground (arith, first)) at free (λ j q e. (v.ok j q e).live)

    apart : i ≢ me
    apart e = ground (arith, e, at, running, unused, is_on)

    run : Runs k1 me
    run = (r, get_elem?-update_ne k.procs i me kill_proc apart ∙ running, is_on)

    slot : get_elem? k1.procs i ≡ some (kill_proc p)
    slot = get_elem?-update_self k.procs i kill_proc at

    again : find_unused 0 k1.procs ≡ some i
    again = ground (arith, first, find_unused-kill 0 i k.procs)

    made : fork k1 me true true ≡ (pos k.nextpid, with_slot k1 i (newborn k1 me))
    made = fork_made k1 me i run (kill_proc p, slot, ground (arith, unused)) again

    child_at :
        get_elem? (with_slot k1 i (newborn k1 me)).procs i ≡ some (newborn k1 me (kill_proc p))
    child_at = get_elem?-update_self k1.procs i (newborn k1 me) slot
