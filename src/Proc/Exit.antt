-- ===== src/Proc/Exit.antt =====
-- What `exit` does to each slot of the table: who is woken, and whose children go to `initproc`.
use linux_project.Base.{
  ℕ, ◌<◌, ◌≡◌, ◌≢◌, inl, inr, ◌⊎◌, true, false, some, List, map, ◌==◌, if◌then◌else◌, length,
  get_elem?, get_elem?-update, get_elem?-map, update, Option-cases, arith, subst, lt_of_get_elem?,
}
use linux_project.Proc.{State, Proc, Kernel, is_sleeping, chan_of, points_to, proc_at}
use linux_project.Proc.Sched.{awake, wakeup1}
use linux_project.Proc.Life.{reparent, exit}
use linux_project.Proc.Reparent.{Moved, reparent-Moved, asleep}

-- A slot `j` before and after `exit` by `me`.
pub record Exited (k : Kernel) (me j : ℕ) (p p' : Proc) : Type 0 where
  pub parent : p'.parent ≡ (if points_to p.parent me then k.initproc else p.parent)
  pub rest : p' ≡ record p { parent = p'.parent; state = p'.state; cpucount = p'.cpucount }
  pub mine : j ≡ me → (p'.state ≡ State.zombie) × (p'.cpucount ≡ 0)
  pub other :
      j ≢ me
      → (p'.cpucount ≡ p.cpucount)
        × ((p'.state ≡ p.state) ⊎ ((is_sleeping p.state ≡ true) × (p'.state ≡ State.runnable)))
  pub woken : j ≢ me → asleep (chan_of (proc_at k me).parent) p ≡ true → p'.state ≡ State.runnable

pub record ExitedAt (k : Kernel) (me j : ℕ) (p' : Proc) : Type 0 where
  pub p : Proc
  pub at : get_elem? k.procs j ≡ some p
  pub exited : Exited k me j p p'

abbrev pub handed_over : Kernel → ℕ → List Proc
handed_over k me =
    reparent (length k.procs) 0 me k.initproc (wakeup1 (chan_of (proc_at k me).parent) k.procs)

abbrev pub gone_zombie : Proc → Proc
gone_zombie p = record p { state = State.zombie; cpucount = 0 }

pub exit-table :
    (k : Kernel) (me : ℕ) {k' : Kernel}
    → exit k me ≡ some k'
    → (k' ≡ record k { procs = update (handed_over k me) me gone_zombie })
      × (points_to k.initproc me ≡ false)
unfolding exit
exit-table k me e = (ground arith, ground arith)

Exited-of :
    (k : Kernel) (me j : ℕ) (p r : Proc)
    → Moved me k.initproc 0 (length k.procs) j (awake (chan_of (proc_at k me).parent) p) r
    → j < length k.procs
    → Exited k me j p (if me == j then gone_zombie r else r)
Exited-of k me j p r m lt = record {
  parent = ground (arith, m.parent);
  rest = ground (arith, m.rest);
  mine = λ e. ground arith;
  other = λ ne. ground (arith, m.state, m.rest);
  woken = λ ne a. ground (arith, m.state);
}

-- After `exit`, slot by slot.
pub exit_slot :
    (k : Kernel) (me j : ℕ) (p' : Proc)
    → get_elem? (update (handed_over k me) me gone_zombie) j ≡ some p'
    → ExitedAt k me j p'
unfolding wakeup1
exit_slot k me j p' e = elim (Option-cases (get_elem? (handed_over k me) j)) [
  | inl gone ↦ ground (arith, gone, get_elem?-update (handed_over k me) me j gone_zombie)
  | inr (r, at) ↦
      let m =
        reparent-Moved (length k.procs) 0 me k.initproc
          (wakeup1 (chan_of (proc_at k me).parent) k.procs) j r at in
      go r at m.p m.at (subst (λ n. Moved me k.initproc 0 n j m.p r) (omega arith) m.moved)
]
  where
    go :
        (r : Proc)
        → get_elem? (handed_over k me) j ≡ some r
        → (w : Proc) → get_elem? (map (awake (chan_of (proc_at k me).parent)) k.procs) j ≡ some w
        → Moved me k.initproc 0 (length k.procs) j w r
        → ExitedAt k me j p'
    go r at w wat m = elim (Option-cases (get_elem? k.procs j)) [
      | inl gone ↦
          ground (arith, gone, get_elem?-map (awake (chan_of (proc_at k me).parent)) k.procs j)
      | inr (p, pat) ↦
          let same : w ≡ awake (chan_of (proc_at k me).parent) p =
            ground
              (arith, wat, pat, get_elem?-map (awake (chan_of (proc_at k me).parent)) k.procs j) in
          let result : (if me == j then gone_zombie r else r) ≡ p' =
            ground (arith, at, get_elem?-update (handed_over k me) me j gone_zombie) in
          subst (ExitedAt k me j) result (record {
            p = p;
            at = pat;
            exited =
                Exited-of k me j p r
                  (subst (λ x. Moved me k.initproc 0 (length k.procs) j x r) same m)
                  (lt_of_get_elem? k.procs j pat);
          })
    ]
