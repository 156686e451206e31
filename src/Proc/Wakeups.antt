-- ===== src/Proc/Wakeups.antt =====
-- `wait` and `exit` lose no wakeup: they keep the invariant of parents and children.
use mathlib.Core.Option
use linux_project.Base.{
  ℕ, ◌≡◌, ◌≢◌, ◌∙◌, sym, ap, inl, inr, ◌⊎◌, true, false, Option, none, some, length, get_elem?,
  get_or_of_some, update, Bool-cases, arith, ℕ_discrete, get_elem?-update_ne, get_elem?-map,
  lt_of_get_elem?,
}
use linux_project.Proc.{
  State, Chan, Proc, Kernel, is_fresh, is_sleeping, is_zombie, chan_of, points_to, blank, proc_at,
}
use linux_project.Proc.Sched.{sleep, back, awake, wakeup1}
use linux_project.Proc.Life.{exit, reaped}
use linux_project.Proc.Steps.{Runs}
use linux_project.Proc.Reparent.{asleep, reparent_wakes}
use linux_project.Proc.Exit.{ExitedAt, handed_over, exit-table, exit_slot, gone_zombie}
use linux_project.Proc.Kept.{UpdatedAt, updated_at}
use linux_project.Proc.Waiting.{ChildAt}
use linux_project.Proc.Family.{Family}

pub reaped-Family :
    (k : Kernel) (i : ℕ) (z : Proc)
    → get_elem? k.procs i ≡ some z
    → is_zombie z.state ≡ true
    → Family k
    → Family (record k { procs = update k.procs i reaped })
reaped-Family k i z zi dead f = record {
  selfless = λ j p' e. selfless j p' (updated_at k.procs i reaped j p' e);
  root = λ t p' init e. root t p' init (updated_at k.procs i reaped t p' e);
  heard = λ j c p' q' e s (d, child).
      heard j c p' q' s child (updated_at k.procs i reaped j p' e)
        (updated_at k.procs i reaped c q' d);
}
  where
    selfless : (j : ℕ) (p' : Proc) → UpdatedAt k.procs i reaped j p' → points_to p'.parent j ≡ false
    selfless j p' (p, at, inl (here, same)) = ground arith
    selfless j p' (p, at, inr (_, same)) = ground (arith, f.selfless j p at)

    root :
        (t : ℕ) (p' : Proc)
        → k.initproc ≡ some t
        → UpdatedAt k.procs i reaped t p'
        → (p'.parent ≡ none) × (is_fresh p'.state ≡ false) × (is_zombie p'.state ≡ false)
    root t p' init (p, at, inl (here, same)) =
        let alive = (f.root t z init (rw (← here) zi)).2 in cc
    root t p' init (p, at, inr (_, same)) = rw same (f.root t p init at)

    heard :
        (j c : ℕ) (p' q' : Proc)
        → asleep (Chan.slot j) p' ≡ true
        → points_to q'.parent j ≡ true
        → UpdatedAt k.procs i reaped j p'
        → UpdatedAt k.procs i reaped c q'
        → is_zombie q'.state ≡ false
    heard j c p' q' s child a (q, d, inl (_, same)) = ground arith
    heard j c p' q' s child (p, at, inl (_, sp)) (q, d, inr (_, sq)) = ground arith
    heard j c p' q' s child (p, at, inr (_, sp)) (q, d, inr (_, sq)) =
        ground (arith, f.heard j c p q at)

-- `wait` goes to sleep only while no child is a zombie.
pub sleep-Family :
    (k : Kernel) (me : ℕ)
    → Runs k me
    → ((c : ℕ) (q : Proc) → ChildAt k.procs me c q → is_zombie q.state ≡ false)
    → Family k
    → Family (sleep k me (Chan.slot me))
unfolding sleep
sleep-Family k me (m, at_me, run) living f = record {
  selfless = λ j p' e. selfless j p' (updated_at k.procs me g j p' e);
  root = λ t p' init e. root t p' init (updated_at k.procs me g t p' e);
  heard = λ j c p' q' e s (d, child).
      heard j c p' q' s child (updated_at k.procs me g j p' e) (updated_at k.procs me g c q' d);
}
  where
    g : Proc → Proc
    g p = back (record p { chan = Chan.slot me; state = State.sleeping })

    selfless : (j : ℕ) (p' : Proc) → UpdatedAt k.procs me g j p' → points_to p'.parent j ≡ false
    selfless j p' (p, at, inl (here, same)) = ground (arith, f.selfless j p at)
    selfless j p' (p, at, inr (_, same)) = ground (arith, f.selfless j p at)

    root :
        (t : ℕ) (p' : Proc)
        → k.initproc ≡ some t
        → UpdatedAt k.procs me g t p'
        → (p'.parent ≡ none) × (is_fresh p'.state ≡ false) × (is_zombie p'.state ≡ false)
    root t p' init (p, at, inl (here, same)) = ground (arith, f.root t p init at)
    root t p' init (p, at, inr (_, same)) = rw same (f.root t p init at)

    heard :
        (j c : ℕ) (p' q' : Proc)
        → asleep (Chan.slot j) p' ≡ true
        → points_to q'.parent j ≡ true
        → UpdatedAt k.procs me g j p'
        → UpdatedAt k.procs me g c q'
        → is_zombie q'.state ≡ false
    heard j c p' q' s child a (q, d, inl (_, same)) = ground arith
    heard j c p' q' s child (p, at, inl (here, sp)) (q, d, inr (_, sq)) = ground (arith, living c q)
    heard j c p' q' s child (p, at, inr (_, sp)) (q, d, inr (_, sq)) =
        ground (arith, f.heard j c p q at)

module _ (k : Kernel) (me : ℕ) (run : Runs k me) (f : Family k) where
  -- The children that go to `initproc` dead have woken it.
  root_woken :
      (t c : ℕ) (p' q : Proc)
      → t ≢ me
      → k.initproc ≡ some t
      → ChildAt k.procs me c q
      → is_zombie q.state ≡ true
      → get_elem? (update (handed_over k me) me gone_zombie) t ≡ some p'
      → asleep (Chan.slot t) p' ≡ false
  unfolding wakeup1
  root_woken t c p' q ne init (at, child) dead e = rw init at (
      reparent_wakes (length k.procs) 0 me c k.initproc
        (wakeup1 (chan_of (proc_at k me).parent) k.procs) (awake (chan_of (proc_at k me).parent) q)
        (omega arith) (omega (arith, lt_of_get_elem? k.procs c at))
        (get_elem?-map (awake (chan_of (proc_at k me).parent)) k.procs c ∙ ap (Option.map _) at)
        (ground arith) (ground arith) t p'
        (sym (get_elem?-update_ne (handed_over k me) me t gone_zombie (λ e. ne (sym e))) ∙ e))

  its_parent : (q : Proc) → get_elem? k.procs me ≡ some q → (proc_at k me).parent ≡ q.parent
  its_parent q at = ap (λ (p : Proc). p.parent) (get_or_of_some k.procs me blank at)

  points_to_eq : (o : Option ℕ) (i : ℕ) → points_to o i ≡ true → o ≡ some i
  points_to_eq none i e = cc
  points_to_eq (some j) i e = ground arith

  sibling_alive :
      (i c : ℕ) (p' q' : Proc)
      → get_elem? (update (handed_over k me) me gone_zombie) i ≡ some p'
      → asleep (Chan.slot i) p' ≡ true
      → points_to q'.parent i ≡ true
      → (x : ExitedAt k me i p') (y : ExitedAt k me c q')
      → (p'.cpucount ≡ x.p.cpucount)
        × ((p'.state ≡ x.p.state) ⊎ ((is_sleeping x.p.state ≡ true) × (p'.state ≡ State.runnable)))
      → (q'.state ≡ y.p.state) ⊎ ((is_sleeping y.p.state ≡ true) × (q'.state ≡ State.runnable))
      → is_zombie q'.state ≡ false
  sibling_alive i c p' q' e s child x y px qx = elim (Bool-cases (points_to y.p.parent me)) [
    | inl handed ↦ elim (Bool-cases (is_zombie y.p.state)) [
      | inr alive ↦ ground arith
      | inl dead ↦ elim (ℕ_discrete i me) [
        | yes mine ↦ let z = (x.exited.mine mine).0 in ground arith
        | no other ↦
            let init : k.initproc ≡ some i =
              points_to_eq k.initproc i (ground (arith, y.exited.parent)) in
            let awake_now = root_woken i c p' y.p other init (y.at, handed) dead e in cc
      ]
    ]
    | inr own ↦ ground (arith, x.exited.rest, y.exited.parent, f.heard i c x.p y.p x.at)
  ]

  alive_child :
      (i c : ℕ) (p' q' : Proc)
      → get_elem? (update (handed_over k me) me gone_zombie) i ≡ some p'
      → asleep (Chan.slot i) p' ≡ true
      → points_to q'.parent i ≡ true
      → ExitedAt k me i p'
      → ExitedAt k me c q'
      → is_zombie q'.state ≡ false
  alive_child i c p' q' e s child x y = elim (ℕ_discrete i me) [
    | yes mine ↦ let z = (x.exited.mine mine).0 in ground arith
    | no other ↦
        let woken = x.exited.woken other in
        let px = x.exited.other other in
        elim (ℕ_discrete c me) [
          | yes dying ↦
              let up = its_parent y.p (rw (← dying) y.at) in
              ground
                (arith, woken, px, x.exited.rest, y.exited.parent, up, dying, f.selfless c y.p y.at)
          | no sibling ↦ sibling_alive i c p' q' e s child x y px (y.exited.other sibling).1
        ]
  ]

  pub exit-Family : {k' : Kernel} → exit k me ≡ some k' → Family k'
  exit-Family e = rw (exit-table k me e).0 (record {
    selfless = λ i p' at.
        let x = exit_slot k me i p' at in
        ground (arith, x.exited.parent, f.selfless i x.p x.at, f.root i x.p);
    root = λ t p' init at.
        let x = exit_slot k me t p' at in
        let other : t ≢ me = ground (arith, (exit-table k me e).1) in
        ground (arith, x.exited.parent, x.exited.other other, f.root t x.p init x.at);
    heard = λ i c p' q' at s (bt, child).
        alive_child i c p' q' at s child (exit_slot k me i p' at) (exit_slot k me c q' bt);
  })
