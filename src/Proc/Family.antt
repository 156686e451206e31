-- ===== src/Proc/Family.antt =====
-- Parents, children and wakeups: no process is its own parent, `initproc` lives on, and no process
-- sleeps in `wait` while it has a zombie child.
use linux_project.Base.{
  ◌+◌, some_eq, sym, ◌∙◌, ℕ, ◌≡◌, ◌≢◌, refl, inl, inr, true, false, none, some, List, get_elem?,
  update, arith,
}
use linux_project.Proc.{Chan, Proc, Kernel, is_fresh, is_sleeping, is_zombie, points_to}
use linux_project.Proc.Steps.{Runs}
use linux_project.Proc.Reparent.{asleep}
use linux_project.Proc.Create.{Unused, newborn, with_slot}
use linux_project.Proc.Kept.{UpdatedAt, updated_at}
use linux_project.Proc.Waiting.{ChildAt}

pub record Family (k : Kernel) : Type 0 where
  pub selfless : (i : ℕ) (p : Proc) → get_elem? k.procs i ≡ some p → points_to p.parent i ≡ false
  pub root :
      (t : ℕ) (p : Proc)
      → k.initproc ≡ some t
      → get_elem? k.procs t ≡ some p
      → (p.parent ≡ none) × (is_fresh p.state ≡ false) × (is_zombie p.state ≡ false)
  -- No wakeup is lost.
  pub heard :
      (i c : ℕ) (p q : Proc)
      → get_elem? k.procs i ≡ some p
      → asleep (Chan.slot i) p ≡ true
      → ChildAt k.procs i c q
      → is_zombie q.state ≡ false

-- A slot that neither changes its parent nor dies, is freed or falls asleep on itself.
pub record Tame (j : ℕ) (p p' : Proc) : Type 0 where
  pub parent : p'.parent ≡ p.parent
  pub dead : is_zombie p'.state ≡ true → is_zombie p.state ≡ true
  pub sleeps : asleep (Chan.slot j) p' ≡ true → asleep (Chan.slot j) p ≡ true
  pub freed : is_fresh p'.state ≡ true → is_fresh p.state ≡ true

abbrev pub AllTame : List Proc → List Proc → Type 0
AllTame procs procs' =
    (j : ℕ) (p' : Proc)
    → get_elem? procs' j ≡ some p'
    → (p : Proc) × (get_elem? procs j ≡ some p) × Tame j p p'

pub Tame-Family :
    (k : Kernel) (procs' : List Proc) (n : ℕ)
    → AllTame k.procs procs'
    → Family k
    → Family (record k { procs = procs'; nextpid = n })
Tame-Family k procs' n tame f = record {
  selfless =
      λ i p' at. let (p, old, t) = tame i p' at in ground (arith, t.parent, f.selfless i p old);
  root = λ r p' init at.
      let (p, old, t) = tame r p' at in
      ground (arith, t.parent, t.dead, t.freed, f.root r p init old);
  heard = λ i c p' q' at sleeps (bt, child).
      let (p, old, t) = tame i p' at in
      let (q, qold, u) = tame c q' bt in
      ground (arith, t.sleeps, u.parent, u.dead, f.heard i c p q old);
}

pub update-Tame :
    (procs : List Proc) (i : ℕ) (g : Proc → Proc)
    → ((p : Proc) → get_elem? procs i ≡ some p → Tame i p (g p))
    → AllTame procs (update procs i g)
update-Tame procs i g good j p' e = go (updated_at procs i g j p' e)
  where
    go : UpdatedAt procs i g j p' → (p : Proc) × (get_elem? procs j ≡ some p) × Tame j p p'
    go (p, at, inl (here, same)) = (p, at, rw (same, ← here) (good p (rw here at)))
    go (p, at, inr (_, same)) =
        (p, at, rw same (record { parent = refl; dead = λ z. z; sleeps = λ z. z; freed = λ z. z }))

-- A slot that is free, or on its way, becomes a child of `me`.
pub adopted-Family :
    (k : Kernel) (me i n : ℕ) (g : Proc → Proc) (u : Proc)
    → Runs k me
    → get_elem? k.procs i ≡ some u
    → is_fresh u.state ≡ true
    → ((g u).parent ≡ some me) × (is_zombie (g u).state ≡ false) × (is_sleeping (g u).state ≡ false)
    → Family k
    → Family (record k { procs = update k.procs i g; nextpid = n })
adopted-Family k me i n g u run ui fresh (mine, alive, up) f = record {
  selfless = λ j p' e. selfless j p' (updated_at k.procs i g j p' e);
  root = λ t p' init e. root t p' init (updated_at k.procs i g t p' e);
  heard = λ j c p' q' e s (d, child).
      heard j c p' q' s child (updated_at k.procs i g j p' e) (updated_at k.procs i g c q' d);
}
  where
    apart : i ≢ me
    apart e = let same : get_elem? k.procs i ≡ some run.0 = rw e run.1 in ground (arith, run.2)

    here_is : (j : ℕ) (p : Proc) → i ≡ j → get_elem? k.procs j ≡ some p → p ≡ u
    here_is j p here at = some_eq (sym at ∙ rw (← here) ui)

    selfless : (j : ℕ) (p' : Proc) → UpdatedAt k.procs i g j p' → points_to p'.parent j ≡ false
    selfless j p' (p, at, inl (here, same)) =
        rw (same, here_is j p here at, mine) (ground (arith, apart, here))
    selfless j p' (p, at, inr (_, same)) = ground (arith, f.selfless j p at)

    root :
        (t : ℕ) (p' : Proc)
        → k.initproc ≡ some t
        → UpdatedAt k.procs i g t p'
        → (p'.parent ≡ none) × (is_fresh p'.state ≡ false) × (is_zombie p'.state ≡ false)
    root t p' init (p, at, inl (here, same)) = let used = (f.root t u init (rw (← here) ui)).1 in cc
    root t p' init (p, at, inr (_, same)) = rw same (f.root t p init at)

    heard :
        (j c : ℕ) (p' q' : Proc)
        → asleep (Chan.slot j) p' ≡ true
        → points_to q'.parent j ≡ true
        → UpdatedAt k.procs i g j p'
        → UpdatedAt k.procs i g c q'
        → is_zombie q'.state ≡ false
    heard j c p' q' s child a (q, d, inl (here, same)) = rw (same, here_is c q here d) alive
    heard j c p' q' s child (p, at, inl (here, sp)) (q, d, inr (_, sq)) =
        let down : is_sleeping p'.state ≡ false = rw (sp, here_is j p here at) up in ground arith
    heard j c p' q' s child (p, at, inr (_, sp)) (q, d, inr (_, sq)) =
        ground (arith, f.heard j c p q at)

pub newborn-Family :
    (k : Kernel) (me i : ℕ)
    → Runs k me
    → Unused k.procs i
    → Family k
    → Family (with_slot k i (newborn k me))
newborn-Family k me i run (u, ui, free) f =
    adopted-Family k me i (k.nextpid + 1) (newborn k me) u run ui (ground (arith, free))
      (refl, refl, refl) f
