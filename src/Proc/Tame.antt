-- ===== src/Proc/Tame.antt =====
-- The calls that change no parent, and `fork`, keep the invariant of parents and children.
use linux_project.Base.{
  ℕ, zero, suc, ◌+◌, ◌≡◌, refl, inl, inr, Bool, some, List, [], ◌∷◌, map, ◌==◌, get_elem?, update,
  Option-cases, Bool-cases, arith, subst, update-update, get_elem?-map,
}
use linux_project.Base.Int.{ℤ, pos, negsuc}
use linux_project.Proc.{Chan, Proc, Kernel, is_runnable, proc_at}
use linux_project.Proc.Query.{renice, set_prio}
use linux_project.Proc.Sched.{
  dispatch, yield_cpu, count_tick, awake, wakeup, sleep, woken, kill_proc, kill_loop, kill,
}
use linux_project.Proc.Life.{fork}
use linux_project.Proc.Steps.{Runs}
use linux_project.Proc.Kept.{Forked, fork-Forked}
use linux_project.Proc.Family.{Family, Tame, AllTame, Tame-Family, update-Tame, newborn-Family}

-- A change to one slot, and a change to every slot.
at_slot :
    (k : Kernel) (i : ℕ) (g : Proc → Proc)
    → ((p : Proc) → get_elem? k.procs i ≡ some p → Tame i p (g p))
    → Family k
    → Family (record k { procs = update k.procs i g })
at_slot k i g good f = Tame-Family k _ k.nextpid (update-Tame k.procs i g good) f

everywhere :
    (k : Kernel) (g : Proc → Proc)
    → ((j : ℕ) (p : Proc) → Tame j p (g p))
    → Family k
    → Family (record k { procs = map g k.procs })
everywhere k g good f = Tame-Family k _ k.nextpid tame f
  where
    tame : AllTame k.procs (map g k.procs)
    tame j p' e = elim (Option-cases (get_elem? k.procs j)) [
      | inl gone ↦ ground (arith, gone, get_elem?-map g k.procs j)
      | inr (p, at) ↦ (
        p,
        at,
        subst (Tame j p) {x = g p} (ground (arith, at, get_elem?-map g k.procs j)) (good j p),
      )
    ]

pub dispatch-Family : (k : Kernel) (i : ℕ) → Family k → Family (dispatch k i)
unfolding dispatch
dispatch-Family k i f = elim (Bool-cases (is_runnable (proc_at k i).state)) [
  | inl go ↦
      rw (go, update-update)
        (at_slot k i _
          (λ p at. record { parent = refl; dead = λ z. cc; sleeps = λ z. cc; freed = λ z. cc }) f)
  | inr stay ↦ rw stay f
]

pub yield_cpu-Family : (k : Kernel) (me : ℕ) → Family k → Family (yield_cpu k me)
unfolding yield_cpu
yield_cpu-Family k me f =
    at_slot k me _
      (λ p at. record { parent = refl; dead = λ z. cc; sleeps = λ z. cc; freed = λ z. cc }) f

pub count_tick-Family : (k : Kernel) (me : ℕ) → Family k → Family (count_tick k me)
count_tick-Family k me f =
    at_slot k me _
      (λ p at. record { parent = refl; dead = λ z. z; sleeps = λ z. z; freed = λ z. z }) f

pub sleep_on-Family : (k : Kernel) (me a : ℕ) → Family k → Family (sleep k me (Chan.address a))
unfolding sleep
sleep_on-Family k me a f =
    at_slot k me _
      (λ p at. record { parent = refl; dead = λ z. cc; sleeps = λ z. cc; freed = λ z. cc }) f

pub woken-Family : (k : Kernel) (me : ℕ) → Family k → Family (woken k me)
unfolding woken
woken-Family k me f =
    at_slot k me _
      (λ p at. record { parent = refl; dead = λ z. z; sleeps = λ z. ground arith; freed = λ z. z })
      f

pub wakeup-Family : (k : Kernel) (chan : Chan) → Family k → Family (wakeup k chan)
unfolding wakeup
wakeup-Family k chan f =
    everywhere k (awake chan)
      (λ j p. record {
        parent = ground arith;
        dead = λ z. ground arith;
        sleeps = λ z. ground arith;
        freed = λ z. ground arith;
      })
      f

pub set_prio-Family : (k : Kernel) (me : ℕ) (n : ℤ) → Family k → Family (set_prio k me n).1
unfolding set_prio
set_prio-Family k me (negsuc n) f = f
set_prio-Family k me (pos zero) f = f
set_prio-Family k me (pos (suc n)) f =
    everywhere k (renice (proc_at k me).pid (suc n))
      (λ j p. record {
        parent = ground arith;
        dead = λ z. ground arith;
        sleeps = λ z. ground arith;
        freed = λ z. ground arith;
      })
      f

-- `kill` changes one slot.
kill_loop_at :
    (pid : ℕ) (ps : List Proc) {ps' : List Proc}
    → kill_loop pid ps ≡ some ps'
    → (i : ℕ) × (ps' ≡ update ps i kill_proc)
unfolding kill_loop
kill_loop_at pid [] e = cc
kill_loop_at pid (p ∷ ps) e = elim (Bool-cases (p.pid == pid)) [
  | inl hit ↦ (0, ground arith)
  | inr miss ↦ elim (Option-cases (kill_loop pid ps)) [
    | inl gone ↦ ground arith
    | inr (qs, found) ↦ let (i, same) = kill_loop_at pid ps found in (suc i, ground arith)
  ]
]

pub kill-Family : (k : Kernel) (pid : ℕ) → Family k → Family (kill k pid).1
unfolding kill
kill-Family k pid f = elim (Option-cases (kill_loop pid k.procs)) [
  | inl gone ↦ rw (gone, kill) f
  | inr (procs, found) ↦
      let (i, same) = kill_loop_at pid k.procs found in
      rw (found, kill, same)
        (at_slot k i kill_proc
          (λ p at. record {
            parent = refl;
            dead = λ z. ground arith;
            sleeps = λ z. ground arith;
            freed = λ z. ground arith;
          })
          f)
]

Forked-Family :
    (k : Kernel) (me : ℕ) {r : ℤ × Kernel} → Runs k me → Family k → Forked k me r → Family r.1
Forked-Family k me run f Forked.full = f
Forked-Family k me run f (Forked.no_memory i g (u, at, free)) =
    Tame-Family k _ (k.nextpid + 1)
      (update-Tame k.procs i _ (λ p at'. record {
        parent = refl;
        dead = λ z. cc;
        sleeps = λ z. cc;
        freed = λ z. ground arith;
      }))
      f
Forked-Family k me run f (Forked.made i free) = newborn-Family k me i run free f

pub fork-Family :
    (k : Kernel) (me : ℕ) (kalloc copyuvm : Bool)
    → Runs k me
    → Family k
    → Family (fork k me kalloc copyuvm).1
fork-Family k me kalloc copyuvm run f =
    Forked-Family k me run f (fork-Forked k me kalloc copyuvm run)
