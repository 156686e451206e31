-- ===== src/Proc/Steps.antt =====
-- Every call of the kernel on the process table keeps its invariant.
use linux_project.Base.{
  some_eq, sym, ◌∙◌, ℕ, ◌+◌, ◌≤◌, ◌≡◌, refl, inl, inr, true, false, some, List, [], ◌∷◌, ◌==◌,
  if◌then◌else◌, ltb, get_elem?, get_or_of_some, update, update-update, Bool-cases, arith,
}
use linux_project.Proc.{
  State, Chan, Proc, Kernel, is_unused, is_running, is_runnable, blank, proc_at,
}
use linux_project.Proc.Query.{check, check_loop}
use linux_project.Proc.Sched.{
  with_nice, given_cpu, dispatch, yield_cpu, count_tick, tick, awake, wakeup1, wakeup, sleep, woken,
}
use linux_project.Proc.Valid.{ProcOk, IsValid, Keeps, Keeps-update, Keeps-map, Keeps-IsValid}

-- The process at `me` has the CPU.
abbrev pub Runs : Kernel → ℕ → Type 0
Runs k me = (p : Proc) × (get_elem? k.procs me ≡ some p) × (is_running p.state ≡ true)

check_loop-le : (n ct : ℕ) (ps : List Proc) → ct ≤ check_loop n ct ps
unfolding check_loop
check_loop-le n ct [] = omega arith
check_loop-le n ct (p ∷ ps) = ground (
  arith,
  check_loop-le n (if is_unused p.state then ct else if ltb p.nice n then ct + 1 else ct) ps,
)

pub check_pos : (k : Kernel) (n : ℕ) → 1 ≤ check k n
unfolding check
check_pos k n = check_loop-le n 1 k.procs

pub dispatch-IsValid : (k : Kernel) (i : ℕ) → IsValid k → IsValid (dispatch k i)
unfolding dispatch
dispatch-IsValid k i v = elim (Bool-cases (is_runnable (proc_at k i).state)) [
  | inl go ↦
      rw (go, update-update k.procs i with_nice (given_cpu rank)) (Keeps-IsValid k _ (kept go) v)
  | inr stay ↦ rw stay v
]
  where
    k' : Kernel
    k' = record k { procs = update k.procs i with_nice }

    rank : ℕ
    rank = check k' (proc_at k' i).nice

    kept :
        is_runnable (proc_at k i).state ≡ true
        → Keeps k.nextpid k.procs (update k.procs i (λ p. given_cpu rank (with_nice p)))
    kept go = Keeps-update k.nextpid k.procs i _ λ p at. (
      refl,
      λ o. ground (arith, go, get_or_of_some k.procs i blank at, check_pos k' (proc_at k' i).nice),
    )

-- The tick that the rank allows is counted, and the one behind it takes the CPU away.
pub tick_last :
    (k : Kernel) (me : ℕ) (run : Runs k me)
    → (run.0.cpucount == run.0.prio) ≡ true
    → tick k me ≡ record k {
      procs = update k.procs me (λ p. record p { state = State.runnable; cpucount = 0 });
    }
unfolding tick
tick_last k me (p, at, run) last = rw (get_or_of_some k.procs me blank at, run, last, update-update)

pub tick_more :
    (k : Kernel) (me : ℕ) (run : Runs k me)
    → (run.0.cpucount == run.0.prio) ≡ false
    → tick k me
      ≡ record k { procs = update k.procs me (λ p. record p { cpucount = p.cpucount + 1 }) }
unfolding tick
tick_more k me (p, at, run) more = rw (get_or_of_some k.procs me blank at, run, more)

module _ (k : Kernel) (me : ℕ) (run : Runs k me) (v : IsValid k) where
  -- A change to the slot of the running process.
  change :
      (f : Proc → Proc)
      → ((p : Proc)
          → get_elem? k.procs me ≡ some p
          → is_running p.state ≡ true
          → ProcOk k.nextpid p
          → ((f p).pid ≡ p.pid) × ProcOk k.nextpid (f p))
      → IsValid (record k { procs = update k.procs me f })
  change f good =
      Keeps-IsValid k _
        (Keeps-update k.nextpid k.procs me f
          λ p at. let r = good p at (running p at) in ((r (v.ok me p at)).0, λ o. (r o).1))
        v
    where
      running : (p : Proc) → get_elem? k.procs me ≡ some p → is_running p.state ≡ true
      running p at = ground (arith, run.1, run.2)

  pub yield_cpu-IsValid : IsValid (yield_cpu k me)
  unfolding yield_cpu
  yield_cpu-IsValid = change _ λ p at r o. (refl, ground arith)

  pub sleep-IsValid : (chan : Chan) → IsValid (sleep k me chan)
  unfolding sleep
  sleep-IsValid chan = change _ λ p at r o. (refl, ground arith)

  pub woken-IsValid : IsValid (woken k me)
  unfolding woken
  woken-IsValid = change _ λ p at r o. (refl, ground arith)

  pub count_tick-IsValid : run.0.cpucount ≤ run.0.prio → IsValid (count_tick k me)
  count_tick-IsValid within = change _ λ p at r o.
      (refl, let same : p ≡ run.0 = some_eq (sym at ∙ run.1) in ground (arith, same, within))

awake-Keeps : (n : ℕ) (chan : Chan) (procs : List Proc) → Keeps n procs (wakeup1 chan procs)
unfolding wakeup1
awake-Keeps n chan procs = Keeps-map n procs (awake chan) λ p. (ground arith, λ o. ground arith)

pub wakeup-IsValid : (k : Kernel) (chan : Chan) → IsValid k → IsValid (wakeup k chan)
unfolding wakeup
wakeup-IsValid k chan v = Keeps-IsValid k _ (awake-Keeps k.nextpid chan k.procs) v
