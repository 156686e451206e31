-- ===== src/Proc/Reach.antt =====
-- The kernel from boot on, by any calls of its processes and any choices of the scheduler. What runs
-- under `ptable.lock` is one step. Of `fork` and of the clock tick each part outside the lock is a
-- step of its own, between which any other comes in; `forks` is a `fork` that nothing interrupts.
use linux_project.Base.{
  ℕ, zero, suc, ◌≤◌, ◌≡◌, ◌≢◌, refl, inl, inr, ◌⊎◌, Bool, true, none, some, ◌∷◌, get_elem?, arith,
  subst, replicate, get_elem?-replicate,
}
use linux_project.Base.Int.{ℤ}
use linux_project.Proc.{State, Chan, Proc, Kernel, blank}
use linux_project.Proc.Query.{set_prio}
use linux_project.Proc.Sched.{dispatch, yield_cpu, count_tick, wakeup, sleep, woken, kill}
use linux_project.Proc.Life.{
  page_size, find_unused, allocproc, userinit, alloc_slot, alloc_stack, copy_memory, make_runnable,
  fork, exit, Wait, wait,
}
use linux_project.Proc.Valid.{IsValid}
use linux_project.Proc.Steps.{
  Runs, dispatch-IsValid, yield_cpu-IsValid, count_tick-IsValid, sleep-IsValid, woken-IsValid,
  wakeup-IsValid,
}
use linux_project.Proc.Kept.{fork-IsValid, exit-IsValid, reaped-IsValid}
use linux_project.Proc.Marked.{kill-IsValid, set_prio-IsValid}
use linux_project.Proc.Waiting.{Waited, wait-Waited}
use linux_project.Proc.Family.{Family}
use linux_project.Proc.Tame.{
  dispatch-Family, count_tick-Family, yield_cpu-Family, sleep_on-Family, woken-Family,
  wakeup-Family, kill-Family, set_prio-Family, fork-Family,
}
use linux_project.Proc.Embryo.{
  Embryo, alloc_slot-IsValid, alloc_slot-Family, alloc_stack-IsValid, alloc_stack-Family,
  copy_memory-IsValid, copy_memory-Family, make_runnable-IsValid, make_runnable-Family,
}
use linux_project.Proc.Wakeups.{reaped-Family, sleep-Family, exit-Family}

-- The kernel before `userinit`, with NPROC slots.
abbrev pub boot : ℕ → Kernel
boot nproc = record { procs = replicate nproc blank; nextpid = 1; initproc = none }

pub data Step (k : Kernel) : Kernel → Type 0 where
  dispatches : (i : ℕ) → Step k (dispatch k i)
  -- A process whose count has passed its rank is on its way to `yield`, with interrupts off.
  counts : (me : ℕ) (run : Runs k me) → run.0.cpucount ≤ run.0.prio → Step k (count_tick k me)
  yields : (me : ℕ) → Runs k me → Step k (yield_cpu k me)
  sleeps_on : (me a : ℕ) → Runs k me → Step k (sleep k me (Chan.address a))
  wakes_from_sleep : (me : ℕ) → Runs k me → Step k (woken k me)
  wakeups : (a : ℕ) → Step k (wakeup k (Chan.address a))
  kills : (pid : ℕ) → Step k (kill k pid).1
  sets_prio : (me : ℕ) (n : ℤ) → Runs k me → Step k (set_prio k me n).1
  forks : (me : ℕ) (kalloc copyuvm : Bool) → Runs k me → Step k (fork k me kalloc copyuvm).1
  allocs : (me : ℕ) → Runs k me → Step k (alloc_slot k)
  stacks : (i : ℕ) (kalloc : Bool) → Embryo k i → Step k (alloc_stack k i kalloc)
  copies :
      (me i : ℕ) (copyuvm : Bool) → Runs k me → Embryo k i → Step k (copy_memory k me i copyuvm)
  readies : (i : ℕ) (e : Embryo k i) → e.0.kstack ≡ true → Step k (make_runnable k i)
  exits : (me : ℕ) {k' : Kernel} → Runs k me → exit k me ≡ some k' → Step k k'
  wait_returns :
      (me : ℕ) (r : ℤ) {k' : Kernel} → Runs k me → wait k me ≡ Wait.returns r k' → Step k k'
  wait_sleeps : (me : ℕ) {k' : Kernel} → Runs k me → wait k me ≡ Wait.sleeps k' → Step k k'

pub data Reach (nproc : ℕ) : Kernel → Type 0 where
  started : {k : Kernel} → userinit (boot nproc) true true ≡ some k → Reach nproc k
  later : {k k' : Kernel} → Reach nproc k → Step k k' → Reach nproc k'

-- After a round of `wait`.
after_wait : Wait → Kernel
after_wait (Wait.returns r k) = k
after_wait (Wait.sleeps k) = k

Waited-IsValid :
    (k : Kernel) (me : ℕ) {w : Wait}
    → Runs k me
    → IsValid k
    → Waited k me w
    → IsValid (after_wait w)
unfolding after_wait
Waited-IsValid k me run v (Waited.reaps i p child dead) =
    reaped-IsValid k i (λ q at. ground (arith, child, dead)) v
Waited-IsValid k me run v (Waited.fails living why) = v
Waited-IsValid k me run v (Waited.blocks living i p child up) =
    sleep-IsValid k me run v (Chan.slot me)

Waited-Family :
    (k : Kernel) (me : ℕ) {w : Wait} → Runs k me → Family k → Waited k me w → Family (after_wait w)
unfolding after_wait
Waited-Family k me run f (Waited.reaps i p child dead) = reaped-Family k i p child.0 dead f
Waited-Family k me run f (Waited.fails living why) = f
Waited-Family k me run f (Waited.blocks living i p child up) = sleep-Family k me run living f

pub Step-IsValid : {k k' : Kernel} → Step k k' → IsValid k → IsValid k'
unfolding after_wait
Step-IsValid {k} (dispatches i) v = dispatch-IsValid k i v
Step-IsValid {k} (counts me run within) v = count_tick-IsValid k me run v within
Step-IsValid {k} (yields me run) v = yield_cpu-IsValid k me run v
Step-IsValid {k} (sleeps_on me a run) v = sleep-IsValid k me run v (Chan.address a)
Step-IsValid {k} (wakes_from_sleep me run) v = woken-IsValid k me run v
Step-IsValid {k} (wakeups a) v = wakeup-IsValid k (Chan.address a) v
Step-IsValid {k} (kills pid) v = kill-IsValid k pid v
Step-IsValid {k} (sets_prio me n run) v = set_prio-IsValid k me n v
Step-IsValid {k} (forks me kalloc copyuvm run) v = fork-IsValid k me kalloc copyuvm run v
Step-IsValid {k} (allocs me run) v = alloc_slot-IsValid k v
Step-IsValid {k} (stacks i kalloc e) v = alloc_stack-IsValid k i e kalloc v
Step-IsValid {k} (copies me i copyuvm run e) v = copy_memory-IsValid k i e me copyuvm v
Step-IsValid {k} (readies i e ready) v = make_runnable-IsValid k i e ready v
Step-IsValid {k} (exits me run e) v = exit-IsValid k me run v e
Step-IsValid {k} (wait_returns me r run e) v =
    subst (λ w. IsValid (after_wait w)) e (Waited-IsValid k me run v (wait-Waited k me))
Step-IsValid {k} (wait_sleeps me run e) v =
    subst (λ w. IsValid (after_wait w)) e (Waited-IsValid k me run v (wait-Waited k me))

pub Step-Family : {k k' : Kernel} → Step k k' → Family k → Family k'
unfolding after_wait
Step-Family {k} (dispatches i) f = dispatch-Family k i f
Step-Family {k} (counts me run within) f = count_tick-Family k me f
Step-Family {k} (yields me run) f = yield_cpu-Family k me f
Step-Family {k} (sleeps_on me a run) f = sleep_on-Family k me a f
Step-Family {k} (wakes_from_sleep me run) f = woken-Family k me f
Step-Family {k} (wakeups a) f = wakeup-Family k (Chan.address a) f
Step-Family {k} (kills pid) f = kill-Family k pid f
Step-Family {k} (sets_prio me n run) f = set_prio-Family k me n f
Step-Family {k} (forks me kalloc copyuvm run) f = fork-Family k me kalloc copyuvm run f
Step-Family {k} (allocs me run) f = alloc_slot-Family k f
Step-Family {k} (stacks i kalloc e) f = alloc_stack-Family k i e kalloc f
Step-Family {k} (copies me i copyuvm run e) f = copy_memory-Family k i e me copyuvm run f
Step-Family {k} (readies i e ready) f = make_runnable-Family k i e f
Step-Family {k} (exits me run e) f = exit-Family k me run f e
Step-Family {k} (wait_returns me r run e) f =
    subst (λ w. Family (after_wait w)) e (Waited-Family k me run f (wait-Waited k me))
Step-Family {k} (wait_sleeps me run e) f =
    subst (λ w. Family (after_wait w)) e (Waited-Family k me run f (wait-Waited k me))

-- The table as `userinit` leaves it: `initproc` in slot 0, and nothing else.
abbrev pub init_proc : Proc
init_proc = record blank { sz = page_size; kstack = true; state = State.runnable; pid = 1 }

abbrev pub first_kernel : ℕ → Kernel
first_kernel n = record { procs = init_proc ∷ replicate n blank; nextpid = 2; initproc = some 0 }

first_slots :
    (n i : ℕ) (p : Proc)
    → get_elem? (first_kernel n).procs i ≡ some p
    → ((i ≡ 0) × (p ≡ init_proc)) ⊎ ((i ≢ 0) × (p ≡ blank))
first_slots n zero p e = inl (refl, ground arith)
first_slots n (suc i) p e = inr (omega arith, get_elem?-replicate n blank i e)

first-IsValid : (n : ℕ) → IsValid (first_kernel n)
first-IsValid n = record {
  started = omega arith;
  ok = λ i p e. ground (arith, first_slots n i p e);
  distinct = λ i j p q ei ej same ne. ground (arith, first_slots n i p ei, first_slots n j q ej);
}

first-Family : (n : ℕ) → Family (first_kernel n)
first-Family n = record {
  selfless = λ i p e. ground (arith, first_slots n i p e);
  root = λ t p init e. ground (arith, first_slots n t p e);
  heard = λ i c p q e s (d, child). ground (arith, first_slots n i p e);
}

first_lem :
    (nproc : ℕ) {k : Kernel}
    → userinit (boot nproc) true true ≡ some k
    → (n : ℕ) × (first_kernel n ≡ k)
unfolding userinit allocproc find_unused
first_lem zero e = cc
first_lem (suc n) e = (n, ground arith)

-- In every state that the kernel reaches, also between the parts of a `fork` and of a clock tick: a
-- process that is not UNUSED has a pid, below `nextpid` and shared with no other slot, and, unless it
-- is an EMBRYO, a kernel stack, which an UNUSED slot has not; and the ticks counted for a process are
-- at most one more than its rank while it is RUNNING, and none otherwise.
pub Reach-IsValid : (nproc : ℕ) {k : Kernel} → Reach nproc k → IsValid k
Reach-IsValid nproc (started e) =
    let (n, same) = first_lem nproc e in subst IsValid same (first-IsValid n)
Reach-IsValid nproc (later r s) = Step-IsValid s (Reach-IsValid nproc r)

-- In every state that the kernel reaches, also between the parts of a `fork`: no process is its own parent, `initproc` has no parent and
-- is neither UNUSED, an EMBRYO nor a ZOMBIE, and no wakeup is lost: a process that sleeps in `wait` has no child
-- that is a ZOMBIE.
pub Reach-Family : (nproc : ℕ) {k : Kernel} → Reach nproc k → Family k
Reach-Family nproc (started e) =
    let (n, same) = first_lem nproc e in subst Family same (first-Family n)
Reach-Family nproc (later r s) = Step-Family s (Reach-Family nproc r)
