-- ===== src/Proc/Sched.antt =====
-- Project2/proc.c and trap.c: the scheduler, the clock tick, and the calls by which a process leaves
-- the CPU and comes back to it. What runs under `ptable.lock` is one step.
use linux_project.Base.{
  ℕ, ◌+◌, ◌&&◌, true, Option, none, some, List, [], ◌∷◌, map, ◌==◌, if◌then◌else◌, update,
}
use mathlib.Core.Option
use linux_project.Base.Int.{ℤ, pos}
use linux_project.Proc.{
  State, Chan, Proc, Kernel, is_running, is_runnable, is_sleeping, same_chan, proc_at,
}
use linux_project.Proc.Query.{failed, check}

-- The scheduler at a slot, up to `swtch`: a runnable process has its priority set to 1 if it has
-- none, and gets its rank and the CPU.
abbrev pub with_nice : Proc → Proc
with_nice p = record p { nice = if p.nice == 0 then 1 else p.nice }

abbrev pub given_cpu : ℕ → Proc → Proc
given_cpu rank p = record p { prio = rank; state = State.running; count = p.count + 1 }

unfoldable pub dispatch : Kernel → ℕ → Kernel
dispatch k i =
    let k' = record k { procs = update k.procs i with_nice } in
    let rank = check k' (proc_at k' i).nice in
    if is_runnable (proc_at k i).state
    then record k' { procs = update k'.procs i (given_cpu rank) }
    else k

-- The scheduler behind `swtch`, when the process has given the CPU back by `sched`.
abbrev pub back : Proc → Proc
back p = record p { cpucount = 0 }

unfoldable pub yield_cpu : Kernel → ℕ → Kernel
yield_cpu k me = record k {
  procs = update k.procs me (λ p. back (record p { state = State.runnable }));
}

-- `cpucount++` of `trap` on a clock tick, which no lock covers.
abbrev pub count_tick : Kernel → ℕ → Kernel
count_tick k me = record k {
  procs = update k.procs me (λ q. record q { cpucount = q.cpucount + 1 });
}

-- `trap` on a clock tick, for the process `me` of this CPU: `cpucount++==prio` gives the CPU up.
unfoldable pub tick : Kernel → ℕ → Kernel
unfolding yield_cpu
tick k me =
    let p = proc_at k me in
    let counted = count_tick k me in
    if is_running p.state
    then (if p.cpucount == p.prio then yield_cpu counted me else counted)
    else k

abbrev pub awake : Chan → Proc → Proc
awake chan p =
    if is_sleeping p.state && same_chan p.chan chan then record p { state = State.runnable } else p

-- `wakeup1`
unfoldable pub wakeup1 : Chan → List Proc → List Proc
wakeup1 chan procs = map (awake chan) procs

unfoldable pub wakeup : Kernel → Chan → Kernel
unfolding wakeup1
wakeup k chan = record k { procs = wakeup1 chan k.procs }

-- `sleep` up to `sched`, and the scheduler behind it. `chan` is set back to 0 once the process runs
-- again, which `woken` does.
unfoldable pub sleep : Kernel → ℕ → Chan → Kernel
sleep k me chan = record k {
  procs = update k.procs me (λ p. back (record p { chan = chan; state = State.sleeping }));
}

unfoldable pub woken : Kernel → ℕ → Kernel
woken k me = record k { procs = update k.procs me (λ p. record p { chan = Chan.null }) }

abbrev pub kill_proc : Proc → Proc
kill_proc p = record p {
  killed = true;
  state = if is_sleeping p.state then State.runnable else p.state;
}

-- The loop of `kill`: the first slot with the pid.
unfoldable pub kill_loop : ℕ → List Proc → Option (List Proc)
kill_loop pid [] = none
kill_loop pid (p ∷ ps) =
    if p.pid == pid then some (kill_proc p ∷ ps) else Option.map (λ qs. p ∷ qs) (kill_loop pid ps)

unfoldable pub kill : Kernel → ℕ → ℤ × Kernel
kill k pid = elim (kill_loop pid k.procs) [
  | none ↦ (failed, k)
  | some procs ↦ (pos 0, record k { procs = procs })
]
