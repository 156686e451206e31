-- ===== src/Proc/Life.antt =====
-- Project2/proc.c: how a process comes to be and goes: `allocproc`, `userinit`, `fork`, `exit`, `wait`.
-- Page tables, trap frames, files and directories are outside the model; whether memory was to be
-- had, which `kalloc`, `copyuvm` and `setupkvm` say, is an argument.
use linux_project.Base.{
  ℕ, zero, suc, ◌+◌, ◌&&◌, ◌||◌, Bool, true, false, not, Option, none, some, List, [], ◌∷◌,
  if◌then◌else◌, length, get_or, update,
}
use linux_project.Base.Int.{ℤ, pos}
use linux_project.Proc.{
  State, Chan, Proc, Kernel, blank, is_unused, is_zombie, chan_of, points_to, proc_at,
}
use linux_project.Proc.Query.{failed}
use linux_project.Proc.Sched.{back, wakeup1, sleep}

-- The search loop of `allocproc`, from index `i` on.
unfoldable pub find_unused : ℕ → List Proc → Option ℕ
find_unused i [] = none
find_unused i (p ∷ ps) = if is_unused p.state then some i else find_unused (i + 1) ps

abbrev pub embryo_of : ℕ → Proc → Proc
embryo_of pid p = record p { state = State.embryo; pid = pid }

abbrev pub given_stack : Bool → Proc → Proc
given_stack kalloc p = record p {
  kstack = kalloc;
  state = if kalloc then p.state else State.unused;
}

-- `allocproc`: the slot, or `none` for 0.
unfoldable pub allocproc : Kernel → Bool → Option ℕ × Kernel
allocproc k kalloc = elim (find_unused 0 k.procs) [
  | none ↦ (none, k)
  | some i ↦ (
    if kalloc then some i else none,
    record k {
      procs = update k.procs i (λ p. given_stack kalloc (embryo_of k.nextpid p));
      nextpid = k.nextpid + 1;
    },
  )
]

-- The parts of `allocproc` and `fork` between which other calls come in. Under the lock: the slot.
unfoldable pub alloc_slot : Kernel → Kernel
alloc_slot k = elim (find_unused 0 k.procs) [
  | none ↦ k
  | some i ↦ record k { procs = update k.procs i (embryo_of k.nextpid); nextpid = k.nextpid + 1 }
]

-- Without the lock: the kernel stack of the embryo in slot `i`, and what it has from its parent.
unfoldable pub alloc_stack : Kernel → ℕ → Bool → Kernel
alloc_stack k i kalloc = record k { procs = update k.procs i (given_stack kalloc) }

unfoldable pub copy_memory : Kernel → (me i : ℕ) → Bool → Kernel
copy_memory k me i copyuvm =
    let ppid = (proc_at k me).pid in
    let sz = (proc_at k me).sz in
    if copyuvm
    then record k {
      procs = update k.procs i (λ p. record p { ppid = ppid; sz = sz; parent = some me });
    }
    else record k {
      procs =
          update k.procs i (λ p. record p { ppid = ppid; kstack = false; state = State.unused });
    }

-- Under the lock again: the child may run.
unfoldable pub make_runnable : Kernel → ℕ → Kernel
make_runnable k i = record k { procs = update k.procs i (λ p. record p { state = State.runnable }) }

-- PGSIZE of mmu.h
abbrev pub page_size : ℕ
page_size = 4096

-- `userinit`, with what `allocproc` gave. `none`: a panic, or the null pointer of a full table.
unfoldable pub userinit_with : Bool → Option ℕ × Kernel → Option Kernel
userinit_with setupkvm (none, k) = none
userinit_with setupkvm (some i, k) =
    if setupkvm
    then some (record k {
      procs = update k.procs i (λ p. record p { sz = page_size; state = State.runnable });
      initproc = some i;
    })
    else none

unfoldable pub userinit : Kernel → Bool → Bool → Option Kernel
unfolding userinit_with
userinit k kalloc setupkvm = userinit_with setupkvm (allocproc k kalloc)

abbrev pub child_of : Kernel → ℕ → Proc → Proc
child_of k me p = record p {
  ppid = (proc_at k me).pid;
  sz = (proc_at k me).sz;
  parent = some me;
  state = State.runnable;
}

abbrev pub undone : Kernel → ℕ → Proc → Proc
undone k me p = record p { ppid = (proc_at k me).pid; kstack = false; state = State.unused }

-- `fork`, with what `allocproc` gave.
unfoldable pub fork_with : ℕ → Bool → Option ℕ × Kernel → ℤ × Kernel
fork_with me copyuvm (none, k) = (failed, k)
fork_with me copyuvm (some i, k) =
    if copyuvm
    then (pos (proc_at k i).pid, record k { procs = update k.procs i (child_of k me) })
    else (failed, record k { procs = update k.procs i (undone k me) })

unfoldable pub fork : Kernel → ℕ → Bool → Bool → ℤ × Kernel
unfolding fork_with
fork k me kalloc copyuvm = fork_with me copyuvm (allocproc k kalloc)

-- The loop of `exit` that hands the children of `me` to `initproc`, with the rounds that are left.
unfoldable pub reparent : ℕ → ℕ → ℕ → Option ℕ → List Proc → List Proc
unfolding wakeup1
reparent zero i me init procs = procs
reparent (suc n) i me init procs =
    let p = get_or procs i blank in
    let moved = update procs i (λ p. record p { parent = init }) in
    let next =
      if points_to p.parent me
      then (if is_zombie p.state then wakeup1 (chan_of init) moved else moved)
      else procs in
    reparent n (i + 1) me init next

-- `exit`. `none`: `initproc` exits, a panic.
unfoldable pub exit : Kernel → ℕ → Option Kernel
unfolding wakeup1 reparent
exit k me =
    let woken = wakeup1 (chan_of (proc_at k me).parent) k.procs in
    let moved = reparent (length k.procs) 0 me k.initproc woken in
    if points_to k.initproc me
    then none
    else some (record k { procs = update moved me (λ p. back (record p { state = State.zombie })) })

-- One scan of `wait`: the first zombie child, or `havekids`.
pub data Scan : Type 0 where
  found : ℕ → Scan
  nothing : Bool → Scan

unfoldable pub wait_scan : ℕ → Bool → ℕ → List Proc → Scan
wait_scan me havekids i [] = Scan.nothing havekids
wait_scan me havekids i (p ∷ ps) = elim (points_to p.parent me && is_zombie p.state) [
  | true ↦ Scan.found i
  | false ↦ wait_scan me (if points_to p.parent me then true else havekids) (i + 1) ps
]

abbrev pub reaped : Proc → Proc
reaped p = record p { kstack = false; pid = 0; parent = none; killed = false; state = State.unused }

-- What a round of `wait` comes to: a value returned, or a sleep with another round behind it.
pub data Wait : Type 0 where
  returns : ℤ → Kernel → Wait
  sleeps : Kernel → Wait

unfoldable pub wait : Kernel → ℕ → Wait
unfolding wait_scan sleep
wait k me = elim (wait_scan me false 0 k.procs) [
  | found i ↦ Wait.returns (pos (proc_at k i).pid) (record k { procs = update k.procs i reaped })
  | nothing havekids ↦
      if not havekids || (proc_at k me).killed
      then Wait.returns failed k
      else Wait.sleeps (sleep k me (Chan.slot me))
]
