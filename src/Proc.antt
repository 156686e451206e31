-- ===== src/Proc.antt =====
-- Project2: the process table of the kernel (proc.h, proc.c, trap.c), with the priorities, counters
-- and queries that the project adds to it.
pub mod Query
pub mod Life
pub mod Sched
pub mod Valid
pub mod Steps
pub mod Reparent
pub mod Exit
pub mod Create
pub mod Kept
pub mod Marked
pub mod Waiting
pub mod Family
pub mod Tame
pub mod Embryo
pub mod Wakeups
pub mod Reach
pub mod Priority
pub mod Info
pub mod Orphans
pub mod Killed
mod Tests
pub mod Slice
use linux_project.Base.{
  ℕ, zero, suc, Bool, true, false, Option, none, some, List, [], ◌∷◌, ◌==◌, get_or,
}

-- `enum procstate`
pub data State : Type 0 where
  unused embryo sleeping runnable running zombie : State

-- What a process can sleep on: nothing (0), a slot of the table (`wait` sleeps on `curproc`), or any
-- other address of the kernel, such as `&ticks`.
pub data Chan : Type 0 where
  null : Chan
  slot : ℕ → Chan
  address : ℕ → Chan

-- `struct proc`. `parent` is the slot that the pointer names. `kstack` says whether the pointer is
-- set. `pid`, `count` and `cpucount` are taken not to wrap, and `nice` is never negative, since
-- `set_prio` refuses that.
pub record Proc : Type 0 where
  pub sz : ℕ
  pub kstack : Bool
  pub state : State
  pub pid : ℕ
  pub parent : Option ℕ
  pub chan : Chan
  pub killed : Bool
  pub count : ℕ
  pub ppid : ℕ
  pub nice : ℕ
  pub cpucount : ℕ
  pub prio : ℕ

-- The globals `ptable`, `nextpid` and `initproc`.
pub record Kernel : Type 0 where
  pub procs : List Proc
  pub nextpid : ℕ
  pub initproc : Option ℕ

abbrev pub is_unused : State → Bool
is_unused State.unused = true
is_unused _ = false

abbrev pub is_embryo : State → Bool
is_embryo State.embryo = true
is_embryo _ = false

-- Free, or on the way to become a process.
abbrev pub is_fresh : State → Bool
is_fresh State.unused = true
is_fresh State.embryo = true
is_fresh _ = false

abbrev pub is_sleeping : State → Bool
is_sleeping State.sleeping = true
is_sleeping _ = false

abbrev pub is_runnable : State → Bool
is_runnable State.runnable = true
is_runnable _ = false

abbrev pub is_running : State → Bool
is_running State.running = true
is_running _ = false

abbrev pub is_zombie : State → Bool
is_zombie State.zombie = true
is_zombie _ = false

-- `p->chan == chan`
abbrev pub same_chan : Chan → Chan → Bool
same_chan Chan.null Chan.null = true
same_chan (Chan.slot i) (Chan.slot j) = i == j
same_chan (Chan.address a) (Chan.address b) = a == b
same_chan _ _ = false

-- The address that a `struct proc *` is, as a channel.
abbrev pub chan_of : Option ℕ → Chan
chan_of none = Chan.null
chan_of (some i) = Chan.slot i

-- `p->parent == curproc`
abbrev pub points_to : Option ℕ → ℕ → Bool
points_to none i = false
points_to (some j) i = j == i

-- A slot that was never used: the table is zero at the start.
abbrev pub blank : Proc
blank = record {
  sz = 0;
  kstack = false;
  state = State.unused;
  pid = 0;
  parent = none;
  chan = Chan.null;
  killed = false;
  count = 0;
  ppid = 0;
  nice = 0;
  cpucount = 0;
  prio = 0;
}

-- `myproc()`, at the slot `me` of the process that this CPU runs: an index of the table.
abbrev pub proc_at : Kernel → ℕ → Proc
proc_at k i = get_or k.procs i blank
