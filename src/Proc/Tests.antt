-- ===== src/Proc/Tests.antt =====
-- A run of the kernel with three slots: `initproc` forks a child, which runs and exits and is reaped;
-- and the theorems at the states of that run.
use linux_project.Base.{
  ℕ, zero, suc, ◌≤◌, ◌≡◌, refl, inl, inr, ◌⊎◌, true, false, some, [], ◌∷◌, get_elem?, update, arith,
}
use linux_project.Base.Int.{pos}
use linux_project.Proc.{State, Chan, Proc, Kernel, blank, proc_at, is_unused}
use linux_project.Proc.Query.{info_of, check_loop, check}
use linux_project.Proc.Sched.{with_nice, given_cpu, dispatch, count_tick, sleep}
use linux_project.Proc.Life.{
  find_unused, allocproc, userinit, alloc_slot, alloc_stack, copy_memory, fork, exit, reaped, Wait,
  wait,
}
use linux_project.Proc.Valid.{IsValid}
use linux_project.Proc.Exit.{handed_over, gone_zombie}
use linux_project.Proc.Waiting.{ChildAt}
use linux_project.Proc.Steps.{Runs}
use linux_project.Proc.Waiting.{Waited, wait-Waited}
use linux_project.Proc.Family.{Family}
use linux_project.Proc.Reach.{Step, Reach, init_proc, first_kernel, Reach-IsValid, Reach-Family}
use linux_project.Proc.Slice.{ticks, rank_at, dispatch-ticks}
use linux_project.Proc.Info.{Answers, fork-Answers}

-- `initproc` runs.
abbrev running_init : Kernel
running_init = dispatch (first_kernel 2) 0

-- It has forked a child, and the child runs too, on another CPU.
abbrev two_running : Kernel
two_running = dispatch (fork running_init 0 true true).1 1

running_init-Reach : Reach 3 running_init
unfolding userinit allocproc find_unused
running_init-Reach = Reach.later (Reach.started refl) (Step.dispatches 0)

init-Runs : Runs running_init 0
unfolding dispatch check check_loop
init-Runs = (_, refl, refl)

two_running-Reach : Reach 3 two_running
two_running-Reach =
    Reach.later (Reach.later running_init-Reach (Step.forks 0 true true init-Runs))
      (Step.dispatches 1)

fork_returns : (fork running_init 0 true true).0 ≡ pos 2
unfolding fork allocproc find_unused dispatch check check_loop
fork_returns = refl

child-Runs : Runs two_running 1
unfolding fork allocproc find_unused dispatch check check_loop
child-Runs = (_, refl, refl)

-- Nothing is left to wait for while the child runs.
init_blocks : wait two_running 0 ≡ Wait.sleeps (sleep two_running 0 (Chan.slot 0))
unfolding wait fork allocproc find_unused dispatch check check_loop
init_blocks = refl

two_running-IsValid : IsValid two_running
two_running-IsValid = Reach-IsValid 3 two_running-Reach

-- `initproc` forks while its clock ticks, part by part.
abbrev stacked : Kernel
stacked = count_tick (alloc_stack (alloc_slot running_init) 1 true) 0

abbrev copied : Kernel
copied = copy_memory stacked 0 1 true

stacked-Reach : Reach 3 stacked
unfolding alloc_slot alloc_stack find_unused dispatch check check_loop
stacked-Reach =
    Reach.later
      (Reach.later (Reach.later running_init-Reach (Step.allocs 0 init-Runs))
        (Step.stacks 1 true (_, refl, refl)))
      (Step.counts 0 (_, refl, refl) (omega arith))

copied-Reach : Reach 3 copied
unfolding alloc_slot alloc_stack find_unused dispatch check check_loop
copied-Reach = Reach.later stacked-Reach (Step.copies 0 1 true (_, refl, refl) (_, refl, refl))

Reach-IsValid_example : IsValid copied
Reach-IsValid_example = Reach-IsValid 3 copied-Reach

Reach-Family_example : Family two_running
Reach-Family_example = Reach-Family 3 two_running-Reach

wait-Waited_example : Waited two_running 0 (wait two_running 0)
wait-Waited_example = wait-Waited two_running 0

abbrev ready : Kernel
ready = first_kernel 2

ready-IsValid : IsValid ready
unfolding userinit allocproc find_unused
ready-IsValid = Reach-IsValid 3 (Reach.started refl)

dispatch-ticks_example :
    let q = given_cpu (rank_at ready 0 (proc_at ready 0)) (with_nice (proc_at ready 0)) in
    ((n : ℕ)
      → n ≤ rank_at ready 0 (proc_at ready 0)
      → get_elem? (ticks n (dispatch ready 0) 0).procs 0 ≡ some (record q { cpucount = n }))
    × (get_elem? (ticks (suc (rank_at ready 0 (proc_at ready 0))) (dispatch ready 0) 0).procs 0
        ≡ some (record q { state = State.runnable; cpucount = 0 }))
dispatch-ticks_example = dispatch-ticks ready 0 (proc_at ready 0) ready-IsValid refl refl

rank_is_one : rank_at ready 0 (proc_at ready 0) ≡ 1
unfolding check check_loop
rank_is_one = refl

fork-Answers_example : Answers running_init 0 (fork running_init 0 true true)
fork-Answers_example =
    fork-Answers running_init 0 true true init-Runs (Reach-IsValid 3 running_init-Reach)

-- The child forks a child of its own and exits: the grandchild goes to `initproc`.
abbrev three : Kernel
three = (fork two_running 1 true true).1

three-IsValid : IsValid three
three-IsValid = Reach-IsValid 3 (Reach.later two_running-Reach (Step.forks 1 true true child-Runs))

child_still-Runs : Runs three 1
unfolding fork allocproc find_unused dispatch check check_loop
child_still-Runs = (_, refl, refl)

abbrev after_exit : Kernel
after_exit = record three { procs = update (handed_over three 1) 1 gone_zombie }

three_exits : exit three 1 ≡ some after_exit
unfolding exit fork allocproc find_unused dispatch check check_loop
three_exits = refl

grandchild : ChildAt three.procs 1 2 (proc_at three 2)
unfolding fork allocproc find_unused dispatch check check_loop
grandchild = (refl, refl)

grandchild_live : is_unused (proc_at three 2).state ≡ false
unfolding fork allocproc find_unused dispatch check check_loop
grandchild_live = refl

grandchild_after : get_elem? after_exit.procs 2 ≡ some (proc_at after_exit 2)
unfolding exit fork allocproc find_unused dispatch check check_loop
grandchild_after = refl

-- The parent of the grandchild that is reported is the process that has exited.
ppid_is_stale : (info_of (proc_at three 2)).ppid ≡ 2
unfolding fork allocproc find_unused dispatch check check_loop
ppid_is_stale = refl

-- The child of `initproc` has set its priority, and is a zombie.
abbrev zombie_child : Kernel
zombie_child = record (first_kernel 2) {
  procs =
      record init_proc { sz = 0; state = State.running; prio = 1 }
      ∷ record blank {
        state = State.zombie;
        kstack = true;
        pid = 2;
        parent = some 0;
        nice = 7;
        count = 9;
      }
      ∷ blank
      ∷ [];
  nextpid = 3;
}

three_slots :
    (i : ℕ) (p : Proc)
    → get_elem? zombie_child.procs i ≡ some p
    → ((i ≡ 0) × (p ≡ proc_at zombie_child 0))
      ⊎ ((i ≡ 1) × (p ≡ proc_at zombie_child 1))
      ⊎ ((i ≡ 2) × (p ≡ proc_at zombie_child 2))
three_slots zero p e = inl (refl, ground arith)
three_slots (suc zero) p e = inr (inl (refl, ground arith))
three_slots (suc (suc zero)) p e = inr (inr (refl, ground arith))
three_slots (suc (suc (suc i))) p e = absurd (ground arith)

zombie_child-IsValid : IsValid zombie_child
zombie_child-IsValid = record {
  started = omega arith;
  ok = λ i p e. elim (three_slots i p e) [
    | inl (_, same) ↦ rw same (record {
      below = omega arith;
      live = λ _. omega arith;
      free = λ r. ground (arith, r);
      stack = λ _. refl;
      slice = λ _. (omega arith, omega arith);
      off = λ r. ground (arith, r);
    })
    | inr (inl (_, same)) ↦ rw same (record {
      below = omega arith;
      live = λ _. omega arith;
      free = λ r. ground (arith, r);
      stack = λ _. refl;
      slice = λ r. ground (arith, r);
      off = λ _. refl;
    })
    | inr (inr (_, same)) ↦ rw same (record {
      below = omega arith;
      live = λ r. ground (arith, r);
      free = λ _. refl;
      stack = λ r. ground (arith, r);
      slice = λ r. ground (arith, r);
      off = λ _. refl;
    })
  ];
  distinct = λ i j p q ei ej same ne. ground (arith, three_slots i p ei, three_slots j q ej);
}

abbrev reaped_child : Kernel
reaped_child = record zombie_child { procs = update zombie_child.procs 1 reaped }

slot_1_is_first : find_unused 0 reaped_child.procs ≡ some 1
unfolding find_unused
slot_1_is_first = refl

init_still-Runs : Runs two_running 0
unfolding fork allocproc find_unused dispatch check check_loop
init_still-Runs = (_, refl, refl)

slot_2_is_first : find_unused 0 two_running.procs ≡ some 2
unfolding fork allocproc find_unused dispatch check check_loop
slot_2_is_first = refl

slot_2_is_blank : get_elem? two_running.procs 2 ≡ some blank
unfolding fork allocproc find_unused dispatch check check_loop
slot_2_is_blank = refl
