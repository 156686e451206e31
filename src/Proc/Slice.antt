-- ===== src/Proc/Slice.antt =====
-- The time slice: what the clock ticks of trap.c do to a process that the scheduler has given the CPU.
use linux_project.Base.{
  ℕ, zero, suc, ◌≤◌, ◌≡◌, refl, ◌∙◌, true, some, get_elem?, get_or_of_some, update, arith,
  get_elem?-update_self,
}
use linux_project.Proc.{State, Proc, Kernel, is_running, is_runnable, blank, proc_at}
use linux_project.Proc.Query.{check}
use linux_project.Proc.Sched.{with_nice, given_cpu, dispatch, tick}
use linux_project.Proc.Valid.{IsValid}
use linux_project.Proc.Steps.{tick_last, tick_more}

-- `n` clock ticks while `me` has the CPU.
unfoldable pub ticks : ℕ → Kernel → ℕ → Kernel
ticks zero k me = k
ticks (suc n) k me = tick (ticks n k me) me

ticks_running :
    (k : Kernel) (me : ℕ) (p : Proc)
    → get_elem? k.procs me ≡ some p
    → is_running p.state ≡ true
    → p.cpucount ≡ 0
    → (n : ℕ) → n ≤ p.prio
    → get_elem? (ticks n k me).procs me ≡ some (record p { cpucount = n })
unfolding ticks
ticks_running k me p at run start zero le = ground arith
ticks_running k me p at run start (suc n) le =
    let before = ticks_running k me p at run start n (omega arith) in
    rw (tick_more (ticks n k me) me (record p { cpucount = n }, before, run) (ground arith))
      (get_elem?-update_self (ticks n k me).procs me _ before ∙ ground arith)

ticks_last :
    (k : Kernel) (me : ℕ) (p : Proc)
    → get_elem? k.procs me ≡ some p
    → is_running p.state ≡ true
    → p.cpucount ≡ 0
    → get_elem? (ticks (suc p.prio) k me).procs me
      ≡ some (record p { state = State.runnable; cpucount = 0 })
unfolding ticks
ticks_last k me p at run start =
    let before = ticks_running k me p at run start p.prio (omega arith) in
    rw
      (tick_last (ticks p.prio k me) me (record p { cpucount = p.prio }, before, run)
        (ground arith))
      (get_elem?-update_self (ticks p.prio k me).procs me _ before)

-- The rank that `dispatch` finds for the process at slot `i`: its priority counts as 1 if it has none.
abbrev pub rank_at : Kernel → ℕ → Proc → ℕ
rank_at k i p = check (record k { procs = update k.procs i with_nice }) (with_nice p).nice

-- A runnable process that the scheduler picks runs for as many ticks as its rank among the
-- priorities, counting them, and one tick more takes the CPU away and clears the count.
pub dispatch-ticks :
    (k : Kernel) (i : ℕ) (p : Proc)
    → IsValid k
    → get_elem? k.procs i ≡ some p
    → is_runnable p.state ≡ true
    → let q = given_cpu (rank_at k i p) (with_nice p) in
      ((n : ℕ)
        → n ≤ rank_at k i p
        → get_elem? (ticks n (dispatch k i) i).procs i ≡ some (record q { cpucount = n }))
      × (get_elem? (ticks (suc (rank_at k i p)) (dispatch k i) i).procs i
          ≡ some (record q { state = State.runnable; cpucount = 0 }))
unfolding dispatch
dispatch-ticks k i p v at ready = (
  λ n le. ticks_running (dispatch k i) i q on_cpu refl idle n le,
  ticks_last (dispatch k i) i q on_cpu refl idle,
)
  where
    q : Proc
    q = given_cpu (rank_at k i p) (with_nice p)

    k' : Kernel
    k' = record k { procs = update k.procs i with_nice }

    here : proc_at k i ≡ p
    here = get_or_of_some k.procs i blank at

    niced : get_elem? k'.procs i ≡ some (with_nice p)
    niced = get_elem?-update_self k.procs i with_nice at

    idle : q.cpucount ≡ 0
    idle = (v.ok i p at).off (ground arith)

    on_cpu : get_elem? (dispatch k i).procs i ≡ some q
    on_cpu =
        rw (here, ready, get_or_of_some k'.procs i blank niced)
          (get_elem?-update_self k'.procs i (given_cpu (rank_at k i p)) niced)
