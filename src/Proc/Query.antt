-- ===== src/Proc/Query.antt =====
-- Project2/proc.c: the calls that read the table, or change a priority in it, and `check`.
use linux_project.Base.{
  ℕ, zero, suc, ◌+◌, ◌&&◌, Bool, true, false, not, Option, none, some, List, [], ◌∷◌, map, ltb,
  ◌==◌, if◌then◌else◌,
}
use linux_project.Base.Int.{ℤ, pos, negsuc}
use linux_project.Proc.{Proc, Kernel, is_unused, proc_at}

-- -1, for an error.
abbrev pub failed : ℤ
failed = negsuc 0

-- The loop of `get_prio`: the last slot with the pid gives the value.
unfoldable pub prio_loop : ℕ → ℤ → List Proc → ℤ
prio_loop pid n [] = n
prio_loop pid n (p ∷ ps) = prio_loop pid (if pid == p.pid then pos p.nice else n) ps

unfoldable pub get_prio : Kernel → ℕ → ℤ
get_prio k me = prio_loop (proc_at k me).pid failed k.procs

abbrev pub renice : ℕ → ℕ → Proc → Proc
renice pid n p = if p.pid == pid then record p { nice = n } else p

-- `success` of `set_prio`
unfoldable pub has_pid : ℕ → Bool → List Proc → Bool
has_pid pid success [] = success
has_pid pid success (p ∷ ps) = has_pid pid (if p.pid == pid then true else success) ps

-- `set_prio`, which refuses `n <= 0`.
unfoldable pub set_prio : Kernel → ℕ → ℤ → ℤ × Kernel
set_prio k me (negsuc n) = (failed, k)
set_prio k me (pos zero) = (failed, k)
set_prio k me (pos (suc n)) =
    let pid = (proc_at k me).pid in
    (
      if has_pid pid false k.procs then pos 0 else failed,
      record k { procs = map (renice pid (suc n)) k.procs },
    )

unfoldable pub max_loop : ℕ → List Proc → ℕ
max_loop max [] = max
max_loop max (p ∷ ps) =
    max_loop (if is_unused p.state then max else if ltb max p.pid then p.pid else max) ps

unfoldable pub get_max_pid : Kernel → ℕ
get_max_pid k = max_loop 0 k.procs

-- `struct processInfo`, as far as `get_proc_info` fills it.
pub record Info : Type 0 where
  pub psize : ℕ
  pub ppid : ℕ
  pub number_context_switches : ℕ

abbrev pub info_of : Proc → Info
info_of p = record { psize = p.sz; ppid = p.ppid; number_context_switches = p.count }

-- The loop of `get_proc_info`. `none`: `success` is 0 and `info` is as it was.
unfoldable pub info_loop : ℕ → Option Info → List Proc → Option Info
info_loop i info [] = info
info_loop i info (p ∷ ps) =
    info_loop i (if (p.pid == i) && not (is_unused p.state) then some (info_of p) else info) ps

unfoldable pub get_proc_info : Kernel → ℕ → ℤ × Option Info
get_proc_info k i =
    let info = info_loop i none k.procs in (elim info [ none ↦ failed | some _ ↦ pos i ], info)

unfoldable pub count_loop : ℕ → List Proc → ℕ
count_loop count [] = count
count_loop count (p ∷ ps) = count_loop (if is_unused p.state then count else count + 1) ps

unfoldable pub get_num_proc : Kernel → ℕ
get_num_proc k = count_loop 0 k.procs

unfoldable pub check_loop : ℕ → ℕ → List Proc → ℕ
check_loop n ct [] = ct
check_loop n ct (p ∷ ps) =
    check_loop n (if is_unused p.state then ct else if ltb p.nice n then ct + 1 else ct) ps

-- `check`: the rank of the priority `n` among the processes, from 1.
unfoldable pub check : Kernel → ℕ → ℕ
check k n = check_loop n 1 k.procs
