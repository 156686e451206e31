-- ===== src/RwLock/WriterFirst/Stuck.antt =====
-- A way for the threads of rw_lock-w-test.c to block each other for good.
use linux_project.Base.{ℕ, ◌≤◌, ◌<◌, ◌≡◌, ◌≢◌, Bool, true, false, some, get_elem?, Option}
use mathlib.Core.Option
use linux_project.RwLock.WriterFirst.{Pc, Sys, At, Has}
use linux_project.RwLock.WriterFirst.Invariant.{w_ticket}

-- Inside, or on the way out.
abbrev pub is_in : Pc → Bool
is_in (Pc.reads n) = true
is_in (Pc.writes n) = true
is_in Pc.w_left = true
is_in _ = false

abbrev pub NobodyIn : Sys → Type 0
NobodyIn s = (i : ℕ) (p : Pc) → get_elem? s.threads i ≡ some p → is_in p ≡ false

-- The next turn is nobody's who could take it: no writer holds the ticket or will draw it, and writers
-- wait.
pub record IsStuck (s : Sys) : Type 0 where
  pub nobody : NobodyIn s
  pub queue : 1 ≤ s.lock.w_wait
  pub missed :
      (i t : ℕ) (p : Pc) → get_elem? s.threads i ≡ some p → w_ticket p ≡ some t → t ≢ s.lock.line
  pub behind : s.lock.line < s.lock.count
  pub drawn : (i v : ℕ) → At s i Pc.idle → Has s i v → s.lock.line < v
