-- ===== src/Sem.antt =====
-- Project3/thread3: the semaphore of SSU_Sem.h and SSU_Sem.c. A call of `SSU_Sem_down` is its two
-- statements, and then the test of its loop until that holds; statements are taken not to overlap.
pub mod Passing
mod Tests
use linux_project.Base.{ℕ, Bool, ◌&&◌, List, [], ◌∷◌, suc}
use linux_project.Base.Int.{ℤ, pos, ◌+ℤ◌, ◌-ℤ◌, leb_ℤ, eqb_ℤ}

-- `SSU_Sem`
pub record Sem : Type 0 where
  pub count : ℤ
  pub wait : ℤ
  pub end : ℤ

-- `SSU_Sem_init`
abbrev pub init : ℤ → Sem
init value = record { count = value; wait = pos 0; end = pos 0 }

-- `num=--s->count` and `list=s->wait++`; the values that the thread keeps.
unfoldable pub down : Sem → Sem
down s = record s { count = s.count -ℤ pos 1; wait = s.wait +ℤ pos 1 }

abbrev pub num_of : Sem → ℤ
num_of s = s.count -ℤ pos 1

abbrev pub list_of : Sem → ℤ
list_of s = s.wait

-- The test of the loop of `SSU_Sem_down`.
abbrev pub may_pass : Sem → ℤ → ℤ → Bool
may_pass s num list = leb_ℤ num s.count && eqb_ℤ list s.wait

-- `SSU_Sem_up`
unfoldable pub up : Sem → Sem
up s = record s { count = s.count +ℤ pos 1; wait = s.wait -ℤ pos 1; end = s.end +ℤ pos 1 }

-- What other threads call meanwhile.
pub data Call : Type 0 where
  downs ups : Call

abbrev pub called : Call → Sem → Sem
called Call.downs s = down s
called Call.ups s = up s

abbrev pub calls : List Call → Sem → Sem
calls [] s = s
calls (c ∷ cs) s = calls cs (called c s)

abbrev pub num_downs : List Call → ℕ
num_downs [] = 0
num_downs (Call.downs ∷ cs) = suc (num_downs cs)
num_downs (Call.ups ∷ cs) = num_downs cs

abbrev pub num_ups : List Call → ℕ
num_ups [] = 0
num_ups (Call.downs ∷ cs) = num_ups cs
num_ups (Call.ups ∷ cs) = suc (num_ups cs)
