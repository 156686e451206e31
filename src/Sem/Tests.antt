-- ===== src/Sem/Tests.antt =====
-- A semaphore with the value 1, and the theorems at it.
use linux_project.Base.{◌≡◌, refl, false}
use linux_project.Base.Int.{pos, ◌+ℤ◌, ◌-ℤ◌}
use linux_project.Sem.{init, down, num_of, list_of, may_pass}

-- The value is 1, and still the first thread is kept.
down_waits : may_pass (down (init (pos 1))) (num_of (init (pos 1))) (list_of (init (pos 1))) ≡ false
unfolding down ◌+ℤ◌ ◌-ℤ◌
down_waits = refl
