-- ===== src/RwLock/ReaderFirst/Tests.antt =====
-- Threads on the lock of rw_lock-r-test.c, and the theorems at their states.
use linux_project.Base.{refl}
use linux_project.RwLock.{RwLock}
use linux_project.RwLock.ReaderFirst.{
  Pc, Sys, init_rwlock, w_step, load, ask, w_lock, Step, start, Reach,
}
use linux_project.RwLock.ReaderFirst.Runs.{NobodyPast, w_lock_waits}

abbrev lock : RwLock
lock = record {
  r_count = 0;
  w_count = 0;
  r_end = 0;
  w_end = 0;
  w_lck = 0;
  count = 0;
  line = 0;
  w_wait = 0;
}

-- Thread 0 wants to write, has been through the test of the loop, and starts again.
abbrev one_loops : Sys
one_loops = w_lock (load (ask (start lock 3) 0 Pc.w_asks) 0 Pc.w_asks) 0 0

abbrev one_again : Sys
one_again =
    w_step (w_step (w_step (w_step one_loops 0 Pc.w_loops) 0 (Pc.w_saw 0)) 0 Pc.w_equal) 0 Pc.w_free

one_again-Reach : Reach lock 3 one_again
unfolding init_rwlock
one_again-Reach =
    Reach.goes
      (Reach.goes
        (Reach.goes (Reach.goes looping (Step.w_tests 0 Pc.w_loops refl))
          (Step.w_tests 0 (Pc.w_saw 0) refl))
        (Step.w_tests 0 Pc.w_equal refl))
      (Step.w_tests 0 Pc.w_free refl)
  where
    looping : Reach lock 3 one_loops
    looping =
        Reach.goes
          (Reach.goes (Reach.goes Reach.begins (Step.w_asks 0 refl)) (Step.loads 0 Pc.w_asks refl))
          (Step.w_locks 0 0 refl refl)

w_lock_waits_example : NobodyPast one_again
unfolding init_rwlock
w_lock_waits_example = w_lock_waits lock 3 one_again-Reach refl
