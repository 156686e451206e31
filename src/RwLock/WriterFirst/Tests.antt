-- ===== src/RwLock/WriterFirst/Tests.antt =====
-- Threads on the lock of rw_lock-w-test.c, and the theorems at their states.
use linux_project.Base.{ℕ, ◌≡◌, ◌≢◌, refl, some, get_elem?}
use linux_project.RwLock.{RwLock}
use linux_project.RwLock.WriterFirst.{
  Pc, Sys, Step, init_rwlock, load, r_lock, w_lock, w_announce, w_enter, w_unlock, w_leave, start,
}
use linux_project.RwLock.WriterFirst.Runs.{CalmRun, writer_alone}

abbrev lock : RwLock
lock = record {
  r_count = 0;
  w_count = 0;
  r_end = 0;
  w_end = 0;
  w_lck = 0;
  count = 0;
  line = 0;
  w_wait = 0;
}

-- Thread 0 writes.
abbrev one_took : Sys
one_took = w_lock (load (start lock 3) 0 Pc.idle) 0 0

abbrev one_writes : Sys
one_writes = w_enter (w_announce (load one_took 0 (Pc.took 0)) 0 0 0) 0 0

one_writes-CalmRun : CalmRun lock 3 one_writes
unfolding init_rwlock
one_writes-CalmRun =
    CalmRun.goes
      (CalmRun.goes
        (CalmRun.goes
          (CalmRun.goes (CalmRun.goes CalmRun.begins (Step.loads 0 Pc.idle refl) tt)
            (Step.w_locks 0 0 refl refl) refl)
          (Step.loads 0 (Pc.took 0) refl) tt)
        (Step.w_announces 0 0 0 refl refl) refl)
      (Step.w_enters 0 0 refl refl) tt

writer_alone_example :
    ((j m : ℕ) → get_elem? one_writes.threads j ≢ some (Pc.reads m))
    × ((j m : ℕ) → get_elem? one_writes.threads j ≡ some (Pc.writes m) → 0 ≡ j)
writer_alone_example = writer_alone lock 3 one_writes-CalmRun 0 0 refl

-- While thread 0 writes, thread 1 asks to read, and then thread 2 to write; thread 0 leaves.
abbrev reader_waits : Sys
reader_waits = r_lock (load one_writes 1 Pc.idle) 1 1

abbrev writer_waits : Sys
writer_waits = w_announce (load (w_lock (load reader_waits 2 Pc.idle) 2 2) 2 (Pc.took 2)) 2 2 1

abbrev left_behind : Sys
left_behind = w_leave (load (w_unlock (load writer_waits 0 (Pc.writes 0)) 0 0) 0 Pc.w_left) 0 2
