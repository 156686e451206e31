-- ===== src/MasterWorker/Tests.antt =====
-- Masters and workers on a buffer of one number, and the theorems at their states.
use linux_project.Base.{◌≡◌, refl, some, [], ◌∷◌, get_elem?, arith}
use linux_project.MasterWorker.{Master, Outcome, master_behind_wait, Sys, Step}
use linux_project.MasterWorker.Rounds.{start}
use linux_project.MasterWorker.Order.{two_masters}

-- The first number is in the buffer.
abbrev one_written : Sys
one_written = record (start 3 1 1) {
  store = record (start 3 1 1).store { buffer = 0 ∷ []; curr_buf_size = 1; item_to_produce = 1 };
}

-- A worker has emptied the buffer and woken master 0, and master 1 comes to the mutex.
abbrev both : Sys
both = record one_written {
  store = record one_written.store { curr_buf_size = 0; consumed = 0 ∷ [] };
  masters = Master.woken ∷ Master.ready ∷ [];
}

two_masters_example :
    (s' : Sys) × Step both s'
    × (get_elem? s'.masters 0 ≡ some Master.woken)
    × (master_behind_wait s'.store ≡ Outcome.overflow)
two_masters_example = two_masters both 0 1 refl refl refl refl (omega arith)
