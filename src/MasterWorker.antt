-- ===== src/MasterWorker.antt =====
-- Project3/thread1/master-worker.c: masters that fill a buffer with numbers and workers that empty it.
-- What a thread does from taking the mutex to giving it back, or to a wait, is one step.
pub mod Buffer
pub mod Rounds
pub mod Runs
pub mod Order
mod Tests
use linux_project.Base.{
  ℕ, zero, suc, ◌+◌, ◌-◌, ◌≡◌, Bool, true, false, ◌&&◌, Option, none, some, List, [], ◌∷◌, ◌++◌,
  ◌==◌, leb, if◌then◌else◌, get_elem?, get_or, update,
}

-- The globals, and the numbers that `print_consumed` has printed.
pub record Store : Type 0 where
  pub item_to_produce : ℕ
  pub curr_buf_size : ℕ
  pub total_items : ℕ
  pub max_buf_size : ℕ
  pub buffer : List ℕ
  pub consumed : List ℕ

-- A master: at the mutex; in `pthread_cond_wait(&cond1)`; out of it; at its end.
pub data Master : Type 0 where
  ready waits woken done : Master

-- A worker: at the mutex; in `pthread_cond_wait(&cond2)`; out of it; behind its loop; at its end.
pub data Worker : Type 0 where
  ready waits woken leaves done : Worker

-- What a master does next; `overflow` is a write behind the end of the buffer.
pub data Outcome : Type 0 where
  overflow : Outcome
  goes : Store → Master → Outcome

-- `buffer[curr_buf_size++] = item_to_produce` and `item_to_produce++`.
unfoldable pub produce : Store → Outcome
produce s = elim (get_elem? s.buffer s.curr_buf_size) [
  | none ↦ Outcome.overflow
  | some _ ↦
      Outcome.goes
        (record s {
          buffer = update s.buffer s.curr_buf_size (λ _. s.item_to_produce);
          curr_buf_size = s.curr_buf_size + 1;
          item_to_produce = s.item_to_produce + 1;
        })
        Master.ready
]

-- A round of `generate_requests_loop`: from the mutex, and from behind the wait.
unfoldable pub master_round : Store → Outcome
master_round s =
    let produced = produce s in
    if leb s.total_items s.item_to_produce
    then Outcome.goes s Master.done
    else (if s.curr_buf_size == s.max_buf_size then Outcome.goes s Master.waits else produced)

unfoldable pub master_behind_wait : Store → Outcome
master_behind_wait s =
    let produced = produce s in
    if leb s.total_items s.item_to_produce then Outcome.goes s Master.ready else produced

-- The loop of `generate_worker` over the buffer, from index `i` on, with the rounds that are left.
unfoldable pub consume : ℕ → ℕ → Store → Store
consume zero i s = s
consume (suc n) i s =
    let eaten = record s {
      consumed = s.consumed ++ get_or s.buffer i 0 ∷ [];
      curr_buf_size = s.curr_buf_size - 1;
    } in
    consume n (i + 1) (if s.curr_buf_size == 0 then s else eaten)

-- What a worker does behind its wait: the store, where it is then, and whether it signals `cond1`.
pub record Work : Type 0 where
  pub store : Store
  pub worker : Worker
  pub signals : Bool

unfoldable pub worker_behind_wait : Store → Work
worker_behind_wait s =
    let after = consume s.max_buf_size 0 s in
    let worker =
      if leb after.total_items after.item_to_produce then Worker.leaves else Worker.ready in
    if (s.curr_buf_size == 0) && leb s.total_items s.item_to_produce
    then record { store = s; worker = Worker.leaves; signals = false }
    else record { store = after; worker = worker; signals = after.curr_buf_size == 0 }

-- `pthread_cond_signal(&cond1)` reaches one master, if it waits.
abbrev pub awake : Master → Master
awake Master.waits = Master.woken
awake m = m

abbrev pub signalled : Bool → ℕ → List Master → List Master
signalled false j masters = masters
signalled true j masters = update masters j awake

pub record Sys : Type 0 where
  pub store : Store
  pub masters : List Master
  pub workers : List Worker
  -- How many masters have come out of their wait without a signal.
  pub spurious : ℕ

-- The steps. A worker may come out of its wait at any time: its signals come from every side, and what
-- it does then fits any state. A master comes out of its wait by a signal, or by itself, as
-- `pthread_cond_wait` may return without one: these wakeups are counted.
pub data Step (s : Sys) : Sys → Type 0 where
  master_runs :
      (i : ℕ) {st : Store} {m : Master}
      → get_elem? s.masters i ≡ some Master.ready
      → master_round s.store ≡ Outcome.goes st m
      → Step s (record s { store = st; masters = update s.masters i (λ _. m) })
  master_goes_on :
      (i : ℕ) {st : Store} {m : Master}
      → get_elem? s.masters i ≡ some Master.woken
      → master_behind_wait s.store ≡ Outcome.goes st m
      → Step s (record s { store = st; masters = update s.masters i (λ _. m) })
  master_wakes :
      (i : ℕ)
      → get_elem? s.masters i ≡ some Master.waits
      → Step s
          (record s { masters = update s.masters i (λ _. Master.woken); spurious = s.spurious + 1 })
  worker_waits :
      (i : ℕ)
      → get_elem? s.workers i ≡ some Worker.ready
      → Step s (record s { workers = update s.workers i (λ _. Worker.waits) })
  worker_wakes :
      (i : ℕ)
      → get_elem? s.workers i ≡ some Worker.waits
      → Step s (record s { workers = update s.workers i (λ _. Worker.woken) })
  worker_runs :
      (i j : ℕ)
      → get_elem? s.workers i ≡ some Worker.woken
      → Step s (record {
        store = (worker_behind_wait s.store).store;
        masters = signalled (worker_behind_wait s.store).signals j s.masters;
        workers = update s.workers i (λ _. (worker_behind_wait s.store).worker);
        spurious = s.spurious;
      })
  worker_leaves :
      (i j : ℕ)
      → get_elem? s.workers i ≡ some Worker.leaves
      → Step s (record s {
        masters = signalled true j s.masters;
        workers = update s.workers i (λ _. Worker.done);
      })
