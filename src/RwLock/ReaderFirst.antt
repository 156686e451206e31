-- ===== src/RwLock/ReaderFirst.antt =====
-- rw_lock-r-test.c: the lock under which readers never wait. No statement of it is atomic: a `++` on a
-- shared field is a load and a store, the test of `w_lock` reads one field at a time, and any steps of
-- the other threads come in between.
pub mod Runs
mod Tests
use linux_project.Base.{
  ℕ, ◌+◌, ◌≡◌, Option, none, some, List, ◌==◌, if◌then◌else◌, get_elem?, update, replicate,
}
use linux_project.RwLock.{RwLock}

-- Where a thread is: in no call; before the store of `r_count++`; inside as a reader, up to the store of `r_end++`; before that of `w_count++`; at the start of the loop of `w_lock`, or in its test, with `r_count` read,
-- with `r_end` found equal to it, or with `w_lck` found 0 too; behind the test, before `w_lck=1`; inside
-- as a writer, up to the store of `w_end++`; between that and `w_lck=0`.
pub data Pc : Type 0 where
  idle r_asks reads w_asks w_loops : Pc
  w_saw : ℕ → Pc
  w_equal w_free w_passed writes w_left : Pc

-- `loaded`: what each thread has read of the field that it is about to count up, if it has.
pub record Sys : Type 0 where
  pub lock : RwLock
  pub threads : List Pc
  pub loaded : List (Option ℕ)

-- `init_rwlock`
unfoldable pub init_rwlock : RwLock → RwLock
init_rwlock rw = record rw { r_count = 0; w_count = 0; r_end = 0; w_end = 0; w_lck = 0 }

-- The next read in the test of `w_lock`, of its operands from left to right.
abbrev pub w_test : RwLock → Pc → Pc
w_test rw Pc.w_loops = Pc.w_saw rw.r_count
w_test rw (Pc.w_saw c) = if c == rw.r_end then Pc.w_equal else Pc.w_loops
w_test rw Pc.w_equal = if rw.w_lck == 0 then Pc.w_free else Pc.w_loops
w_test rw Pc.w_free = if rw.r_count == 0 then Pc.w_loops else Pc.w_passed
w_test rw p = p

abbrev pub w_step : Sys → ℕ → Pc → Sys
w_step s i p = record s { threads = update s.threads i (λ _. w_test s.lock p) }

-- The field that a thread counts up next.
abbrev pub field : RwLock → Pc → Option ℕ
field rw Pc.r_asks = some rw.r_count
field rw Pc.reads = some rw.r_end
field rw Pc.w_asks = some rw.w_count
field rw Pc.writes = some rw.w_end
field rw _ = none

abbrev pub load : Sys → ℕ → Pc → Sys
load s i p = record s { loaded = update s.loaded i (λ _. field s.lock p) }

-- A thread calls `r_lock` or `w_lock`.
abbrev pub ask : Sys → ℕ → Pc → Sys
ask s i p = record s { threads = update s.threads i (λ _. p) }

abbrev pub stored : Sys → ℕ → List (Option ℕ)
stored s i = update s.loaded i (λ _. none)

-- The stores of `r_lock` and `r_unlock`, with what was loaded.
abbrev pub r_lock : Sys → (i r_count : ℕ) → Sys
r_lock s i r_count = record {
  lock = record s.lock { r_count = r_count + 1 };
  threads = update s.threads i (λ _. Pc.reads);
  loaded = stored s i;
}

abbrev pub r_unlock : Sys → (i r_end : ℕ) → Sys
r_unlock s i r_end = record {
  lock = record s.lock { r_end = r_end + 1 };
  threads = update s.threads i (λ _. Pc.idle);
  loaded = stored s i;
}

-- `w_lock`, store by store.
abbrev pub w_lock : Sys → (i w_count : ℕ) → Sys
w_lock s i w_count = record {
  lock = record s.lock { w_count = w_count + 1 };
  threads = update s.threads i (λ _. Pc.w_loops);
  loaded = stored s i;
}

abbrev pub w_enter : Sys → ℕ → Sys
w_enter s i = record s {
  lock = record s.lock { w_lck = 1 };
  threads = update s.threads i (λ _. Pc.writes);
}

-- `w_unlock`, store by store.
abbrev pub w_unlock : Sys → (i w_end : ℕ) → Sys
w_unlock s i w_end = record {
  lock = record s.lock { w_end = w_end + 1 };
  threads = update s.threads i (λ _. Pc.w_left);
  loaded = stored s i;
}

abbrev pub w_leave : Sys → ℕ → Sys
w_leave s i = record s {
  lock = record s.lock { w_lck = 0 };
  threads = update s.threads i (λ _. Pc.idle);
}

-- The thread is there, and has loaded the value.
abbrev pub At : Sys → ℕ → Pc → Type 0
At s i p = get_elem? s.threads i ≡ some p

abbrev pub Has : Sys → (i v : ℕ) → Type 0
Has s i v = get_elem? s.loaded i ≡ some (some v)

pub data Step (s : Sys) : Sys → Type 0 where
  r_asks : (i : ℕ) → At s i Pc.idle → Step s (ask s i Pc.r_asks)
  w_asks : (i : ℕ) → At s i Pc.idle → Step s (ask s i Pc.w_asks)
  loads : (i : ℕ) (p : Pc) → At s i p → Step s (load s i p)
  r_locks : (i v : ℕ) → At s i Pc.r_asks → Has s i v → Step s (r_lock s i v)
  r_unlocks : (i v : ℕ) → At s i Pc.reads → Has s i v → Step s (r_unlock s i v)
  w_locks : (i v : ℕ) → At s i Pc.w_asks → Has s i v → Step s (w_lock s i v)
  w_tests : (i : ℕ) (p : Pc) → At s i p → Step s (w_step s i p)
  w_enters : (i : ℕ) → At s i Pc.w_passed → Step s (w_enter s i)
  w_unlocks : (i v : ℕ) → At s i Pc.writes → Has s i v → Step s (w_unlock s i v)
  w_leaves : (i : ℕ) → At s i Pc.w_left → Step s (w_leave s i)

-- The lock as made for `n` threads.
abbrev pub start : RwLock → ℕ → Sys
start rw n = record {
  lock = init_rwlock rw;
  threads = replicate n Pc.idle;
  loaded = replicate n none;
}

pub data Reach (rw : RwLock) (n : ℕ) : Sys → Type 0 where
  begins : Reach rw n (start rw n)
  goes : {s t : Sys} → Reach rw n s → Step s t → Reach rw n t
