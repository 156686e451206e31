-- ===== src/RwLock/WriterFirst.antt =====
-- rw_lock-w-test.c: the lock with tickets, under which a reader waits for the writers that wait. No
-- statement of it is atomic: each `++` and `--` on a shared field is two steps, a load and a store, with
-- any steps of the other threads in between. The loops keep nothing of a round without a result, which is
-- no step.
pub mod Invariant
pub mod Moves
pub mod Leaving
pub mod Runs
pub mod Stuck
mod Tests
use linux_project.Base.{
  ℕ, ◌+◌, ◌-◌, ◌≤◌, ◌≡◌, Bool, true, false, ◌&&◌, ◌||◌, Option, none, some, List, ◌==◌, ltb, leb,
  get_elem?, update, replicate,
}
use linux_project.RwLock.{RwLock}

-- Where a thread is: in no call, or before the store of `count++`; in `r_lock` with its ticket; inside as
-- a reader, up to the store of `line++`; in `w_lock` between the stores of `count++` and `w_wait++`; in
-- the loop of `w_lock`; inside as a writer; between the stores of `line++` and `w_wait--` of `w_unlock`.
pub data Pc : Type 0 where
  idle : Pc
  r_waits reads took w_waits writes : ℕ → Pc
  w_left : Pc

-- `loaded`: what each thread has read of the field that it is about to change, if it has.
pub record Sys : Type 0 where
  pub lock : RwLock
  pub threads : List Pc
  pub loaded : List (Option ℕ)

-- `init_rwlock`
unfoldable pub init_rwlock : RwLock → RwLock
init_rwlock rw = record rw { count = 0; line = 0; w_wait = 0 }

-- The tests of the loop of `r_lock`, and of that of `w_lock`.
abbrev pub r_may : RwLock → ℕ → Bool
r_may rw num = (rw.w_wait == 0) || ((num == rw.line) && (rw.w_wait == 0))

abbrev pub w_may : RwLock → ℕ → Bool
w_may rw num = (num == rw.line) && leb 1 rw.w_wait

-- The field that a thread changes next.
abbrev pub field : RwLock → Pc → Option ℕ
field rw Pc.idle = some rw.count
field rw (Pc.reads n) = some rw.line
field rw (Pc.took n) = some rw.w_wait
field rw (Pc.writes n) = some rw.line
field rw Pc.w_left = some rw.w_wait
field rw _ = none

abbrev pub load : Sys → ℕ → Pc → Sys
load s i p = record s { loaded = update s.loaded i (λ _. field s.lock p) }

abbrev pub stored : Sys → ℕ → List (Option ℕ)
stored s i = update s.loaded i (λ _. none)

-- The stores of `r_lock` and `r_unlock`, with what was loaded.
abbrev pub r_lock : Sys → (i num : ℕ) → Sys
r_lock s i num = record {
  lock = record s.lock { count = num + 1 };
  threads = update s.threads i (λ _. Pc.r_waits num);
  loaded = stored s i;
}

abbrev pub r_enter : Sys → (i num : ℕ) → Sys
r_enter s i num = record s { threads = update s.threads i (λ _. Pc.reads num) }

abbrev pub r_unlock : Sys → (i line : ℕ) → Sys
r_unlock s i line = record {
  lock = record s.lock { line = line + 1 };
  threads = update s.threads i (λ _. Pc.idle);
  loaded = stored s i;
}

-- `w_lock`, store by store.
abbrev pub w_lock : Sys → (i num : ℕ) → Sys
w_lock s i num = record {
  lock = record s.lock { count = num + 1 };
  threads = update s.threads i (λ _. Pc.took num);
  loaded = stored s i;
}

abbrev pub w_announce : Sys → (i num w_wait : ℕ) → Sys
w_announce s i num w_wait = record {
  lock = record s.lock { w_wait = w_wait + 1 };
  threads = update s.threads i (λ _. Pc.w_waits num);
  loaded = stored s i;
}

abbrev pub w_enter : Sys → (i num : ℕ) → Sys
w_enter s i num = record s { threads = update s.threads i (λ _. Pc.writes num) }

-- `w_unlock`, store by store.
abbrev pub w_unlock : Sys → (i line : ℕ) → Sys
w_unlock s i line = record {
  lock = record s.lock { line = line + 1 };
  threads = update s.threads i (λ _. Pc.w_left);
  loaded = stored s i;
}

abbrev pub w_leave : Sys → (i w_wait : ℕ) → Sys
w_leave s i w_wait = record {
  lock = record s.lock { w_wait = w_wait - 1 };
  threads = update s.threads i (λ _. Pc.idle);
  loaded = stored s i;
}

-- The thread is there, and has loaded the value.
abbrev pub At : Sys → ℕ → Pc → Type 0
At s i p = get_elem? s.threads i ≡ some p

abbrev pub Has : Sys → (i v : ℕ) → Type 0
Has s i v = get_elem? s.loaded i ≡ some (some v)

-- A run in which `w_wait` would go below 0 is followed up to there.
pub data Step (s : Sys) : Sys → Type 0 where
  loads : (i : ℕ) (p : Pc) → At s i p → Step s (load s i p)
  r_locks : (i num : ℕ) → At s i Pc.idle → Has s i num → Step s (r_lock s i num)
  r_enters :
      (i num : ℕ) → At s i (Pc.r_waits num) → r_may s.lock num ≡ true → Step s (r_enter s i num)
  r_unlocks : (i num line : ℕ) → At s i (Pc.reads num) → Has s i line → Step s (r_unlock s i line)
  w_locks : (i num : ℕ) → At s i Pc.idle → Has s i num → Step s (w_lock s i num)
  w_announces :
      (i num w_wait : ℕ)
      → At s i (Pc.took num)
      → Has s i w_wait
      → Step s (w_announce s i num w_wait)
  w_enters :
      (i num : ℕ) → At s i (Pc.w_waits num) → w_may s.lock num ≡ true → Step s (w_enter s i num)
  w_unlocks : (i num line : ℕ) → At s i (Pc.writes num) → Has s i line → Step s (w_unlock s i line)
  w_leaves :
      (i w_wait : ℕ) → At s i Pc.w_left → Has s i w_wait → 1 ≤ w_wait → Step s (w_leave s i w_wait)

-- The lock as made for `n` threads.
abbrev pub start : RwLock → ℕ → Sys
start rw n = record {
  lock = init_rwlock rw;
  threads = replicate n Pc.idle;
  loaded = replicate n none;
}
