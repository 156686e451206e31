-- ===== src/RwLock.antt =====
-- Project3/thread2: the two reader/writer locks, of rw_lock.h, rw_lock-r-test.c and rw_lock-w-test.c.
pub mod WriterFirst
pub mod ReaderFirst
use linux_project.Base.{ℕ}

-- `struct rw_lock`; each of the two locks uses some of the fields. The counters are taken not to wrap.
pub record RwLock : Type 0 where
  pub r_count : ℕ
  pub w_count : ℕ
  pub r_end : ℕ
  pub w_end : ℕ
  pub w_lck : ℕ
  pub count : ℕ
  pub line : ℕ
  pub w_wait : ℕ
