-- ===== src/RwLock/WriterFirst/Runs.antt =====
-- Runs of threads that use the lock of rw_lock-w-test.c: when writers are alone.
use linux_project.Base.{
  ℕ, ◌≡◌, ◌≢◌, refl, sym, some, get_elem?, arith, get_elem?-replicate, count_if_pos,
  count_if-replicate,
}
use linux_project.RwLock.{RwLock}
use linux_project.RwLock.WriterFirst.{Pc, Sys, load, Step, init_rwlock, start}
use linux_project.RwLock.WriterFirst.Invariant.{
  IsValid, announced, has_ticket, earlier, r_locks-IsValid, w_locks-IsValid,
}
use linux_project.RwLock.WriterFirst.Moves.{r_enters-IsValid, w_announces-IsValid, w_enters-IsValid}
use linux_project.RwLock.WriterFirst.Leaving.{
  r_unlocks-IsValid, w_unlocks-IsValid, w_leaves-IsValid,
}

-- Any run.
pub data Run (s : Sys) : Sys → Type 0 where
  stays : Run s s
  goes : {t u : Sys} → Run s t → Step t u → Run s u

-- A store is made from the value that the field still has, and no reader enters while a writer is
-- between the stores of `count++` and `w_wait++`.
abbrev pub Calm : {s t : Sys} → Step s t → Type 0
Calm {s} (Step.r_locks i num at has) = num ≡ s.lock.count
Calm {s} (Step.r_enters i num at may) = (j n : ℕ) → get_elem? s.threads j ≢ some (Pc.took n)
Calm {s} (Step.r_unlocks i num line at has) = line ≡ s.lock.line
Calm {s} (Step.w_locks i num at has) = num ≡ s.lock.count
Calm {s} (Step.w_announces i num w_wait at has) = w_wait ≡ s.lock.w_wait
Calm {s} (Step.w_unlocks i num line at has) = line ≡ s.lock.line
Calm {s} (Step.w_leaves i w_wait at has some_wait) = w_wait ≡ s.lock.w_wait
Calm _ = Unit

-- Runs from the start in which each step is calm.
pub data CalmRun (l : RwLock) (n : ℕ) : Sys → Type 0 where
  begins : CalmRun l n (start l n)
  goes : {s t : Sys} → CalmRun l n s → (step : Step s t) → Calm step → CalmRun l n t

start-IsValid : (l : RwLock) (n : ℕ) → IsValid (start l n)
unfolding init_rwlock
start-IsValid l n = record {
  below = λ i t p e h. ground (arith, h, get_elem?-replicate n Pc.idle i e);
  apart = λ i j t p q e d h g. ground (arith, h, get_elem?-replicate n Pc.idle i e);
  turn = λ i t p e h. ground (arith, h, get_elem?-replicate n Pc.idle i e);
  first = λ i j m t q e d h. ground (arith, get_elem?-replicate n Pc.idle i e);
  inside = λ i t e. ground (arith, get_elem?-replicate n Pc.idle i e);
  waiting = sym (count_if-replicate announced n Pc.idle refl);
  total = omega (arith, count_if-replicate has_ticket n Pc.idle refl);
}

load-IsValid : (s : Sys) (i : ℕ) (p : Pc) → IsValid s → IsValid (load s i p)
load-IsValid s i p v = record {
  below = v.below;
  apart = v.apart;
  turn = v.turn;
  first = v.first;
  inside = v.inside;
  waiting = v.waiting;
  total = v.total;
}

Step-IsValid : {s t : Sys} (step : Step s t) → Calm step → IsValid s → IsValid t
Step-IsValid {s} (Step.loads i p at) calm v = load-IsValid s i p v
Step-IsValid {s} (Step.r_locks i num at has) calm v = rw calm (r_locks-IsValid s i v at)
Step-IsValid {s} (Step.r_enters i num at may) calm v = r_enters-IsValid s i num v at may calm
Step-IsValid {s} (Step.r_unlocks i num line at has) calm v =
    rw calm (r_unlocks-IsValid s i num v at)
Step-IsValid {s} (Step.w_locks i num at has) calm v = rw calm (w_locks-IsValid s i v at)
Step-IsValid {s} (Step.w_announces i num w_wait at has) calm v =
    rw calm (w_announces-IsValid s i num v at)
Step-IsValid {s} (Step.w_enters i num at may) calm v = w_enters-IsValid s i num v at may
Step-IsValid {s} (Step.w_unlocks i num line at has) calm v =
    rw calm (w_unlocks-IsValid s i num v at)
Step-IsValid {s} (Step.w_leaves i w_wait at has some_wait) calm v =
    rw calm (w_leaves-IsValid s i v at)

pub CalmRun-IsValid : (l : RwLock) (n : ℕ) {s : Sys} → CalmRun l n s → IsValid s
CalmRun-IsValid l n CalmRun.begins = start-IsValid l n
CalmRun-IsValid l n (CalmRun.goes r step calm) = Step-IsValid step calm (CalmRun-IsValid l n r)

-- In every run in which each `++` and `--` on a shared field writes back from the value that the field
-- still has, and no reader enters while a writer is between its `count++` and its `w_wait++`, a thread
-- that writes is alone: no thread reads, and no other one writes.
pub writer_alone :
    (l : RwLock) (n : ℕ) {s : Sys}
    → CalmRun l n s
    → (i t : ℕ) → get_elem? s.threads i ≡ some (Pc.writes t)
    → ((j m : ℕ) → get_elem? s.threads j ≢ some (Pc.reads m))
      × ((j m : ℕ) → get_elem? s.threads j ≡ some (Pc.writes m) → i ≡ j)
writer_alone l n {s} run i t at =
    let v = CalmRun-IsValid l n run in
    (
      λ j m e.
          let before = v.first j i m t (Pc.writes t) e at refl in
          ground (
            arith,
            before,
            v.inside i t at,
            v.turn i t (Pc.writes t) at refl,
            count_if_pos (earlier t) s.threads j e,
          ),
      λ j m e.
          ground (
            arith,
            v.inside i t at,
            v.inside j m e,
            v.apart i j t (Pc.writes t) (Pc.writes m) at e,
          ),
    )
