-- ===== src/MasterWorker/Runs.antt =====
-- The steps of Project3/thread1/master-worker.c keep what holds of the globals with one master.
use linux_project.Base.{
  append-nil, ℕ, ◌≤◌, ◌≡◌, ◌≢◌, ◌⊎◌, inl, inr, refl, ◌∙◌, sym, subst, Bool, true, false, some, List,
  ◌++◌, length, get_elem?, update, arith, length-update, lt_of_get_elem?, update_inv,
}
use linux_project.MasterWorker.{
  Store, Master, Worker, Outcome, worker_behind_wait, awake, signalled, Sys,
}
use linux_project.MasterWorker.Buffer.{slice, consume_lem}
use linux_project.MasterWorker.Rounds.{StoreOk, IsValid, added, Produced, added-StoreOk}

-- The master after a round.
pub master-IsValid :
    (s : Sys) (i : ℕ) {o : Outcome} {st : Store} {m p : Master}
    → get_elem? s.masters i ≡ some p
    → IsValid s
    → Produced s.store o
    → o ≡ Outcome.goes st m
    → IsValid (record s { store = st; masters = update s.masters i (λ _. m) })
master-IsValid s i {o} {st} {m} at v (inl (m', calm, e)) goes =
    let same : s.store ≡ st = ground (arith, e, goes) in
    let end : m' ≡ m = ground (arith, e, goes) in
    subst (λ st. IsValid (record s { store = st; masters = update s.masters i (λ _. m) })) same
      (record {
        one = length-update s.masters i (λ _. m) ∙ v.one;
        store = v.store;
        woken =
            λ j here. ground (arith, calm, end, update_inv s.masters i (λ _. m) j here, v.woken j);
        leaving = v.leaving;
      })
master-IsValid s i {o} {st} {m} at v (inr (lt, e)) goes =
    let same : added s.store ≡ st = ground (arith, e, goes) in
    let end : Master.ready ≡ m = ground (arith, e, goes) in
    subst (λ st. IsValid (record s { store = st; masters = update s.masters i (λ _. m) })) same
      (record {
        one = length-update s.masters i (λ _. m) ∙ v.one;
        store = added-StoreOk s.store lt v.store;
        woken = λ j here. absurd (alone j (update_inv s.masters i (λ _. m) j here) end);
        leaving = λ j here. omega (arith, v.leaving j here);
      })
  where
    alone :
        (j : ℕ)
        → ((i ≡ j) × (x : Master) × (get_elem? s.masters j ≡ some x) × (m ≡ Master.woken))
          ⊎ ((i ≢ j) × (get_elem? s.masters j ≡ some Master.woken))
        → Master.ready ≡ m
        → ⊥
    alone j (inl (here, x, at', woken)) end = ground (arith, woken, end)
    alone j (inr (other, at')) end =
        other
          (omega (arith, v.one, lt_of_get_elem? s.masters i at, lt_of_get_elem? s.masters j at'))

-- The globals after a round of a worker.
abbrev emptied : Store → Store
emptied s = record s {
  consumed = s.consumed ++ slice 0 s.curr_buf_size s.buffer;
  curr_buf_size = 0;
}

emptied-StoreOk : (s : Store) → StoreOk s → StoreOk (emptied s)
unfolding slice
emptied-StoreOk s v = record {
  room = v.room;
  pos = v.pos;
  fits = omega arith;
  log = append-nil (s.consumed ++ slice 0 s.curr_buf_size s.buffer) ∙ v.log;
}

-- A signal wakes a master; the others, and those that do not wait, are as they were.
pub signalled-woken :
    (b : Bool) (j : ℕ) (masters : List Master) (i : ℕ)
    → get_elem? (signalled b j masters) i ≡ some Master.woken
    → (get_elem? masters i ≡ some Master.woken) ⊎ (b ≡ true)
signalled-woken false j masters i e = inl e
signalled-woken true j masters i e = inr refl

pub length-signalled :
    (b : Bool) (j : ℕ) (masters : List Master) → length (signalled b j masters) ≡ length masters
length-signalled false j masters = refl
length-signalled true j masters = length-update masters j awake

-- What a worker comes to behind its wait.
work-cases :
    (s : Store)
    → StoreOk s
    → let w = worker_behind_wait s in
      ((w.store ≡ s)
        × (w.signals ≡ false)
        × (w.worker ≡ Worker.leaves)
        × (s.total_items ≤ s.item_to_produce))
      ⊎ ((w.store ≡ emptied s)
          × ((w.worker ≡ Worker.ready)
              ⊎ ((w.worker ≡ Worker.leaves) × (s.total_items ≤ s.item_to_produce))))
unfolding worker_behind_wait
work-cases s v =
    let after = consume_lem s.max_buf_size 0 s.curr_buf_size s refl v.fits in ground (arith, after)

pub worker-IsValid :
    (s : Sys) (i j : ℕ)
    → IsValid s
    → let w = worker_behind_wait s.store in
      IsValid (record {
        store = w.store;
        masters = signalled w.signals j s.masters;
        workers = update s.workers i (λ _. w.worker);
        spurious = s.spurious;
      })
worker-IsValid s i j v =
    let w = worker_behind_wait s.store in
    elim (work-cases s.store v.store) [
      | inl (same, quiet, out, finished) ↦ record {
        one = length-signalled w.signals j s.masters ∙ v.one;
        store = subst StoreOk (sym same) v.store;
        woken = λ k at. ground (arith, same, finished);
        leaving = λ k at. ground (arith, same, finished);
      }
      | inr (same, out) ↦ record {
        one = length-signalled w.signals j s.masters ∙ v.one;
        store = subst StoreOk (sym same) (emptied-StoreOk s.store v.store);
        woken = λ k at. ground (arith, same, v.store.pos);
        leaving = λ k at.
            ground (arith, same, out, update_inv s.workers i (λ _. w.worker) k at, v.leaving k);
      }
    ]
