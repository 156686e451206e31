-- ===== src/MasterWorker/Order.antt =====
-- What runs of Project3/thread1/master-worker.c guarantee with one master, and not with two.
use linux_project.Base.{
  ◌<◌, Option-cases, get_elem?-update_self, ℕ, ◌+◌, ◌≤◌, ◌≡◌, inl, inr, refl, ◌∙◌, sym, false,
  Option, none, some, leb, length, get_elem?, update, arith, length-update, get_elem?-update_ne,
  lt_of_get_elem?,
}
use linux_project.MasterWorker.{
  Store, Master, Outcome, produce, master_round, master_behind_wait, Sys, Step,
}
use linux_project.MasterWorker.Rounds.{added, produce_room}

produce_full : (s : Store) → length s.buffer ≤ s.curr_buf_size → produce s ≡ Outcome.overflow
unfolding produce
produce_full s le = elim (Option-cases (get_elem? s.buffer s.curr_buf_size)) [
  | inl gone ↦ rw (gone, produce) refl
  | inr (x, at) ↦ absurd (omega (arith, le, lt_of_get_elem? s.buffer s.curr_buf_size at))
]

-- With two masters: where one has been woken and the other is at the mutex, the buffer has room for
-- one number more and at least two are still to be produced, the other can run first, and the write of
-- the one that was woken then goes behind the end of the buffer.
pub two_masters :
    (s : Sys) (i j : ℕ)
    → get_elem? s.masters i ≡ some Master.woken
    → get_elem? s.masters j ≡ some Master.ready
    → length s.store.buffer ≡ s.store.max_buf_size
    → s.store.curr_buf_size + 1 ≡ s.store.max_buf_size
    → s.store.item_to_produce + 2 ≤ s.store.total_items
    → (s' : Sys) × Step s s'
      × (get_elem? s'.masters i ≡ some Master.woken)
      × (master_behind_wait s'.store ≡ Outcome.overflow)
unfolding master_round master_behind_wait produce
two_masters s i j woken ready room last more = (
  record s { store = added s.store; masters = update s.masters j (λ _. Master.ready) },
  Step.master_runs j ready
      (ground (arith, produce_room s.store (omega (arith, room, last)), last, more)),
  get_elem?-update_ne s.masters j i (λ _. Master.ready) (λ e. ground (arith, e, ready, woken))
      ∙ woken,
  over (get_elem? (added s.store).buffer (added s.store).curr_buf_size) refl,
)
  where
    full : length (added s.store).buffer ≡ (added s.store).curr_buf_size
    full =
        length-update s.store.buffer s.store.curr_buf_size (λ _. s.store.item_to_produce)
        ∙ room
        ∙ sym last

    over :
        (o : Option ℕ)
        → get_elem? (added s.store).buffer (added s.store).curr_buf_size ≡ o
        → master_behind_wait (added s.store) ≡ Outcome.overflow
    over none e =
        let going : leb (added s.store).total_items (added s.store).item_to_produce ≡ false =
          ground (arith, more) in
        rw (going, e, master_behind_wait, produce) refl
    over (some x) e = absurd (
        omega (arith, full, lt_of_get_elem? (added s.store).buffer (added s.store).curr_buf_size e))

-- A master that waits for room in a full buffer, with a number still to be produced, however many
-- masters there are: it may come out of `pthread_cond_wait` without a signal, and its write then goes
-- behind the end of the buffer.
spurious_wakeup :
    (s : Sys) (i : ℕ)
    → get_elem? s.masters i ≡ some Master.waits
    → length s.store.buffer ≡ s.store.max_buf_size
    → s.store.curr_buf_size ≡ s.store.max_buf_size
    → s.store.item_to_produce < s.store.total_items
    → (s' : Sys) × Step s s'
      × (get_elem? s'.masters i ≡ some Master.woken)
      × (master_behind_wait s'.store ≡ Outcome.overflow)
unfolding master_behind_wait
spurious_wakeup s i waits room full more = (
  record s { masters = update s.masters i (λ _. Master.woken); spurious = s.spurious + 1 },
  Step.master_wakes i waits,
  get_elem?-update_self s.masters i (λ _. Master.woken) waits,
  ground (arith, more, produce_full s.store (omega (arith, room, full))),
)
