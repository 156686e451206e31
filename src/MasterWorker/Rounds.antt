-- ===== src/MasterWorker/Rounds.antt =====
-- What holds of the globals of Project3/thread1/master-worker.c with one master, and what a round of the
-- master does to them.
use linux_project.Base.{
  append_assoc, ℕ, suc, ◌+◌, ◌≤◌, ◌<◌, ◌≡◌, ◌≢◌, ◌⊎◌, inl, inr, refl, ◌∙◌, sym, ap, true, false,
  some, [], ◌∷◌, ◌++◌, ◌==◌, leb, length, get_elem?, update, replicate, arith, ℕ_discrete,
  length-update, get_elem?_of_lt, Bool-cases,
}
use linux_project.MasterWorker.{
  Store, Master, Worker, Outcome, produce, master_round, master_behind_wait, Sys, Step,
}
use linux_project.MasterWorker.Buffer.{slice, upto, slice-update}

-- One master, and workers; the globals as `main` sets them.
abbrev pub start : ℕ → ℕ → ℕ → Sys
start total max workers = record {
  store = record {
    item_to_produce = 0;
    curr_buf_size = 0;
    total_items = total;
    max_buf_size = max;
    buffer = replicate max 0;
    consumed = [];
  };
  masters = Master.ready ∷ [];
  workers = replicate workers Worker.ready;
  spurious = 0;
}

pub data Reach (total max workers : ℕ) : Sys → Type 0 where
  begins : Reach total max workers (start total max workers)
  runs : {s t : Sys} → Reach total max workers s → Step s t → Reach total max workers t

-- What holds of the globals.
pub record StoreOk (s : Store) : Type 0 where
  pub room : length s.buffer ≡ s.max_buf_size
  pub pos : 1 ≤ s.max_buf_size
  pub fits : s.curr_buf_size ≤ s.max_buf_size
  pub log : s.consumed ++ slice 0 s.curr_buf_size s.buffer ≡ upto s.item_to_produce

pub record IsValid (s : Sys) : Type 0 where
  pub one : length s.masters ≡ 1
  pub store : StoreOk s.store
  pub woken :
      (i : ℕ)
      → get_elem? s.masters i ≡ some Master.woken
      → (s.store.curr_buf_size < s.store.max_buf_size)
        ⊎ (s.store.total_items ≤ s.store.item_to_produce)
  pub leaving :
      (i : ℕ)
      → get_elem? s.workers i ≡ some Worker.leaves
      → s.store.total_items ≤ s.store.item_to_produce

abbrev pub added : Store → Store
added s = record s {
  buffer = update s.buffer s.curr_buf_size (λ _. s.item_to_produce);
  curr_buf_size = s.curr_buf_size + 1;
  item_to_produce = s.item_to_produce + 1;
}

pub produce_room :
    (s : Store)
    → s.curr_buf_size < length s.buffer
    → produce s ≡ Outcome.goes (added s) Master.ready
unfolding produce
produce_room s lt =
    let (x, at) = get_elem?_of_lt s.buffer s.curr_buf_size lt in rw (at, produce) refl

pub added-StoreOk : (s : Store) → s.curr_buf_size < s.max_buf_size → StoreOk s → StoreOk (added s)
unfolding upto
added-StoreOk s lt v = record {
  room = length-update s.buffer s.curr_buf_size (λ _. s.item_to_produce) ∙ v.room;
  pos = v.pos;
  fits = omega arith;
  log =
      let longer =
        slice-update 0 s.curr_buf_size s.buffer s.item_to_produce (omega (arith, v.room)) in
      let here : 0 + s.curr_buf_size ≡ s.curr_buf_size = omega arith in
      ap
        (λ n.
          s.consumed ++ slice 0 (s.curr_buf_size + 1) (update s.buffer n (λ _. s.item_to_produce)))
        (sym here)
      ∙ ap (λ ys. s.consumed ++ ys) longer
      ∙ sym (append_assoc s.consumed (slice 0 s.curr_buf_size s.buffer) (s.item_to_produce ∷ []))
      ∙ ap (λ ys. ys ++ s.item_to_produce ∷ []) v.log
      ∙ ap upto {x = suc s.item_to_produce} {y = s.item_to_produce + 1} (omega arith);
}

-- What a round of a master comes to.
abbrev pub Produced : Store → Outcome → Type 0
Produced s o =
    ((m : Master) × (m ≢ Master.woken) × (o ≡ Outcome.goes s m))
    ⊎ ((s.curr_buf_size < s.max_buf_size) × (o ≡ Outcome.goes (added s) Master.ready))

pub master_round-Produced : (s : Store) → StoreOk s → Produced s (master_round s)
unfolding master_round
master_round-Produced s v = elim (Bool-cases (leb s.total_items s.item_to_produce)) [
  | inl finished ↦ inl (Master.done, λ e. cc, rw (finished, master_round) refl)
  | inr more ↦ elim (ℕ_discrete s.curr_buf_size s.max_buf_size) [
    | yes full ↦
        let hit : (s.curr_buf_size == s.max_buf_size) ≡ true = ground (arith, full) in
        inl (Master.waits, λ e. cc, rw (more, hit, master_round) refl)
    | no room ↦
        let miss : (s.curr_buf_size == s.max_buf_size) ≡ false = ground (arith, room) in
        let lt : s.curr_buf_size < s.max_buf_size = omega (arith, v.fits) in
        inr (lt, rw (more, miss, master_round) (produce_room s (omega (arith, v.room))))
  ]
]

pub behind_wait-Produced :
    (s : Store)
    → StoreOk s
    → (s.curr_buf_size < s.max_buf_size) ⊎ (s.total_items ≤ s.item_to_produce)
    → Produced s (master_behind_wait s)
unfolding master_behind_wait
behind_wait-Produced s v why = elim (Bool-cases (leb s.total_items s.item_to_produce)) [
  | inl finished ↦ inl (Master.ready, λ e. cc, rw (finished, master_behind_wait) refl)
  | inr more ↦
      let lt : s.curr_buf_size < s.max_buf_size = ground (arith, more, why) in
      inr (lt, rw (more, master_behind_wait) (produce_room s (omega (arith, v.room))))
]
