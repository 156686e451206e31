-- ===== src/RwLock/WriterFirst/Invariant.antt =====
-- The tickets of rw_lock-w-test.c: what holds of them while no reader enters in the middle of a `w_lock`.
use mathlib.Core.Option
use linux_project.Base.{
  ℕ, ◌+◌, ◌<◌, ◌≡◌, ◌≢◌, ◌⊎◌, inl, inr, refl, Bool, true, false, Option, none, some, List, ◌==◌,
  ltb, if◌then◌else◌, get_elem?, update, arith, ℕ_discrete, get_elem?-update, count_if,
  count_if-update, count_if_ext,
}
use linux_project.RwLock.WriterFirst.{Pc, Sys, stored, r_lock, w_lock}

-- The ticket that a thread holds, and the ticket of a writer.
abbrev pub ticket : Pc → Option ℕ
ticket Pc.idle = none
ticket (Pc.r_waits n) = some n
ticket (Pc.reads n) = some n
ticket (Pc.took n) = some n
ticket (Pc.w_waits n) = some n
ticket (Pc.writes n) = some n
ticket Pc.w_left = none

abbrev pub w_ticket : Pc → Option ℕ
w_ticket (Pc.took n) = some n
w_ticket (Pc.w_waits n) = some n
w_ticket (Pc.writes n) = some n
w_ticket _ = none

-- The thread is counted in `w_wait`.
abbrev pub announced : Pc → Bool
announced (Pc.w_waits n) = true
announced (Pc.writes n) = true
announced Pc.w_left = true
announced _ = false

abbrev pub has_ticket : Pc → Bool
has_ticket p = elim (ticket p) [ none ↦ false | some n ↦ true ]

-- The thread holds a ticket before `t`.
abbrev pub earlier : ℕ → Pc → Bool
earlier t p = elim (ticket p) [ none ↦ false | some n ↦ ltb n t ]

pub record IsValid (s : Sys) : Type 0 where
  pub below :
      (i t : ℕ) (p : Pc) → get_elem? s.threads i ≡ some p → ticket p ≡ some t → t < s.lock.count
  pub apart :
      (i j t : ℕ) (p q : Pc)
      → get_elem? s.threads i ≡ some p
      → get_elem? s.threads j ≡ some q
      → ticket p ≡ some t
      → ticket q ≡ some t
      → i ≡ j
  pub turn :
      (i t : ℕ) (p : Pc)
      → get_elem? s.threads i ≡ some p
      → w_ticket p ≡ some t
      → s.lock.line + count_if (earlier t) s.threads ≡ t
  pub first :
      (i j m t : ℕ) (q : Pc)
      → get_elem? s.threads i ≡ some (Pc.reads m)
      → get_elem? s.threads j ≡ some q
      → w_ticket q ≡ some t
      → m < t
  pub inside : (i t : ℕ) → get_elem? s.threads i ≡ some (Pc.writes t) → s.lock.line ≡ t
  pub waiting : s.lock.w_wait ≡ count_if announced s.threads
  pub total : s.lock.line + count_if has_ticket s.threads ≡ s.lock.count

-- A thread that changes its state, and the others.
abbrev pub Now : List Pc → ℕ → Pc → ℕ → Pc → Type 0
Now threads i p' j q = ((i ≡ j) × (q ≡ p')) ⊎ ((i ≢ j) × (get_elem? threads j ≡ some q))

pub now :
    (threads : List Pc) (i j : ℕ) (p' : Pc) {q : Pc}
    → get_elem? (update threads i (λ _. p')) j ≡ some q
    → Now threads i p' j q
now threads i j p' {q} e = elim (ℕ_discrete i j) [
  | yes here ↦ inl (here, step (get_elem? threads j) here (get_elem?-update threads i j (λ _. p')))
  | no other ↦ inr (other, ground (arith, other, get_elem?-update threads i j (λ _. p')))
]
  where
    step :
        (o : Option Pc)
        → i ≡ j
        → get_elem? (update threads i (λ _. p')) j ≡ (if i == j then Option.map (λ _. p') o else o)
        → q ≡ p'
    step none here u = ground (arith, here, u, e)
    step (some r) here u = ground (arith, here, u, e)

pub w_ticket-ticket : (p : Pc) (t : ℕ) → w_ticket p ≡ some t → ticket p ≡ some t
w_ticket-ticket Pc.idle t e = cc
w_ticket-ticket (Pc.r_waits n) t e = cc
w_ticket-ticket (Pc.reads n) t e = cc
w_ticket-ticket (Pc.took n) t e = e
w_ticket-ticket (Pc.w_waits n) t e = e
w_ticket-ticket (Pc.writes n) t e = e
w_ticket-ticket Pc.w_left t e = cc

-- A thread that takes the next ticket, as a reader or as a writer.
takes_ticket :
    (s : Sys) (i : ℕ) (p' : Pc)
    → IsValid s
    → get_elem? s.threads i ≡ some Pc.idle
    → (p' ≡ Pc.r_waits s.lock.count) ⊎ (p' ≡ Pc.took s.lock.count)
    → IsValid (record {
      lock = record s.lock { count = s.lock.count + 1 };
      threads = update s.threads i (λ _. p');
      loaded = stored s i;
    })
takes_ticket s i p' v at new = record {
  below = λ j t q e h. ground (arith, new, now s.threads i j p' e, v.below j t q);
  apart = λ j k t p q e d h g. ground (
    arith,
    new,
    now s.threads i j p' e,
    now s.threads i k p' d,
    v.below j t p,
    v.below k t q,
    v.apart j k t p q,
  );
  turn = λ j t q e h. turn j t q (now s.threads i j p' e) h;
  first = λ j k m t q e d h. ground (
    arith,
    new,
    now s.threads i j p' e,
    now s.threads i k p' d,
    v.below j m (Pc.reads m),
    v.first j k m t q,
  );
  inside = λ j t e. ground (arith, new, now s.threads i j p' e, v.inside j t);
  waiting = ground (arith, new, v.waiting, count_if-update announced s.threads i (λ _. p') at);
  total = ground (arith, new, v.total, count_if-update has_ticket s.threads i (λ _. p') at);
}
  where
    turn :
        (j t : ℕ) (q : Pc)
        → Now s.threads i p' j q
        → w_ticket q ≡ some t
        → s.lock.line + count_if (earlier t) (update s.threads i (λ _. p')) ≡ t
    turn j t q (inl (here, same)) h =
        let all : count_if (earlier s.lock.count) s.threads ≡ count_if has_ticket s.threads =
          count_if_ext (earlier s.lock.count) has_ticket s.threads
            (λ k r e. held k r e (ticket r) refl) in
        ground (arith, new, v.total, count_if-update (earlier t) s.threads i (λ _. p') at)
      where
        held :
            (k : ℕ) (r : Pc)
            → get_elem? s.threads k ≡ some r
            → (o : Option ℕ) → ticket r ≡ o
            → earlier s.lock.count r ≡ has_ticket r
        held k r e none without = ground (arith, without)
        held k r e (some m) has = ground (arith, has, v.below k m r e has)
    turn j t q (inr (other, old)) h = ground (
      arith,
      new,
      v.turn j t q old h,
      v.below j t q old (w_ticket-ticket q t h),
      count_if-update (earlier t) s.threads i (λ _. p') at,
    )

pub r_locks-IsValid :
    (s : Sys) (i : ℕ)
    → IsValid s
    → get_elem? s.threads i ≡ some Pc.idle
    → IsValid (r_lock s i s.lock.count)
r_locks-IsValid s i v at = takes_ticket s i (Pc.r_waits s.lock.count) v at (inl refl)

pub w_locks-IsValid :
    (s : Sys) (i : ℕ)
    → IsValid s
    → get_elem? s.threads i ≡ some Pc.idle
    → IsValid (w_lock s i s.lock.count)
w_locks-IsValid s i v at = takes_ticket s i (Pc.took s.lock.count) v at (inr refl)
