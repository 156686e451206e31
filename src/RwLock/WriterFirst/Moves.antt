-- ===== src/RwLock/WriterFirst/Moves.antt =====
-- The moves of rw_lock-w-test.c that come behind a ticket: what they keep.
use linux_project.Base.{
  ℕ, ◌≡◌, ◌≢◌, inl, inr, refl, true, some, get_elem?, arith, count_if-update, count_if_pos,
}
use linux_project.RwLock.WriterFirst.{Pc, Sys, r_may, w_may, r_enter, w_announce, w_enter}
use linux_project.RwLock.WriterFirst.Invariant.{
  IsValid, w_ticket, announced, has_ticket, earlier, Now, now,
}

pub r_enters-IsValid :
    (s : Sys) (i num : ℕ)
    → IsValid s
    → get_elem? s.threads i ≡ some (Pc.r_waits num)
    → r_may s.lock num ≡ true
    → ((j t : ℕ) → get_elem? s.threads j ≢ some (Pc.took t))
    → IsValid (r_enter s i num)
r_enters-IsValid s i num v at may calm = record {
  below = λ j t q e h.
      ground (arith, now s.threads i j p' e, v.below j t q, v.below i num (Pc.r_waits num));
  apart = λ j k t p q e d h g. ground (
    arith,
    now s.threads i j p' e,
    now s.threads i k p' d,
    v.apart j k t p q,
    v.apart i k t (Pc.r_waits num) q,
    v.apart j i t p (Pc.r_waits num),
  );
  turn = λ j t q e h. ground (
    arith,
    now s.threads i j p' e,
    v.turn j t q,
    count_if-update (earlier t) s.threads i (λ _. p') at,
  );
  first = λ j k m t q e d h. absurd (none_writes k t q (now s.threads i k p' d) h);
  inside = λ j t e. ground (arith, now s.threads i j p' e, v.inside j t);
  waiting = ground (arith, v.waiting, count_if-update announced s.threads i (λ _. p') at);
  total = ground (arith, v.total, count_if-update has_ticket s.threads i (λ _. p') at);
}
  where
    p' : Pc
    p' = Pc.reads num

    none_writes : (k t : ℕ) (q : Pc) → Now s.threads i p' k q → w_ticket q ≡ some t → ⊥
    none_writes k t q (inl (here, same)) h = ground (arith, same, h)
    none_writes k t (Pc.took n) (inr (other, old)) h = calm k n old
    none_writes k t (Pc.w_waits n) (inr (other, old)) h =
        ground (arith, v.waiting, may, count_if_pos announced s.threads k old refl)
    none_writes k t (Pc.writes n) (inr (other, old)) h =
        ground (arith, v.waiting, may, count_if_pos announced s.threads k old refl)
    none_writes k t Pc.idle (inr (other, old)) h = cc
    none_writes k t (Pc.r_waits n) (inr (other, old)) h = cc
    none_writes k t (Pc.reads n) (inr (other, old)) h = cc
    none_writes k t Pc.w_left (inr (other, old)) h = cc

pub w_announces-IsValid :
    (s : Sys) (i num : ℕ)
    → IsValid s
    → get_elem? s.threads i ≡ some (Pc.took num)
    → IsValid (w_announce s i num s.lock.w_wait)
w_announces-IsValid s i num v at = record {
  below = λ j t q e h.
      ground (arith, now s.threads i j p' e, v.below j t q, v.below i num (Pc.took num));
  apart = λ j k t p q e d h g. ground (
    arith,
    now s.threads i j p' e,
    now s.threads i k p' d,
    v.apart j k t p q,
    v.apart i k t (Pc.took num) q,
    v.apart j i t p (Pc.took num),
  );
  turn = λ j t q e h. ground (
    arith,
    now s.threads i j p' e,
    v.turn j t q,
    v.turn i num (Pc.took num) at refl,
    count_if-update (earlier t) s.threads i (λ _. p') at,
  );
  first = λ j k m t q e d h. ground (
    arith,
    now s.threads i j p' e,
    now s.threads i k p' d,
    v.first j k m t q,
    v.first j i m num (Pc.took num),
  );
  inside = λ j t e. ground (arith, now s.threads i j p' e, v.inside j t);
  waiting = ground (arith, v.waiting, count_if-update announced s.threads i (λ _. p') at);
  total = ground (arith, v.total, count_if-update has_ticket s.threads i (λ _. p') at);
}
  where
    p' : Pc
    p' = Pc.w_waits num

pub w_enters-IsValid :
    (s : Sys) (i num : ℕ)
    → IsValid s
    → get_elem? s.threads i ≡ some (Pc.w_waits num)
    → w_may s.lock num ≡ true
    → IsValid (w_enter s i num)
w_enters-IsValid s i num v at may = record {
  below = λ j t q e h.
      ground (arith, now s.threads i j p' e, v.below j t q, v.below i num (Pc.w_waits num));
  apart = λ j k t p q e d h g. ground (
    arith,
    now s.threads i j p' e,
    now s.threads i k p' d,
    v.apart j k t p q,
    v.apart i k t (Pc.w_waits num) q,
    v.apart j i t p (Pc.w_waits num),
  );
  turn = λ j t q e h. ground (
    arith,
    now s.threads i j p' e,
    v.turn j t q,
    v.turn i num (Pc.w_waits num) at refl,
    count_if-update (earlier t) s.threads i (λ _. p') at,
  );
  first = λ j k m t q e d h. ground (
    arith,
    now s.threads i j p' e,
    now s.threads i k p' d,
    v.first j k m t q,
    v.first j i m num (Pc.w_waits num),
  );
  inside = λ j t e. ground (arith, may, now s.threads i j p' e, v.inside j t);
  waiting = ground (arith, v.waiting, count_if-update announced s.threads i (λ _. p') at);
  total = ground (arith, v.total, count_if-update has_ticket s.threads i (λ _. p') at);
}
  where
    p' : Pc
    p' = Pc.writes num
