-- ===== src/RwLock/WriterFirst/Leaving.antt =====
-- The moves of rw_lock-w-test.c out of the lock: what they keep.
use linux_project.Base.{
  ℕ, ◌+◌, ◌<◌, ◌≡◌, ◌≢◌, inl, inr, refl, some, get_elem?, update, arith, count_if, count_if-update,
  count_if_pos,
}
use linux_project.RwLock.WriterFirst.{Pc, Sys, r_unlock, w_unlock, w_leave}
use linux_project.RwLock.WriterFirst.Invariant.{
  IsValid, w_ticket, announced, has_ticket, earlier, Now, now, w_ticket-ticket,
}

pub r_unlocks-IsValid :
    (s : Sys) (i num : ℕ)
    → IsValid s
    → get_elem? s.threads i ≡ some (Pc.reads num)
    → IsValid (r_unlock s i s.lock.line)
r_unlocks-IsValid s i num v at = record {
  below = λ j t q e h. ground (arith, now s.threads i j p' e, v.below j t q);
  apart = λ j k t p q e d h g.
      ground (arith, now s.threads i j p' e, now s.threads i k p' d, v.apart j k t p q);
  turn = λ j t q e h. ground (
    arith,
    now s.threads i j p' e,
    v.turn j t q,
    v.first i j num t q at,
    count_if-update (earlier t) s.threads i (λ _. p') at,
  );
  first = λ j k m t q e d h.
      ground (arith, now s.threads i j p' e, now s.threads i k p' d, v.first j k m t q);
  inside = λ j t e. inside j t (now s.threads i j p' e);
  waiting = ground (arith, v.waiting, count_if-update announced s.threads i (λ _. p') at);
  total = ground (arith, v.total, count_if-update has_ticket s.threads i (λ _. p') at);
}
  where
    p' : Pc
    p' = Pc.idle

    inside : (j t : ℕ) → Now s.threads i p' j (Pc.writes t) → s.lock.line + 1 ≡ t
    inside j t (inl (here, same)) = cc
    inside j t (inr (other, old)) =
        let m<t = v.first i j num t (Pc.writes t) at old refl in
        absurd (
          ground (
            arith,
            m<t,
            v.inside j t old,
            v.turn j t (Pc.writes t) old refl,
            count_if_pos (earlier t) s.threads i at,
          ))

pub w_unlocks-IsValid :
    (s : Sys) (i num : ℕ)
    → IsValid s
    → get_elem? s.threads i ≡ some (Pc.writes num)
    → IsValid (w_unlock s i s.lock.line)
w_unlocks-IsValid s i num v at = record {
  below = λ j t q e h. ground (arith, now s.threads i j p' e, v.below j t q);
  apart = λ j k t p q e d h g.
      ground (arith, now s.threads i j p' e, now s.threads i k p' d, v.apart j k t p q);
  turn = λ j t q e h. turn j t q (now s.threads i j p' e) h;
  first = λ j k m t q e d h.
      ground (arith, now s.threads i j p' e, now s.threads i k p' d, v.first j k m t q);
  inside = λ j t e. inside j t (now s.threads i j p' e);
  waiting = ground (arith, v.waiting, count_if-update announced s.threads i (λ _. p') at);
  total = ground (arith, v.total, count_if-update has_ticket s.threads i (λ _. p') at);
}
  where
    p' : Pc
    p' = Pc.w_left

    -- The other writers hold later tickets.
    later :
        (j t : ℕ) (q : Pc) → i ≢ j → get_elem? s.threads j ≡ some q → w_ticket q ≡ some t → num < t
    later j t q other old h = ground (
      arith,
      v.inside i num at,
      v.turn j t q old h,
      v.turn i num (Pc.writes num) at refl,
      v.apart i j t (Pc.writes num) q at old,
      w_ticket-ticket q t h,
      other,
    )

    turn :
        (j t : ℕ) (q : Pc)
        → Now s.threads i p' j q
        → w_ticket q ≡ some t
        → s.lock.line + 1 + count_if (earlier t) (update s.threads i (λ _. p')) ≡ t
    turn j t q (inl (here, same)) h = ground (arith, same, h)
    turn j t q (inr (other, old)) h = ground (
      arith,
      later j t q other old h,
      v.turn j t q old h,
      count_if-update (earlier t) s.threads i (λ _. p') at,
    )

    inside : (j t : ℕ) → Now s.threads i p' j (Pc.writes t) → s.lock.line + 1 ≡ t
    inside j t (inl (here, same)) = cc
    inside j t (inr (other, old)) =
        absurd (
          omega
            (arith, later j t (Pc.writes t) other old refl, v.inside j t old, v.inside i num at))

pub w_leaves-IsValid :
    (s : Sys) (i : ℕ)
    → IsValid s
    → get_elem? s.threads i ≡ some Pc.w_left
    → IsValid (w_leave s i s.lock.w_wait)
w_leaves-IsValid s i v at = record {
  below = λ j t q e h. ground (arith, now s.threads i j p' e, v.below j t q);
  apart = λ j k t p q e d h g.
      ground (arith, now s.threads i j p' e, now s.threads i k p' d, v.apart j k t p q);
  turn = λ j t q e h. ground (
    arith,
    now s.threads i j p' e,
    v.turn j t q,
    count_if-update (earlier t) s.threads i (λ _. p') at,
  );
  first = λ j k m t q e d h.
      ground (arith, now s.threads i j p' e, now s.threads i k p' d, v.first j k m t q);
  inside = λ j t e. ground (arith, now s.threads i j p' e, v.inside j t);
  waiting = ground (arith, v.waiting, count_if-update announced s.threads i (λ _. p') at);
  total = ground (arith, v.total, count_if-update has_ticket s.threads i (λ _. p') at);
}
  where
    p' : Pc
    p' = Pc.idle
