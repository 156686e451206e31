-- ===== src/Cron/Ranges.antt =====
-- The ranges and steps of a section in Project7/ssu_crond.c.
use linux_project.Base.{
  ℕ, zero, suc, ◌+◌, ◌*◌, ◌-◌, ◌≤◌, ◌≡◌, ◌↔◌, refl, ◌⊎◌, inl, inr, Bool, true, false, ◌||◌, ◌&&◌,
  none, some, List, has_char, arith, Option-cases, subst,
}
use linux_project.Base.Int.{ℤ, pos, negsuc, pos_part, leb_ℤ, eqb_ℤ}
use linux_project.Cron.{bar, slash, Position}
use linux_project.Cron.Daemon.{
  Clock, clock, comparetime, timer_loop, timer_range, bounds, timer_bar, timer,
}
use linux_project.Cron.Due.{value, Reached, timer_loop_lem}

module _ (now : List ℕ) (temp : ℤ) (c : Clock) (known : clock now ≡ some c) (p : Position) where
  -- A range with a step of at least 1: the loop ends, and finds the section due just when the clock's
  -- number is the first of the range, or stands a number of steps above it, and not above the last.
  pub timer_range_lem :
      (first st : ℕ) (last : ℤ) (saved : List ℕ)
      → 1 ≤ st
      → (due : Bool) × (rest : List ℕ) × (timer_range now temp (pos first) (pos st) last p saved
          ≡ some (due, rest))
        × ((due ≡ true) ↔ Reached first st last (value temp c p))
  unfolding timer_range
  timer_range_lem first st last saved step =
      let ((due, rest), run, loop) =
        timer_loop_lem now temp c known p (suc (suc (pos_part last))) first st last false saved step
          (omega arith) (omega arith) in
      (due, rest, run, (λ e. from_loop (loop.sound e), λ r. loop.complete (inr r)))
    where
      from_loop :
          (false ≡ true) ⊎ Reached first st last (value temp c p)
          → Reached first st last (value temp c p)
      from_loop (inl e) = cc
      from_loop (inr r) = r

  between : (a : ℕ) (b v : ℤ) → Reached a 1 b v ↔ ((leb_ℤ (pos a) v && leb_ℤ v b) ≡ true)
  between a b v = (to, from v)
    where
      to : Reached a 1 b v → (leb_ℤ (pos a) v && leb_ℤ v b) ≡ true
      to (k, inside, here) = ground (arith, inside, here)

      from : (v : ℤ) → (leb_ℤ (pos a) v && leb_ℤ v b) ≡ true → Reached a 1 b v
      from (pos n) h =
          let e : n ≡ a + (n - a) * 1 = ground (arith, h) in
          (
            n - a,
            subst (λ k. leb_ℤ (pos k) b ≡ true) e (ground (arith, h)),
            subst (λ k. eqb_ℤ (pos k) (pos n) ≡ true) e (ground arith),
          )
      from (negsuc n) h = absurd (ground (arith, h))

  -- A part `a-b` is due just when the clock's number is neither under `a` nor above `b`.
  pub timer_between :
      (input : List ℕ) (saved : List ℕ) (a : ℕ) (b : ℤ)
      → has_char slash input ≡ false
      → has_char bar input ≡ true
      → bounds input ≡ some (pos a, b)
      → (due : Bool) × (rest : List ℕ) × (timer now temp input p saved ≡ some (due, rest))
        × ((due ≡ true) ↔ ((leb_ℤ (pos a) (value temp c p) && leb_ℤ (value temp c p) b) ≡ true))
  unfolding timer timer_bar
  timer_between input saved a b no_slash has_bar ends =
      let (due, rest, run, when) = timer_range_lem a 1 b saved (omega arith) in
      let v = value temp c p in
      (
        due,
        rest,
        rw (no_slash, has_bar, ends) run,
        (λ e. (between a b v).0 (when.0 e), λ h. when.1 ((between a b v).1 h)),
      )

-- With a step of 0 the loop of a range that is not empty never ends, whatever the fuel.
pub timer_loop_stuck :
    (now : List ℕ) (temp : ℤ) (fuel i : ℕ) (last : ℤ) (p : Position) (ox : Bool) (saved : List ℕ)
    → leb_ℤ (pos i) last ≡ true
    → timer_loop now temp fuel i 0 last p ox saved ≡ none
unfolding timer_loop
timer_loop_stuck now temp zero i last p ox saved inside = refl
timer_loop_stuck now temp (suc fuel) i last p ox saved inside =
    let same : i + 0 ≡ i = omega arith in
    elim (Option-cases (comparetime now temp (pos i) p)) [
      | inl broken ↦ rw (inside, broken) refl
      | inr ((due, rest), run) ↦
          rw (inside, run, same) (timer_loop_stuck now temp fuel i last p (due || ox) rest inside)
    ]
