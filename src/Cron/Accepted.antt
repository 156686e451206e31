-- ===== src/Cron/Accepted.antt =====
-- What ssu_crontab.c lets into the table of Project7, ssu_crond.c can read.
use linux_project.Base.{
  ℕ, suc, ◌≤◌, ◌≡◌, refl, ◌⊎◌, inl, inr, Bool, true, false, not, ◌&&◌, Option, none, some, List,
  ◌>>=◌, if◌then◌else◌, has_char, same_string, next_token, arith, Bool-cases, Option-cases, some_eq,
  subst, digits_value,
}
use linux_project.Base.Int.{ℤ, pos, negsuc, atoi, signed_value, pos_part, eqb_ℤ}
use linux_project.Cron.{bar, slash, space, every, Position, min_of, max_of}
use linux_project.Cron.Daemon.{
  Clock, clock, timer_range, bounds, timer_bar, timer_slash, timer, fits_buffers, dangling,
}
use linux_project.Cron.Crontab.{
  in_limits, bar_check, printed, slash_check, grammar_check, all_sections,
}
use linux_project.Cron.Crontab
use linux_project.Cron.Due.{value, timer_loop_lem, comparetime_lem}

-- The call ends, with an answer.
abbrev pub Answers {ℓ} : {A : Type ℓ} → Option A → Type ℓ
Answers {A} o = (a : A) × (o ≡ some a)

positive :
    (p : Position) (num : ℤ)
    → (not (eqb_ℤ num (pos 0)) && in_limits p num) ≡ true
    → 1 ≤ pos_part num
positive p (pos n) h = ground (arith, h)
positive p (negsuc n) h = absurd (ground (arith, h))

null_is_zero : atoi (printed none) ≡ pos 0
unfolding atoi signed_value digits_value
null_is_zero = refl

bar_check-bounds :
    (p : Position) (input : List ℕ) → bar_check p input ≡ some true → Answers (bounds input)
unfolding bar_check bounds
bar_check-bounds p input e = elim (Option-cases (next_token bar input)) [
  | inl broken ↦ absurd (ground (arith, rw broken at e))
  | inr ((cmp, rest), at) ↦ ((atoi cmp, atoi rest), rw at refl)
]

both_true :
    (m : Option Bool) (b : Bool)
    → (m >>= λ ox. if not ox then some false else some b) ≡ some true
    → (m ≡ some true) × (b ≡ true)
both_true none b e = cc
both_true (some true) b e = (refl, some_eq e)
both_true (some false) b e = absurd (ground (arith, e))

front_lem :
    (p : Position) (cmp : List ℕ)
    → (if has_char bar cmp then bar_check p cmp else some (same_string cmp every)) ≡ some true
    → (same_string cmp every ≡ true) ⊎ Answers (bounds cmp)
front_lem p cmp e = elim (Bool-cases (has_char bar cmp)) [
  | inl range ↦ inr (bar_check-bounds p cmp (rw range at e))
  | inr plain ↦ inl (some_eq (rw plain at e))
]

stand_lem :
    (p : Position) (o : Option (List ℕ × List ℕ))
    → (not (eqb_ℤ (atoi (printed o)) (pos 0)) && in_limits p (atoi (printed o))) ≡ true
    → (stand : List ℕ) × (saved : List ℕ) × (o ≡ some (stand, saved)) × 1 ≤ pos_part (atoi stand)
stand_lem p none e =
    absurd
      (ground (arith, subst (λ n. (not (eqb_ℤ n (pos 0)) && in_limits p n) ≡ true) null_is_zero e))
stand_lem p (some (stand, saved)) e = (stand, saved, refl, positive p (atoi stand) e)

module _ (now : List ℕ) (temp : ℤ) (c : Clock) (known : clock now ≡ some c) (p : Position) where
  timer_range-Answers :
      (first st last : ℤ) (saved : List ℕ)
      → 1 ≤ pos_part st
      → Answers (timer_range now temp first st last p saved)
  unfolding timer_range
  timer_range-Answers first st last saved step =
      let (r, run, loop) =
        timer_loop_lem now temp c known p (suc (suc (pos_part last))) (pos_part first) (pos_part st)
          last false saved step (omega arith) (omega arith) in
      (r, run)

  bar-Answers :
      (input saved : List ℕ)
      → bar_check p input ≡ some true
      → Answers (timer_bar now temp input p saved)
  unfolding timer_bar
  bar-Answers input saved e =
      let ((a, b), at) = bar_check-bounds p input e in
      let (r, run) = timer_range-Answers a (pos 1) b saved (omega arith) in (r, rw at run)

  -- The parts of a part with a slash that is accepted.
  slash-Answers :
      (input : List ℕ)
      → slash_check p input ≡ some true
      → fits_buffers input ≡ true
      → Answers (timer_slash now temp input p)
  unfolding slash_check timer_slash
  slash-Answers input e fits = elim (Option-cases (next_token slash input)) [
    | inl broken ↦ absurd (ground (arith, rw broken at e))
    | inr ((cmp, rest), at) ↦
        let (front, back) = both_true _ _ (rw at at e) in
        let (stand, saved, at', step) = stand_lem p (next_token space rest) back in
        elim (Bool-cases (same_string cmp every)) [
          | inl all ↦
              let (r, run) =
                timer_range-Answers (pos (min_of p)) (atoi stand) (pos (max_of p)) saved step in
              (r, rw (at, at', fits, all) run)
          | inr some_range ↦ elim (front_lem p cmp front) [
            | inl all ↦ absurd (ground (arith, all, some_range))
            | inr ((a, b), ends) ↦
                let (r, run) = timer_range-Answers a (atoi stand) b saved step in
                (r, rw (at, at', fits, some_range, ends) run)
          ]
        ]
  ]

  -- A part that `token_check` of ssu_crontab.c accepts and that fits into the arrays of ssu_crond.c,
  -- at a time that reads as a time: `timer` of
  -- ssu_crond.c ends with an answer for it.
  pub accepted-timer :
      (input saved : List ℕ)
      → Crontab.token_check p input ≡ some true
      → fits_buffers input ≡ true
      → (due : Bool) × (rest : List ℕ) × (timer now temp input p saved ≡ some (due, rest))
  unfolding Crontab.token_check timer
  accepted-timer input saved e fits = elim (Bool-cases (has_char slash input)) [
    | inl has ↦
        let ((due, rest), run) = slash-Answers input (rw has at e) fits in (due, rest, rw has run)
    | inr no_slash ↦ elim (Bool-cases (has_char bar input)) [
      | inl has ↦
          let ((due, rest), run) = bar-Answers input saved (rw (no_slash, has) at e) in
          (due, rest, rw (no_slash, has) run)
      | inr no_bar ↦ elim (Bool-cases (same_string input every)) [
        | inl all ↦ (true, saved, rw (no_slash, no_bar, all) refl)
        | inr number ↦ elim (Bool-cases (eqb_ℤ (atoi input) (pos 0))) [
          | inl zero_number ↦ (false, saved, rw (no_slash, no_bar, number, zero_number) refl)
          | inr other ↦ (
            eqb_ℤ (atoi input) (value temp c p),
            dangling,
            rw (no_slash, no_bar, number, other) (comparetime_lem now temp c known p (atoi input)),
          )
        ]
      ]
    ]
  ]
