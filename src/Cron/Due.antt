-- ===== src/Cron/Due.antt =====
-- When `timer` of Project7/ssu_crond.c finds a part of a section due.
use linux_project.Base.{
  ℕ, zero, suc, ◌+◌, ◌*◌, ◌≤◌, ◌<◌, ◌≡◌, refl, ◌⊎◌, inl, inr, Bool, true, false, ◌||◌, some, List,
  arith, Bool-cases, Returns, subst,
}
use linux_project.Base.Int.{ℤ, pos, atoi, pos_part, leb_ℤ, eqb_ℤ}
use linux_project.Cron.{Position}
use linux_project.Cron.Daemon.{
  named, month_names, day_names, Clock, clock, matches, comparetime, dangling, timer_loop,
}

-- What a section's numbers are compared with.
abbrev pub value : ℤ → Clock → Position → ℤ
value temp c Position.minposition = atoi c.min
value temp c Position.hourposition = atoi c.hour
value temp c Position.dayposition = atoi c.day
value temp c Position.monthposition = named month_names 1 c.month temp
value temp c Position.weekposition = named day_names 0 c.month temp

matches-value :
    (temp : ℤ) (c : Clock) (num : ℤ) (p : Position)
    → matches temp c num p ≡ eqb_ℤ num (value temp c p)
unfolding matches
matches-value temp c num Position.minposition = refl
matches-value temp c num Position.hourposition = refl
matches-value temp c num Position.dayposition = refl
matches-value temp c num Position.monthposition = refl
matches-value temp c num Position.weekposition = refl

-- The number is `i`, or a number of steps above it, and not above `last`.
abbrev pub Reached : (i st : ℕ) → ℤ → ℤ → Type 0
Reached i st last v =
    (k : ℕ) × (leb_ℤ (pos (i + k * st)) last ≡ true) × (eqb_ℤ (pos (i + k * st)) v ≡ true)

module _ (i st : ℕ) (last : ℤ) (ox : Bool) (v : ℤ) where
  Reached-here : leb_ℤ (pos i) last ≡ true → eqb_ℤ (pos i) v ≡ true → Reached i st last v
  Reached-here inside here = let e : i + 0 * st ≡ i = omega arith in (0, rw e inside, rw e here)

  Reached-next : Reached (i + st) st last v → Reached i st last v
  Reached-next (k, inside, here) =
      let e : i + st + k * st ≡ i + suc k * st = omega arith in
      (
        suc k,
        subst (λ n. leb_ℤ (pos n) last ≡ true) e inside,
        subst (λ n. eqb_ℤ (pos n) v ≡ true) e here,
      )

  Reached-split : Reached i st last v → (eqb_ℤ (pos i) v ≡ true) ⊎ Reached (i + st) st last v
  Reached-split (zero, inside, here) =
      let e : i + 0 * st ≡ i = omega arith in inl (subst (λ n. eqb_ℤ (pos n) v ≡ true) e here)
  Reached-split (suc k, inside, here) =
      let e : i + suc k * st ≡ i + st + k * st = omega arith in
      inr (
        k,
        subst (λ n. leb_ℤ (pos n) last ≡ true) e inside,
        subst (λ n. eqb_ℤ (pos n) v ≡ true) e here,
      )

  Reached-inside : Reached i st last v → leb_ℤ (pos i) last ≡ true
  Reached-inside (k, inside, here) = ground (arith, inside)

  sound_next :
      leb_ℤ (pos i) last ≡ true
      → ((eqb_ℤ (pos i) v || ox) ≡ true) ⊎ Reached (i + st) st last v
      → (ox ≡ true) ⊎ Reached i st last v
  sound_next inside (inr r) = inr (Reached-next r)
  sound_next inside (inl e) = elim (Bool-cases (eqb_ℤ (pos i) v)) [
    | inl here ↦ inr (Reached-here inside here)
    | inr other ↦ inl (rw other at e)
  ]

  complete_next :
      (ox ≡ true) ⊎ Reached i st last v
      → ((eqb_ℤ (pos i) v || ox) ≡ true) ⊎ Reached (i + st) st last v
  complete_next (inl e) = inl (ground (arith, e))
  complete_next (inr r) = elim (Reached-split r) [
    | inl here ↦ inl (rw here refl)
    | inr later ↦ inr later
  ]

  not-Reached : leb_ℤ (pos i) last ≡ false → (ox ≡ true) ⊎ Reached i st last v → ox ≡ true
  not-Reached out (inl e) = e
  not-Reached out (inr r) = absurd (ground (arith, out, Reached-inside r))

module _ (now : List ℕ) (temp : ℤ) (c : Clock) (known : clock now ≡ some c) (p : Position) where
  pub comparetime_lem :
      (num : ℤ) → comparetime now temp num p ≡ some (eqb_ℤ num (value temp c p), dangling)
  unfolding comparetime
  comparetime_lem num = rw (known, matches-value temp c num p) refl

  pub record Looped (i st : ℕ) (last : ℤ) (ox due : Bool) : Type 0 where
    pub sound : due ≡ true → (ox ≡ true) ⊎ Reached i st last (value temp c p)
    pub complete : (ox ≡ true) ⊎ Reached i st last (value temp c p) → due ≡ true

  pub timer_loop_lem :
      (fuel i st : ℕ) (last : ℤ) (ox : Bool) (saved : List ℕ)
      → 1 ≤ st
      → 1 ≤ fuel
      → pos_part last + 1 < i + fuel
      → Returns
          (λ (due, rest). Looped i st last ox due)
          (timer_loop now temp fuel i st last p ox saved)
  unfolding timer_loop
  timer_loop_lem zero i st last ox saved step one enough = absurd (omega arith)
  timer_loop_lem (suc fuel) i st last ox saved step one enough =
      let v = value temp c p in
      let due = eqb_ℤ (pos i) v in
      elim (Bool-cases (leb_ℤ (pos i) last)) [
        | inl inside ↦
            let ((r, s), run, loop) =
              timer_loop_lem fuel (i + st) st last (due || ox) dangling step
                (ground (arith, inside)) (omega (arith, step, enough)) in
            (
              (r, s),
              rw (inside, comparetime_lem (pos i)) run,
              record {
                sound = λ e. sound_next i st last ox v inside (loop.sound e);
                complete = λ h. loop.complete (complete_next i st last ox v h);
              },
            )
        | inr out ↦ (
          (ox, saved),
          rw out refl,
          record { sound = λ e. inl e; complete = λ h. not-Reached i st last ox v out h },
        )
      ]
