-- ===== src/Scoring/Tally.antt =====
-- What `makepostfix` of Project8/ssu_string.c keeps: every token that is not a bracket, as often as it
-- was there.
use linux_project.Base.{
  ℕ, ◌+◌, ◌≡◌, refl, ap, inl, inr, ◌&&◌, ◌||◌, Bool, not, List, [], ◌∷◌, ◌++◌, ◌==◌, arith, one,
  Bool-cases,
}
use linux_project.Base.Int.{ℤ, pos, ◌-ℤ◌}
use linux_project.Scoring.{eq_str}
use linux_project.Scoring.Tokens.{
  Token, kind, prioritised, Postfix, pop_all, pop_bracket, push_operator, is_zero, inside_step,
  outside_step, postfix_step, postfix_loop, makepostfix,
}

abbrev pub is_bracket : Token → Bool
is_bracket t = (kind t == 6) || (kind t == 7)

-- How many tokens that are no brackets have a string of the sort.
unfoldable pub tally : (List ℕ → Bool) → List Token → ℕ
tally P [] = 0
tally P (t ∷ ts) = one (P t.str && not (is_bracket t)) + tally P ts

module _ (P : List ℕ → Bool) where
  tally-append : (xs ys : List Token) → tally P (xs ++ ys) ≡ tally P xs + tally P ys
  unfolding tally
  tally-append [] ys = omega arith
  tally-append (t ∷ ts) ys = omega (arith, tally-append ts ys)

  -- Output and stack together.
  abbrev held : Postfix → ℕ
  held s = tally P s.phead + tally P s.opstack

  tally-pop_all :
      (ops phead : List Token) → tally P (pop_all ops phead) ≡ tally P phead + tally P ops
  unfolding tally
  tally-pop_all [] phead = omega arith
  tally-pop_all (op ∷ ops) phead =
      omega (arith, tally-pop_all ops (phead ++ op ∷ []), tally-append phead (op ∷ []))

  held-pop_bracket :
      (ops phead : List Token) (cnt found : ℤ)
      → held (pop_bracket ops phead cnt found) ≡ tally P phead + tally P ops
  unfolding tally pop_bracket
  held-pop_bracket [] phead cnt found = refl
  held-pop_bracket (op ∷ ops) phead cnt found =
      ground
        (arith, held-pop_bracket ops (phead ++ op ∷ []) cnt found, tally-append phead (op ∷ []))

  held-push_operator :
      (ops : List Token) (s : Postfix) (t : Token)
      → s.opstack ≡ ops
      → held (push_operator ops s t) ≡ held s + tally P (t ∷ [])
  unfolding tally push_operator
  held-push_operator [] s t e = ground (arith, e)
  held-push_operator (op ∷ ops) s t e =
      let here : tally P s.opstack ≡ tally P (op ∷ ops) = ap (tally P) e in
      ground (arith, here, tally-append s.phead (prioritised op ∷ []))

  held-inside_step : (s : Postfix) (t : Token) → held (inside_step s t) ≡ held s + tally P (t ∷ [])
  unfolding tally inside_step
  held-inside_step s t = ground (
    arith,
    tally-append s.phead (t ∷ []),
    held-pop_bracket s.opstack s.phead (s.cnt -ℤ pos 1) (s.cnt -ℤ pos 1),
  )

  held-outside_step :
      (s : Postfix) (t : Token) → held (outside_step s t) ≡ held s + tally P (t ∷ [])
  unfolding tally outside_step
  held-outside_step s t =
      let closed = pop_bracket s.opstack s.phead s.cnt (s.cnt -ℤ pos 1) in
      ground (
        arith,
        tally-append s.phead (t ∷ []),
        tally-append closed.phead (t ∷ []),
        held-pop_bracket s.opstack s.phead s.cnt (s.cnt -ℤ pos 1),
        held-push_operator s.opstack s t refl,
      )

  held-postfix_step :
      (s : Postfix) (t : Token) → held (postfix_step s t) ≡ held s + tally P (t ∷ [])
  unfolding tally postfix_step
  held-postfix_step s t = elim (Bool-cases (eq_str t.str (58 ∷ []))) [
    | inl colon ↦
        rw (colon, postfix_step)
          (omega (
            arith,
            tally-pop_all s.opstack s.phead,
            tally-append (pop_all s.opstack s.phead) (prioritised t ∷ []),
          ))
    | inr other ↦ elim (Bool-cases (is_zero s.cnt)) [
      | inl out ↦ rw (other, out, postfix_step) (held-outside_step s (prioritised t))
      | inr in_ ↦ rw (other, in_, postfix_step) (held-inside_step s (prioritised t))
    ]
  ]

  held-postfix_loop :
      (s : Postfix) (ts : List Token) → held (postfix_loop s ts) ≡ held s + tally P ts
  unfolding tally postfix_loop
  held-postfix_loop s [] = omega arith
  held-postfix_loop s (t ∷ ts) =
      omega (arith, held-postfix_loop (postfix_step s t) ts, held-postfix_step s t)

-- For any sort of strings: `makepostfix` leaves as many tokens of that sort that are no brackets as
-- there were.
pub tally-makepostfix :
    (P : List ℕ → Bool) (ts : List Token) → tally P (makepostfix ts) ≡ tally P ts
unfolding tally makepostfix
tally-makepostfix P ts =
    let start : Postfix = record { phead = []; opstack = []; cnt = pos 0 } in
    let s = postfix_loop start ts in
    omega (arith, tally-pop_all P s.opstack s.phead, held-postfix_loop P start ts)
