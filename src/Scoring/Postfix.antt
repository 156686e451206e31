-- ===== src/Scoring/Postfix.antt =====
-- What `makepostfix` of Project8/ssu_string.c keeps of the operands: all of them, in their order.
use linux_project.Base.{
  append_assoc, append-nil, ℕ, ◌≡◌, inl, inr, refl, ◌∙◌, sym, ap, Bool, true, false, List, [], ◌∷◌,
  ◌++◌, ◌==◌, if◌then◌else◌, arith, Bool-cases,
}
use linux_project.Base.Int.{pos, ◌+ℤ◌, ◌-ℤ◌}
use linux_project.Scoring.{eq_str}
use linux_project.Scoring.Tokens.{
  Token, kind, is_post, prioritised, Postfix, inserttoken, pushtoken, flushed, pop_bracket,
  push_operator, is_zero, inside_step, outside_step, postfix_step, postfix_loop, makepostfix,
}
use linux_project.Scoring.Stack.{
  operand_strs, operand_strs-append, operand_strs_snoc, Holds, pop_all-Holds, pop_bracket-Holds,
  push_operator-Holds,
}

-- One token: it is an operand, and goes to the output, or it changes nothing in the operands there.
abbrev Stepped : Postfix → Token → Postfix → Type 0
Stepped s t s' = Holds s' (operand_strs s.phead ++ operand_strs (t ∷ []))

insert-Stepped :
    (s : Postfix) (t : Token) → operand_strs s.opstack ≡ [] → Stepped s t (inserttoken s t)
insert-Stepped s t free = record { stack = free; output = operand_strs-append s.phead (t ∷ []) }

other-Stepped :
    (s : Postfix) (t : Token) {s' : Postfix}
    → (kind t == 0) ≡ false
    → Holds s' (operand_strs s.phead)
    → Stepped s t s'
unfolding operand_strs
other-Stepped s t other h = record {
  stack = h.stack;
  output = h.output ∙ rw other (sym (append-nil (operand_strs s.phead)));
}

push-Holds :
    (s : Postfix) (t : Token)
    → (kind t == 0) ≡ false
    → operand_strs s.opstack ≡ []
    → Holds (pushtoken s t) (operand_strs s.phead)
unfolding operand_strs
push-Holds s t other free = record { stack = ground (arith, other, free); output = refl }

snoc-Holds :
    (s : Postfix) (t : Token) {strs : List (List ℕ)}
    → (kind t == 0) ≡ false
    → Holds s strs
    → Holds (inserttoken s t) strs
snoc-Holds s t other h = record {
  stack = h.stack;
  output = operand_strs_snoc s.phead t other ∙ h.output;
}

inside_step-Stepped :
    (s : Postfix) (t : Token) → operand_strs s.opstack ≡ [] → Stepped s t (inside_step s t)
unfolding inside_step
inside_step-Stepped s t free = elim (Bool-cases (kind t == 0)) [
  | inl operand ↦ rw (operand, inside_step) (insert-Stepped s t free)
  | inr other ↦
      rw (other, inside_step)
        (other-Stepped s t other (by_kind other (kind t == 6) (is_post t.operands) (kind t == 7)))
]
  where
    by_kind :
        (kind t == 0) ≡ false
        → (open_ post close_ : Bool)
        → Holds
            (if open_
              then (if post
                  then inserttoken (record s { cnt = s.cnt +ℤ pos 1 }) t
                  else pushtoken (record s { cnt = s.cnt +ℤ pos 1 }) t)
              else (if close_
                  then pop_bracket s.opstack s.phead (s.cnt -ℤ pos 1) (s.cnt -ℤ pos 1)
                  else pushtoken s t))
            (operand_strs s.phead)
    by_kind other true true close_ =
        snoc-Holds (record s { cnt = s.cnt +ℤ pos 1 }) t other
          (record { stack = free; output = refl })
    by_kind other true false close_ = push-Holds (record s { cnt = s.cnt +ℤ pos 1 }) t other free
    by_kind other false post true =
        pop_bracket-Holds s.opstack s.phead (s.cnt -ℤ pos 1) (s.cnt -ℤ pos 1) free
    by_kind other false post false = push-Holds s t other free

outside_step-Stepped :
    (s : Postfix) (t : Token) → operand_strs s.opstack ≡ [] → Stepped s t (outside_step s t)
unfolding outside_step
outside_step-Stepped s t free = elim (Bool-cases (kind t == 0)) [
  | inl operand ↦ rw (operand, outside_step) (insert-Stepped s t free)
  | inr other ↦
      rw (other, outside_step)
        (other-Stepped s t other (by_kind other (kind t == 6) (is_post t.operands) (kind t == 7)))
]
  where
    closed : Postfix
    closed = pop_bracket s.opstack s.phead s.cnt (s.cnt -ℤ pos 1)

    by_kind :
        (kind t == 0) ≡ false
        → (open_ post close_ : Bool)
        → Holds
            (if open_
              then (if post
                  then inserttoken s t
                  else pushtoken (record s { cnt = s.cnt +ℤ pos 1 }) t)
              else (if close_
                  then (if post then inserttoken closed t else closed)
                  else push_operator s.opstack s t))
            (operand_strs s.phead)
    by_kind other true true close_ = snoc-Holds s t other (record { stack = free; output = refl })
    by_kind other true false close_ = push-Holds (record s { cnt = s.cnt +ℤ pos 1 }) t other free
    by_kind other false true true =
        snoc-Holds closed t other (pop_bracket-Holds s.opstack s.phead s.cnt (s.cnt -ℤ pos 1) free)
    by_kind other false false true = pop_bracket-Holds s.opstack s.phead s.cnt (s.cnt -ℤ pos 1) free
    by_kind other false post false = push_operator-Holds s.opstack s t other free free

postfix_step-Stepped :
    (s : Postfix) (t : Token)
    → operand_strs s.opstack ≡ []
    → Stepped s (prioritised t) (postfix_step s t)
unfolding postfix_step operand_strs
postfix_step-Stepped s t free = elim (Bool-cases (eq_str t.str (58 ∷ []))) [
  | inl colon ↦
      let same = pop_all-Holds s.opstack s.phead free in
      let r = insert-Stepped (flushed s) (prioritised t) refl in
      rw (colon, postfix_step)
        (record {
          stack = r.stack;
          output = r.output ∙ ap (λ strs. strs ++ operand_strs (prioritised t ∷ [])) same;
        })
  | inr other ↦ elim (Bool-cases (is_zero s.cnt)) [
    | inl out ↦ rw (other, out, postfix_step) (outside_step-Stepped s (prioritised t) free)
    | inr in_ ↦ rw (other, in_, postfix_step) (inside_step-Stepped s (prioritised t) free)
  ]
]

postfix_loop-Holds :
    (s : Postfix) (ts : List Token)
    → operand_strs s.opstack ≡ []
    → Holds (postfix_loop s ts) (operand_strs s.phead ++ operand_strs ts)
unfolding postfix_loop operand_strs
postfix_loop-Holds s [] free = record {
  stack = free;
  output = sym (append-nil (operand_strs s.phead));
}
postfix_loop-Holds s (t ∷ ts) free =
    let h = postfix_step-Stepped s t free in
    let r = postfix_loop-Holds (postfix_step s t) ts h.stack in
    record {
      stack = r.stack;
      output =
          r.output
          ∙ ap (λ strs. strs ++ operand_strs ts) h.output
          ∙ append_assoc (operand_strs s.phead) (operand_strs (prioritised t ∷ []))
              (operand_strs ts)
          ∙ ap (λ strs. operand_strs s.phead ++ strs)
              (sym (operand_strs-append (prioritised t ∷ []) ts));
    }

-- `makepostfix` keeps the operands, those tokens that do not start with a character of an operator or a
-- bracket, in their order, whatever the brackets and operators around them are.
pub makepostfix-operand_strs : (ts : List Token) → operand_strs (makepostfix ts) ≡ operand_strs ts
unfolding makepostfix operand_strs
makepostfix-operand_strs ts =
    let r = postfix_loop-Holds (record { phead = []; opstack = []; cnt = pos 0 }) ts refl in
    pop_all-Holds _ _ r.stack ∙ r.output
