-- ===== src/Scoring/Stack.antt =====
-- Operands on the way through the stack of `makepostfix` in Project8/ssu_string.c.
use linux_project.Base.{
  append-nil, ℕ, ◌≡◌, inl, inr, refl, ◌∙◌, false, List, [], ◌∷◌, ◌++◌, ◌==◌, if◌then◌else◌, arith,
  Bool-cases,
}
use linux_project.Base.Int.{ℤ}
use linux_project.Scoring.Tokens.{
  Token, kind, prioritised, Postfix, pop_all, pop_bracket, push_operator,
}

-- The strings of the operands among the tokens.
unfoldable pub operand_strs : List Token → List (List ℕ)
operand_strs [] = []
operand_strs (t ∷ ts) = let rest = operand_strs ts in if kind t == 0 then t.str ∷ rest else rest

pub operand_strs-append :
    (xs ys : List Token) → operand_strs (xs ++ ys) ≡ operand_strs xs ++ operand_strs ys
unfolding operand_strs
operand_strs-append [] ys = refl
operand_strs-append (t ∷ ts) ys = ground (arith, operand_strs-append ts ys)

-- A token at the end that is no operand.
pub operand_strs_snoc :
    (xs : List Token) (t : Token)
    → (kind t == 0) ≡ false
    → operand_strs (xs ++ t ∷ []) ≡ operand_strs xs
unfolding operand_strs
operand_strs_snoc xs t other =
    operand_strs-append xs (t ∷ []) ∙ rw other (append-nil (operand_strs xs))

-- A state with no operand on the stack, and the operands of the output.
pub record Holds (s : Postfix) (strs : List (List ℕ)) : Type 0 where
  pub stack : operand_strs s.opstack ≡ []
  pub output : operand_strs s.phead ≡ strs

pub pop_all-Holds :
    (ops phead : List Token)
    → operand_strs ops ≡ []
    → operand_strs (pop_all ops phead) ≡ operand_strs phead
unfolding operand_strs
pop_all-Holds [] phead e = refl
pop_all-Holds (op ∷ ops) phead e = elim (Bool-cases (kind op == 0)) [
  | inl operand ↦ ground (arith, operand, e)
  | inr other ↦
      pop_all-Holds ops (phead ++ op ∷ []) (ground (arith, other, e))
      ∙ operand_strs_snoc phead op other
]

pub pop_bracket-Holds :
    (ops phead : List Token) (cnt found : ℤ)
    → operand_strs ops ≡ []
    → Holds (pop_bracket ops phead cnt found) (operand_strs phead)
unfolding operand_strs pop_bracket
pop_bracket-Holds [] phead cnt found e = record { stack = refl; output = refl }
pop_bracket-Holds (op ∷ ops) phead cnt found e = elim (Bool-cases (kind op == 0)) [
  | inl operand ↦ ground (arith, operand, e)
  | inr other ↦
      let r = pop_bracket-Holds ops (phead ++ op ∷ []) cnt found (ground (arith, other, e)) in
      record {
        stack = ground (arith, other, e, r.stack);
        output = ground (arith, other, r.output, operand_strs_snoc phead op other);
      }
]

pub push_operator-Holds :
    (ops : List Token) (s : Postfix) (t : Token)
    → (kind t == 0) ≡ false
    → operand_strs ops ≡ []
    → operand_strs s.opstack ≡ []
    → Holds (push_operator ops s t) (operand_strs s.phead)
unfolding operand_strs push_operator
push_operator-Holds [] s t other e free = record {
  stack = ground (arith, other, free);
  output = refl;
}
push_operator-Holds (op ∷ ops) s t other e free = record {
  stack = ground (arith, other, e);
  output = ground (arith, other, e, operand_strs_snoc s.phead (prioritised op));
}
