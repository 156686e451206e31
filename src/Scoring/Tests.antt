-- ===== src/Scoring/Tests.antt =====
-- Answers of one letter per token, and the theorems at them.
use linux_project.Base.{
  Returns, codes, some, none, ℕ, zero, suc, ◌≡◌, refl, true, false, List, [], ◌∷◌, arith,
}
use linux_project.Scoring.{isblk}
use linux_project.Scoring.Tokens.{Token, Operands, isop, tokencmp, makepostfix}
use linux_project.Scoring.Compare.{NoBlanks, NoColons, AreAnswers, tokencmp-alternatives}
use linux_project.Scoring.Lexer.{
  str2token, quote_rest, operator_rest, word_rest, operator_tokens, isopstr,
}
use linux_project.Scoring.Lexing.{solid, Tokenized, str2token-Tokenized}
use linux_project.Scoring.Stack.{operand_strs}
use linux_project.Scoring.Postfix.{makepostfix-operand_strs}
use linux_project.Scoring.Tally.{tally, tally-makepostfix}

ab-NoBlanks : NoBlanks (97 ∷ 98 ∷ [])
unfolding NoBlanks isblk
ab-NoBlanks = (refl, (refl, tt))

abbrev nothing : List ℕ
nothing = []

abbrev just_c : List ℕ
just_c = 99 ∷ []

abbrev x : List ℕ
x = 120 ∷ []

abbrev y : List ℕ
y = 121 ∷ []

abbrev plus : List ℕ
plus = 43 ∷ []

x_or_y-AreAnswers : AreAnswers ((x ∷ []) ∷ (y ∷ []) ∷ [])
unfolding NoColons
x_or_y-AreAnswers zero b e = ground (arith, e)
x_or_y-AreAnswers (suc zero) b e = ground (arith, e)
x_or_y-AreAnswers (suc (suc i)) b e = absurd (ground (arith, e))

tokencmp-alternatives_example : tokencmp (x ∷ (58 ∷ []) ∷ y ∷ []) (y ∷ []) ≡ true
tokencmp-alternatives_example =
    tokencmp-alternatives (y ∷ []) (x ∷ []) ((y ∷ []) ∷ []) 1 x_or_y-AreAnswers refl

-- x + y
abbrev sum : List Token
sum =
    record { str = x; operands = Operands.no_op; ch = false }
    ∷ record { str = plus; operands = Operands.two_op; ch = false }
    ∷ record { str = y; operands = Operands.no_op; ch = false }
    ∷ []

makepostfix-operand_strs_example : operand_strs (makepostfix sum) ≡ x ∷ y ∷ []
unfolding operand_strs isop
makepostfix-operand_strs_example = makepostfix-operand_strs sum

tally-makepostfix_example : tally (λ s. true) (makepostfix sum) ≡ 3
unfolding tally isop
tally-makepostfix_example = tally-makepostfix (λ s. true) sum

-- `a <<= b&^1`
abbrev shifted : List ℕ
shifted = codes "a <<= b&^1\n"

shifted_tokens :
    str2token 13 shifted
    ≡ some (codes "a" ∷ codes "<<=" ∷ codes "b" ∷ codes "&" ∷ codes "^" ∷ codes "1" ∷ [])
unfolding str2token quote_rest operator_rest word_rest operator_tokens isopstr isop isblk
shifted_tokens = refl

no_second_quote : str2token 9 (codes "x \"y") ≡ none
unfolding str2token quote_rest operator_rest word_rest operator_tokens isopstr isop isblk
no_second_quote = refl

str2token-Tokenized_example : Returns (Tokenized (solid shifted)) (str2token 13 shifted)
str2token-Tokenized_example = str2token-Tokenized 13 shifted (omega arith) refl
