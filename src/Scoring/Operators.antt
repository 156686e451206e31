-- ===== src/Scoring/Operators.antt =====
-- The tokens that `str2token` of Project8/ssu_string.c makes of the characters of an operator.
use linux_project.Base.{
  All, leb, append-nil, append_assoc, ℕ, ◌≡◌, ◌⊎◌, inl, inr, refl, sym, ap, subst, ◌∙◌, true, false,
  List, [], ◌∷◌, ◌++◌, if◌then◌else◌, arith, Bool-cases,
}
use linux_project.Scoring.{isblk}
use linux_project.Scoring.Tokens.{isop}
use linux_project.Scoring.Shapes.{
  is_token, is_operator, operator-is_token, one_operator, second_operator,
}
use linux_project.Scoring.Lexer.{
  is_single, isopstr, operator_rest, ends_operator, is_shift, operator_tokens,
}

-- All characters of the tokens, one after the other.
unfoldable pub joined : List (List ℕ) → List ℕ
joined [] = []
joined (t ∷ ts) = t ++ joined ts

pub joined-append : (ts us : List (List ℕ)) → joined (ts ++ us) ≡ joined ts ++ joined us
unfolding joined
joined-append [] us = refl
joined-append (t ∷ ts) us =
    ap (λ ws. t ++ ws) (joined-append ts us) ∙ sym (append_assoc t (joined ts) (joined us))

abbrev pub AreTokens : List (List ℕ) → Type 0
AreTokens ts = All (λ t. is_token t ≡ true) ts

pub AreTokens-append : (ts us : List (List ℕ)) → AreTokens ts → AreTokens us → AreTokens (ts ++ us)
AreTokens-append [] us h k = k
AreTokens-append (t ∷ ts) us (here, h) k = (here, AreTokens-append ts us h k)

-- The tokens of these characters are tokens, and have all the characters.
abbrev pub Taken : List ℕ → Type 0
Taken str = (joined (operator_tokens str) ≡ str) × AreTokens (operator_tokens str)

one-Taken : (c : ℕ) (t : List ℕ) → is_operator (c ∷ t) ≡ true → Taken (c ∷ t)
unfolding joined operator_tokens
one-Taken c t one = rw one (append-nil (c ∷ t), (operator-is_token c t one, tt))

two-Taken :
    (c d : ℕ) → is_operator (c ∷ []) ≡ true → is_operator (d ∷ []) ≡ true → Taken (c ∷ d ∷ [])
unfolding joined operator_tokens
two-Taken c d hc hd = elim (Bool-cases (is_operator (c ∷ d ∷ []))) [
  | inl one ↦ one-Taken c (d ∷ []) one
  | inr two ↦ rw two (refl, (operator-is_token c [] hc, (operator-is_token d [] hd, tt)))
]

short-Taken : (c : ℕ) (s : List ℕ) → is_operator (c ∷ []) ≡ true → Taken (c ∷ (operator_rest 1 s).0)
unfolding operator_rest
short-Taken c [] h = one-Taken c [] h
short-Taken c (d ∷ s) h = elim (Bool-cases (ends_operator d)) [
  | inl ends ↦ rw ends (one-Taken c [] h)
  | inr goes ↦ rw goes (two-Taken c d h (second_operator d goes))
]

-- `<<=` and `>>=`
abbrev ShiftTaken : List ℕ → ℕ → Type 0
ShiftTaken s c = Taken (c ∷ (operator_rest 2 (c ∷ 61 ∷ s)).0)

shift_at : (c : ℕ) (s : List ℕ) → (c ≡ 60) ⊎ (c ≡ 62) → ShiftTaken s c
unfolding operator_rest isopstr isop isblk
shift_at c s (inl e) = subst (ShiftTaken s) (sym e) (one-Taken 60 (60 ∷ 61 ∷ []) refl)
shift_at c s (inr e) = subst (ShiftTaken s) (sym e) (one-Taken 62 (62 ∷ 61 ∷ []) refl)

shift-Taken : (c : ℕ) (s : List ℕ) → is_shift c s ≡ true → Taken (c ∷ (operator_rest 2 s).0)
shift-Taken c [] h = absurd (ground (arith, h))
shift-Taken c (d ∷ []) h = absurd (ground (arith, h))
shift-Taken c (d ∷ e ∷ s) h =
    let dc : d ≡ c = ground (arith, h) in
    let e61 : e ≡ 61 = ground (arith, h) in
    let shift : (c ≡ 60) ⊎ (c ≡ 62) = ground (arith, h) in rw (dc, e61) (shift_at c s shift)

pub operator-Taken :
    (c : ℕ) (s : List ℕ)
    → leb 1 (isop c) ≡ true
    → is_single c ≡ false
    → Taken (c ∷ (operator_rest (if is_shift c s then 2 else 1) s).0)
operator-Taken c s h k = elim (Bool-cases (is_shift c s)) [
  | inl long ↦ rw long (shift-Taken c s long)
  | inr short ↦ rw short (short-Taken c s (one_operator c h k))
]
