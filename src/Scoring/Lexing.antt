-- ===== src/Scoring/Lexing.antt =====
-- What `str2token` of Project8/ssu_string.c makes of a text without quotes.
use linux_project.Base.{
  subst, append-nil, ℕ, zero, suc, ◌≤◌, ◌<◌, ◌≡◌, inl, inr, refl, sym, ap, ◌∙◌, Bool, true, false,
  ◌||◌, ◌&&◌, Option, some, List, [], ◌∷◌, ◌++◌, ◌==◌, leb, if◌then◌else◌, length, ◌>>=◌, has_char,
  arith, Bool-cases, Returns, Returns-bind, Returns-map,
}
use linux_project.Scoring.{isblk}
use linux_project.Scoring.Tokens.{isop}
use linux_project.Scoring.Operators.{
  joined, joined-append, operator-Taken, AreTokens, AreTokens-append,
}
use linux_project.Scoring.Shapes.{is_token, single-is_token, word-is_token}
use linux_project.Scoring.Lexer.{
  is_single, operator_rest, word_rest, ends_operator, ends_word, is_shift, operator_tokens,
  str2token,
}

-- The character at the head of the text is passed over.
abbrev pub skipped : ℕ → List ℕ → Bool
skipped c s = leb 1 (isblk c) || ((c == 10) && (length s == 0))

-- The text without its blanks, and without the newline at its end, and each token is an operator, or starts with a colon, or is a bracket, a comma or a
-- newline, or is a word without a blank, an operator or a newline in it.
unfoldable pub solid : List ℕ → List ℕ
solid [] = []
solid (c ∷ s) = let rest = solid s in if skipped c s then rest else c ∷ rest

-- What a token takes from the front of a text, and what it leaves.
record Split (s t r : List ℕ) : Type 0 where
  text : solid s ≡ t ++ solid r
  shorter : length r ≤ length s
  quiet : has_char 34 s ≡ false → has_char 34 r ≡ false

nothing-Split : (s : List ℕ) → Split s [] s
nothing-Split s = record { text = refl; shorter = omega arith; quiet = λ q. q }

next-Split : {c : ℕ} {s t r : List ℕ} → skipped c s ≡ false → Split s t r → Split (c ∷ s) (c ∷ t) r
unfolding solid
next-Split {c} {s} kept h = record {
  text = rw kept (ap (λ ws. c ∷ ws) h.text);
  shorter = let le = h.shorter in omega arith;
  quiet = λ q. h.quiet (ground (arith, q));
}

word_rest-Split : (s : List ℕ) → let (t, r) = word_rest s in Split s t r
unfolding word_rest
word_rest-Split [] = nothing-Split []
word_rest-Split (d ∷ s) = elim (Bool-cases (ends_word d)) [
  | inl ends ↦ rw ends (nothing-Split (d ∷ s))
  | inr goes ↦ rw goes (next-Split (ground (arith, goes)) (word_rest-Split s))
]

operator_rest-Split : (n : ℕ) (s : List ℕ) → let (t, r) = operator_rest n s in Split s t r
unfolding operator_rest
operator_rest-Split zero s = nothing-Split s
operator_rest-Split (suc n) [] = nothing-Split []
operator_rest-Split (suc n) (d ∷ s) = elim (Bool-cases (ends_operator d)) [
  | inl ends ↦ rw ends (nothing-Split (d ∷ s))
  | inr goes ↦ rw goes (next-Split (ground (arith, goes)) (operator_rest-Split n s))
]

nil_solid : [] ≡ solid []
unfolding solid
nil_solid = refl

solid_skip : (c : ℕ) (s : List ℕ) → skipped c s ≡ true → solid (c ∷ s) ≡ solid s
unfolding solid
solid_skip c s blank = rw blank refl

-- Tokens that have these characters.
abbrev pub Tokenized : List ℕ → List (List ℕ) → Type 0
Tokenized str ts = (joined ts ≡ str) × AreTokens ts

Tokenized-append :
    (ts us : List (List ℕ)) {t u : List ℕ}
    → Tokenized t ts
    → Tokenized u us
    → Tokenized (t ++ u) (ts ++ us)
unfolding joined
Tokenized-append ts us (e, ok) (e', ok') =
    (joined-append ts us ∙ rw (e, e') refl, AreTokens-append ts us ok ok')

one-Tokenized : (t : List ℕ) → is_token t ≡ true → Tokenized t (t ∷ [])
unfolding joined
one-Tokenized t h = (append-nil t, (h, tt))

-- A token, or two, from the front of the text, and the tokens of what is left.
str2token_step :
    (ts : List (List ℕ)) {s t r : List ℕ} {o : Option (List (List ℕ))}
    → Tokenized t ts
    → Split s t r
    → Returns (Tokenized (solid r)) o
    → Returns (Tokenized (solid s)) (o >>= (λ us. some (ts ++ us)))
str2token_step ts now h rest = Returns-bind rest (λ us later. (
  ts ++ us,
  refl,
  subst (λ str. Tokenized str (ts ++ us)) (sym h.text) (Tokenized-append ts us now later),
))

-- A text without a double quote becomes tokens, within one round more than its length. Their characters,
-- one token after the other, are those of the text in their order, without its blanks and without a
-- newline at its end, and each token is an operator, or starts with a colon, or is a bracket, a comma or a
-- newline, or is a word without a blank, an operator or a newline in it.
pub str2token-Tokenized :
    (fuel : ℕ) (s : List ℕ)
    → length s < fuel
    → has_char 34 s ≡ false
    → Returns (Tokenized (solid s)) (str2token fuel s)
unfolding str2token joined
str2token-Tokenized zero s lt quiet = absurd (omega arith)
str2token-Tokenized (suc fuel) [] lt quiet = ([], refl, (nil_solid, tt))
str2token-Tokenized (suc fuel) (c ∷ s) lt quiet =
    let no_quote : (c == 34) ≡ false = ground (arith, quiet) in
    let quiet_s : has_char 34 s ≡ false = ground (arith, quiet) in
    let lt_s : length s < fuel = omega (arith, lt) in
    let rest = str2token-Tokenized fuel s lt_s quiet_s in
    let op = operator_rest-Split (if is_shift c s then 2 else 1) s in
    let word = word_rest-Split s in
    let behind_op =
      str2token-Tokenized fuel (operator_rest (if is_shift c s then 2 else 1) s).1
        (let le = op.shorter in omega (arith, le, lt_s)) (op.quiet quiet_s) in
    let behind_word =
      str2token-Tokenized fuel (word_rest s).1 (let le = word.shorter in omega (arith, le, lt_s))
        (word.quiet quiet_s) in
    elim (Bool-cases (skipped c s)) [
      | inl blank ↦ rw blank (Returns-map rest (λ ts (e, ok). (e ∙ sym (solid_skip c s blank), ok)))
      | inr kept ↦ elim (Bool-cases (is_single c)) [
        | inl single ↦
            rw (kept, single)
              (str2token_step ((c ∷ []) ∷ []) (one-Tokenized (c ∷ []) (single-is_token c single))
                (next-Split kept (nothing-Split s)) rest)
        | inr no_single ↦ elim (Bool-cases (leb 1 (isop c))) [
          | inl is_op ↦
              rw (kept, no_single, no_quote, is_op)
                (str2token_step
                  (operator_tokens (c ∷ (operator_rest (if is_shift c s then 2 else 1) s).0))
                  (operator-Taken c s is_op no_single) (next-Split kept op) behind_op)
          | inr is_word ↦
              rw (kept, no_single, no_quote, is_word)
                (str2token_step ((c ∷ (word_rest s).0) ∷ [])
                  (one-Tokenized (c ∷ (word_rest s).0)
                    (word-is_token c s is_word (ground (arith, kept)) (ground (arith, no_single))))
                  (next-Split kept word) behind_word)
        ]
      ]
    ]
