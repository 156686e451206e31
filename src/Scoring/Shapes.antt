-- ===== src/Scoring/Shapes.antt =====
-- What strings `str2token` of Project8/ssu_string.c makes.
use linux_project.Base.{
  ℕ, ◌≡◌, refl, Bool, true, false, ◌||◌, ◌&&◌, not, List, [], ◌∷◌, ◌==◌, leb, length, arith,
  Bool-cases, inl, inr,
}
use linux_project.Scoring.{first_char, isblk}
use linux_project.Scoring.Tokens.{isop}
use linux_project.Scoring.Lexer.{isopstr, is_single, ends_operator, ends_word, word_rest}

abbrev pub in_word : List ℕ → Bool
in_word [] = true
in_word (d ∷ s) = not (ends_word d) && in_word s

-- An operator, characters behind a colon, a bracket, comma or newline, or a word.
unfoldable pub is_token : List ℕ → Bool
is_token [] = false
is_token (c ∷ t) =
    (isopstr (c ∷ t) == 1) || (c == 58) || (is_single c && (length t == 0)) || in_word (c ∷ t)

word_rest-in_word : (s : List ℕ) → in_word (word_rest s).0 ≡ true
unfolding word_rest
word_rest-in_word [] = refl
word_rest-in_word (d ∷ s) = elim (Bool-cases (ends_word d)) [
  | inl ends ↦ rw ends refl
  | inr goes ↦ rw goes (ground (arith, goes, word_rest-in_word s))
]

abbrev pub is_operator : List ℕ → Bool
is_operator str = (isopstr str == 1) || (first_char str == 58)

pub operator-is_token : (c : ℕ) (t : List ℕ) → is_operator (c ∷ t) ≡ true → is_token (c ∷ t) ≡ true
unfolding is_token
operator-is_token c t h = ground (arith, h)

pub single-is_token : (c : ℕ) → is_single c ≡ true → is_token (c ∷ []) ≡ true
unfolding is_token
single-is_token c h = ground (arith, h)

pub word-is_token :
    (c : ℕ) (s : List ℕ)
    → leb 1 (isop c) ≡ false
    → leb 1 (isblk c) ≡ false
    → (c == 10) ≡ false
    → is_token (c ∷ (word_rest s).0) ≡ true
unfolding is_token
word-is_token c s h b n = let w = word_rest-in_word s in ground (arith, h, b, n, w)

-- A character that is an operator by itself.
pub one_operator :
    (c : ℕ) → leb 1 (isop c) ≡ true → is_single c ≡ false → is_operator (c ∷ []) ≡ true
unfolding isop isopstr
one_operator c h k = ground (arith, h, k)

pub second_operator : (d : ℕ) → ends_operator d ≡ false → is_operator (d ∷ []) ≡ true
unfolding isop isopstr
second_operator d h = ground (arith, h)
