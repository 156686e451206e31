-- ===== src/Scoring/Compare.antt =====
-- When Project8/ssu_string.c takes an answer for the right one: `stringcmp` for texts, `tokencmp` for
-- lists of tokens.
use linux_project.Base.{
  append-nil, ℕ, zero, suc, ◌+◌, ◌≤◌, ◌≡◌, ◌≢◌, ◌⊎◌, inl, inr, refl, ◌∙◌, ap, true, false, none,
  some, List, [], ◌∷◌, ◌++◌, ◌==◌, arith, length, length-append, subst, get_elem?, some_eq,
}
use linux_project.Scoring.{eq_str, first_char, isblk, strlwr, stringcmp_loop, stringcmp}
use linux_project.Scoring.Tokens.{nextans, ends_here, is_nil, tokencmp_loop, tokencmp}

-- Neither blanks nor a terminator in the text.
unfoldable pub NoBlanks : List ℕ → Type 0
NoBlanks [] = Unit
NoBlanks (c ∷ cs) = (isblk c ≡ 0) × NoBlanks cs

-- A common front is passed over.
stringcmp_loop_front :
    (p s t : List ℕ) (n : ℕ)
    → NoBlanks p
    → stringcmp_loop (length p + n) (p ++ s) (p ++ t) ≡ stringcmp_loop n s t
unfolding NoBlanks stringcmp_loop
stringcmp_loop_front [] s t n h = ap (λ m. stringcmp_loop m s t) (omega arith)
stringcmp_loop_front (c ∷ p) s t n (plain, h) =
    ap (λ m. stringcmp_loop m (c ∷ p ++ s) (c ∷ p ++ t)) {x = length (c ∷ p) + n}
      {y = suc (length p + n)} (omega arith)
    ∙ ground (arith, plain, stringcmp_loop_front p s t n h)

stringcmp_loop_end : (t : List ℕ) (n : ℕ) → stringcmp_loop n [] t ≡ some true
unfolding stringcmp_loop
stringcmp_loop_end t zero = refl
stringcmp_loop_end t (suc n) = refl

-- The comparison of an answer with a student's text, in lower case, behind a common front `p` without
-- blanks: if the answer ends there, they agree, whatever else the student wrote; if the student's text
-- ends there and the answer goes on, C reads behind the end; and if two other characters that are no
-- blanks follow, they do not agree.
pub stringcmp_front :
    (p s t ans std : List ℕ)
    → NoBlanks p
    → strlwr ans ≡ p ++ s
    → strlwr std ≡ p ++ t
    → (s ≡ [] → stringcmp ans std ≡ some true)
      × ((c : ℕ) (cs : List ℕ) → s ≡ c ∷ cs → t ≡ [] → stringcmp ans std ≡ none)
      × ((c d : ℕ) (cs ds : List ℕ)
          → s ≡ c ∷ cs
          → t ≡ d ∷ ds
          → isblk c ≡ 0
          → isblk d ≡ 0
          → c ≢ d
          → stringcmp ans std ≡ some false)
unfolding stringcmp stringcmp_loop
stringcmp_front p s t ans std plain ea es =
    let start : stringcmp ans std ≡ stringcmp_loop (length s) s t =
      ap (λ a. stringcmp_loop (length a) a (strlwr std)) ea
      ∙ ap (stringcmp_loop (length (p ++ s)) (p ++ s)) es
      ∙ ap (λ n. stringcmp_loop n (p ++ s) (p ++ t)) (length-append p s)
      ∙ stringcmp_loop_front p s t (length s) plain in
    (
      λ e. start ∙ ap (λ s. stringcmp_loop (length s) s t) e,
      λ c cs e f.
          start
          ∙ ap (λ s. stringcmp_loop (length s) s t) e
          ∙ ap (stringcmp_loop (suc (length cs)) (c ∷ cs)) f,
      λ c d cs ds e f bc bd ne.
          start
          ∙ ap (λ s. stringcmp_loop (length s) s t) e
          ∙ ap (stringcmp_loop (suc (length cs)) (c ∷ cs)) f
          ∙ ground (arith, bc, bd, ne),
    )

eq_str_refl : (s : List ℕ) → eq_str s s ≡ true
eq_str_refl [] = refl
eq_str_refl (c ∷ cs) = ground (arith, eq_str_refl cs)

tokencmp_loop_front :
    (n : ℕ) (head p s t : List (List ℕ))
    → length (p ++ s) ≤ n
    → (s ≡ []) ⊎ (t ≡ [])
    → tokencmp_loop n head (p ++ s) (p ++ t) ≡ true
unfolding tokencmp_loop
tokencmp_loop_front zero head [] [] t le e = refl
tokencmp_loop_front zero head [] (a ∷ s) t le e = absurd (omega arith)
tokencmp_loop_front zero head (a ∷ p) s t le e = absurd (omega arith)
tokencmp_loop_front (suc n) head [] [] t le e = refl
tokencmp_loop_front (suc n) head [] (a ∷ s) [] le e = refl
tokencmp_loop_front (suc n) head [] (a ∷ s) (b ∷ t) le e = ground (arith, e)
tokencmp_loop_front (suc n) head (a ∷ p) s t le e =
    ground (arith, eq_str_refl a, tokencmp_loop_front n head p s t (omega arith) e)

-- `tokencmp` takes an answer for the right one as soon as one of the two lists of tokens is a front of
-- the other: the student may have left off the end of the answer, or gone on behind it.
pub tokencmp_front :
    (p s t : List (List ℕ)) → (s ≡ []) ⊎ (t ≡ []) → tokencmp (p ++ s) (p ++ t) ≡ true
unfolding tokencmp
tokencmp_front p s t e = tokencmp_loop_front (length (p ++ s)) (p ++ t) p s t (omega arith) e

-- Tokens without a colon in front.
unfoldable pub NoColons : List (List ℕ) → Type 0
NoColons [] = Unit
NoColons (t ∷ ts) = ((first_char t == 58) ≡ false) × NoColons ts

-- Further alternatives, each behind a colon.
abbrev pub alternatives : List (List (List ℕ)) → List (List ℕ)
alternatives [] = []
alternatives (b ∷ bs) = (58 ∷ []) ∷ b ++ alternatives bs

-- Each alternative has tokens, and none that starts with a colon.
abbrev pub AreAnswers : List (List (List ℕ)) → Type 0
AreAnswers alts = (i : ℕ) (b : List (List ℕ)) → get_elem? alts i ≡ some b → NoColons b × (b ≢ [])

nextans_front :
    (a b : List (List ℕ)) (bs : List (List (List ℕ)))
    → NoColons a
    → nextans (a ++ alternatives (b ∷ bs)) ≡ b ++ alternatives bs
unfolding nextans NoColons
nextans_front [] b bs h = refl
nextans_front (t ∷ a) b bs (plain, h) = ground (arith, plain, nextans_front a b bs h)

nonempty : (b c : List (List ℕ)) → b ≢ [] → is_nil (b ++ c) ≡ false
nonempty [] c ne = absurd (ne refl)
nonempty (t ∷ b) c ne = refl

-- From the middle of an alternative, where the student's answer is one of those that follow.
abbrev Later : ℕ → List (List ℕ) → Type 0
Later n std =
    (a s : List (List ℕ)) (alts : List (List (List ℕ))) (i : ℕ)
    → length (a ++ alternatives alts) ≤ n
    → NoColons a
    → a ≢ []
    → AreAnswers alts
    → get_elem? alts i ≡ some std
    → tokencmp_loop n std (a ++ alternatives alts) s ≡ true

-- The end of the alternative, or its next token.
goes_on :
    (n : ℕ) (std a s b : List (List ℕ)) (bs : List (List (List ℕ))) (i : ℕ)
    → Later n std
    → length (a ++ alternatives (b ∷ bs)) ≤ n
    → NoColons a
    → AreAnswers (b ∷ bs)
    → get_elem? (b ∷ bs) i ≡ some std
    → (ends_here (a ++ alternatives (b ∷ bs)) ≡ true)
      ⊎ (tokencmp_loop n std (a ++ alternatives (b ∷ bs)) s ≡ true)
goes_on n std [] s b bs i later le h all at = inl refl
goes_on n std (z ∷ a) s b bs i later le h all at =
    inr (later (z ∷ a) s (b ∷ bs) i le h (λ e. ground arith) all at)

-- The next alternative, from the start of the student's answer.
starts_over :
    (n : ℕ) (std b : List (List ℕ)) (bs : List (List (List ℕ))) (i : ℕ)
    → Later n std
    → length (b ++ alternatives bs) ≤ n
    → AreAnswers (b ∷ bs)
    → get_elem? (b ∷ bs) i ≡ some std
    → tokencmp_loop n std (b ++ alternatives bs) std ≡ true
starts_over n std b bs zero later le all at =
    subst (λ c. tokencmp_loop n std (b ++ alternatives bs) c ≡ true) (append-nil b ∙ some_eq at)
      (tokencmp_loop_front n std b (alternatives bs) [] le (inr refl))
starts_over n std b bs (suc j) later le all at =
    later b std bs j le (all 0 b refl).0 (all 0 b refl).1 (λ k c here. all (suc k) c here) at

tokencmp_loop-Later : (n : ℕ) (std : List (List ℕ)) → Later n std
unfolding tokencmp_loop NoColons
tokencmp_loop-Later n std [] s alts i le h ne all at = absurd (ne refl)
tokencmp_loop-Later n std (x ∷ a) s [] i le h ne all at = cc
tokencmp_loop-Later zero std (x ∷ a) s (b ∷ bs) i le h ne all at = absurd (omega arith)
tokencmp_loop-Later (suc n) std (x ∷ a) [] (b ∷ bs) i le h ne all at = refl
tokencmp_loop-Later (suc n) std (x ∷ a) (y ∷ s) (b ∷ bs) i le (plain, h) ne all at =
    let next = goes_on n std a s b bs i (tokencmp_loop-Later n std) (omega arith) h all at in
    let shorter : length (b ++ alternatives bs) ≤ n =
      omega (arith, length-append a ((58 ∷ []) ∷ b ++ alternatives bs)) in
    let again = starts_over n std b bs i (tokencmp_loop-Later n std) shorter all at in
    ground
      (arith, next, again, nextans_front a b bs h, nonempty b (alternatives bs) (all 0 b refl).1)

-- An answer key gives alternatives with a colon between them, each of at least one token and none of
-- its tokens starting with a colon: `tokencmp` takes a student's answer that is one of them.
pub tokencmp-alternatives :
    (std b : List (List ℕ)) (bs : List (List (List ℕ))) (i : ℕ)
    → AreAnswers (b ∷ bs)
    → get_elem? (b ∷ bs) i ≡ some std
    → tokencmp (b ++ alternatives bs) std ≡ true
unfolding tokencmp
tokencmp-alternatives std b bs i all at =
    starts_over (length (b ++ alternatives bs)) std b bs i
      (tokencmp_loop-Later (length (b ++ alternatives bs)) std) (omega arith) all at
