-- ===== src/Scoring/Marked.antt =====
-- What the first loop of `postfix` in Project8/ssu_string.c keeps of the text.
use linux_project.Base.{
  ℕ, ◌<◌, ◌≡◌, refl, sym, ap, ◌∙◌, false, List, [], ◌∷◌, ◌++◌, length, map, has_char, arith,
  Returns, Returns-bind, append_assoc, append-nil,
}
use linux_project.Scoring.Tokens.{Token}
use linux_project.Scoring.Operators.{joined}
use linux_project.Scoring.Lexing.{solid, str2token-Tokenized}
use linux_project.Scoring.Marking.{
  Marking, Mode, glue, mark_reading, mark_gluing, mark, mark_all, new_token, started, postfix,
  marked_tokens,
}

-- The strings of the tokens, one after the other.
unfoldable pub texts : List Token → List ℕ
texts [] = []
texts (t ∷ ts) = t.str ++ texts ts

abbrev text_of : Marking → List ℕ
text_of s = texts s.before ++ s.next.str

pub texts-append : (ts us : List Token) → texts (ts ++ us) ≡ texts ts ++ texts us
unfolding texts
texts-append [] us = refl
texts-append (t ∷ ts) us =
    ap (λ l. t.str ++ l) (texts-append ts us) ∙ sym (append_assoc t.str (texts ts) (texts us))

texts_snoc : (ts : List Token) (t : Token) → texts (ts ++ t ∷ []) ≡ texts ts ++ t.str
unfolding texts
texts_snoc ts t = texts-append ts (t ∷ []) ∙ ap (λ l. texts ts ++ l) (append-nil t.str)

-- The token is behind the text so far, in a place of its own or not.
abbrev Kept : Marking → Token → Marking → Type 0
Kept s t s' = text_of s' ≡ text_of s ++ t.str

move-Kept :
    (s : Marking) (t : Token) → texts (s.before ++ s.next ∷ []) ++ t.str ≡ text_of s ++ t.str
move-Kept s t = ap (λ l. l ++ t.str) (texts_snoc s.before s.next)

glue-Kept : (s : Marking) (t : Token) → texts s.before ++ (s.next.str ++ t.str) ≡ text_of s ++ t.str
glue-Kept s t = sym (append_assoc (texts s.before) s.next.str t.str)

mark_gluing-Kept : (e c : ℕ) (s : Marking) (t : Token) → Kept s t (mark_gluing e c s t)
unfolding mark_gluing
mark_gluing-Kept e c s t = let glued = glue-Kept s t in ground (arith, glued)

mark_reading-Kept : (s : Marking) (t : Token) → Kept s t (mark_reading s t)
unfolding mark_reading
mark_reading-Kept s t =
    let moved = move-Kept s t in let glued = glue-Kept s t in ground (arith, moved, glued)

mark-Kept : (s : Marking) (t : Token) → Kept s t (mark s t)
unfolding mark
mark-Kept s t =
    elim s.mode
      as (λ m. Kept s t (elim m [
        | Mode.reading ↦ mark_reading s t
        | Mode.including ↦ glue s t s.preop Mode.including
        | Mode.gluing e c ↦ mark_gluing e c s t
      ])) [
        | Mode.reading ↦ mark_reading-Kept s t
        | Mode.including ↦ glue-Kept s t
        | Mode.gluing e c ↦ mark_gluing-Kept e c s t
      ]

mark_all-texts : (s : Marking) (ts : List Token) → text_of (mark_all s ts) ≡ text_of s ++ texts ts
unfolding mark_all texts
mark_all-texts s [] = sym (append-nil (text_of s))
mark_all-texts s (t ∷ ts) =
    mark_all-texts (mark s t) ts ∙ rw (mark-Kept s t) (append_assoc (text_of s) t.str (texts ts))

pub postfix-texts : (ts : List Token) → texts (postfix ts) ≡ texts ts
unfolding postfix texts
postfix-texts ts =
    let s = mark_all started ts in texts_snoc s.before s.next ∙ mark_all-texts started ts

texts_new : (ts : List (List ℕ)) → texts (map new_token ts) ≡ joined ts
unfolding texts joined
texts_new [] = refl
texts_new (t ∷ ts) = ap (λ l. t ++ l) (texts_new ts)

-- A text without a double quote has its tokens, within one round more than its length, and their strings
-- one after the other are the text without its blanks and without a newline at its end.
pub marked_tokens-texts :
    (fuel : ℕ) (s : List ℕ)
    → length s < fuel
    → has_char 34 s ≡ false
    → Returns (λ ts. texts ts ≡ solid s) (marked_tokens fuel s)
unfolding marked_tokens
marked_tokens-texts fuel s lt quiet =
    Returns-bind (str2token-Tokenized fuel s lt quiet)
      (λ ts (e, ok). (_, refl, postfix-texts (map new_token ts) ∙ texts_new ts ∙ e))
