-- ===== src/Scoring/MarkTests.antt =====
-- Answers with brackets, and the theorems about their tokens.
use linux_project.Base.{ℕ, ◌≡◌, refl, false, Returns, List, [], ◌∷◌, ◌++◌, map, codes, arith}
use linux_project.Scoring.Tokens.{Token, Operands, isop}
use linux_project.Scoring.Lexer.{checktype}
use linux_project.Scoring.Lexing.{solid}
use linux_project.Scoring.Marking.{
  Marking, Mode, mark, mark_reading, mark_gluing, mark_all, operands_of, new_token, head, postfix,
  marked_tokens,
}
use linux_project.Scoring.Marked.{texts, marked_tokens-texts}
use linux_project.Scoring.Groups.{Group, with_str, mark_all-Group}

-- Square brackets within round ones are counted but never closed: `+ b` becomes part of the call.
mixed_brackets :
    postfix (
      map new_token
        (codes "f" ∷ codes "(" ∷ codes "[" ∷ codes "]" ∷ codes ")" ∷ codes "+" ∷ codes "b" ∷ []))
    ≡ head ∷ new_token (codes "f([])+b") ∷ []
unfolding postfix mark_all mark mark_reading mark_gluing isop operands_of
mixed_brackets = refl

-- The `+` of a sum gets one operand.
sum_is_pre_op :
    postfix (map new_token (codes "a" ∷ codes "+" ∷ codes "b" ∷ []))
    ≡ head
      ∷ new_token (codes "a")
      ∷ record { str = codes "+"; operands = Operands.pre_op; ch = false }
      ∷ new_token (codes "b")
      ∷ []
unfolding postfix mark_all mark mark_reading mark_gluing isop operands_of checktype
sum_is_pre_op = refl

abbrev call : List ℕ
call = codes "f (a, 1) & b"

marked_tokens-texts_example : Returns (λ ts. texts ts ≡ solid call) (marked_tokens 13 call)
marked_tokens-texts_example = marked_tokens-texts 13 call (omega arith) refl

-- Behind `f`.
abbrev behind_name : Marking
behind_name = record {
  before = head ∷ [];
  next = new_token (codes "f");
  preop = false;
  mode = Mode.reading;
}

abbrev inside : List Token
inside = map new_token (codes "a" ∷ codes "(" ∷ codes ")" ∷ [])

inside-Group : Group inside
unfolding isop
inside-Group = Group.other (new_token (codes "a")) refl refl (
    Group.nested (new_token (codes "(")) (new_token (codes ")")) refl refl Group.none_left
      Group.none_left)

mark_all-Group_example :
    mark_all behind_name (new_token (codes "(") ∷ (inside ++ (new_token (codes ")") ∷ [])))
    ≡ with_str behind_name (codes "f(a())") Mode.reading
unfolding mark_all texts
mark_all-Group_example =
    mark_all-Group behind_name (new_token (codes "(")) (new_token (codes ")")) inside [] refl refl
      refl refl refl inside-Group
