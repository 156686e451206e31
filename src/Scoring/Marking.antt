-- ===== src/Scoring/Marking.antt =====
-- Project8/ssu_string.c: the first loop of `postfix`, which puts brackets to the names before them and
-- finds how many operands an operator has.
use linux_project.Base.{
  ℕ, Option, some, ◌>>=◌, ◌+◌, ◌-◌, ◌&&◌, ◌||◌, not, Bool, true, false, List, [], ◌∷◌, ◌++◌, ◌==◌,
  ltb, if◌then◌else◌, map, length, codes,
}
use linux_project.Scoring.{eq_str, first_char}
use linux_project.Scoring.Tokens.{Token, Operands, is_post, kind, one_of}
use linux_project.Scoring.Lexer.{checktype, str2token}

-- In the loop itself; in the loop over a pair of brackets, with `endchar` and `cnt`; or in the loop
-- behind `#include`, which is the last.
pub data Mode : Type 0 where
  reading including : Mode
  gluing : (endchar cnt : ℕ) → Mode

-- The tokens before `next`, with the head of the list as the first, and `next`.
pub record Marking : Type 0 where
  pub before : List Token
  pub next : Token
  pub preop : Bool
  pub mode : Mode

-- `next = next->nexttoken`
abbrev pub move : Marking → Token → Bool → Mode → Marking
move s t preop mode = record {
  before = s.before ++ s.next ∷ [];
  next = t;
  preop = preop;
  mode = mode;
}

-- `strcat(next->str, tmp->str)`, and `tmp` is taken from the list.
abbrev pub glue : Marking → Token → Bool → Mode → Marking
glue s t preop mode = record {
  before = s.before;
  next = record s.next { str = s.next.str ++ t.str };
  preop = preop;
  mode = mode;
}

-- The operands of an operator.
unfoldable pub operands_of : Bool → Token → Token → Operands
operands_of preop next t =
    if one_of t.str (codes "!" ∷ codes "~" ∷ [])
    then Operands.pre_op
    else if one_of t.str (codes "++" ∷ codes "--" ∷ [])
    then (if preop then Operands.pre_op else Operands.post_op)
    else if one_of t.str (codes "*" ∷ codes "&" ∷ [])
    then (if (preop && not (is_post next.operands)) || checktype next.str
        then Operands.pre_op
        else Operands.two_op)
    else if one_of t.str (codes "+" ∷ codes "-" ∷ [])
    then (if preop || not (is_post next.operands) then Operands.pre_op else Operands.two_op)
    else Operands.two_op

-- One round, for the token behind `next`.
unfoldable pub mark_reading : Marking → Token → Marking
mark_reading s t =
    if eq_str t.str (codes "#include")
    then move s t s.preop Mode.including
    else if kind t == 0
    then move s t false Mode.reading
    else if kind t == 6
    then (if (not s.preop && not (length s.before == 0)) || (kind s.next == 7)
        then glue s t s.preop (Mode.gluing (if first_char t.str == 40 then 41 else 93) 1)
        else move s t false Mode.reading)
    else move s (record t { operands = operands_of s.preop s.next t }) true Mode.reading

-- One round of the loop over the brackets.
unfoldable pub mark_gluing : ℕ → ℕ → Marking → Token → Marking
mark_gluing endchar cnt s t =
    if first_char t.str == endchar
    then (if ltb 1 cnt
        then glue s t s.preop (Mode.gluing endchar (cnt - 1))
        else glue s t false Mode.reading)
    else glue s t s.preop (Mode.gluing endchar (if kind t == 6 then cnt + 1 else cnt))

unfoldable pub mark : Marking → Token → Marking
mark s t = elim s.mode [
  | Mode.reading ↦ mark_reading s t
  | Mode.including ↦ glue s t s.preop Mode.including
  | Mode.gluing endchar cnt ↦ mark_gluing endchar cnt s t
]

unfoldable pub mark_all : Marking → List Token → Marking
mark_all s [] = s
mark_all s (t ∷ ts) = mark_all (mark s t) ts

-- The head of the list, an empty string.
abbrev pub head : Token
head = record { str = []; operands = Operands.no_op; ch = false }

-- A token as `str2token` makes it.
abbrev pub new_token : List ℕ → Token
new_token str = record { str = str; operands = Operands.no_op; ch = false }

-- The state before the loop.
abbrev pub started : Marking
started = record { before = []; next = head; preop = false; mode = Mode.reading }

-- The list with its head, as the loop leaves it.
unfoldable pub postfix : List Token → List Token
postfix ts = let s = mark_all started ts in s.before ++ s.next ∷ []

-- `str2token` up to the call of `makepostfix`
unfoldable pub marked_tokens : ℕ → List ℕ → Option (List Token)
marked_tokens fuel str = str2token fuel str >>= (λ ts. some (postfix (map new_token ts)))
