-- ===== src/Scoring/Tokens.antt =====
-- Project8/ssu_string.c: tokens, their comparison, and the conversion to postfix order.
use linux_project.Base.{
  ℕ, zero, suc, ◌||◌, Bool, true, false, List, [], ◌∷◌, ◌++◌, ◌==◌, leb, if◌then◌else◌, length,
}
use linux_project.Base.Int.{ℤ, pos, ◌+ℤ◌, ◌-ℤ◌}
use linux_project.Scoring.{eq_str, first_char, among}

-- `operands`: 0, or one of the three constants.
pub data Operands : Type 0 where
  no_op pre_op post_op two_op : Operands

-- `struct token`; `isch` is always 0.
pub record Token : Type 0 where
  pub str : List ℕ
  pub operands : Operands
  pub ch : Bool

abbrev pub is_post : Operands → Bool
is_post Operands.post_op = true
is_post _ = false

-- `isop`, for the first character of a token.
unfoldable pub isop : ℕ → ℕ
isop c =
    if among c (42 ∷ 43 ∷ 45 ∷ 47 ∷ 37 ∷ [])
    then 1
    else (if among c (61 ∷ 33 ∷ 62 ∷ 60 ∷ [])
        then 2
        else (if among c (38 ∷ 124 ∷ 94 ∷ 126 ∷ [])
            then 3
            else (if among c (46 ∷ 44 ∷ [])
                then 4
                else (if among c (58 ∷ [])
                    then 5
                    else (if among c (40 ∷ 91 ∷ [])
                        then 6
                        else (if among c (41 ∷ 93 ∷ []) then 7 else 0))))))

abbrev pub kind : Token → ℕ
kind t = isop (first_char t.str)

-- The string is one of those.
abbrev pub one_of : List ℕ → List (List ℕ) → Bool
one_of s [] = false
one_of s (t ∷ ts) = eq_str s t || one_of s ts

-- `priority` of a token with two operands: its value, and `ch`.
unfoldable pub two_op_priority : List ℕ → ℕ × Bool
two_op_priority s =
    if one_of s ((45 ∷ 62 ∷ []) ∷ (46 ∷ []) ∷ [])
    then (1, false)
    else (if one_of s ((42 ∷ []) ∷ [])
        then (3, true)
        else (if one_of s ((47 ∷ []) ∷ (37 ∷ []) ∷ [])
            then (3, false)
            else (if one_of s ((43 ∷ []) ∷ [])
                then (4, true)
                else (if one_of s ((45 ∷ []) ∷ [])
                    then (4, false)
                    else (if one_of s ((60 ∷ 60 ∷ []) ∷ (62 ∷ 62 ∷ []) ∷ [])
                        then (5, false)
                        else (if one_of s ((60 ∷ []) ∷ (60 ∷ 61 ∷ []) ∷ [])
                            then (6, true)
                            else (if one_of s ((62 ∷ []) ∷ (62 ∷ 61 ∷ []) ∷ [])
                                then (6, true)
                                else (if one_of s ((61 ∷ 61 ∷ []) ∷ [])
                                    then (7, true)
                                    else (if one_of s ((33 ∷ 61 ∷ []) ∷ [])
                                        then (7, false)
                                        else (if one_of s ((38 ∷ []) ∷ [])
                                            then (8, true)
                                            else (if one_of s ((94 ∷ []) ∷ [])
                                                then (9, true)
                                                else (if one_of s ((124 ∷ []) ∷ [])
                                                    then (10, true)
                                                    else (if one_of s ((38 ∷ 38 ∷ []) ∷ [])
                                                        then (11, true)
                                                        else (if one_of s ((124 ∷ 124 ∷ []) ∷ [])
                                                            then (12, true)
                                                            else (14, false)))))))))))))))

-- `priority`: the value, and what it stores in `ch`.
unfoldable pub ranked : Operands → List ℕ → ℕ × Bool
ranked Operands.post_op s = (1, false)
ranked Operands.pre_op s = (2, false)
ranked Operands.two_op s = two_op_priority s
ranked Operands.no_op s = if eq_str s (44 ∷ []) then (15, true) else (0, false)

abbrev pub priority : Token → ℕ
priority t = (ranked t.operands t.str).0

abbrev pub prioritised : Token → Token
prioritised t = record t { ch = (ranked t.operands t.str).1 }

-- `nextans`, from the tokens behind the given one: what stands behind the next colon.
unfoldable pub nextans : List (List ℕ) → List (List ℕ)
nextans [] = []
nextans (t ∷ ts) = let rest = nextans ts in if first_char t == 58 then ts else rest

-- The token is there, and starts with a colon; and the list is at its end.
abbrev pub ends_here : List (List ℕ) → Bool
ends_here [] = true
ends_here (t ∷ ts) = first_char t == 58

abbrev pub is_nil : List (List ℕ) → Bool
is_nil [] = true
is_nil (t ∷ ts) = false

-- The loop of `tokencmp` on the strings of the tokens, for at most so many rounds (each
-- takes a token of the answer, and `false` stands for too few): whether `check` is 0.
-- `head` is the student's answer from its start.
unfoldable pub tokencmp_loop : ℕ → List (List ℕ) → List (List ℕ) → List (List ℕ) → Bool
tokencmp_loop zero head [] std = true
tokencmp_loop zero head (a ∷ ans) std = false
tokencmp_loop (suc n) head [] std = true
tokencmp_loop (suc n) head (a ∷ ans) [] = true
tokencmp_loop (suc n) head (a ∷ ans) (s ∷ std) =
    let other = nextans ans in
    let again = tokencmp_loop n head other head in
    let next = tokencmp_loop n head ans std in
    if eq_str a s
    then (if ends_here ans then true else next)
    else (if is_nil other then false else again)

-- `tokencmp`, for lists that are both there: whether the result is 0.
unfoldable pub tokencmp : List (List ℕ) → List (List ℕ) → Bool
tokencmp anshead stdhead = tokencmp_loop (length anshead) stdhead anshead stdhead

-- The tokens behind `head`, the output behind `phead`, the stack from its top, and `cnt`.
pub record Postfix : Type 0 where
  pub phead : List Token
  pub opstack : List Token
  pub cnt : ℤ

-- `inserttoken` and `pushtoken`
abbrev pub inserttoken : Postfix → Token → Postfix
inserttoken s t = record s { phead = s.phead ++ t ∷ [] }

abbrev pub pushtoken : Postfix → Token → Postfix
pushtoken s t = record s { opstack = t ∷ s.opstack }

-- The loop that pops the whole stack into the output.
abbrev pub pop_all : List Token → List Token → List Token
pop_all [] phead = phead
pop_all (op ∷ ops) phead = pop_all ops (phead ++ op ∷ [])

abbrev pub flushed : Postfix → Postfix
flushed s = record s { phead = pop_all s.opstack s.phead; opstack = [] }

-- The loop that pops up to an opening bracket; in `cnt` whether one was there.
unfoldable pub pop_bracket : List Token → List Token → ℤ → ℤ → Postfix
pop_bracket [] phead cnt found = record { phead = phead; opstack = []; cnt = cnt }
pop_bracket (op ∷ ops) phead cnt found =
    let rest = pop_bracket ops (phead ++ op ∷ []) cnt found in
    if kind op == 6 then record { phead = phead; opstack = ops; cnt = found } else rest

-- The operator case where `cnt` is 0, by what is on the stack.
unfoldable pub push_operator : List Token → Postfix → Token → Postfix
push_operator [] s t = pushtoken s t
push_operator (op ∷ ops) s t =
    let top = prioritised op in
    let out = if kind op == 6 then s.phead else s.phead ++ top ∷ [] in
    if leb (priority op) (priority t)
    then record s { opstack = t ∷ ops; phead = out }
    else record s { opstack = t ∷ top ∷ ops }

abbrev pub is_zero : ℤ → Bool
is_zero (pos zero) = true
is_zero _ = false

-- A token inside of brackets, where `cnt` is not 0.
unfoldable pub inside_step : Postfix → Token → Postfix
inside_step s t =
    let closed = pop_bracket s.opstack s.phead (s.cnt -ℤ pos 1) (s.cnt -ℤ pos 1) in
    let opened = record s { cnt = s.cnt +ℤ pos 1 } in
    if kind t == 0
    then inserttoken s t
    else (if kind t == 6
        then (if is_post t.operands then inserttoken opened t else pushtoken opened t)
        else (if kind t == 7 then closed else pushtoken s t))

-- A token outside, where `cnt` is 0.
unfoldable pub outside_step : Postfix → Token → Postfix
outside_step s t =
    let closed = pop_bracket s.opstack s.phead s.cnt (s.cnt -ℤ pos 1) in
    let operator = push_operator s.opstack s t in
    if kind t == 0
    then inserttoken s t
    else (if kind t == 6
        then (if is_post t.operands
            then inserttoken s t
            else pushtoken (record s { cnt = s.cnt +ℤ pos 1 }) t)
        else (if kind t == 7
            then (if is_post t.operands then inserttoken closed t else closed)
            else operator))

-- One round of the loop of `makepostfix`.
unfoldable pub postfix_step : Postfix → Token → Postfix
postfix_step s token =
    let t = prioritised token in
    let inside = inside_step s t in
    let outside = outside_step s t in
    if eq_str t.str (58 ∷ [])
    then inserttoken (flushed s) t
    else (if is_zero s.cnt then outside else inside)

unfoldable pub postfix_loop : Postfix → List Token → Postfix
postfix_loop s [] = s
postfix_loop s (t ∷ ts) = postfix_loop (postfix_step s t) ts

-- `makepostfix`, with an empty output and an empty stack, as `postfix` calls it.
unfoldable pub makepostfix : List Token → List Token
makepostfix head =
    (flushed (postfix_loop (record { phead = []; opstack = []; cnt = pos 0 }) head)).phead
