-- ===== src/Scoring/Lexer.antt =====
-- Project8/ssu_string.c: `str2token`, which takes a text apart into tokens.
use linux_project.Base.{
  ℕ, zero, suc, ◌||◌, ◌&&◌, Bool, false, Option, none, some, List, [], ◌∷◌, ◌++◌, ◌==◌, leb,
  if◌then◌else◌, length, take, drop, ◌>>=◌, codes,
}
use linux_project.Scoring.{eq_str, among, isblk, first_char}
use linux_project.Scoring.Tokens.{isop, one_of}

abbrev pub operator_strings : List (List ℕ)
operator_strings =
    codes "++"
    ∷ codes "--"
    ∷ codes "!"
    ∷ codes "~"
    ∷ codes "->"
    ∷ codes "."
    ∷ codes "*"
    ∷ codes "*="
    ∷ codes "/"
    ∷ codes "/="
    ∷ codes "%"
    ∷ codes "%="
    ∷ codes "+"
    ∷ codes "+="
    ∷ codes "-"
    ∷ codes "-="
    ∷ codes "<<"
    ∷ codes "<<="
    ∷ codes ">>"
    ∷ codes ">>="
    ∷ codes "<"
    ∷ codes "<="
    ∷ codes ">"
    ∷ codes ">="
    ∷ codes "=="
    ∷ codes "!="
    ∷ codes "&"
    ∷ codes "&="
    ∷ codes "^"
    ∷ codes "^="
    ∷ codes "|"
    ∷ codes "|="
    ∷ codes "&&"
    ∷ codes "||"
    ∷ codes "="
    ∷ []

-- `isopstr(str)`
unfoldable pub isopstr : List ℕ → ℕ
isopstr str = if one_of str operator_strings then 1 else if eq_str str (codes ":") then 2 else 0

-- `checktype(str) == 1`
unfoldable pub checktype : List ℕ → Bool
checktype str = one_of str (
    codes "char"
    ∷ codes "int"
    ∷ codes "long"
    ∷ codes "float"
    ∷ codes "double"
    ∷ codes "struct"
    ∷ [])

-- The characters that are tokens by themselves: newline, brackets, comma.
abbrev pub is_single : ℕ → Bool
is_single c = among c (10 ∷ 40 ∷ 41 ∷ 91 ∷ 93 ∷ 44 ∷ [])

-- Behind a quote: up to the next one. Without one, C reads on behind the text.
unfoldable pub quote_rest : List ℕ → Option (List ℕ × List ℕ)
quote_rest [] = none
quote_rest (c ∷ s) =
    if c == 34 then some (c ∷ [], s) else quote_rest s >>= (λ (t, r). some (c ∷ t, r))

-- Where an operator ends, or a word; the end of the text is a blank of its own.
abbrev pub ends_operator : ℕ → Bool
ends_operator d = leb 4 (isop d) || (isop d == 0) || leb 1 (isblk d) || (d == 10)

abbrev pub ends_word : ℕ → Bool
ends_word d = leb 1 (isop d) || leb 1 (isblk d) || (d == 10)

-- The further characters of an operator, `left` of them at most.
unfoldable pub operator_rest : ℕ → List ℕ → List ℕ × List ℕ
operator_rest zero s = ([], s)
operator_rest (suc left) [] = ([], [])
operator_rest (suc left) (d ∷ s) =
    let (t, r) = operator_rest left s in if ends_operator d then ([], d ∷ s) else (d ∷ t, r)

unfoldable pub word_rest : List ℕ → List ℕ × List ℕ
word_rest [] = ([], [])
word_rest (d ∷ s) = let (t, r) = word_rest s in if ends_word d then ([], d ∷ s) else (d ∷ t, r)

-- `max`, less the first character: `<<=` and `>>=` have three.
abbrev pub is_shift : ℕ → List ℕ → Bool
is_shift c (d ∷ e ∷ s) = ((c == 62) || (c == 60)) && (d == c) && (e == 61)
is_shift c s = false

-- Two characters that are no operator together become two tokens.
unfoldable pub operator_tokens : List ℕ → List (List ℕ)
operator_tokens str =
    if (isopstr str == 1) || (first_char str == 58)
    then str ∷ []
    else take 1 str ∷ take 1 (drop 1 str) ∷ []

-- The loop of `str2token`, with fuel: the strings of the tokens.
unfoldable pub str2token : ℕ → List ℕ → Option (List (List ℕ))
str2token zero str = none
str2token (suc fuel) [] = some []
str2token (suc fuel) (c ∷ s) =
    let next = str2token fuel s in
    let (op, op_rest) = operator_rest (if is_shift c s then 2 else 1) s in
    let (word, after) = word_rest s in
    let quoted = quote_rest s >>= (λ (t, r). str2token fuel r >>= (λ ts. some ((c ∷ t) ∷ ts))) in
    let operated = str2token fuel op_rest >>= (λ ts. some (operator_tokens (c ∷ op) ++ ts)) in
    let worded = str2token fuel after >>= (λ ts. some ((c ∷ word) ∷ ts)) in
    if leb 1 (isblk c) || ((c == 10) && (length s == 0))
    then next
    else if is_single c
    then next >>= (λ ts. some ((c ∷ []) ∷ ts))
    else if c == 34
    then quoted
    else if leb 1 (isop c)
    then operated
    else worded
