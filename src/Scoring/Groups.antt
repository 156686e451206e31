-- ===== src/Scoring/Groups.antt =====
-- What the first loop of `postfix` in Project8/ssu_string.c does with brackets behind a name.
use linux_project.Base.{
  ℕ, suc, ◌≡◌, refl, sym, ap, ◌∙◌, true, false, List, [], ◌∷◌, ◌++◌, ◌==◌, ltb, ◌+◌, ◌-◌, length,
  codes, arith, append_assoc, append-nil,
}
use linux_project.Scoring.{first_char}
use linux_project.Scoring.Tokens.{Token, kind, isop}
use linux_project.Scoring.Marked.{texts, texts-append}
use linux_project.Scoring.Marking.{Marking, Mode, mark_reading, mark_gluing, mark, mark_all}

-- What stands between round brackets: other round brackets in pairs, and tokens that are no opening brackets.
pub data Group : List Token → Type 0 where
  none_left : Group []
  other :
      (t : Token) {ts : List Token}
      → (kind t == 6) ≡ false
      → (first_char t.str == 41) ≡ false
      → Group ts
      → Group (t ∷ ts)
  nested :
      (o c : Token) {ts us : List Token}
      → first_char o.str ≡ 40
      → first_char c.str ≡ 41
      → Group ts
      → Group us
      → Group (o ∷ (ts ++ (c ∷ us)))

-- The state with `str` in `next`.
abbrev pub with_str : Marking → List ℕ → Mode → Marking
with_str s str mode = record {
  before = s.before;
  next = record s.next { str = str };
  preop = s.preop;
  mode = mode;
}

mark_all-append :
    (s : Marking) (ts us : List Token) → mark_all s (ts ++ us) ≡ mark_all (mark_all s ts) us
unfolding mark_all
mark_all-append s [] us = refl
mark_all-append s (t ∷ ts) us = mark_all-append (mark s t) ts us

nested_texts :
    (str : List ℕ) (o c : Token) (ts us : List Token)
    → (((str ++ o.str) ++ texts ts) ++ c.str) ++ texts us ≡ str ++ texts (o ∷ (ts ++ (c ∷ us)))
unfolding texts
nested_texts str o c ts us =
    append_assoc ((str ++ o.str) ++ texts ts) c.str (texts us)
    ∙ append_assoc (str ++ o.str) (texts ts) (c.str ++ texts us)
    ∙ append_assoc str o.str (texts ts ++ (c.str ++ texts us))
    ∙ ap (λ l. str ++ (o.str ++ l)) (sym (texts-append ts (c ∷ us)))

group_texts :
    (str : List ℕ) (o c : Token) (ts : List Token)
    → ((str ++ o.str) ++ texts ts) ++ c.str ≡ str ++ texts (o ∷ (ts ++ (c ∷ [])))
unfolding texts
group_texts str o c ts =
    sym (append-nil (((str ++ o.str) ++ texts ts) ++ c.str)) ∙ nested_texts str o c ts []

module _ (s : Marking) where
  abbrev round : ℕ → List ℕ → Marking
  round n str = with_str s str (Mode.gluing 41 n)

  mark_other :
      (n : ℕ) (str : List ℕ) (t : Token)
      → (kind t == 6) ≡ false
      → (first_char t.str == 41) ≡ false
      → mark (round n str) t ≡ round n (str ++ t.str)
  unfolding mark mark_gluing
  mark_other n str t k f = rw (f, k) refl

  mark_open :
      (n : ℕ) (str : List ℕ) (o : Token)
      → first_char o.str ≡ 40
      → mark (round n str) o ≡ round (suc n) (str ++ o.str)
  unfolding mark mark_gluing isop
  mark_open n str o e = let up : n + 1 ≡ suc n = omega arith in rw (e, up) refl

  mark_close :
      (n : ℕ) (str : List ℕ) (c : Token)
      → first_char c.str ≡ 41
      → mark (round (suc (suc n)) str) c ≡ round (suc n) (str ++ c.str)
  unfolding mark mark_gluing
  mark_close n str c e =
      let more : ltb 1 (suc (suc n)) ≡ true = ground arith in
      let down : suc (suc n) - 1 ≡ suc n = omega arith in rw (e, more, down) refl

  mark_all-round :
      (n : ℕ) (str : List ℕ) (ts : List Token)
      → Group ts
      → mark_all (round (suc n) str) ts ≡ round (suc n) (str ++ texts ts)
  unfolding mark_all texts
  mark_all-round n str _ Group.none_left = ap (round (suc n)) (sym (append-nil str))
  mark_all-round n str _ (Group.other t {ts} k f g) =
      ap (λ st. mark_all st ts) (mark_other (suc n) str t k f)
      ∙ mark_all-round n (str ++ t.str) ts g
      ∙ ap (round (suc n)) (append_assoc str t.str (texts ts))
  mark_all-round n str _ (Group.nested o c {ts} {us} eo ec g h) =
      let opened = str ++ o.str in
      ap (λ st. mark_all st (ts ++ (c ∷ us))) (mark_open (suc n) str o eo)
      ∙ mark_all-append (round (suc (suc n)) opened) ts (c ∷ us)
      ∙ ap (λ st. mark_all (mark st c) us) (mark_all-round (suc n) opened ts g)
      ∙ ap (λ st. mark_all st us) (mark_close n (opened ++ texts ts) c ec)
      ∙ mark_all-round n ((opened ++ texts ts) ++ c.str) us h
      ∙ ap (round (suc n)) (nested_texts str o c ts us)

  mark_first :
      (o : Token)
      → s.mode ≡ Mode.reading
      → s.preop ≡ false
      → (length s.before == 0) ≡ false
      → o.str ≡ codes "("
      → mark s o ≡ round 1 (s.next.str ++ o.str)
  unfolding mark mark_reading isop
  mark_first o m p b e = rw (m, e, p, b) refl

  mark_last :
      (str : List ℕ) (c : Token)
      → s.preop ≡ false
      → first_char c.str ≡ 41
      → mark (round 1 str) c ≡ with_str s (str ++ c.str) Mode.reading
  unfolding mark mark_gluing
  mark_last str c p e = rw (e, p) refl

-- The loop of `postfix` with `preop` 0, behind a token that is not the head, comes to a round bracket, to
-- tokens with no opening square bracket, in which round brackets stand in pairs, and to the closing one:
-- all of them are put to that token, and the loop goes on behind them.
pub mark_all-Group :
    (s : Marking) (o c : Token) (ts rest : List Token)
    → s.mode ≡ Mode.reading
    → s.preop ≡ false
    → (length s.before == 0) ≡ false
    → o.str ≡ codes "("
    → first_char c.str ≡ 41
    → Group ts
    → mark_all s (o ∷ (ts ++ (c ∷ rest)))
      ≡ mark_all (with_str s (s.next.str ++ texts (o ∷ (ts ++ (c ∷ [])))) Mode.reading) rest
unfolding mark_all
mark_all-Group s o c ts rest m p b eo ec g =
    let opened = s.next.str ++ o.str in
    ap (λ st. mark_all st (ts ++ (c ∷ rest))) (mark_first s o m p b eo)
    ∙ mark_all-append (round s 1 opened) ts (c ∷ rest)
    ∙ ap (λ st. mark_all (mark st c) rest) (mark_all-round s 0 opened ts g)
    ∙ ap (λ st. mark_all st rest) (mark_last s (opened ++ texts ts) c p ec)
    ∙ ap (λ str. mark_all (with_str s str Mode.reading) rest) (group_texts s.next.str o c ts)
