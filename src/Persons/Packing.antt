-- ===== src/Persons/Packing.antt =====
-- `pack` and `unpack` of Project11/person.c.
use linux_project.Base.{
  append_assoc, ℕ, zero, suc, ◌-◌, ◌≤◌, ◌≡◌, refl, sym, ap, ◌∙◌, false, some, List, [], ◌∷◌, ◌++◌,
  ◌==◌, length, All, arith, strncpy, c_string, next_token, skip_char, cut_at,
}
use linux_project.Persons.{mark, Person, fields, pack, leading, unpack}

-- A character of a field: neither NUL nor the mark.
abbrev pub IsPlain : ℕ → Type 0
IsPlain c = ((c == 0) ≡ false) × ((c == mark) ≡ false)

-- A field that is not empty, of such characters.
abbrev pub IsField : List ℕ → Type 0
IsField s = (1 ≤ length s) × All IsPlain s

abbrev NonNul : ℕ → Type 0
NonNul c = (c == 0) ≡ false

-- A front without NUL is copied, and read, before what follows.
strncpy_front :
    (n : ℕ) (s t : List ℕ)
    → All NonNul s
    → length s ≤ n
    → strncpy n (s ++ t) ≡ s ++ strncpy (n - length s) t
unfolding strncpy
strncpy_front n [] t h le = let e : n - 0 ≡ n = omega arith in ap (λ k. strncpy k t) (sym e)
strncpy_front zero (c ∷ s) t h le = absurd (omega arith)
strncpy_front (suc n) (c ∷ s) t h le =
    let e : suc n - suc (length s) ≡ n - length s = omega arith in
    rw (h.0, e) (ap (λ l. c ∷ l) (strncpy_front n s t h.1 (omega arith)))

c_string_front : (s t : List ℕ) → All NonNul s → c_string (s ++ t) ≡ s ++ c_string t
unfolding c_string
c_string_front [] t h = refl
c_string_front (c ∷ s) t h = rw h.0 (ap (λ l. c ∷ l) (c_string_front s t h.1))

cut_at_field : (s t : List ℕ) → All IsPlain s → cut_at mark (s ++ (mark ∷ t)) ≡ (s, t)
cut_at_field [] t h = refl
cut_at_field (c ∷ s) t h = rw (h.0.1, cut_at_field s t h.1) refl

next_field : (s t : List ℕ) → IsField s → next_token mark (s ++ (mark ∷ t)) ≡ some (s, t)
unfolding next_token
next_field [] t (some_char, h) = absurd (omega (arith, some_char))
next_field (c ∷ s) t (some_char, h) =
    let skip : skip_char mark (c ∷ (s ++ (mark ∷ t))) ≡ c ∷ (s ++ (mark ∷ t)) = rw h.0.1 refl in
    rw (skip, next_token, h.0.1, cut_at_field s t h.1) refl

field-NonNul : (s t : List ℕ) → All IsPlain s → All NonNul t → All NonNul (s ++ (mark ∷ t))
field-NonNul [] t h k = (refl, k)
field-NonNul (c ∷ s) t h k = (h.0.0, field-NonNul s t h.1 k)

fields-NonNul : (fs : List (List ℕ)) → All IsField fs → All NonNul (fields fs)
fields-NonNul [] h = tt
fields-NonNul (f ∷ fs) h = field-NonNul f (fields fs) h.0.1 (fields-NonNul fs h.1)

fields_append :
    (f : List ℕ) (fs : List (List ℕ)) (t : List ℕ)
    → fields (f ∷ fs) ++ t ≡ f ++ (mark ∷ (fields fs ++ t))
fields_append f fs t = append_assoc f (mark ∷ fields fs) t

leading_field : (s t : List ℕ) → IsField s → leading (s ++ t) ≡ []
leading_field [] t (some_char, h) = absurd (omega (arith, some_char))
leading_field (c ∷ s) t (some_char, h) = rw h.0.1 refl

next_packed :
    (f : List ℕ) (fs : List (List ℕ)) (t : List ℕ)
    → IsField f
    → next_token mark (fields (f ∷ fs) ++ t) ≡ some (f, fields fs ++ t)
next_packed f fs t h = ap (next_token mark) (fields_append f fs t) ∙ next_field f (fields fs ++ t) h

-- The fields of a person, in the order of the record.
abbrev pub fields_of : Person → List (List ℕ)
fields_of p = p.sn ∷ p.name ∷ p.age ∷ p.addr ∷ p.phone ∷ p.email ∷ []

packed_string :
    (size : ℕ) (fs : List (List ℕ)) (behind : List ℕ)
    → All IsField fs
    → length (fields fs) ≤ size
    → c_string (strncpy size (fields fs ++ behind))
      ≡ fields fs ++ c_string (strncpy (size - length (fields fs)) behind)
packed_string size fs behind h le =
    ap c_string (strncpy_front size (fields fs) behind (fields-NonNul fs h) le)
    ∙ c_string_front (fields fs) (strncpy (size - length (fields fs)) behind) (fields-NonNul fs h)

-- A person whose fields are not empty and hold neither NUL nor `#`, packed into an empty buffer and read
-- back from a place that is long enough, whatever stands there behind the packed fields.
pub unpack-pack :
    (size : ℕ) (p : Person) (behind : List ℕ)
    → All IsField (fields_of p)
    → length (pack [] p) ≤ size
    → unpack size (pack [] p ++ behind) ≡ some p
unfolding unpack pack
unpack-pack size p behind h le =
    let more = c_string (strncpy (size - length (fields (fields_of p))) behind) in
    let temp = packed_string size (fields_of p) behind h le in
    let none_leading =
      ap leading (fields_append p.sn (p.name ∷ p.age ∷ p.addr ∷ p.phone ∷ p.email ∷ []) more)
      ∙ leading_field p.sn
          (mark ∷ (fields (p.name ∷ p.age ∷ p.addr ∷ p.phone ∷ p.email ∷ []) ++ more)) h.0 in
    rw
      (
        temp,
        next_packed p.sn (p.name ∷ p.age ∷ p.addr ∷ p.phone ∷ p.email ∷ []) more h.0,
        next_packed p.name (p.age ∷ p.addr ∷ p.phone ∷ p.email ∷ []) more h.1.0,
        next_packed p.age (p.addr ∷ p.phone ∷ p.email ∷ []) more h.1.1.0,
        next_packed p.addr (p.phone ∷ p.email ∷ []) more h.1.1.1.0,
        next_packed p.phone (p.email ∷ []) more h.1.1.1.1.0,
        next_packed p.email [] more h.1.1.1.1.1.0,
        none_leading,
      )
      refl
