-- ===== src/Alloc/Search.antt =====
-- What the search loop of `alloc` finds: a run of free slots of the asked size, and the first one.
use linux_project.Base.{
  ℕ, suc, ◌+◌, ◌-◌, ◌*◌, ◌≤◌, ◌<◌, ◌≡◌, refl, inl, inr, Bool, true, false, some, List, [], ◌∷◌,
  ◌==◌, if◌then◌else◌, Bool-cases, get_elem?, dec_lt, subst, arith,
}
use linux_project.Alloc.{Slot, find_run}

-- The slot at an index is there, and is free.
abbrev pub FreeAt : List Slot → ℕ → Type 0
FreeAt mmr k = (s : Slot) × (get_elem? mmr k ≡ some s) × (s.status ≡ false)

-- The loop's variables at index `i`: while a run is open, it starts at `start`.
pub record Open (P : ℕ → Type 0) (i : ℕ) (search : Bool) (size start : ℕ) : Type 0 where
  before : search ≡ true → start < i
  sized : search ≡ true → size ≡ 8 * (i - start)
  run : search ≡ true → (k : ℕ) → start ≤ k → k < i → P k

pub record Fits (P : ℕ → Type 0) (a start last : ℕ) : Type 0 where
  pub ordered : start ≤ last
  pub exact : a ≡ 8 * (last + 1 - start)
  pub all : (k : ℕ) → start ≤ k → k ≤ last → P k

pub closed : (P : ℕ → Type 0) (i size start : ℕ) → Open P i false size start
closed P i size start = record { before = λ e. cc; sized = λ e. cc; run = λ e. cc }

module _ (P : ℕ → Type 0) (a : ℕ) where
  -- One more free slot, at `i`.
  extend :
      (i : ℕ) (search : Bool) (size start : ℕ)
      → Open P i search size start
      → P i
      → Open P (i + 1) true (if search then size + 8 else 8) (if search then start else i)
  extend i true size start o p = record {
    before = λ e. omega (arith, o.before refl);
    sized = λ e. omega (arith, o.before refl, o.sized refl);
    run = λ e k lo hi. elim (dec_lt k i) [
      | yes h ↦ o.run refl k lo h
      | no h ↦ subst P (omega arith) p
    ];
  }
  extend i false size start o p = record {
    before = λ e. omega arith;
    sized = λ e. omega arith;
    run = λ e k lo hi. subst P (omega arith) p;
  }

  fits : (i size start : ℕ) → Open P (i + 1) true size start → (size == a) ≡ true → Fits P a start i
  fits i size start o e = record {
    ordered = omega (arith, o.before refl);
    exact = ground (arith, o.sized refl);
    all = λ k lo hi. o.run refl k lo (omega arith);
  }

  pub find_run-Fits :
      (ss : List Slot) (i : ℕ) (search : Bool) (size start : ℕ) {st last : ℕ}
      → ((k : ℕ) → FreeAt ss k → P (i + k))
      → Open P i search size start
      → find_run a i search size start ss ≡ some (st, last)
      → Fits P a st last
  unfolding find_run
  find_run-Fits [] i search size start free o e = cc
  find_run-Fits (s ∷ ss) i search size start free o e = elim (Bool-cases s.status) [
    | inl used ↦
        find_run-Fits ss (i + 1) false size start rest (closed P (i + 1) size start)
          (rw (used, find_run) at e)
    | inr idle ↦ elim (Bool-cases (size' == a)) [
      | inl found ↦
          let e' = rw (idle, found, find_run) at e in
          ground (arith, e', fits i size' start' (o' idle) found)
      | inr more ↦
          find_run-Fits ss (i + 1) true size' start' rest (o' idle) (rw (idle, more, find_run) at e)
    ]
  ]
    where
      size' : ℕ
      size' = if search then size + 8 else 8

      start' : ℕ
      start' = if search then start else i

      rest : (k : ℕ) → FreeAt ss k → P (i + 1 + k)
      rest k f = subst P (omega arith) (free (suc k) f)

      o' : s.status ≡ false → Open P (i + 1) true size' start'
      o' idle = extend i search size start o (subst P (omega arith) (free 0 (s, refl, idle)))

-- If the run from `u` on fits, the loop stops at a run that starts there or before.
module _ (a n u : ℕ) (positive : 0 < n) (size_is : a ≡ 8 * n) where
  record Ahead (i : ℕ) (search : Bool) (size start : ℕ) : Type 0 where
    not_past : i < u + n
    started : search ≡ true → start < i
    sized : search ≡ true → size ≡ 8 * (i - start)
    short : search ≡ true → size < a
    inside : u < i → (search ≡ true) × (start ≤ u)

  start-le :
      (i : ℕ) (search : Bool) (size start : ℕ)
      → Ahead i search size start
      → (if search then start else i) ≤ u
  start-le i true size start o = elim (dec_lt u i) [
    | yes h ↦ (o.inside h).1
    | no h ↦ omega (arith, o.started refl)
  ]
  start-le i false size start o = elim (dec_lt u i) [
    | yes h ↦ let e = (o.inside h).0 in cc
    | no h ↦ omega arith
  ]

  advance :
      (i : ℕ) (search : Bool) (size start : ℕ)
      → Ahead i search size start
      → ((if search then size + 8 else 8) == a) ≡ false
      → Ahead (i + 1) true (if search then size + 8 else 8) (if search then start else i)
  advance i true size start o more =
      let before = o.started refl in
      let sized = o.sized refl in
      let short = o.short refl in
      let below = start-le i true size start o in
      record {
        not_past = ground (arith, o.not_past);
        started = λ e. omega arith;
        sized = λ e. omega arith;
        short = λ e. ground arith;
        inside = λ h. (refl, below);
      }
  advance i false size start o more =
      let below = start-le i false size start o in
      record {
        not_past = ground (arith, o.not_past);
        started = λ e. omega arith;
        sized = λ e. omega arith;
        short = λ e. ground arith;
        inside = λ h. (refl, below);
      }

  find_run_first :
      (ss : List Slot) (i : ℕ) (search : Bool) (size start : ℕ)
      → ((k : ℕ) → u ≤ i + k → i + k < u + n → FreeAt ss k)
      → Ahead i search size start
      → (st : ℕ) × (last : ℕ) × (find_run a i search size start ss ≡ some (st, last)) × (st ≤ u)
  unfolding find_run
  find_run_first [] i search size start free o =
      let (s, e, idle) =
        free (u + n - 1 - i) (omega (arith, o.not_past)) (omega (arith, o.not_past)) in
      cc
  find_run_first (s ∷ ss) i search size start free o = elim (Bool-cases s.status) [
    | inl used ↦
        let (st, last, e, h) = find_run_first ss (i + 1) false size start rest (closed' used) in
        (st, last, rw used e, h)
    | inr idle ↦ elim (Bool-cases (size' == a)) [
      | inl found ↦ (start', i, rw (idle, found), start'-le)
      | inr more ↦
          let (st, last, e, h) = find_run_first ss (i + 1) true size' start' rest (open' more) in
          (st, last, rw (idle, more) e, h)
    ]
  ]
    where
      size' : ℕ
      size' = if search then size + 8 else 8

      start' : ℕ
      start' = if search then start else i

      rest : (k : ℕ) → u ≤ i + 1 + k → i + 1 + k < u + n → FreeAt ss k
      rest k lo hi = free (suc k) (omega arith) (omega arith)

      outside : s.status ≡ true → u ≤ i → ⊥
      outside used h = let (s', e, idle) = free 0 (omega arith) (omega (arith, o.not_past)) in cc

      closed' : s.status ≡ true → Ahead (i + 1) false size start
      closed' used = record {
        not_past = elim (dec_lt i u) [
          | yes h ↦ omega arith
          | no h ↦ absurd (outside used (omega arith))
        ];
        started = λ e. cc;
        sized = λ e. cc;
        short = λ e. cc;
        inside = λ h. absurd (outside used (omega arith));
      }

      start'-le : start' ≤ u
      start'-le = start-le i search size start o

      open' : (size' == a) ≡ false → Ahead (i + 1) true size' start'
      open' more = advance i search size start o more

-- The loop as `alloc` enters it, on a table with a run of `n` free slots from `u` on.
pub find_run_fits :
    (a n u : ℕ) (mmr : List Slot)
    → 0 < n
    → a ≡ 8 * n
    → ((k : ℕ) → u ≤ k → k < u + n → FreeAt mmr k)
    → (st : ℕ) × (last : ℕ) × (find_run a 0 false 0 0 mmr ≡ some (st, last)) × (st ≤ u)
find_run_fits a n u mmr positive size_is free =
    find_run_first a n u positive size_is mmr 0 false 0 0
      (λ k lo hi. subst (FreeAt mmr) (omega arith) (free k (omega arith) (omega arith)))
      (record {
        not_past = omega arith;
        started = λ e. cc;
        sized = λ e. cc;
        short = λ e. cc;
        inside = λ h. absurd (omega arith);
      })
