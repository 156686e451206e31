-- ===== src/Proc/Waiting.antt =====
-- What a round of `wait` comes to.
use linux_project.Base.{
  ℕ, zero, suc, ◌+◌, ◌≡◌, refl, inl, inr, ◌⊎◌, Bool, true, false, not, ◌&&◌, ◌||◌, some, List, [],
  ◌∷◌, if◌then◌else◌, get_elem?, get_or_of_some, update, Bool-cases, arith,
}
use linux_project.Base.Int.{pos}
use linux_project.Proc.{Chan, Proc, Kernel, is_zombie, points_to, blank, proc_at}
use linux_project.Proc.Query.{failed}
use linux_project.Proc.Sched.{sleep}
use linux_project.Proc.Life.{Scan, wait_scan, reaped, Wait, wait}

-- A child of `me` stands at the slot.
abbrev pub ChildAt : List Proc → ℕ → ℕ → Proc → Type 0
ChildAt procs me i p = (get_elem? procs i ≡ some p) × (points_to p.parent me ≡ true)

scan_found :
    (me : ℕ) (havekids : Bool) (i : ℕ) (ps : List Proc) {r : ℕ}
    → wait_scan me havekids i ps ≡ Scan.found r
    → (j : ℕ) × (p : Proc) × (r ≡ i + j) × ChildAt ps me j p × (is_zombie p.state ≡ true)
unfolding wait_scan
scan_found me havekids i [] e = cc
scan_found me havekids i (p ∷ ps) e =
    elim (Bool-cases (points_to p.parent me && is_zombie p.state)) [
      | inl dead ↦ (0, p, ground (arith, dead), (refl, ground (arith, dead)), ground (arith, dead))
      | inr alive ↦
          let (j, q, at, child, dead) =
            scan_found me (if points_to p.parent me then true else havekids) (i + 1) ps
              (rw (alive, wait_scan) at e) in
          (suc j, q, omega arith, child, dead)
    ]

scan_nothing :
    (me : ℕ) (havekids : Bool) (i : ℕ) (ps : List Proc) {b : Bool}
    → wait_scan me havekids i ps ≡ Scan.nothing b
    → (havekids ≡ true → b ≡ true)
      × ((j : ℕ) (p : Proc) → ChildAt ps me j p → (is_zombie p.state ≡ false) × (b ≡ true))
      × (b ≡ true → (havekids ≡ true) ⊎ ((j : ℕ) × (p : Proc) × ChildAt ps me j p))
unfolding wait_scan
scan_nothing me havekids i [] e = (λ h. cc, λ j p c. cc (c.0), λ h. inl (cc))
scan_nothing me havekids i (p ∷ ps) e =
    elim (Bool-cases (points_to p.parent me && is_zombie p.state)) [
      | inl dead ↦ let e' = rw (dead, wait_scan) at e in cc
      | inr alive ↦
          let (more, all, back) =
            scan_nothing me (if points_to p.parent me then true else havekids) (i + 1) ps
              (rw (alive, wait_scan) at e) in
          (
            λ h. more (ground arith),
            elim [ zero ↦ λ q c. ground (arith, more) | suc j ↦ λ q c. all j q c ],
            λ h. elim (back h) [
              | inl here ↦ elim (Bool-cases (points_to p.parent me)) [
                | inl mine ↦ inr (0, p, (refl, mine))
                | inr other ↦ inl (ground (arith, here))
              ]
              | inr (j, q, c) ↦ inr (suc j, q, c)
            ],
          )
    ]

-- What `wait` does: it reaps a zombie child, fails where `me` has no child or is killed and no child
-- is a zombie, and sleeps on the slot of `me` while its children live.
pub data Waited (k : Kernel) (me : ℕ) : Wait → Type 0 where
  reaps :
      (i : ℕ) (p : Proc)
      → ChildAt k.procs me i p
      → is_zombie p.state ≡ true
      → Waited k me (Wait.returns (pos p.pid) (record k { procs = update k.procs i reaped }))
  fails :
      ((i : ℕ) (p : Proc) → ChildAt k.procs me i p → is_zombie p.state ≡ false)
      → ((proc_at k me).killed ≡ true) ⊎ ((i : ℕ) (p : Proc) → ¬ ChildAt k.procs me i p)
      → Waited k me (Wait.returns failed k)
  blocks :
      ((i : ℕ) (p : Proc) → ChildAt k.procs me i p → is_zombie p.state ≡ false)
      → (i : ℕ) (p : Proc) → ChildAt k.procs me i p
      → (proc_at k me).killed ≡ false
      → Waited k me (Wait.sleeps (sleep k me (Chan.slot me)))

Scan-cases : (s : Scan) → ((i : ℕ) × (s ≡ Scan.found i)) ⊎ ((b : Bool) × (s ≡ Scan.nothing b))
Scan-cases (Scan.found i) = inl (i, refl)
Scan-cases (Scan.nothing b) = inr (b, refl)

-- A round of `wait` by any process ends in exactly one of three ways: a zombie child is reaped and
-- its pid returned; -1 is returned, where no child is a zombie and `me` is killed or has no child;
-- or `me` goes to sleep, where it has children, none of them a zombie, and is not killed.
pub wait-Waited : (k : Kernel) (me : ℕ) → Waited k me (wait k me)
unfolding wait
wait-Waited k me = elim (Scan-cases (wait_scan me false 0 k.procs)) [
  | inl (r, e) ↦
      let (i, p, same, child, dead) = scan_found me false 0 k.procs e in
      let here : r ≡ i = omega arith in
      rw (e, here, wait, get_or_of_some k.procs i blank child.0) (reaps i p child dead)
  | inr (b, e) ↦
      let (_, all, back) = scan_nothing me false 0 k.procs e in rw (e, wait) (by_flags b all back)
]
  where
    by_flags :
        (b : Bool)
        → ((j : ℕ) (p : Proc) → ChildAt k.procs me j p → (is_zombie p.state ≡ false) × (b ≡ true))
        → (b ≡ true → (false ≡ true) ⊎ ((j : ℕ) × (p : Proc) × ChildAt k.procs me j p))
        → Waited k me (
            if not b || (proc_at k me).killed
            then Wait.returns failed k
            else Wait.sleeps (sleep k me (Chan.slot me)))
    by_flags false all back =
        fails (λ i p c. (all i p c).0) (inr (λ i p c. let f = (all i p c).1 in cc))
    by_flags true all back = elim (back refl) [
      | inl absurd_flag ↦ cc
      | inr (i, p, c) ↦ elim (Bool-cases (proc_at k me).killed) [
        | inl dying ↦ rw dying (fails (λ i p c. (all i p c).0) (inl dying))
        | inr living ↦ rw living (blocks (λ i p c. (all i p c).0) i p c living)
      ]
    ]
