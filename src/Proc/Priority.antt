-- ===== src/Proc/Priority.antt =====
-- Priorities: `set_prio` and `get_prio`, the rank that `check` gives, and the time slice it buys.
use linux_project.Base.{
  ℕ, zero, suc, ◌+◌, ◌≤◌, ◌≡◌, ◌≢◌, refl, sym, ap, inl, inr, ◌⊎◌, Bool, true, false, some, List, [],
  ◌∷◌, map, ◌==◌, if◌then◌else◌, ltb, get_elem?, get_or, get_or_of_some, update, Option-cases,
  arith, get_elem?-map, get_elem?-update, get_elem?-update_self, get_elem?-update_ne, ext_get_elem?,
}
use linux_project.Base.Int.{ℤ, pos}
use linux_project.Proc.{Proc, Kernel, is_unused, blank, proc_at}
use linux_project.Proc.Query.{
  failed, prio_loop, get_prio, renice, has_pid, set_prio, count_loop, get_num_proc, check_loop,
  check,
}
use linux_project.Proc.Valid.{IsValid}
use linux_project.Proc.Kept.{UpdatedAt, updated_at}
use linux_project.Proc.Steps.{Runs, check_pos}

prio_loop_all :
    (pid : ℕ) (n v : ℤ) (ps : List Proc)
    → ((j : ℕ) (p : Proc) → get_elem? ps j ≡ some p → pid ≡ p.pid → pos p.nice ≡ v)
    → (n ≡ v) ⊎ ((j : ℕ) × (p : Proc) × (get_elem? ps j ≡ some p) × (pid ≡ p.pid))
    → prio_loop pid n ps ≡ v
unfolding prio_loop
prio_loop_all pid n v [] all (inl e) = e
prio_loop_all pid n v [] all (inr (j, p, at, same)) = cc
prio_loop_all pid n v (q ∷ ps) all why =
    prio_loop_all pid (if pid == q.pid then pos q.nice else n) v ps
      (λ j p at same. all (suc j) p at same) (next why)
  where
    next :
        (n ≡ v) ⊎ ((j : ℕ) × (p : Proc) × (get_elem? (q ∷ ps) j ≡ some p) × (pid ≡ p.pid))
        → ((if pid == q.pid then pos q.nice else n) ≡ v)
          ⊎ ((j : ℕ) × (p : Proc) × (get_elem? ps j ≡ some p) × (pid ≡ p.pid))
    next (inl e) = inl (ground (arith, all 0 q refl))
    next (inr (zero, p, at, same)) = inl (ground (arith, all 0 q refl))
    next (inr (suc j, p, at, same)) = inr (j, p, at, same)

has_pid-true : (pid : ℕ) (ps : List Proc) → has_pid pid true ps ≡ true
unfolding has_pid
has_pid-true pid [] = refl
has_pid-true pid (p ∷ ps) = ground (arith, has_pid-true pid ps)

has_pid_at :
    (pid : ℕ) (b : Bool) (ps : List Proc) (j : ℕ) (p : Proc)
    → get_elem? ps j ≡ some p
    → p.pid ≡ pid
    → has_pid pid b ps ≡ true
unfolding has_pid
has_pid_at pid b [] j p at same = cc
has_pid_at pid b (q ∷ ps) zero p at same = ground (arith, has_pid-true pid ps)
has_pid_at pid b (q ∷ ps) (suc j) p at same =
    has_pid_at pid (if q.pid == pid then true else b) ps j p at same

-- `set_prio` changes the slot of its process, and no other.
renice_one :
    (k : Kernel) (me n : ℕ) (m : Proc)
    → IsValid k
    → get_elem? k.procs me ≡ some m
    → m.pid ≢ 0
    → map (renice m.pid n) k.procs ≡ update k.procs me (λ p. record p { nice = n })
renice_one k me n m v at ne = ext_get_elem? _ _ λ j. elim (Option-cases (get_elem? k.procs j)) [
  | inl gone ↦ ground (
    arith,
    gone,
    get_elem?-map (renice m.pid n) k.procs j,
    get_elem?-update k.procs me j (λ p. record p { nice = n }),
  )
  | inr (p, here) ↦ ground (
    arith,
    here,
    get_elem?-map (renice m.pid n) k.procs j,
    v.distinct me j m p at here,
    get_elem?-update k.procs me j (λ p. record p { nice = n }),
  )
]

-- `set_prio` with a positive `n`, by the process at `me`, succeeds; `get_prio` then returns `n`; and
-- no other slot has changed.
pub set_prio-get_prio :
    (k : Kernel) (me n : ℕ)
    → IsValid k
    → Runs k me
    → ((set_prio k me (pos (suc n))).0 ≡ pos 0)
      × (get_prio (set_prio k me (pos (suc n))).1 me ≡ pos (suc n))
      × ((j : ℕ) → j ≢ me → get_elem? (set_prio k me (pos (suc n))).1.procs j ≡ get_elem? k.procs j)
unfolding set_prio get_prio
set_prio-get_prio k me n v (m, at, run) = (
  rw (has_pid_at pid false k.procs me m at (sym mine)) refl,
  rw (table, its_pid)
      (prio_loop_all m.pid failed (pos (suc n)) changed same_nice
        (inr (me, record m { nice = suc n }, now, refl))),
  λ j ne. rw table (get_elem?-update_ne k.procs me j _ (λ e. ne (sym e))),
)
  where
    pid : ℕ
    pid = (proc_at k me).pid

    mine : pid ≡ m.pid
    mine = ap (λ (p : Proc). p.pid) (get_or_of_some k.procs me blank at)

    changed : List Proc
    changed = update k.procs me (λ p. record p { nice = suc n })

    used : m.pid ≢ 0
    used = (v.ok me m at).live (ground arith)

    table : map (renice (proc_at k me).pid (suc n)) k.procs ≡ changed
    table = rw mine (renice_one k me (suc n) m v at used)

    now : get_elem? changed me ≡ some (record m { nice = suc n })
    now = get_elem?-update_self k.procs me _ at

    its_pid : (get_or changed me blank).pid ≡ m.pid
    its_pid = ap (λ (p : Proc). p.pid) (get_or_of_some changed me blank now)

    same_nice :
        (j : ℕ) (p : Proc) → get_elem? changed j ≡ some p → m.pid ≡ p.pid → pos p.nice ≡ pos (suc n)
    same_nice j p e same = by_slot (updated_at k.procs me _ j p e)
      where
        by_slot :
            UpdatedAt k.procs me (λ p. record p { nice = suc n }) j p → pos p.nice ≡ pos (suc n)
        by_slot (q, there, inl (_, e)) = ground arith
        by_slot (q, there, inr (other, e)) =
            absurd (other (v.distinct me j m q at there (ground arith) used))

check_loop_mono :
    (m n a b : ℕ) (ps : List Proc) → m ≤ n → a ≤ b → check_loop m a ps ≤ check_loop n b ps
unfolding check_loop
check_loop_mono m n a b [] le h = h
check_loop_mono m n a b (p ∷ ps) le h =
    check_loop_mono m n (if is_unused p.state then a else if ltb p.nice m then a + 1 else a)
      (if is_unused p.state then b else if ltb p.nice n then b + 1 else b) ps le (ground arith)

check_loop-le-count : (n a b : ℕ) (ps : List Proc) → a ≤ b → check_loop n a ps ≤ count_loop b ps
unfolding check_loop count_loop
check_loop-le-count n a b [] h = h
check_loop-le-count n a b (p ∷ ps) h =
    check_loop-le-count n (if is_unused p.state then a else if ltb p.nice n then a + 1 else a)
      (if is_unused p.state then b else b + 1) ps (ground arith)

pub count_loop_add : (a : ℕ) (ps : List Proc) → count_loop (a + 1) ps ≡ count_loop a ps + 1
unfolding count_loop
count_loop_add a [] = refl
count_loop_add a (p ∷ ps) = ground (arith, count_loop_add a ps, count_loop_add (a + 1) ps)

-- The rank of a priority lies between 1 and one more than the number of processes, and grows with the
-- priority.
pub check_bounds :
    (k : Kernel) (m n : ℕ)
    → m ≤ n
    → (1 ≤ check k m) × (check k m ≤ check k n) × (check k n ≤ get_num_proc k + 1)
unfolding check get_num_proc
check_bounds k m n le = (
  check_pos k m,
  check_loop_mono m n 1 1 k.procs le (omega arith),
  omega (arith, check_loop-le-count n 1 1 k.procs (omega arith), count_loop_add 0 k.procs),
)
