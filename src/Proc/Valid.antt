-- ===== src/Proc/Valid.antt =====
-- The invariant of the process table, and what keeps it: changes to a slot that leave its pid alone.
use linux_project.Base.{
  ◌+◌, ℕ, ◌≤◌, ◌<◌, ◌≡◌, ◌≢◌, refl, ◌∙◌, inl, inr, true, false, some, List, map, get_elem?,
  get_elem?-update, get_elem?-map, update, Option-cases, arith, subst, ℕ_discrete,
}
use linux_project.Proc.{Proc, Kernel, is_unused, is_fresh, is_running}

-- What holds of one slot: a process in use has a pid, and but for an embryo its kernel stack; a free slot
-- has no stack; the ticks of a running process have passed its rank by one at most, and the others have
-- none.
pub record ProcOk (nextpid : ℕ) (p : Proc) : Type 0 where
  pub below : p.pid < nextpid
  pub live : is_unused p.state ≡ false → p.pid ≢ 0
  pub free : is_unused p.state ≡ true → p.kstack ≡ false
  pub stack : is_fresh p.state ≡ false → p.kstack ≡ true
  pub slice : is_running p.state ≡ true → (1 ≤ p.prio) × (p.cpucount ≤ p.prio + 1)
  pub off : is_running p.state ≡ false → p.cpucount ≡ 0

abbrev pub Distinct : List Proc → Type 0
Distinct procs =
    (i j : ℕ) (p q : Proc)
    → get_elem? procs i ≡ some p
    → get_elem? procs j ≡ some q
    → p.pid ≡ q.pid
    → p.pid ≢ 0
    → i ≡ j

abbrev pub AllOk : ℕ → List Proc → Type 0
AllOk nextpid procs = (i : ℕ) (p : Proc) → get_elem? procs i ≡ some p → ProcOk nextpid p

pub record IsValid (k : Kernel) : Type 0 where
  pub started : 1 ≤ k.nextpid
  pub ok : AllOk k.nextpid k.procs
  pub distinct : Distinct k.procs

-- A table whose slots come from those of another: same pids, and each still in order.
pub record From (n : ℕ) (procs : List Proc) (j : ℕ) (p' : Proc) : Type 0 where
  pub p : Proc
  pub at : get_elem? procs j ≡ some p
  pub pid : p'.pid ≡ p.pid
  pub ok : ProcOk n p → ProcOk n p'

abbrev pub Keeps : ℕ → List Proc → List Proc → Type 0
Keeps n procs procs' = (j : ℕ) (p' : Proc) → get_elem? procs' j ≡ some p' → From n procs j p'

pub Keeps-refl : (n : ℕ) (procs : List Proc) → Keeps n procs procs
Keeps-refl n procs j p e = record { p = p; at = e; pid = refl; ok = λ o. o }

pub Keeps-trans : (n : ℕ) (a b c : List Proc) → Keeps n a b → Keeps n b c → Keeps n a c
Keeps-trans n a b c h g j p e =
    let r = g j p e in
    let s = h j r.p r.at in
    record { p = s.p; at = s.at; pid = r.pid ∙ s.pid; ok = λ o. r.ok (s.ok o) }

pub Keeps-update :
    (n : ℕ) (procs : List Proc) (i : ℕ) (f : Proc → Proc)
    → ((p : Proc)
        → get_elem? procs i ≡ some p
        → ((f p).pid ≡ p.pid) × (ProcOk n p → ProcOk n (f p)))
    → Keeps n procs (update procs i f)
Keeps-update n procs i f good j p' e = elim (Option-cases (get_elem? procs j)) [
  | inl gone ↦ ground (arith, gone, get_elem?-update procs i j f)
  | inr (p, at) ↦ elim (ℕ_discrete i j) [
    | yes here ↦
        let at' : get_elem? procs i ≡ some p = rw here at in
        let same : f p ≡ p' = ground (arith, at, here, get_elem?-update procs i j f) in
        let g = good p at' in
        subst (From n procs j) same (record { p = p; at = at; pid = g.0; ok = g.1 })
    | no other ↦
        let same : p ≡ p' = ground (arith, at, other, get_elem?-update procs i j f) in
        subst (From n procs j) same (record { p = p; at = at; pid = refl; ok = λ o. o })
  ]
]

pub Keeps-map :
    (n : ℕ) (procs : List Proc) (f : Proc → Proc)
    → ((p : Proc) → ((f p).pid ≡ p.pid) × (ProcOk n p → ProcOk n (f p)))
    → Keeps n procs (map f procs)
Keeps-map n procs f good j p' e = elim (Option-cases (get_elem? procs j)) [
  | inl gone ↦ ground (arith, gone, get_elem?-map f procs j)
  | inr (p, at) ↦
      let same : f p ≡ p' = ground (arith, at, get_elem?-map f procs j) in
      subst (From n procs j) same (record { p = p; at = at; pid = (good p).0; ok = (good p).1 })
]

pub Keeps-IsValid :
    (k : Kernel) (procs' : List Proc)
    → Keeps k.nextpid k.procs procs'
    → IsValid k
    → IsValid (record k { procs = procs' })
Keeps-IsValid k procs' keeps v = record {
  started = v.started;
  ok = λ i p e. let r = keeps i p e in r.ok (v.ok i r.p r.at);
  distinct = λ i j p q ei ej same ne.
      let r = keeps i p ei in
      let s = keeps j q ej in
      v.distinct i j r.p s.p r.at s.at (cc (r.pid, s.pid)) (λ z. ne (r.pid ∙ z));
}
