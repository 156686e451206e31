-- ===== src/Proc/Marked.antt =====
-- `kill` and `set_prio` keep the invariant of the process table.
use linux_project.Base.{
  ℕ, zero, suc, ◌≡◌, refl, inl, inr, some, List, [], ◌∷◌, ◌==◌, Option-cases, Bool-cases, arith,
  subst,
}
use linux_project.Base.Int.{ℤ, pos, negsuc}
use linux_project.Proc.{Proc, Kernel, proc_at}
use linux_project.Proc.Query.{renice, set_prio}
use linux_project.Proc.Sched.{kill_proc, kill_loop, kill}
use linux_project.Proc.Valid.{ProcOk, IsValid, Keeps, From, Keeps-refl, Keeps-map, Keeps-IsValid}

Keeps-cons :
    (n : ℕ) (p p' : Proc) (ps ps' : List Proc)
    → p'.pid ≡ p.pid
    → (ProcOk n p → ProcOk n p')
    → Keeps n ps ps'
    → Keeps n (p ∷ ps) (p' ∷ ps')
Keeps-cons n p p' ps ps' same good keeps zero q e =
    subst (From n (p ∷ ps) 0) {x = p'} {y = q} (ground arith)
      (record { p = p; at = refl; pid = same; ok = good })
Keeps-cons n p p' ps ps' same good keeps (suc j) q e =
    let r = keeps j q e in record { p = r.p; at = r.at; pid = r.pid; ok = r.ok }

kill_loop-Keeps :
    (n pid : ℕ) (ps : List Proc) {ps' : List Proc} → kill_loop pid ps ≡ some ps' → Keeps n ps ps'
unfolding kill_loop
kill_loop-Keeps n pid [] e = cc
kill_loop-Keeps n pid (p ∷ ps) {ps'} e = elim (Bool-cases (p.pid == pid)) [
  | inl hit ↦
      subst (Keeps n (p ∷ ps)) {x = kill_proc p ∷ ps} (ground arith)
        (Keeps-cons n p (kill_proc p) ps ps refl (λ o. ground arith) (Keeps-refl n ps))
  | inr miss ↦ elim (Option-cases (kill_loop pid ps)) [
    | inl gone ↦ ground arith
    | inr (qs, found) ↦
        subst (Keeps n (p ∷ ps)) {x = p ∷ qs} (ground arith)
          (Keeps-cons n p p ps qs refl (λ o. o) (kill_loop-Keeps n pid ps found))
  ]
]

pub kill-IsValid : (k : Kernel) (pid : ℕ) → IsValid k → IsValid (kill k pid).1
unfolding kill
kill-IsValid k pid v = elim (Option-cases (kill_loop pid k.procs)) [
  | inl gone ↦ rw (gone, kill) v
  | inr (procs, found) ↦
      rw (found, kill) (Keeps-IsValid k procs (kill_loop-Keeps k.nextpid pid k.procs found) v)
]

pub set_prio-IsValid : (k : Kernel) (me : ℕ) (n : ℤ) → IsValid k → IsValid (set_prio k me n).1
unfolding set_prio
set_prio-IsValid k me (negsuc n) v = v
set_prio-IsValid k me (pos zero) v = v
set_prio-IsValid k me (pos (suc n)) v =
    Keeps-IsValid k _
      (Keeps-map k.nextpid k.procs (renice (proc_at k me).pid (suc n))
        λ p. (ground arith, λ o. ground arith))
      v
