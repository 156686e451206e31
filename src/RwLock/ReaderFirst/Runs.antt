-- ===== src/RwLock/ReaderFirst/Runs.antt =====
-- What the lock of rw_lock-r-test.c makes its writers wait for.
use linux_project.Base.{
  ℕ, ◌≡◌, refl, ◌∙◌, sym, some_eq, Bool, true, false, some, List, get_elem?, update, arith,
  get_elem?-update_self, get_elem?-update_ne, get_elem?-replicate, ℕ_discrete, subst,
}
use linux_project.RwLock.{RwLock}
use linux_project.RwLock.ReaderFirst.{Pc, Sys, init_rwlock, w_test, Step, Reach}

-- Behind the test of `w_lock`, and not out of `w_unlock`.
abbrev is_past : Pc → Bool
is_past Pc.w_passed = true
is_past Pc.writes = true
is_past Pc.w_left = true
is_past _ = false

abbrev AllOutside : List Pc → Type 0
AllOutside threads = (i : ℕ) (p : Pc) → get_elem? threads i ≡ some p → is_past p ≡ false

abbrev pub NobodyPast : Sys → Type 0
NobodyPast s = AllOutside s.threads

-- One thread goes on, and is not behind the test.
outside_update :
    (threads : List Pc) (i : ℕ) (p' : Pc) {p : Pc}
    → get_elem? threads i ≡ some p
    → is_past p' ≡ false
    → AllOutside threads
    → AllOutside (update threads i (λ _. p'))
outside_update threads i p' at out all j q e = elim (ℕ_discrete i j) [
  | yes here ↦
      let there : get_elem? (update threads i (λ _. p')) i ≡ some q =
        subst (λ k. get_elem? (update threads i (λ _. p')) k ≡ some q) (sym here) e in
      let same : p' ≡ q = some_eq (sym (get_elem?-update_self threads i (λ _. p') at) ∙ there) in
      rw (← same) out
  | no other ↦ all j q (sym (get_elem?-update_ne threads i j (λ _. p') other) ∙ e)
]

-- While `r_count` is 0 the test does not let a writer through.
test_outside :
    (l : RwLock) (p : Pc) → l.r_count ≡ 0 → is_past p ≡ false → is_past (w_test l p) ≡ false
test_outside l Pc.idle zero_count out = refl
test_outside l Pc.r_asks zero_count out = refl
test_outside l Pc.reads zero_count out = refl
test_outside l Pc.w_asks zero_count out = refl
test_outside l Pc.w_loops zero_count out = refl
test_outside l (Pc.w_saw c) zero_count out = ground arith
test_outside l Pc.w_equal zero_count out = ground arith
test_outside l Pc.w_free zero_count out = ground (arith, zero_count)
test_outside l Pc.w_passed zero_count out = out
test_outside l Pc.writes zero_count out = out
test_outside l Pc.w_left zero_count out = out

Step-outside :
    {s t : Sys}
    → Step s t
    → (s.lock.r_count ≡ 0 → AllOutside s.threads)
    → t.lock.r_count ≡ 0
    → AllOutside t.threads
Step-outside {s} (Step.r_asks i at) all z = outside_update s.threads i Pc.r_asks at refl (all z)
Step-outside {s} (Step.w_asks i at) all z = outside_update s.threads i Pc.w_asks at refl (all z)
Step-outside {s} (Step.loads i p at) all z = all z
Step-outside {s} (Step.r_locks i v at has) all z = absurd (omega (arith, z))
Step-outside {s} (Step.r_unlocks i v at has) all z =
    outside_update s.threads i Pc.idle at refl (all z)
Step-outside {s} (Step.w_locks i v at has) all z =
    outside_update s.threads i Pc.w_loops at refl (all z)
Step-outside {s} (Step.w_tests i p at) all z =
    outside_update s.threads i (w_test s.lock p) at (test_outside s.lock p z (all z i p at)) (all z)
Step-outside {s} (Step.w_enters i at) all z = let out : true ≡ false = all z i Pc.w_passed at in cc
Step-outside {s} (Step.w_unlocks i v at has) all z =
    let out : true ≡ false = all z i Pc.writes at in cc
Step-outside {s} (Step.w_leaves i at) all z = outside_update s.threads i Pc.idle at refl (all z)

-- In every run of any number of threads, also where they overwrite each other's `++`: as long as
-- `r_count` is 0, as it is before the first reader, no writer is through the test of `w_lock`.
pub w_lock_waits : (l : RwLock) (n : ℕ) {s : Sys} → Reach l n s → s.lock.r_count ≡ 0 → NobodyPast s
unfolding init_rwlock
w_lock_waits l n Reach.begins zero_count i p at = ground (arith, get_elem?-replicate n Pc.idle i at)
w_lock_waits l n (Reach.goes r step) zero_count i p at =
    Step-outside step (w_lock_waits l n r) zero_count i p at
