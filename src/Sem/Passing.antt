-- ===== src/Sem/Passing.antt =====
-- When a thread that has called `SSU_Sem_down` gets through.
use linux_project.Base.{ℕ, ◌+◌, ◌≡◌, ◌≢◌, ◌↔◌, refl, true, List, [], ◌∷◌, arith}
use linux_project.Base.Int.{ℤ, pos, negsuc, pos_part, neg_part, ◌+ℤ◌, ◌-ℤ◌}
use linux_project.Sem.{Sem, down, num_of, list_of, may_pass, up, Call, calls, num_downs, num_ups}

-- a + n = b + m, told by the parts of `a` and `b`.
abbrev Offset : ℤ → ℕ → ℤ → ℕ → Type 0
Offset a n b m = pos_part a + neg_part b + n ≡ pos_part b + neg_part a + m

plus_one : (a : ℤ) → Offset (a +ℤ pos 1) 0 a 1
unfolding ◌+ℤ◌
plus_one (pos n) = ground arith
plus_one (negsuc n) = ground arith

minus_one : (a : ℤ) → Offset (a -ℤ pos 1) 1 a 0
unfolding ◌-ℤ◌
minus_one (pos n) = ground arith
minus_one (negsuc n) = ground arith

-- The counters after the calls of the others.
calls-Offset :
    (cs : List Call) (s : Sem)
    → Offset (calls cs s).count (num_downs cs) s.count (num_ups cs)
      × Offset (calls cs s).wait (num_ups cs) s.wait (num_downs cs)
unfolding down up
calls-Offset [] s = (refl, refl)
calls-Offset (Call.downs ∷ cs) s =
    let r = calls-Offset cs (down s) in
    (omega (arith, r.0, minus_one s.count), omega (arith, r.1, plus_one s.wait))
calls-Offset (Call.ups ∷ cs) s =
    let r = calls-Offset cs (up s) in
    (omega (arith, r.0, plus_one s.count), omega (arith, r.1, minus_one s.wait))

pub down_passes :
    (s : Sem) (cs : List Call)
    → (may_pass (calls cs (down s)) (num_of s) (list_of s) ≡ true) ↔ (num_ups cs ≡ num_downs cs + 1)
unfolding down
down_passes s cs =
    let r = calls-Offset cs (down s) in
    let low = minus_one s.count in
    let high = plus_one s.wait in
    (
      λ pass. ground (arith, pass, r.0, r.1, low, high),
      λ one_more. ground (arith, one_more, r.0, r.1, low, high),
    )

-- Where two threads call `SSU_Sem_down` one after the other and one `SSU_Sem_up` follows, the thread
-- that came last gets through, and the one that came first does not.
pub last_passes_first :
    (s : Sem)
    → let s1 = down s in
      let s3 = up (down s1) in
      (may_pass s3 (num_of s1) (list_of s1) ≡ true) × (may_pass s3 (num_of s) (list_of s) ≢ true)
last_passes_first s = (
  (down_passes (down s) (Call.ups ∷ [])).1 refl,
  λ pass. let e = (down_passes s (Call.downs ∷ Call.ups ∷ [])).0 pass in omega arith,
)
