-- ===== src/MasterWorker/Buffer.antt =====
-- The buffer of Project3/thread1/master-worker.c: what a write adds, and what a worker takes out.
use linux_project.Base.{
  append_assoc, append-nil, ℕ, zero, suc, ◌+◌, ◌-◌, ◌≤◌, ◌<◌, ◌≡◌, ◌≢◌, refl, ◌∙◌, sym, ap, false,
  List, [], ◌∷◌, ◌++◌, ◌==◌, length, get_or, update, arith,
}
use linux_project.MasterWorker.{Store, consume}

-- `c` elements from index `i` on.
unfoldable pub slice : ℕ → ℕ → List ℕ → List ℕ
slice i zero xs = []
slice i (suc c) xs = get_or xs i 0 ∷ slice (i + 1) c xs

-- 0, 1, and so on, `n` numbers.
unfoldable pub upto : ℕ → List ℕ
upto zero = []
upto (suc n) = upto n ++ n ∷ []

get_or-update_self : (xs : List ℕ) (i x : ℕ) → i < length xs → get_or (update xs i (λ _. x)) i 0 ≡ x
get_or-update_self [] i x lt = absurd (omega arith)
get_or-update_self (y ∷ xs) zero x lt = refl
get_or-update_self (y ∷ xs) (suc i) x lt = get_or-update_self xs i x (omega arith)

get_or-update_ne :
    (xs : List ℕ) (i j x : ℕ) → i ≢ j → get_or (update xs i (λ _. x)) j 0 ≡ get_or xs j 0
get_or-update_ne [] i j x ne = refl
get_or-update_ne (y ∷ xs) zero zero x ne = absurd (ne refl)
get_or-update_ne (y ∷ xs) zero (suc j) x ne = refl
get_or-update_ne (y ∷ xs) (suc i) zero x ne = refl
get_or-update_ne (y ∷ xs) (suc i) (suc j) x ne = get_or-update_ne xs i j x (λ e. ne (ap suc e))

-- A number written behind the slice makes it longer.
pub slice-update :
    (i c : ℕ) (xs : List ℕ) (x : ℕ)
    → i + c < length xs
    → slice i (c + 1) (update xs (i + c) (λ _. x)) ≡ slice i c xs ++ x ∷ []
unfolding slice
slice-update i zero xs x lt =
    ap (λ n. slice i (zero + 1) (update xs n (λ _. x))) {x = i + zero} {y = i} (omega arith)
    ∙ ap (λ y. y ∷ []) (get_or-update_self xs i x (omega arith))
slice-update i (suc c) xs x lt =
    let r = slice-update (i + 1) c xs x (omega arith) in
    let here = get_or-update_ne xs (i + suc c) i x (omega arith) in
    let same : i + 1 + c ≡ i + suc c = omega arith in
    let rest : slice (i + 1) (c + 1) (update xs (i + suc c) (λ _. x))
        ≡ slice (i + 1) c xs ++ x ∷ [] =
      ap (λ n. slice (i + 1) (c + 1) (update xs n (λ _. x))) (sym same) ∙ r in
    ap (λ n. slice i n (update xs (i + suc c) (λ _. x))) {x = suc c + 1} {y = suc (c + 1)}
      (omega arith)
    ∙ ap (λ y. y ∷ slice (i + 1) (c + 1) (update xs (i + suc c) (λ _. x))) here
    ∙ ap (λ ys. get_or xs i 0 ∷ ys) rest

-- The loop of a worker prints what the buffer holds from `i` on, and empties it.
pub consume_lem :
    (n i c : ℕ) (s : Store)
    → s.curr_buf_size ≡ c
    → c ≤ n
    → consume n i s ≡ record s { consumed = s.consumed ++ slice i c s.buffer; curr_buf_size = 0 }
unfolding consume slice
consume_lem zero i zero s e le = ground (arith, e, append-nil s.consumed)
consume_lem zero i (suc c) s e le = absurd (omega arith)
consume_lem (suc n) i zero s e le =
    let r = consume_lem n (i + 1) zero s e (omega arith) in ground (arith, e, r)
consume_lem (suc n) i (suc c) s e le =
    let eaten : Store = record s {
      consumed = s.consumed ++ get_or s.buffer i 0 ∷ [];
      curr_buf_size = s.curr_buf_size - 1;
    } in
    let r = consume_lem n (i + 1) c eaten (omega arith) (omega arith) in
    let full : (s.curr_buf_size == 0) ≡ false = ground (arith, e) in
    rw (full, consume)
      (r
        ∙ ap (λ log. record s { consumed = log; curr_buf_size = 0 })
            (append_assoc s.consumed (get_or s.buffer i 0 ∷ []) (slice (i + 1) c s.buffer)))
