-- ===== src/Ftl/Empty.antt =====
-- Empty pages and blocks of Project10/ftlmgr.c: what the counts of 0xFF bytes say.
use linux_project.Base.{
  ℕ, zero, suc, ◌+◌, ◌*◌, ◌<◌, ◌≤◌, ◌≡◌, ◌≢◌, ◌⊎◌, inl, inr, refl, ◌∙◌, ap, some, List, [], ◌∷◌,
  length, get_elem?, get_or, replicate, arith, ℕ_discrete, dec_lt, get_or_of_some, get_elem?_of_lt,
  subst,
}
use linux_project.Ftl.{Page, ff, count_ff, count_block, Device, find_empty}

pub count_ff_le : (p : Page) → count_ff p ≤ length p
unfolding count_ff
count_ff_le [] = omega arith
count_ff_le (b ∷ bs) = ground (arith, count_ff_le bs)

pub count_ff_full : (p : Page) → count_ff p ≡ length p → p ≡ replicate (length p) ff
unfolding count_ff
count_ff_full [] e = refl
count_ff_full (b ∷ bs) e =
    let le = count_ff_le bs in
    let first : b ≡ ff = ground arith in
    let r : bs ≡ replicate (length bs) ff = count_ff_full bs (ground arith) in cc (first, r)

pub count_ff-replicate : (n : ℕ) → count_ff (replicate n ff) ≡ n
unfolding count_ff
count_ff-replicate zero = refl
count_ff-replicate (suc n) = ground (arith, count_ff-replicate n)

module _ (ps : ℕ) (flash : List Page)
    (sized : (i : ℕ) (p : Page) → get_elem? flash i ≡ some p → length p ≡ ps) where
  count_at_le : (i : ℕ) → count_ff (get_or flash i []) ≤ ps
  unfolding count_ff
  count_at_le i = elim (dec_lt i (length flash)) [
    | yes lt ↦
        let (p, at) = get_elem?_of_lt flash i lt in
        ground (arith, get_or_of_some flash i [] at, sized i p at, count_ff_le p)
    | no over ↦ ground (arith, get_or_over flash i over)
  ]
    where
      get_or_over : (ps : List Page) (i : ℕ) → ¬ (i < length ps) → get_or ps i [] ≡ []
      get_or_over [] i over = refl
      get_or_over (p ∷ ps) zero over = absurd (over (omega arith))
      get_or_over (p ∷ ps) (suc i) over = get_or_over ps i (λ lt. over (omega arith))

  count_block_le : (n i : ℕ) → count_block n i flash ≤ n * ps
  unfolding count_block
  count_block_le zero i = omega arith
  count_block_le (suc n) i = omega (arith, count_at_le i, count_block_le n (i + 1))

  -- A block that counts as empty has nothing but empty pages.
  pub count_block_full :
      (n i : ℕ)
      → i + n ≤ length flash
      → count_block n i flash ≡ n * ps
      → (k : ℕ) → i ≤ k
      → k < i + n
      → get_elem? flash k ≡ some (replicate ps ff)
  unfolding count_block
  count_block_full zero i fits full k lo hi = absurd (omega arith)
  count_block_full (suc n) i fits full k lo hi = elim (ℕ_discrete i k) [
    | yes here ↦
        let (p, at) = get_elem?_of_lt flash k (omega arith) in
        let whole : count_ff p ≡ length p = ground (
          arith,
          get_or_of_some flash k [] at,
          here,
          sized k p at,
          count_at_le i,
          count_block_le n (i + 1),
          full,
        ) in
        at ∙ ap some (count_ff_full p whole ∙ ap (λ m. replicate m ff) (sized k p at))
    | no later ↦
        count_block_full n (i + 1) (omega arith)
          (omega (arith, count_at_le i, count_block_le n (i + 1), full)) k (omega arith)
          (omega arith)
  ]

  pub count_block_empty :
      (n i : ℕ)
      → ((k : ℕ) → i ≤ k → k < i + n → get_elem? flash k ≡ some (replicate ps ff))
      → count_block n i flash ≡ n * ps
  unfolding count_block
  count_block_empty zero i free = omega arith
  count_block_empty (suc n) i free =
      let r = count_block_empty n (i + 1) (λ k lo hi. free k (omega arith) (omega arith)) in
      let here = get_or_of_some flash i [] (free i (omega arith) (omega arith)) in
      let whole : count_ff (get_or flash i []) ≡ ps = rw here (count_ff-replicate ps) in
      omega (arith, r, whole)

-- What the search for an empty block comes to.
pub find_empty-cases :
    (d : Device) (n b : ℕ) (flash : List Page)
    → ((b ≤ find_empty d n b flash)
        × (find_empty d n b flash < b + n)
        × (count_block d.page_num (find_empty d n b flash * d.page_num) flash ≡ d.block_size))
      ⊎ ((find_empty d n b flash ≡ 0)
          × ((k : ℕ)
              → b ≤ k
              → k < b + n
              → count_block d.page_num (k * d.page_num) flash ≢ d.block_size))
unfolding find_empty
find_empty-cases d zero b flash = inr (refl, λ k lo hi. absurd (omega arith))
find_empty-cases d (suc n) b flash =
    elim (ℕ_discrete (count_block d.page_num (b * d.page_num) flash) d.block_size) [
      | yes hit ↦ inl (ground arith)
      | no miss ↦ elim (find_empty-cases d n (b + 1) flash) [
        | inl (lo, hi, full) ↦ inl (ground (arith, miss, lo, hi, full))
        | inr (zeroed, others) ↦ inr (
          ground (arith, miss, zeroed),
          λ k lo hi. elim (ℕ_discrete b k) [
            | yes here ↦
                subst (λ j. count_block d.page_num (j * d.page_num) flash ≢ d.block_size) here miss
            | no later ↦ others k (omega arith) (omega arith)
          ],
        )
      ]
    ]
