-- ===== src/Ftl/Copying.antt =====
-- The loops of Project10/ftlmgr.c over the pages of a block: what they copy and clear, and what they
-- leave alone.
use linux_project.Base.{
  ℕ, zero, suc, ◌+◌, ◌<◌, ◌≤◌, ◌≡◌, ◌≢◌, ◌⊎◌, inl, inr, refl, ◌∙◌, some, List, [], ◌==◌,
  if◌then◌else◌, length, get_elem?, get_or, update, arith, ℕ_discrete, get_elem?-update,
  length-update, get_or_of_some, get_elem?_of_lt,
}
use linux_project.Ftl.{Page, copy_pages, clear}

pub length-copy_pages :
    (n i skip src dst : ℕ) (flash : List Page)
    → length (copy_pages n i skip src dst flash) ≡ length flash
unfolding copy_pages
length-copy_pages zero i skip src dst flash = refl
length-copy_pages (suc n) i skip src dst flash = ground (
  arith,
  length-copy_pages n (i + 1) skip src dst flash,
  length-copy_pages n (i + 1) skip src dst
      (update flash (dst + i) (λ _. get_or flash (src + i) [])),
  length-update flash (dst + i) (λ _. get_or flash (src + i) []),
)

-- One round of the copying loop.
abbrev copied : ℕ → ℕ → ℕ → ℕ → List Page → List Page
copied i skip src dst flash =
    if i == skip then flash else update flash (dst + i) (λ _. get_or flash (src + i) [])

get_elem?-copied :
    (i skip src dst : ℕ) (flash : List Page) (j : ℕ)
    → (j ≢ dst + i) ⊎ (i ≡ skip)
    → get_elem? (copied i skip src dst flash) j ≡ get_elem? flash j
get_elem?-copied i skip src dst flash j away =
    ground (arith, away, get_elem?-update flash (dst + i) j (λ _. get_or flash (src + i) []))

-- Pages that the loop does not write.
pub copy_pages_away :
    (n i skip src dst : ℕ) (flash : List Page) (j : ℕ)
    → ((k : ℕ) → i ≤ k → k < i + n → k ≢ skip → j ≢ dst + k)
    → get_elem? (copy_pages n i skip src dst flash) j ≡ get_elem? flash j
unfolding copy_pages
copy_pages_away zero i skip src dst flash j away = refl
copy_pages_away (suc n) i skip src dst flash j away =
    copy_pages_away n (i + 1) skip src dst (copied i skip src dst flash) j
      (λ k lo hi. away k (omega arith) (omega arith))
    ∙ get_elem?-copied i skip src dst flash j (elim (ℕ_discrete i skip) [
      | yes here ↦ inr here
      | no other ↦ inl (away i (omega arith) (omega arith) other)
    ])

-- Pages that it copies, where the two blocks lie apart.
pub copy_pages_there :
    (n i skip src dst : ℕ) (flash : List Page) (k : ℕ) {p : Page}
    → i ≤ k
    → k < i + n
    → k ≢ skip
    → (src + (i + n) ≤ dst) ⊎ (dst + (i + n) ≤ src)
    → get_elem? flash (src + k) ≡ some p
    → dst + k < length flash
    → get_elem? (copy_pages n i skip src dst flash) (dst + k) ≡ some p
unfolding copy_pages
copy_pages_there zero i skip src dst flash k lo hi ne apart at lt = absurd (omega arith)
copy_pages_there (suc n) i skip src dst flash k {p} lo hi ne apart at lt = elim (ℕ_discrete i k) [
  | yes here ↦
      copy_pages_away n (i + 1) skip src dst (copied i skip src dst flash) (dst + k)
        (λ j lo hi ne. omega arith)
      ∙ now here
  | no later ↦
      copy_pages_there n (i + 1) skip src dst (copied i skip src dst flash) k (omega arith)
        (omega arith) ne (ground arith)
        (get_elem?-copied i skip src dst flash (src + k) (inl (ground arith)) ∙ at)
        (ground (arith, length-update flash (dst + i) (λ _. get_or flash (src + i) [])))
]
  where
    now : i ≡ k → get_elem? (copied i skip src dst flash) (dst + k) ≡ some p
    now here = ground (
      arith,
      get_or_of_some flash (src + k) [] at,
      get_elem?_of_lt flash (dst + k) lt,
      get_elem?-update flash (dst + i) (dst + k) (λ _. get_or flash (src + i) []),
    )

pub length-clear :
    (n i : ℕ) (empty : Page) (flash : List Page) → length (clear n i empty flash) ≡ length flash
unfolding clear
length-clear zero i empty flash = refl
length-clear (suc n) i empty flash =
    length-clear n (i + 1) empty (update flash i (λ _. empty)) ∙ length-update flash i (λ _. empty)

pub clear_away :
    (n i : ℕ) (empty : Page) (flash : List Page) (j : ℕ)
    → (j < i) ⊎ (i + n ≤ j)
    → get_elem? (clear n i empty flash) j ≡ get_elem? flash j
unfolding clear
clear_away zero i empty flash j away = refl
clear_away (suc n) i empty flash j away =
    clear_away n (i + 1) empty (update flash i (λ _. empty)) j (ground arith)
    ∙ ground (arith, get_elem?-update flash i j (λ _. empty))

pub clear_there :
    (n i : ℕ) (empty : Page) (flash : List Page) (j : ℕ)
    → i ≤ j
    → j < i + n
    → j < length flash
    → get_elem? (clear n i empty flash) j ≡ some empty
unfolding clear
clear_there zero i empty flash j lo hi lt = absurd (omega arith)
clear_there (suc n) i empty flash j lo hi lt = elim (ℕ_discrete i j) [
  | yes here ↦
      clear_away n (i + 1) empty (update flash i (λ _. empty)) j (inl (omega arith))
      ∙ ground (arith, here, get_elem?_of_lt flash j lt, get_elem?-update flash i j (λ _. empty))
  | no later ↦
      clear_there n (i + 1) empty (update flash i (λ _. empty)) j (omega arith) (omega arith)
        (ground (arith, length-update flash i (λ _. empty)))
]
