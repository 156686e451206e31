-- ===== src/Ftl/Moves.antt =====
-- Rewriting a page of Project10/ftlmgr.c through another block, as `w` does where the page is not
-- empty: the block at `a` is copied to `c` but for page `q`, cleared, written and copied back.
use linux_project.Base.{
  ℕ, ◌+◌, ◌-◌, ◌<◌, ◌≤◌, ◌≡◌, ◌≢◌, ◌⊎◌, inl, inr, ◌∙◌, sym, some, List, length, get_elem?, update,
  arith, ℕ_discrete, dec_lt, get_elem?-update, length-update, get_elem?_of_lt, ext_get_elem?, subst,
}
use linux_project.Ftl.{Page, copy_pages, clear}
use linux_project.Ftl.Copying.{
  length-copy_pages, copy_pages_away, copy_pages_there, length-clear, clear_away, clear_there,
}

module _ (flash : List Page) (n a c q : ℕ) (empty page : Page) where
  abbrev saved : List Page
  saved = copy_pages n 0 q a c flash

  abbrev cleared : List Page
  cleared = clear n a empty saved

  abbrev written : List Page
  written = update cleared (a + q) (λ _. page)

  abbrev back : List Page
  back = copy_pages n 0 q c a written

  abbrev pub moved : List Page
  moved = clear n c empty back

  abbrev pub Apart : Type 0
  Apart = (a + n ≤ c) ⊎ (c + n ≤ a)

  length-written : length written ≡ length flash
  length-written =
      length-update cleared (a + q) (λ _. page)
      ∙ length-clear n a empty saved
      ∙ length-copy_pages n 0 q a c flash

  -- Outside the two blocks nothing changes.
  pub moved_away :
      q < n
      → (j : ℕ) → (j < a) ⊎ (a + n ≤ j)
      → (j < c) ⊎ (c + n ≤ j)
      → get_elem? moved j ≡ get_elem? flash j
  moved_away lt j from_a from_c =
      clear_away n c empty back j from_c
      ∙ copy_pages_away n 0 q c a written j (λ k lo hi ne. ground (arith, from_a))
      ∙ ground (arith, from_a, get_elem?-update cleared (a + q) j (λ _. page))
      ∙ clear_away n a empty saved j from_a
      ∙ copy_pages_away n 0 q a c flash j (λ k lo hi ne. ground (arith, from_c))

  -- The page itself.
  moved_here : Apart → q < n → a + n ≤ length flash → get_elem? moved (a + q) ≡ some page
  moved_here apart lt fits =
      clear_away n c empty back (a + q) (ground (arith, apart))
      ∙ copy_pages_away n 0 q c a written (a + q) (λ k lo hi ne. ground arith)
      ∙ ground (
        arith,
        get_elem?_of_lt cleared (a + q)
            (omega (arith, length-clear n a empty saved, length-copy_pages n 0 q a c flash)),
        get_elem?-update cleared (a + q) (a + q) (λ _. page),
      )

  -- The other pages of its block.
  moved_beside :
      Apart
      → q < n
      → a + n ≤ length flash
      → c + n ≤ length flash
      → (k : ℕ) {p : Page} → k < n
      → k ≢ q
      → get_elem? flash (a + k) ≡ some p
      → get_elem? moved (a + k) ≡ some p
  moved_beside apart lt fits room k {p} hi ne at =
      clear_away n c empty back (a + k) (ground (arith, apart))
      ∙ copy_pages_there n 0 q c a written k (omega arith) (omega arith) ne (ground (arith, apart))
          parked (omega (arith, length-written))
    where
      parked : get_elem? written (c + k) ≡ some p
      parked =
          ground (arith, apart, get_elem?-update cleared (a + q) (c + k) (λ _. page))
          ∙ clear_away n a empty saved (c + k) (ground (arith, apart))
          ∙ copy_pages_there n 0 q a c flash k (omega arith) (omega arith) ne
              (ground (arith, apart)) at (omega arith)

  -- The block that was used to copy.
  pub moved_behind : c + n ≤ length flash → (k : ℕ) → k < n → get_elem? moved (c + k) ≡ some empty
  moved_behind room k hi =
      clear_there n c empty back (c + k) (omega arith) (omega arith)
        (omega (arith, length-copy_pages n 0 q c a written, length-written))

  -- A slot lies in the block at `x`, or outside of it.
  in_block : (x j : ℕ) → ((k : ℕ) × (k < n) × (x + k ≡ j)) ⊎ ((j < x) ⊎ (x + n ≤ j))
  in_block x j = elim (dec_lt j x) [
    | yes below ↦ inr (inl below)
    | no from ↦ elim (dec_lt j (x + n)) [
      | yes inside ↦ inl (j - x, omega arith, omega arith)
      | no above ↦ inr (inr (omega arith))
    ]
  ]

  pub moved_lem :
      Apart
      → q < n
      → a + n ≤ length flash
      → c + n ≤ length flash
      → ((k : ℕ) → k < n → get_elem? flash (c + k) ≡ some empty)
      → moved ≡ update flash (a + q) (λ _. page)
  moved_lem apart lt fits room free = ext_get_elem? moved (update flash (a + q) (λ _. page)) λ j.
      elim (in_block a j) [
        | inl (k, hi, here) ↦ subst Same here (in_a k hi)
        | inr from_a ↦ elim (in_block c j) [
          | inl (k, hi, here) ↦ subst Same here (in_c k hi)
          | inr from_c ↦
              moved_away lt j from_a from_c
              ∙ ground (arith, from_a, get_elem?-update flash (a + q) j (λ _. page))
        ]
      ]
    where
      Same : ℕ → Type 0
      Same j = get_elem? moved j ≡ get_elem? (update flash (a + q) (λ _. page)) j

      in_a : (k : ℕ) → k < n → Same (a + k)
      in_a k hi =
          let (p, at) = get_elem?_of_lt flash (a + k) (omega arith) in
          elim (ℕ_discrete k q) [
            | yes here ↦
                subst (λ i. Same (a + i)) (sym here)
                  (moved_here apart lt fits
                    ∙ ground (arith, here, at, get_elem?-update flash (a + q) (a + q) (λ _. page)))
            | no other ↦
                moved_beside apart lt fits room k hi other at
                ∙ ground (arith, other, at, get_elem?-update flash (a + q) (a + k) (λ _. page))
          ]

      in_c : (k : ℕ) → k < n → Same (c + k)
      in_c k hi =
          moved_behind room k hi
          ∙ ground (arith, apart, free k hi, get_elem?-update flash (a + q) (c + k) (λ _. page))
