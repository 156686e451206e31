-- ===== src/Ftl/Writes.antt =====
-- Writing pages with Project10/ftlmgr.c: what `w` leaves in the file, and what `r` prints of it.
use linux_project.Base.{
  ℕ, ◌+◌, ◌-◌, ◌*◌, ◌/◌, ◌%◌, ◌<◌, ◌≤◌, ◌≡◌, ◌≢◌, ◌⊎◌, inl, inr, ◌∙◌, sym, ap, some, List, length,
  get_elem?, update, replicate, arith, subst,
}
use linux_project.Ftl.{
  Page, ff, count_ff, copy_pages, clear, Device, find_empty, page_of, rewrite_block, write, Works,
  IsFlash,
}
use linux_project.Ftl.Copying.{length-copy_pages, length-clear}
use linux_project.Ftl.Moves.{moved, moved_behind, moved_lem}
use linux_project.Ftl.Empty.{
  count_ff-replicate, count_block_full, count_block_empty, find_empty-cases,
}

-- The page is there, and not empty.
abbrev pub Used : Device → List Page → ℕ → Type 0
Used d flash ppn = (p : Page) × (get_elem? flash ppn ≡ some p) × (count_ff p ≢ d.page_size)

abbrev pub BlockEmpty : Device → List Page → ℕ → Type 0
BlockEmpty d flash b =
    (k : ℕ)
    → k < d.page_num
    → get_elem? flash (b * d.page_num + k) ≡ some (replicate d.page_size ff)

-- `rewrite_block` goes through `moved`, for a driver that works.
rewrite_block-moved :
    (d : Device) (flash : List Page) (blocks ppn : ℕ) (page : Page)
    → Works d
    → IsFlash d flash blocks
    → ppn < length flash
    → rewrite_block d flash ppn page
      ≡ moved flash d.page_num
          (ppn / 4 * d.page_num)
          (find_empty d blocks 0 flash * d.page_num)
          (ppn % 4)
          (replicate d.page_size ff)
          page
unfolding rewrite_block
rewrite_block-moved d flash blocks ppn page w f lt =
    let n : length flash / d.page_num ≡ blocks = rw (f.size, w.four) (omega arith) in
    let there : ppn / 4 * d.page_num + ppn % 4 ≡ ppn = rw w.four (omega arith) in
    rw (n, there)
      (ap
        (λ file.
          clear d.page_num (find_empty d blocks 0 flash * d.page_num) (replicate d.page_size ff) (
            copy_pages d.page_num 0 (ppn % 4) (find_empty d blocks 0 flash * d.page_num)
              (ppn / 4 * d.page_num) file))
        (w.writes ppn page _ (
          omega (
            arith,
            length-clear d.page_num (ppn / 4 * d.page_num) (replicate d.page_size ff) (
                copy_pages d.page_num 0 (ppn % 4) (ppn / 4 * d.page_num)
                  (find_empty d blocks 0 flash * d.page_num) flash),
            length-copy_pages d.page_num 0 (ppn % 4) (ppn / 4 * d.page_num)
                (find_empty d blocks 0 flash * d.page_num) flash,
          ))))

block_fits : (n b blocks len : ℕ) → n ≡ 4 → len ≡ blocks * n → b < blocks → b * n + n ≤ len
block_fits n b blocks len four size lt = rw (size, four) (omega arith)

-- An empty block for the copy: the one that the search finds, apart from the block of a used page.
spare_block :
    (d : Device) (flash : List Page) (blocks ppn : ℕ)
    → Works d
    → IsFlash d flash blocks
    → Used d flash ppn
    → (b : ℕ) → b < blocks
    → BlockEmpty d flash b
    → let c = find_empty d blocks 0 flash in (c < blocks) × (c ≢ ppn / 4) × BlockEmpty d flash c
spare_block d flash blocks ppn w f (p, at, used) b lt free =
    elim (find_empty-cases d blocks 0 flash) [
      | inr (zeroed, others) ↦ absurd (
          others b (omega arith) (omega arith) (
            count_block_empty d.page_size flash f.pages d.page_num (b * d.page_num) (λ k lo hi.
              subst (λ j. get_elem? flash j ≡ some (replicate d.page_size ff))
                {x = b * d.page_num + (k - b * d.page_num)} {y = k} (omega arith)
                (free (k - b * d.page_num) (omega arith)))
            ∙ sym w.block))
      | inl (lo, hi, full) ↦
          let c = find_empty d blocks 0 flash in
          let fits : c * d.page_num + d.page_num ≤ length flash =
            block_fits d.page_num c blocks (length flash) w.four f.size (omega arith) in
          let empty : BlockEmpty d flash c = λ k lt.
            count_block_full d.page_size flash f.pages d.page_num (c * d.page_num) fits
              (full ∙ w.block) (c * d.page_num + k) (omega arith) (omega arith) in
          (
            omega arith,
            λ same.
                let there : c * d.page_num + ppn % 4 ≡ ppn = rw (same, w.four) (omega arith) in
                let e = empty (ppn % 4) (rw w.four (omega arith)) in
                used (ground (arith, at, rw there at e, count_ff-replicate d.page_size)),
            empty,
          )
    ]

apart_of :
    (d : Device) (a b : ℕ)
    → d.page_num ≡ 4
    → a ≢ b
    → (a * d.page_num + d.page_num ≤ b * d.page_num)
      ⊎ (b * d.page_num + d.page_num ≤ a * d.page_num)
apart_of d a b four ne = rw four (ground arith)

-- `w` puts the page of the data at `ppn` and leaves every other page as it was, where the page was
-- empty, or some block of the file is, through which the others of its block are carried over.
pub write_lem :
    (d : Device) (flash : List Page) (blocks ppn : ℕ) (s t : List ℕ)
    → Works d
    → IsFlash d flash blocks
    → ppn < length flash
    → length s ≤ d.sector_size
    → length t ≤ d.spare_size
    → ((p : Page) × (get_elem? flash ppn ≡ some p) × (count_ff p ≡ d.page_size))
      ⊎ (Used d flash ppn × ((b : ℕ) × (b < blocks) × BlockEmpty d flash b))
    → write d flash ppn s t ≡ some (update flash ppn (λ _. page_of d s t))
unfolding write
write_lem d flash blocks ppn s t w f lt ls lt' (inl (p, at, free)) =
    rw (at, write) (ground (arith, ls, lt', free, w.writes ppn (page_of d s t) flash lt))
write_lem d flash blocks ppn s t w f lt ls lt' (inr ((p, at, used), (b, inside, free))) =
    let (cb, ne, empty) = spare_block d flash blocks ppn w f (p, at, used) b inside free in
    let c = find_empty d blocks 0 flash in
    let there : ppn / 4 * d.page_num + ppn % 4 ≡ ppn = rw w.four (omega arith) in
    let size4 : length flash ≡ blocks * 4 = f.size ∙ ap (λ n. blocks * n) w.four in
    let r : rewrite_block d flash ppn (page_of d s t) ≡ update flash ppn (λ _. page_of d s t) =
      rewrite_block-moved d flash blocks ppn (page_of d s t) w f lt
      ∙ moved_lem flash d.page_num (ppn / 4 * d.page_num) (c * d.page_num) (ppn % 4)
          (replicate d.page_size ff) (page_of d s t)
          (apart_of d (ppn / 4) c w.four (λ e. ne (sym e))) (rw w.four (omega arith))
          (block_fits d.page_num (ppn / 4) blocks (length flash) w.four f.size
            (omega (arith, f.size, w.four, size4)))
          (block_fits d.page_num c blocks (length flash) w.four f.size cb) empty
      ∙ ap (λ i. update flash i (λ _. page_of d s t)) there in
    rw (at, write) (ground (arith, ls, lt', used, r))

-- Where no block is empty, `w` of a used page outside of block 0 goes through block 0, and every page
-- of block 0 is lost.
pub write_loses_block :
    (d : Device) (flash : List Page) (blocks ppn : ℕ) (s t : List ℕ)
    → Works d
    → IsFlash d flash blocks
    → 4 ≤ ppn
    → ppn < length flash
    → length s ≤ d.sector_size
    → length t ≤ d.spare_size
    → Used d flash ppn
    → ((b : ℕ) → b < blocks → ¬ (BlockEmpty d flash b))
    → (flash' : List Page) × (write d flash ppn s t ≡ some flash')
      × ((k : ℕ) → k < 4 → get_elem? flash' k ≡ some (replicate d.page_size ff))
unfolding write
write_loses_block d flash blocks ppn s t w f from lt ls lt' (p, at, used) full =
    elim (find_empty-cases d blocks 0 flash) [
      | inl (lo, hi, e) ↦ absurd (
          full (find_empty d blocks 0 flash) (omega arith) λ k klt.
            count_block_full d.page_size flash f.pages d.page_num
              (find_empty d blocks 0 flash * d.page_num)
              (block_fits d.page_num (find_empty d blocks 0 flash) blocks (length flash) w.four
                f.size (omega arith))
              (e ∙ w.block) (find_empty d blocks 0 flash * d.page_num + k) (omega arith)
              (omega arith))
      | inr (zeroed, others) ↦
          let dst : find_empty d blocks 0 flash * d.page_num ≡ 0 = rw zeroed (omega arith) in
          let page = page_of d s t in
          (
            rewrite_block d flash ppn page,
            rw (at, write) (ground (arith, ls, lt', used)),
            λ k klt. rw (rewrite_block-moved d flash blocks ppn page w f lt) (
                subst
                  (λ i.
                    get_elem?
                      (moved flash d.page_num (ppn / 4 * d.page_num)
                        (find_empty d blocks 0 flash * d.page_num) (ppn % 4)
                        (replicate d.page_size ff) page)
                      i
                    ≡ some (replicate d.page_size ff))
                  {x = find_empty d blocks 0 flash * d.page_num + k} {y = k} (omega (arith, dst))
                  (moved_behind flash d.page_num (ppn / 4 * d.page_num)
                    (find_empty d blocks 0 flash * d.page_num) (ppn % 4) (replicate d.page_size ff)
                    page (omega (arith, dst, w.four)) k (omega (arith, w.four)))),
          )
    ]
