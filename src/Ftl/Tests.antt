-- ===== src/Ftl/Tests.antt =====
-- A flash memory of two blocks with small pages, and the theorems at it.
use linux_project.Base.{
  ℕ, zero, suc, ◌*◌, ◌<◌, ◌≡◌, inr, refl, some, List, [], ◌∷◌, length, get_elem?, get_or, update,
  replicate, arith, get_or_of_some,
}
use linux_project.Ftl.{
  Page, ff, count_ff, clear, Device, write, Works, IsFlash, read, printed, space, newline, create,
}
use linux_project.Ftl.Writes.{Used, BlockEmpty, write_lem, write_loses_block}
use linux_project.Ftl.Reads.{read-write}

-- Pages of two bytes for the sector and one spare byte.
abbrev small : Device
small = record {
  sector_size = 2;
  spare_size = 1;
  page_size = 3;
  page_num = 4;
  block_size = 12;
  dd_write = λ ppn p flash. update flash ppn (λ _. p);
  dd_read = λ ppn flash. get_or flash ppn [];
  dd_erase = λ pbn flash. clear 4 (pbn * 4) (replicate 3 ff) flash;
}

small-Works : Works small
small-Works = record {
  four = refl;
  page = refl;
  block = refl;
  writes = λ ppn p flash lt. refl;
  reads = λ ppn {p} flash at. get_or_of_some flash ppn [] at;
}

-- A page of block 1 has been written.
abbrev once : List Page
once = update (create small 2) 5 (λ _. 65 ∷ 66 ∷ 67 ∷ [])

pages_of_three : (i : ℕ) (p : Page) → get_elem? once i ≡ some p → length p ≡ 3
unfolding create
pages_of_three zero p e = ground arith
pages_of_three (suc zero) p e = ground arith
pages_of_three (suc (suc zero)) p e = ground arith
pages_of_three (suc (suc (suc zero))) p e = ground arith
pages_of_three (suc (suc (suc (suc zero)))) p e = ground arith
pages_of_three (suc (suc (suc (suc (suc zero))))) p e = ground arith
pages_of_three (suc (suc (suc (suc (suc (suc zero)))))) p e = ground arith
pages_of_three (suc (suc (suc (suc (suc (suc (suc zero))))))) p e = ground arith
pages_of_three (suc (suc (suc (suc (suc (suc (suc (suc i)))))))) p e = absurd (ground arith)

once-IsFlash : IsFlash small once 2
unfolding create
once-IsFlash = record { size = refl; pages = pages_of_three }

once-Used : Used small once 5
unfolding create count_ff
once-Used = (_, refl, omega arith)

block_0-BlockEmpty : BlockEmpty small once 0
unfolding create
block_0-BlockEmpty zero lt = refl
block_0-BlockEmpty (suc zero) lt = refl
block_0-BlockEmpty (suc (suc zero)) lt = refl
block_0-BlockEmpty (suc (suc (suc zero))) lt = refl
block_0-BlockEmpty (suc (suc (suc (suc k)))) lt = absurd (omega arith)

write_lem_example :
    write small once 5 (70 ∷ []) (71 ∷ []) ≡ some (update once 5 (λ _. 70 ∷ ff ∷ 71 ∷ []))
unfolding create
write_lem_example =
    write_lem small once 2 5 (70 ∷ []) (71 ∷ []) small-Works once-IsFlash (omega arith)
      (omega arith) (omega arith) (inr (once-Used, (0, omega arith, block_0-BlockEmpty)))

read-write_example :
    (flash' : List Page) × (write small once 5 (70 ∷ []) (71 ∷ []) ≡ some flash')
    × (read small flash' 5 ≡ 70 ∷ space ∷ 71 ∷ newline ∷ [])
unfolding create printed
read-write_example =
    read-write small once 2 5 (70 ∷ []) (71 ∷ []) small-Works once-IsFlash (omega arith)
      (omega arith) (omega arith) (λ e. ground arith)
      (inr (once-Used, (0, omega arith, block_0-BlockEmpty)))

-- A page of each block has been written.
abbrev twice : List Page
twice = update once 1 (λ _. 65 ∷ 66 ∷ 67 ∷ [])

twice-IsFlash : IsFlash small twice 2
unfolding create
twice-IsFlash = record { size = refl; pages = pages }
  where
    pages : (i : ℕ) (p : Page) → get_elem? twice i ≡ some p → length p ≡ 3
    pages zero p e = pages_of_three 0 p e
    pages (suc zero) p e = ground arith
    pages (suc (suc i)) p e = pages_of_three (suc (suc i)) p e

no_block-BlockEmpty : (b : ℕ) → b < 2 → ¬ (BlockEmpty small twice b)
unfolding create
no_block-BlockEmpty zero lt free = let e = free 1 (omega arith) in ground arith
no_block-BlockEmpty (suc zero) lt free = let e = free 1 (omega arith) in ground arith
no_block-BlockEmpty (suc (suc b)) lt free = absurd (omega arith)

write_loses_block_example :
    (flash' : List Page) × (write small twice 5 (70 ∷ []) (71 ∷ []) ≡ some flash')
    × ((k : ℕ) → k < 4 → get_elem? flash' k ≡ some (ff ∷ ff ∷ ff ∷ []))
unfolding create count_ff
write_loses_block_example =
    write_loses_block small twice 2 5 (70 ∷ []) (71 ∷ []) small-Works twice-IsFlash (omega arith)
      (omega arith) (omega arith) (omega arith) (_, refl, omega arith) no_block-BlockEmpty
