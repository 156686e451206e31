-- ===== src/Ftl.antt =====
-- Project10/ftlmgr.c: the command line over a flash memory file: create, write, read and erase.
-- The device driver and the sizes of flash.h are not in the repository: they are fields of `Device`.
pub mod Copying
pub mod Moves
pub mod Empty
pub mod Writes
pub mod Reads
mod Tests
use linux_project.Base.{
  ℕ, zero, suc, ◌+◌, ◌-◌, ◌*◌, ◌/◌, ◌%◌, ◌<◌, ◌≤◌, ◌≡◌, Bool, true, false, not, ◌&&◌, ◌||◌, Option,
  none, some, List, [], ◌∷◌, ◌++◌, ◌==◌, ltb, if◌then◌else◌, length, get_elem?, get_or, update,
  replicate, take, drop,
}

-- A page is its bytes, and the file the pages one behind the other.
abbrev pub Page : Type 0
Page = List ℕ

-- flash.h and fdevicedriver.c
pub record Device : Type 0 where
  pub sector_size : ℕ
  pub spare_size : ℕ
  pub page_size : ℕ
  pub page_num : ℕ
  pub block_size : ℕ
  pub dd_write : ℕ → Page → List Page → List Page
  pub dd_read : ℕ → List Page → Page
  pub dd_erase : ℕ → List Page → List Page

-- `(char)0xFF`
abbrev pub ff : ℕ
ff = 255

-- `if(pagebuf[i]==(char)0xFF) count++;`
unfoldable pub count_ff : Page → ℕ
count_ff [] = 0
count_ff (b ∷ bs) = let count = count_ff bs in if b == ff then count + 1 else count

-- The buffer of a size that is filled with 0xFF and then gets the data in front.
abbrev pub filled : ℕ → List ℕ → List ℕ
filled size bytes = bytes ++ replicate (size - length bytes) ff

-- The page that is written: the sector, and behind it the spare area.
abbrev pub page_of : Device → List ℕ → List ℕ → Page
page_of d sectordata sparedata =
    filled d.page_size (filled d.sector_size sectordata ++ filled d.spare_size sparedata)

-- The 0xFF bytes of the pages from index `i` on, for the rounds that are left.
unfoldable pub count_block : ℕ → ℕ → List Page → ℕ
count_block zero i flash = 0
count_block (suc n) i flash = count_ff (get_or flash i []) + count_block n (i + 1) flash

-- The search for an empty block, from block `b` on: `copyblock`, which is 0 where there is none.
unfoldable pub find_empty : Device → ℕ → ℕ → List Page → ℕ
find_empty d zero b flash = 0
find_empty d (suc n) b flash =
    let rest = find_empty d n (b + 1) flash in
    if count_block d.page_num (b * d.page_num) flash == d.block_size then b else rest

-- The copying loops: page `i` of the block at `src` to the block at `dst`, but for `copypage`.
unfoldable pub copy_pages : ℕ → ℕ → ℕ → ℕ → ℕ → List Page → List Page
copy_pages zero i copypage src dst flash = flash
copy_pages (suc n) i copypage src dst flash =
    let copied = update flash (dst + i) (λ _. get_or flash (src + i) []) in
    copy_pages n (i + 1) copypage src dst (if i == copypage then flash else copied)

-- `fwrite` of `emptybuf`: the pages from index `i` on.
unfoldable pub clear : ℕ → ℕ → Page → List Page → List Page
clear zero i empty flash = flash
clear (suc n) i empty flash = clear n (i + 1) empty (update flash i (λ _. empty))

-- The branch of `w` where the page is not empty: through an empty block, or block 0 if there is none.
unfoldable pub rewrite_block : Device → List Page → ℕ → Page → List Page
rewrite_block d flash ppn page =
    let blocks = length flash / d.page_num in
    let src = ppn / 4 * d.page_num in
    let dst = find_empty d blocks 0 flash * d.page_num in
    let copypage = ppn % 4 in
    let empty = replicate d.page_size ff in
    let saved = copy_pages d.page_num 0 copypage src dst flash in
    let written = d.dd_write ppn page (clear d.page_num src empty saved) in
    let back = copy_pages d.page_num 0 copypage dst src written in clear d.page_num dst empty back

-- `op=='w'`. `none`: the page lies behind the end of the file, and C goes on with an uninitialised
-- buffer; or the data overflow theirs.
unfoldable pub write : Device → List Page → ℕ → List ℕ → List ℕ → Option (List Page)
write d flash ppn sectordata sparedata =
    let page = page_of d sectordata sparedata in
    let rewritten = rewrite_block d flash ppn page in
    elim (get_elem? flash ppn) [
      | none ↦ none
      | some old ↦
          if ltb d.sector_size (length sectordata) || ltb d.spare_size (length sparedata)
          then none
          else (if count_ff old == d.page_size
              then some (d.dd_write ppn page flash)
              else some rewritten)
    ]

-- The bytes that `printf("%c")` prints: all but 0xFF.
unfoldable pub printed : List ℕ → List ℕ
printed [] = []
printed (b ∷ bs) = let rest = printed bs in if b == ff then rest else b ∷ rest

abbrev pub space : ℕ
space = 32

abbrev pub newline : ℕ
newline = 10

-- `memcpy(buf, from, n)`
-- `op=='r'`: what is printed.
unfoldable pub read : Device → List Page → ℕ → List ℕ
read d flash ppn =
    let pagebuf = d.dd_read ppn flash in
    let sector = take d.sector_size pagebuf in
    let spare = take d.spare_size (drop d.sector_size pagebuf) in
    if count_ff pagebuf == length pagebuf
    then []
    else printed sector ++ space ∷ printed spare ++ newline ∷ []

-- `op=='c'`: a file of so many blocks, all 0xFF.
unfoldable pub create : Device → ℕ → List Page
create d blocknum = replicate (blocknum * d.page_num) (replicate d.page_size ff)

-- `op=='e'`
unfoldable pub erase : Device → List Page → ℕ → List Page
erase d flash pbn = d.dd_erase pbn flash

-- What the sources rely on: blocks of four pages, a page of a sector and its spare area, and a driver
-- that writes and reads the page that it is told.
pub record Works (d : Device) : Type 0 where
  pub four : d.page_num ≡ 4
  pub page : d.page_size ≡ d.sector_size + d.spare_size
  pub block : d.block_size ≡ d.page_num * d.page_size
  pub writes :
      (ppn : ℕ) (p : Page) (flash : List Page)
      → ppn < length flash
      → d.dd_write ppn p flash ≡ update flash ppn (λ _. p)
  pub reads :
      (ppn : ℕ) {p : Page} (flash : List Page)
      → get_elem? flash ppn ≡ some p
      → d.dd_read ppn flash ≡ p

-- A file of whole blocks and whole pages.
pub record IsFlash (d : Device) (flash : List Page) (blocks : ℕ) : Type 0 where
  pub size : length flash ≡ blocks * d.page_num
  pub pages : (i : ℕ) (p : Page) → get_elem? flash i ≡ some p → length p ≡ d.page_size
