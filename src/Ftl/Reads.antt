-- ===== src/Ftl/Reads.antt =====
-- What `r` of Project10/ftlmgr.c prints of a page that `w` has written.
use linux_project.Base.{
  append-nil, ℕ, zero, suc, ◌-◌, ◌<◌, ◌≤◌, ◌≡◌, ◌≢◌, ◌⊎◌, refl, ◌∙◌, sym, ap, some, List, [], ◌∷◌,
  ◌++◌, length, get_elem?, update, replicate, arith, get_elem?-update_self, length-append,
  get_elem?_of_lt, take, drop,
}
use linux_project.Ftl.{
  Page, ff, filled, count_ff, Device, page_of, write, Works, IsFlash, read, printed, space, newline,
}
use linux_project.Ftl.Empty.{count_ff_full}
use linux_project.Ftl.Writes.{Used, BlockEmpty, write_lem}

length-replicate : (n b : ℕ) → length (replicate n b) ≡ n
length-replicate zero b = refl
length-replicate (suc n) b = ap suc (length-replicate n b)

length-filled : (n : ℕ) (bs : List ℕ) → length bs ≤ n → length (filled n bs) ≡ n
length-filled n bs le =
    length-append bs (replicate (n - length bs) ff)
    ∙ omega (arith, length-replicate (n - length bs) ff)

printed-replicate : (n : ℕ) → printed (replicate n ff) ≡ []
unfolding printed
printed-replicate zero = refl
printed-replicate (suc n) = printed-replicate n

-- The bytes behind the data are not printed.
printed-filled : (n : ℕ) (bs : List ℕ) → printed (filled n bs) ≡ printed bs
unfolding printed
printed-filled n bs = go (n - length bs) bs
  where
    go : (m : ℕ) (bs : List ℕ) → printed (bs ++ replicate m ff) ≡ printed bs
    go m [] = printed-replicate m
    go m (b ∷ bs) = ground (arith, go m bs)

take-append : (n : ℕ) (xs ys : List ℕ) → length xs ≡ n → take n (xs ++ ys) ≡ xs
take-append zero [] ys e = refl
take-append zero (x ∷ xs) ys e = absurd (omega arith)
take-append (suc n) [] ys e = absurd (omega arith)
take-append (suc n) (x ∷ xs) ys e = ap (λ zs. x ∷ zs) (take-append n xs ys (omega arith))

drop-append : (n : ℕ) (xs ys : List ℕ) → length xs ≡ n → drop n (xs ++ ys) ≡ ys
drop-append zero [] ys e = refl
drop-append zero (x ∷ xs) ys e = absurd (omega arith)
drop-append (suc n) [] ys e = absurd (omega arith)
drop-append (suc n) (x ∷ xs) ys e = drop-append n xs ys (omega arith)

printed-append_nil : (xs ys : List ℕ) → printed (xs ++ ys) ≡ [] → printed xs ≡ []
unfolding printed
printed-append_nil [] ys e = refl
printed-append_nil (x ∷ xs) ys e = ground (arith, printed-append_nil xs ys)

-- The page is the sector and the spare area, with nothing behind them.
page_of-append :
    (d : Device) (s t : List ℕ)
    → Works d
    → length s ≤ d.sector_size
    → length t ≤ d.spare_size
    → page_of d s t ≡ filled d.sector_size s ++ filled d.spare_size t
page_of-append d s t w ls lt =
    let whole = filled d.sector_size s ++ filled d.spare_size t in
    let size : length whole ≡ d.page_size =
      length-append (filled d.sector_size s) (filled d.spare_size t)
      ∙ omega (arith, length-filled d.sector_size s ls, length-filled d.spare_size t lt, w.page) in
    let rest : d.page_size - length whole ≡ 0 = omega (arith, size) in
    ap (λ n. whole ++ replicate n ff) rest ∙ append-nil whole

take_all : (n : ℕ) (xs : List ℕ) → length xs ≡ n → take n xs ≡ xs
take_all n xs e = ap (take n) (sym (append-nil xs)) ∙ take-append n xs [] e

read_page :
    (d : Device) (flash : List Page) (ppn : ℕ) (s t : List ℕ)
    → length s ≤ d.sector_size
    → length t ≤ d.spare_size
    → printed s ≢ []
    → d.dd_read ppn flash ≡ filled d.sector_size s ++ filled d.spare_size t
    → read d flash ppn ≡ printed s ++ space ∷ printed t ++ newline ∷ []
unfolding read
read_page d flash ppn s t ls lt some_byte e =
    let sector = filled d.sector_size s in
    let spare = filled d.spare_size t in
    let front : take d.sector_size (sector ++ spare) ≡ sector =
      take-append d.sector_size sector spare (length-filled d.sector_size s ls) in
    let behind : take d.spare_size (drop d.sector_size (sector ++ spare)) ≡ spare =
      ap (take d.spare_size)
        (drop-append d.sector_size sector spare (length-filled d.sector_size s ls))
      ∙ take_all d.spare_size spare (length-filled d.spare_size t lt) in
    rw (e, read)
      (ground (
        arith,
        front,
        behind,
        printed-filled d.sector_size s,
        printed-filled d.spare_size t,
        shown,
      ))
  where
    shown :
        count_ff (filled d.sector_size s ++ filled d.spare_size t)
        ≢ length (filled d.sector_size s ++ filled d.spare_size t)
    shown full =
        let whole = filled d.sector_size s ++ filled d.spare_size t in
        let none_printed : printed whole ≡ [] =
          ap printed (count_ff_full whole full) ∙ printed-replicate (length whole) in
        some_byte (
          sym (printed-filled d.sector_size s)
          ∙ printed-append_nil (filled d.sector_size s) (filled d.spare_size t) none_printed)

-- `r` of a page that `w` has written prints the bytes of the sector and of the spare area, without
-- their 0xFF bytes, where the sector has others.
pub read-write :
    (d : Device) (flash : List Page) (blocks ppn : ℕ) (s t : List ℕ)
    → Works d
    → IsFlash d flash blocks
    → ppn < length flash
    → length s ≤ d.sector_size
    → length t ≤ d.spare_size
    → printed s ≢ []
    → ((p : Page) × (get_elem? flash ppn ≡ some p) × (count_ff p ≡ d.page_size))
      ⊎ (Used d flash ppn × ((b : ℕ) × (b < blocks) × BlockEmpty d flash b))
    → (flash' : List Page) × (write d flash ppn s t ≡ some flash')
      × (read d flash' ppn ≡ printed s ++ space ∷ printed t ++ newline ∷ [])
read-write d flash blocks ppn s t w f inside ls lt some_byte room =
    let flash' = update flash ppn (λ _. page_of d s t) in
    let at : get_elem? flash' ppn ≡ some (page_of d s t) =
      get_elem?-update_self flash ppn (λ _. page_of d s t) (get_elem?_of_lt flash ppn inside).1 in
    (
      flash',
      write_lem d flash blocks ppn s t w f inside ls lt room,
      read_page d flash' ppn s t ls lt some_byte
          (w.reads ppn flash' at ∙ page_of-append d s t w ls lt),
    )
