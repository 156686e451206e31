-- ===== src/Persons/Slots.antt =====
-- The places of deleted records in Project11/person.c, and what takes them again.
use linux_project.Base.{
  ℕ, zero, suc, ◌+◌, ◌*◌, ◌-◌, ◌≤◌, ◌<◌, ◌≡◌, refl, sym, ap, false, ◌&&◌, List, [], ◌∷◌, ◌++◌,
  arith, length, get_or, set, replicate,
}
use linux_project.Base.Int.{pos, negsuc, eqb_ℤ}
use linux_project.Persons.{
  Person, Header, bytes_of, int_bytes, int_at, overlay, pack, header_page, read_header,
  insert_deleted, insert, deleted_mark, delete_at,
}
use linux_project.Persons.Bytes.{
  unsigned, IsInt, int_bytes_lem, int_at-bytes, get_or-overlay, overlay-overlay,
}

-- Numbers that an `int` of the first page can hold.
pub record IsHeader (h : Header) : Type 0 where
  pub pagenum : h.pagenum < 2147483648
  pub recordnum : h.recordnum < 2147483648
  pub depage : IsInt h.depage
  pub derecord : IsInt h.derecord

module _ (page_size record_size : ℕ) where
  header_bytes :
      (h : Header)
      → header_page page_size record_size h
        ≡ bytes_of h.pagenum
          ++ (bytes_of h.recordnum
              ++ (bytes_of (unsigned h.depage)
                  ++ (bytes_of (unsigned h.derecord) ++ replicate (page_size - 16) 255)))
  unfolding header_page int_bytes
  header_bytes h = rw (int_bytes_lem h.depage, int_bytes_lem h.derecord) refl

  header_ints :
      (h : Header)
      → IsHeader h
      → let page = header_page page_size record_size h in
        (int_at page 0 ≡ pos h.pagenum)
        × (int_at page 4 ≡ pos h.recordnum)
        × (int_at page 8 ≡ h.depage)
        × (int_at page 12 ≡ h.derecord)
  unfolding bytes_of
  header_ints h ok =
      let bytes = header_bytes h in
      (
        rw bytes (int_at-bytes _ 0 (pos h.pagenum) ok.pagenum refl refl refl refl),
        rw bytes (int_at-bytes _ 4 (pos h.recordnum) ok.recordnum refl refl refl refl),
        rw bytes (int_at-bytes _ 8 h.depage ok.depage refl refl refl refl),
        rw bytes (int_at-bytes _ 12 h.derecord ok.derecord refl refl refl refl),
      )

  read_header_lem :
      (file : List (List ℕ)) (h : Header)
      → IsHeader h
      → get_or file 0 [] ≡ header_page page_size record_size h
      → read_header page_size record_size file ≡ h
  unfolding read_header
  read_header_lem file h ok first =
      let (a, b, c, d) = header_ints h ok in rw (first, a, b, c, d) refl

  mark_bytes :
      (h : Header)
      → deleted_mark page_size record_size h
        ≡ 42 ∷ (bytes_of (unsigned h.depage) ++ bytes_of (unsigned h.derecord))
  unfolding deleted_mark
  mark_bytes h = rw (int_bytes_lem h.depage, int_bytes_lem h.derecord) refl

  length_mark : (h : Header) → length (deleted_mark page_size record_size h) ≡ 9
  unfolding bytes_of
  length_mark h = rw (mark_bytes h) refl

  -- The place that is marked holds the numbers of the place that was deleted before.
  marked_ints :
      (h : Header) (page : List ℕ) (at : ℕ)
      → IsHeader h
      → at ≤ length page
      → let marked = overlay page at (deleted_mark page_size record_size h) in
        (int_at marked (at + 1) ≡ h.depage) × (int_at marked (at + 5) ≡ h.derecord)
  unfolding bytes_of
  marked_ints h page at ok le =
      let s = 42 ∷ (bytes_of (unsigned h.depage) ++ bytes_of (unsigned h.derecord)) in
      let back : (i n : ℕ) → i < 9 → n ≡ at + i → get_or (overlay page at s) n 0 ≡ get_or s i 0 =
        (λ i n lt e. get_or-overlay page s at i n le lt e) in
      rw (mark_bytes h) (
        int_at-bytes (overlay page at s) (at + 1) h.depage ok.depage
            (back 1 (at + 1) (omega arith) (omega arith))
            (back 2 (at + 1 + 1) (omega arith) (omega arith))
            (back 3 (at + 1 + 2) (omega arith) (omega arith))
            (back 4 (at + 1 + 3) (omega arith) (omega arith)),
        int_at-bytes (overlay page at s) (at + 5) h.derecord ok.derecord
            (back 5 (at + 5) (omega arith) (omega arith))
            (back 6 (at + 5 + 1) (omega arith) (omega arith))
            (back 7 (at + 5 + 2) (omega arith) (omega arith))
            (back 8 (at + 5 + 3) (omega arith) (omega arith)),
      )

module _ {ℓ} {A : Type ℓ} where
  set-set : (xs : List A) (i : ℕ) (x y : A) → set (set xs i x) i y ≡ set xs i y
  set-set [] i x y = refl
  set-set (z ∷ xs) zero x y = refl
  set-set (z ∷ xs) (suc i) x y = ap (λ zs. z ∷ zs) (set-set xs i x y)

  get_or-set : (xs : List A) (i : ℕ) (x d : A) → i < length xs → get_or (set xs i x) i d ≡ x
  get_or-set [] i x d lt = absurd (omega arith)
  get_or-set (z ∷ xs) zero x d lt = refl
  get_or-set (z ∷ xs) (suc i) x d lt = get_or-set xs i x d (omega arith)

-- A record is deleted at a place, and another is inserted: the file is as before, its first page too,
-- but for the record at the place, where the new one stands. The numbers of the first page fit an `int`,
-- the place is in the file, and the new record is no shorter than the mark of a deleted one.
pub insert-delete_at :
    (page_size record_size : ℕ) (file : List (List ℕ)) (h : Header) (i j : ℕ) (junk : List ℕ)
    (p : Person)
    → IsHeader h
    → get_or file 0 [] ≡ header_page page_size record_size h
    → 1 ≤ i
    → i < length file
    → i < 2147483648
    → j < 2147483648
    → j * record_size ≤ length (get_or file i [])
    → 9 ≤ length (pack junk p)
    → insert page_size record_size junk (delete_at page_size record_size file h i j) p
      ≡ set file i (overlay (get_or file i []) (j * record_size) (pack junk p))
unfolding insert delete_at insert_deleted
insert-delete_at page_size record_size [] h i j junk p ok first one_le lt i_lt j_lt fits long =
    absurd (omega arith)
insert-delete_at page_size record_size (q ∷ file) h zero j junk p ok first one_le lt i_lt j_lt fits
      long =
    absurd (omega arith)
insert-delete_at page_size record_size (q ∷ file) h (suc i) j junk p ok first one_le lt i_lt j_lt
      fits long =
    let at = j * record_size in
    let page = get_or file i [] in
    let mark = deleted_mark page_size record_size h in
    let h1 = record h { depage = pos (suc i); derecord = pos j } in
    let file1 = header_page page_size record_size h1 ∷ set file i (overlay page at mark) in
    let read1 =
      read_header_lem page_size record_size file1 h1
        (record { pagenum = ok.pagenum; recordnum = ok.recordnum; depage = i_lt; derecord = j_lt })
        refl in
    let (dep, der) = marked_ints page_size record_size h page at ok fits in
    let not_fresh : (eqb_ℤ (pos (suc i)) (negsuc 0) && eqb_ℤ (pos j) (negsuc 0)) ≡ false =
      ground arith in
    let place : record_size * j ≡ at = omega arith in
    let found = get_or-set file i (overlay page at mark) [] (omega (arith, lt)) in
    let over =
      overlay-overlay page mark (pack junk p) at fits
        (omega (arith, length_mark page_size record_size h, long)) in
    let twice = set-set file i (overlay page at mark) (overlay page at (pack junk p)) in
    rw (read1, not_fresh, place, found, dep, der, over, twice)
      (ap (λ r. r ∷ set file i (overlay page at (pack junk p))) (sym first))
