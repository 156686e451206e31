-- ===== src/Persons.antt =====
-- Project11/person.c: records of persons in a file of pages, and the list of the deleted ones.
-- The sizes of a page and of a record are in person.h, which the repository does not hold.
mod Packing
mod Bytes
mod Slots
mod Tests
use linux_project.Base.{
  ℕ, zero, suc, ◌+◌, ◌*◌, ◌-◌, ◌/◌, ◌%◌, Bool, true, false, ◌&&◌, Option, none, some, List, [], ◌∷◌,
  ◌++◌, ltb, ◌==◌, if◌then◌else◌, length, get_or, set, take, drop, replicate, ◌>>=◌, strncpy,
  c_string, same_string, next_token,
}
use linux_project.Base.Int.{ℤ, pos, negsuc, eqb_ℤ, pos_part, ◌+ℤ◌, ltb_ℤ}

abbrev pub mark : ℕ
mark = 35

-- `Person`
pub record Person : Type 0 where
  pub sn : List ℕ
  pub name : List ℕ
  pub age : List ℕ
  pub addr : List ℕ
  pub phone : List ℕ
  pub email : List ℕ

-- `Header`
pub record Header : Type 0 where
  pub pagenum : ℕ
  pub recordnum : ℕ
  pub depage : ℤ
  pub derecord : ℤ

-- An `int` as `memcpy` moves it: four bytes, the lowest first.
unfoldable pub bytes_of : ℕ → List ℕ
bytes_of n = n % 256 ∷ n / 256 % 256 ∷ n / 65536 % 256 ∷ n / 16777216 % 256 ∷ []

unfoldable pub int_bytes : ℤ → List ℕ
int_bytes (pos n) = bytes_of n
int_bytes (negsuc n) = bytes_of (4294967295 - n)

abbrev pub byte_at : List ℕ → ℕ → ℕ
byte_at s i = get_or s i 0

unfoldable pub int_at : List ℕ → ℕ → ℤ
int_at s i =
    let u =
      byte_at s i
      + 256 * byte_at s (i + 1)
      + 65536 * byte_at s (i + 2)
      + 16777216 * byte_at s (i + 3) in
    if ltb u 2147483648 then pos u else negsuc (4294967295 - u)

-- `memcpy(buf + at, s, length)`
unfoldable pub overlay : List ℕ → ℕ → List ℕ → List ℕ
overlay page at s = take at page ++ (s ++ drop (at + length s) page)

-- `strcat(recordbuf, field); strcat(recordbuf, "#")`, for one field after the other.
abbrev pub fields : List (List ℕ) → List ℕ
fields [] = []
fields (f ∷ fs) = f ++ (mark ∷ fields fs)

-- `pack(recordbuf, p)`, behind the string that `malloc` left in the buffer.
unfoldable pub pack : List ℕ → Person → List ℕ
pack junk p = junk ++ fields (p.sn ∷ p.name ∷ p.age ∷ p.addr ∷ p.phone ∷ p.email ∷ [])

abbrev pub leading : List ℕ → List ℕ
leading [] = []
leading (c ∷ s) = if c == mark then c ∷ leading s else []

-- `unpack(recordbuf, p)`; where `strtok` finds no further field, `strcpy` from `NULL` fails.
unfoldable pub unpack : ℕ → List ℕ → Option Person
unpack record_size recordbuf = do
  let temp = c_string (strncpy record_size recordbuf)
  (sn, rest) ← next_token mark temp
  (name, rest) ← next_token mark rest
  (age, rest) ← next_token mark rest
  (addr, rest) ← next_token mark rest
  (phone, rest) ← next_token mark rest
  (email, rest) ← next_token mark rest
  some (record {
    sn = leading temp ++ sn;
    name = name;
    age = age;
    addr = addr;
    phone = phone;
    email = email;
  })

module _ (page_size record_size : ℕ) where
  abbrev pub File : Type 0
  File = List (List ℕ)

  -- The first page: four numbers, and 0xff behind them.
  unfoldable pub header_page : Header → List ℕ
  header_page h =
      int_bytes (pos h.pagenum)
      ++ (int_bytes (pos h.recordnum)
          ++ (int_bytes h.depage ++ (int_bytes h.derecord ++ replicate (page_size - 16) 255)))

  unfoldable pub read_header : File → Header
  read_header file =
      let page = get_or file 0 [] in
      record {
        pagenum = pos_part (int_at page 0);
        recordnum = pos_part (int_at page 4);
        depage = int_at page 8;
        derecord = int_at page 12;
      }

  -- `main` with an empty file
  unfoldable pub new_file : File
  new_file =
      header_page (record { pagenum = 1; recordnum = 0; depage = negsuc 0; derecord = negsuc 0 })
      ∷ []

  -- A page is filled by 0xff before the first record is put there.
  abbrev pub empty_page : List ℕ
  empty_page = replicate page_size 255

  abbrev pub write_page : File → ℕ → List ℕ → File
  write_page file i page = set file i page

  -- The branches of `insert`: into a new page, into the second place of the last page, and into the
  -- place that was deleted last.
  unfoldable pub insert_new : File → Header → List ℕ → File
  insert_new file h recordbuf =
      let file' = file ++ (empty_page ∷ []) in
      let page = overlay (get_or file' h.pagenum []) 0 recordbuf in
      set (write_page file' h.pagenum page) 0
        (header_page (record h { pagenum = h.pagenum + 1; recordnum = h.recordnum + 1 }))

  unfoldable pub insert_second : File → Header → List ℕ → File
  insert_second file h recordbuf =
      let last = h.pagenum - 1 in
      let page = overlay (get_or file last []) record_size recordbuf in
      set (write_page file last page) 0 (header_page (record h { recordnum = h.recordnum + 1 }))

  unfoldable pub insert_deleted : File → Header → List ℕ → File
  insert_deleted file h recordbuf =
      let pn = pos_part h.depage in
      let at = record_size * pos_part h.derecord in
      let page = get_or file pn [] in
      let h' = record h { depage = int_at page (at + 1); derecord = int_at page (at + 5) } in
      set (write_page file pn (overlay page at recordbuf)) 0 (header_page h')

  -- `insert(fp, p)`
  unfoldable pub insert : List ℕ → File → Person → File
  insert junk file p =
      let recordbuf = pack junk p in
      let h = read_header file in
      if eqb_ℤ h.depage (negsuc 0) && eqb_ℤ h.derecord (negsuc 0)
      then if h.recordnum % (page_size / record_size) == 0
        then insert_new file h recordbuf
        else insert_second file h recordbuf
      else insert_deleted file h recordbuf

  -- `*`, and the place that was deleted before
  unfoldable pub deleted_mark : Header → List ℕ
  deleted_mark h = 42 ∷ (int_bytes h.depage ++ int_bytes h.derecord)

  -- The inner loop of `delete`, over the places of a page: the place with the number `sn`.
  unfoldable pub find_in_page : List ℕ → List ℕ → (j left : ℕ) → Option (Option ℕ)
  find_in_page page sn j zero = some none
  find_in_page page sn j (suc left) = do
    p ← unpack record_size (take record_size (drop (j * record_size) page))
    if same_string p.sn sn then some (some j) else find_in_page page sn (j + 1) left

  -- The outer loop, over the pages.
  unfoldable pub find_record : File → List ℕ → (i left : ℕ) → Option (Option (ℕ × ℕ))
  find_record file sn i zero = some none
  find_record file sn i (suc left) = do
    found ← find_in_page (get_or file i []) sn 0 (page_size / record_size)
    elim found [ some j ↦ some (some (i, j)) | none ↦ find_record file sn (i + 1) left ]

  -- The record at the place is marked, and the header names the place.
  unfoldable pub delete_at : File → Header → ℕ → ℕ → File
  delete_at file h i j =
      let page = overlay (get_or file i []) (j * record_size) (deleted_mark h) in
      set (write_page file i page) 0 (header_page (record h { depage = pos i; derecord = pos j }))

  -- `delete(fp, sn)`
  unfoldable pub delete : File → List ℕ → Option File
  delete file sn = do
    let h = read_header file
    found ← find_record file sn 1 (h.pagenum - 1)
    elim found [ some (i, j) ↦ some (delete_at file h i j) | none ↦ some file ]
