-- ===== src/Persons/Tests.antt =====
-- Runs of Project11/person.c with pages of 40 bytes and records of 20.
use linux_project.Base.{
  ℕ, ◌≤◌, ◌≡◌, refl, some, none, List, [], ◌∷◌, ◌++◌, codes, arith, length, get_or, set, replicate,
  strncpy, c_string, next_token, All,
}
use linux_project.Base.Int.{negsuc}
use linux_project.Persons.{
  Person, Header, bytes_of, int_bytes, int_at, overlay, pack, unpack, header_page, read_header,
  new_file, insert_new, insert_second, insert, deleted_mark, find_in_page, find_record, delete_at,
  delete,
}
use linux_project.Persons.Packing.{IsField, fields_of, unpack-pack}
use linux_project.Persons.Slots.{insert-delete_at}

abbrev ann : Person
ann = record {
  sn = codes "81";
  name = codes "ann";
  age = codes "9";
  addr = codes "x";
  phone = codes "0";
  email = codes "a";
}

abbrev bob : Person
bob = record {
  sn = codes "82";
  name = codes "bob";
  age = codes "7";
  addr = codes "y";
  phone = codes "1";
  email = codes "b";
}

abbrev ann_bytes : List ℕ
ann_bytes = codes "81#ann#9#x#0#a#"

abbrev bob_bytes : List ℕ
bob_bytes = codes "82#bob#7#y#1#b#"

ann_packed : pack [] ann ≡ ann_bytes
unfolding pack
ann_packed = refl

abbrev two_header : Header
two_header = record { pagenum = 2; recordnum = 2; depage = negsuc 0; derecord = negsuc 0 }

abbrev fill : ℕ → List ℕ
fill n = replicate n 255

abbrev first_page : Header → List ℕ
first_page h = h.pagenum ∷ 0 ∷ 0 ∷ 0 ∷ h.recordnum ∷ 0 ∷ 0 ∷ 0 ∷ fill 32

abbrev two_file : List (List ℕ)
two_file = first_page two_header ∷ (ann_bytes ++ (fill 5 ++ (bob_bytes ++ fill 5))) ∷ []

two_inserted : insert 40 20 [] (insert 40 20 [] (new_file 40 20) ann) bob ≡ two_file
unfolding insert insert_new insert_second new_file read_header header_page int_bytes bytes_of int_at
    overlay pack
two_inserted = refl

ann_deleted :
    delete 40 20 two_file (codes "81")
    ≡ some (
        (2 ∷ 0 ∷ 0 ∷ 0 ∷ 2 ∷ 0 ∷ 0 ∷ 0 ∷ 1 ∷ 0 ∷ 0 ∷ 0 ∷ 0 ∷ 0 ∷ 0 ∷ 0 ∷ fill 24)
        ∷ (42 ∷ (fill 8 ++ (codes "x#0#a#" ++ (fill 5 ++ (bob_bytes ++ fill 5)))))
        ∷ [])
unfolding delete find_record find_in_page unpack delete_at deleted_mark read_header header_page
    int_bytes bytes_of int_at overlay strncpy c_string next_token
ann_deleted = refl

-- The search comes to the empty half of a page, which has no fields, and fails.
missing_fails : delete 40 20 (insert 40 20 [] (new_file 40 20) ann) (codes "99") ≡ none
unfolding insert insert_new new_file pack delete find_record find_in_page unpack read_header
    header_page int_bytes bytes_of int_at overlay strncpy c_string next_token
missing_fails = refl

ann-IsField : All IsField (fields_of ann)
ann-IsField = (
  (omega arith, ((refl, refl), ((refl, refl), tt))),
  (
    (omega arith, ((refl, refl), ((refl, refl), ((refl, refl), tt)))),
    (
      (omega arith, ((refl, refl), tt)),
      (
        (omega arith, ((refl, refl), tt)),
        ((omega arith, ((refl, refl), tt)), ((omega arith, ((refl, refl), tt)), tt)),
      ),
    ),
  ),
)

ann_fits : length (pack [] ann) ≤ 20
unfolding pack
ann_fits = omega arith

unpack-pack_example : unpack 20 (pack [] ann ++ fill 5) ≡ some ann
unpack-pack_example = unpack-pack 20 ann (fill 5) ann-IsField ann_fits

two_first : get_or two_file 0 [] ≡ header_page 40 20 two_header
unfolding header_page int_bytes bytes_of
two_first = refl

ann_long : 9 ≤ length (pack [] ann)
unfolding pack
ann_long = omega arith

insert-delete_at_example :
    insert 40 20 [] (delete_at 40 20 two_file two_header 1 1) ann
    ≡ set two_file 1 (overlay (get_or two_file 1 []) 20 (pack [] ann))
insert-delete_at_example =
    insert-delete_at 40 20 two_file two_header 1 1 [] ann
      (record {
        pagenum = omega arith;
        recordnum = omega arith;
        depage = omega arith;
        derecord = omega arith;
      })
      two_first (omega arith) (omega arith) (omega arith) (omega arith) (omega arith) ann_long
