-- ===== src/FileSystem/Tests.antt =====
-- Runs of Project5/ssufs-ops.c on a disk with one file of four blocks, of two bytes each.
use linux_project.Base.{
  ℕ, zero, suc, ap, subst, some_eq, ◌==◌, if◌then◌else◌, ◌≡◌, ◌⊎◌, refl, true, Option, none, some,
  List, [], ◌∷◌, update, get_or, c_string,
}
use linux_project.Base.Int.{pos, negsuc, ◌+ℤ◌, leb_ℤ}
use linux_project.FileSystem.{
  Inode, Handle, Disk, World, alloc_file_handle, open_loop, open_file, close, read, read_blocks,
  strcat, lseek,
}
use linux_project.FileSystem.Write.{free_blocks, merged, refuses, write_text, write}
use linux_project.FileSystem.Handles.{open_file_lem}
use linux_project.FileSystem.Offsets.{FileCall, FileCalls, Within, FileCalls-Within}

-- The inode, and the bytes of the blocks.
abbrev Store : Type 0
Store = Inode × List (List ℕ)

abbrev block_of : List (List ℕ) → Option ℕ → List ℕ
block_of blocks none = []
block_of blocks (some n) = get_or blocks n []

-- Inode 7 is the file; the others have no blocks.
abbrev empty_inode : Inode
empty_inode = record {
  status = 0;
  name = [];
  file_size = pos 0;
  direct_blocks = none ∷ none ∷ none ∷ none ∷ [];
}

abbrev inode_of : Store → Option ℕ → Inode
inode_of s none = empty_inode
inode_of s (some n) = if n == 7 then s.0 else empty_inode

abbrev size_two : Disk Store
size_two = record {
  open_namei = λ s name. elim name [ [] ↦ none | c ∷ cs ↦ some 7 ];
  alloc_inode = λ s. (s, none);
  free_inode = λ s n. s;
  read_inode = inode_of;
  write_inode = λ s n inode. (inode, s.1);
  read_block = λ s n. block_of s.1 n;
  write_block = λ s n bytes. (s.0, update s.1 n (λ b. bytes));
  alloc_block = λ s. (s, none);
  block_size = 2;
  max_file_size = 4;
  num_inodes = 1;
  in_use = 1;
}

abbrev full_inode : Inode
full_inode = record {
  status = 1;
  name = 97 ∷ [];
  file_size = pos 8;
  direct_blocks = some 0 ∷ some 1 ∷ some 2 ∷ some 3 ∷ [];
}

abbrev full_store : Store
full_store = (full_inode, (1 ∷ 2 ∷ []) ∷ (3 ∷ 4 ∷ []) ∷ (5 ∷ 6 ∷ []) ∷ (7 ∷ 8 ∷ []) ∷ [])

abbrev closed : Handle
closed = record { inode_number = none; offset = 0 }

abbrev opened : ℕ → Handle
opened n = record { inode_number = some 7; offset = n }

abbrev two_handles : World size_two
two_handles = record { handles = opened 3 ∷ closed ∷ []; store = full_store }

-- The number that comes back is that of the inode, not that of the handle.
opens_second :
    open_file size_two two_handles (97 ∷ [])
    ≡ (record { handles = opened 3 ∷ opened 0 ∷ []; store = full_store }, some 7)
unfolding open_file open_loop
opens_second = refl

-- A full block has no end for `strcat`.
read_full : read size_two two_handles 0 3 [] ≡ none
unfolding read read_blocks strcat c_string
read_full = refl

read_behind : read size_two two_handles 0 6 [] ≡ some (two_handles, none)
unfolding read
read_behind = refl

seek_back :
    lseek size_two two_handles 0 (negsuc 1)
    ≡ some (record { handles = opened 1 ∷ closed ∷ []; store = full_store }, true)
unfolding lseek ◌+ℤ◌
seek_back = refl

-- Two bytes over the end of a block and the start of the next, inside the file: the end of the string is
-- looked for behind the block that was read.
write_over : write size_two two_handles 0 2 (10 ∷ 11 ∷ 0 ∷ []) (0 ∷ []) ≡ none
unfolding write write_text refuses free_blocks merged c_string
write_over = refl

open_file_lem_example :
    ((alloc_file_handle two_handles.handles 0 ≡ none)
      × (open_file size_two two_handles (97 ∷ []) ≡ (two_handles, none)))
    ⊎ ((i : ℕ) × (alloc_file_handle two_handles.handles 0 ≡ some i)
        × (open_file size_two two_handles (97 ∷ []) ≡ (
          record two_handles {
            handles =
                update two_handles.handles i (λ h. record { inode_number = some 7; offset = 0 });
          },
          some 7,
        )))
open_file_lem_example = open_file_lem size_two two_handles (97 ∷ []) 7 refl

two_handles-Within : Within size_two two_handles
two_handles-Within zero h num at file =
    subst
      (λ (k : Handle).
        leb_ℤ (pos k.offset) (size_two.read_inode full_store k.inode_number).file_size ≡ true)
      (some_eq at) refl
two_handles-Within (suc zero) h num at file =
    let e = ap (λ (k : Handle). k.inode_number) (some_eq at) in cc
two_handles-Within (suc (suc i)) h num at file = cc

FileCalls-Within_example : Within size_two (close size_two two_handles 1)
FileCalls-Within_example =
    FileCalls-Within size_two
      (FileCalls.later two_handles (close size_two two_handles 1) FileCalls.start
        (FileCall.closes 1))
      two_handles-Within

-- Blocks of two bytes with strings of one.
abbrev short_store : Store
short_store = (full_inode, (1 ∷ 0 ∷ []) ∷ (3 ∷ 0 ∷ []) ∷ (5 ∷ 0 ∷ []) ∷ (7 ∷ 0 ∷ []) ∷ [])

abbrev short_strings : World size_two
short_strings = record { handles = opened 2 ∷ closed ∷ []; store = short_store }

abbrev one_handle : World size_two
one_handle = record { handles = opened 0 ∷ []; store = full_store }

abbrev seven_bytes : List ℕ
seven_bytes = 11 ∷ 12 ∷ 13 ∷ 14 ∷ 15 ∷ 16 ∷ 17 ∷ []

abbrev seven_text : List ℕ
seven_text = seven_bytes
