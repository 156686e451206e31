-- ===== src/FileSystem/Reading.antt =====
-- What `ssufs_read` of Project5/ssufs-ops.c reads.
use linux_project.Base.{ℕ, ◌≡◌, true, Option, List, [], ◌∷◌, ◌++◌, length, has_char, c_string}
use linux_project.FileSystem.{Disk}

module _ {S : Type 0} (disk : Disk S) (s : S) where
  -- The strings of the blocks, one after the other.
  abbrev pub texts : List (Option ℕ) → List ℕ
  texts [] = []
  texts (b ∷ bs) = c_string (disk.read_block s b) ++ texts bs

  -- The block holds a string: there is a NUL in it.
  abbrev pub IsString : Option ℕ → Type 0
  IsString b =
      (length (disk.read_block s b) ≡ disk.block_size) × (has_char 0 (disk.read_block s b) ≡ true)
