-- ===== src/FileSystem.antt =====
-- Project5/ssufs-ops.c: files on a disk of inodes and blocks, behind file handles.
-- The disk itself (ssufs-disk) and the header ssufs-ops.h are not in the repository: a `Disk` has the
-- calls and the sizes that this file uses. A number that is -1 in C is `none` here.
mod Write
mod Handles
mod Offsets
mod Reading
mod Lost
mod Tests
use linux_project.Base.{
  has_char, ◌&&◌, ℕ, zero, suc, ◌+◌, ◌*◌, ◌-◌, ◌/◌, ◌%◌, Bool, true, false, Option, none, some,
  List, [], ◌∷◌, ◌++◌, ltb, leb, ◌==◌, if◌then◌else◌, length, get_elem?, update, take, drop, ◌>>=◌,
  strncpy, c_string,
}
use linux_project.Base.Int.{ℤ, pos, ltb_ℤ, eqb_ℤ, ◌+ℤ◌, ◌-ℤ◌, negsuc, pos_part}

-- `struct inode_t`
pub record Inode : Type 0 where
  pub status : ℕ
  pub name : List ℕ
  pub file_size : ℤ
  pub direct_blocks : List (Option ℕ)

-- `struct filehandle_t`
pub record Handle : Type 0 where
  pub inode_number : Option ℕ
  pub offset : ℕ

-- The calls of the disk, and the sizes of its header.
pub record Disk (S : Type 0) : Type 0 where
  pub open_namei : S → List ℕ → Option ℕ
  pub alloc_inode : S → S × Option ℕ
  pub free_inode : S → ℕ → S
  pub read_inode : S → Option ℕ → Inode
  pub write_inode : S → Option ℕ → Inode → S
  pub read_block : S → Option ℕ → List ℕ
  pub write_block : S → ℕ → List ℕ → S
  pub alloc_block : S → S × Option ℕ
  pub block_size : ℕ
  pub max_file_size : ℕ
  pub num_inodes : ℕ
  pub in_use : ℕ

abbrev pub is_none : Option ℕ → Bool
is_none none = true
is_none (some n) = false

-- `ssufs_allocFileHandle()`, from the handle `i` on
unfoldable pub alloc_file_handle : List Handle → ℕ → Option ℕ
alloc_file_handle [] i = none
alloc_file_handle (h ∷ hs) i =
    if is_none h.inode_number then some i else alloc_file_handle hs (i + 1)

-- The loop of `ssufs_open`: the handles, and `cnt`, how many were in use before the free one.
unfoldable pub open_loop : List Handle → ℕ → List Handle × ℕ
open_loop [] num = ([], 0)
open_loop (h ∷ hs) num =
    let (hs', cnt) = open_loop hs num in
    if is_none h.inode_number
    then (record { inode_number = some num; offset = 0 } ∷ hs, 0)
    else (h ∷ hs', suc cnt)

module _ {S : Type 0} (disk : Disk S) where
  -- `file_handle_array`, and the disk.
  pub record World : Type 0 where
    pub handles : List Handle
    pub store : S

  -- The inode that `ssufs_create` fills in: `memcpy` copies as many bytes of the name as a pointer has,
  -- and the block numbers stay as `malloc` left them.
  unfoldable pub created : Inode → List ℕ → Inode
  created fresh filename = record fresh {
    name = take 8 filename ++ drop 8 fresh.name;
    status = disk.in_use;
    file_size = pos 0;
  }

  -- `ssufs_create(filename)`
  unfoldable pub create : World → Inode → List ℕ → World × Option ℕ
  create w fresh filename = elim (disk.open_namei w.store filename) [
    | some n ↦ (w, none)
    | none ↦
        let (s, num) = disk.alloc_inode w.store in
        elim num [
          | none ↦ (record w { store = s }, none)
          | some n ↦
              (record w { store = disk.write_inode s (some n) (created fresh filename) }, some n)
        ]
  ]

  -- `ssufs_delete(filename)`
  unfoldable pub delete : World → List ℕ → World
  delete w filename = elim (disk.open_namei w.store filename) [
    | none ↦ w
    | some n ↦ record w { store = disk.free_inode w.store n }
  ]

  -- `ssufs_open(filename)`
  unfoldable pub open_file : World → List ℕ → World × Option ℕ
  open_file w filename = elim (disk.open_namei w.store filename) [
    | none ↦ (w, none)
    | some num ↦
        let (hs, cnt) = open_loop w.handles num in
        (record w { handles = hs }, if cnt == length w.handles then none else some num)
  ]

  -- `ssufs_close(file_handle)`
  unfoldable pub close : World → ℕ → World
  close w fh = record w {
    handles = update w.handles fh (λ h. record { inode_number = none; offset = 0 });
  }

  -- `file_handle_array[fh].offset += n`
  abbrev pub advance : World → ℕ → ℕ → World
  advance w fh n = record w {
    handles = update w.handles fh (λ h. record h { offset = h.offset + n });
  }

  -- `strcat(buf3, buf2)`: the string of a block behind the one in `buf3`. A block without a NUL is read
  -- behind its end, and `buf3` has room for four blocks.
  unfoldable pub strcat : List ℕ → List ℕ → Option (List ℕ)
  strcat buf3 block =
      if has_char 0 block && ltb (length buf3 + length (c_string block)) (4 * disk.block_size)
      then some (buf3 ++ c_string block)
      else none

  -- The loop of `ssufs_read` that appends the strings of the blocks, from block `i` on.
  unfoldable pub read_blocks : S → List (Option ℕ) → (i left : ℕ) → List ℕ → Option (List ℕ)
  read_blocks s blocks i zero buf3 = some buf3
  read_blocks s blocks i (suc left) buf3 = do
    idx ← get_elem? blocks i
    buf3' ← strcat buf3 (disk.read_block s idx)
    read_blocks s blocks (i + 1) left buf3'

  -- `buf3+off`, which is behind the string where that is shorter.
  unfoldable pub behind : ℕ → List ℕ → Option (List ℕ)
  behind off buf3 = if leb off (length buf3) then some (drop off buf3) else none

  -- `ssufs_read(fh, buf, nbytes)`, with the string that `malloc` left in `buf3`: the bytes of `buf`, or
  -- `none` where it returns -1. A handle or a block that an array does not have is the outer `none`.
  unfoldable pub read : World → (fh nbytes : ℕ) → List ℕ → Option (World × Option (List ℕ))
  read w fh nbytes junk = do
    h ← get_elem? w.handles fh
    let inode = disk.read_inode w.store h.inode_number
    if ltb (4 * disk.block_size) (h.offset + nbytes)
        then some (w, none)
        else if ltb_ℤ inode.file_size (pos (h.offset + nbytes))
        then some (w, none)
        else do
          let bcnt = h.offset / disk.block_size
          buf3 ← read_blocks w.store inode.direct_blocks bcnt (disk.max_file_size - bcnt) junk
          from ← behind (h.offset % disk.block_size) buf3
          let ans = strncpy nbytes from
          some (advance w fh nbytes, some (strncpy nbytes (strncpy nbytes ans)))

  -- `ssufs_lseek(fh, nseek)`; true is its 0.
  unfoldable pub lseek : World → ℕ → ℤ → Option (World × Bool)
  lseek w fh nseek = do
    h ← get_elem? w.handles fh
    let offset = pos h.offset +ℤ nseek
    let fsize = (disk.read_inode w.store h.inode_number).file_size
    if eqb_ℤ fsize (negsuc 0)
        then some (w, false)
        else if ltb_ℤ offset (pos 0)
        then some (w, false)
        else if ltb_ℤ fsize offset
        then some (w, false)
        else some (
          record w { handles = update w.handles fh (λ g. record g { offset = pos_part offset }) },
          true,
        )
