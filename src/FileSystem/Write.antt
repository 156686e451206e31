-- ===== src/FileSystem/Write.antt =====
-- `ssufs_write` of Project5/ssufs-ops.c.
use linux_project.Base.{
  ℕ, zero, suc, ◌+◌, ◌*◌, ◌-◌, ◌/◌, ◌%◌, Bool, true, false, ◌||◌, Option, none, some, List, [], ◌∷◌,
  ◌++◌, ltb, leb, ◌==◌, if◌then◌else◌, length, get_elem?, update, take, drop, ◌>>=◌, strncpy,
  c_string,
}
use linux_project.Base.Int.{pos, ltb_ℤ, ◌-ℤ◌}
use linux_project.FileSystem.{Inode, Handle, Disk, World, is_none, advance}

abbrev pub missing : List (Option ℕ) → ℕ
missing [] = 0
missing (b ∷ bs) = if is_none b then suc (missing bs) else missing bs

abbrev pub held : List (Option ℕ) → ℕ
held [] = 0
held (b ∷ bs) = if is_none b then held bs else suc (held bs)

-- How many blocks the bytes take, from the offset in the first one on.
abbrev pub blocks_for : ℕ → ℕ → ℕ
blocks_for size n = if n % size == 0 then n / size else n / size + 1

-- The loop that splits: the first block that starts at or behind the end of the string, or 0 when no
-- block of the file does.
unfoldable pub split_length : ℕ → ℕ → (i left : ℕ) → ℕ
split_length size len i zero = 0
split_length size len i (suc left) =
    if leb len (i * size) then i else split_length size len (i + 1) left

module _ {S : Type 0} (disk : Disk S) where
  -- How many numbers of the first four blocks are -1, over the inodes from `i` on.
  unfoldable pub free_blocks : S → (i left : ℕ) → ℕ
  free_blocks s i zero = 0
  free_blocks s i (suc left) =
      missing (take 4 (disk.read_inode s (some i)).direct_blocks) + free_blocks s (i + 1) left

  -- The string in `buf2`: what is written, behind what the block has before the offset and before what
  -- it has after the end. `junk` is what `malloc` left in the buffer. Where the end is behind the block,
  -- `strncat` reads behind `emt`, with a negative length: `none`.
  unfoldable pub merged :
      S → Inode → Option ℕ → (offset nbytes : ℕ) → (buf junk : List ℕ) → Option (List ℕ)
  merged s inode block offset nbytes buf junk =
      let off = offset % disk.block_size in
      let emt = disk.read_block s block in
      let tail = c_string (drop (off + nbytes) emt) in
      let front = c_string (strncpy off emt ++ drop off junk) ++ take nbytes (c_string buf) in
      if off == 0
      then some (c_string (strncpy nbytes (strncpy nbytes buf) ++ drop nbytes junk))
      else if ltb_ℤ (pos (offset + nbytes)) inode.file_size
      then (if leb (off + nbytes) disk.block_size
          then some (front ++ take (disk.block_size - off - nbytes) tail)
          else none)
      else some front

  -- The loop that writes the blocks, from block `i` of the string to block `cnt` of the file: the disk,
  -- and the numbers of the blocks, or `none` where no block is free.
  unfoldable pub write_blocks :
      S → List (Option ℕ) → List ℕ → (i left cnt : ℕ) → Option (S × Option (List (Option ℕ)))
  write_blocks s blocks text i zero cnt = some (s, some blocks)
  write_blocks s blocks text i (suc left) cnt = do
    block ← get_elem? blocks cnt
    let (s', datanum) = if is_none block then disk.alloc_block s else (s, block)
    elim datanum [
      | none ↦ some (s', none)
      | some n ↦
          let chunk = strncpy disk.block_size (drop (i * disk.block_size) text) in
          let blocks' = update blocks cnt (λ b. some n) in
          let s'' = disk.write_block s' n chunk in
          let rest = write_blocks s'' blocks' text (i + 1) left (cnt + 1) in
          if ltb disk.max_file_size (cnt + 1) then some (s'', some blocks') else rest
    ]

  -- The tests after that of the file's size, before anything is written; true stands for `return -1`.
  unfoldable pub refuses : World disk → Handle → Option ℕ → ℕ → List ℕ → Bool
  refuses w h block nbytes buf =
      let cnt = h.offset % disk.block_size in
      let num = free_blocks w.store 0 disk.num_inodes in
      let num' = if is_none block then num else num + 1 in
      ltb num' (blocks_for disk.block_size (cnt + nbytes)) || ltb (length (c_string buf)) nbytes

  -- The string is split and written, and the inode and the offset follow.
  unfoldable pub write_text :
      World disk
      → ℕ
      → Handle
      → Inode
      → Option ℕ
      → ℕ
      → (buf junk : List ℕ) → Option (World disk × Bool)
  write_text w fh h inode block nbytes buf junk = do
    buf2 ← merged w.store inode block h.offset nbytes buf junk
    let len = split_length disk.block_size (length buf2) 0 disk.max_file_size
    (s, done) ← write_blocks w.store inode.direct_blocks buf2 0 len (h.offset / disk.block_size)
    elim done [
      | none ↦ some (record w { store = s }, false)
      | some blocks ↦
          let size = disk.block_size * held (take disk.max_file_size blocks) + length buf2 in
          let inode' = record inode {
            direct_blocks = blocks;
            file_size = pos size -ℤ pos disk.block_size;
          } in
          some (
            record (advance disk w fh nbytes) { store = disk.write_inode s h.inode_number inode' },
            true,
          )
    ]

  -- `ssufs_write(fh, buf, nbytes)`; true is its 0, false its -1.
  unfoldable pub write :
      World disk → (fh nbytes : ℕ) → (buf junk : List ℕ) → Option (World disk × Bool)
  write w fh nbytes buf junk = do
    h ← get_elem? w.handles fh
    if ltb (4 * disk.block_size) (h.offset + nbytes) then some (w, false) else do
      let inode = disk.read_inode w.store h.inode_number
      let cnt = h.offset / disk.block_size
      block ← get_elem? inode.direct_blocks cnt
      if refuses w h block nbytes buf
          then some (w, false)
          else write_text w fh h inode block nbytes buf junk
