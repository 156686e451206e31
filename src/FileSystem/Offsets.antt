-- ===== src/FileSystem/Offsets.antt =====
-- The offsets of Project5/ssufs-ops.c, along any calls.
use linux_project.Base.{
  ◌%◌, ℕ, ◌+◌, ◌-◌, ◌*◌, ◌/◌, ◌≡◌, sym, ap, ◌∙◌, inl, inr, Bool, true, false, Option, none, some,
  List, ltb, get_elem?, update, arith, Bool-cases, Option-cases, update_inv, subst, some_eq,
}
use linux_project.Base.Int.{ℤ, pos, ltb_ℤ, leb_ℤ, eqb_ℤ, ◌+ℤ◌, negsuc, pos_part}
use linux_project.FileSystem.{
  Handle, Disk, World, open_file, close, read, lseek, read_blocks, behind,
}
use linux_project.FileSystem.Handles.{open_file_lem}

le_of_not_behind : (size : ℤ) (n : ℕ) → ltb_ℤ size (pos n) ≡ false → leb_ℤ (pos n) size ≡ true
le_of_not_behind (pos m) n h = ground arith
le_of_not_behind (negsuc m) n h = ground arith

le_of_inside :
    (size offset : ℤ)
    → ltb_ℤ offset (pos 0) ≡ false
    → ltb_ℤ size offset ≡ false
    → leb_ℤ (pos (pos_part offset)) size ≡ true
le_of_inside size (pos n) h k = le_of_not_behind size n k
le_of_inside size (negsuc n) h k = absurd (ground arith)

module _ {S : Type 0} (disk : Disk S) where
  -- A call that a user of the files makes; the file that is opened is not of a negative size.
  pub data FileCall (w : World disk) : World disk → Type 0 where
    reads :
        (fh nbytes : ℕ) (junk : List ℕ) (w' : World disk) (r : Option (List ℕ))
        → read disk w fh nbytes junk ≡ some (w', r)
        → FileCall w w'
    seeks :
        (fh : ℕ) (nseek : ℤ) (w' : World disk) (r : Bool)
        → lseek disk w fh nseek ≡ some (w', r)
        → FileCall w w'
    closes : (fh : ℕ) → FileCall w (close disk w fh)
    opens :
        (filename : List ℕ) (num : ℕ)
        → disk.open_namei w.store filename ≡ some num
        → leb_ℤ (pos 0) (disk.read_inode w.store (some num)).file_size ≡ true
        → FileCall w (open_file disk w filename).0

  pub data FileCalls (w : World disk) : World disk → Type 0 where
    start : FileCalls w w
    later : (w' w'' : World disk) → FileCalls w w' → FileCall w' w'' → FileCalls w w''

  -- No handle of a file stands behind the file's end.
  abbrev pub Within : World disk → Type 0
  Within w =
      (fh : ℕ) (h : Handle) (num : ℕ)
      → get_elem? w.handles fh ≡ some h
      → h.inode_number ≡ some num
      → leb_ℤ (pos h.offset) (disk.read_inode w.store h.inode_number).file_size ≡ true

  Within-update :
      (w : World disk) (fh : ℕ) (f : Handle → Handle)
      → Within w
      → ((h : Handle) (num : ℕ)
          → get_elem? w.handles fh ≡ some h
          → (f h).inode_number ≡ some num
          → leb_ℤ (pos (f h).offset) (disk.read_inode w.store (f h).inode_number).file_size ≡ true)
      → Within (record w { handles = update w.handles fh f })
  Within-update w fh f within new j h num at file = elim (update_inv w.handles fh f j at) [
    | inl (here, g, old, same) ↦
        subst (λ k. leb_ℤ (pos k.offset) (disk.read_inode w.store k.inode_number).file_size ≡ true)
          same (new g num (rw here old) (ap (λ k. k.inode_number) same ∙ file))
    | inr (other, old) ↦ within j h num old file
  ]

  read-Within :
      (w : World disk) (fh nbytes : ℕ) (junk : List ℕ) {w' : World disk} {r : Option (List ℕ)}
      → read disk w fh nbytes junk ≡ some (w', r)
      → Within w
      → Within w'
  unfolding read
  read-Within w fh nbytes junk {w'} e within = elim (Option-cases (get_elem? w.handles fh)) [
    | inl missing ↦ absurd (ground (arith, rw missing at e))
    | inr (h, at) ↦
        let inode = disk.read_inode w.store h.inode_number in
        let bcnt = h.offset / disk.block_size in
        let blocks =
          read_blocks disk w.store inode.direct_blocks bcnt (disk.max_file_size - bcnt) junk in
        elim (Bool-cases (ltb (4 * disk.block_size) (h.offset + nbytes))) [
          | inl big ↦ subst Within (ap (λ p. p.0) (some_eq (rw (at, big) at e))) within
          | inr fits ↦ elim (Bool-cases (ltb_ℤ inode.file_size (pos (h.offset + nbytes)))) [
            | inl past ↦ subst Within (ap (λ p. p.0) (some_eq (rw (at, fits, past) at e))) within
            | inr inside ↦ elim (Option-cases blocks) [
              | inl broken ↦ absurd (ground (arith, rw (at, fits, inside, broken) at e))
              | inr (text, got) ↦
                  elim (Option-cases (behind disk (h.offset % disk.block_size) text)) [
                    | inl over ↦ absurd (ground (arith, rw (at, fits, inside, got, over) at e))
                    | inr (from, here_at) ↦
                        subst Within
                          (ap (λ p. p.0) (some_eq (rw (at, fits, inside, got, here_at) at e)))
                          (Within-update w fh (λ g. record g { offset = g.offset + nbytes }) within
                            (λ g num here file.
                              subst
                                (λ k.
                                  leb_ℤ (pos (k.offset + nbytes))
                                    (disk.read_inode w.store k.inode_number).file_size
                                  ≡ true)
                                (some_eq (sym at ∙ here))
                                (le_of_not_behind inode.file_size (h.offset + nbytes) inside)))
                  ]
            ]
          ]
        ]
  ]

  lseek-Within :
      (w : World disk) (fh : ℕ) (nseek : ℤ) {w' : World disk} {r : Bool}
      → lseek disk w fh nseek ≡ some (w', r)
      → Within w
      → Within w'
  unfolding lseek
  lseek-Within w fh nseek e within = elim (Option-cases (get_elem? w.handles fh)) [
    | inl missing ↦ absurd (ground (arith, rw missing at e))
    | inr (h, at) ↦
        let offset = pos h.offset +ℤ nseek in
        let fsize = (disk.read_inode w.store h.inode_number).file_size in
        elim (Bool-cases (eqb_ℤ fsize (negsuc 0))) [
          | inl bad ↦ subst Within (ap (λ p. p.0) (some_eq (rw (at, bad) at e))) within
          | inr good ↦ elim (Bool-cases (ltb_ℤ offset (pos 0))) [
            | inl before ↦
                subst Within (ap (λ p. p.0) (some_eq (rw (at, good, before) at e))) within
            | inr from ↦ elim (Bool-cases (ltb_ℤ fsize offset)) [
              | inl past ↦
                  subst Within (ap (λ p. p.0) (some_eq (rw (at, good, from, past) at e))) within
              | inr inside ↦
                  subst Within (ap (λ p. p.0) (some_eq (rw (at, good, from, inside) at e))) (
                    Within-update w fh (λ g. record g { offset = pos_part offset }) within
                      (λ g num here file.
                        subst
                          (λ k.
                            leb_ℤ (pos (pos_part offset))
                              (disk.read_inode w.store k.inode_number).file_size
                            ≡ true)
                          (some_eq (sym at ∙ here)) (le_of_inside fsize offset from inside)))
            ]
          ]
        ]
  ]

  open_file-Within :
      (w : World disk) (filename : List ℕ) (num : ℕ)
      → disk.open_namei w.store filename ≡ some num
      → leb_ℤ (pos 0) (disk.read_inode w.store (some num)).file_size ≡ true
      → Within w
      → Within (open_file disk w filename).0
  open_file-Within w filename num known size within =
      elim (open_file_lem disk w filename num known) [
        | inl (full, same) ↦ subst Within (ap (λ p. p.0) (sym same)) within
        | inr (i, free, same) ↦ subst Within (ap (λ p. p.0) (sym same)) (
            Within-update w i (λ h. record { inode_number = some num; offset = 0 }) within
              (λ h k at file. size))
      ]

  FileCall-Within : {w w' : World disk} → FileCall w w' → Within w → Within w'
  unfolding close
  FileCall-Within {w} (FileCall.reads fh nbytes junk w' r e) within =
      read-Within w fh nbytes junk e within
  FileCall-Within {w} (FileCall.seeks fh nseek w' r e) within = lseek-Within w fh nseek e within
  FileCall-Within {w} (FileCall.closes fh) within =
      Within-update w fh (λ h. record { inode_number = none; offset = 0 }) within
        (λ h num at file. absurd (ground (arith, file)))
  FileCall-Within {w} (FileCall.opens filename num known size) within =
      open_file-Within w filename num known size within

  -- Along any calls that open, read, seek and close, no handle of a file comes to stand behind the file's
  -- end, when none does at the start and no file that is opened has a negative size.
  pub FileCalls-Within : {w w' : World disk} → FileCalls w w' → Within w → Within w'
  FileCalls-Within FileCalls.start within = within
  FileCalls-Within (FileCalls.later w' w'' calls call) within =
      FileCall-Within call (FileCalls-Within calls within)
