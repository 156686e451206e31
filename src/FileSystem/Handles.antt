-- ===== src/FileSystem/Handles.antt =====
-- The file handles of Project5/ssufs-ops.c, and what its calls keep of them.
use linux_project.Base.{
  ℕ, suc, ◌+◌, ◌≤◌, ◌≡◌, refl, ◌⊎◌, inl, inr, false, none, some, List, [], ◌∷◌, ◌==◌, length,
  update, arith, Bool-cases, Option-cases, some_eq, ==_self,
}
use linux_project.FileSystem.{Handle, Disk, World, is_none, alloc_file_handle, open_loop, open_file}

abbrev opened : ℕ → Handle
opened num = record { inode_number = some num; offset = 0 }

open_loop-free :
    (hs : List Handle) (num i j : ℕ)
    → alloc_file_handle hs i ≡ some j
    → (k : ℕ) × (j ≡ i + k)
      × (open_loop hs num ≡ (update hs k (λ h. opened num), k))
      × (k + 1 ≤ length hs)
unfolding alloc_file_handle open_loop
open_loop-free [] num i j e = cc
open_loop-free (h ∷ hs) num i j e = elim (Bool-cases (is_none h.inode_number)) [
  | inl free ↦ (0, ground (arith, some_eq (rw free at e)), rw free refl, omega arith)
  | inr taken ↦
      let (k, at, run, lt) = open_loop-free hs num (i + 1) j (rw taken at e) in
      (suc k, omega (arith, at), rw (taken, run) refl, omega (arith, lt))
]

open_loop-full :
    (hs : List Handle) (num i : ℕ)
    → alloc_file_handle hs i ≡ none
    → open_loop hs num ≡ (hs, length hs)
unfolding alloc_file_handle open_loop
open_loop-full [] num i e = refl
open_loop-full (h ∷ hs) num i e = elim (Bool-cases (is_none h.inode_number)) [
  | inl free ↦ absurd (ground (arith, rw free at e))
  | inr taken ↦ rw (taken, open_loop-full hs num (i + 1) (rw taken at e)) refl
]

module _ {S : Type 0} (disk : Disk S) where
  -- For a name that the disk knows `ssufs_open` takes the handle that `ssufs_allocFileHandle` finds,
  -- at offset 0, and leaves the other handles; but it returns the number of the inode. Where no handle
  -- is free it returns -1 and changes nothing.
  pub open_file_lem :
      (w : World disk) (filename : List ℕ) (num : ℕ)
      → disk.open_namei w.store filename ≡ some num
      → ((alloc_file_handle w.handles 0 ≡ none) × (open_file disk w filename ≡ (w, none)))
        ⊎ ((i : ℕ) × (alloc_file_handle w.handles 0 ≡ some i)
            × (open_file disk w filename ≡ (
              record w {
                handles = update w.handles i (λ h. record { inode_number = some num; offset = 0 });
              },
              some num,
            )))
  unfolding open_file
  open_file_lem w filename num known = elim (Option-cases (alloc_file_handle w.handles 0)) [
    | inl full ↦ inl (
      full,
      rw (known, open_file, open_loop-full w.handles num 0 full, ==_self (length w.handles)) refl,
    )
    | inr (i, free) ↦
        let (k, at, run, lt) = open_loop-free w.handles num 0 i free in
        let not_full : (k == length w.handles) ≡ false = ground (arith, lt) in
        let here : i ≡ k = omega (arith, at) in
        inr (i, free, rw (here, known, open_file, run, not_full) refl)
  ]
