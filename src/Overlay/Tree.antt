-- ===== src/Overlay/Tree.antt =====
-- What the copy of an upper keeps of it (`_copy_logical_tree`).
use ccc_storage.Base.{String, ℕ, ◌≡◌, refl, Result, ok, arith, Bool-cases, inl, inr}
use ccc_storage.Overlay.{
  Entries, Node, nil, cons, file, symlink, device, directory, files_in, bytes_in, copytree,
  has_device, copied, copy_logical_tree,
}

module _ (Blob : Type 0) (size_of : Blob → ℕ) where
  copytree-files : (es : Entries Blob) → files_in Blob (copytree Blob es) ≡ files_in Blob es
  unfolding copytree files_in
  copytree-files nil = refl
  copytree-files (cons name (file b) rest) = omega (arith, copytree-files rest)
  copytree-files (cons name (symlink b) rest) = omega (arith, copytree-files rest)
  copytree-files (cons name device rest) = ground (arith, copytree-files rest)
  copytree-files (cons name (directory es) rest) =
      ground (arith, copytree-files rest, copytree-files es)

  copytree-bytes :
      (es : Entries Blob) → bytes_in Blob size_of (copytree Blob es) ≡ bytes_in Blob size_of es
  unfolding copytree bytes_in
  copytree-bytes nil = refl
  copytree-bytes (cons name (file b) rest) = omega (arith, copytree-bytes rest)
  copytree-bytes (cons name (symlink b) rest) = omega (arith, copytree-bytes rest)
  copytree-bytes (cons name device rest) = ground (arith, copytree-bytes rest)
  copytree-bytes (cons name (directory es) rest) =
      ground (arith, copytree-bytes rest, copytree-bytes es)

  copied-ok :
      (name : String) (node : Node Blob) (r : Entries Blob × Result {0} Unit)
      → (copied Blob name node r).1 ≡ ok tt
      → r.1 ≡ ok tt
  copied-ok name node (rest, answer) h = h

  -- The copy counts what the upper counts.
  pub copy_logical_tree-files :
      (es : Entries Blob)
      → (copy_logical_tree Blob es).1 ≡ ok tt
      → (files_in Blob (copy_logical_tree Blob es).0 ≡ files_in Blob es)
        × (bytes_in Blob size_of (copy_logical_tree Blob es).0 ≡ bytes_in Blob size_of es)
  unfolding copy_logical_tree files_in bytes_in
  copy_logical_tree-files nil h = (refl, refl)
  copy_logical_tree-files (cons name (file b) rest) h =
      let ih = copy_logical_tree-files rest h in (omega (arith, ih.0), omega (arith, ih.1))
  copy_logical_tree-files (cons name (symlink b) rest) h =
      let ih = copy_logical_tree-files rest h in (omega (arith, ih.0), omega (arith, ih.1))
  copy_logical_tree-files (cons name device rest) h =
      let ih = copy_logical_tree-files rest h in (ground (arith, ih), ground (arith, ih))
  copy_logical_tree-files (cons name (directory es) rest) h =
      elim (Bool-cases (has_device Blob es)) [
        | inl e ↦ absurd (ground (arith, h, e))
        | inr e ↦
            let ih = copy_logical_tree-files rest (rw e at h) in
            (
              rw e (ground (arith, ih.0, copytree-files es)),
              rw e (ground (arith, ih.1, copytree-bytes es)),
            )
      ]
