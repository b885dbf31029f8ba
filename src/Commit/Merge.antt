-- ===== src/Commit/Merge.antt =====
-- The merge of extracted packs (`_merge_extracted_layer` of
-- src/ccc_storage_mountd/workers/compaction.py). The entries of a directory are in the order of their
-- names, and an opaque marker comes before the directories beside it. A symbolic link in the place of
-- a directory counts as a file, and no directory has both an entry and a whiteout of it.
use ccc_storage.Base.{
  String, ℕ, Bool, true, false, not, ◌&&◌, ◌||◌, Option, none, some, Result, raised, ok, ◌>>=◌,
  os_error, str_eq, if◌then◌else◌, ◌≡◌, refl,
}
use ccc_storage.Overlay.{Entries, Node, nil, cons, file, device, directory}
use ccc_storage.Paths.{starts_with, drop_text}

abbrev pub opaque_name : String
opaque_name = ".wh..wh..opq"

module _ (Blob : Type 0) where
  unfoldable pub find_entry : String → Entries Blob → Option (Node Blob)
  find_entry name nil = none
  find_entry name (cons other node rest) =
      let later = find_entry name rest in if str_eq other name then some node else later

  -- `_remove_path`
  unfoldable pub remove_entry : String → Entries Blob → Entries Blob
  remove_entry name nil = nil
  remove_entry name (cons other node rest) =
      let later = remove_entry name rest in
      if str_eq other name then later else cons other node later

  unfoldable pub put_entry : String → Node Blob → Entries Blob → Entries Blob
  put_entry name node nil = cons name node nil
  put_entry name node (cons other old rest) =
      let later = put_entry name node rest in
      if str_eq other name then cons name node rest else cons other old later

  abbrev pub is_there : Option (Node Blob) → Bool
  is_there none = false
  is_there (some node) = true

  abbrev pub is_opaque : Entries Blob → Bool
  is_opaque es = is_there (find_entry opaque_name es)

  -- A marker in a directory or below it.
  unfoldable pub has_marker : Entries Blob → Bool
  has_marker nil = false
  has_marker (cons name (directory es) rest) =
      str_eq name opaque_name || has_marker es || has_marker rest
  has_marker (cons name node rest) = str_eq name opaque_name || has_marker rest

  -- What is left of the older entries of a directory, where something may stand at its place.
  abbrev pub kept_below : Entries Blob → Option (Node Blob) → Result (Entries Blob)
  kept_below es none = ok nil
  kept_below es (some (directory old)) = ok (if is_opaque es then nil else old)
  kept_below es (some other) = raised os_error

  -- The first pass, below a directory.
  unfoldable pub clear_below : Entries Blob → Entries Blob → Result (Entries Blob)
  clear_below nil older = ok older
  clear_below (cons name (directory es) rest) older =
      let cleared = kept_below es (find_entry name older) >>= clear_below es in
      if has_marker es
      then (cleared >>= λ old. clear_below rest (put_entry name (directory old) older))
      else clear_below rest older
  clear_below (cons name node rest) older = clear_below rest older

  abbrev pub clear_opaque : Entries Blob → Entries Blob → Result (Entries Blob)
  clear_opaque layer older = clear_below layer (if is_opaque layer then nil else older)

  -- `_copy_entry`, of what is no directory.
  abbrev pub copy_entry : String → Node Blob → Entries Blob → Entries Blob
  copy_entry name device older = remove_entry name older
  copy_entry name node older = put_entry name node older

  abbrev pub made_directory : String → Option (Node Blob) → Entries Blob → Entries Blob
  made_directory name (some (directory old)) older = older
  made_directory name other older = put_entry name (directory nil) older

  abbrev pub is_whiteout : String → Bool
  is_whiteout name = starts_with name ".wh." && not (str_eq name opaque_name)

  abbrev pub merge_entry : String → Node Blob → Entries Blob → Entries Blob
  merge_entry name (directory es) older = made_directory name (find_entry name older) older
  merge_entry name node older =
      if is_whiteout name
      then copy_entry name node (remove_entry (drop_text 4 name) older)
      else copy_entry name node older

  -- The entries of one directory, and then those below it.
  unfoldable pub merge_level : Entries Blob → Entries Blob → Entries Blob
  merge_level nil older = older
  merge_level (cons name node rest) older = merge_level rest (merge_entry name node older)

  abbrev pub entries_of : Option (Node Blob) → Entries Blob
  entries_of (some (directory es)) = es
  entries_of other = nil

  unfoldable pub merge_below : Entries Blob → Entries Blob → Entries Blob
  merge_below nil older = older
  merge_below (cons name (directory es) rest) older =
      let below = merge_below es (merge_level es (entries_of (find_entry name older))) in
      merge_below rest (put_entry name (directory below) older)
  merge_below (cons name node rest) older = merge_below rest older

  unfoldable pub merge_extracted_layer : Entries Blob → Entries Blob → Result (Entries Blob)
  merge_extracted_layer layer older =
      clear_opaque layer older >>= λ kept. ok (merge_below layer (merge_level layer kept))

-- A whiteout hides the older file and stays; an opaque directory hides all that was in it, and where
-- an older layer has a file the merge raises.
abbrev older_layer : Entries ℕ
older_layer =
    cons "a" (file 1) (cons "d" (directory (cons "b" (file 2) nil)) (cons "e" (file 3) nil))

merge_runs :
    (merge_extracted_layer ℕ
        (cons ".wh.a"
          (file 0)
          (cons "d" (directory (cons ".wh..wh..opq" (file 0) (cons "c" (file 4) nil))) nil))
        older_layer
      ≡ ok (
          cons "d"
            (directory (cons ".wh..wh..opq" (file 0) (cons "c" (file 4) nil)))
            (cons "e" (file 3) (cons ".wh.a" (file 0) nil))))
    × (merge_extracted_layer ℕ
          (cons "e" (directory (cons ".wh..wh..opq" (file 0) nil)) nil)
          older_layer
        ≡ raised os_error)
unfolding merge_extracted_layer clear_below has_marker find_entry merge_below put_entry merge_level
    remove_entry
merge_runs = (refl, refl)
