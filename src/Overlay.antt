-- ===== src/Overlay.antt =====
-- src/ccc_storage_mountd/overlay.py: the writable uppers of a child, and the dirty mirror that a node
-- publishes on shared storage. A directory is its entries in order; a device is what the kernel's
-- overlay puts in the place of a deleted name; a file or a symbolic link is the bytes it holds.
pub mod Tree
pub mod Mirror
pub mod Atomic
use ccc_storage.Base.{
  String, ℕ, ◌+◌, Bool, true, false, not, ◌&&◌, ◌||◌, Result, raised, ok, os_error, Option, none,
  some, ltb, if◌then◌else◌,
}
use ccc_storage.Paths.{starts_with}

pub record DirtyStats : Type 0 where
  pub dirty : Bool
  pub file_count : ℕ
  pub bytes : ℕ

module _ (Blob : Type 0) where
  mutual
    pub data Node : Type 0 where
      file : Blob → Node
      symlink : Blob → Node
      device : Node
      directory : Entries → Node

    pub data Entries : Type 0 where
      nil : Entries
      cons : String → Node → Entries → Entries

  abbrev pub is_overlayfs_artifact : String → Bool
  is_overlayfs_artifact name = starts_with name ".wh."

  abbrev pub is_file_or_symlink : Node → Bool
  is_file_or_symlink (file b) = true
  is_file_or_symlink (symlink b) = true
  is_file_or_symlink device = false
  is_file_or_symlink (directory es) = false

  abbrev pub counts : String → Node → Bool
  counts name node = not (is_overlayfs_artifact name) && is_file_or_symlink node

  -- The entries that `dirty_stats` counts, at any depth.
  unfoldable mutual
    pub files_at : Node → ℕ
    files_at (file b) = 0
    files_at (symlink b) = 0
    files_at device = 0
    files_at (directory es) = files_in es

    pub files_in : Entries → ℕ
    files_in nil = 0
    files_in (cons name node rest) =
        (if counts name node then 1 else 0) + files_at node + files_in rest

  -- `shutil.copytree(entry, target, symlinks=True)` copies all but the devices, and raises at its end
  -- if it met one.
  unfoldable pub copytree : Entries → Entries
  copytree nil = nil
  copytree (cons name (file b) rest) = cons name (file b) (copytree rest)
  copytree (cons name (symlink b) rest) = cons name (symlink b) (copytree rest)
  copytree (cons name device rest) = copytree rest
  copytree (cons name (directory es) rest) = cons name (directory (copytree es)) (copytree rest)

  unfoldable pub has_device : Entries → Bool
  has_device nil = false
  has_device (cons name (file b) rest) = has_device rest
  has_device (cons name (symlink b) rest) = has_device rest
  has_device (cons name device rest) = true
  has_device (cons name (directory es) rest) = has_device es || has_device rest

  -- An entry is copied before the rest.
  abbrev pub copied : String → Node → Entries × Result {0} Unit → Entries × Result {0} Unit
  copied name node (rest, answer) = (cons name node rest, answer)

  -- `_copy_logical_tree`: what stands at `dest` afterwards, and whether it returns.
  unfoldable pub copy_logical_tree : Entries → Entries × Result {0} Unit
  copy_logical_tree nil = (nil, ok tt)
  copy_logical_tree (cons name (file b) rest) = copied name (file b) (copy_logical_tree rest)
  copy_logical_tree (cons name (symlink b) rest) = copied name (symlink b) (copy_logical_tree rest)
  copy_logical_tree (cons name device rest) = copy_logical_tree rest
  copy_logical_tree (cons name (directory es) rest) =
      let later = copied name (directory (copytree es)) (copy_logical_tree rest) in
      if has_device es then (cons name (directory (copytree es)) nil, raised os_error) else later

  module _ (size_of : Blob → ℕ) where
    abbrev pub own_bytes : Node → ℕ
    own_bytes (file b) = size_of b
    own_bytes (symlink b) = size_of b
    own_bytes device = 0
    own_bytes (directory es) = 0

    unfoldable mutual
      pub bytes_at : Node → ℕ
      bytes_at (file b) = 0
      bytes_at (symlink b) = 0
      bytes_at device = 0
      bytes_at (directory es) = bytes_in es

      pub bytes_in : Entries → ℕ
      bytes_in nil = 0
      bytes_in (cons name node rest) =
          (if counts name node then own_bytes node else 0) + bytes_at node + bytes_in rest

    -- `dirty_stats`, of a directory that may be missing.
    abbrev pub dirty_stats : Option Entries → DirtyStats
    dirty_stats none = record { dirty = false; file_count = 0; bytes = 0 }
    dirty_stats (some es) = record {
      dirty = ltb 0 (files_in es);
      file_count = files_in es;
      bytes = bytes_in es;
    }
