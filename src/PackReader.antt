-- ===== src/PackReader.antt =====
-- src/ccc_storage_pack/reader.py: composing mounts of packs, and taking them down again. The programs
-- that mount and unmount are those of the host, and what they change is the host's table of mounts.
-- A path is named by the way it is built. The directories that the calls make and remove are left out.
pub mod Unmount
pub mod Lowers
pub mod Compose
pub mod Views
use ccc_storage.Base.{
  String, ℕ, zero, suc, ◌-◌, ◌≡◌, ◌⊎◌, Bool, true, false, ◌&&◌, not, ◌==◌, Result, raised, ok,
  pack_read_error, Option, none, some, List, [], ◌∷◌, map, ◌++◌, str_eq, if◌then◌else◌,
}
use ccc_storage.Manifest.{PackInfo}

-- `sibling path name` is `path.parent / name`, `hidden path suffix` is
-- `path.parent / f".{path.name}{suffix}"`, and `nth path i` is the entry of `path` numbered `i`.
pub data FilePath : Type 0 where
  path : String → FilePath
  child : FilePath → String → FilePath
  nth : FilePath → ℕ → FilePath
  sibling : FilePath → String → FilePath
  hidden : FilePath → String → FilePath

unfoldable pub same_path : FilePath → FilePath → Bool
same_path (path a) (path b) = str_eq a b
same_path (child p a) (child q b) = same_path p q && str_eq a b
same_path (nth p i) (nth q j) = same_path p q && i == j
same_path (sibling p a) (sibling q b) = same_path p q && str_eq a b
same_path (hidden p a) (hidden q b) = same_path p q && str_eq a b
same_path p q = false

pub data Command : Type 0 where
  mount_squashfs : String → FilePath → Command
  squashfuse : String → FilePath → Command
  fuse_overlayfs : List FilePath → FilePath → Command
  fuse_overlayfs_rw : List FilePath → FilePath → FilePath → FilePath → Command
  mount_overlay : List FilePath → FilePath → FilePath → FilePath → Command
  mount_bind : FilePath → FilePath → Command
  remount_ro : FilePath → Command
  fusermount : FilePath → Command
  umount : FilePath → Command

-- `lower_handles` stand newest first, the order in which they are unmounted. A plain handle has none.
mutual
  pub data MountHandle : Type 0 where
    handle : FilePath → Command → Bool → MountHandles → MountHandle

  pub data MountHandles : Type 0 where
    nil : MountHandles
    cons : MountHandle → MountHandles → MountHandles

abbrev pub mountpoint : MountHandle → FilePath
mountpoint (handle place command mounted lowers) = place

abbrev pub mountpoints : MountHandles → List FilePath
mountpoints nil = []
mountpoints (cons h rest) = mountpoint h ∷ mountpoints rest

-- `mnt.parent / f".{mnt.name}.stack"`
abbrev pub stack_root : FilePath → FilePath
stack_root mnt = hidden mnt ".stack"

-- Without packs the lower directory is an empty one.
abbrev pub or_empty_lower : FilePath → List FilePath → List FilePath
or_empty_lower scratch_root [] = child scratch_root "empty-lower" ∷ []
or_empty_lower scratch_root (dir ∷ rest) = dir ∷ rest

-- The upper and the work directory of a writable view.
pub record UpperPaths : Type 0 where
  pub active_upper : FilePath
  pub work : FilePath

-- The commands of the views, from the mount points of the lower handles.
abbrev pub layered_command : UpperPaths → FilePath → FilePath → List FilePath → Command
layered_command paths scratch_root mnt dirs =
    fuse_overlayfs_rw (or_empty_lower scratch_root dirs) paths.active_upper paths.work mnt

abbrev pub kernel_command : UpperPaths → FilePath → FilePath → List FilePath → Command
kernel_command paths scratch_root mnt dirs =
    mount_overlay (or_empty_lower scratch_root dirs) paths.active_upper paths.work mnt

abbrev pub dirs_command : FilePath → List FilePath → FilePath → List FilePath → Command
dirs_command top more mnt dirs = fuse_overlayfs ((top ∷ more) ++ dirs) mnt

-- The programs that are found, and how they run: the answer is whether they exit with 0.
pub record Host : Type 1 where
  pub Table : Type 0
  pub run : Command → Table → Table × Bool
  pub mounted_at : Table → FilePath → ℕ
  pub has_mount : Bool
  pub has_squashfuse : Bool
  pub has_fuse_overlayfs : Bool
  pub has_fusermount : Bool
  pub has_umount : Bool
  pub is_dir : FilePath → Bool

module _ (host : Host) where
  open host use {
    Table, run, has_mount, has_squashfuse, has_fuse_overlayfs, has_fusermount, has_umount, is_dir,
  }

  abbrev pub run_if : Bool → Command → Table → Table
  run_if found command t = if found then (run command t).0 else t

  abbrev pub unmount_at : FilePath → Table → Table
  unmount_at place t = run_if has_umount (umount place) (run_if has_fusermount (fusermount place) t)

  -- `MountHandle.unmount`, and that of a handle with lower handles.
  unfoldable mutual
    pub unmount : MountHandle → Table → Table
    unmount (handle place command mounted lowers) t =
        let below = if mounted then unmount_at place t else t in unmount_all lowers below

    pub unmount_all : MountHandles → Table → Table
    unmount_all nil t = t
    unmount_all (cons h rest) t = unmount_all rest (unmount h t)

  -- A mount by one command: a handle over the lower handles if it exits with 0.
  abbrev pub started : FilePath → Command → MountHandles → Table × Bool → Table × Result MountHandle
  started place command lowers (t, true) = (t, ok (handle place command true lowers))
  started place command lowers (t, false) = (t, raised pack_read_error)

  abbrev pub start : FilePath → Command → MountHandles → Table → Table × Result MountHandle
  start place command lowers t = started place command lowers (run command t)

  unfoldable pub mount_ro : Bool → String → FilePath → Table → Table × Result MountHandle
  mount_ro prefer_kernel pack mnt t =
      if prefer_kernel && has_mount
      then start mnt (mount_squashfs pack mnt) nil t
      else if has_squashfuse
      then start mnt (squashfuse pack mnt) nil t
      else (t, raised pack_read_error)

  -- The loop over the packs: the table, the handles so far, and whether it came to its end.
  pub record Progress : Type 0 where
    pub table : Table
    pub lower_handles : MountHandles
    pub answer : Result {0} Unit

  abbrev pub progress : Table → MountHandles → Result {0} Unit → Progress
  progress t hs r = record { table = t; lower_handles = hs; answer = r }

  abbrev pub advance :
      MountHandles → (MountHandle → Table → Progress) → Table × Result MountHandle → Progress
  advance hs next (t, raised e) = progress t hs (raised e)
  advance hs next (t, ok h) = next h t

  unfoldable pub mount_lowers :
      Bool → FilePath → ℕ → List PackInfo → MountHandles → Table → Progress
  mount_lowers prefer_kernel lowers_root idx [] hs t = progress t hs (ok tt)
  mount_lowers prefer_kernel lowers_root idx (pack ∷ rest) hs t =
      advance hs (λ h u. mount_lowers prefer_kernel lowers_root (suc idx) rest (cons h hs) u)
        (mount_ro prefer_kernel pack.path (nth lowers_root idx) t)

  -- `except Exception`: the lower handles are unmounted, and the exception is raised again.
  abbrev pub or_unmount : MountHandles → Table × Result MountHandle → Table × Result MountHandle
  or_unmount hs (t, ok h) = (t, ok h)
  or_unmount hs (t, raised e) = (unmount_all hs t, raised e)

  -- The view over the lower handles, by a command that names their mount points newest first.
  abbrev pub compose : FilePath → (List FilePath → Command) → Progress → Table × Result MountHandle
  compose mnt command p = elim (p.answer) [
    | raised e ↦ or_unmount p.lower_handles (p.table, raised e)
    | ok done ↦
        or_unmount p.lower_handles
          (start mnt (command (mountpoints p.lower_handles)) p.lower_handles p.table)
  ]

  unfoldable pub mount_stack_ro :
      Bool → List PackInfo → FilePath → Table → Table × Result MountHandle
  mount_stack_ro prefer_kernel [] mnt t = (t, raised pack_read_error)
  mount_stack_ro prefer_kernel (pack ∷ []) mnt t = mount_ro prefer_kernel pack.path mnt t
  mount_stack_ro prefer_kernel (pack ∷ next ∷ rest) mnt t =
      if has_fuse_overlayfs
      then compose mnt (λ dirs. fuse_overlayfs dirs mnt)
          (mount_lowers prefer_kernel (child (stack_root mnt) "lowers") 0 (pack ∷ next ∷ rest) nil
            t)
      else (t, raised pack_read_error)

  abbrev pub stack_progress : Table × Result MountHandle → Progress
  stack_progress (t, raised e) = progress t nil (raised e)
  stack_progress (t, ok h) = progress t (cons h nil) (ok tt)

  -- The stack below a writable view, if the child has packs.
  abbrev pub mount_lower_stack : Bool → List PackInfo → FilePath → Table → Progress
  mount_lower_stack prefer_kernel [] lower_mnt t = progress t nil (ok tt)
  mount_lower_stack prefer_kernel (pack ∷ rest) lower_mnt t =
      stack_progress (mount_stack_ro prefer_kernel (pack ∷ rest) lower_mnt t)

  unfoldable pub mount_layered_rw :
      Bool → List PackInfo → UpperPaths → FilePath → FilePath → Table → Table × Result MountHandle
  mount_layered_rw prefer_kernel packs paths scratch_root mnt t =
      if has_fuse_overlayfs
      then compose mnt (layered_command paths scratch_root mnt)
          (mount_lower_stack prefer_kernel packs (child scratch_root "lower") t)
      else (t, raised pack_read_error)

  unfoldable pub mount_layered_rw_kernel_overlay :
      Bool → List PackInfo → UpperPaths → FilePath → FilePath → Table → Table × Result MountHandle
  mount_layered_rw_kernel_overlay prefer_kernel packs paths scratch_root mnt t =
      if has_mount
      then compose mnt (kernel_command paths scratch_root mnt)
          (mount_lowers prefer_kernel (child scratch_root "lowers") 0 packs nil t)
      else (t, raised pack_read_error)

  -- The top directories are at least one, as where the program calls it.
  unfoldable pub mount_dirs_and_packs_ro :
      Bool
      → FilePath
      → List FilePath
      → List PackInfo
      → FilePath
      → FilePath
      → Table
      → Table × Result MountHandle
  mount_dirs_and_packs_ro prefer_kernel top more packs scratch_root mnt t =
      if has_fuse_overlayfs
      then compose mnt (dirs_command top more mnt)
          (mount_lowers prefer_kernel (child scratch_root "lowers") 0 packs nil t)
      else (t, raised pack_read_error)

  -- The remount of a bind mount, which is taken down if it cannot be made read-only.
  abbrev pub bound : FilePath → Command → Table × Bool → Table × Result MountHandle
  bound mnt command (t, true) = (t, ok (handle mnt command true nil))
  bound mnt command (t, false) = (unmount_at mnt t, raised pack_read_error)

  abbrev pub remounted : FilePath → Command → Table × Bool → Table × Result MountHandle
  remounted mnt command (t, true) = bound mnt command (run (remount_ro mnt) t)
  remounted mnt command (t, false) = (t, raised pack_read_error)

  unfoldable pub mount_bind_ro : FilePath → FilePath → Table → Table × Result MountHandle
  mount_bind_ro source mnt t =
      if has_mount && is_dir source
      then remounted mnt (mount_bind source mnt) (run (mount_bind source mnt) t)
      else (t, raised pack_read_error)
