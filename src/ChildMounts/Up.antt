-- ===== src/ChildMounts/Up.antt =====
-- The handles that the calls of reader.py return are mounted.
use ccc_storage.Base.{
  String, ◌≡◌, refl, Bool, true, false, ◌&&◌, List, [], ◌∷◌, Result, raised, ok, pack_read_error,
}
use ccc_storage.Manifest.{PackInfo}
use ccc_storage.PackReader.{
  FilePath, Command, MountHandle, MountHandles, nil, mount_squashfs, squashfuse, mount_bind, Host,
  UpperPaths, started, start, mount_ro, Progress, or_unmount, compose, mount_stack_ro,
  mount_layered_rw, mount_layered_rw_kernel_overlay, mount_dirs_and_packs_ro, bound, remounted,
  mount_bind_ro, progress, mountpoints, fuse_overlayfs, layered_command, kernel_command,
  dirs_command,
}
use ccc_storage.PackReader.Compose.{if-holds}
use ccc_storage.ChildMounts.{is_mounted}

module _ (host : Host) where
  open host use {Table, run, has_mount, has_squashfuse, has_fuse_overlayfs, is_dir}

  abbrev pub IsUp : Table × Result MountHandle → Type 0
  IsUp (t, raised e) = Unit
  IsUp (t, ok h) = is_mounted h ≡ true

  started-IsUp :
      (mnt : FilePath) (c : Command) (hs : MountHandles) (r : Table × Bool)
      → IsUp (started host mnt c hs r)
  started-IsUp mnt c hs (t, true) = refl
  started-IsUp mnt c hs (t, false) = tt

  or_unmount-IsUp :
      (hs : MountHandles) (r : Table × Result MountHandle) → IsUp r → IsUp (or_unmount host hs r)
  or_unmount-IsUp hs (t, raised e) up = tt
  or_unmount-IsUp hs (t, ok h) up = up

  compose-IsUp :
      (mnt : FilePath) (command : List FilePath → Command) (t : Table) (hs : MountHandles)
      (answer : Result {0} Unit)
      → IsUp (compose host mnt command (progress host t hs answer))
  compose-IsUp mnt command t hs (raised e) = tt
  compose-IsUp mnt command t hs (ok done) =
      or_unmount-IsUp hs (start host mnt (command (mountpoints hs)) hs t) (started-IsUp mnt _ hs _)

  composed-IsUp :
      (mnt : FilePath) (command : List FilePath → Command) (p : Progress host)
      → IsUp (compose host mnt command p)
  composed-IsUp mnt command p = compose-IsUp mnt command p.table p.lower_handles p.answer

  mount_ro-IsUp :
      (prefer_kernel : Bool) (pack : String) (mnt : FilePath) (t : Table)
      → IsUp (mount_ro host prefer_kernel pack mnt t)
  unfolding mount_ro
  mount_ro-IsUp prefer_kernel pack mnt t =
      if-holds IsUp (prefer_kernel && has_mount) _ _
        (started-IsUp mnt (mount_squashfs pack mnt) nil _)
        (if-holds IsUp has_squashfuse _ (t, raised pack_read_error)
          (started-IsUp mnt (squashfuse pack mnt) nil _) tt)

  pub mount_stack_ro-IsUp :
      (prefer_kernel : Bool) (packs : List PackInfo) (mnt : FilePath) (t : Table)
      → IsUp (mount_stack_ro host prefer_kernel packs mnt t)
  unfolding mount_stack_ro
  mount_stack_ro-IsUp prefer_kernel [] mnt t = tt
  mount_stack_ro-IsUp prefer_kernel (pack ∷ []) mnt t = mount_ro-IsUp prefer_kernel pack.path mnt t
  mount_stack_ro-IsUp prefer_kernel (pack ∷ next ∷ rest) mnt t =
      if-holds IsUp has_fuse_overlayfs _ (t, raised pack_read_error)
        (composed-IsUp mnt (λ dirs. fuse_overlayfs dirs mnt) _) tt

  module _ (prefer_kernel : Bool) (packs : List PackInfo) (paths : UpperPaths)
      (scratch mnt : FilePath) (t : Table) where
    pub mount_layered_rw-IsUp : IsUp (mount_layered_rw host prefer_kernel packs paths scratch mnt t)
    unfolding mount_layered_rw
    mount_layered_rw-IsUp =
        if-holds IsUp has_fuse_overlayfs _ (t, raised pack_read_error)
          (composed-IsUp mnt (layered_command paths scratch mnt) _) tt

    pub mount_layered_rw_kernel_overlay-IsUp :
        IsUp (mount_layered_rw_kernel_overlay host prefer_kernel packs paths scratch mnt t)
    unfolding mount_layered_rw_kernel_overlay
    mount_layered_rw_kernel_overlay-IsUp =
        if-holds IsUp has_mount _ (t, raised pack_read_error)
          (composed-IsUp mnt (kernel_command paths scratch mnt) _) tt

  pub mount_dirs_and_packs_ro-IsUp :
      (prefer_kernel : Bool) (top : FilePath) (more : List FilePath) (packs : List PackInfo)
      (scratch mnt : FilePath) (t : Table)
      → IsUp (mount_dirs_and_packs_ro host prefer_kernel top more packs scratch mnt t)
  unfolding mount_dirs_and_packs_ro
  mount_dirs_and_packs_ro-IsUp prefer_kernel top more packs scratch mnt t =
      if-holds IsUp has_fuse_overlayfs _ (t, raised pack_read_error)
        (composed-IsUp mnt (dirs_command top more mnt) _) tt

  bound-IsUp : (mnt : FilePath) (c : Command) (r : Table × Bool) → IsUp (bound host mnt c r)
  bound-IsUp mnt c (t, true) = refl
  bound-IsUp mnt c (t, false) = tt

  remounted-IsUp : (mnt : FilePath) (c : Command) (r : Table × Bool) → IsUp (remounted host mnt c r)
  remounted-IsUp mnt c (t, true) = bound-IsUp mnt c _
  remounted-IsUp mnt c (t, false) = tt

  pub mount_bind_ro-IsUp :
      (source mnt : FilePath) (t : Table) → IsUp (mount_bind_ro host source mnt t)
  unfolding mount_bind_ro
  mount_bind_ro-IsUp source mnt t =
      if-holds IsUp (has_mount && is_dir source) _ (t, raised pack_read_error)
        (remounted-IsUp mnt (mount_bind source mnt) (run (mount_bind source mnt) t)) tt
