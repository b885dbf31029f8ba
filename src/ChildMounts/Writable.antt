-- ===== src/ChildMounts/Writable.antt =====
-- The writable mounts of src/ccc_storage_mountd/childmount.py: over a shared upper, or over a local
-- one by the child's only writer, and the published mirror for the others.
use Prim.Native.String.{◌++◌ as ◌<>◌}
use ccc_storage.Base.{
  String, ℕ, Bool, true, false, not, ◌&&◌, Option, none, some, [], Result, raised, ok, lock_held,
  child_mount_error, os_error, file_not_found, str_eq, if◌then◌else◌,
}
use ccc_storage.Base.Action.{◌>>=◌, go_on}
use ccc_storage.Base.Text.{is_empty}
use ccc_storage.CommitPolicy.{Clock}
use ccc_storage.Locks.{NfsLock, Locked, new_lock, acquire, release}
use ccc_storage.Manifest.{ChildManifest, write_policy_shared_nfs, write_policy_local_ssd_async}
use ccc_storage.Manifest.WritePolicy.{normalize_write_policy}
use ccc_storage.Names.{safe_namespace_name}
use ccc_storage.Overlay.{Entries, nil, copytree, has_device}
use ccc_storage.Overlay.Mirror.{
  MirrorPath, epoch_tree, current_link, DirtyMirror, latest_dirty_mirror, tree_at,
}
use ccc_storage.PackReader.{
  FilePath, path, child, nth, sibling, MountHandle, Host, UpperPaths, mount_layered_rw,
  mount_layered_rw_kernel_overlay, mount_dirs_and_packs_ro, mount_bind_ro,
}
use ccc_storage.ChildMounts.{
  MountRecord, Manager, State, put_lock_file, put_upper, fail, on_host, reuse_existing, new_record,
  keep, or_mount, has_lowers, mount_at,
}

module _ (clock : Clock) (host : Host) (Blob : Type 0) (size_of : Blob → ℕ) where
  open clock use {Seconds}
  open host use {Table, is_dir}

  abbrev S : Type 0
  S = State clock host Blob size_of

  abbrev R : Type 0
  R = MountRecord clock host Blob size_of

  abbrev M : Type 0
  M = Manager clock host Blob size_of

  abbrev pub or_missing : Bool → FilePath → (S → S × Result R) → S → S × Result R
  or_missing require_existing mnt call =
      if require_existing && not (is_dir mnt)
      then fail clock host Blob size_of child_mount_error
      else call

  -- `_mount_rw_shared_nfs`. The work directory is beside the active upper.
  unfoldable pub mount_rw_shared_nfs :
      M → ChildManifest → FilePath → Bool → Seconds → S → S × Result R
  mount_rw_shared_nfs m manifest mnt require_existing now = or_missing require_existing mnt (
      if is_empty manifest.overlay.active_upper
      then fail clock host Blob size_of child_mount_error
      else (let active_upper = path manifest.overlay.active_upper in
          on_host clock host Blob size_of (
            mount_layered_rw host m.prefer_kernel manifest.pack_stack.lowers
              (record { active_upper = active_upper; work = sibling active_upper "work" })
              (child (child m.run_dir "stacks") (safe_namespace_name manifest.id)) mnt)
          >>= λ h.
              keep clock host Blob size_of
                (record (new_record clock host Blob size_of manifest mnt h "rw"
                  write_policy_shared_nfs now) { base_generation = manifest.generation })))

  -- The path of a mirror's tree, for the mount.
  abbrev pub mirror_root : FilePath → String → FilePath
  mirror_root nfs_root id = child (child nfs_root "async") (safe_namespace_name id)

  abbrev pub mirror_file_path : FilePath → String → MirrorPath → FilePath
  mirror_file_path nfs_root id (epoch_tree e) =
      child (nth (child (mirror_root nfs_root id) "epochs") e) "tree"
  mirror_file_path nfs_root id current_link = child (mirror_root nfs_root id) "current"

  abbrev pub mount_mirror :
      M
      → FilePath
      → ChildManifest
      → FilePath
      → DirtyMirror Blob Seconds
      → Table
      → Table × Result MountHandle
  mount_mirror m nfs_root manifest mnt latest =
      let top = mirror_file_path nfs_root manifest.id latest.path in
      if has_lowers clock host Blob size_of manifest.pack_stack.lowers
      then mount_dirs_and_packs_ro host false top [] manifest.pack_stack.lowers
          (child (child m.run_dir "stacks") (safe_namespace_name manifest.id <> ".mirror")) mnt
      else mount_bind_ro host top mnt

  abbrev pub mount_latest :
      M
      → FilePath
      → ChildManifest
      → FilePath
      → Seconds
      → Option (DirtyMirror Blob Seconds)
      → S
      → S × Result R
  mount_latest m nfs_root manifest mnt now none =
      if has_lowers clock host Blob size_of manifest.pack_stack.lowers
      then mount_at clock host Blob size_of m manifest mnt false false now
      else fail clock host Blob size_of child_mount_error
  mount_latest m nfs_root manifest mnt now (some latest) =
      on_host clock host Blob size_of (mount_mirror m nfs_root manifest mnt latest) >>= λ h.
      keep clock host Blob size_of
        (record (new_record clock host Blob size_of manifest mnt h "ro" write_policy_local_ssd_async
          now) { base_generation = manifest.generation })

  unfoldable pub mount_published_mirror_ro :
      M → FilePath → ChildManifest → FilePath → Seconds → S → S × Result R
  mount_published_mirror_ro m nfs_root manifest mnt now s =
      mount_latest m nfs_root manifest mnt now
        (latest_dirty_mirror Blob Seconds (s.mirror manifest.id)) s

  -- `_hydrate_local_upper_from_latest_mirror`, once the upper is there.
  abbrev pub copied_tree : String → Option (Entries Blob) → S → S × Result {0} Unit
  copied_tree id none s = (s, raised file_not_found)
  copied_tree id (some tree) s = (
    put_upper clock host Blob size_of id (some (copytree Blob tree)) s,
    if has_device Blob tree then raised os_error else ok tt,
  )

  abbrev pub hydrate_from : String → Option (DirtyMirror Blob Seconds) → S → S × Result {0} Unit
  hydrate_from id none s = (s, ok tt)
  hydrate_from id (some latest) s =
      copied_tree id (tree_at Blob Seconds (s.mirror id) latest.path) s

  abbrev pub hydrate_into : String → Option (Entries Blob) → S → S × Result {0} Unit
  hydrate_into id (some (Entries.cons name node rest)) s = (s, ok tt)
  hydrate_into id other s = hydrate_from id (latest_dirty_mirror Blob Seconds (s.mirror id)) s

  unfoldable pub hydrate_local_upper : String → S → S × Result {0} Unit
  hydrate_local_upper id s = hydrate_into id (s.upper id) s

  abbrev pub or_made : Option (Entries Blob) → Option (Entries Blob)
  or_made none = some nil
  or_made (some tree) = some tree

  -- `ensure_local_upper`
  abbrev pub ensure_local_upper : String → S → S
  ensure_local_upper id s = put_upper clock host Blob size_of id (or_made (s.upper id)) s

  -- `lock.release()`
  abbrev pub released : String → NfsLock clock → S → S
  released id lock s =
      put_lock_file clock host Blob size_of id
        (release clock (record { file = s.lock_file id; lock = lock })).file s

  -- The mount over the local upper, which releases the lock if it raises.
  abbrev pub local_mount :
      M → ChildManifest → FilePath → NfsLock clock → Seconds → S × Result MountHandle → S × Result R
  local_mount m manifest mnt lock now (s, raised e) = (released manifest.id lock s, raised e)
  local_mount m manifest mnt lock now (s, ok h) =
      keep clock host Blob size_of
        (record (new_record clock host Blob size_of manifest mnt h "rw" write_policy_local_ssd_async
          now) {
            writer_lock = some lock;
            has_local_paths = true;
            base_generation = manifest.generation;
          })
        s

  abbrev pub local_paths : M → String → UpperPaths
  local_paths m id =
      let root = child m.local_overlay_root (safe_namespace_name id) in
      record { active_upper = child root "active"; work = child root "work" }

  -- What follows once the lock is taken.
  unfoldable pub mount_local :
      M → ChildManifest → FilePath → NfsLock clock → Seconds → S → S × Result R
  mount_local m manifest mnt lock now s =
      go_on (hydrate_local_upper manifest.id (ensure_local_upper manifest.id s)) (λ done u.
        local_mount m manifest mnt lock now (
          on_host clock host Blob size_of
            (mount_layered_rw_kernel_overlay host false manifest.pack_stack.lowers
              (local_paths m manifest.id)
              (child (child m.run_dir "stacks") (safe_namespace_name manifest.id <> ".local")) mnt)
            u))

  abbrev pub lock_taken :
      M
      → FilePath
      → ChildManifest
      → FilePath
      → Seconds
      → S
      → Locked clock × Result {0} Unit
      → S × Result R
  lock_taken m nfs_root manifest mnt now s (l, raised lock_held) =
      mount_published_mirror_ro m nfs_root manifest mnt now s
  lock_taken m nfs_root manifest mnt now s (l, raised e) = (s, raised e)
  lock_taken m nfs_root manifest mnt now s (l, ok done) =
      mount_local m manifest mnt l.lock now
        (put_lock_file clock host Blob size_of manifest.id l.file s)

  abbrev pub mount_on :
      M → Option FilePath → ChildManifest → FilePath → Bool → Seconds → S → S × Result R
  mount_on m none manifest mnt require_existing now = fail clock host Blob size_of child_mount_error
  mount_on m (some nfs_root) manifest mnt require_existing now =
      or_missing require_existing mnt (λ s. lock_taken m nfs_root manifest mnt now s (
        acquire clock m.process false now now (record {
          file = s.lock_file manifest.id;
          lock = new_lock clock "local-writer" m.stale_after;
        })))

  unfoldable pub mount_rw_local_ssd_async :
      M → ChildManifest → FilePath → Bool → Seconds → S → S × Result R
  mount_rw_local_ssd_async m manifest mnt require_existing now =
      mount_on m m.nfs_root manifest mnt require_existing now

  abbrev pub mount_by_policy :
      M → ChildManifest → FilePath → Bool → Seconds → Result String → S → S × Result R
  mount_by_policy m manifest mnt require_existing now (raised e) = fail clock host Blob size_of e
  mount_by_policy m manifest mnt require_existing now (ok policy) =
      if str_eq policy write_policy_shared_nfs
      then mount_rw_shared_nfs m manifest mnt require_existing now
      else if str_eq policy write_policy_local_ssd_async
      then mount_rw_local_ssd_async m manifest mnt require_existing now
      else fail clock host Blob size_of child_mount_error

  unfoldable pub mount_rw_at :
      M → ChildManifest → FilePath → Bool → Bool → Seconds → S → S × Result R
  mount_rw_at m manifest mnt require_existing increment_ref now =
      reuse_existing clock host Blob size_of manifest mnt "rw" increment_ref now
      >>= or_mount clock host Blob size_of (
          mount_by_policy m manifest mnt require_existing now
            (normalize_write_policy (some manifest.write_policy)))

  -- `mount` and `mount_rw`
  abbrev pub mounts_place : M → ChildManifest → FilePath
  mounts_place m manifest = child (child m.run_dir "mounts") (safe_namespace_name manifest.id)

  abbrev pub mount : M → ChildManifest → Seconds → S → S × Result R
  mount m manifest now =
      mount_at clock host Blob size_of m manifest (mounts_place m manifest) false true now

  abbrev pub mount_rw : M → ChildManifest → Bool → Seconds → S → S × Result R
  mount_rw m manifest increment_ref now =
      mount_rw_at m manifest (mounts_place m manifest) false increment_ref now
