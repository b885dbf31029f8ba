-- ===== src/ChildMounts.antt =====
-- ChildMountManager and NestedMountManager of src/ccc_storage_mountd/childmount.py: which children
-- are mounted, by whom they are used, and who may write. A call is one step, given the time: calls that
-- overlap, as those of two threads may where no lock of the manager is taken, are left out. Directories that are made are left out, but for the local
-- uppers. No id is empty, so ids that are different have different names, and what a child has on disk
-- is kept by its id.
pub mod Writable
pub mod Release
pub mod Locking
pub mod Leaks
pub mod Calls
pub mod Up
pub mod Mounting
pub mod Hydration
pub mod Writing
pub mod Steps
use Prim.Native.String.{◌++◌ as ◌<>◌}
use ccc_storage.Base.{
  String, ℕ, suc, ◌-◌, ◌==◌, leb, Bool, true, false, not, ◌&&◌, ◌||◌, Option, none, some, List, [],
  ◌∷◌, map, Result, raised, ok, Exception, lock_held, child_mount_error, os_error, file_not_found,
  str_eq, if◌then◌else◌,
}
use ccc_storage.Base.Integers.{ℤ, pos, plus_one}
use ccc_storage.Base.Action.{◌>>=◌, go_on, return}
use ccc_storage.Base.Dict.{Dict, lookup, assign, discard}
use ccc_storage.Base.Text.{is_empty}
use ccc_storage.CommitPolicy.{Clock}
use ccc_storage.Locks.{LockFile, NfsLock, Process, Locked, new_lock, acquire, heartbeat, release}
use ccc_storage.Manifest.{
  ChildManifest, PackInfo, write_policy_shared_nfs, write_policy_local_ssd_async,
}
use ccc_storage.Manifest.WritePolicy.{normalize_write_policy}
use ccc_storage.Names.{safe_namespace_name}
use ccc_storage.Overlay.{Entries, nil, dirty_stats, copytree, has_device}
use ccc_storage.Overlay.Mirror.{
  MirrorPath, epoch_tree, current_link, DirtyMirror, MirrorDir, Publisher, publish_logical_mirror,
  latest_dirty_mirror, tree_at,
}
use ccc_storage.PackReader.{
  FilePath, same_path, path, child, nth, sibling, MountHandle, handle, Host, UpperPaths, unmount,
  mount_stack_ro, mount_layered_rw, mount_layered_rw_kernel_overlay, mount_dirs_and_packs_ro,
  mount_bind_ro,
}

abbrev pub is_mounted : MountHandle → Bool
is_mounted (handle place command mounted lowers) = mounted

module _ (clock : Clock) (host : Host) (Blob : Type 0) (size_of : Blob → ℕ) where
  open clock use {Seconds, at_least, minus, zero_seconds}
  open host use {Table, is_dir}

  pub record MountRecord : Type 0 where
    pub manifest_id : String
    pub mountpoint : FilePath
    pub handle : MountHandle
    pub mode : String
    pub write_policy : String
    pub refcount : ℤ
    pub last_used : Seconds
    pub writer_lock : Option (NfsLock clock)
    pub has_local_paths : Bool
    pub base_generation : ℕ

  -- What a manager is made with. `stale_after` is that of a new lock.
  pub record Manager : Type 0 where
    pub run_dir : FilePath
    pub prefer_kernel : Bool
    pub nfs_root : Option FilePath
    pub local_overlay_root : FilePath
    pub node_id : String
    pub process : Process clock
    pub stale_after : Seconds

  -- The records of the manager, the mounts of the host, and on disk for each child the lock file of
  -- its local writer, its dirty mirror and its local upper.
  pub record State : Type 0 where
    pub records : Dict MountRecord
    pub table : Table
    pub lock_file : String → LockFile clock
    pub mirror : String → MirrorDir Blob Seconds
    pub upper : String → Option (Entries Blob)

  abbrev pub at_id : {A : Type 0} → String → A → (String → A) → String → A
  at_id id value old other = if str_eq id other then value else old other

  abbrev pub put_record : MountRecord → State → State
  put_record r s = record s { records = assign s.records r.manifest_id r }

  abbrev pub put_lock_file : String → LockFile clock → State → State
  put_lock_file id file s = record s { lock_file = at_id id file s.lock_file }

  abbrev pub put_upper : String → Option (Entries Blob) → State → State
  put_upper id tree s = record s { upper = at_id id tree s.upper }

  abbrev pub put_mirror : String → MirrorDir Blob Seconds → State → State
  put_mirror id dir s = record s { mirror = at_id id dir s.mirror }

  abbrev pub fail : {A : Type 0} → Exception → State → State × Result A
  fail e s = (s, raised e)

  -- A call that mounts or unmounts.
  abbrev pub on_table : State → Table × Result MountHandle → State × Result MountHandle
  on_table s (t, answer) = (record s { table = t }, answer)

  abbrev pub on_host : (Table → Table × Result MountHandle) → State → State × Result MountHandle
  on_host call s = on_table s (call s.table)

  -- `_reuse_existing`, of a record that is there.
  abbrev pub reused : MountRecord → Bool → Seconds → MountRecord
  reused r increment_ref now = record r {
    refcount = if increment_ref then plus_one r.refcount else r.refcount;
    last_used = now;
  }

  abbrev pub reuse :
      ChildManifest
      → FilePath
      → String
      → Bool
      → Seconds
      → Option MountRecord
      → State
      → State × Result (Option MountRecord)
  reuse manifest mnt mode increment_ref now none s = (s, ok none)
  reuse manifest mnt mode increment_ref now (some r) s =
      if not (is_mounted r.handle)
      then (s, ok none)
      else if not (same_path r.mountpoint mnt)
      then (s, raised child_mount_error)
      else if not (str_eq r.mode mode)
      then (s, raised child_mount_error)
      else if not (str_eq r.write_policy manifest.write_policy)
      then (s, raised child_mount_error)
      else (put_record (reused r increment_ref now) s, ok (some (reused r increment_ref now)))

  unfoldable pub reuse_existing :
      ChildManifest
      → FilePath
      → String
      → Bool
      → Seconds
      → State
      → State × Result (Option MountRecord)
  reuse_existing manifest mnt mode increment_ref now s =
      reuse manifest mnt mode increment_ref now (lookup s.records manifest.id) s

  -- The record of a new mount, kept under its id.
  abbrev pub new_record :
      ChildManifest → FilePath → MountHandle → String → String → Seconds → MountRecord
  new_record manifest mnt h mode policy now = record {
    manifest_id = manifest.id;
    mountpoint = mnt;
    handle = h;
    mode = mode;
    write_policy = policy;
    refcount = pos 1;
    last_used = now;
    writer_lock = none;
    has_local_paths = false;
    base_generation = 0;
  }

  abbrev pub keep : MountRecord → State → State × Result MountRecord
  keep r s = (put_record r s, ok r)

  abbrev pub or_mount :
      (State → State × Result MountRecord) → Option MountRecord → State → State × Result MountRecord
  or_mount call none s = call s
  or_mount call (some r) s = (s, ok r)

  abbrev pub has_lowers : List PackInfo → Bool
  has_lowers [] = false
  has_lowers (pack ∷ rest) = true

  -- What follows the reuse, in `_mount_at_unlocked`.
  abbrev pub mount_new_ro :
      Manager → ChildManifest → FilePath → Bool → Seconds → State → State × Result MountRecord
  mount_new_ro m manifest mnt require_existing now =
      if not (has_lowers manifest.pack_stack.lowers)
      then fail child_mount_error
      else if require_existing && not (is_dir mnt)
      then fail child_mount_error
      else (on_host (mount_stack_ro host m.prefer_kernel manifest.pack_stack.lowers mnt) >>= λ h.
          keep (new_record manifest mnt h "ro" manifest.write_policy now))

  unfoldable pub mount_at :
      Manager
      → ChildManifest
      → FilePath
      → Bool
      → Bool
      → Seconds
      → State
      → State × Result MountRecord
  mount_at m manifest mnt require_existing increment_ref now =
      reuse_existing manifest mnt "ro" increment_ref now
      >>= or_mount (mount_new_ro m manifest mnt require_existing now)
