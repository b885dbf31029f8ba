-- ===== src/Tests/Mounts.antt =====
-- A manager that mounts a child for its local writer, and another child that another node writes
-- (childmount.py).
use ccc_storage.Base.{
  ℕ, ◌≡◌, refl, Bool, true, false, String, str_eq, none, some, [], ◌∷◌, ok, map, Bool-cases, inl,
  inr, if◌then◌else◌,
}
use ccc_storage.Locks.{LockFile, absent, present, acquire}
use ccc_storage.Manifest.{ChildManifest, new_manifest}
use ccc_storage.Overlay.Mirror.{no_mirror, latest_dirty_mirror}
use ccc_storage.Base.Dict.{lookup, assign}
use ccc_storage.PackReader.{
  path, mount_layered_rw_kernel_overlay, mount_stack_ro, mount_lowers, mount_ro,
}
use ccc_storage.Manifest.WritePolicy.{normalize_write_policy}
use ccc_storage.ChildMounts.{MountRecord, Manager, State, mount_at, reuse_existing}
use ccc_storage.ChildMounts.Writable.{
  mount_rw_at, hydrate_local_upper, ensure_local_upper, mount_local, mount_rw_local_ssd_async,
  mount_published_mirror_ro,
}
use ccc_storage.ChildMounts.Release.{publish_all_dirty, release_child, idle_unmount_expired}
use ccc_storage.ChildMounts.Locking.{IsSound, owns}
use ccc_storage.ChildMounts.Steps.{
  Steps, stay, next, mounts_rw, publishes_all, releases, reaps, Steps-IsSound,
}
use ccc_storage.Tests.Packs.{host, nothing, two_packs}
use ccc_storage.Tests.Ticks.{seconds}

-- A file is its number of bytes.
abbrev same : ℕ → ℕ
same n = n

abbrev manager : Manager seconds host ℕ same
manager = record {
  run_dir = path "/run";
  prefer_kernel = false;
  nfs_root = some (path "/nfs");
  local_overlay_root = path "/ssd";
  node_id = "n";
  process = record { node = "n"; pid = 7 };
  stale_after = 3600;
}

abbrev of_other : String → LockFile seconds
of_other id = if str_eq id "b" then present none 5 else absent

abbrev start : State seconds host ℕ same
start = record {
  records = [];
  table = nothing;
  lock_file = of_other;
  mirror = λ id. no_mirror ℕ ℕ;
  upper = λ id. none;
}

abbrev foreign : String → Bool
foreign id = str_eq id "b"

start-IsSound : IsSound seconds host ℕ same foreign start
unfolding lookup
start-IsSound id = elim (Bool-cases (str_eq id "b")) [
  | inl e ↦ (rw e refl, rw e refl, tt)
  | inr e ↦ (rw e refl, rw e refl, tt)
]

abbrev async_child : String → ChildManifest
async_child id = record (new_manifest id id "project" 3) {
  write_policy = "local-ssd-async";
  pack_stack = record { active_revision = "1"; lowers = two_packs };
}

abbrev mounted : State seconds host ℕ same
mounted =
    (mount_rw_at seconds host ℕ same manager (async_child "a") (path "/m/a") false true 10 start).0

abbrev both : State seconds host ℕ same
both =
    (mount_rw_at seconds host ℕ same manager (async_child "b") (path "/m/b") false true 11
      mounted).0

both-copied :
    (hydrate_local_upper seconds host ℕ same "b"
      (ensure_local_upper seconds host ℕ same "b" mounted)).1
    ≡ ok tt
unfolding mount_rw_at hydrate_local_upper reuse_existing mount_local mount_rw_local_ssd_async
    mount_layered_rw_kernel_overlay acquire mount_lowers mount_ro latest_dirty_mirror
    normalize_write_policy mount_published_mirror_ro lookup assign
both-copied = refl

mounted-copied :
    (hydrate_local_upper seconds host ℕ same "a"
      (ensure_local_upper seconds host ℕ same "a" start)).1
    ≡ ok tt
unfolding hydrate_local_upper latest_dirty_mirror
mounted-copied = refl

abbrev summary : String × MountRecord seconds host ℕ same → String × String × Bool
summary (id, r) = (id, r.mode, owns seconds host ℕ same foreign (some r))

-- The writer has the lock; the other child is mounted read-only, from its packs.
both_runs : map summary both.records ≡ (("a", "rw", true) ∷ ("b", "ro", false) ∷ [])
unfolding mount_rw_at hydrate_local_upper reuse_existing mount_local mount_published_mirror_ro
    mount_at mount_stack_ro mount_rw_local_ssd_async mount_layered_rw_kernel_overlay acquire
    mount_lowers mount_ro normalize_write_policy latest_dirty_mirror lookup assign
both_runs = refl

abbrev saved : State seconds host ℕ same
saved = (publish_all_dirty seconds host ℕ same manager 12 both).0

abbrev idle : State seconds host ℕ same
idle = (release_child seconds host ℕ same "a" 20 saved).0

abbrev expired : State seconds host ℕ same
expired = (idle_unmount_expired seconds host ℕ same manager 60 100 idle).0

calls : Steps seconds host ℕ same manager start expired
calls = next (mounts_rw (async_child "a") (path "/m/a") false true 10 mounted-copied) (
    next (mounts_rw (async_child "b") (path "/m/b") false true 11 both-copied)
      (next (publishes_all 12) (next (releases "a" 20) (next (reaps 60 100) stay))))

Steps-IsSound_example : IsSound seconds host ℕ same foreign expired
Steps-IsSound_example =
    Steps-IsSound seconds host ℕ same foreign manager start expired calls start-IsSound
