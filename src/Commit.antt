-- ===== src/Commit.antt =====
-- The commit of a child (handle_commit of src/ccc_storage_mountd/daemon.py) with the building of its
-- pack (build_delta and build_pack of src/ccc_storage_pack/builder.py), the check of it
-- (verify_pack of src/ccc_storage_pack/verify.py) and the sealing of the upper (overlay.py). Directories that
-- are made and owners that are set are left out.
pub mod Merge
pub mod Following
pub mod Packing
pub mod Mirroring
pub mod Followed
pub mod Calls
pub mod Building
pub mod Outcome
pub mod Handler
pub mod Returns
use Prim.Native.String.{◌++◌ as ◌<>◌}
use ccc_storage.Base.{
  String, ℕ, ◌+◌, ◌==◌, Bool, true, false, not, ◌&&◌, ◌||◌, Option, none, some, List, [], ◌∷◌, ◌++◌,
  map, ◌≡◌, Result, raised, ok, Exception, lock_held, child_mount_error, file_not_found,
  pack_build_error, verification_error, str_eq, if◌then◌else◌,
}
use ccc_storage.Base.Action.{◌>>=◌, return}
use ccc_storage.Base.Text.{is_empty}
use ccc_storage.CommitPolicy.{Clock}
use ccc_storage.Levels.{LevelPolicy, choose_initial_level}
use ccc_storage.Locks.{LockFile, NfsLock, Process, Locked, new_lock, acquire, release}
use ccc_storage.Manifest.{ChildManifest, PackInfo, write_policy_local_ssd_async}
use ccc_storage.Names.{safe_namespace_name}
use ccc_storage.Manifest.Value.{Fields}
use ccc_storage.ObjectStore.{ObjectStore}
use ccc_storage.Overlay.{
  Entries, Node, nil, cons, file, symlink, device, directory, dirty_stats, copytree,
}
use ccc_storage.Overlay.Mirror.{
  DirtyMirror, MirrorDir, latest_dirty_mirror, cleanup_dirty_mirror, tree_at,
}

-- The program that writes a pack, what it leaves at the path of the pack and whether it succeeds;
-- what a mount of the pack shows; and whether a symbolic link leads to a file. The program that
-- extracts a pack, and may fail; the object store of cold storage, and the bytes of a document in it.
pub record PackTool (Blob : Type 0) : Type 1 where
  pub Image : Type 0
  pub mksquashfs : Entries Blob → Option Image → Option Image × Bool
  pub contents : Image → Entries Blob
  pub sha256 : Image → String
  pub size : Image → ℕ
  pub leads_to_file : Blob → Bool
  pub unsquashfs : Option Image → Result (Entries Blob)
  pub store : ObjectStore Image
  pub document : Fields → Image

-- Python's text of a number, and with zeros in front up to four digits.
pub record NumberText : Type 0 where
  pub plain : ℕ → String
  pub padded : ℕ → String

module _ (clock : Clock) (Blob : Type 0) (size_of : Blob → ℕ) (tool : PackTool Blob)
    (text : NumberText) where
  open clock use {Seconds}
  open tool use {Image, mksquashfs, sha256, size, leads_to_file, store}

  -- What the service is made with; `stale_after` is that of a new lock. It mirrors after a commit if it
  -- is configured to and has a store; `stamp` is the time of that.
  pub record Service : Type 0 where
    pub state_root : String
    pub level_policy : LevelPolicy
    pub process : Process clock
    pub stale_after : Seconds
    pub mirrors_after_commit : Bool
    pub cold_prefix : String
    pub backend : String
    pub stamp : String

  -- A child: its manifest, the packs by their path, its active upper and the sealed ones, its dirty
  -- mirror, its local upper on this node, its two lock files, and the objects of cold storage.
  pub record Child : Type 0 where
    pub manifest : ChildManifest
    pub packs : String → Option Image
    pub upper : Option (Entries Blob)
    pub sealed : List (Entries Blob)
    pub mirror : MirrorDir Blob Seconds
    pub local_upper : Option (Entries Blob)
    pub commit_lock : LockFile clock
    pub writer_lock : LockFile clock
    pub objects : store.Objects

  abbrev pub lift : {A : Type 0} → Result A → Child → Child × Result A
  lift answer s = (s, answer)

  abbrev pub put_pack : String → Option Image → Child → Child
  put_pack out image s = record s {
    packs = λ other. if str_eq out other then image else s.packs other;
  }

  -- `ensure_active_upper`
  abbrev pub tree_or_empty : Option (Entries Blob) → Entries Blob
  tree_or_empty none = nil
  tree_or_empty (some tree) = tree

  abbrev pub ensure_active_upper : Child → Child
  ensure_active_upper s = record s { upper = some (tree_or_empty s.upper) }

  -- `seal_active_upper`, which also gives the tree that it moved.
  abbrev pub seal_active_upper : Child → Child × Entries Blob
  seal_active_upper s = (
    record s { upper = some nil; sealed = tree_or_empty s.upper ∷ s.sealed },
    tree_or_empty s.upper,
  )

  -- `cleanup_sealed`, of the upper that was sealed after these; it may be gone already.
  abbrev pub cleanup_sealed : List (Entries Blob) → Child → Child
  cleanup_sealed before s = record s { sealed = before }

  abbrev pub cleanup_local_async_state : Child → Child
  cleanup_local_async_state s = record s {
    mirror = cleanup_dirty_mirror Blob Seconds s.mirror;
    local_upper = none;
  }

  -- `prepare_delta_source` keeps all but devices, as `copytree` does, but does not raise.
  abbrev pub prepare_delta_source : Option (Entries Blob) → Result (Entries Blob)
  prepare_delta_source none = raised pack_build_error
  prepare_delta_source (some tree) = ok (copytree Blob tree)

  unfoldable mutual
    pub count_at : Node Blob → ℕ
    count_at (file b) = 1
    count_at (symlink b) = if leads_to_file b then 1 else 0
    count_at device = 0
    count_at (directory es) = count_files es

    pub count_files : Entries Blob → ℕ
    count_files nil = 0
    count_files (cons name node rest) = count_at node + count_files rest

  -- `build_pack`
  abbrev pub pack_of : String → Entries Blob → Image → PackInfo
  pack_of out tree image = record {
    path = out;
    sha256 = sha256 image;
    size = size image;
    file_count = some (count_files tree);
    block = "1M";
    comp = "zstd";
    level = 0;
    generation_min = 0;
    generation_max = 0;
    kind = "base";
  }

  abbrev pub inspected :
      String → Entries Blob → Child → Option Image × Bool → Child × Result PackInfo
  inspected out tree s (image, false) = (put_pack out image s, raised pack_build_error)
  inspected out tree s (none, true) = (put_pack out none s, raised file_not_found)
  inspected out tree s (some image, true) =
      (put_pack out (some image) s, ok (pack_of out tree image))

  unfoldable pub build_pack : Entries Blob → String → Child → Child × Result PackInfo
  build_pack tree out s = inspected out tree s (mksquashfs tree (s.packs out))

  abbrev pub build_delta : Option (Entries Blob) → String → Child → Child × Result PackInfo
  build_delta source out = lift (prepare_delta_source source) >>= λ tree. build_pack tree out

  abbrev pub checked_pack : PackInfo → Option Image → Result {0} Unit
  checked_pack expected none = raised verification_error
  checked_pack expected (some image) =
      if not (is_empty expected.sha256) && not (str_eq (sha256 image) expected.sha256)
      then raised verification_error
      else if not (size image == expected.size)
      then raised verification_error
      else ok tt

  unfoldable pub verify_pack : String → PackInfo → Child → Result {0} Unit
  verify_pack out expected s = checked_pack expected (s.packs out)

  abbrev pub delta_path : Service → String → ℕ → String
  delta_path service id generation =
      service.state_root
      <> ("/packs/"
          <> (safe_namespace_name id <> ("/delta-g" <> (text.padded generation <> ".sqfs"))))

  abbrev pub upper_path : Service → String → String
  upper_path service id =
      service.state_root <> ("/overlays/" <> (safe_namespace_name id <> "/active"))

  abbrev pub leveled : ℕ → ℕ → PackInfo → PackInfo
  leveled new_generation level pack = record pack {
    level = level;
    generation_min = new_generation;
    generation_max = new_generation;
    kind = "delta";
  }

  abbrev pub updated : Service → ChildManifest → ℕ → String → PackInfo → ChildManifest
  updated service manifest new_generation overlay_mode pack = record manifest {
    generation = new_generation;
    state = "clean";
    pack_stack = record {
      active_revision = "g" <> text.plain new_generation;
      lowers = manifest.pack_stack.lowers ++ (pack ∷ []);
    };
    overlay = record {
      mode = overlay_mode;
      active_upper = upper_path service manifest.id;
      overlay_generation = manifest.overlay.overlay_generation + 1;
    };
  }

  -- `dump_atomic`, the cleanup and `reload_registry`.
  abbrev pub publish_manifest :
      ChildManifest → (Child → Child) → Child → Child × Result ChildManifest
  publish_manifest manifest cleanup s = (cleanup (record s { manifest = manifest }), ok manifest)

  -- `_build_commit_from_source`, as far as the manifest is published.
  unfoldable pub publish_commit :
      Service
      → ChildManifest
      → Option (Entries Blob)
      → ℕ
      → String
      → (Child → Child)
      → Child
      → Child × Result ChildManifest
  publish_commit service manifest source new_generation overlay_mode cleanup =
      let out = delta_path service manifest.id new_generation in
      build_delta source out >>= λ built.
      lift (choose_initial_level service.level_policy built.size) >>= λ level s.
      (lift (verify_pack out (leveled new_generation level built) s) >>= λ done.
      publish_manifest
        (updated service manifest new_generation overlay_mode (leveled new_generation level built))
        cleanup)
        s
