-- ===== src/Manifest.antt =====
-- The records of src/ccc_storage_core/manifest.py. An `int` is a natural number: the sizes,
-- levels, generations and versions that the program writes are not negative.
pub mod WritePolicy
pub mod Value
pub mod Encode
pub mod Decode
pub mod Parts
pub mod RoundTrip
use ccc_storage.Base.{ℕ, String, Bool, false, Option, none, List, []}

abbrev pub schema_version_max : ℕ
schema_version_max = 1

abbrev pub write_policy_shared_nfs : String
write_policy_shared_nfs = "shared-nfs"

abbrev pub write_policy_local_ssd_async : String
write_policy_local_ssd_async = "local-ssd-async"

pub record PackInfo : Type 0 where
  pub path : String
  pub sha256 : String
  pub size : ℕ
  pub file_count : Option ℕ
  pub block : String
  pub comp : String
  pub level : ℕ
  pub generation_min : ℕ
  pub generation_max : ℕ
  pub kind : String

-- The packs stand oldest first.
pub record PackStack : Type 0 where
  pub active_revision : String
  pub lowers : List PackInfo

pub record OverlayInfo : Type 0 where
  pub mode : String
  pub active_upper : String
  pub overlay_generation : ℕ

pub record ColdStorageInfo : Type 0 where
  pub backend : String
  pub mode : String
  pub pack_state : String
  pub snapshot_state : String
  pub pack_generation : ℕ
  pub mirror_generation : ℕ
  pub overlay_generation : ℕ
  pub uri : String
  pub archived_at : String
  pub last_mirrored_at : String
  pub last_recalled_at : String
  pub last_accessed_at : String

pub record ChildBoundary : Type 0 where
  pub path : String
  pub child_id : String
  pub mount_policy : String
  pub export_policy : String

pub record ChildManifest : Type 0 where
  pub id : String
  pub name : String
  pub type : String
  pub generation : ℕ
  pub state : String
  pub schema_version : ℕ
  pub parent_id : String
  pub parent_path : String
  pub created_ts : String
  pub pinned : Bool
  pub commit_mode : String
  pub write_policy : String
  pub pack_stack : PackStack
  pub overlay : OverlayInfo
  pub s3 : ColdStorageInfo
  pub child_boundaries : List ChildBoundary

-- `PackStack()`, `OverlayInfo()` and `ColdStorageInfo()`.
abbrev pub default_pack_stack : PackStack
default_pack_stack = record { active_revision = ""; lowers = [] }

abbrev pub default_overlay : OverlayInfo
default_overlay = record { mode = "none"; active_upper = ""; overlay_generation = 0 }

abbrev pub default_cold_storage : ColdStorageInfo
default_cold_storage = record {
  backend = "s3";
  mode = "";
  pack_state = "missing";
  snapshot_state = "unavailable";
  pack_generation = 0;
  mirror_generation = 0;
  overlay_generation = 0;
  uri = "";
  archived_at = "";
  last_mirrored_at = "";
  last_recalled_at = "";
  last_accessed_at = "";
}

-- `ChildManifest(id, name, type, generation)`, every other field at its default.
abbrev pub new_manifest : String → String → String → ℕ → ChildManifest
new_manifest id name type generation = record {
  id = id;
  name = name;
  type = type;
  generation = generation;
  state = "clean";
  schema_version = schema_version_max;
  parent_id = "";
  parent_path = "";
  created_ts = "";
  pinned = false;
  commit_mode = "auto";
  write_policy = write_policy_shared_nfs;
  pack_stack = default_pack_stack;
  overlay = default_overlay;
  s3 = default_cold_storage;
  child_boundaries = [];
}

-- `PackInfo(path, sha256, size)`, every other field at its default.
abbrev pub new_pack : String → String → ℕ → PackInfo
new_pack path sha256 size = record {
  path = path;
  sha256 = sha256;
  size = size;
  file_count = none;
  block = "1M";
  comp = "zstd";
  level = 0;
  generation_min = 0;
  generation_max = 0;
  kind = "base";
}
