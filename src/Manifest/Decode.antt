-- ===== src/Manifest/Decode.antt =====
-- The `from_dict` methods of src/ccc_storage_core/manifest.py. Python's `str` of a value that is
-- no text, and its `int` of a text, are parameters.
use ccc_storage.Base.{
  ℕ, String, Bool, false, Option, none, some, List, [], ◌∷◌, Result, ok, raised, type_error,
  unsupported_schema_version, ◌>>=◌, ltb, if◌then◌else◌,
}
use ccc_storage.Base.Text.{strip, is_slash}
use ccc_storage.Manifest.{
  PackInfo, PackStack, OverlayInfo, ColdStorageInfo, ChildBoundary, ChildManifest,
  default_pack_stack, default_overlay, default_cold_storage, schema_version_max,
  write_policy_shared_nfs,
}
use ccc_storage.Manifest.WritePolicy.{normalize_write_policy}
use ccc_storage.Manifest.Value.{
  Value, text, int, bool, table, Items, nil, item, Fields, get, index, truth, subscripted, with_get,
  iterated,
}

module _ (repr : Value → String) (read_int : String → Result ℕ) where
  -- `str(value)`
  abbrev pub str : Value → String
  str (text s) = s
  str v = repr v

  -- `int(value)`
  abbrev pub to_int : Value → Result ℕ
  to_int (int n) = ok n
  to_int (bool b) = ok (if b then 1 else 0)
  to_int (text s) = read_int s
  to_int v = raised type_error

  -- `str(d.get(key, default))` and `int(d.get(key, default))`
  abbrev pub str_or : Option Value → String → String
  str_or none default = default
  str_or (some v) default = str v

  abbrev pub int_or : Option Value → ℕ → Result ℕ
  int_or none default = ok default
  int_or (some v) default = to_int v

  -- `None if d.get(key) is None else int(d.get(key))`
  abbrev pub int_or_none : Option Value → Result (Option ℕ)
  int_or_none none = ok none
  int_or_none (some v) = do n ← to_int v; ok (some n)

  unfoldable pub pack_from_dict : Value → Result PackInfo
  pack_from_dict v = do
    d ← subscripted v
    path ← index d "path"
    sha256 ← index d "sha256"
    size ← index d "size"
    size ← to_int size
    file_count ← int_or_none (get d "file_count")
    level ← int_or (get d "level") 0
    generation_min ← int_or (get d "generation_min") 0
    generation_max ← int_or (get d "generation_max") 0
    ok (record {
      path = str path;
      sha256 = str sha256;
      size = size;
      file_count = file_count;
      block = str_or (get d "block") "1M";
      comp = str_or (get d "comp") "zstd";
      level = level;
      generation_min = generation_min;
      generation_max = generation_max;
      kind = str_or (get d "kind") "base";
    })

  unfoldable pub packs_from_items : Items → Result (List PackInfo)
  packs_from_items nil = ok []
  packs_from_items (item v rest) = do
    pack ← pack_from_dict v
    packs ← packs_from_items rest
    ok (pack ∷ packs)

  -- `data.get("lowers", [])` in a loop
  abbrev pub iterated_or_nil : Option Value → Result Items
  iterated_or_nil none = ok nil
  iterated_or_nil (some v) = iterated v

  unfoldable pub filled_stack : Value → Result PackStack
  filled_stack v = do
    d ← with_get v
    items ← iterated_or_nil (get d "lowers")
    lowers ← packs_from_items items
    ok (record { active_revision = str_or (get d "active_revision") ""; lowers = lowers })

  unfoldable pub filled_overlay : Value → Result OverlayInfo
  filled_overlay v = do
    d ← with_get v
    overlay_generation ← int_or (get d "overlay_generation") 0
    ok (record {
      mode = str_or (get d "mode") "none";
      active_upper = str_or (get d "active_upper") "";
      overlay_generation = overlay_generation;
    })

  unfoldable pub filled_cold : Value → Result ColdStorageInfo
  filled_cold v = do
    d ← with_get v
    pack_generation ← int_or (get d "pack_generation") 0
    mirror_generation ← elim (get d "mirror_generation") [
      | none ↦ int_or (get d "pack_generation") 0
      | some m ↦ to_int m
    ]
    overlay_generation ← int_or (get d "overlay_generation") 0
    ok (record {
      backend = str_or (get d "backend") "s3";
      mode = str_or (get d "mode") "";
      pack_state = str_or (get d "pack_state") "missing";
      snapshot_state = str_or (get d "snapshot_state") "unavailable";
      pack_generation = pack_generation;
      mirror_generation = mirror_generation;
      overlay_generation = overlay_generation;
      uri = str_or (get d "uri") "";
      archived_at = str_or (get d "archived_at") "";
      last_mirrored_at = str_or (get d "last_mirrored_at") "";
      last_recalled_at = str_or (get d "last_recalled_at") "";
      last_accessed_at = str_or (get d "last_accessed_at") "";
    })

  -- `if not data: return cls()`
  abbrev pub unless_falsy {ℓ} : {A : Type ℓ} → Option Value → A → (Value → Result A) → Result A
  unless_falsy none default read = ok default
  unless_falsy (some v) default read = if truth v then read v else ok default

  unfoldable pub stack_from_dict : Option Value → Result PackStack
  unfolding filled_stack
  stack_from_dict v = unless_falsy v default_pack_stack filled_stack

  unfoldable pub overlay_from_dict : Option Value → Result OverlayInfo
  unfolding filled_overlay
  overlay_from_dict v = unless_falsy v default_overlay filled_overlay

  unfoldable pub cold_from_dict : Option Value → Result ColdStorageInfo
  unfolding filled_cold
  cold_from_dict v = unless_falsy v default_cold_storage filled_cold

  unfoldable pub boundary_from_dict : Value → Result ChildBoundary
  boundary_from_dict v = do
    d ← subscripted v
    path ← index d "path"
    child_id ← index d "child_id"
    ok (record {
      path = strip is_slash (str path);
      child_id = str child_id;
      mount_policy = str_or (get d "mount_policy") "lazy";
      export_policy = str_or (get d "export_policy") "explicit";
    })

  unfoldable pub boundaries_from_items : Items → Result (List ChildBoundary)
  boundaries_from_items nil = ok []
  boundaries_from_items (item v rest) = do
    boundary ← boundary_from_dict v
    boundaries ← boundaries_from_items rest
    ok (boundary ∷ boundaries)

  -- `data.get("child_boundary", [])`; a single table is wrapped into a list.
  abbrev pub boundary_values : Option Value → Result Items
  boundary_values none = ok nil
  boundary_values (some (table d)) = ok (item (table d) nil)
  boundary_values (some v) = iterated v

  -- `str(a or b)`, where an absent value is `None`
  abbrev pub str_either : Option Value → Option Value → String
  str_either none other = str_or other "None"
  str_either (some v) other = if truth v then str v else str_or other "None"

  -- `a or b`
  abbrev pub either : Option Value → Option Value → Option Value
  either none other = other
  either (some v) other = if truth v then some v else other

  abbrev pub truth_of : Option Value → Bool
  truth_of none = false
  truth_of (some v) = truth v

  unfoldable pub supported_from_dict : Fields → ℕ → Result ChildManifest
  supported_from_dict d version = do
    name ← index d "name"
    type ← index d "type"
    generation ← int_or (get d "generation") 0
    write_policy ←
        normalize_write_policy (some (str_or (get d "write_policy") write_policy_shared_nfs))
    pack_stack ← stack_from_dict (get d "pack_stack")
    overlay ← overlay_from_dict (get d "overlay")
    s3 ← cold_from_dict (either (get d "cold_storage") (get d "s3"))
    items ← boundary_values (get d "child_boundary")
    child_boundaries ← boundaries_from_items items
    ok (record {
      id = str_either (get d "id") (get d "name");
      name = str name;
      type = str type;
      generation = generation;
      state = str_or (get d "state") "clean";
      schema_version = version;
      parent_id = str_or (get d "parent_id") "";
      parent_path = str_or (get d "parent_path") "";
      created_ts = str_or (get d "created_ts") "";
      pinned = truth_of (get d "pinned");
      commit_mode = str_or (get d "commit_mode") "auto";
      write_policy = write_policy;
      pack_stack = pack_stack;
      overlay = overlay;
      s3 = s3;
      child_boundaries = child_boundaries;
    })

  unfoldable pub manifest_from_dict : Fields → Result ChildManifest
  unfolding supported_from_dict
  manifest_from_dict d = do
    version ← int_or (get d "schema_version") 1
    if ltb schema_version_max version
        then raised unsupported_schema_version
        else supported_from_dict d version
