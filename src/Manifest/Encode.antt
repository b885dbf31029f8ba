-- ===== src/Manifest/Encode.antt =====
-- The `to_dict` methods of src/ccc_storage_core/manifest.py.
use ccc_storage.Base.{
  ℕ, String, not, ◌&&◌, Option, none, some, List, [], ◌∷◌, Result, ok, ◌>>=◌, str_eq, ◌==◌,
}
use ccc_storage.Base.Text.{is_empty, strip, is_slash}
use ccc_storage.Manifest.{
  PackInfo, PackStack, OverlayInfo, ColdStorageInfo, ChildBoundary, ChildManifest,
  write_policy_shared_nfs,
}
use ccc_storage.Manifest.WritePolicy.{normalize_write_policy}
use ccc_storage.Manifest.Value.{
  text, int, bool, list, table, Items, nil, item, Fields, empty, put, put_if,
}

-- `if n: d[key] = n` and `if s: d[key] = s`
abbrev pub put_int : Fields → String → ℕ → Fields
put_int d key n = put_if (not (n == 0)) d key (int n)

abbrev pub put_text : Fields → String → String → Fields
put_text d key s = put_if (not (is_empty s)) d key (text s)

-- `if self.file_count is not None: data["file_count"] = self.file_count`
unfoldable pub put_count : Fields → String → Option ℕ → Fields
put_count d key none = d
put_count d key (some n) = put d key (int n)

unfoldable pub pack_to_dict : PackInfo → Fields
pack_to_dict p =
    let d =
      put
        (put
          (put (put (put empty "path" (text p.path)) "sha256" (text p.sha256)) "size" (int p.size))
          "block" (text p.block))
        "comp" (text p.comp) in
    let d = put_count d "file_count" p.file_count in
    let d = put_int d "level" p.level in
    let d = put_int d "generation_min" p.generation_min in
    let d = put_int d "generation_max" p.generation_max in
    put_if (not (is_empty p.kind) && not (str_eq p.kind "base")) d "kind" (text p.kind)

unfoldable pub pack_items : List PackInfo → Items
pack_items [] = nil
pack_items (p ∷ rest) = item (table (pack_to_dict p)) (pack_items rest)

unfoldable pub stack_to_dict : PackStack → Fields
stack_to_dict s =
    put (put empty "active_revision" (text s.active_revision)) "lowers" (list (pack_items s.lowers))

unfoldable pub overlay_to_dict : OverlayInfo → Fields
overlay_to_dict o =
    put (put (put empty "mode" (text o.mode)) "active_upper" (text o.active_upper))
      "overlay_generation" (int o.overlay_generation)

unfoldable pub cold_to_dict : ColdStorageInfo → Fields
cold_to_dict c =
    let d =
      put (put (put empty "backend" (text c.backend)) "pack_state" (text c.pack_state))
        "snapshot_state" (text c.snapshot_state) in
    let d =
      put
        (put (put d "pack_generation" (int c.pack_generation)) "mirror_generation"
          (int c.mirror_generation))
        "overlay_generation" (int c.overlay_generation) in
    let d = put_text d "mode" c.mode in
    let d = put_text d "uri" c.uri in
    let d = put_text d "archived_at" c.archived_at in
    let d = put_text d "last_mirrored_at" c.last_mirrored_at in
    let d = put_text d "last_recalled_at" c.last_recalled_at in
    put_text d "last_accessed_at" c.last_accessed_at

unfoldable pub boundary_to_dict : ChildBoundary → Fields
boundary_to_dict b =
    put
      (put (put (put empty "path" (text (strip is_slash b.path))) "child_id" (text b.child_id))
        "mount_policy" (text b.mount_policy))
      "export_policy" (text b.export_policy)

unfoldable pub boundary_items : List ChildBoundary → Items
boundary_items [] = nil
boundary_items (b ∷ rest) = item (table (boundary_to_dict b)) (boundary_items rest)

-- `if self.child_boundaries: data["child_boundary"] = [...]`
unfoldable pub put_boundaries : Fields → List ChildBoundary → Fields
put_boundaries d [] = d
put_boundaries d (b ∷ rest) = put d "child_boundary" (list (boundary_items (b ∷ rest)))

-- The rest of `ChildManifest.to_dict`, from the normalised write policy on.
unfoldable pub finish_dict : ChildManifest → Fields → String → Fields
finish_dict m d write_policy =
    let d =
      put_if (not (str_eq write_policy write_policy_shared_nfs)) d "write_policy"
        (text write_policy) in
    let d = put d "pack_stack" (table (stack_to_dict m.pack_stack)) in
    let d = put d "overlay" (table (overlay_to_dict m.overlay)) in
    let d = put d "cold_storage" (table (cold_to_dict m.s3)) in put_boundaries d m.child_boundaries

unfoldable pub start_dict : ChildManifest → Fields
start_dict m =
    let d =
      put (put (put empty "schema_version" (int m.schema_version)) "id" (text m.id)) "name"
        (text m.name) in
    let d =
      put (put (put d "type" (text m.type)) "generation" (int m.generation)) "state"
        (text m.state) in
    let d = put_text d "parent_id" m.parent_id in
    let d = put_text d "parent_path" m.parent_path in
    let d = put_text d "created_ts" m.created_ts in
    let d = put_if m.pinned d "pinned" (bool m.pinned) in
    put_if (not (is_empty m.commit_mode) && not (str_eq m.commit_mode "auto")) d "commit_mode"
      (text m.commit_mode)

unfoldable pub manifest_to_dict : ChildManifest → Result Fields
unfolding start_dict finish_dict
manifest_to_dict m = do
  write_policy ← normalize_write_policy (some m.write_policy)
  ok (finish_dict m (start_dict m) write_policy)
