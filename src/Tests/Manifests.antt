-- ===== src/Tests/Manifests.antt =====
-- A manifest written and read back, owners of paths, retired packs and the commit policy, at concrete data.
use ccc_storage.Base.{
  ℕ, ◌-◌, ◌≡◌, ◌≢◌, refl, ◌↔◌, ◌⊎◌, String, true, false, some, List, [], ◌∷◌, Result, ok, raised,
  value_error, ◌>>=◌, arith, leb, if◌then◌else◌,
}
use ccc_storage.Base.Text.{strip}
use ccc_storage.Manifest.{PackInfo, ChildBoundary, ChildManifest, new_pack, new_manifest}
use ccc_storage.Manifest.Value.{Value}
use ccc_storage.Manifest.Encode.{manifest_to_dict}
use ccc_storage.Manifest.Decode.{manifest_from_dict}
use ccc_storage.Manifest.WritePolicy.{
  IsWritePolicy, normalize_write_policy, normalize_write_policy-IsWritePolicy,
}
use ccc_storage.Manifest.RoundTrip.{canonical_manifest, manifest_from_dict-manifest_to_dict}
use ccc_storage.Gc.{Activity, IsQuiet, plan_gc, plan_gc-IsQuiet}
use ccc_storage.CommitPolicy.{
  Clock, CommitPolicy, PolicyInputs, trigger, manual, noop, evaluate, Entry, directory, readable,
  unreadable, overlay_inputs, IsDue, evaluate_iff,
}
use ccc_storage.Paths.{normalize}
use ccc_storage.Resolve.{resolve_owner_path, from_manifests, parent_of, boundaries_of}
use ccc_storage.Resolve.Owner.{IsOwner, resolve_owner_path-IsOwner}
use ccc_storage.Resolve.Parents.{parent_of-from_manifests, boundaries_of-from_manifests}

abbrev repr : Value → String
repr v = "?"

abbrev read_int : String → Result ℕ
read_int s = raised value_error

abbrev boundary : String → String → ChildBoundary
boundary path child_id = record {
  path = path;
  child_id = child_id;
  mount_policy = "lazy";
  export_policy = "explicit";
}

abbrev boundaries : List ChildBoundary
boundaries = boundary "/data/" "p:data" ∷ boundary "data/raw" "p:raw" ∷ boundary "/" "p:all" ∷ []

abbrev projects : ChildManifest
projects = record (new_manifest "p" "projects" "project" 3) {
  write_policy = " Local ";
  pack_stack = record {
    active_revision = "g3";
    lowers = record (new_pack "a.dwarfs" "00" 12) { kind = "" } ∷ [];
  };
  child_boundaries = boundaries;
}

abbrev orphan : ChildManifest
orphan = record (new_manifest "p:raw" "raw" "dataset" 1) { parent_id = "q"; parent_path = "/old/" }

manifest_from_dict-manifest_to_dict_example :
    (manifest_to_dict projects >>= manifest_from_dict repr read_int)
    ≡ ok (canonical_manifest projects "local-ssd-async")
manifest_from_dict-manifest_to_dict_example =
    manifest_from_dict-manifest_to_dict repr read_int projects "local-ssd-async" (omega arith)
      normal
  where
    normal : normalize_write_policy (some " Local ") ≡ ok "local-ssd-async"
    normal = unfold normalize_write_policy in refl

normalize_write_policy-IsWritePolicy_example :
    IsWritePolicy "local-ssd-async"
    × (normalize_write_policy (some "local-ssd-async") ≡ ok "local-ssd-async")
normalize_write_policy-IsWritePolicy_example =
    normalize_write_policy-IsWritePolicy (some "SSD") "local-ssd-async"
      (unfold normalize_write_policy in refl)

resolve_owner_path-IsOwner_example :
    IsOwner boundaries
      (normalize "/data//raw/x")
      "p"
      (resolve_owner_path boundaries "/data//raw/x" "p")
resolve_owner_path-IsOwner_example = resolve_owner_path-IsOwner boundaries "/data//raw/x" "p"

parent_of-from_manifests_example :
    parent_of (from_manifests (orphan ∷ projects ∷ [])) "p:raw"
    ≡ some (record { parent_id = "p"; parent_path = "data/raw" })
unfolding strip
parent_of-from_manifests_example = parent_of-from_manifests (orphan ∷ projects ∷ []) "p:raw"

boundaries_of-from_manifests_example :
    boundaries_of (from_manifests (orphan ∷ projects ∷ [])) "p" ≡ boundaries
boundaries_of-from_manifests_example = boundaries_of-from_manifests (orphan ∷ projects ∷ []) "p"

abbrev mounted : Activity
mounted = record {
  active_mount = true;
  dirty = false;
  pending_lock = false;
  admin_override = false;
}

abbrev retired : List PackInfo
retired = new_pack "old.dwarfs" "01" 5 ∷ []

plan_gc-IsQuiet_example :
    (IsQuiet projects mounted
      × (plan_gc projects retired mounted
          ≡ record { evictable = retired; blocked = []; reasons = [] }))
    ⊎ ((¬ IsQuiet projects mounted)
        × ((plan_gc projects retired mounted).evictable ≡ [])
        × ((plan_gc projects retired mounted).blocked ≡ retired)
        × ((plan_gc projects retired mounted).reasons ≢ []))
plan_gc-IsQuiet_example = plan_gc-IsQuiet projects retired mounted

-- Times in whole seconds.
abbrev seconds : Clock
seconds = record {
  Seconds = ℕ;
  zero_seconds = 0;
  at_least = λ a b. leb b a;
  earlier = λ a b. if leb a b then a else b;
  later = λ a b. if leb a b then b else a;
  minus = λ a b. a - b;
}

abbrev auto : CommitPolicy seconds
auto = record {
  mode = "auto";
  max_dirty_bytes = 1000;
  max_file_count = 50;
  min_quiet_seconds = 10;
  max_age_seconds = 60;
}

abbrev busy : PolicyInputs seconds
busy = record { dirty = true; bytes = 1000; file_count = 3; age_seconds = 20; quiet_seconds = 5 }

evaluate_iff_example :
    ((evaluate seconds auto busy ≡ trigger)
      ↔ ((busy.dirty ≡ true) × (auto.mode ≢ "manual") × IsDue seconds auto busy))
    × ((evaluate seconds auto busy ≡ manual) ↔ ((busy.dirty ≡ true) × (auto.mode ≡ "manual")))
evaluate_iff_example = evaluate_iff seconds auto busy

evaluate_runs :
    (evaluate seconds auto busy ≡ noop)
    × (evaluate seconds auto (record busy { quiet_seconds = 10 }) ≡ trigger)
unfolding evaluate
evaluate_runs = (refl, refl)

abbrev upper : List (Entry seconds)
upper = directory ∷ readable 7 3 ∷ unreadable ∷ readable 5 1 ∷ []

overlay_inputs_runs :
    overlay_inputs seconds upper 20
    ≡ record { dirty = true; bytes = 12; file_count = 3; age_seconds = 19; quiet_seconds = 17 }
unfolding overlay_inputs
overlay_inputs_runs = refl
