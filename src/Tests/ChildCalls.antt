-- ===== src/Tests/ChildCalls.antt =====
-- Children of a managed parent, created, renamed and removed (managed_parent.py).
use ccc_storage.Base.{
  String, ℕ, ◌≡◌, refl, true, false, none, some, [], ◌∷◌, Result, ok, raised, value_error, str_eq,
  if◌then◌else◌,
}
use ccc_storage.Base.Text.{strip}
use ccc_storage.Base.Dict.{Dict, lookup, assign, discard}
use ccc_storage.Manifest.{ChildManifest, new_manifest, write_policy_shared_nfs}
use ccc_storage.Manifest.Value.{Value, text, bool, Fields, empty, field, get, index}
use ccc_storage.Manifest.Encode.{manifest_to_dict}
use ccc_storage.Manifest.Decode.{
  manifest_from_dict, stack_from_dict, overlay_from_dict, cold_from_dict, boundaries_from_items,
}
use ccc_storage.Manifest.WritePolicy.{normalize_write_policy}
use ccc_storage.Manifest.RoundTrip.{canonical_manifest}
use ccc_storage.ManagedParent.{
  is_valid_name, replace_unsafe, safe_name, manifest_path, exists_in, new_child, create_child,
  renamed, rename_child, remove_child,
}
use ccc_storage.ManagedParent.Children.{create_child-lookup, remove_child-lookup}
use ccc_storage.ManagedParent.Renaming.{IsRenamed, IsSameChild, rename_child-IsRenamed}

abbrev repr : Value → String
repr v = "?"

abbrev read_int : String → Result ℕ
read_int s = raised value_error

safe_names : (safe_name "a  b/c_" ≡ "a_b_c") × (safe_name "___" ≡ "child")
unfolding replace_unsafe strip
safe_names = (refl, refl)

valid_names :
    (is_valid_name "env-a" ≡ true)
    × (is_valid_name ".hidden" ≡ false)
    × (is_valid_name "a/b" ≡ false)
    × (is_valid_name "" ≡ false)
unfolding is_valid_name
valid_names = (refl, refl, refl, refl)

abbrev child : ChildManifest
child = new_child "p" "/data" "raw" "/up"

create_child-lookup_example :
    (written : Fields) × (after : Dict Fields) × (create_child "p" "/data" "raw" "/up" false []
      ≡ (after, ok child))
    × (manifest_from_dict repr read_int written
        ≡ ok (canonical_manifest child write_policy_shared_nfs))
    × ((other : String)
        → lookup after other
          ≡ (if str_eq (manifest_path "raw") other then some written else lookup [] other))
create_child-lookup_example =
    create_child-lookup "p" "/data" repr read_int "raw" "/up" [] valid free
  where
    valid : is_valid_name "raw" ≡ true
    valid = unfold is_valid_name in refl

    free : exists_in [] (manifest_path "raw") ≡ false
    free = unfold lookup in refl

-- One child, whose manifest names little.
abbrev stored : Fields
stored =
    field "name" (text "raw") (field "type" (text "dataset") (field "pinned" (bool true) empty))

abbrev documents : Dict Fields
documents = ("raw.toml", stored) ∷ []

abbrev loaded : ChildManifest
loaded = record (new_manifest "raw" "raw" "dataset" 0) { pinned = true }

loads : manifest_from_dict repr read_int stored ≡ ok loaded
unfolding manifest_from_dict get index normalize_write_policy stack_from_dict overlay_from_dict
    cold_from_dict boundaries_from_items
loads = refl

abbrev cooked : ChildManifest
cooked = renamed "p" "/data" loaded "cooked"

abbrev rename : Dict Fields × Result ChildManifest
rename = rename_child "p" "/data" repr read_int "raw" "cooked" documents

rename_run : rename ≡ (rename.0, ok cooked)
unfolding rename_child remove_child is_valid_name replace_unsafe strip lookup assign discard
    manifest_from_dict get index normalize_write_policy stack_from_dict overlay_from_dict
    cold_from_dict boundaries_from_items manifest_to_dict
rename_run = refl

rename_child-IsRenamed_example :
    (d : Fields) × (m : ChildManifest) × (written : Fields) × (lookup documents
        (manifest_path "raw")
      ≡ some d)
    × (exists_in documents (manifest_path "cooked") ≡ false)
    × (manifest_from_dict repr read_int d ≡ ok m)
    × IsSameChild repr read_int "p" "/data" m cooked "cooked"
    × (manifest_from_dict repr read_int written
        ≡ ok (canonical_manifest cooked write_policy_shared_nfs))
    × IsRenamed repr read_int "p" "/data"
        (manifest_path "raw")
        (manifest_path "cooked")
        documents
        rename.0
        cooked
        written
rename_child-IsRenamed_example =
    rename_child-IsRenamed repr read_int "p" "/data" "raw" "cooked" documents rename.0 cooked
      rename_run

-- The pin is lost.
pin_lost : (loaded.pinned ≡ true) × (cooked.pinned ≡ false)
pin_lost = (refl, refl)

abbrev remove : Dict Fields × Result ChildManifest
remove = remove_child "p" "/data" repr read_int "raw" false documents

remove_run : remove ≡ (remove.0, ok loaded)
unfolding rename_child remove_child is_valid_name replace_unsafe strip lookup assign discard
    manifest_from_dict get index normalize_write_policy stack_from_dict overlay_from_dict
    cold_from_dict boundaries_from_items manifest_to_dict
remove_run = refl

remove_child-lookup_example :
    (d : Fields) × (lookup documents (manifest_path "raw") ≡ some d)
    × (manifest_from_dict repr read_int d ≡ ok loaded)
    × (loaded.generation ≡ 0)
    × (loaded.pack_stack.lowers ≡ [])
    × (false ≡ false)
    × ((other : String)
        → lookup remove.0 other
          ≡ (if str_eq (manifest_path "raw") other then none else lookup documents other))
remove_child-lookup_example =
    remove_child-lookup "p" "/data" repr read_int "raw" false documents remove.0 loaded remove_run
