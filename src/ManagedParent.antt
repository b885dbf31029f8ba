-- ===== src/ManagedParent.antt =====
-- src/ccc_storage_mountd/managed_parent.py: the children of a managed parent, as the manifests in its
-- directory. Given to the calls are the upper of a child's overlay, whether its create lock is held,
-- and whether its overlay is dirty. What the disk may refuse is left out: setting the owner of a new
-- manifest, deleting an old one and making the overlay directories do not fail here.
pub mod Children
pub mod Renaming
use Prim.Native.Char.{Char, code}
use Prim.Native.String.{◌++◌ as ◌<>◌}
use ccc_storage.Base.{
  String, ℕ, Bool, true, false, not, ◌&&◌, ◌||◌, ◌==◌, leb, ltb, Option, none, some, List, [], ◌∷◌,
  Result, raised, ok, managed_parent_error, child_exists, child_not_found, child_not_empty, str_eq,
  if◌then◌else◌,
}
use ccc_storage.Base.Text.{is_empty, strip}
use ccc_storage.Base.Dict.{Dict, lookup, assign, discard}
use ccc_storage.Paths.{starts_with}
use ccc_storage.Manifest.{PackInfo, ChildManifest, new_manifest}
use ccc_storage.Manifest.Value.{Value, Fields}
use ccc_storage.Manifest.Encode.{manifest_to_dict}
use ccc_storage.Manifest.Decode.{manifest_from_dict}

-- `[A-Za-z0-9_.-]`
abbrev pub is_safe : Char → Bool
is_safe c =
    leb 65 (code c) && leb (code c) 90
    || leb 97 (code c) && leb (code c) 122
    || leb 48 (code c) && leb (code c) 57
    || code c == 95
    || code c == 46
    || code c == 45

-- `re.sub(r"[^A-Za-z0-9_.-]+", "_", value)`; `in_run` says that the last character was replaced.
unfoldable pub replace_unsafe : Bool → String → String
replace_unsafe in_run String.[] = ""
replace_unsafe in_run (String.◌∷◌ c rest) =
    let later = replace_unsafe (not (is_safe c)) rest in
    if is_safe c then String.◌∷◌ c later else if in_run then later else String.◌∷◌ "_" later

abbrev pub or_child : String → String
or_child text = if is_empty text then "child" else text

abbrev pub is_underscore : Char → Bool
is_underscore c = code c == 95

abbrev pub safe_name : String → String
safe_name value = or_child (strip is_underscore (replace_unsafe false value))

abbrev pub is_internal_name : String → Bool
is_internal_name name =
    starts_with name "." || (str_eq name ".ccc-storage" || str_eq name "ccc-storage")

abbrev pub has_char : ℕ → String → Bool
has_char n String.[] = false
has_char n (String.◌∷◌ c rest) = code c == n || has_char n rest

-- The names that `_validate_name` lets pass.
unfoldable pub is_valid_name : String → Bool
is_valid_name name =
    not (is_empty name || (str_eq name "." || str_eq name ".."))
    && (not (has_char 47 name || has_char 0 name) && not (is_internal_name name))

-- `self.manifest_path(name)`, in the directory of the children.
abbrev pub manifest_path : String → String
manifest_path name = safe_name name <> ".toml"

abbrev pub exists_in : Dict Fields → String → Bool
exists_in documents path = elim (lookup documents path) [ none ↦ false | some d ↦ true ]

abbrev pub has_packs : List PackInfo → Bool
has_packs [] = false
has_packs (p ∷ rest) = true

module _ (parent_id parent_path : String) where
  abbrev pub new_child : String → String → ChildManifest
  new_child name active_upper =
      record (new_manifest (parent_id <> (":" <> name)) name "dataset" 0) {
        parent_id = parent_id;
        parent_path = parent_path;
        overlay = record {
          mode = "shared-overlay";
          active_upper = active_upper;
          overlay_generation = 0;
        };
      }

  abbrev pub saved :
      Dict Fields → String → ChildManifest → Result Fields → Dict Fields × Result ChildManifest
  saved documents path manifest (raised e) = (documents, raised e)
  saved documents path manifest (ok d) = (assign documents path d, ok manifest)

  unfoldable pub create_child :
      String → String → Bool → Dict Fields → Dict Fields × Result ChildManifest
  create_child name active_upper is_locked documents =
      if not (is_valid_name name)
      then (documents, raised managed_parent_error)
      else if is_locked
      then (documents, raised child_exists)
      else if exists_in documents (manifest_path name)
      then (documents, raised child_exists)
      else saved documents (manifest_path name) (new_child name active_upper)
          (manifest_to_dict (new_child name active_upper))

  -- The manifest that `rename_child` writes: what it does not name has its default.
  abbrev pub renamed : ChildManifest → String → ChildManifest
  renamed m name = record (new_manifest m.id name m.type m.generation) {
    state = m.state;
    schema_version = m.schema_version;
    parent_id = parent_id;
    parent_path = parent_path;
    created_ts = m.created_ts;
    pack_stack = m.pack_stack;
    overlay = m.overlay;
    s3 = m.s3;
    child_boundaries = m.child_boundaries;
  }

  abbrev pub moved_to :
      Dict Fields
      → String
      → String
      → ChildManifest
      → Result Fields
      → Dict Fields × Result ChildManifest
  moved_to documents src dst manifest (raised e) = (documents, raised e)
  moved_to documents src dst manifest (ok d) = (discard (assign documents dst d) src, ok manifest)

  module _ (repr : Value → String) (read_int : String → Result ℕ) where
    abbrev pub rename_loaded :
        String
        → String
        → String
        → Dict Fields
        → Result ChildManifest
        → Dict Fields × Result ChildManifest
    rename_loaded src dst name documents (raised e) = (documents, raised e)
    rename_loaded src dst name documents (ok m) =
        moved_to documents src dst (renamed m name) (manifest_to_dict (renamed m name))

    -- `if dst.exists(): raise ChildExistsError`
    abbrev pub rename_if_free :
        Bool
        → String
        → String
        → String
        → Dict Fields
        → Result ChildManifest
        → Dict Fields × Result ChildManifest
    rename_if_free true src dst name documents loaded = (documents, raised child_exists)
    rename_if_free false src dst name documents loaded = rename_loaded src dst name documents loaded

    abbrev pub rename_found :
        String → String → String → Dict Fields → Option Fields → Dict Fields × Result ChildManifest
    rename_found src dst name documents none = (documents, raised child_not_found)
    rename_found src dst name documents (some d) =
        rename_if_free (exists_in documents dst) src dst name documents
          (manifest_from_dict repr read_int d)

    unfoldable pub rename_child : String → String → Dict Fields → Dict Fields × Result ChildManifest
    rename_child old_name new_name documents =
        if not (is_valid_name new_name)
        then (documents, raised managed_parent_error)
        else rename_found (manifest_path old_name) (manifest_path new_name) new_name documents
            (lookup documents (manifest_path old_name))

    abbrev pub remove_loaded :
        String → Bool → Dict Fields → Result ChildManifest → Dict Fields × Result ChildManifest
    remove_loaded src is_dirty documents (raised e) = (documents, raised e)
    remove_loaded src is_dirty documents (ok m) =
        if ltb 0 m.generation || has_packs m.pack_stack.lowers
        then (documents, raised managed_parent_error)
        else if is_dirty
        then (documents, raised child_not_empty)
        else (discard documents src, ok m)

    abbrev pub remove_found :
        String → Bool → Dict Fields → Option Fields → Dict Fields × Result ChildManifest
    remove_found src is_dirty documents none = (documents, raised child_not_found)
    remove_found src is_dirty documents (some d) =
        remove_loaded src is_dirty documents (manifest_from_dict repr read_int d)

    unfoldable pub remove_child : String → Bool → Dict Fields → Dict Fields × Result ChildManifest
    remove_child name is_dirty documents =
        remove_found (manifest_path name) is_dirty documents (lookup documents (manifest_path name))
