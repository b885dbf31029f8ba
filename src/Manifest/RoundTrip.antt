-- ===== src/Manifest/RoundTrip.antt =====
-- Reading back what `ChildManifest.to_dict` of src/ccc_storage_core/manifest.py wrote.
use ccc_storage.Base.{
  ℕ, ◌≤◌, ◌≡◌, refl, String, Bool, true, false, not, ◌&&◌, Option, none, some, List, [], ◌∷◌, map,
  Result, ok, ◌>>=◌, arith, ltb, str_eq, str_eq_iff, if◌then◌else◌,
}
use ccc_storage.Base.Text.{is_empty}
use ccc_storage.Manifest.{ChildBoundary, ChildManifest, schema_version_max, write_policy_shared_nfs}
use ccc_storage.Manifest.WritePolicy.{normalize_write_policy, normalize_write_policy-IsWritePolicy}
use ccc_storage.Manifest.Value.{Value, text, bool, int, list, Fields, get, dict_laws, get-put}
use ccc_storage.Manifest.Encode.{
  boundary_items, put_boundaries, manifest_to_dict, start_dict, finish_dict,
}
use ccc_storage.Manifest.Decode.{
  str_or, truth_of, boundary_values, supported_from_dict, manifest_from_dict,
}
use ccc_storage.Manifest.Parts.{
  canonical_stack, canonical_boundary, stack_from_dict-stack_to_dict,
  overlay_from_dict-overlay_to_dict, cold_from_dict-cold_to_dict,
  boundaries_from_items-boundary_items, str_or_empty, truth-cold_to_dict,
}

-- What a manifest reads back as: a missing id is the name, a missing commit mode is "auto", the
-- write policy is the normalised one, and the packs and boundaries are canonical.
abbrev pub canonical_manifest : ChildManifest → String → ChildManifest
canonical_manifest m policy = record m {
  id = if not (is_empty m.id) then m.id else m.name;
  commit_mode = if is_empty m.commit_mode then "auto" else m.commit_mode;
  write_policy = policy;
  pack_stack = canonical_stack m.pack_stack;
  child_boundaries = map canonical_boundary m.child_boundaries;
}

or_boundaries : List ChildBoundary → Option Value → Option Value
or_boundaries [] before = before
or_boundaries (b ∷ rest) before = some (list (boundary_items (b ∷ rest)))

get-put_boundaries :
    (d : Fields) (boundaries : List ChildBoundary) (other : String)
    → get (put_boundaries d boundaries) other ≡ (
        if str_eq "child_boundary" other
        then or_boundaries boundaries (get d other)
        else get d other)
unfolding put_boundaries or_boundaries
get-put_boundaries d [] other = ground arith
get-put_boundaries d (b ∷ rest) other =
    get-put d "child_boundary" (list (boundary_items (b ∷ rest))) other

-- A manifest whose write policy is valid can be written.
pub manifest_to_dict-ok :
    (m : ChildManifest) (policy : String)
    → normalize_write_policy (some m.write_policy) ≡ ok policy
    → (d : Fields) × (manifest_to_dict m ≡ ok d)
unfolding manifest_to_dict
manifest_to_dict-ok m policy valid = rw valid (_, refl)

module _ (repr : Value → String) (read_int : String → Result ℕ) where
  truth_of-pinned :
      (pinned : Bool)
      → truth_of repr read_int (if pinned then some (bool pinned) else none) ≡ pinned
  truth_of-pinned true = refl
  truth_of-pinned false = refl

  str_or-commit_mode :
      (mode : String)
      → str_or repr read_int
          (if not (is_empty mode) && not (str_eq mode "auto") then some (text mode) else none)
          "auto"
        ≡ (if is_empty mode then "auto" else mode)
  str_or-commit_mode String.[] = refl
  str_or-commit_mode (String.◌∷◌ c s) = ground (arith, str_eq_iff (String.◌∷◌ c s) "auto")

  str_or-write_policy :
      (policy : String)
      → str_or repr read_int
          (if not (str_eq policy write_policy_shared_nfs) then some (text policy) else none)
          write_policy_shared_nfs
        ≡ policy
  str_or-write_policy policy = ground (arith, str_eq_iff policy write_policy_shared_nfs)

  boundary_values-or_boundaries :
      (boundaries : List ChildBoundary)
      → boundary_values repr read_int (or_boundaries boundaries none)
        ≡ ok (boundary_items boundaries)
  unfolding or_boundaries boundary_items
  boundary_values-or_boundaries [] = refl
  boundary_values-or_boundaries (b ∷ rest) = refl

  supported_from_dict-finish_dict :
      (m : ChildManifest) (policy : String) (version : ℕ)
      → normalize_write_policy (some policy) ≡ ok policy
      → supported_from_dict repr read_int (finish_dict m (start_dict m) policy) version
        ≡ ok (record (canonical_manifest m policy) { schema_version = version })
  unfolding supported_from_dict finish_dict start_dict
  supported_from_dict-finish_dict m policy version fixed = simp (
    dict_laws, get-put_boundaries, str_or-write_policy, fixed, stack_from_dict-stack_to_dict,
    overlay_from_dict-overlay_to_dict, truth-cold_to_dict, cold_from_dict-cold_to_dict,
    str_or_empty, str_or-commit_mode, truth_of-pinned, boundary_values-or_boundaries,
    boundaries_from_items-boundary_items,
  )

  get-schema_version :
      (m : ChildManifest) (policy : String)
      → get (finish_dict m (start_dict m) policy) "schema_version" ≡ some (int m.schema_version)
  unfolding finish_dict start_dict
  get-schema_version m policy = simp (dict_laws, get-put_boundaries)

  manifest_from_dict-finish_dict :
      (m : ChildManifest) (policy : String)
      → m.schema_version ≤ schema_version_max
      → normalize_write_policy (some policy) ≡ ok policy
      → manifest_from_dict repr read_int (finish_dict m (start_dict m) policy)
        ≡ ok (canonical_manifest m policy)
  unfolding manifest_from_dict
  manifest_from_dict-finish_dict m policy known fixed =
      let supported : ltb schema_version_max m.schema_version ≡ false = ground arith in
      rw (get-schema_version, supported)
        (supported_from_dict-finish_dict m policy m.schema_version fixed)

  -- A manifest of a known schema version whose write policy is valid can be written, and reads
  -- back as itself in canonical form: an empty id is the name, an empty commit mode "auto", an
  -- empty kind of a pack "base", the write policy is normalised and the paths of the boundaries
  -- are stripped of slashes. All else is what was written, whatever `str` of a value that is no
  -- text and `int` of a text do.
  pub manifest_from_dict-manifest_to_dict :
      (m : ChildManifest) (policy : String)
      → m.schema_version ≤ schema_version_max
      → normalize_write_policy (some m.write_policy) ≡ ok policy
      → (manifest_to_dict m >>= manifest_from_dict repr read_int) ≡ ok (canonical_manifest m policy)
  unfolding manifest_to_dict
  manifest_from_dict-manifest_to_dict m policy known valid = rw valid (
      manifest_from_dict-finish_dict m policy known
        ((normalize_write_policy-IsWritePolicy (some m.write_policy) policy valid).1))
