-- ===== src/Resolve.antt =====
-- src/ccc_storage_core/resolve.py: which manifest owns a path, and the parents of the children.
pub mod Owner
pub mod Parents
use Prim.Native.String.{◌++◌ as ◌<>◌}
use ccc_storage.Base.{
  String, ℕ, suc, Bool, true, false, not, ◌&&◌, ◌||◌, Option, none, some, List, [], ◌∷◌, str_eq,
  ltb, if◌then◌else◌,
}
use ccc_storage.Base.Text.{is_empty, is_slash, lstrip, strip}
use ccc_storage.Base.Dict.{Dict, lookup, assign, set_default}
use ccc_storage.Manifest.{ChildBoundary, ChildManifest}
use ccc_storage.Paths.{count, drop_text, starts_with, normalize}

pub record BoundaryMatch : Type 0 where
  pub boundary : Option ChildBoundary
  pub relative_path : String

pub record OwningBoundary : Type 0 where
  pub owner_id : String
  pub boundary : Option ChildBoundary
  pub relative_path : String
  pub inner_path : String

pub record ParentRef : Type 0 where
  pub parent_id : String
  pub parent_path : String

abbrev pub is_parent : OwningBoundary → Bool
is_parent o = elim (o.boundary) [ none ↦ true | some b ↦ false ]

-- `boundary.path.strip("/")`
abbrev pub boundary_path : ChildBoundary → String
boundary_path b = strip is_slash (b.path)

-- The boundary is not skipped, and its path is `clean` or a directory above it.
abbrev pub covers : ChildBoundary → String → Bool
covers b clean =
    not (is_empty (boundary_path b))
    && (str_eq clean (boundary_path b) || starts_with clean (boundary_path b <> "/"))

-- The loop of `_longest_prefix`, where `past` is `best_len + 1`, so that the code's -1 is 0.
unfoldable pub longest_loop :
    String → List ChildBoundary → Option ChildBoundary → ℕ → Option ChildBoundary
longest_loop clean [] best past = best
longest_loop clean (b ∷ rest) best past =
    let hit = covers b clean && ltb past (suc (count (boundary_path b))) in
    longest_loop clean rest (if hit then some b else best)
      (if hit then suc (count (boundary_path b)) else past)

unfoldable pub longest_prefix : List ChildBoundary → String → Option ChildBoundary
longest_prefix boundaries clean = longest_loop clean boundaries none 0

unfoldable pub nearest_boundary : ChildManifest → String → BoundaryMatch
nearest_boundary manifest rel_path =
    let clean = normalize rel_path in
    record { boundary = longest_prefix (manifest.child_boundaries) clean; relative_path = clean }

-- The owner that `resolve_owner_path` returns for the boundary found.
abbrev pub owned_by : Option ChildBoundary → String → String → OwningBoundary
owned_by none clean parent_id = record {
  owner_id = parent_id;
  boundary = none;
  relative_path = clean;
  inner_path = clean;
}
owned_by (some best) clean parent_id = record {
  owner_id = best.child_id;
  boundary = some best;
  relative_path = clean;
  inner_path = lstrip is_slash (drop_text (count (boundary_path best)) clean);
}

unfoldable pub resolve_owner_path : List ChildBoundary → String → String → OwningBoundary
resolve_owner_path boundaries rel_path parent_id =
    let clean = normalize rel_path in owned_by (longest_prefix boundaries clean) clean parent_id

pub record BoundaryRegistry : Type 0 where
  pub boundaries : Dict (List ChildBoundary)
  pub parents : Dict ParentRef
  pub manifests : Dict ChildManifest

abbrev pub empty_registry : BoundaryRegistry
empty_registry = record { boundaries = []; parents = []; manifests = [] }

-- The loop of `add` over the boundaries of the manifest `id`.
unfoldable pub add_parents : String → List ChildBoundary → Dict ParentRef → Dict ParentRef
add_parents id [] parents = parents
add_parents id (b ∷ rest) parents =
    add_parents id rest
      (assign parents (b.child_id) (record { parent_id = id; parent_path = boundary_path b }))

abbrev pub add_boundaries :
    String → List ChildBoundary → Dict (List ChildBoundary) → Dict (List ChildBoundary)
add_boundaries id [] boundaries = boundaries
add_boundaries id (b ∷ rest) boundaries = assign boundaries id (b ∷ rest)

unfoldable pub add : BoundaryRegistry → ChildManifest → BoundaryRegistry
add registry manifest =
    let parents = add_parents (manifest.id) (manifest.child_boundaries) (registry.parents) in
    record {
      boundaries = add_boundaries (manifest.id) (manifest.child_boundaries) (registry.boundaries);
      parents =
          if is_empty (manifest.parent_id)
          then parents
          else set_default parents (manifest.id) (record {
            parent_id = manifest.parent_id;
            parent_path = strip is_slash (manifest.parent_path);
          });
      manifests = assign (registry.manifests) (manifest.id) manifest;
    }

unfoldable pub add_all : BoundaryRegistry → List ChildManifest → BoundaryRegistry
add_all registry [] = registry
add_all registry (manifest ∷ rest) = add_all (add registry manifest) rest

unfoldable pub from_manifests : List ChildManifest → BoundaryRegistry
from_manifests manifests = add_all empty_registry manifests

-- What `get(id, ())` makes of a missing key.
abbrev pub or_empty : Option (List ChildBoundary) → List ChildBoundary
or_empty none = []
or_empty (some bs) = bs

unfoldable pub boundaries_of : BoundaryRegistry → String → List ChildBoundary
boundaries_of registry id = or_empty (lookup (registry.boundaries) id)

abbrev pub ids_of : List ChildBoundary → List String
ids_of [] = []
ids_of (b ∷ rest) = b.child_id ∷ ids_of rest

unfoldable pub child_ids : BoundaryRegistry → String → List String
child_ids registry id = ids_of (boundaries_of registry id)

unfoldable pub parent_of : BoundaryRegistry → String → Option ParentRef
parent_of registry child_id = lookup (registry.parents) child_id

unfoldable pub resolve_owner : BoundaryRegistry → String → String → OwningBoundary
resolve_owner registry parent_id rel_path =
    resolve_owner_path (boundaries_of registry parent_id) rel_path parent_id
