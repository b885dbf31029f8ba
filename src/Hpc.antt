-- ===== src/Hpc.antt =====
-- src/ccc_storage_hpc/closure.py and StagedPackset of src/ccc_storage_hpc/client.py: the mount graph of
-- a root and selected children, and the lookup of paths in it (its types: src/ccc_storage_pack/bundle.py).
pub mod Closure
pub mod ImportQueue
use Prim.Native.String.{◌++◌ as ◌<>◌}
use ccc_storage.Base.{
  String, ℕ, Bool, true, false, not, ◌||◌, ltb, Option, none, some, List, [], ◌∷◌, Result, raised,
  ok, key_error, excluded_child, file_not_found, str_eq, if◌then◌else◌,
}
use ccc_storage.Base.Text.{is_empty, is_slash, strip, lstrip}
use ccc_storage.Manifest.{ChildBoundary, ChildManifest}
use ccc_storage.Paths.{count, drop_text, starts_with}
use ccc_storage.Resolve.{from_manifests, boundaries_of}

pub record MountGraphNode : Type 0 where
  pub child_id : String
  pub path : String
  pub reason : String

pub record MountGraph : Type 0 where
  pub root : String
  pub included : List MountGraphNode
  pub excluded : List MountGraphNode

abbrev pub included_node : ChildBoundary → MountGraphNode
included_node b = record { child_id = b.child_id; path = b.path; reason = "" }

abbrev pub excluded_node : ChildBoundary → MountGraphNode
excluded_node b = record {
  child_id = b.child_id;
  path = b.path;
  reason = "child boundary not included in this HPC closure";
}

abbrev pub root_node : String → MountGraphNode
root_node root = record { child_id = root; path = "."; reason = "" }

-- `root_id in by_id`
abbrev pub has_id : String → List ChildManifest → Bool
has_id id [] = false
has_id id (m ∷ rest) = str_eq m.id id || has_id id rest

-- The loop over the boundaries, where `selects` says which children are included.
unfoldable pub split_boundaries :
    (String → Bool) → List ChildBoundary → List MountGraphNode × List MountGraphNode
split_boundaries selects [] = ([], [])
split_boundaries selects (b ∷ rest) =
    let (included, excluded) = split_boundaries selects rest in
    if selects b.child_id
    then (included_node b ∷ included, excluded)
    else (included, excluded_node b ∷ excluded)

unfoldable pub compute_mount_closure :
    List ChildManifest → String → (String → Bool) → Result MountGraph
compute_mount_closure manifests root selects =
    let (included, excluded) =
      split_boundaries selects (boundaries_of (from_manifests manifests) root) in
    if not (has_id root manifests)
    then raised key_error
    else ok (record { root = root; included = root_node root ∷ included; excluded = excluded })

-- `sorted(nodes, key=lambda n: len(n.path), reverse=True)`, which keeps the order of equal lengths.
abbrev pub insert_node : MountGraphNode → List MountGraphNode → List MountGraphNode
insert_node n [] = n ∷ []
insert_node n (m ∷ rest) =
    let later = insert_node n rest in
    if ltb (count n.path) (count m.path) then m ∷ later else n ∷ m ∷ rest

unfoldable pub sort_nodes : List MountGraphNode → List MountGraphNode
sort_nodes [] = []
sort_nodes (n ∷ rest) = insert_node n (sort_nodes rest)

abbrev pub is_under : String → String → Bool
is_under clean path = str_eq clean path || starts_with clean (path <> "/")

-- A node of the first loop whose path covers `clean`.
unfoldable pub hits_excluded : String → List MountGraphNode → Bool
hits_excluded clean [] = false
hits_excluded clean (n ∷ rest) = is_under clean (strip is_slash n.path) || hits_excluded clean rest

-- `"" if node.path in ("", ".") else node.path.strip("/")`
abbrev pub node_prefix : MountGraphNode → String
node_prefix n = if is_empty n.path || str_eq n.path "." then "" else strip is_slash n.path

abbrev pub fits : String → MountGraphNode → Bool
fits clean n = is_empty (node_prefix n) || is_under clean (node_prefix n)

-- The first node that fits, and the first of the root.
unfoldable pub first_fit : String → List MountGraphNode → Option MountGraphNode
first_fit clean [] = none
first_fit clean (n ∷ rest) =
    let later = first_fit clean rest in if fits clean n then some n else later

unfoldable pub find_root : String → List MountGraphNode → Option MountGraphNode
find_root root [] = none
find_root root (n ∷ rest) =
    let later = find_root root rest in if str_eq n.child_id root then some n else later

pub record IncludedPath : Type 0 where
  pub child_id : String
  pub path : String
  pub inner_path : String

abbrev pub included_path : MountGraphNode → String → IncludedPath
included_path best clean = record {
  child_id = best.child_id;
  path = clean;
  inner_path =
      if is_empty (node_prefix best)
      then clean
      else lstrip is_slash (drop_text (count (node_prefix best)) clean);
}

abbrev pub or_root : Option MountGraphNode → Option MountGraphNode → String → Result IncludedPath
or_root (some best) root clean = ok (included_path best clean)
or_root none (some root) clean = ok (included_path root clean)
or_root none none clean = raised file_not_found

unfoldable pub lookup_path : MountGraph → String → Result IncludedPath
lookup_path graph rel_path =
    let clean = strip is_slash rel_path in
    if hits_excluded clean (sort_nodes graph.excluded)
    then raised excluded_child
    else or_root (first_fit clean (sort_nodes graph.included)) (find_root graph.root graph.included)
        clean
