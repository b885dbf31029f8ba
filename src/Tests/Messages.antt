-- ===== src/Tests/Messages.antt =====
-- Messages written and read back, and lookups in a mount closure (protocol.py, closure.py, client.py).
use ccc_storage.Base.{
  String, ℕ, ◌≡◌, refl, ◌⊎◌, Bool, false, List, [], ◌∷◌, Result, ok, raised, value_error,
  excluded_child, str_eq,
}
use ccc_storage.Base.Text.{is_slash, strip}
use ccc_storage.Base.Dict.{lookup, assign}
use ccc_storage.Manifest.{ChildBoundary, ChildManifest, new_manifest}
use ccc_storage.Manifest.Value.{Value, text, int, Fields, empty, field, get}
use ccc_storage.Protocol.{
  Request, Response, request_to_dict, request_from_dict, response_to_dict, response_from_dict,
  messages-round_trip,
}
use ccc_storage.Resolve.{add_parents, add, add_all, from_manifests, boundaries_of}
use ccc_storage.Hpc.{
  MountGraph, IncludedPath, included_node, excluded_node, root_node, split_boundaries,
  compute_mount_closure, sort_nodes, hits_excluded, first_fit, find_root, lookup_path,
}
use ccc_storage.Hpc.Closure.{IsCut, lookup_path-IsCut}

abbrev repr : Value → String
repr v = "?"

abbrev read_int : String → Result ℕ
read_int s = raised value_error

abbrev request : Request
request = record {
  command = "commit";
  path = "/data";
  payload = field "message" (text "x") empty;
  version = 1;
}

abbrev response : Response
response = record { is_ok = false; result = empty; error = "locked"; code = "EBUSY"; version = 1 }

messages-round_trip_example :
    (request_from_dict repr read_int (request_to_dict request) ≡ ok request)
    × (response_from_dict repr read_int (response_to_dict response) ≡ ok response)
messages-round_trip_example = messages-round_trip repr read_int request response refl refl refl

abbrev line : Fields
line = field "command" (text "pin") (field "version" (int 1) empty)

abbrev pin : Request
pin = record { command = "pin"; path = ""; payload = empty; version = 1 }

pin_read : request_from_dict repr read_int line ≡ ok pin
unfolding request_from_dict get
pin_read = refl

abbrev boundary : String → String → ChildBoundary
boundary path child_id = record {
  path = path;
  child_id = child_id;
  mount_policy = "lazy";
  export_policy = "explicit";
}

abbrev manifests : List ChildManifest
manifests =
    record (new_manifest "p" "p" "project" 1) {
      child_boundaries = boundary "a" "p:a" ∷ boundary "b" "p:b" ∷ [];
    }
    ∷ []

abbrev selects : String → Bool
selects id = str_eq id "p:a"

abbrev graph : MountGraph
graph = record {
  root = "p";
  included = root_node "p" ∷ included_node (boundary "a" "p:a") ∷ [];
  excluded = excluded_node (boundary "b" "p:b") ∷ [];
}

closure : compute_mount_closure manifests "p" selects ≡ ok graph
unfolding compute_mount_closure split_boundaries boundaries_of from_manifests add_all add
    add_parents lookup assign
closure = refl

lookup_path-IsCut_example :
    (IsCut selects (boundaries_of (from_manifests manifests) "p") (strip is_slash "b/x")
      × (lookup_path graph "b/x" ≡ raised excluded_child))
    ⊎ ((¬ IsCut selects (boundaries_of (from_manifests manifests) "p") (strip is_slash "b/x"))
        × ((answer : IncludedPath) × (lookup_path graph "b/x" ≡ ok answer)))
lookup_path-IsCut_example = lookup_path-IsCut manifests "p" selects graph "b/x" closure

-- The root, whose path is ".", comes before a child whose path is as long, and its lookup wins.
lookups :
    (lookup_path graph "b/x" ≡ raised excluded_child)
    × (lookup_path graph "/a/x/y"
        ≡ ok (record { child_id = "p"; path = "a/x/y"; inner_path = "a/x/y" }))
unfolding lookup_path sort_nodes hits_excluded first_fit find_root strip
lookups = (refl, refl)
