-- ===== src/Hpc/Closure.antt =====
-- What a closure includes and excludes, and what its lookups answer (closure.py, client.py).
use ccc_storage.Base.{
  String, ◌≡◌, refl, ◌∙◌, ◌↔◌, ◌⊎◌, inl, inr, Bool, true, false, not, ◌||◌, ltb, some, List, [],
  ◌∷◌, raised, ok, excluded_child, arith, Bool-cases, subst,
}
use ccc_storage.Base.Text.{is_slash, strip}
use ccc_storage.Manifest.{ChildBoundary, ChildManifest}
use ccc_storage.Paths.{count}
use ccc_storage.Resolve.{from_manifests, boundaries_of}
use ccc_storage.Hpc.{
  MountGraphNode, MountGraph, root_node, has_id, split_boundaries, compute_mount_closure,
  insert_node, sort_nodes, is_under, hits_excluded, first_fit, lookup_path, fits, included_path,
  IncludedPath,
}

-- A boundary of the root that is not selected covers the path.
abbrev pub IsCut : (String → Bool) → List ChildBoundary → String → Type 0
IsCut selects [] clean = ⊥
IsCut selects (b ∷ rest) clean =
    ((selects b.child_id ≡ false) × (is_under clean (strip is_slash b.path) ≡ true))
    ⊎ IsCut selects rest clean

hits_excluded-insert :
    (clean : String) (n : MountGraphNode) (nodes : List MountGraphNode)
    → hits_excluded clean (insert_node n nodes)
      ≡ (is_under clean (strip is_slash n.path) || hits_excluded clean nodes)
unfolding hits_excluded
hits_excluded-insert clean n [] = refl
hits_excluded-insert clean n (m ∷ rest) = ground (arith, hits_excluded-insert clean n rest)

hits_excluded-sort :
    (clean : String) (nodes : List MountGraphNode)
    → hits_excluded clean (sort_nodes nodes) ≡ hits_excluded clean nodes
unfolding sort_nodes hits_excluded
hits_excluded-sort clean [] = refl
hits_excluded-sort clean (n ∷ rest) =
    hits_excluded-insert clean n (sort_nodes rest) ∙ rw (hits_excluded-sort clean rest) refl

split_boundaries-IsCut :
    (selects : String → Bool) (bs : List ChildBoundary) (clean : String)
    → (hits_excluded clean (split_boundaries selects bs).1 ≡ true) ↔ IsCut selects bs clean
unfolding split_boundaries hits_excluded
split_boundaries-IsCut selects [] clean = ground arith
split_boundaries-IsCut selects (b ∷ rest) clean =
    ground (arith, split_boundaries-IsCut selects rest clean)

first_fit-insert :
    (clean : String) (n : MountGraphNode) (nodes : List MountGraphNode)
    → fits clean n ≡ true
    → (x : MountGraphNode) × (first_fit clean (insert_node n nodes) ≡ some x)
unfolding first_fit
first_fit-insert clean n [] h = (n, rw h refl)
first_fit-insert clean n (m ∷ rest) h = elim (Bool-cases (ltb (count n.path) (count m.path))) [
  | inr e ↦ (n, rw e (rw h refl))
  | inl e ↦ elim (Bool-cases (fits clean m)) [
    | inl f ↦ (m, rw e (rw f refl))
    | inr f ↦ let (x, found) = first_fit-insert clean n rest h in (x, rw e (rw f found))
  ]
]

graph_of_ok : {a b : MountGraph} → ok a ≡ ok b → a ≡ b
graph_of_ok h = cc

compute_mount_closure-ok :
    (manifests : List ChildManifest) (root : String) (selects : String → Bool) (g : MountGraph)
    → compute_mount_closure manifests root selects ≡ ok g
    → record {
      root = root;
      included =
          root_node root
          ∷ (split_boundaries selects (boundaries_of (from_manifests manifests) root)).0;
      excluded = (split_boundaries selects (boundaries_of (from_manifests manifests) root)).1;
    }
      ≡ g
unfolding compute_mount_closure
compute_mount_closure-ok manifests root selects g h =
    elim (Bool-cases (not (has_id root manifests))) [
      | inl e ↦ cc (rw e at h)
      | inr e ↦ graph_of_ok (rw e at h)
    ]

lookup_path-cases :
    (g : MountGraph) (rel_path : String) (best : MountGraphNode)
    → first_fit (strip is_slash rel_path) (sort_nodes g.included) ≡ some best
    → ((hits_excluded (strip is_slash rel_path) g.excluded ≡ true)
        × (lookup_path g rel_path ≡ raised excluded_child))
      ⊎ ((hits_excluded (strip is_slash rel_path) g.excluded ≡ false)
          × (lookup_path g rel_path ≡ ok (included_path best (strip is_slash rel_path))))
unfolding lookup_path
lookup_path-cases g rel_path best found =
    elim (Bool-cases (hits_excluded (strip is_slash rel_path) g.excluded)) [
      | inl e ↦ inl (e, rw (hits_excluded-sort (strip is_slash rel_path) g.excluded) (rw e refl))
      | inr e ↦
          inr (e, rw (hits_excluded-sort (strip is_slash rel_path) g.excluded, found) (rw e refl))
    ]

-- In the closure of a root, a lookup raises exactly for the paths that a boundary of the root covers
-- whose child is not selected; for every other path it answers.
pub lookup_path-IsCut :
    (manifests : List ChildManifest) (root : String) (selects : String → Bool) (g : MountGraph)
    (rel_path : String)
    → compute_mount_closure manifests root selects ≡ ok g
    → (IsCut selects (boundaries_of (from_manifests manifests) root) (strip is_slash rel_path)
        × (lookup_path g rel_path ≡ raised excluded_child))
      ⊎ ((¬ IsCut selects (boundaries_of (from_manifests manifests) root) (strip is_slash rel_path))
          × ((answer : IncludedPath) × (lookup_path g rel_path ≡ ok answer)))
unfolding sort_nodes
lookup_path-IsCut manifests root selects g rel_path h =
    let clean = strip is_slash rel_path in
    let bs = boundaries_of (from_manifests manifests) root in
    let nodes = (split_boundaries selects bs).0 in
    let cuts = split_boundaries-IsCut selects bs clean in
    let built : MountGraph = record {
      root = root;
      included = root_node root ∷ nodes;
      excluded = (split_boundaries selects bs).1;
    } in
    let (best, found) = first_fit-insert clean (root_node root) (sort_nodes nodes) refl in
    subst
      (λ (x : MountGraph).
        (IsCut selects bs clean × (lookup_path x rel_path ≡ raised excluded_child))
        ⊎ ((¬ IsCut selects bs clean)
            × ((answer : IncludedPath) × (lookup_path x rel_path ≡ ok answer))))
      (compute_mount_closure-ok manifests root selects g h)
      (elim (lookup_path-cases built rel_path best found) [
        | inl (hit, fails) ↦ inl (cuts.0 hit, fails)
        | inr (free, answers) ↦
            inr (λ cut. let hit = cuts.1 cut in cc, (included_path best clean, answers))
      ])
