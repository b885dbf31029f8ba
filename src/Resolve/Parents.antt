-- ===== src/Resolve/Parents.antt =====
-- `BoundaryRegistry`: whose declarations say which child has which parent.
use ccc_storage.Base.{
  String, ◌≡◌, refl, sym, ap, ◌∙◌, Option, none, some, List, [], ◌∷◌, str_eq, str_eq_iff,
  if◌then◌else◌, arith,
}
use ccc_storage.Base.Text.{is_empty, is_slash, strip}
use ccc_storage.Base.Dict.{Dict, lookup, assign, lookup-assign, lookup-set_default}
use ccc_storage.Manifest.{ChildBoundary, ChildManifest}
use ccc_storage.Resolve.{
  ParentRef, BoundaryRegistry, boundary_path, empty_registry, add_parents, add_boundaries, or_empty,
  add, add_all, from_manifests, boundaries_of, parent_of,
}

abbrev pub or_else {ℓ} : {A : Type ℓ} → Option A → Option A → Option A
or_else none o = o
or_else (some a) o = some a

or_else_assoc {ℓ} :
    {A : Type ℓ} (a b c : Option A) → or_else (or_else a b) c ≡ or_else a (or_else b c)
or_else_assoc none b c = refl
or_else_assoc (some a) b c = refl

or_else-none {ℓ} : {A : Type ℓ} (a : Option A) → a ≡ or_else a none
or_else-none none = refl
or_else-none (some a) = refl

-- The last boundary of the manifest that names the child.
abbrev last_boundary : ChildManifest → List ChildBoundary → String → Option ParentRef
last_boundary m [] child = none
last_boundary m (b ∷ rest) child = or_else (last_boundary m rest child) (
    if str_eq (b.child_id) child
    then some (record { parent_id = m.id; parent_path = boundary_path b })
    else none)

-- The last boundary, of any manifest, that names the child.
abbrev pub declared_by_parent : List ChildManifest → String → Option ParentRef
declared_by_parent [] child = none
declared_by_parent (m ∷ rest) child =
    or_else (declared_by_parent rest child) (last_boundary m (m.child_boundaries) child)

abbrev own_declaration : ChildManifest → String → Option ParentRef
own_declaration m child =
    if is_empty (m.parent_id)
    then none
    else if str_eq (m.id) child
    then some (record { parent_id = m.parent_id; parent_path = strip is_slash (m.parent_path) })
    else none

-- The first manifest of the child that names a parent.
abbrev pub declared_by_child : List ChildManifest → String → Option ParentRef
declared_by_child [] child = none
declared_by_child (m ∷ rest) child =
    or_else (own_declaration m child) (declared_by_child rest child)

add_parents_lem :
    (m : ChildManifest) (bs : List ChildBoundary) (parents : Dict ParentRef) (child : String)
    → lookup (add_parents (m.id) bs parents) child
      ≡ or_else (last_boundary m bs child) (lookup parents child)
unfolding add_parents
add_parents_lem m [] parents child = refl
add_parents_lem m (b ∷ rest) parents child =
    let later : Dict ParentRef =
      assign parents (b.child_id) (record { parent_id = m.id; parent_path = boundary_path b }) in
    add_parents_lem m rest later child
    ∙ ground (
      arith,
      lookup-assign parents (b.child_id)
          (record { parent_id = m.id; parent_path = boundary_path b }) child,
    )

add_lem :
    (registry : BoundaryRegistry) (m : ChildManifest) (child : String)
    → lookup ((add registry m).parents) child
      ≡ or_else
          (last_boundary m (m.child_boundaries) child)
          (or_else (lookup (registry.parents) child) (own_declaration m child))
unfolding add
add_lem registry m child =
    let parents = add_parents (m.id) (m.child_boundaries) (registry.parents) in
    let own : ParentRef = record {
      parent_id = m.parent_id;
      parent_path = strip is_slash (m.parent_path);
    } in
    ground (
      arith,
      add_parents_lem m (m.child_boundaries) (registry.parents) child,
      lookup-set_default parents (m.id) own child,
      str_eq_iff (m.id) child,
    )

add_all_lem :
    (registry : BoundaryRegistry) (ms : List ChildManifest) (child : String)
    → lookup ((add_all registry ms).parents) child
      ≡ or_else
          (declared_by_parent ms child)
          (or_else (lookup (registry.parents) child) (declared_by_child ms child))
unfolding add_all
add_all_lem registry [] child = or_else-none (lookup (registry.parents) child)
add_all_lem registry (m ∷ rest) child =
    add_all_lem (add registry m) rest child ∙ rw (add_lem registry m child) (simp or_else_assoc)

pub parent_of-from_manifests :
    (ms : List ChildManifest) (child : String)
    → parent_of (from_manifests ms) child
      ≡ or_else (declared_by_parent ms child) (declared_by_child ms child)
unfolding parent_of from_manifests lookup
parent_of-from_manifests ms child = add_all_lem empty_registry ms child

abbrev own_boundaries : ChildManifest → List ChildBoundary → String → Option (List ChildBoundary)
own_boundaries m [] id = none
own_boundaries m (b ∷ rest) id = if str_eq (m.id) id then some (b ∷ rest) else none

-- The boundaries of the last manifest of this id that has any.
abbrev pub declared_boundaries : List ChildManifest → String → Option (List ChildBoundary)
declared_boundaries [] id = none
declared_boundaries (m ∷ rest) id =
    or_else (declared_boundaries rest id) (own_boundaries m (m.child_boundaries) id)

own_boundaries_lem :
    (m : ChildManifest) (bs : List ChildBoundary) (d : Dict (List ChildBoundary)) (id : String)
    → lookup (add_boundaries (m.id) bs d) id ≡ or_else (own_boundaries m bs id) (lookup d id)
own_boundaries_lem m [] d id = refl
own_boundaries_lem m (b ∷ rest) d id = ground (arith, lookup-assign d (m.id) (b ∷ rest) id)

add_boundaries_lem :
    (registry : BoundaryRegistry) (m : ChildManifest) (id : String)
    → lookup ((add registry m).boundaries) id
      ≡ or_else (own_boundaries m (m.child_boundaries) id) (lookup (registry.boundaries) id)
unfolding add
add_boundaries_lem registry m id =
    own_boundaries_lem m (m.child_boundaries) (registry.boundaries) id

add_all_boundaries_lem :
    (registry : BoundaryRegistry) (ms : List ChildManifest) (id : String)
    → lookup ((add_all registry ms).boundaries) id
      ≡ or_else (declared_boundaries ms id) (lookup (registry.boundaries) id)
unfolding add_all
add_all_boundaries_lem registry [] id = refl
add_all_boundaries_lem registry (m ∷ rest) id =
    add_all_boundaries_lem (add registry m) rest id
    ∙ rw (add_boundaries_lem registry m id) (simp or_else_assoc)

pub boundaries_of-from_manifests :
    (ms : List ChildManifest) (id : String)
    → boundaries_of (from_manifests ms) id ≡ or_empty (declared_boundaries ms id)
unfolding boundaries_of from_manifests lookup
boundaries_of-from_manifests ms id =
    ap or_empty
      (add_all_boundaries_lem empty_registry ms id ∙ sym (or_else-none (declared_boundaries ms id)))
