-- ===== src/ManagedParent/Children.antt =====
-- What creating, renaming and removing children does to the manifests (managed_parent.py).
use ccc_storage.Base.{
  String, ℕ, ◌≡◌, refl, ap, inl, inr, Bool, true, false, ◌||◌, ltb, Option, none, some, List, [],
  ◌∷◌, Result, ◌>>=◌, raised, ok, str_eq, if◌then◌else◌, arith, Bool-cases, subst,
}
use ccc_storage.Base.Dict.{Dict, lookup, assign, discard, lookup-assign, lookup-discard}
use ccc_storage.Manifest.{PackInfo, ChildManifest, write_policy_shared_nfs}
use ccc_storage.Manifest.Value.{Value, Fields}
use ccc_storage.Manifest.Encode.{manifest_to_dict}
use ccc_storage.Manifest.Decode.{manifest_from_dict}
use ccc_storage.Manifest.RoundTrip.{
  manifest_to_dict-ok, canonical_manifest, manifest_from_dict-manifest_to_dict,
}
use ccc_storage.Manifest.WritePolicy.{normalize_write_policy-shared}
use ccc_storage.ManagedParent.{
  is_valid_name, manifest_path, exists_in, has_packs, new_child, create_child, remove_loaded,
  remove_found, remove_child,
}

no_packs : (packs : List PackInfo) → has_packs packs ≡ false → packs ≡ []
no_packs [] h = refl
no_packs (p ∷ rest) h = cc

module _ (parent_id parent_path : String) (repr : Value → String)
    (read_int : String → Result ℕ) where
  -- What a removal of one child means.
  remove_loaded-ok :
      (src : String) (is_dirty : Bool) (documents after : Dict Fields) (r : Result ChildManifest)
      (m : ChildManifest)
      → remove_loaded parent_id parent_path repr read_int src is_dirty documents r ≡ (after, ok m)
      → (r ≡ ok m)
        × (m.generation ≡ 0)
        × (m.pack_stack.lowers ≡ [])
        × (is_dirty ≡ false)
        × (discard documents src ≡ after)
  remove_loaded-ok src is_dirty documents after (raised e) m h = cc
  remove_loaded-ok src is_dirty documents after (ok n) m h =
      elim (Bool-cases (ltb 0 n.generation || has_packs n.pack_stack.lowers)) [
        | inl committed ↦ cc (rw committed at h)
        | inr empty ↦ elim (Bool-cases is_dirty) [
          | inl dirty ↦ cc (rw (empty, dirty) at h)
          | inr clean ↦
              let first : n.generation ≡ 0 = ground (arith, empty) in
              let none_left : n.pack_stack.lowers ≡ [] =
                no_packs n.pack_stack.lowers (ground (arith, empty)) in
              let done : (discard documents src, ok n) ≡ (after, ok m) = rw (empty, clean) at h in
              let same : ok n ≡ ok m = ap (λ (t : Dict Fields × Result ChildManifest). t.1) done in
              let eq : n ≡ m = cc in
              (
                same,
                subst (λ (x : ChildManifest). x.generation ≡ 0) eq first,
                subst (λ (x : ChildManifest). x.pack_stack.lowers ≡ []) eq none_left,
                clean,
                ap (λ (t : Dict Fields × Result ChildManifest). t.0) done,
              )
        ]
      ]

  remove_found-ok :
      (src : String) (is_dirty : Bool) (documents after : Dict Fields) (o : Option Fields)
      (m : ChildManifest)
      → remove_found parent_id parent_path repr read_int src is_dirty documents o ≡ (after, ok m)
      → (d : Fields) × (o ≡ some d)
        × (manifest_from_dict repr read_int d ≡ ok m)
        × (m.generation ≡ 0)
        × (m.pack_stack.lowers ≡ [])
        × (is_dirty ≡ false)
        × (discard documents src ≡ after)
  remove_found-ok src is_dirty documents after none m h = cc
  remove_found-ok src is_dirty documents after (some d) m h =
      let (loads, generation, lowers, clean, gone) =
        remove_loaded-ok src is_dirty documents after (manifest_from_dict repr read_int d) m h in
      (d, refl, loads, generation, lowers, clean, gone)

  -- Removing a child returns only if its manifest can be loaded and has generation 0 and no packs,
  -- and its overlay is not dirty; the manifest is then gone, and every other one is as it was.
  pub remove_child-lookup :
      (name : String) (is_dirty : Bool) (documents after : Dict Fields) (m : ChildManifest)
      → remove_child parent_id parent_path repr read_int name is_dirty documents ≡ (after, ok m)
      → (d : Fields) × (lookup documents (manifest_path name) ≡ some d)
        × (manifest_from_dict repr read_int d ≡ ok m)
        × (m.generation ≡ 0)
        × (m.pack_stack.lowers ≡ [])
        × (is_dirty ≡ false)
        × ((other : String)
            → lookup after other
              ≡ (if str_eq (manifest_path name) other then none else lookup documents other))
  unfolding remove_child
  remove_child-lookup name is_dirty documents after m h =
      let (d, there, loads, generation, lowers, clean, gone) =
        remove_found-ok (manifest_path name) is_dirty documents after
          (lookup documents (manifest_path name)) m h in
      (
        d,
        there,
        loads,
        generation,
        lowers,
        clean,
        λ other.
            subst
              (λ (t : Dict Fields).
                lookup t other
                ≡ (if str_eq (manifest_path name) other then none else lookup documents other))
              gone (lookup-discard documents (manifest_path name) other),
      )

  -- A child of a valid name is created if no other call creates it and there is no manifest of its
  -- file name; its manifest is the only one that is added, and it reads back as the new child.
  pub create_child-lookup :
      (name active_upper : String) (documents : Dict Fields)
      → is_valid_name name ≡ true
      → exists_in documents (manifest_path name) ≡ false
      → (written : Fields) × (after : Dict Fields) × (create_child parent_id parent_path name
            active_upper false documents
          ≡ (after, ok (new_child parent_id parent_path name active_upper)))
        × (manifest_from_dict repr read_int written
            ≡ ok (
                canonical_manifest
                  (new_child parent_id parent_path name active_upper)
                  write_policy_shared_nfs))
        × ((other : String)
            → lookup after other ≡ (
                if str_eq (manifest_path name) other then some written else lookup documents other))
  unfolding create_child
  create_child-lookup name active_upper documents valid free =
      let new = new_child parent_id parent_path name active_upper in
      let (d, dumps) =
        manifest_to_dict-ok new write_policy_shared_nfs normalize_write_policy-shared in
      let trip : (manifest_to_dict new >>= manifest_from_dict repr read_int)
          ≡ ok (canonical_manifest new write_policy_shared_nfs) =
        manifest_from_dict-manifest_to_dict repr read_int new write_policy_shared_nfs (omega arith)
          normalize_write_policy-shared in
      (
        d,
        assign documents (manifest_path name) d,
        rw (valid, free, dumps) refl,
        (rw dumps at trip),
        λ other. lookup-assign documents (manifest_path name) d other,
      )
