-- ===== src/ManagedParent/Renaming.antt =====
-- What a renamed child keeps (managed_parent.py).
use ccc_storage.Base.{
  String, ℕ, ◌≤◌, ◌≡◌, refl, sym, ap, ◌∙◌, inl, inr, Bool, true, false, not, Option, none, some,
  Result, raised, ok, >>=-ok, ◌>>=◌, ltb, str_eq, if◌then◌else◌, arith, Bool-cases, subst,
}
use ccc_storage.Base.Dict.{Dict, lookup, assign, discard, lookup-assign, lookup-discard}
use ccc_storage.Manifest.{ChildManifest, schema_version_max, write_policy_shared_nfs}
use ccc_storage.Manifest.Value.{Value, Fields, get, index}
use ccc_storage.Manifest.Encode.{manifest_to_dict}
use ccc_storage.Manifest.Decode.{
  int_or, str_or, either, stack_from_dict, overlay_from_dict, cold_from_dict, boundary_values,
  boundaries_from_items, manifest_from_dict, supported_from_dict,
}
use ccc_storage.Manifest.RoundTrip.{canonical_manifest, manifest_from_dict-manifest_to_dict}
use ccc_storage.Manifest.WritePolicy.{normalize_write_policy, normalize_write_policy-shared}
use ccc_storage.ManagedParent.{
  is_valid_name, manifest_path, exists_in, renamed, moved_to, rename_loaded, rename_if_free,
  rename_found, rename_child,
}

schema_version_of_ok : {a b : ChildManifest} → ok a ≡ ok b → a.schema_version ≡ b.schema_version
schema_version_of_ok h = cc

module _ (repr : Value → String) (read_int : String → Result ℕ) where
  supported_from_dict-schema_version :
      (d : Fields) (version : ℕ) (m : ChildManifest)
      → supported_from_dict repr read_int d version ≡ ok m
      → version ≡ m.schema_version
  unfolding supported_from_dict
  supported_from_dict-schema_version d version m h =
      let (a1, h1, e1) = >>=-ok (index d "name") _ m h in
      let (a2, h2, e2) = >>=-ok (index d "type") _ m h1 in
      let (a3, h3, e3) = >>=-ok (int_or repr read_int (get d "generation") 0) _ m h2 in
      let (a4, h4, e4) =
        >>=-ok
          (normalize_write_policy
            (some (str_or repr read_int (get d "write_policy") write_policy_shared_nfs)))
          _ m h3 in
      let (a5, h5, e5) = >>=-ok (stack_from_dict repr read_int (get d "pack_stack")) _ m h4 in
      let (a6, h6, e6) = >>=-ok (overlay_from_dict repr read_int (get d "overlay")) _ m h5 in
      let (a7, h7, e7) =
        >>=-ok
          (cold_from_dict repr read_int (either repr read_int (get d "cold_storage") (get d "s3")))
          _ m h6 in
      let (a8, h8, e8) = >>=-ok (boundary_values repr read_int (get d "child_boundary")) _ m h7 in
      let (a9, h9, e9) = >>=-ok (boundaries_from_items repr read_int a8) _ m h8 in
      schema_version_of_ok h9

  -- A manifest that was read has a known schema version.
  pub manifest_from_dict-schema_version :
      (d : Fields) (m : ChildManifest)
      → manifest_from_dict repr read_int d ≡ ok m
      → m.schema_version ≤ schema_version_max
  unfolding manifest_from_dict
  manifest_from_dict-schema_version d m h =
      let (version, h1, e1) = >>=-ok (int_or repr read_int (get d "schema_version") 1) _ m h in
      elim (Bool-cases (ltb schema_version_max version)) [
        | inl new ↦ cc (rw new at h1)
        | inr known ↦
            let same = supported_from_dict-schema_version d version m (rw known at h1) in
            ground (arith, known, same)
      ]

  module _ (parent_id parent_path : String) where
    -- What a renamed child is: the new manifest is written, and the old one is gone.
    abbrev pub IsRenamed :
        String → String → Dict Fields → Dict Fields → ChildManifest → Fields → Type 0
    IsRenamed src dst documents after r written =
        (manifest_to_dict r ≡ ok written)
        × ((other : String)
            → lookup after other ≡ (
                if str_eq src other
                then none
                else if str_eq dst other
                then some written
                else lookup documents other))

    -- All that a manifest holds, of the renamed one.
    pub record IsSameChild (m r : ChildManifest) (name : String) : Type 0 where
      pub id : r.id ≡ m.id
      pub name_is : r.name ≡ name
      pub type : r.type ≡ m.type
      pub generation : r.generation ≡ m.generation
      pub state : r.state ≡ m.state
      pub schema_version : r.schema_version ≡ m.schema_version
      pub parent_id_is : r.parent_id ≡ parent_id
      pub parent_path_is : r.parent_path ≡ parent_path
      pub created_ts : r.created_ts ≡ m.created_ts
      pub pinned : r.pinned ≡ false
      pub commit_mode : r.commit_mode ≡ "auto"
      pub write_policy : r.write_policy ≡ write_policy_shared_nfs
      pub pack_stack : r.pack_stack ≡ m.pack_stack
      pub overlay : r.overlay ≡ m.overlay
      pub s3 : r.s3 ≡ m.s3
      pub child_boundaries : r.child_boundaries ≡ m.child_boundaries

    renamed-IsSameChild :
        (m : ChildManifest) (name : String)
        → IsSameChild m (renamed parent_id parent_path m name) name
    renamed-IsSameChild m name = record {
      id = refl;
      name_is = refl;
      type = refl;
      generation = refl;
      state = refl;
      schema_version = refl;
      parent_id_is = refl;
      parent_path_is = refl;
      created_ts = refl;
      pinned = refl;
      commit_mode = refl;
      write_policy = refl;
      pack_stack = refl;
      overlay = refl;
      s3 = refl;
      child_boundaries = refl;
    }

    moved_to-ok :
        (documents after : Dict Fields) (src dst : String) (manifest r : ChildManifest)
        (result : Result Fields)
        → moved_to parent_id parent_path documents src dst manifest result ≡ (after, ok r)
        → (d : Fields) × (result ≡ ok d)
          × (manifest ≡ r)
          × (discard (assign documents dst d) src ≡ after)
    moved_to-ok documents after src dst manifest r (raised e) h = cc
    moved_to-ok documents after src dst manifest r (ok d) h =
        let same : ok manifest ≡ ok r = ap (λ (t : Dict Fields × Result ChildManifest). t.1) h in
        (d, refl, cc, ap (λ (t : Dict Fields × Result ChildManifest). t.0) h)

    rename_loaded-ok :
        (src dst name : String) (documents after : Dict Fields) (loaded : Result ChildManifest)
        (r : ChildManifest)
        → rename_loaded parent_id parent_path repr read_int src dst name documents loaded
          ≡ (after, ok r)
        → (m : ChildManifest) × (written : Fields) × (loaded ≡ ok m)
          × (r ≡ renamed parent_id parent_path m name)
          × IsRenamed src dst documents after r written
    rename_loaded-ok src dst name documents after (raised e) r h = cc
    rename_loaded-ok src dst name documents after (ok m) r h =
        let new = renamed parent_id parent_path m name in
        let (d, writes, same, gone) =
          moved_to-ok documents after src dst new r (manifest_to_dict new) h in
        (
          m,
          d,
          refl,
          sym same,
          (
            subst (λ (x : ChildManifest). manifest_to_dict x ≡ ok d) same writes,
            λ other.
                subst
                  (λ (t : Dict Fields). lookup t other ≡ (
                    if str_eq src other
                    then none
                    else if str_eq dst other
                    then some d
                    else lookup documents other))
                  gone
                  (lookup-discard (assign documents dst d) src other
                    ∙ ap (λ o. if str_eq src other then none else o)
                        (lookup-assign documents dst d other)),
          ),
        )

    rename_if_free-ok :
        (taken : Bool) (src dst name : String) (documents after : Dict Fields)
        (loaded : Result ChildManifest) (r : ChildManifest)
        → rename_if_free parent_id parent_path repr read_int taken src dst name documents loaded
          ≡ (after, ok r)
        → (taken ≡ false)
          × (m : ChildManifest) × (written : Fields) × (loaded ≡ ok m)
          × (r ≡ renamed parent_id parent_path m name)
          × IsRenamed src dst documents after r written
    rename_if_free-ok true src dst name documents after loaded r h = cc
    rename_if_free-ok false src dst name documents after loaded r h =
        let (m, written, loads, same, done) =
          rename_loaded-ok src dst name documents after loaded r h in
        (refl, m, written, loads, same, done)

    rename_found-ok :
        (src dst name : String) (documents after : Dict Fields) (o : Option Fields)
        (r : ChildManifest)
        → rename_found parent_id parent_path repr read_int src dst name documents o ≡ (after, ok r)
        → (d : Fields) × (m : ChildManifest) × (written : Fields) × (o ≡ some d)
          × (exists_in documents dst ≡ false)
          × (manifest_from_dict repr read_int d ≡ ok m)
          × (r ≡ renamed parent_id parent_path m name)
          × IsRenamed src dst documents after r written
    rename_found-ok src dst name documents after none r h = cc
    rename_found-ok src dst name documents after (some d) r h =
        let (free, m, written, loads, same, done) =
          rename_if_free-ok (exists_in documents dst) src dst name documents after
            (manifest_from_dict repr read_int d) r h in
        (d, m, written, refl, free, loads, same, done)

    reads_back :
        (d : Fields) (m r : ChildManifest) (written : Fields) (name : String)
        → manifest_from_dict repr read_int d ≡ ok m
        → r ≡ renamed parent_id parent_path m name
        → manifest_to_dict r ≡ ok written
        → manifest_from_dict repr read_int written
          ≡ ok (canonical_manifest r write_policy_shared_nfs)
    reads_back d m r written name loads same writes =
        let new = renamed parent_id parent_path m name in
        let trip : (manifest_to_dict new >>= manifest_from_dict repr read_int)
            ≡ ok (canonical_manifest new write_policy_shared_nfs) =
          manifest_from_dict-manifest_to_dict repr read_int new write_policy_shared_nfs
            (manifest_from_dict-schema_version d m loads) normalize_write_policy-shared in
        let trip' =
          subst
            (λ (x : ChildManifest).
              (manifest_to_dict x >>= manifest_from_dict repr read_int)
              ≡ ok (canonical_manifest x write_policy_shared_nfs))
            (sym same) trip in
        rw writes at trip'

    -- Renaming a child returns only if the old manifest can be loaded and there is none of the new
    -- name. The new manifest has the new name, the parent's id and path, no pin, the commit mode auto
    -- and the write policy shared-nfs, and the old one's id, type, generation, state, schema version,
    -- time of creation, packs, overlay, cold storage and boundaries; it is the only one that is added,
    -- the old one is the only one that is gone, and it reads back as its canonical form.
    pub rename_child-IsRenamed :
        (old_name new_name : String) (documents after : Dict Fields) (r : ChildManifest)
        → rename_child parent_id parent_path repr read_int old_name new_name documents
          ≡ (after, ok r)
        → (d : Fields) × (m : ChildManifest) × (written : Fields) × (lookup documents
              (manifest_path old_name)
            ≡ some d)
          × (exists_in documents (manifest_path new_name) ≡ false)
          × (manifest_from_dict repr read_int d ≡ ok m)
          × IsSameChild m r new_name
          × (manifest_from_dict repr read_int written
              ≡ ok (canonical_manifest r write_policy_shared_nfs))
          × IsRenamed (manifest_path old_name) (manifest_path new_name) documents after r written
    unfolding rename_child
    rename_child-IsRenamed old_name new_name documents after r h =
        elim (Bool-cases (not (is_valid_name new_name))) [
          | inl bad ↦ cc (rw bad at h)
          | inr good ↦
              let (d, m, written, there, free, loads, same, done) =
                rename_found-ok (manifest_path old_name) (manifest_path new_name) new_name documents
                  after (lookup documents (manifest_path old_name)) r (rw good at h) in
              (
                d,
                m,
                written,
                there,
                free,
                loads,
                subst (λ (x : ChildManifest). IsSameChild m x new_name) (sym same)
                    (renamed-IsSameChild m new_name),
                reads_back d m r written new_name loads same done.0,
                done,
              )
        ]
