-- ===== src/Cold/Archive.antt =====
-- What an archive that returns has done (archive.py).
use ccc_storage.Base.{
  String, ◌≡◌, refl, sym, ap, ◌∙◌, Bool, true, false, none, List, [], ◌∷◌, ◌++◌, Result, raised, ok,
  if◌then◌else◌, ◌&&◌, subst,
}
use ccc_storage.Base.Dict.{Dict, lookup, assign}
use ccc_storage.Manifest.{PackInfo, ChildManifest}
use ccc_storage.Manifest.Value.{Fields}
use ccc_storage.Manifest.Encode.{manifest_to_dict}
use ccc_storage.ObjectStore.{ObjectStore}
use ccc_storage.Cold.{
  pack_key, manifest_key, Machine, ColdArchiveResult, dumped, dump_atomic, upload_all, remove_all,
  put_document, put_manifest_object, evicted, archived_manifest,
  archive_committed_packs_to_cold_storage,
}
use ccc_storage.Cold.Upload.{go_on-ok, upload_all-IsSame, IsSame}
use ccc_storage.Cold.Objects.{DistinctKeys, IsUploaded, stored-ok, upload_all-IsUploaded}
use ccc_storage.Cold.Eviction.{is_path_of, remove_all-IsEvicted}

manifest_of_ok : {a b : ColdArchiveResult} → ok a ≡ ok b → a.manifest ≡ b.manifest
manifest_of_ok h = cc

module _ (Blob : Type 0) (store : ObjectStore Blob) where
  module _ (document : Fields → Blob) where
    -- All is in the store, and then the manifest on disk says so; the hot files are gone if asked.
    abbrev pub IsArchived :
        ChildManifest
        → String
        → String
        → Bool
        → ChildManifest
        → Machine Blob store
        → Machine Blob store
        → Type 0
    IsArchived manifest path prefix remove_hot archived m after =
        IsUploaded Blob store prefix manifest.pack_stack.lowers m.files after.objects
        × ((d : Fields) × (manifest_to_dict archived ≡ ok d)
            × (store.fetch (manifest_key prefix) after.objects ≡ ok (document d))
            × (after.documents ≡ assign m.documents path d))
        × ((other : String)
            → lookup after.files other ≡ (
                if remove_hot && is_path_of manifest.pack_stack.lowers other
                then none
                else lookup m.files other))

    pub put_document-ok :
        (key : String) (m after : Machine Blob store) (r : Result Fields)
        → put_document Blob store document key m r ≡ (after, ok tt)
        → (d : Fields) × (objects : store.Objects) × (r ≡ ok d)
          × (store.put key (document d) m.objects ≡ ok objects)
          × (record m { objects = objects } ≡ after)
    put_document-ok key m after (raised e) h = cc
    put_document-ok key m after (ok d) h =
        let (objects, put, eq) =
          stored-ok Blob store m after (store.put key (document d) m.objects) h in
        (d, objects, refl, put, eq)

    dumped-ok :
        (path : String) (m after : Machine Blob store) (r : Result Fields)
        → dumped Blob store path m r ≡ (after, ok tt)
        → (d : Fields) × (r ≡ ok d) × (record m { documents = assign m.documents path d } ≡ after)
    dumped-ok path m after (raised e) h = cc
    dumped-ok path m after (ok d) h =
        (d, refl, ap (λ (t : Machine Blob store × Result {0} Unit). t.0) h)

    -- Writing the manifest's object leaves those of the packs.
    pub IsUploaded-put :
        (prefix : String) (packs : List PackInfo) (files : Dict Blob) (blob : Blob)
        (before after : store.Objects)
        → store.put (manifest_key prefix) blob before ≡ ok after
        → DistinctKeys Blob store prefix packs
        → IsUploaded Blob store prefix packs files before
        → IsUploaded Blob store prefix packs files after
    IsUploaded-put prefix [] files blob before after put distinct h = tt
    IsUploaded-put prefix (p ∷ rest) files blob before after put (apart, other, distinct)
          ((b, there, found), more) =
        (
          (
            b,
            there,
            store.fetch-put_other (manifest_key prefix) (pack_key prefix p) blob before after put
                  other
                ∙ found,
          ),
          IsUploaded-put prefix rest files blob before after put distinct more,
        )

    evicted_lem :
        (archived : ChildManifest) (packs : List PackInfo) (keys : List String) (remove_hot : Bool)
        (m after : Machine Blob store) (result : ColdArchiveResult)
        → evicted Blob store document archived packs keys remove_hot m ≡ (after, ok result)
        → (archived ≡ result.manifest)
          × (after.objects ≡ m.objects)
          × (after.documents ≡ m.documents)
          × ((other : String)
              → lookup after.files other
                ≡ (if remove_hot && is_path_of packs other then none else lookup m.files other))
    evicted_lem archived packs keys true m after result h =
        let (removed, end, removes, h1) =
          go_on-ok (remove_all Blob store packs m) _ after result h in
        let same = ap (λ (t : Machine Blob store × Result ColdArchiveResult). t.0) h1 in
        let won : ok
              (record { manifest = archived; uploaded_keys = keys; removed_hot_paths = removed })
            ≡ ok result =
          ap (λ (t : Machine Blob store × Result ColdArchiveResult). t.1) h1 in
        let (files, objects, documents) =
          remove_all-IsEvicted Blob store packs m end removed removes in
        (
          manifest_of_ok won,
          ap (λ (n : Machine Blob store). n.objects) (sym same) ∙ objects,
          ap (λ (n : Machine Blob store). n.documents) (sym same) ∙ documents,
          λ other. ap (λ (n : Machine Blob store). lookup n.files other) (sym same) ∙ files other,
        )
    evicted_lem archived packs keys false m after result h =
        let same = ap (λ (t : Machine Blob store × Result ColdArchiveResult). t.0) h in
        let won : ok (record { manifest = archived; uploaded_keys = keys; removed_hot_paths = [] })
            ≡ ok result =
          ap (λ (t : Machine Blob store × Result ColdArchiveResult). t.1) h in
        (
          manifest_of_ok won,
          ap (λ (n : Machine Blob store). n.objects) (sym same),
          ap (λ (n : Machine Blob store). n.documents) (sym same),
          λ other. ap (λ (n : Machine Blob store). lookup n.files other) (sym same),
        )

    pub archive-IsArchived :
        (manifest : ChildManifest) (path prefix : String) (remove_hot : Bool)
        (backend stamp : String) (m after : Machine Blob store) (result : ColdArchiveResult)
        → archive_committed_packs_to_cold_storage Blob store document manifest path prefix
            remove_hot backend stamp m
          ≡ (after, ok result)
        → DistinctKeys Blob store prefix manifest.pack_stack.lowers
        → (result.manifest
            ≡ archived_manifest Blob store document manifest prefix remove_hot backend stamp)
          × IsArchived manifest path prefix remove_hot result.manifest m after
    unfolding archive_committed_packs_to_cold_storage
    archive-IsArchived manifest path prefix remove_hot backend stamp m after result h distinct =
        let packs = manifest.pack_stack.lowers in
        let archived =
          archived_manifest Blob store document manifest prefix remove_hot backend stamp in
        let (keys, m1, uploads, h1) =
          go_on-ok (upload_all Blob store prefix packs m) _ after result h in
        let (u, m2, puts, h2) =
          go_on-ok (put_manifest_object Blob store document (manifest_key prefix) archived m1) _
            after result h1 in
        let (v, m3, dumps, h3) =
          go_on-ok (dump_atomic Blob store path archived m2) _ after result h2 in
        let (d, objects, writes, put, eq2) =
          put_document-ok (manifest_key prefix) m1 m2 (manifest_to_dict archived) puts in
        let (d', writes', eq3) = dumped-ok path m2 m3 (manifest_to_dict archived) dumps in
        let (same, objects_kept, documents_kept, files_of) =
          evicted_lem archived packs (keys ++ manifest_key prefix ∷ []) remove_hot m3 after result
            h3 in
        let same1 : IsSame Blob store m m1 =
          subst (λ (t : Machine Blob store × Result (List String)). IsSame Blob store m t.0) uploads
            (upload_all-IsSame Blob store prefix packs m m (refl, refl)) in
        let objects_eq : after.objects ≡ objects =
          objects_kept
          ∙ sym (ap (λ (n : Machine Blob store). n.objects) eq3)
          ∙ sym (ap (λ (n : Machine Blob store). n.objects) eq2) in
        let files_eq : m3.files ≡ m.files =
          sym (ap (λ (n : Machine Blob store). n.files) eq3)
          ∙ sym (ap (λ (n : Machine Blob store). n.files) eq2)
          ∙ same1.0 in
        let documents_eq : after.documents ≡ assign m.documents path d' =
          documents_kept
          ∙ sym (ap (λ (n : Machine Blob store). n.documents) eq3)
          ∙ ap (λ x. assign x path d')
              (sym (ap (λ (n : Machine Blob store). n.documents) eq2) ∙ same1.1) in
        let uploaded =
          IsUploaded-put prefix packs m.files (document d) m1.objects objects put distinct
            (upload_all-IsUploaded Blob store prefix packs m m1 keys uploads distinct) in
        let same_document : d ≡ d' = cc in
        (
          sym same,
          (
            subst (λ o. IsUploaded Blob store prefix packs m.files o) (sym objects_eq) uploaded,
            (
              d',
              subst (λ (x : ChildManifest). manifest_to_dict x ≡ ok d') same writes',
              ap (store.fetch (manifest_key prefix)) objects_eq
                  ∙ store.fetch-put (manifest_key prefix) (document d) m1.objects objects put
                  ∙ ap (λ x. ok (document x)) same_document,
              documents_eq,
            ),
            λ other.
                files_of other
                ∙ ap
                    (λ files.
                      if remove_hot && is_path_of packs other then none else lookup files other)
                    files_eq,
          ),
        )
