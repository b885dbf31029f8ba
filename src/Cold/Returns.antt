-- ===== src/Cold/Returns.antt =====
-- When an archive returns (archive.py).
use ccc_storage.Base.{
  String, ◌≡◌, refl, sym, subst, Bool, true, false, some, List, [], ◌∷◌, ◌++◌, ok, All,
}
use ccc_storage.Base.Dict.{Dict, lookup, assign}
use ccc_storage.Manifest.{PackInfo, ChildManifest}
use ccc_storage.Manifest.Value.{Fields}
use ccc_storage.Manifest.WritePolicy.{normalize_write_policy}
use ccc_storage.ObjectStore.{ObjectStore}
use ccc_storage.Cold.{
  pack_key, manifest_key, Machine, ColdArchiveResult, upload_all, archived_manifest,
  archive_committed_packs_to_cold_storage, remove_if,
}
use ccc_storage.Cold.Eviction.{remove_all-returns}
use ccc_storage.Manifest.RoundTrip.{manifest_to_dict-ok}

module _ (Blob : Type 0) (store : ObjectStore Blob) where
  -- The store takes whatever is put at this key.
  abbrev pub IsAccepted : String → Type 0
  IsAccepted key =
      (blob : Blob) (before : store.Objects)
      → (after : store.Objects) × (store.put key blob before ≡ ok after)

  -- Each pack has its file, and its key is accepted.
  abbrev pub IsReady : String → List PackInfo → Dict Blob → Type 0
  IsReady prefix packs files =
      All (λ p. ((b : Blob) × (lookup files p.path ≡ some b)) × IsAccepted (pack_key prefix p))
        packs

  upload_all-returns :
      (prefix : String) (packs : List PackInfo) (m : Machine Blob store)
      → IsReady prefix packs m.files
      → (after : Machine Blob store) × (keys : List String) × (upload_all Blob store prefix packs m
          ≡ (after, ok keys))
        × (after.refuses ≡ m.refuses)
  unfolding upload_all
  upload_all-returns prefix [] m ready = (m, [], refl, refl)
  upload_all-returns prefix (p ∷ rest) m (((b, there), accepted), ready) =
      let (objects, put) = accepted b m.objects in
      let (after, keys, uploads, same) =
        upload_all-returns prefix rest (record m { objects = objects }) ready in
      (after, pack_key prefix p ∷ keys, rw (there, put, uploads) refl, same)

  -- The disk deletes the files that are to be removed.
  abbrev pub IsRemovable : Bool → List PackInfo → Machine Blob store → Type 0
  IsRemovable true packs m = All (λ p. m.refuses p.path ≡ false) packs
  IsRemovable false packs m = Unit

  IsRemovable-same :
      (remove_hot : Bool) (packs : List PackInfo) (m n : Machine Blob store)
      → n.refuses ≡ m.refuses
      → IsRemovable remove_hot packs m
      → IsRemovable remove_hot packs n
  IsRemovable-same true packs m n same free =
      subst (λ refuses. All (λ p. refuses p.path ≡ false) packs) (sym same) free
  IsRemovable-same false packs m n same free = tt

  remove_if-returns :
      (remove_hot : Bool) (packs : List PackInfo) (m : Machine Blob store)
      → IsRemovable remove_hot packs m
      → (after : Machine Blob store) × (removed : List String) × (remove_if Blob store remove_hot
            packs m
          ≡ (after, ok removed))
  remove_if-returns true packs m free = remove_all-returns Blob store packs m free
  remove_if-returns false packs m free = (m, [], refl)

  -- An archive returns if every pack has its file, the store accepts the keys of the packs and of
  -- the manifest, the write policy is valid, and the disk deletes the files of the packs if they are
  -- to be removed.
  pub archive-returns :
      (document : Fields → Blob) (manifest : ChildManifest) (path prefix : String)
      (remove_hot : Bool) (backend stamp policy : String) (m : Machine Blob store)
      → IsReady prefix manifest.pack_stack.lowers m.files
      → IsAccepted (manifest_key prefix)
      → normalize_write_policy (some manifest.write_policy) ≡ ok policy
      → IsRemovable remove_hot manifest.pack_stack.lowers m
      → (after : Machine Blob store) × (result : ColdArchiveResult)
        × (archive_committed_packs_to_cold_storage Blob store document manifest path prefix
              remove_hot backend stamp m
            ≡ (after, ok result))
  unfolding archive_committed_packs_to_cold_storage
  archive-returns document manifest path prefix remove_hot backend stamp policy m ready accepted
        valid free =
      let archived =
        archived_manifest Blob store document manifest prefix remove_hot backend stamp in
      let (m1, keys, uploads, same) =
        upload_all-returns prefix manifest.pack_stack.lowers m ready in
      let (d, dumps) = manifest_to_dict-ok archived policy valid in
      let (objects, put) = accepted (document d) m1.objects in
      let n : Machine Blob store = record m1 {
        objects = objects;
        documents = assign m1.documents path d;
      } in
      let (after, removed, removes) =
        remove_if-returns remove_hot manifest.pack_stack.lowers n
          (IsRemovable-same remove_hot manifest.pack_stack.lowers m n same free) in
      (
        after,
        record {
          manifest = archived;
          uploaded_keys = keys ++ manifest_key prefix ∷ [];
          removed_hot_paths = removed;
        },
        rw (uploads, dumps, put) (rw (dumps, removes) refl),
      )
