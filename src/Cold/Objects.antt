-- ===== src/Cold/Objects.antt =====
-- What the objects of a store hold after uploads (archive.py).
use ccc_storage.Base.{
  String, ◌≡◌, refl, sym, ap, ◌∙◌, false, Option, none, some, List, [], ◌∷◌, Result, raised, ok,
  All, subst,
}
use ccc_storage.Base.Dict.{Dict, lookup}
use ccc_storage.Manifest.{PackInfo}
use ccc_storage.ObjectStore.{ObjectStore, same_place}
use ccc_storage.Cold.{pack_key, manifest_key, Machine, stored, put_found, put_file, upload_all}
use ccc_storage.Cold.Upload.{go_on-ok}

module _ (Blob : Type 0) (store : ObjectStore Blob) where
  -- The object of a key is not overwritten by any of these packs.
  abbrev pub IsApart : String → List PackInfo → String → Type 0
  IsApart prefix packs key =
      All (λ p. same_place (store.place (pack_key prefix p)) (store.place key) ≡ false) packs

  -- The packs of a stack and its manifest have objects of their own.
  abbrev pub DistinctKeys : String → List PackInfo → Type 0
  DistinctKeys prefix [] = Unit
  DistinctKeys prefix (p ∷ rest) =
      IsApart prefix rest (pack_key prefix p)
      × (same_place (store.place (manifest_key prefix)) (store.place (pack_key prefix p)) ≡ false)
      × DistinctKeys prefix rest

  pub stored-ok :
      (m after : Machine Blob store) (r : Result store.Objects)
      → stored Blob store m r ≡ (after, ok tt)
      → (objects : store.Objects) × (r ≡ ok objects) × (record m { objects = objects } ≡ after)
  stored-ok m after (raised e) h = cc
  stored-ok m after (ok objects) h =
      (objects, refl, ap (λ (t : Machine Blob store × Result {0} Unit). t.0) h)

  put_found-ok :
      (key : String) (m after : Machine Blob store) (o : Option Blob)
      → put_found Blob store key m o ≡ (after, ok tt)
      → (b : Blob) × (objects : store.Objects) × (o ≡ some b)
        × (store.put key b m.objects ≡ ok objects)
        × (record m { objects = objects } ≡ after)
  put_found-ok key m after none h = cc
  put_found-ok key m after (some b) h =
      let (objects, put, eq) = stored-ok m after (store.put key b m.objects) h in
      (b, objects, refl, put, eq)

  -- What an upload that returned did first.
  upload_all-ok :
      (prefix : String) (p : PackInfo) (rest : List PackInfo) (m after : Machine Blob store)
      (keys : List String)
      → upload_all Blob store prefix (p ∷ rest) m ≡ (after, ok keys)
      → (b : Blob) × (objects : store.Objects) × (later : List String) × (lookup m.files p.path
          ≡ some b)
        × (store.put (pack_key prefix p) b m.objects ≡ ok objects)
        × (upload_all Blob store prefix rest (record m { objects = objects }) ≡ (after, ok later))
  unfolding upload_all
  upload_all-ok prefix p rest m after keys h =
      let (u, mid, put, next) =
        go_on-ok (put_file Blob store (pack_key prefix p) p.path m) _ after keys h in
      let (b, objects, there, stores, eq) =
        put_found-ok (pack_key prefix p) m mid (lookup m.files p.path) put in
      let (later, end, uploads, last) =
        go_on-ok (upload_all Blob store prefix rest mid) _ after keys next in
      let same : end ≡ after = ap (λ (t : Machine Blob store × Result (List String)). t.0) last in
      (
        b,
        objects,
        later,
        there,
        stores,
        subst (λ (n : Machine Blob store). upload_all Blob store prefix rest n ≡ (after, ok later))
            (sym eq) (uploads ∙ ap (λ (n : Machine Blob store). (n, ok later)) same),
      )

  pub upload_all-apart :
      (prefix : String) (packs : List PackInfo) (m after : Machine Blob store) (keys : List String)
      (other : String)
      → upload_all Blob store prefix packs m ≡ (after, ok keys)
      → IsApart prefix packs other
      → store.fetch other after.objects ≡ store.fetch other m.objects
  unfolding upload_all
  upload_all-apart prefix [] m after keys other h apart =
      ap (λ (t : Machine Blob store × Result (List String)). store.fetch other t.0.objects) (sym h)
  upload_all-apart prefix (p ∷ rest) m after keys other h apart =
      let (b, objects, later, there, stores, uploads) =
        upload_all-ok prefix p rest m after keys h in
      upload_all-apart prefix rest (record m { objects = objects }) after later other uploads
        apart.1
      ∙ store.fetch-put_other (pack_key prefix p) other b m.objects objects stores apart.0

  -- Each pack has its file, and its object holds the bytes of it.
  abbrev pub IsUploaded : String → List PackInfo → Dict Blob → store.Objects → Type 0
  IsUploaded prefix packs files objects =
      All
        (λ p.
          (b : Blob) × (lookup files p.path ≡ some b)
          × (store.fetch (pack_key prefix p) objects ≡ ok b))
        packs

  pub upload_all-IsUploaded :
      (prefix : String) (packs : List PackInfo) (m after : Machine Blob store) (keys : List String)
      → upload_all Blob store prefix packs m ≡ (after, ok keys)
      → DistinctKeys prefix packs
      → IsUploaded prefix packs m.files after.objects
  upload_all-IsUploaded prefix [] m after keys h distinct = tt
  upload_all-IsUploaded prefix (p ∷ rest) m after keys h (apart, from_manifest, distinct) =
      let (b, objects, later, there, stores, uploads) =
        upload_all-ok prefix p rest m after keys h in
      (
        (
          b,
          there,
          upload_all-apart prefix rest (record m { objects = objects }) after later
                (pack_key prefix p) uploads apart
              ∙ store.fetch-put (pack_key prefix p) b m.objects objects stores,
        ),
        upload_all-IsUploaded prefix rest (record m { objects = objects }) after later uploads
            distinct,
      )
