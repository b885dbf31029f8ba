-- ===== src/Cold/RoundTrip.antt =====
-- Recalling what was archived (archive.py).
use ccc_storage.Base.{
  String, ℕ, ◌≡◌, refl, sym, ap, ◌∙◌, Bool, false, some, List, [], ◌∷◌, map, ok, All, subst, >>=-ok,
}
use ccc_storage.Base.Text.{is_empty, is_slash, strip, strip-strip}
use ccc_storage.Base.Dict.{Dict, lookup, assign}
use ccc_storage.Manifest.{PackInfo, ChildManifest}
use ccc_storage.Manifest.Value.{Fields}
use ccc_storage.Manifest.Encode.{manifest_to_dict}
use ccc_storage.Manifest.WritePolicy.{normalize_write_policy}
use ccc_storage.ObjectStore.{ObjectStore}
use ccc_storage.Cold.{
  pack_key, Machine, ColdArchiveResult, archive_committed_packs_to_cold_storage, recalled_manifest,
  archived_manifest, recall_cold_storage_packs,
}
use ccc_storage.Manifest.RoundTrip.{manifest_to_dict-ok}
use ccc_storage.Cold.Objects.{DistinctKeys, IsUploaded}
use ccc_storage.Cold.Archive.{archive-IsArchived}
use ccc_storage.Cold.Staging.{
  place_all, publish_all-returns, IsStaged-free, stage_all-IsStaged, DistinctNames, IsIntact,
  IsRecalled, moved, hot_path, stage_all-ok,
}
use ccc_storage.Cold.Recall.{recall-IsRecalled}

-- A manifest that can be written has a valid write policy.
manifest_to_dict-valid :
    (m : ChildManifest) (d : Fields)
    → manifest_to_dict m ≡ ok d
    → (policy : String) × (normalize_write_policy (some m.write_policy) ≡ ok policy)
unfolding manifest_to_dict
manifest_to_dict-valid m d h =
    let (policy, rest, valid) = >>=-ok (normalize_write_policy (some m.write_policy)) _ d h in
    (policy, valid)

module _ (Blob : Type 0) (store : ObjectStore Blob) (sha256 : Blob → String)
    (size_of : Blob → ℕ) where
  -- The files of the packs are as the manifest records them.
  abbrev pub IsSound : List PackInfo → Dict Blob → Type 0
  IsSound packs files =
      All
        (λ p.
          (b : Blob) → lookup files p.path ≡ some b → (sha256 b ≡ p.sha256) × (size_of b ≡ p.size))
        packs

  -- The packs stand in the hot directory with the bytes they had.
  abbrev pub IsRestored : String → List PackInfo → Dict Blob → Dict Blob → Type 0
  IsRestored hot_dir packs before after =
      All
        (λ p.
          (b : Blob) × (lookup before p.path ≡ some b)
          × (lookup after (hot_path hot_dir p) ≡ some b))
        packs

  IsIntact-of_IsUploaded :
      (prefix : String) (packs : List PackInfo) (files : Dict Blob) (objects : store.Objects)
      → IsUploaded Blob store prefix packs files objects
      → IsSound packs files
      → All
          (λ p. (b : Blob) × IsIntact Blob store sha256 size_of (strip is_slash prefix) objects p b)
          packs
  IsIntact-of_IsUploaded prefix [] files objects h sound = tt
  IsIntact-of_IsUploaded prefix (p ∷ rest) files objects ((b, there, found), more) (good, sound) = (
    (b, (rw (strip-strip is_slash prefix) found, (good b there).0, (good b there).1)),
    IsIntact-of_IsUploaded prefix rest files objects more sound,
  )

  IsRestored-of_IsRecalled :
      (prefix hot_dir : String) (packs : List PackInfo) (before after : Dict Blob)
      (objects : store.Objects)
      → IsUploaded Blob store prefix packs before objects
      → IsRecalled Blob store sha256 size_of (strip is_slash prefix) hot_dir objects packs after
      → IsRestored hot_dir packs before after
  IsRestored-of_IsRecalled prefix hot_dir [] before after objects h recalled = tt
  IsRestored-of_IsRecalled prefix hot_dir (p ∷ rest) before after objects ((b, there, found), more)
        ((c, intact, placed), recalled) =
      let found' : store.fetch (pack_key (strip is_slash prefix) p) objects ≡ ok b =
        rw (strip-strip is_slash prefix) found in
      let fetched = intact.0 in
      let same : ok c ≡ ok b = sym fetched ∙ found' in
      let eq : c ≡ b = cc in
      (
        (b, there, subst (λ x. lookup after (hot_path hot_dir p) ≡ some x) eq placed),
        IsRestored-of_IsRecalled prefix hot_dir rest before after objects more recalled,
      )

  recall-ok :
      (manifest : ChildManifest) (path hot_dir recalled_at accessed_at policy : String)
      (m : Machine Blob store)
      → is_empty manifest.s3.uri ≡ false
      → normalize_write_policy (some manifest.write_policy) ≡ ok policy
      → All
          (λ p. (b : Blob) × IsIntact Blob store sha256 size_of manifest.s3.uri m.objects p b)
          manifest.pack_stack.lowers
      → All (λ p. m.refuses (hot_path hot_dir p) ≡ false) manifest.pack_stack.lowers
      → (after : Machine Blob store) × (restored : ChildManifest) × (recall_cold_storage_packs Blob
            store sha256 size_of manifest path hot_dir recalled_at accessed_at m
          ≡ (after, ok restored))
  unfolding recall_cold_storage_packs
  recall-ok manifest path hot_dir recalled_at accessed_at policy m kept valid intact free =
      let (staged, st) =
        stage_all-ok Blob store sha256 size_of manifest.s3.uri hot_dir manifest.pack_stack.lowers
          m.objects intact in
      let placed =
        stage_all-IsStaged Blob store sha256 size_of manifest.s3.uri hot_dir
          manifest.pack_stack.lowers m.objects staged st in
      let puts = publish_all-returns Blob store sha256 size_of m.refuses staged m.files (
        IsStaged-free Blob store sha256 size_of manifest.s3.uri hot_dir m.objects
          manifest.pack_stack.lowers staged m.refuses placed free) in
      let updated =
        recalled_manifest Blob store sha256 size_of manifest
          (place_all Blob store sha256 size_of staged m.files).1 recalled_at accessed_at in
      let (d, dumps) = manifest_to_dict-ok updated policy valid in
      (
        record m {
          files = (place_all Blob store sha256 size_of staged m.files).0;
          documents = assign m.documents path d;
        },
        updated,
        rw (kept, st, puts) (rw dumps refl),
      )

  -- What is archived can be recalled, if the packs and the manifest have objects of their own, the
  -- packs have different file names, their files have the checksums and sizes that the manifest
  -- records, the prefix is not only slashes, and the disk lets a file be put at each of their places
  -- in the hot directory. Whether the hot files were removed or not, the
  -- recall of the archived manifest returns, each pack then stands in the hot directory with the
  -- bytes it had before it was archived, and the manifest returned names it there.
  pub recall-archive :
      (document : Fields → Blob) (manifest : ChildManifest) (path prefix : String)
      (remove_hot : Bool) (backend stamp : String) (m archived : Machine Blob store)
      (result : ColdArchiveResult) (hot_dir recalled_at accessed_at : String)
      → archive_committed_packs_to_cold_storage Blob store document manifest path prefix remove_hot
          backend stamp m
        ≡ (archived, ok result)
      → DistinctKeys Blob store prefix manifest.pack_stack.lowers
      → DistinctNames hot_dir manifest.pack_stack.lowers
      → IsSound manifest.pack_stack.lowers m.files
      → is_empty (strip is_slash prefix) ≡ false
      → All (λ p. archived.refuses (hot_path hot_dir p) ≡ false) manifest.pack_stack.lowers
      → (after : Machine Blob store) × (restored : ChildManifest) × (recall_cold_storage_packs Blob
            store sha256 size_of result.manifest path hot_dir recalled_at accessed_at archived
          ≡ (after, ok restored))
        × IsRestored hot_dir manifest.pack_stack.lowers m.files after.files
        × (restored.pack_stack.lowers ≡ map (moved hot_dir) manifest.pack_stack.lowers)
  recall-archive document manifest path prefix remove_hot backend stamp m archived result hot_dir
        recalled_at accessed_at h keys names sound kept free =
      let (same, (uploaded, (d, dumps, found, documents), files)) =
        archive-IsArchived Blob store document manifest path prefix remove_hot backend stamp m
          archived result h keys in
      let intact =
        IsIntact-of_IsUploaded prefix manifest.pack_stack.lowers m.files archived.objects uploaded
          sound in
      let expected =
        archived_manifest Blob store document manifest prefix remove_hot backend stamp in
      let (policy, valid) =
        manifest_to_dict-valid expected d
          (subst (λ (x : ChildManifest). manifest_to_dict x ≡ ok d) same dumps) in
      let (after, restored, recalls) =
        recall-ok expected path hot_dir recalled_at accessed_at policy archived kept valid intact
          free in
      let facts =
        recall-IsRecalled Blob store sha256 size_of expected path hot_dir recalled_at accessed_at
          archived after restored recalls names in
      (
        after,
        restored,
        subst
            (λ (x : ChildManifest).
              recall_cold_storage_packs Blob store sha256 size_of x path hot_dir recalled_at
                accessed_at archived
              ≡ (after, ok restored))
            (sym same) recalls,
        IsRestored-of_IsRecalled prefix hot_dir manifest.pack_stack.lowers m.files after.files
            archived.objects uploaded facts.0,
        ap (λ (x : ChildManifest). x.pack_stack.lowers) facts.1,
      )
