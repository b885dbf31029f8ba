-- ===== src/Cold/Recall.antt =====
-- What a recall publishes: files that have the checksum and the size of their packs (archive.py).
use ccc_storage.Base.{
  String, ℕ, ◌≡◌, refl, sym, ap, ◌∙◌, List, map, Result, raised, ok, subst, Bool-cases, inl, inr,
}
use ccc_storage.Base.Text.{is_empty}
use ccc_storage.Base.Dict.{Dict, assign}
use ccc_storage.Manifest.{ChildManifest, PackInfo}
use ccc_storage.Manifest.Value.{Fields}
use ccc_storage.Manifest.Encode.{manifest_to_dict}
use ccc_storage.ObjectStore.{ObjectStore}
use ccc_storage.Cold.{
  Machine, Staged, stage_all, written, published, hot_again, recalled_manifest, publish_all, dumped,
  recall_cold_storage_packs,
}
use ccc_storage.Cold.Staging.{
  moved, DistinctNames, IsRecalled, stage_all-IsStaged, publish_all-IsPlaced, place_all-IsRecalled,
  place_all-moved,
}

module _ (Blob : Type 0) (store : ObjectStore Blob) (sha256 : Blob → String)
    (size_of : Blob → ℕ) where
  -- The packs stand verified in the hot directory, and the manifest on disk names them there.
  abbrev pub IsPublishedRecall :
      ChildManifest
      → String
      → String
      → String
      → String
      → Machine Blob store
      → Machine Blob store
      → ChildManifest
      → Type 0
  IsPublishedRecall manifest path hot_dir recalled_at accessed_at m after restored =
      IsRecalled Blob store sha256 size_of manifest.s3.uri hot_dir m.objects
        manifest.pack_stack.lowers after.files
      × (restored
          ≡ recalled_manifest Blob store sha256 size_of manifest
              (map (moved hot_dir) manifest.pack_stack.lowers) recalled_at accessed_at)
      × ((d : Fields) × (manifest_to_dict restored ≡ ok d)
          × (after.documents ≡ assign m.documents path d))

  written_lem :
      (updated restored : ChildManifest) (path : String) (n after : Machine Blob store)
      (r : Result Fields)
      → written Blob store sha256 size_of updated (dumped Blob store path n r)
        ≡ (after, ok restored)
      → (d : Fields) × (r ≡ ok d)
        × (record n { documents = assign n.documents path d } ≡ after)
        × (updated ≡ restored)
  written_lem updated restored path n after (raised e) h = cc
  written_lem updated restored path n after (ok d) h =
      let same : ok updated ≡ ok restored =
        ap (λ (t : Machine Blob store × Result ChildManifest). t.1) h in
      (d, refl, ap (λ (t : Machine Blob store × Result ChildManifest). t.0) h, cc)

  hot_again-IsRecalled :
      (manifest : ChildManifest) (path hot_dir recalled_at accessed_at : String)
      (m after : Machine Blob store) (staged : List (Staged Blob store sha256 size_of))
      (r : Dict Blob × Result (List PackInfo)) (restored : ChildManifest)
      → stage_all Blob store sha256 size_of manifest.s3.uri hot_dir manifest.pack_stack.lowers
          m.objects
        ≡ ok staged
      → publish_all Blob store sha256 size_of m.refuses staged m.files ≡ r
      → hot_again Blob store sha256 size_of manifest path recalled_at accessed_at m r
        ≡ (after, ok restored)
      → DistinctNames hot_dir manifest.pack_stack.lowers
      → IsPublishedRecall manifest path hot_dir recalled_at accessed_at m after restored
  hot_again-IsRecalled manifest path hot_dir recalled_at accessed_at m after staged
        (files, raised e) restored st publishes h distinct =
      cc
  hot_again-IsRecalled manifest path hot_dir recalled_at accessed_at m after staged
        (files, ok recalled) restored st publishes h distinct =
      let puts =
        publish_all-IsPlaced Blob store sha256 size_of m.refuses staged m.files files recalled
          publishes in
      let updated =
        recalled_manifest Blob store sha256 size_of manifest recalled recalled_at accessed_at in
      let (d, dumps, after_eq, same) =
        written_lem updated restored path (record m { files = files }) after
          (manifest_to_dict updated) h in
      let lowers = manifest.pack_stack.lowers in
      let placed =
        stage_all-IsStaged Blob store sha256 size_of manifest.s3.uri hot_dir lowers m.objects staged
          st in
      let moves : recalled ≡ map (moved hot_dir) lowers =
        ap (λ (x : Dict Blob × List PackInfo). x.1) (sym puts)
        ∙ place_all-moved Blob store sha256 size_of manifest.s3.uri hot_dir m.objects lowers staged
            m.files placed in
      (
        subst
            (λ (n : Machine Blob store).
              IsRecalled Blob store sha256 size_of manifest.s3.uri hot_dir m.objects lowers n.files)
            after_eq
            (subst
              (λ x. IsRecalled Blob store sha256 size_of manifest.s3.uri hot_dir m.objects lowers x)
              (ap (λ (x : Dict Blob × List PackInfo). x.0) puts)
              (place_all-IsRecalled Blob store sha256 size_of manifest.s3.uri hot_dir m.objects
                lowers staged m.files placed distinct)),
        sym same
            ∙ ap
                (λ packs.
                  recalled_manifest Blob store sha256 size_of manifest packs recalled_at
                    accessed_at)
                moves,
        (
          d,
          subst (λ (x : ChildManifest). manifest_to_dict x ≡ ok d) same dumps,
          ap (λ (n : Machine Blob store). n.documents) (sym after_eq),
        ),
      )

  published-IsRecalled :
      (manifest : ChildManifest) (path hot_dir recalled_at accessed_at : String)
      (m after : Machine Blob store) (r : Result (List (Staged Blob store sha256 size_of)))
      (restored : ChildManifest)
      → stage_all Blob store sha256 size_of manifest.s3.uri hot_dir manifest.pack_stack.lowers
          m.objects
        ≡ r
      → published Blob store sha256 size_of manifest path recalled_at accessed_at m r
        ≡ (after, ok restored)
      → DistinctNames hot_dir manifest.pack_stack.lowers
      → IsPublishedRecall manifest path hot_dir recalled_at accessed_at m after restored
  published-IsRecalled manifest path hot_dir recalled_at accessed_at m after (raised e) restored st
        h distinct =
      cc
  published-IsRecalled manifest path hot_dir recalled_at accessed_at m after (ok staged) restored st
        h distinct =
      hot_again-IsRecalled manifest path hot_dir recalled_at accessed_at m after staged
        (publish_all Blob store sha256 size_of m.refuses staged m.files) restored st refl h distinct

  pub recall-IsRecalled :
      (manifest : ChildManifest) (path hot_dir recalled_at accessed_at : String)
      (m after : Machine Blob store) (restored : ChildManifest)
      → recall_cold_storage_packs Blob store sha256 size_of manifest path hot_dir recalled_at
          accessed_at m
        ≡ (after, ok restored)
      → DistinctNames hot_dir manifest.pack_stack.lowers
      → IsPublishedRecall manifest path hot_dir recalled_at accessed_at m after restored
  unfolding recall_cold_storage_packs
  recall-IsRecalled manifest path hot_dir recalled_at accessed_at m after restored h distinct =
      elim (Bool-cases (is_empty manifest.s3.uri)) [
        | inl empty ↦ cc (rw empty at h)
        | inr kept ↦
            published-IsRecalled manifest path hot_dir recalled_at accessed_at m after
              (stage_all Blob store sha256 size_of manifest.s3.uri hot_dir
                manifest.pack_stack.lowers m.objects)
              restored refl (rw kept at h) distinct
      ]
