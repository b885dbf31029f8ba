-- ===== src/Cold/Keeping.antt =====
-- No byte is lost by an archive, whether it returns or raises (archive.py).
use ccc_storage.Base.{
  String, ◌≡◌, refl, sym, ap, ◌∙◌, ◌⊎◌, inl, inr, Bool, true, false, Option, none, some, List, [],
  ◌∷◌, ◌++◌, Result, raised, ok, Bool-cases, str_eq, arith, subst,
}
use ccc_storage.Base.Action.{go_on}
use ccc_storage.Base.Dict.{lookup, assign, lookup-discard}
use ccc_storage.Manifest.{PackInfo, ChildManifest}
use ccc_storage.Manifest.Value.{Fields}
use ccc_storage.Manifest.Encode.{manifest_to_dict}
use ccc_storage.ObjectStore.{ObjectStore}
use ccc_storage.Cold.{
  manifest_key, Machine, ColdArchiveResult, dumped, dump_atomic, upload_all, unlink_found,
  remove_all, remove_if, put_manifest_object, evicted, archived_manifest,
  archive_committed_packs_to_cold_storage,
}
use ccc_storage.Cold.Upload.{upload_all-IsSame, put_document-IsSame}
use ccc_storage.Cold.Objects.{DistinctKeys, IsUploaded, upload_all-IsUploaded}
use ccc_storage.Cold.Eviction.{is_path_of}
use ccc_storage.Cold.Archive.{put_document-ok, IsUploaded-put}

module _ (Blob : Type 0) (store : ObjectStore Blob) where
  abbrev M : Type 0
  M = Machine Blob store

  -- Only files at these paths are gone, and no object.
  abbrev IsLeft : (String → Bool) → M → M → Type 0
  IsLeft gone m n =
      ((other : String) → (lookup n.files other ≡ lookup m.files other) ⊎ (gone other ≡ true))
      × (n.objects ≡ m.objects)

  found-IsLeft :
      (p : PackInfo) (m : M) (o : Option Blob)
      → IsLeft (str_eq p.path) m (unlink_found Blob store p m o).0
  found-IsLeft p m none = (λ other. inl refl, refl)
  found-IsLeft p m (some b) = elim (Bool-cases (m.refuses p.path)) [
    | inl e ↦ rw e (λ other. inl refl, refl)
    | inr e ↦ rw e (
      λ other. elim (Bool-cases (str_eq p.path other)) [
        | inl same ↦ inr same
        | inr apart ↦ inl (ground (arith, lookup-discard m.files p.path other, apart))
      ],
      refl,
    )
  ]

  told :
      (removed : List String) (r : M × Result (List String))
      → (go_on r (λ later m2. (m2, ok (removed ++ later)))).0 ≡ r.0
  told removed (n, raised e) = refl
  told removed (n, ok later) = refl

  abbrev removing : List PackInfo → List String → M → M × Result (List String)
  removing rest removed m1 =
      go_on (remove_all Blob store rest m1) (λ later m2. (m2, ok (removed ++ later)))

  joined :
      (p : PackInfo) (rest : List PackInfo) (m n u : M)
      → IsLeft (str_eq p.path) m n
      → IsLeft (is_path_of rest) n u
      → IsLeft (is_path_of (p ∷ rest)) m u
  joined p rest m n u (f, o) (g, q) = (
    λ other. elim (g other) [
      | inr later ↦ inr (ground (arith, later))
      | inl kept ↦ elim (f other) [
        | inl still ↦ inl (kept ∙ still)
        | inr here ↦ inr (ground (arith, here))
      ]
    ],
    q ∙ o,
  )

  rest-IsLeft :
      (p : PackInfo) (rest : List PackInfo) (m : M) (r : M × Result (List String))
      → IsLeft (str_eq p.path) m r.0
      → ((n : M) → IsLeft (is_path_of rest) n (remove_all Blob store rest n).0)
      → IsLeft (is_path_of (p ∷ rest)) m (go_on r (removing rest)).0
  rest-IsLeft p rest m (n, raised e) h later = joined p rest m n n h (λ other. inl refl, refl)
  rest-IsLeft p rest m (n, ok removed) h later =
      subst (λ u. IsLeft (is_path_of (p ∷ rest)) m u)
        (sym (told removed (remove_all Blob store rest n)))
        (joined p rest m n (remove_all Blob store rest n).0 h (later n))

  remove_all-IsLeft :
      (packs : List PackInfo) (m : M)
      → IsLeft (is_path_of packs) m (remove_all Blob store packs m).0
  unfolding remove_all
  remove_all-IsLeft [] m = (λ other. inl refl, refl)
  remove_all-IsLeft (p ∷ rest) m =
      rest-IsLeft p rest m (unlink_found Blob store p m (lookup m.files p.path))
        (found-IsLeft p m (lookup m.files p.path)) (λ n. remove_all-IsLeft rest n)

  remove_if-IsLeft :
      (remove_hot : Bool) (packs : List PackInfo) (m : M)
      → IsLeft (is_path_of packs) m (remove_if Blob store remove_hot packs m).0
  remove_if-IsLeft true packs m = remove_all-IsLeft packs m
  remove_if-IsLeft false packs m = (λ other. inl refl, refl)

  module _ (document : Fields → Blob) (prefix : String) (packs : List PackInfo) (m : M) where
    -- Every file is as it was, or it is one of a pack, and all packs are in the store as they were.
    abbrev pub IsKept : M → Type 0
    IsKept n =
        (other : String)
        → (lookup n.files other ≡ lookup m.files other)
          ⊎ ((is_path_of packs other ≡ true) × IsUploaded Blob store prefix packs m.files n.objects)

    same-IsKept : (n : M) → n.files ≡ m.files → IsKept n
    same-IsKept n same other = inl (ap (λ files. lookup files other) same)

    left-IsKept :
        (n u : M)
        → n.files ≡ m.files
        → IsUploaded Blob store prefix packs m.files n.objects
        → IsLeft (is_path_of packs) n u
        → IsKept u
    left-IsKept n u same uploaded (f, o) other = elim (f other) [
      | inl kept ↦ inl (kept ∙ ap (λ files. lookup files other) same)
      | inr gone ↦
          inr (gone, subst (λ x. IsUploaded Blob store prefix packs m.files x) (sym o) uploaded)
    ]

    abbrev reported : ChildManifest → List String → List String → M → M × Result ColdArchiveResult
    reported archived keys removed m1 =
        (m1, ok (record { manifest = archived; uploaded_keys = keys; removed_hot_paths = removed }))

    evicted-IsKept :
        (archived : ChildManifest) (keys : List String) (n : M) (r : M × Result (List String))
        → n.files ≡ m.files
        → IsUploaded Blob store prefix packs m.files n.objects
        → IsLeft (is_path_of packs) n r.0
        → IsKept (go_on r (reported archived keys)).0
    evicted-IsKept archived keys n (u, raised e) same uploaded left =
        left-IsKept n u same uploaded left
    evicted-IsKept archived keys n (u, ok removed) same uploaded left =
        left-IsKept n u same uploaded left

    abbrev evicting : ChildManifest → List String → Bool → M → M × Result ColdArchiveResult
    evicting archived keys remove_hot = evicted Blob store document archived packs keys remove_hot

    dumped-IsKept :
        (archived : ChildManifest) (keys : List String) (path : String) (remove_hot : Bool) (n : M)
        (d : Result Fields)
        → n.files ≡ m.files
        → IsUploaded Blob store prefix packs m.files n.objects
        → IsKept (go_on (dumped Blob store path n d) (λ done. evicting archived keys remove_hot)).0
    dumped-IsKept archived keys path remove_hot n (raised e) same uploaded = same-IsKept n same
    dumped-IsKept archived keys path remove_hot n (ok d) same uploaded =
        let k : M = record n { documents = assign n.documents path d } in
        evicted-IsKept archived keys k (remove_if Blob store remove_hot packs k) same uploaded
          (remove_if-IsLeft remove_hot packs k)

    put-IsKept :
        (archived : ChildManifest) (keys : List String) (path : String) (remove_hot : Bool) (n : M)
        (r : M × Result {0} Unit)
        → put_manifest_object Blob store document (manifest_key prefix) archived n ≡ r
        → DistinctKeys Blob store prefix packs
        → n.files ≡ m.files
        → IsUploaded Blob store prefix packs m.files n.objects
        → r.0.files ≡ n.files
        → IsKept
            (go_on r (λ done k.
              go_on
                (dump_atomic Blob store path archived k)
                (λ done. evicting archived keys remove_hot))).0
    put-IsKept archived keys path remove_hot n (u, raised e) puts distinct same uploaded still =
        same-IsKept u (still ∙ same)
    put-IsKept archived keys path remove_hot n (u, ok done) puts distinct same uploaded still =
        let (d, objects, writes, put, eq) =
          put_document-ok Blob store document (manifest_key prefix) n u (manifest_to_dict archived)
            puts in
        dumped-IsKept archived keys path remove_hot u (manifest_to_dict archived) (still ∙ same) (
          subst (λ (x : M). IsUploaded Blob store prefix packs m.files x.objects) eq
            (IsUploaded-put Blob store document prefix packs m.files (document d) n.objects objects
              put distinct uploaded))

    uploaded-IsKept :
        (archived : ChildManifest) (path : String) (remove_hot : Bool)
        (r : M × Result (List String))
        → upload_all Blob store prefix packs m ≡ r
        → DistinctKeys Blob store prefix packs
        → r.0.files ≡ m.files
        → IsKept
            (go_on r (λ keys n.
              go_on
                (put_manifest_object Blob store document (manifest_key prefix) archived n)
                (λ done k.
                  go_on
                    (dump_atomic Blob store path archived k)
                    (λ done. evicting archived (keys ++ manifest_key prefix ∷ []) remove_hot)))).0
    uploaded-IsKept archived path remove_hot (n, raised e) uploads distinct same =
        same-IsKept n same
    uploaded-IsKept archived path remove_hot (n, ok keys) uploads distinct same =
        put-IsKept archived (keys ++ manifest_key prefix ∷ []) path remove_hot n
          (put_manifest_object Blob store document (manifest_key prefix) archived n) refl distinct
          same (upload_all-IsUploaded Blob store prefix packs m n keys uploads distinct)
          (put_document-IsSame Blob store document (manifest_key prefix) n n
            (manifest_to_dict archived) (refl, refl)).0

  -- Whether an archive returns or raises, if the packs and the manifest have objects of their own:
  -- every file on disk is as it was; or it is the file of a pack, and the bytes that every pack had
  -- are in the store.
  pub archive-IsKept :
      (document : Fields → Blob) (manifest : ChildManifest) (path prefix : String)
      (remove_hot : Bool) (backend stamp : String) (m : Machine Blob store)
      → DistinctKeys Blob store prefix manifest.pack_stack.lowers
      → IsKept document prefix manifest.pack_stack.lowers m
          (archive_committed_packs_to_cold_storage Blob store document manifest path prefix
            remove_hot backend stamp m).0
  unfolding archive_committed_packs_to_cold_storage
  archive-IsKept document manifest path prefix remove_hot backend stamp m distinct =
      uploaded-IsKept document prefix manifest.pack_stack.lowers m
        (archived_manifest Blob store document manifest prefix remove_hot backend stamp) path
        remove_hot (upload_all Blob store prefix manifest.pack_stack.lowers m) refl distinct
        (upload_all-IsSame Blob store prefix manifest.pack_stack.lowers m m (refl, refl)).0
