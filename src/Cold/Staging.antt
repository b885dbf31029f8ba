-- ===== src/Cold/Staging.antt =====
-- The two loops of a recall: what is staged, and what is published (archive.py).
use ccc_storage.Base.{
  String, ℕ, ◌≡◌, refl, ◌∙◌, false, not, ◌||◌, ◌==◌, some, List, [], ◌∷◌, map, Result, raised, ok,
  >>=-ok, subst, arith, Bool-cases, inl, inr, str_eq, str_eq_iff, All, ap, Bool,
}
use ccc_storage.Base.Dict.{Dict, lookup, assign, lookup-assign}
use ccc_storage.Paths.{name}
use ccc_storage.Manifest.{PackInfo}
use ccc_storage.ObjectStore.{ObjectStore}
use ccc_storage.Cold.{pack_key, below, Staged, verified, stage_all, publish_all, recalled_next}

-- Where a pack stands after a recall.
abbrev pub hot_path : String → PackInfo → String
hot_path hot_dir pack = below hot_dir (name pack.path)

abbrev pub moved : String → PackInfo → PackInfo
moved hot_dir pack = record pack { path = hot_path hot_dir pack }

-- The packs have different file names.
abbrev pub DistinctNames : String → List PackInfo → Type 0
DistinctNames hot_dir [] = Unit
DistinctNames hot_dir (p ∷ rest) =
    All (λ q. str_eq (hot_path hot_dir q) (hot_path hot_dir p) ≡ false) rest
    × DistinctNames hot_dir rest

module _ (Blob : Type 0) (store : ObjectStore Blob) (sha256 : Blob → String)
    (size_of : Blob → ℕ) where
  -- The store holds the bytes of the pack, of its checksum and size.
  abbrev pub IsIntact : String → store.Objects → PackInfo → Blob → Type 0
  IsIntact uri objects pack blob =
      (store.fetch (pack_key uri pack) objects ≡ ok blob)
      × (sha256 blob ≡ pack.sha256)
      × (size_of blob ≡ pack.size)

  abbrev pub IsStaged :
      String
      → String
      → store.Objects
      → List PackInfo
      → List (Staged Blob store sha256 size_of)
      → Type 0
  IsStaged uri hot_dir objects [] [] = Unit
  IsStaged uri hot_dir objects [] (s ∷ staged) = ⊥
  IsStaged uri hot_dir objects (p ∷ packs) [] = ⊥
  IsStaged uri hot_dir objects (p ∷ packs) (s ∷ staged) =
      (s.pack ≡ p)
      × (s.final ≡ hot_path hot_dir p)
      × IsIntact uri objects p s.blob
      × IsStaged uri hot_dir objects packs staged

  verified_lem :
      (pack : PackInfo) (r : Result Blob) (blob : Blob)
      → verified Blob store sha256 size_of pack r ≡ ok blob
      → (r ≡ ok blob) × (sha256 blob ≡ pack.sha256) × (size_of blob ≡ pack.size)
  verified_lem pack (raised e) blob h = cc
  verified_lem pack (ok b) blob h =
      elim (Bool-cases (not (str_eq (sha256 b) pack.sha256) || not (size_of b == pack.size))) [
        | inl bad ↦ cc (rw bad at h)
        | inr good ↦
            let same : ok b ≡ ok blob = rw good at h in
            let sha : sha256 b ≡ pack.sha256 =
              ground (arith, good, str_eq_iff (sha256 b) pack.sha256) in
            let size : size_of b ≡ pack.size = ground (arith, good) in (same, cc, cc)
      ]

  pub stage_all-IsStaged :
      (uri hot_dir : String) (packs : List PackInfo) (objects : store.Objects)
      (staged : List (Staged Blob store sha256 size_of))
      → stage_all Blob store sha256 size_of uri hot_dir packs objects ≡ ok staged
      → IsStaged uri hot_dir objects packs staged
  unfolding stage_all
  stage_all-IsStaged uri hot_dir [] objects [] h = tt
  stage_all-IsStaged uri hot_dir [] objects (s ∷ more) h = absurd cc
  stage_all-IsStaged uri hot_dir (p ∷ rest) objects staged h =
      let (blob, h1, q) =
        >>=-ok (verified Blob store sha256 size_of p (store.fetch (pack_key uri p) objects)) _
          staged h in
      let (more, h2, q2) =
        >>=-ok (stage_all Blob store sha256 size_of uri hot_dir rest objects) _ staged h1 in
      let s : Staged Blob store sha256 size_of = record {
        blob = blob;
        final = hot_path hot_dir p;
        pack = p;
      } in
      let eq : s ∷ more ≡ staged = cc in
      subst (λ t. IsStaged uri hot_dir objects (p ∷ rest) t) eq
        (
          refl,
          refl,
          verified_lem p (store.fetch (pack_key uri p) objects) blob q,
          stage_all-IsStaged uri hot_dir rest objects more q2,
        )

  -- What the files of a recall are when each is put in its place, and the packs.
  unfoldable pub place_all :
      List (Staged Blob store sha256 size_of) → Dict Blob → Dict Blob × List PackInfo
  place_all [] files = (files, [])
  place_all (s ∷ rest) files =
      let (files1, recalled) = place_all rest (assign files s.final s.blob) in
      (files1, record s.pack { path = s.final } ∷ recalled)

  next-IsPlaced :
      (s : Staged Blob store sha256 size_of) (q : Dict Blob × List PackInfo)
      (recalled : List PackInfo) (r : Dict Blob × Result (List PackInfo)) (after : Dict Blob)
      → ((a : Dict Blob) (l : List PackInfo) → r ≡ (a, ok l) → q ≡ (a, l))
      → recalled_next Blob store sha256 size_of s r ≡ (after, ok recalled)
      → (q.0 ≡ after) × (record s.pack { path = s.final } ∷ q.1 ≡ recalled)
  next-IsPlaced s q recalled (a, raised e) after h is = absurd (cc)
  next-IsPlaced s q recalled (a, ok l) after h is =
      let placed = h a l refl in
      let won : ok (record s.pack { path = s.final } ∷ l) ≡ ok recalled =
        ap (λ (x : Dict Blob × Result (List PackInfo)). x.1) is in
      let same : record s.pack { path = s.final } ∷ l ≡ recalled = cc in
      (
        ap (λ (x : Dict Blob × List PackInfo). x.0) placed
            ∙ ap (λ (x : Dict Blob × Result (List PackInfo)). x.0) is,
        ap (λ (x : Dict Blob × List PackInfo). record s.pack { path = s.final } ∷ x.1) placed
            ∙ same,
      )

  -- A publication that returns has put each file in its place.
  pub publish_all-IsPlaced :
      (refuses : String → Bool) (staged : List (Staged Blob store sha256 size_of))
      (files after : Dict Blob) (recalled : List PackInfo)
      → publish_all Blob store sha256 size_of refuses staged files ≡ (after, ok recalled)
      → place_all staged files ≡ (after, recalled)
  unfolding publish_all place_all
  publish_all-IsPlaced refuses [] files after recalled h =
      let e : ok [] ≡ ok recalled = ap (λ (x : Dict Blob × Result (List PackInfo)). x.1) h in
      let same : [] ≡ recalled = cc in
      rw (ap (λ (x : Dict Blob × Result (List PackInfo)). x.0) h, same) refl
  publish_all-IsPlaced refuses (s ∷ rest) files after recalled h =
      let next = assign files s.final s.blob in
      elim (Bool-cases (refuses s.final)) [
        | inl e ↦ absurd (cc (rw e at h))
        | inr e ↦
            let (placed, packs) =
              next-IsPlaced s (place_all rest next) recalled
                (publish_all Blob store sha256 size_of refuses rest next) after
                (λ a l is. publish_all-IsPlaced refuses rest next a l is) (rw e at h) in
            rw (placed, packs) refl
      ]

  -- It returns if the disk refuses none of them.
  pub publish_all-returns :
      (refuses : String → Bool) (staged : List (Staged Blob store sha256 size_of))
      (files : Dict Blob)
      → All (λ (s : Staged Blob store sha256 size_of). refuses s.final ≡ false) staged
      → publish_all Blob store sha256 size_of refuses staged files
        ≡ ((place_all staged files).0, ok (place_all staged files).1)
  unfolding publish_all place_all
  publish_all-returns refuses [] files free = refl
  publish_all-returns refuses (s ∷ rest) files (here, free) =
      rw (here, publish_all-returns refuses rest (assign files s.final s.blob) free) refl

  place_all-other :
      (staged : List (Staged Blob store sha256 size_of)) (files : Dict Blob) (other : String)
      → All (λ (s : Staged Blob store sha256 size_of). str_eq s.final other ≡ false) staged
      → lookup (place_all staged files).0 other ≡ lookup files other
  unfolding place_all
  place_all-other [] files other h = refl
  place_all-other (s ∷ rest) files other h =
      place_all-other rest (assign files s.final s.blob) other h.1
      ∙ lookup-assign files s.final s.blob other
      ∙ rw h.0 refl

  -- Each pack is intact in the store, and stands where the recall puts it.
  abbrev pub IsRecalled : String → String → store.Objects → List PackInfo → Dict Blob → Type 0
  IsRecalled uri hot_dir objects packs files =
      All
        (λ p. (b : Blob) × IsIntact uri objects p b × (lookup files (hot_path hot_dir p) ≡ some b))
        packs

  pub IsStaged-free :
      (uri hot_dir : String) (objects : store.Objects) (packs : List PackInfo)
      (staged : List (Staged Blob store sha256 size_of)) (refuses : String → Bool)
      → IsStaged uri hot_dir objects packs staged
      → All (λ q. refuses (hot_path hot_dir q) ≡ false) packs
      → All (λ (s : Staged Blob store sha256 size_of). refuses s.final ≡ false) staged
  IsStaged-free uri hot_dir objects [] [] refuses h free = tt
  IsStaged-free uri hot_dir objects [] (s ∷ staged) refuses h free = absurd h
  IsStaged-free uri hot_dir objects (p ∷ packs) [] refuses h free = absurd h
  IsStaged-free uri hot_dir objects (p ∷ packs) (s ∷ staged) refuses (e, final, intact, more) free =
      (rw final free.0, IsStaged-free uri hot_dir objects packs staged refuses more free.1)

  pub IsStaged-apart :
      (uri hot_dir : String) (objects : store.Objects) (packs : List PackInfo)
      (staged : List (Staged Blob store sha256 size_of)) (other : String)
      → IsStaged uri hot_dir objects packs staged
      → All (λ q. str_eq (hot_path hot_dir q) other ≡ false) packs
      → All (λ (s : Staged Blob store sha256 size_of). str_eq s.final other ≡ false) staged
  IsStaged-apart uri hot_dir objects [] [] other h apart = tt
  IsStaged-apart uri hot_dir objects [] (s ∷ staged) other h apart = absurd h
  IsStaged-apart uri hot_dir objects (p ∷ packs) [] other h apart = absurd h
  IsStaged-apart uri hot_dir objects (p ∷ packs) (s ∷ staged) other (e, final, intact, more) apart =
      (rw final apart.0, IsStaged-apart uri hot_dir objects packs staged other more apart.1)

  pub place_all-IsRecalled :
      (uri hot_dir : String) (objects : store.Objects) (packs : List PackInfo)
      (staged : List (Staged Blob store sha256 size_of)) (files : Dict Blob)
      → IsStaged uri hot_dir objects packs staged
      → DistinctNames hot_dir packs
      → IsRecalled uri hot_dir objects packs (place_all staged files).0
  unfolding place_all
  place_all-IsRecalled uri hot_dir objects [] [] files h distinct = tt
  place_all-IsRecalled uri hot_dir objects [] (s ∷ staged) files h distinct = absurd h
  place_all-IsRecalled uri hot_dir objects (p ∷ packs) [] files h distinct = absurd h
  place_all-IsRecalled uri hot_dir objects (p ∷ packs) (s ∷ staged) files (e, final, intact, more)
        distinct =
      (
        (
          s.blob,
          intact,
          ground (
            arith,
            final,
            place_all-other staged (assign files s.final s.blob) (hot_path hot_dir p) (
                IsStaged-apart uri hot_dir objects packs staged (hot_path hot_dir p) more
                  distinct.0),
            lookup-assign files s.final s.blob (hot_path hot_dir p),
            str_eq_iff s.final (hot_path hot_dir p),
          ),
        ),
        place_all-IsRecalled uri hot_dir objects packs staged (assign files s.final s.blob) more
            distinct.1,
      )

  pub place_all-moved :
      (uri hot_dir : String) (objects : store.Objects) (packs : List PackInfo)
      (staged : List (Staged Blob store sha256 size_of)) (files : Dict Blob)
      → IsStaged uri hot_dir objects packs staged
      → (place_all staged files).1 ≡ map (moved hot_dir) packs
  unfolding place_all
  place_all-moved uri hot_dir objects [] [] files h = refl
  place_all-moved uri hot_dir objects [] (s ∷ staged) files h = absurd h
  place_all-moved uri hot_dir objects (p ∷ packs) [] files h = absurd h
  place_all-moved uri hot_dir objects (p ∷ packs) (s ∷ staged) files (e, final, intact, more) =
      rw (place_all-moved uri hot_dir objects packs staged (assign files s.final s.blob) more)
        (rw (e, final) refl)

  -- If all packs are in the store as they were, they are staged.
  pub stage_all-ok :
      (uri hot_dir : String) (packs : List PackInfo) (objects : store.Objects)
      → All (λ p. (b : Blob) × IsIntact uri objects p b) packs
      → (staged : List (Staged Blob store sha256 size_of)) × (stage_all Blob store sha256 size_of
            uri hot_dir packs objects
          ≡ ok staged)
  unfolding stage_all
  stage_all-ok uri hot_dir [] objects h = ([], refl)
  stage_all-ok uri hot_dir (p ∷ rest) objects ((b, (found, sha, size)), later) =
      let (staged, more) = stage_all-ok uri hot_dir rest objects later in
      let good : (not (str_eq (sha256 b) p.sha256) || not (size_of b == p.size)) ≡ false =
        ground (arith, sha, size, str_eq_iff (sha256 b) p.sha256) in
      let s : Staged Blob store sha256 size_of = record {
        blob = b;
        final = hot_path hot_dir p;
        pack = p;
      } in
      (s ∷ staged, rw (found, good, more) refl)
