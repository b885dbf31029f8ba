-- ===== src/Commit/Followed.antt =====
-- What the steps after a commit leave (`_compact_if_needed` and `_mirror_after_commit_if_configured` of
-- src/ccc_storage_mountd/daemon.py).
use ccc_storage.Base.{
  String, ℕ, ◌≡◌, refl, sym, ap, ◌∙◌, ◌⊎◌, inl, inr, Bool, true, false, not, ◌&&◌, Option, none,
  some, List, [], Result, raised, ok,
}
use ccc_storage.Base.Action.{go_on}
use ccc_storage.CommitPolicy.{Clock}
use ccc_storage.Cold.{Machine, MirrorResult, mirror_committed_packs_to_cold_storage}
use ccc_storage.Compaction.{publish_partial_compaction}
use ccc_storage.Compaction.Publish.{publish_partial_compaction-IsPublished}
use ccc_storage.Levels.{CompactionCandidate, plan_level_compaction}
use ccc_storage.Manifest.{ChildManifest, PackInfo}
use ccc_storage.PackReader.Compose.{if-holds}
use ccc_storage.Commit.{PackTool, NumberText, Service, Child}
use ccc_storage.Commit.Packing.{IsElsewhere, IsPack, IsPacking, compaction-IsPacking}
use ccc_storage.Commit.Mirroring.{IsMirrorOf, mirror-IsMirrorOf}
use ccc_storage.Commit.Following.{
  build_partial_compaction, compaction_output_path, is_blocked, dumped_compaction,
  publish_compaction, compact_planned, compact_if_needed, files_of, cold_prefix_of, mirrored_child,
  mirror_after_commit, compact_after_commit, mirror_compacted, after_commit,
}

module _ (clock : Clock) (Blob : Type 0) (size_of : Blob → ℕ) (tool : PackTool Blob)
    (text : NumberText) (service : Service clock Blob size_of tool text) where
  open tool use {Image, mksquashfs, store, document}

  abbrev S : Type 0
  S = Child clock Blob size_of tool text

  -- The service does neither after a commit.
  abbrev pub is_quiet : Bool
  is_quiet = not service.level_policy.trigger_after_commit && not service.mirrors_after_commit

  -- The uppers and the dirty mirror stay, and all packs but one.
  abbrev pub IsAside : S → S → Type 0
  IsAside v u =
      ((out : String) × IsElsewhere clock Blob size_of tool text out v u)
      × (u.upper ≡ v.upper)
      × (u.mirror ≡ v.mirror)
      × (u.local_upper ≡ v.local_upper)

  abbrev pub IsUnlocked : S → S → Type 0
  IsUnlocked v u = (u.commit_lock ≡ v.commit_lock) × (u.writer_lock ≡ v.writer_lock)

  -- A candidate of the planner was published, with a pack of its own.
  pub record IsCompacted (v u : ChildManifest) : Type 0 where
    pub candidate : CompactionCandidate
    pub pack : PackInfo
    pub result : ChildManifest × List PackInfo
    pub planned :
        plan_level_compaction v.pack_stack.lowers service.level_policy false ≡ ok (some candidate)
    pub published :
        publish_partial_compaction v candidate.packs pack candidate.target_level ≡ ok result
    pub stack : u.pack_stack ≡ result.0.pack_stack

  abbrev pub IsFollowedBy : S → S → Type 0
  IsFollowedBy v u =
      IsAside v u
      × (u.manifest.generation ≡ v.manifest.generation)
      × ((u.manifest.pack_stack ≡ v.manifest.pack_stack) ⊎ IsCompacted v.manifest u.manifest)

  abbrev pub IsFollowing : S → S → Type 0
  IsFollowing v u = IsUnlocked v u × IsFollowedBy v u

  IsAside-same : (v : S) → IsAside v v
  IsAside-same v = (("", λ other away. refl), refl, refl, refl)

  packing-IsFollowing :
      (out : String) (v u : S) → IsPack clock Blob size_of tool text out v u → IsFollowing v u
  packing-IsFollowing out v u (h, away) = (
    (ap (λ (x : S). x.commit_lock) h, ap (λ (x : S). x.writer_lock) h),
    (
      (
        (out, away),
        ap (λ (x : S). x.upper) h,
        ap (λ (x : S). x.mirror) h,
        ap (λ (x : S). x.local_upper) h,
      ),
      ap (λ (x : S). x.manifest.generation) h,
      inl (ap (λ (x : S). x.manifest.pack_stack) h),
    ),
  )

  abbrev IsCompaction : S → S × Result (Option ChildManifest) → Type 0
  IsCompaction v (u, raised e) = IsFollowing v u
  IsCompaction v (u, ok none) = IsFollowing v u × (u.manifest ≡ v.manifest)
  IsCompaction v (u, ok (some m)) = IsFollowing v u × (u.manifest ≡ m)

  dumped-IsCompaction :
      (out : String) (v u : S) (c : CompactionCandidate) (pack : PackInfo)
      (r : Result (ChildManifest × List PackInfo))
      → IsPack clock Blob size_of tool text out v u
      → plan_level_compaction v.manifest.pack_stack.lowers service.level_policy false ≡ ok (some c)
      → publish_partial_compaction v.manifest c.packs pack c.target_level ≡ r
      → IsCompaction v (dumped_compaction clock Blob size_of tool text u r)
  dumped-IsCompaction out v u c pack (raised e) h planned is = packing-IsFollowing out v u h
  dumped-IsCompaction out v u c pack (ok (m, retired)) h planned is =
      let (locks, (aside, generation, stack)) = packing-IsFollowing out v u h in
      let p =
        publish_partial_compaction-IsPublished v.manifest pack c.target_level c.packs (m, retired)
          is in
      (
        (
          locks,
          (
            aside,
            ap (λ (x : ChildManifest × List PackInfo). x.0.generation) p.same,
            inr (record {
              candidate = c;
              pack = pack;
              result = (m, retired);
              planned = planned;
              published = is;
              stack = refl;
            }),
          ),
        ),
        refl,
      )

  published-IsCompaction :
      (out : String) (v : S) (c : CompactionCandidate) (r : S × Result PackInfo)
      → IsPacking clock Blob size_of tool text out v r
      → plan_level_compaction v.manifest.pack_stack.lowers service.level_policy false ≡ ok (some c)
      → IsCompaction v (publish_compaction clock Blob size_of tool text v.manifest c r)
  published-IsCompaction out v c (u, raised e) h planned = packing-IsFollowing out v u h
  published-IsCompaction out v c (u, ok pack) h planned =
      dumped-IsCompaction out v u c pack _ h planned refl

  still : (v : S) → IsFollowing v v
  still v = ((refl, refl), (IsAside-same v, refl, inl refl))

  planned-IsCompaction :
      (v : S) (plan : Result (Option CompactionCandidate))
      → plan_level_compaction v.manifest.pack_stack.lowers service.level_policy false ≡ plan
      → IsCompaction v (compact_planned clock Blob size_of tool text service v.manifest v plan)
  planned-IsCompaction v (raised e) is = still v
  planned-IsCompaction v (ok none) is = (still v, refl)
  planned-IsCompaction v (ok (some c)) is =
      if-holds (IsCompaction v) (is_blocked clock Blob size_of tool text c.blocked_reason) _ _
        (still v, refl)
        (published-IsCompaction
          (compaction_output_path clock Blob size_of tool text service v.manifest c.target_level
            c.packs)
          v c
          (build_partial_compaction clock Blob size_of tool text c.packs
            (compaction_output_path clock Blob size_of tool text service v.manifest c.target_level
              c.packs)
            c.target_level v)
          (compaction-IsPacking clock Blob size_of tool text c.packs _ c.target_level v) is)

  compact-IsCompaction :
      (v : S)
      → IsCompaction v (compact_after_commit clock Blob size_of tool text service v.manifest v)
  unfolding compact_if_needed
  compact-IsCompaction v =
      if-holds (IsCompaction v) service.level_policy.trigger_after_commit _ _
        (planned-IsCompaction v _ refl) (still v, refl)

  abbrev pub IsFollowed : S → S × Result ChildManifest → Type 0
  IsFollowed v (u, raised e) = IsFollowing v u
  IsFollowed v (u, ok m) = IsFollowing v u × (u.manifest ≡ m)

  restacked :
      (v w u : S)
      → u.manifest.pack_stack ≡ w.manifest.pack_stack
      → (w.manifest.pack_stack ≡ v.manifest.pack_stack) ⊎ IsCompacted v.manifest w.manifest
      → (u.manifest.pack_stack ≡ v.manifest.pack_stack) ⊎ IsCompacted v.manifest u.manifest
  restacked v w u same (inl h) = inl (same ∙ h)
  restacked v w u same (inr c) = inr (record {
    candidate = c.candidate;
    pack = c.pack;
    result = c.result;
    planned = c.planned;
    published = c.published;
    stack = same ∙ c.stack;
  })

  mirrored-IsFollowed :
      (v w : S) (m : ChildManifest) (r : Machine Image store × Result MirrorResult)
      → w.manifest ≡ m
      → IsFollowing v w
      → IsMirrorOf Blob tool m r
      → IsFollowed v (mirrored_child clock Blob size_of tool text w r)
  mirrored-IsFollowed v w m (k, raised e) is (locks, (aside, generation, stack)) kept =
      (locks, (aside, generation, restacked v w (record w { objects = k.objects }) refl stack))
  mirrored-IsFollowed v w m (k, ok r) is (locks, (aside, generation, stack)) (g, p) =
      let same = sym is in
      (
        (
          locks,
          (
            aside,
            g ∙ ap (λ (x : ChildManifest). x.generation) same ∙ generation,
            restacked v w (record w { objects = k.objects; manifest = r.manifest })
                (p ∙ ap (λ (x : ChildManifest). x.pack_stack) same) stack,
          ),
        ),
        refl,
      )

  mirror-IsFollowed :
      (v w : S) (m : ChildManifest)
      → w.manifest ≡ m
      → IsFollowing v w
      → IsFollowed v (mirror_after_commit clock Blob size_of tool text service m w)
  unfolding mirror_after_commit
  mirror-IsFollowed v w m is h =
      if-holds (IsFollowed v) (not service.mirrors_after_commit) _ _ (h, is)
        (mirrored-IsFollowed v w m
          (mirror_committed_packs_to_cold_storage Image store document m "manifest"
            (cold_prefix_of clock Blob size_of tool text service m) service.backend true
            service.stamp
            (record {
              files = files_of clock Blob size_of tool text w.packs m.pack_stack.lowers;
              documents = [];
              objects = w.objects;
              refuses = λ path. false;
            }))
          is h
          (mirror-IsMirrorOf Blob tool m "manifest"
            (cold_prefix_of clock Blob size_of tool text service m) service.backend service.stamp
            (record {
              files = files_of clock Blob size_of tool text w.packs m.pack_stack.lowers;
              documents = [];
              objects = w.objects;
              refuses = λ path. false;
            })))

  compacted-IsFollowed :
      (v : S) (r : S × Result (Option ChildManifest))
      → IsCompaction v r
      → IsFollowed v (go_on r (mirror_compacted clock Blob size_of tool text service v.manifest))
  compacted-IsFollowed v (u, raised e) h = h
  compacted-IsFollowed v (u, ok none) (h, is) = mirror-IsFollowed v u v.manifest is h
  compacted-IsFollowed v (u, ok (some m)) (h, is) = mirror-IsFollowed v u m is h

  pub after_commit-IsFollowed :
      (v : S) → IsFollowed v (after_commit clock Blob size_of tool text service v.manifest v)
  unfolding after_commit
  after_commit-IsFollowed v = compacted-IsFollowed v _ (compact-IsCompaction v)

  pub after_commit_quiet :
      (m : ChildManifest) (v : S)
      → service.level_policy.trigger_after_commit ≡ false
      → service.mirrors_after_commit ≡ false
      → after_commit clock Blob size_of tool text service m v ≡ (v, ok m)
  unfolding after_commit mirror_after_commit
  after_commit_quiet m v compacts mirrors = rw (compacts, mirrors) refl

  -- Nothing follows, too, if the planner finds no candidate.
  pub after_commit_idle :
      (m : ChildManifest) (v : S)
      → service.mirrors_after_commit ≡ false
      → (service.level_policy.trigger_after_commit ≡ false)
        ⊎ (plan_level_compaction m.pack_stack.lowers service.level_policy false ≡ ok none)
      → after_commit clock Blob size_of tool text service m v ≡ (v, ok m)
  unfolding after_commit compact_if_needed mirror_after_commit
  after_commit_idle m v mirrors (inl quiet) = after_commit_quiet m v quiet mirrors
  after_commit_idle m v mirrors (inr none_found) =
      if-holds
        (λ (r : S × Result (Option ChildManifest)).
          go_on r (mirror_compacted clock Blob size_of tool text service m) ≡ (v, ok m))
        service.level_policy.trigger_after_commit
        (compact_if_needed clock Blob size_of tool text service false m v) (v, ok none)
        (rw (none_found, mirrors) refl) (rw mirrors refl)
