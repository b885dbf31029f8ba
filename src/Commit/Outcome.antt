-- ===== src/Commit/Outcome.antt =====
-- What a commit leaves, whether it returns or raises (handle_commit of
-- src/ccc_storage_mountd/daemon.py).
use ccc_storage.Base.{
  String, ℕ, ◌+◌, ◌≡◌, refl, ap, ◌∙◌, ◌⊎◌, inl, inr, Bool, true, false, not, Option, none, some,
  List, [], ◌∷◌, ◌++◌, Result, raised, ok, ◌==◌, subst,
}
use ccc_storage.CommitPolicy.{Clock}
use ccc_storage.Manifest.{ChildManifest, PackInfo, write_policy_local_ssd_async}
use ccc_storage.Overlay.{Entries, nil, copytree, dirty_stats}
use ccc_storage.Overlay.Mirror.{DirtyMirror, MirrorDir, latest_dirty_mirror, tree_at, no_mirror}
use ccc_storage.PackReader.Compose.{if-holds}
use ccc_storage.Commit.{
  PackTool, NumberText, Service, Child, delta_path, tree_or_empty, cleanup_sealed,
  cleanup_local_async_state,
}
use ccc_storage.Commit.Calls.{is_clean, to_commit, or_cleanup, seal_and_commit, commit_mirror}
use ccc_storage.Base.Action.{go_on}
use ccc_storage.Commit.Following.{after_commit, build_commit_from_source}
use ccc_storage.Commit.Followed.{
  is_quiet, IsFollowedBy, IsFollowed, after_commit-IsFollowed, after_commit_quiet,
}
use ccc_storage.Commit.Building.{
  IsLawful, layer, layers_of, IsNew, layers_of-same, layers_of-append, IsPut, IsBuilt,
  build-IsBuilt,
}

module _ (clock : Clock) (Blob : Type 0) (size_of : Blob → ℕ) (tool : PackTool Blob)
    (text : NumberText) (lawful : IsLawful Blob tool)
    (service : Service clock Blob size_of tool text) where
  open clock use {Seconds}

  abbrev S : Type 0
  S = Child clock Blob size_of tool text

  -- The packs of a child as they are shown, the oldest first.
  abbrev pub layers : S → List (Option (Entries Blob))
  layers s = layers_of Blob tool s.packs s.manifest.pack_stack.lowers

  abbrev pub tree_of :
      MirrorDir Blob Seconds → Option (DirtyMirror Blob Seconds) → Option (Entries Blob)
  tree_of mirror none = none
  tree_of mirror (some latest) = tree_at Blob Seconds mirror latest.path

  abbrev pub latest_of : S → Option (DirtyMirror Blob Seconds)
  latest_of s = to_commit clock Blob size_of tool text (latest_dirty_mirror Blob Seconds s.mirror)

  -- What a commit packs, of a child whose writer is local or not.
  abbrev pub source : Bool → S → Option (Entries Blob)
  source true s = tree_of s.mirror (latest_of s)
  source false s = some (tree_or_empty clock Blob size_of tool text s.upper)

  abbrev pub IsNothing : Bool → S → Type 0
  IsNothing true s = latest_of s ≡ none
  IsNothing false s = (dirty_stats Blob size_of (source false s)).dirty ≡ false

  abbrev pub IsKept : Bool → S → S → Type 0
  IsKept true s u = (u.mirror ≡ s.mirror) × (u.local_upper ≡ s.local_upper) × (u.upper ≡ s.upper)
  IsKept false s u = (u.mirror ≡ s.mirror) × (u.local_upper ≡ s.local_upper)

  abbrev pub IsTaken : Bool → S → Type 0
  IsTaken true u = (u.mirror ≡ no_mirror Blob Seconds) × (u.local_upper ≡ none)
  IsTaken false u = u.upper ≡ some nil

  abbrev pub IsSameStack : S → S → Type 0
  IsSameStack s u = (u.manifest ≡ s.manifest) × (layers u ≡ layers s)

  abbrev next_path : S → String
  next_path s =
      delta_path clock Blob size_of tool text service s.manifest.id (s.manifest.generation + 1)

  -- The next generation, with one pack more, which shows the source.
  abbrev pub IsCommitted : Bool → S → S → Type 0
  IsCommitted async s v =
      (v.manifest.generation ≡ s.manifest.generation + 1)
      × ((pack : PackInfo) × (pack.path ≡ next_path s)
          × (v.manifest.pack_stack.lowers ≡ s.manifest.pack_stack.lowers ++ (pack ∷ [])))
      × ((tree : Entries Blob) × (source async s ≡ some tree)
          × (layers v ≡ layers s ++ (some (copytree Blob tree) ∷ [])))
      × IsTaken async v

  -- The commit was published and followed, and the answer is not about the commit alone.
  abbrev pub IsBroken : Bool → S → S → Type 0
  IsBroken async s u =
      (v : S) × IsCommitted async s v
      × IsFollowedBy clock Blob size_of tool text service v u
      × (is_quiet clock Blob size_of tool text service ≡ false)

  -- It was published, and nothing follows or the service compacts or mirrors.
  abbrev pub IsDone : Bool → S → S → Type 0
  IsDone async s u =
      (v : S) × IsCommitted async s v
      × IsFollowedBy clock Blob size_of tool text service v u
      × ((is_quiet clock Blob size_of tool text service ≡ false) ⊎ IsSameStack v u)

  abbrev pub IsAnswered : Bool → S → S → Result ChildManifest → Type 0
  IsAnswered async s u (raised e) = (IsSameStack s u × IsKept async s u) ⊎ IsBroken async s u
  IsAnswered async s u (ok m) =
      (IsNothing async s
        × (m ≡ is_clean clock Blob size_of tool text s.manifest)
        × IsSameStack s u
        × IsKept async s u)
      ⊎ ((u.manifest ≡ m) × IsDone async s u)

  abbrev pub IsSameLocks : S → S → Type 0
  IsSameLocks s u = (u.commit_lock ≡ s.commit_lock) × (u.writer_lock ≡ s.writer_lock)

  abbrev pub IsOutcome : Bool → S → S × Result ChildManifest → Type 0
  IsOutcome async s (u, answer) = IsSameLocks s u × IsAnswered async s u answer

  -- The path of the next pack is not in use.
  abbrev pub IsFresh : S → Type 0
  IsFresh s = IsNew Blob tool (next_path s) s.manifest.pack_stack.lowers

  put-IsSameStack :
      (s u : S)
      → IsFresh s
      → IsPut clock Blob size_of tool text lawful (next_path s) s u
      → IsSameStack s u
  put-IsSameStack s u fresh (same, elsewhere) =
      let e : u.manifest ≡ s.manifest = ap (λ (x : S). x.manifest) same in
      (
        e,
        ap (λ (m : ChildManifest). layers_of Blob tool u.packs m.pack_stack.lowers) e
            ∙ layers_of-same Blob tool (next_path s) s.packs u.packs s.manifest.pack_stack.lowers
                fresh elsewhere,
      )

  -- With the new pack on top.
  layers-updated :
      (s v : S) (pack : PackInfo) (shown : Option (Entries Blob))
      → IsFresh s
      → IsPut clock Blob size_of tool text lawful (next_path s) s v
      → pack.path ≡ next_path s
      → layer Blob tool (v.packs (next_path s)) ≡ shown
      → layers_of Blob tool v.packs (s.manifest.pack_stack.lowers ++ (pack ∷ []))
        ≡ layers s ++ (shown ∷ [])
  layers-updated s v pack shown fresh (same, elsewhere) at_out is =
      let lowers = s.manifest.pack_stack.lowers in
      layers_of-append Blob tool v.packs lowers (pack ∷ [])
      ∙ ap (λ l. l ++ layers_of Blob tool v.packs (pack ∷ []))
          (layers_of-same Blob tool (next_path s) s.packs v.packs lowers fresh elsewhere)
      ∙ ap (λ x. layers s ++ (x ∷ [])) (ap (λ p. layer Blob tool (v.packs p)) at_out ∙ is)

  abbrev IsBuiltFrom :
      S → Option (Entries Blob) → String → (S → S) → S → S × Result ChildManifest → Type 0
  IsBuiltFrom s tree mode cleanup at r =
      IsBuilt clock Blob size_of tool text lawful service s.manifest tree
        (s.manifest.generation + 1) mode cleanup at r

  -- Where the commit is published or raises, nothing has followed yet.
  abbrev IsPublishing : Bool → S → S × Result ChildManifest → Type 0
  IsPublishing async s (u, raised e) = IsSameLocks s u × IsSameStack s u × IsKept async s u
  IsPublishing async s (v, ok m) = IsSameLocks s v × (v.manifest ≡ m) × IsCommitted async s v

  followed-IsOutcome :
      (async : Bool) (s v : S) (m : ChildManifest) (t : S × Result ChildManifest)
      → IsSameLocks s v
      → IsCommitted async s v
      → IsFollowed clock Blob size_of tool text service v t
      → (t ≡ (v, ok m)) ⊎ (is_quiet clock Blob size_of tool text service ≡ false)
      → IsOutcome async s t
  followed-IsOutcome async s v m (u, raised e) locks done ((c, w), after) (inl is) = absurd (cc)
  followed-IsOutcome async s v m (u, raised e) (c', w') done ((c, w), after) (inr busy) =
      ((c ∙ c', w ∙ w'), inr (v, done, after, busy))
  followed-IsOutcome async s v m (u, ok n) (c', w') done (((c, w), after), same) (inl is) =
      let e = ap (λ (x : S × Result ChildManifest). x.0) is in
      (
        (c ∙ c', w ∙ w'),
        inr (same, (v, done, after, inr (ap (λ (x : S). x.manifest) e, ap layers e))),
      )
  followed-IsOutcome async s v m (u, ok n) (c', w') done (((c, w), after), same) (inr busy) =
      ((c ∙ c', w ∙ w'), inr (same, (v, done, after, inl busy)))

  quiet_or_busy :
      (v : S) (m : ChildManifest) (compacts mirrors : Bool)
      → service.level_policy.trigger_after_commit ≡ compacts
      → service.mirrors_after_commit ≡ mirrors
      → (after_commit clock Blob size_of tool text service m v ≡ (v, ok m))
        ⊎ (is_quiet clock Blob size_of tool text service ≡ false)
  quiet_or_busy v m false false c s =
      inl (after_commit_quiet clock Blob size_of tool text service m v c s)
  quiet_or_busy v m true mirrors c s = inr (rw c refl)
  quiet_or_busy v m false true c s = inr (rw (c, s) refl)

  publishing-IsOutcome :
      (async : Bool) (s : S) (r : S × Result ChildManifest)
      → IsPublishing async s r
      → IsOutcome async s (go_on r (after_commit clock Blob size_of tool text service))
  publishing-IsOutcome async s (u, raised e) (locks, same, kept) = (locks, inl (same, kept))
  publishing-IsOutcome async s (v, ok m) (locks, is, done) =
      followed-IsOutcome async s v m (after_commit clock Blob size_of tool text service m v) locks
        done
        (subst
          (λ x.
            IsFollowed clock Blob size_of tool text service v
              (after_commit clock Blob size_of tool text service x v))
          is (after_commit-IsFollowed clock Blob size_of tool text service v))
        (quiet_or_busy v m _ _ refl refl)

  async_built-IsPublishing :
      (s : S) (latest : DirtyMirror Blob Seconds) (r : S × Result ChildManifest)
      → IsFresh s
      → latest_of s ≡ some latest
      → IsBuiltFrom s
          (tree_at Blob Seconds s.mirror latest.path)
          write_policy_local_ssd_async
          (cleanup_local_async_state clock Blob size_of tool text)
          s
          r
      → IsPublishing true s r
  async_built-IsPublishing s latest (u, raised e) fresh is put =
      let same = put.0 in
      (
        (ap (λ (x : S). x.commit_lock) same, ap (λ (x : S). x.writer_lock) same),
        put-IsSameStack s u fresh put,
        (
          ap (λ (x : S). x.mirror) same,
          ap (λ (x : S). x.local_upper) same,
          ap (λ (x : S). x.upper) same,
        ),
      )
  async_built-IsPublishing s latest (u, ok m) fresh is
        (pack, v, put, is_u, is_m, at_out, (tree, is_tree, shown)) =
      let same = put.0 in
      (
        (
          ap (λ (x : S). x.commit_lock) is_u ∙ ap (λ (x : S). x.commit_lock) same,
          ap (λ (x : S). x.writer_lock) is_u ∙ ap (λ (x : S). x.writer_lock) same,
        ),
        ap (λ (x : S). x.manifest) is_u,
        (
          ap (λ (x : S). x.manifest.generation) is_u
              ∙ ap (λ (x : ChildManifest). x.generation) is_m,
          (
            pack,
            at_out,
            ap (λ (x : S). x.manifest.pack_stack.lowers) is_u
                ∙ ap (λ (x : ChildManifest). x.pack_stack.lowers) is_m,
          ),
          (
            tree,
            ap (tree_of s.mirror) is ∙ is_tree,
            ap layers is_u
                ∙ ap (λ (x : ChildManifest). layers_of Blob tool v.packs x.pack_stack.lowers) is_m
                ∙ layers-updated s v pack (some (copytree Blob tree)) fresh put at_out shown,
          ),
          (ap (λ (x : S). x.mirror) is_u, ap (λ (x : S). x.local_upper) is_u),
        ),
      )

  pub mirror-IsOutcome :
      (s : S) (found : Option (DirtyMirror Blob Seconds))
      → IsFresh s
      → latest_of s ≡ found
      → IsOutcome true s (commit_mirror clock Blob size_of tool text service found s)
  unfolding build_commit_from_source
  mirror-IsOutcome s none fresh is =
      ((refl, refl), inl (is, refl, (refl, refl), (refl, refl, refl)))
  mirror-IsOutcome s (some latest) fresh is =
      if-holds (IsOutcome true s) (not (latest.base_generation == s.manifest.generation)) _ _
        ((refl, refl), inl ((refl, refl), (refl, refl, refl)))
        (publishing-IsOutcome true s _ (
          async_built-IsPublishing s latest _ fresh is (
            build-IsBuilt clock Blob size_of tool text lawful service s.manifest
              (tree_at Blob Seconds s.mirror latest.path) (s.manifest.generation + 1)
              write_policy_local_ssd_async (cleanup_local_async_state clock Blob size_of tool text)
              s)))

  -- The active upper is there, and then it is sealed.
  abbrev sealed_of : S → S
  sealed_of s = record s {
    upper = some nil;
    sealed = tree_or_empty clock Blob size_of tool text s.upper ∷ s.sealed;
  }

  shared_built-IsPublishing :
      (s : S) (r : S × Result ChildManifest)
      → IsFresh s
      → IsBuiltFrom s
          (source false s)
          "shared-overlay"
          (cleanup_sealed clock Blob size_of tool text s.sealed)
          (sealed_of s)
          r
      → IsPublishing false s r
  shared_built-IsPublishing s (u, raised e) fresh put =
      let same = put.0 in
      (
        (ap (λ (x : S). x.commit_lock) same, ap (λ (x : S). x.writer_lock) same),
        put-IsSameStack (sealed_of s) u fresh put,
        (ap (λ (x : S). x.mirror) same, ap (λ (x : S). x.local_upper) same),
      )
  shared_built-IsPublishing s (u, ok m) fresh
        (pack, v, put, is_u, is_m, at_out, (tree, is_tree, shown)) =
      let same = put.0 in
      (
        (
          ap (λ (x : S). x.commit_lock) is_u ∙ ap (λ (x : S). x.commit_lock) same,
          ap (λ (x : S). x.writer_lock) is_u ∙ ap (λ (x : S). x.writer_lock) same,
        ),
        ap (λ (x : S). x.manifest) is_u,
        (
          ap (λ (x : S). x.manifest.generation) is_u
              ∙ ap (λ (x : ChildManifest). x.generation) is_m,
          (
            pack,
            at_out,
            ap (λ (x : S). x.manifest.pack_stack.lowers) is_u
                ∙ ap (λ (x : ChildManifest). x.pack_stack.lowers) is_m,
          ),
          (
            tree,
            is_tree,
            ap layers is_u
                ∙ ap (λ (x : ChildManifest). layers_of Blob tool v.packs x.pack_stack.lowers) is_m
                ∙ layers-updated (sealed_of s) v pack (some (copytree Blob tree)) fresh put at_out
                    shown,
          ),
          ap (λ (x : S). x.upper) is_u ∙ ap (λ (x : S). x.upper) same,
        ),
      )

  -- The sealed upper is no part of the answer.
  or_cleanup-IsOutcome :
      (s : S) (before : List (Entries Blob)) (r : S × Result ChildManifest)
      → IsOutcome false s r
      → IsOutcome false s (or_cleanup clock Blob size_of tool text before r)
  or_cleanup-IsOutcome s before (u, raised e) h = h
  or_cleanup-IsOutcome s before (u, ok m) h = h

  pub sealed-IsOutcome :
      (s : S)
      → IsFresh s
      → IsOutcome false s (seal_and_commit clock Blob size_of tool text service s)
  unfolding build_commit_from_source
  sealed-IsOutcome s fresh = or_cleanup-IsOutcome s s.sealed _ (
      publishing-IsOutcome false s _ (
        shared_built-IsPublishing s _ fresh (
          build-IsBuilt clock Blob size_of tool text lawful service s.manifest (source false s)
            (s.manifest.generation + 1) "shared-overlay"
            (cleanup_sealed clock Blob size_of tool text s.sealed) (sealed_of s))))
