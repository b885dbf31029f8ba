-- ===== src/Commit/Returns.antt =====
-- A commit returns if nothing hinders it (handle_commit of src/ccc_storage_mountd/daemon.py).
use ccc_storage.Base.{
  String, ℕ, ◌+◌, ◌≡◌, refl, ap, Bool, true, false, not, Option, none, some, Result, raised, ok,
  str_eq, str_eq_iff, ◌⊎◌, List, [], ◌∷◌, ◌++◌, if◌then◌else◌, arith, ◌==◌, subst,
}
use ccc_storage.Base.Action.{go_on}
use ccc_storage.CommitPolicy.{Clock}
use ccc_storage.Levels.{choose_initial_level, plan_level_compaction}
use ccc_storage.Locks.{absent, present, acquire, LockFile, NfsLock, Locked, new_lock}
use ccc_storage.PackReader.Compose.{if-holds}
use ccc_storage.Manifest.{ChildManifest, PackInfo, write_policy_local_ssd_async}
use ccc_storage.Overlay.{Entries, nil, copytree, dirty_stats}
use ccc_storage.Overlay.Mirror.{tree_at, latest_dirty_mirror, DirtyMirror}
use ccc_storage.Commit.{
  PackTool, NumberText, Service, Child, pack_of, inspected, build_pack, build_delta, checked_pack,
  verify_pack, delta_path, leveled, updated, publish_commit, cleanup_sealed, ensure_active_upper,
  tree_or_empty, cleanup_local_async_state,
}
use ccc_storage.Commit.Following.{build_commit_from_source, after_commit}
use ccc_storage.Commit.Followed.{after_commit_idle}
use ccc_storage.Commit.Calls.{
  is_writable, handle_commit, commit_shared_nfs, with_commit_lock, entered, left, seal_and_commit,
  or_cleanup, commit_mirror, to_commit, as_writer, commit_latest, commit_if_dirty,
  commit_local_async, is_clean, writer_left,
}

module _ (clock : Clock) (Blob : Type 0) (size_of : Blob → ℕ) (tool : PackTool Blob)
    (text : NumberText) (service : Service clock Blob size_of tool text) where
  open clock use {Seconds}
  open tool use {Image, mksquashfs, sha256, size}

  abbrev S : Type 0
  S = Child clock Blob size_of tool text

  abbrev pub IsReturned : {A : Type 0} → S × Result A → Type 0
  IsReturned {A} r = (a : A) × (r.1 ≡ ok a)

  go_on-IsReturned :
      {A B : Type 0} (r : S × Result A) (next : A → S → S × Result B) (a : A)
      → r.1 ≡ ok a
      → IsReturned (next a r.0)
      → IsReturned (go_on r next)
  go_on-IsReturned (u, raised e) next a is h = absurd (cc)
  go_on-IsReturned (u, ok b) next a is h =
      let e : a ≡ b = cc in subst (λ x. IsReturned (next x u)) e h

  abbrev next_path : ChildManifest → String
  next_path manifest =
      delta_path clock Blob size_of tool text service manifest.id (manifest.generation + 1)

  abbrev next_pack : ChildManifest → Entries Blob → Image → ℕ → PackInfo
  next_pack manifest tree image level =
      leveled clock Blob size_of tool text (manifest.generation + 1) level
        (pack_of clock Blob size_of tool text (next_path manifest) (copytree Blob tree) image)

  go_on-ok :
      {A B : Type 0} (r : S × Result A) (next : A → S → S × Result B) (a : A) (b : B)
      → r.1 ≡ ok a
      → (next a r.0).1 ≡ ok b
      → (go_on r next).1 ≡ ok b
  go_on-ok (u, raised e) next a b is h = absurd (cc)
  go_on-ok (u, ok c) next a b is h = let e : a ≡ c = cc in subst (λ x. (next x u).1 ≡ ok b) e h

  -- The program writes a pack for the tree, and a level fits it. The service does not compact after
  -- commits, or the planner finds nothing to compact once the pack is on the stack.
  pub record IsWritten (manifest : ChildManifest) (tree : Entries Blob) (old : Option Image)
      : Type 0 where
    pub image : Image
    pub wrote : mksquashfs (copytree Blob tree) old ≡ (some image, true)
    pub level : ℕ
    pub fits : choose_initial_level service.level_policy (size image) ≡ ok level
    pub idle :
        (service.level_policy.trigger_after_commit ≡ false)
        ⊎ (plan_level_compaction
              (manifest.pack_stack.lowers ++ (next_pack manifest tree image level ∷ []))
              service.level_policy
              false
            ≡ ok none)

  verified_self :
      (pack : PackInfo) (found : Option Image) (image : Image)
      → found ≡ some image
      → pack.sha256 ≡ sha256 image
      → pack.size ≡ size image
      → checked_pack clock Blob size_of tool text pack found ≡ ok tt
  verified_self pack none image is sha large = absurd (cc)
  verified_self pack (some other) image is sha large =
      let e : other ≡ image = cc in
      ground (arith, str_eq_iff (sha256 other) pack.sha256, sha, large, ap sha256 e, ap size e)

  inspected_wrote :
      (out : String) (tree : Entries Blob) (s : S) (image : Image) (r : Option Image × Bool)
      → r ≡ (some image, true)
      → ((inspected clock Blob size_of tool text out tree s r).1
          ≡ ok (pack_of clock Blob size_of tool text out tree image))
        × ((inspected clock Blob size_of tool text out tree s r).0.packs out ≡ some image)
  inspected_wrote out tree s image r is = rw is (refl, ground (arith, str_eq_iff out out))

  module _ (manifest : ChildManifest) (tree : Entries Blob) (mode : String) (cleanup : S → S)
      (s : S) where
    -- The manifest that the build publishes is the updated one.
    publish_commit-IsReturned :
        (written : IsWritten manifest tree (s.packs (next_path manifest)))
        → (publish_commit clock Blob size_of tool text service manifest
            (some tree)
            (manifest.generation + 1)
            mode
            cleanup
            s).1
          ≡ ok (
              updated clock Blob size_of tool text service manifest
                (manifest.generation + 1)
                mode
                (next_pack manifest tree written.image written.level))
    unfolding publish_commit build_pack verify_pack
    publish_commit-IsReturned written =
        let image = written.image in
        let out = next_path manifest in
        let r = build_delta clock Blob size_of tool text (some tree) out s in
        let pack = pack_of clock Blob size_of tool text out (copytree Blob tree) image in
        let (is_pack, is_there) =
          inspected_wrote out (copytree Blob tree) s image _ written.wrote in
        let checked =
          verified_self (next_pack manifest tree image written.level) (r.0.packs out) image is_there
            refl refl in
        go_on-ok r _ pack _ is_pack (
          go_on-ok (r.0, choose_initial_level service.level_policy pack.size) _ written.level _
            written.fits
            (go_on-ok
              (
                r.0,
                checked_pack clock Blob size_of tool text
                    (next_pack manifest tree image written.level) (r.0.packs out),
              )
              _ tt _ checked refl))

    build-IsReturned :
        IsWritten manifest tree (s.packs (next_path manifest))
        → service.mirrors_after_commit ≡ false
        → IsReturned (
            build_commit_from_source clock Blob size_of tool text service manifest
              (some tree)
              (manifest.generation + 1)
              mode
              cleanup
              s)
    unfolding build_commit_from_source
    build-IsReturned written mirrors =
        let r =
          publish_commit clock Blob size_of tool text service manifest (some tree)
            (manifest.generation + 1) mode cleanup s in
        let m =
          updated clock Blob size_of tool text service manifest (manifest.generation + 1) mode
            (next_pack manifest tree written.image written.level) in
        go_on-IsReturned r (after_commit clock Blob size_of tool text service) m
          (publish_commit-IsReturned written)
          (
            m,
            ap (λ (x : S × Result ChildManifest). x.1)
                (after_commit_idle clock Blob size_of tool text service m r.0 mirrors written.idle),
          )

  or_cleanup-IsReturned :
      (before : List (Entries Blob)) (r : S × Result ChildManifest)
      → IsReturned r
      → IsReturned (or_cleanup clock Blob size_of tool text before r)
  or_cleanup-IsReturned before (u, raised e) (m, is) = absurd (cc)
  or_cleanup-IsReturned before (u, ok n) (m, is) = (m, is)

  left-IsReturned :
      (lock : NfsLock clock) (r : S × Result ChildManifest)
      → IsReturned r
      → IsReturned (left clock Blob size_of tool text lock r)
  left-IsReturned lock (u, answer) h = h

  writer_left-IsReturned :
      (lock : NfsLock clock) (r : S × Result ChildManifest)
      → IsReturned r
      → IsReturned (writer_left clock Blob size_of tool text lock r)
  writer_left-IsReturned lock (u, answer) h = h

  abbrev taking : String → LockFile clock → Locked clock
  taking op file = record { file = file; lock = new_lock clock op service.stale_after }

  entered-IsReturned :
      (body : S → S × Result ChildManifest) (now : Seconds) (s : S) (file : LockFile clock)
      → file ≡ absent
      → ((held : LockFile clock) → IsReturned (body (record s { commit_lock = held })))
      → IsReturned (
          entered clock Blob size_of tool text body s
            (acquire clock service.process false now now (taking "commit" file)))
  unfolding acquire
  entered-IsReturned body now s (present info modified) free h = absurd (cc)
  entered-IsReturned body now s absent free h =
      let l = (acquire clock service.process false now now (taking "commit" absent)).0 in
      left-IsReturned l.lock (body (record s { commit_lock = l.file })) (h l.file)

  with_commit_lock-IsReturned :
      (body : S → S × Result ChildManifest) (now : Seconds) (s : S)
      → s.commit_lock ≡ absent
      → ((held : LockFile clock) → IsReturned (body (record s { commit_lock = held })))
      → IsReturned (with_commit_lock clock Blob size_of tool text service now body s)
  unfolding with_commit_lock
  with_commit_lock-IsReturned body now s free h = entered-IsReturned body now s s.commit_lock free h

  -- What a pack of the tree needs to be the next one of the child.
  abbrev pub IsPackable : S → Entries Blob → Type 0
  IsPackable s tree = IsWritten s.manifest tree (s.packs (next_path s.manifest))

  sealed-IsReturned :
      (s : S)
      → IsPackable s (tree_or_empty clock Blob size_of tool text s.upper)
      → service.mirrors_after_commit ≡ false
      → IsReturned (seal_and_commit clock Blob size_of tool text service s)
  sealed-IsReturned s written mirrors =
      let tree = tree_or_empty clock Blob size_of tool text s.upper in
      let cleanup = cleanup_sealed clock Blob size_of tool text s.sealed in
      let t = record s { upper = some nil; sealed = tree ∷ s.sealed } in
      or_cleanup-IsReturned s.sealed
        (build_commit_from_source clock Blob size_of tool text service s.manifest (some tree)
          (s.manifest.generation + 1) "shared-overlay" cleanup t)
        (build-IsReturned s.manifest tree "shared-overlay" cleanup t written mirrors)

  shared-IsReturned :
      (now : Seconds) (s : S)
      → s.commit_lock ≡ absent
      → IsPackable s (tree_or_empty clock Blob size_of tool text s.upper)
      → service.mirrors_after_commit ≡ false
      → IsReturned (commit_shared_nfs clock Blob size_of tool text service now s)
  unfolding commit_shared_nfs
  shared-IsReturned now s free written mirrors =
      let t = ensure_active_upper clock Blob size_of tool text s in
      if-holds IsReturned (not (dirty_stats Blob size_of t.upper).dirty) _ _
        (is_clean clock Blob size_of tool text s.manifest, refl)
        (with_commit_lock-IsReturned (seal_and_commit clock Blob size_of tool text service) now t
          free (λ held. sealed-IsReturned (record t { commit_lock = held }) written mirrors))

  -- The mirror to commit, if there is one, is one of the child's generation, and its tree is there.
  abbrev pub IsCurrent : S → Option (DirtyMirror Blob Seconds) → Type 0
  IsCurrent s none = Unit
  IsCurrent s (some latest) =
      (latest.base_generation ≡ s.manifest.generation)
      × ((tree : Entries Blob) × (tree_at Blob Seconds s.mirror latest.path ≡ some tree)
          × IsPackable s tree)

  mirror-IsReturned :
      (s : S) (found : Option (DirtyMirror Blob Seconds))
      → IsCurrent s found
      → service.mirrors_after_commit ≡ false
      → IsReturned (commit_mirror clock Blob size_of tool text service found s)
  mirror-IsReturned s none current mirrors =
      (is_clean clock Blob size_of tool text s.manifest, refl)
  mirror-IsReturned s (some latest) (same, (tree, there, written)) mirrors =
      let e : (latest.base_generation == s.manifest.generation) ≡ true = ground (arith, same) in
      rw (e, there)
        (build-IsReturned s.manifest tree write_policy_local_ssd_async
          (cleanup_local_async_state clock Blob size_of tool text) s written mirrors)

  abbrev latest_of : S → Option (DirtyMirror Blob Seconds)
  latest_of s = to_commit clock Blob size_of tool text (latest_dirty_mirror Blob Seconds s.mirror)

  writer-IsReturned :
      (now : Seconds) (s : S) (file : LockFile clock)
      → file ≡ absent
      → s.commit_lock ≡ absent
      → IsCurrent s (latest_of s)
      → service.mirrors_after_commit ≡ false
      → IsReturned (
          as_writer clock Blob size_of tool text service now s
            (acquire clock service.process false now now (taking "commit-local" file)))
  unfolding acquire
  writer-IsReturned now s (present info modified) free unlocked current mirrors = absurd (cc)
  writer-IsReturned now s absent free unlocked current mirrors =
      let l = (acquire clock service.process false now now (taking "commit-local" absent)).0 in
      let latest = commit_latest clock Blob size_of tool text service in
      let t = record s { writer_lock = l.file } in
      writer_left-IsReturned l.lock
        (with_commit_lock clock Blob size_of tool text service now latest t)
        (with_commit_lock-IsReturned latest now t unlocked (λ held.
          mirror-IsReturned (record t { commit_lock = held }) (latest_of s) current mirrors))

  local_if-IsReturned :
      (now : Seconds) (s : S) (found : Option (DirtyMirror Blob Seconds))
      → s.writer_lock ≡ absent
      → s.commit_lock ≡ absent
      → IsCurrent s (latest_of s)
      → service.mirrors_after_commit ≡ false
      → IsReturned (commit_if_dirty clock Blob size_of tool text service now found s)
  local_if-IsReturned now s none free unlocked current mirrors =
      (is_clean clock Blob size_of tool text s.manifest, refl)
  local_if-IsReturned now s (some latest) free unlocked current mirrors =
      writer-IsReturned now s s.writer_lock free unlocked current mirrors

  -- What a commit of a child needs, whose writer is local or not.
  abbrev pub IsReady : Bool → S → Type 0
  IsReady true s = IsCurrent s (latest_of s)
  IsReady false s = IsPackable s (tree_or_empty clock Blob size_of tool text s.upper)

  policy-IsReturned :
      (now : Seconds) (s : S) (async : Bool)
      → s.writer_lock ≡ absent
      → s.commit_lock ≡ absent
      → IsReady async s
      → service.mirrors_after_commit ≡ false
      → IsReturned (
          if async
          then commit_local_async clock Blob size_of tool text service now s
          else commit_shared_nfs clock Blob size_of tool text service now s)
  unfolding commit_local_async
  policy-IsReturned now s true free unlocked ready mirrors =
      local_if-IsReturned now s (latest_of s) free unlocked ready mirrors
  policy-IsReturned now s false free unlocked ready mirrors =
      shared-IsReturned now s unlocked ready mirrors

  -- A commit returns if manifests can be written, files removed and owners set, the child's view is not mounted for writing, neither lock file is there, the
  -- service does not mirror after commits, and the program writes a pack for the tree, of a size that
  -- a level fits, while the service does not compact after commits or the planner finds nothing to
  -- compact in the stack with that pack; for a local writer's child that has something to commit, if
  -- its mirror is of the child's generation and its tree is there.
  pub handle_commit-returns :
      (mode : Option String) (now : Seconds) (s : S)
      → is_writable clock Blob size_of tool text mode ≡ false
      → s.writer_lock ≡ absent
      → s.commit_lock ≡ absent
      → IsReady (str_eq s.manifest.write_policy write_policy_local_ssd_async) s
      → service.mirrors_after_commit ≡ false
      → IsReturned (handle_commit clock Blob size_of tool text service mode now s)
  unfolding handle_commit
  handle_commit-returns mode now s read_only free unlocked ready mirrors = rw read_only (
      policy-IsReturned now s (str_eq s.manifest.write_policy write_policy_local_ssd_async) free
        unlocked ready mirrors)
