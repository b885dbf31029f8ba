-- ===== src/Commit/Handler.antt =====
-- The locks of a commit, and the whole handler (handle_commit of
-- src/ccc_storage_mountd/daemon.py).
use ccc_storage.Base.{
  String, ℕ, ◌≡◌, refl, sym, ap, ◌∙◌, inl, Bool, true, false, not, Option, none, some, Result,
  raised, ok, str_eq, if◌then◌else◌, lock_held, child_mount_error, Exception,
}
use ccc_storage.CommitPolicy.{Clock}
use ccc_storage.Locks.{
  LockFile, absent, present, NfsLock, Locked, acquire, release, new_lock, LockInfo,
}
use ccc_storage.Manifest.{ChildManifest, write_policy_local_ssd_async}
use ccc_storage.Overlay.{dirty_stats}
use ccc_storage.Overlay.Mirror.{DirtyMirror}
use ccc_storage.PackReader.Compose.{if-holds}
use ccc_storage.Commit.{PackTool, NumberText, Service, Child, tree_or_empty, ensure_active_upper}
use ccc_storage.Commit.Calls.{
  is_clean, seal_and_commit, commit_shared_nfs, commit_latest, commit_local_async, commit_if_dirty,
  as_writer, writer_left, with_commit_lock, left, entered, handle_commit, is_writable,
}
use ccc_storage.Commit.Building.{IsLawful}
use ccc_storage.Commit.Outcome.{
  IsOutcome, IsAnswered, IsFresh, latest_of, mirror-IsOutcome, sealed-IsOutcome,
}

module _ (clock : Clock) (Blob : Type 0) (size_of : Blob → ℕ) (tool : PackTool Blob)
    (text : NumberText) (lawful : IsLawful Blob tool)
    (service : Service clock Blob size_of tool text) where
  open clock use {Seconds}

  abbrev S : Type 0
  S = Child clock Blob size_of tool text

  abbrev Outcome : Bool → S → S × Result ChildManifest → Type 0
  Outcome = IsOutcome clock Blob size_of tool text lawful service

  abbrev with_locks : S → LockFile clock → LockFile clock → S
  with_locks s commit writer = record s { commit_lock = commit; writer_lock = writer }

  -- The locks are no part of the answer.
  with_locks-IsAnswered :
      (async : Bool) (s u : S) (commit writer commit' writer' : LockFile clock)
      (answer : Result ChildManifest)
      → IsAnswered clock Blob size_of tool text lawful service async
          (with_locks s commit writer)
          u
          answer
      → IsAnswered clock Blob size_of tool text lawful service async s
          (with_locks u commit' writer')
          answer
  with_locks-IsAnswered true s u commit writer commit' writer' (raised e) h = h
  with_locks-IsAnswered true s u commit writer commit' writer' (ok m) h = h
  with_locks-IsAnswered false s u commit writer commit' writer' (raised e) h = h
  with_locks-IsAnswered false s u commit writer commit' writer' (ok m) h = h

  -- The file of a held lock goes with its release.
  release-absent :
      (file : LockFile clock) (lock : NfsLock clock) (info : Option (LockInfo clock))
      (modified : Seconds)
      → file ≡ present info modified
      → lock.is_held ≡ true
      → (release clock (record { file = file; lock = lock })).file ≡ absent
  unfolding release
  release-absent file lock info modified is held = rw (is, held) refl

  left-IsOutcome :
      (async : Bool) (s : S) (lock : NfsLock clock) (info : Option (LockInfo clock))
      (modified : Seconds) (r : S × Result ChildManifest)
      → s.commit_lock ≡ absent
      → lock.is_held ≡ true
      → Outcome async (with_locks s (present info modified) s.writer_lock) r
      → Outcome async s (left clock Blob size_of tool text lock r)
  left-IsOutcome async s lock info modified (u, answer) free held ((commit, writer), answered) = (
    (release-absent u.commit_lock lock info modified commit held ∙ sym free, writer),
    with_locks-IsAnswered async s u _ _ _ _ answer answered,
  )

  writer_left-IsOutcome :
      (async : Bool) (s : S) (lock : NfsLock clock) (info : Option (LockInfo clock))
      (modified : Seconds) (r : S × Result ChildManifest)
      → s.writer_lock ≡ absent
      → lock.is_held ≡ true
      → Outcome async (with_locks s s.commit_lock (present info modified)) r
      → Outcome async s (writer_left clock Blob size_of tool text lock r)
  writer_left-IsOutcome async s lock info modified (u, answer) free held
        ((commit, writer), answered) =
      (
        (commit, release-absent u.writer_lock lock info modified writer held ∙ sym free),
        with_locks-IsAnswered async s u _ _ _ _ answer answered,
      )

  raised-IsOutcome : (async : Bool) (s : S) (e : Exception) → Outcome async s (s, raised e)
  raised-IsOutcome true s e = ((refl, refl), inl ((refl, refl), (refl, refl, refl)))
  raised-IsOutcome false s e = ((refl, refl), inl ((refl, refl), (refl, refl)))

  abbrev taking : String → LockFile clock → Locked clock
  taking op file = record { file = file; lock = new_lock clock op service.stale_after }

  entered-IsOutcome :
      (async : Bool) (body : S → S × Result ChildManifest) (now : Seconds) (s : S)
      (file : LockFile clock)
      → s.commit_lock ≡ file
      → ((held : LockFile clock)
          → Outcome async
              (with_locks s held s.writer_lock)
              (body (with_locks s held s.writer_lock)))
      → Outcome async s (
          entered clock Blob size_of tool text body s
            (acquire clock service.process false now now (taking "commit" file)))
  unfolding acquire
  entered-IsOutcome async body now s absent is h =
      left-IsOutcome async s _ _ _ (body _) is refl (h _)
  entered-IsOutcome async body now s (present info modified) is h =
      raised-IsOutcome async s lock_held

  -- The commit lock is acquired if no file is there, and released again.
  with_commit_lock-IsOutcome :
      (async : Bool) (body : S → S × Result ChildManifest) (now : Seconds) (s : S)
      → ((held : LockFile clock)
          → Outcome async
              (with_locks s held s.writer_lock)
              (body (with_locks s held s.writer_lock)))
      → Outcome async s (with_commit_lock clock Blob size_of tool text service now body s)
  unfolding with_commit_lock
  with_commit_lock-IsOutcome async body now s h =
      entered-IsOutcome async body now s s.commit_lock refl h

  abbrev Fresh : S → Type 0
  Fresh = IsFresh clock Blob size_of tool text lawful service

  ensured-IsOutcome :
      (s : S) (r : S × Result ChildManifest)
      → Outcome false (ensure_active_upper clock Blob size_of tool text s) r
      → Outcome false s r
  ensured-IsOutcome s (u, raised e) h = h
  ensured-IsOutcome s (u, ok m) h = h

  abbrev commit_or_not : Seconds → S → Bool → S × Result ChildManifest
  commit_or_not now s dirty =
      if not dirty
      then (s, ok (is_clean clock Blob size_of tool text s.manifest))
      else with_commit_lock clock Blob size_of tool text service now
          (seal_and_commit clock Blob size_of tool text service) s

  shared_if-IsOutcome :
      (now : Seconds) (s : S) (dirty : Bool)
      → (dirty_stats Blob size_of s.upper).dirty ≡ dirty
      → s.upper ≡ some (tree_or_empty clock Blob size_of tool text s.upper)
      → Fresh s
      → Outcome false s (commit_or_not now s dirty)
  shared_if-IsOutcome now s false is there fresh = (
    (refl, refl),
    inl (
      ap (λ t. (dirty_stats Blob size_of t).dirty) (sym there) ∙ is,
      refl,
      (refl, refl),
      (refl, refl),
    ),
  )
  shared_if-IsOutcome now s true is there fresh =
      with_commit_lock-IsOutcome false (seal_and_commit clock Blob size_of tool text service) now s
        (λ held.
          sealed-IsOutcome clock Blob size_of tool text lawful service
            (with_locks s held s.writer_lock) fresh)

  shared-IsOutcome :
      (now : Seconds) (s : S)
      → Fresh s
      → Outcome false s (commit_shared_nfs clock Blob size_of tool text service now s)
  unfolding commit_shared_nfs
  shared-IsOutcome now s fresh =
      let t = ensure_active_upper clock Blob size_of tool text s in
      ensured-IsOutcome s (commit_or_not now t (dirty_stats Blob size_of t.upper).dirty)
        (shared_if-IsOutcome now t _ refl refl fresh)

  writer-IsOutcome :
      (now : Seconds) (s : S) (file : LockFile clock)
      → s.writer_lock ≡ file
      → Fresh s
      → Outcome true s (
          as_writer clock Blob size_of tool text service now s
            (acquire clock service.process false now now (taking "commit-local" file)))
  unfolding acquire
  writer-IsOutcome now s absent is fresh =
      let latest = commit_latest clock Blob size_of tool text service in
      let t =
        with_locks s s.commit_lock
          (acquire clock service.process false now now (taking "commit-local" absent)).0.file in
      writer_left-IsOutcome true s _ _ _
        (with_commit_lock clock Blob size_of tool text service now latest t) is refl
        (with_commit_lock-IsOutcome true latest now t
          (λ held. mirror-IsOutcome clock Blob size_of tool text lawful service _ _ fresh refl))
  writer-IsOutcome now s (present info modified) is fresh =
      raised-IsOutcome true s child_mount_error

  local_if-IsOutcome :
      (now : Seconds) (s : S) (found : Option (DirtyMirror Blob Seconds))
      → latest_of clock Blob size_of tool text lawful service s ≡ found
      → Fresh s
      → Outcome true s (commit_if_dirty clock Blob size_of tool text service now found s)
  local_if-IsOutcome now s none is fresh =
      ((refl, refl), inl (is, refl, (refl, refl), (refl, refl, refl)))
  local_if-IsOutcome now s (some latest) is fresh = writer-IsOutcome now s s.writer_lock refl fresh

  local-IsOutcome :
      (now : Seconds) (s : S)
      → Fresh s
      → Outcome true s (commit_local_async clock Blob size_of tool text service now s)
  unfolding commit_local_async
  local-IsOutcome now s fresh = local_if-IsOutcome now s _ refl fresh

  policy-IsOutcome :
      (now : Seconds) (s : S) (async : Bool)
      → Fresh s
      → Outcome async s (
          if async
          then commit_local_async clock Blob size_of tool text service now s
          else commit_shared_nfs clock Blob size_of tool text service now s)
  policy-IsOutcome now s true fresh = local-IsOutcome now s fresh
  policy-IsOutcome now s false fresh = shared-IsOutcome now s fresh

  -- If manifests can be written, files removed and owners set, a pack shows the tree that it was
  -- written from, and no pack of the stack is at the path of the next one: a commit leaves both lock files as they were. If it raises, the manifest and what its
  -- packs show are as before, and a local writer's child keeps its mirror and its local upper; or the
  -- service compacts or mirrors after commits, and the commit was published. If it returns, either
  -- nothing was dirty, and manifest, packs and mirror are as before; or the commit was published, and it
  -- returns the manifest of the child.
  -- That a commit was published means: there is a state with the next generation and one pack more in
  -- its stack, at the next path, whose packs show what they did and on top the dirty tree without
  -- devices, and that tree is gone from where it was. The child that is left has its generation, its
  -- uppers, its mirror and its packs, but for the pack at one path; and its stack is that one, or the
  -- stack that publish_partial_compaction makes of it for the planner's candidate. If the service
  -- neither compacts nor mirrors after commits, its manifest and what its packs show are those of
  -- that state.
  pub handle_commit-IsOutcome :
      (mode : Option String) (now : Seconds) (s : S)
      → Fresh s
      → Outcome
          (str_eq s.manifest.write_policy write_policy_local_ssd_async)
          s
          (handle_commit clock Blob size_of tool text service mode now s)
  unfolding handle_commit
  handle_commit-IsOutcome mode now s fresh =
      let async = str_eq s.manifest.write_policy write_policy_local_ssd_async in
      if-holds (Outcome async s) (is_writable clock Blob size_of tool text mode) _ _
        (raised-IsOutcome async s child_mount_error) (policy-IsOutcome now s async fresh)
