-- ===== src/Commit/Calls.antt =====
-- The locks of a commit, and its handler with the two ways of committing (handle_commit of
-- src/ccc_storage_mountd/daemon.py).
use ccc_storage.Base.{
  String, List, ℕ, ◌+◌, ◌==◌, Bool, false, not, ◌&&◌, Option, none, some, Result, raised, ok,
  lock_held, child_mount_error, str_eq, if◌then◌else◌,
}
use ccc_storage.CommitPolicy.{Clock}
use ccc_storage.Locks.{NfsLock, Locked, new_lock, acquire, release}
use ccc_storage.Manifest.{ChildManifest, write_policy_local_ssd_async}
use ccc_storage.Overlay.{Entries, dirty_stats}
use ccc_storage.Overlay.Mirror.{DirtyMirror, latest_dirty_mirror, tree_at}
use ccc_storage.Commit.{
  PackTool, NumberText, Service, Child, ensure_active_upper, seal_active_upper, cleanup_sealed,
  cleanup_local_async_state,
}
use ccc_storage.Commit.Following.{build_commit_from_source}

module _ (clock : Clock) (Blob : Type 0) (size_of : Blob → ℕ) (tool : PackTool Blob)
    (text : NumberText) where
  open clock use {Seconds}

  abbrev S : Type 0
  S = Child clock Blob size_of tool text

  abbrev P : Type 0
  P = Service clock Blob size_of tool text

  -- `with NFSLock(...)` on the commit lock.
  abbrev pub left : NfsLock clock → S × Result ChildManifest → S × Result ChildManifest
  left lock (s, answer) = (
    record s { commit_lock = (release clock (record { file = s.commit_lock; lock = lock })).file },
    answer,
  )

  abbrev pub entered :
      (S → S × Result ChildManifest) → S → Locked clock × Result {0} Unit → S × Result ChildManifest
  entered body s (l, raised e) = (s, raised e)
  entered body s (l, ok done) = left l.lock (body (record s { commit_lock = l.file }))

  unfoldable pub with_commit_lock :
      P → Seconds → (S → S × Result ChildManifest) → S → S × Result ChildManifest
  with_commit_lock service now body s = entered body s (
      acquire clock service.process false now now
        (record { file = s.commit_lock; lock = new_lock clock "commit" service.stale_after }))

  abbrev pub is_clean : ChildManifest → ChildManifest
  is_clean manifest = record manifest { state = "clean" }

  -- Where the build raises, the sealed upper is removed.
  abbrev pub or_cleanup : List (Entries Blob) → S × Result ChildManifest → S × Result ChildManifest
  or_cleanup before (s, raised e) = (cleanup_sealed clock Blob size_of tool text before s, raised e)
  or_cleanup before (s, ok manifest) = (s, ok manifest)

  abbrev pub commit_sealed : P → List (Entries Blob) → S × Entries Blob → S × Result ChildManifest
  commit_sealed service before (s, tree) = or_cleanup before (
      build_commit_from_source clock Blob size_of tool text service s.manifest (some tree)
        (s.manifest.generation + 1) "shared-overlay"
        (cleanup_sealed clock Blob size_of tool text before) s)

  abbrev pub seal_and_commit : P → S → S × Result ChildManifest
  seal_and_commit service s = commit_sealed service s.sealed (
      seal_active_upper clock Blob size_of tool text
        (ensure_active_upper clock Blob size_of tool text s))

  unfoldable pub commit_shared_nfs : P → Seconds → S → S × Result ChildManifest
  commit_shared_nfs service now s =
      let s = ensure_active_upper clock Blob size_of tool text s in
      if not (dirty_stats Blob size_of s.upper).dirty
      then (s, ok (is_clean s.manifest))
      else with_commit_lock service now (seal_and_commit service) s

  -- `latest is None or (latest.file_count == 0 and latest.bytes == 0)`, or the mirror.
  abbrev pub to_commit : Option (DirtyMirror Blob Seconds) → Option (DirtyMirror Blob Seconds)
  to_commit none = none
  to_commit (some latest) =
      if latest.file_count == 0 && latest.bytes == 0 then none else some latest

  abbrev pub commit_mirror : P → Option (DirtyMirror Blob Seconds) → S → S × Result ChildManifest
  commit_mirror service none s = (s, ok (is_clean s.manifest))
  commit_mirror service (some latest) s =
      if not (latest.base_generation == s.manifest.generation)
      then (s, raised child_mount_error)
      else (build_commit_from_source clock Blob size_of tool text service s.manifest
          (tree_at Blob Seconds s.mirror latest.path) (s.manifest.generation + 1)
          write_policy_local_ssd_async (cleanup_local_async_state clock Blob size_of tool text) s)

  abbrev pub commit_latest : P → S → S × Result ChildManifest
  commit_latest service s =
      commit_mirror service (to_commit (latest_dirty_mirror Blob Seconds s.mirror)) s

  abbrev pub writer_left : NfsLock clock → S × Result ChildManifest → S × Result ChildManifest
  writer_left lock (s, answer) = (
    record s { writer_lock = (release clock (record { file = s.writer_lock; lock = lock })).file },
    answer,
  )

  abbrev pub as_writer : P → Seconds → S → Locked clock × Result {0} Unit → S × Result ChildManifest
  as_writer service now s (l, raised lock_held) = (s, raised child_mount_error)
  as_writer service now s (l, raised e) = (s, raised e)
  as_writer service now s (l, ok done) =
      writer_left l.lock
        (with_commit_lock service now (commit_latest service) (record s { writer_lock = l.file }))

  abbrev pub commit_if_dirty :
      P → Seconds → Option (DirtyMirror Blob Seconds) → S → S × Result ChildManifest
  commit_if_dirty service now none s = (s, ok (is_clean s.manifest))
  commit_if_dirty service now (some latest) s = as_writer service now s (
      acquire clock service.process false now now
        (record { file = s.writer_lock; lock = new_lock clock "commit-local" service.stale_after }))

  unfoldable pub commit_local_async : P → Seconds → S → S × Result ChildManifest
  commit_local_async service now s =
      commit_if_dirty service now (to_commit (latest_dirty_mirror Blob Seconds s.mirror)) s

  -- The view of the child is mounted, and may be written.
  abbrev pub is_writable : Option String → Bool
  is_writable none = false
  is_writable (some mode) = str_eq mode "rw"

  -- `handle_commit`, given the mode of the child's view if it is mounted.
  unfoldable pub handle_commit : P → Option String → Seconds → S → S × Result ChildManifest
  handle_commit service mode now s =
      if is_writable mode
      then (s, raised child_mount_error)
      else if str_eq s.manifest.write_policy write_policy_local_ssd_async
      then commit_local_async service now s
      else commit_shared_nfs service now s
