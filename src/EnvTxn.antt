-- ===== src/EnvTxn.antt =====
-- The transaction of src/ccc_storage_mountd/env_txn.py: a package manager writes into the upper of an
-- environment, and a commit follows if it and a check succeed.
pub mod Safety
use ccc_storage.Base.{
  String, ℕ, ◌==◌, Bool, true, false, not, Option, none, some, List, Result, raised, ok, lock_held,
  if◌then◌else◌,
}
use ccc_storage.Base.Integers.{ℤ, pos, negsuc}
use ccc_storage.Base.Action.{go_on}
use ccc_storage.CommitPolicy.{Clock}
use ccc_storage.Locks.{LockFile, NfsLock, Locked, new_lock, acquire, release, exists_file}
use ccc_storage.Manifest.{ChildManifest}
use ccc_storage.Overlay.{dirty_stats}
use ccc_storage.Commit.{PackTool, NumberText, Service, Child, ensure_active_upper}
use ccc_storage.Commit.Calls.{handle_commit}

abbrev pub status_committed : String
status_committed = "committed"

abbrev pub status_command_failed : String
status_command_failed = "command_failed"

abbrev pub status_sanity_failed : String
status_sanity_failed = "sanity_failed"

abbrev pub status_blocked : String
status_blocked = "blocked"

-- Without its output. The code is negative if a signal ended the program.
pub record CommandResult : Type 0 where
  pub returncode : ℤ

abbrev pub is_zero : ℤ → Bool
is_zero (pos n) = n == 0
is_zero (negsuc n) = false

abbrev pub is_success : CommandResult → Bool
is_success result = is_zero result.returncode

-- Without its message, which the status tells.
pub record EnvTxnResult : Type 0 where
  pub env : String
  pub status : String
  pub committed : Bool
  pub overlay_preserved : Bool
  pub generation : ℕ
  pub command_returncode : Option ℤ
  pub sanity_ok : Option Bool
  pub command : List String

module _ (clock : Clock) (Blob : Type 0) (size_of : Blob → ℕ) (tool : PackTool Blob)
    (text : NumberText) where
  open clock use {Seconds}

  abbrev S : Type 0
  S = Child clock Blob size_of tool text

  -- The child of an environment and its update lock.
  pub record Env : Type 0 where
    pub child : S
    pub update_lock : LockFile clock

  -- A transaction, given the mode of the child's view if it is mounted. The program and the check
  -- change what they change and answer or raise.
  pub record EnvTransaction : Type 0 where
    pub service : Service clock Blob size_of tool text
    pub mode : Option String
    pub runner : S → S × Result CommandResult
    pub sanity_check : S → S × Result CommandResult
    pub stale_after : Seconds

  abbrev pub blocked_result : ChildManifest → List String → EnvTxnResult
  blocked_result manifest command = record {
    env = manifest.id;
    status = status_blocked;
    committed = false;
    overlay_preserved = false;
    generation = manifest.generation;
    command_returncode = none;
    sanity_ok = none;
    command = command;
  }

  abbrev pub command_failed : ChildManifest → List String → CommandResult → EnvTxnResult
  command_failed manifest command result = record {
    env = manifest.id;
    status = status_command_failed;
    committed = false;
    overlay_preserved = true;
    generation = manifest.generation;
    command_returncode = some result.returncode;
    sanity_ok = none;
    command = command;
  }

  abbrev pub sanity_failed : ChildManifest → List String → CommandResult → EnvTxnResult
  sanity_failed manifest command result = record {
    env = manifest.id;
    status = status_sanity_failed;
    committed = false;
    overlay_preserved = true;
    generation = manifest.generation;
    command_returncode = some result.returncode;
    sanity_ok = some false;
    command = command;
  }

  abbrev pub committed_result :
      ChildManifest → List String → CommandResult → ChildManifest → EnvTxnResult
  committed_result manifest command result committed = record {
    env = manifest.id;
    status = status_committed;
    committed = true;
    overlay_preserved = false;
    generation = committed.generation;
    command_returncode = some result.returncode;
    sanity_ok = some true;
    command = command;
  }

  module _ (txn : EnvTransaction) (manifest : ChildManifest) (command : List String)
      (now : Seconds) where
    abbrev pub reported : CommandResult → S × Result ChildManifest → S × Result EnvTxnResult
    reported result (s, raised e) = (s, raised e)
    reported result (s, ok committed) = (s, ok (committed_result manifest command result committed))

    abbrev pub after_sanity : CommandResult → S × Result CommandResult → S × Result EnvTxnResult
    after_sanity result (s, raised e) = (s, raised e)
    after_sanity result (s, ok checked) =
        if not (is_success checked)
        then (s, ok (sanity_failed manifest command result))
        else reported result (handle_commit clock Blob size_of tool text txn.service txn.mode now s)

    abbrev pub after_command : S × Result CommandResult → S × Result EnvTxnResult
    after_command (s, raised e) = (s, raised e)
    after_command (s, ok result) =
        if not (is_success result)
        then (s, ok (command_failed manifest command result))
        else after_sanity result (txn.sanity_check s)

    -- `finally: lock.release()`
    abbrev pub unlocked :
        LockFile clock → NfsLock clock → S × Result EnvTxnResult → Env × Result EnvTxnResult
    unlocked file lock (s, answer) = (
      record {
        child = s;
        update_lock = (release clock (record { file = file; lock = lock })).file;
      },
      answer,
    )

    abbrev pub begun : Env → Locked clock × Result {0} Unit → Env × Result EnvTxnResult
    begun e (l, raised lock_held) = (e, ok (blocked_result manifest command))
    begun e (l, raised other) = (e, raised other)
    begun e (l, ok taken) =
        unlocked l.file l.lock
          (after_command (txn.runner (ensure_active_upper clock Blob size_of tool text e.child)))

  unfoldable pub run : EnvTransaction → List String → Seconds → Env → Env × Result EnvTxnResult
  run txn argv now e = begun txn e.child.manifest argv now e (
      acquire clock txn.service.process false now now
        (record { file = e.update_lock; lock = new_lock clock "env-update" txn.stale_after }))

  -- `env_status`: the mode of the environment and what it is told by.
  pub record EnvStatus : Type 0 where
    pub id : String
    pub name : String
    pub type : String
    pub generation : ℕ
    pub mode : String
    pub read_only : Bool
    pub overlay : String
    pub dirty : Bool
    pub update_locked : Bool
    pub file_count : ℕ
    pub bytes : ℕ

  unfoldable pub env_status : Env → Env × EnvStatus
  env_status e =
      let s = ensure_active_upper clock Blob size_of tool text e.child in
      let stats = dirty_stats Blob size_of s.upper in
      (
        record e { child = s },
        record {
          id = s.manifest.id;
          name = s.manifest.name;
          type = s.manifest.type;
          generation = s.manifest.generation;
          mode = if stats.dirty then "update" else "read-only";
          read_only = not stats.dirty;
          overlay = if stats.dirty then "dirty" else "none";
          dirty = stats.dirty;
          update_locked = exists_file clock e.update_lock;
          file_count = stats.file_count;
          bytes = stats.bytes;
        },
      )
