-- ===== src/Locks.antt =====
-- src/ccc_storage_core/locks.py: a lock file that one process creates at a time. The seconds are
-- those of a clock; each call is given the times and the process that it would ask for.
pub mod Exclusion
use ccc_storage.Base.{
  String, ℕ, ◌≡◌, refl, ◌↔◌, ◌⊎◌, Bool, true, false, not, ◌&&◌, Option, none, some, Result, raised,
  ok, lock_held, runtime_error, if◌then◌else◌, arith,
}
use ccc_storage.CommitPolicy.{Clock}

module _ (clock : Clock) where
  open clock use {Seconds, at_least, minus}

  pub record LockInfo : Type 0 where
    pub node : String
    pub pid : ℕ
    pub op : String
    pub acquired_ts : Seconds
    pub heartbeat_ts : Seconds

  -- The lock file: its info if the text of it can be read, and the time it was modified.
  pub data LockFile : Type 0 where
    absent : LockFile
    present : Option LockInfo → Seconds → LockFile

  pub record NfsLock : Type 0 where
    pub op : String
    pub stale_after : Seconds
    pub info : Option LockInfo
    pub is_held : Bool

  -- The process that calls.
  pub record Process : Type 0 where
    pub node : String
    pub pid : ℕ

  abbrev pub new_lock : String → Seconds → NfsLock
  new_lock op stale_after = record {
    op = op;
    stale_after = stale_after;
    info = none;
    is_held = false;
  }

  abbrev pub heartbeat_of : Option LockInfo → Seconds → Seconds
  heartbeat_of none modified = modified
  heartbeat_of (some info) modified = info.heartbeat_ts

  -- `(time.time() - heartbeat_ts) > self.stale_after`
  abbrev pub is_stale : NfsLock → LockFile → Seconds → Bool
  is_stale lock absent now = false
  is_stale lock (present info modified) now =
      not (at_least lock.stale_after (minus now (heartbeat_of info modified)))

  abbrev pub new_info : NfsLock → Process → Seconds → LockInfo
  new_info lock p now = record {
    node = p.node;
    pid = p.pid;
    op = lock.op;
    acquired_ts = now;
    heartbeat_ts = now;
  }

  -- The lock file and the lock object after a call.
  pub record Locked : Type 0 where
    pub file : LockFile
    pub lock : NfsLock

  abbrev pub created : NfsLock → Process → Seconds → Locked
  created lock p now = record {
    file = present (some (new_info lock p now)) now;
    lock = record lock { info = some (new_info lock p now); is_held = true };
  }

  -- `acquire`, at `now`, where `later` is the time of the second attempt after a stale file is gone.
  unfoldable pub acquire : Process → Bool → Seconds → Seconds → Locked → Locked × Result {0} Unit
  acquire p steal_stale now later s = elim (s.file) [
    | absent ↦ (created s.lock p now, ok tt)
    | present info modified ↦
        if steal_stale && is_stale s.lock (present info modified) now
        then (created s.lock p later, ok tt)
        else (s, raised lock_held)
  ]

  abbrev pub beaten : LockInfo → Seconds → LockInfo
  beaten info now = record info { heartbeat_ts = now }

  abbrev pub beat : Option LockInfo → Seconds → Locked → Locked × Result {0} Unit
  beat none now s = (s, raised runtime_error)
  beat (some info) now s = (
    record {
      file = present (some (beaten info now)) now;
      lock = record s.lock { info = some (beaten info now) };
    },
    ok tt,
  )

  unfoldable pub heartbeat : Seconds → Locked → Locked × Result {0} Unit
  heartbeat now s = if not s.lock.is_held then (s, raised runtime_error) else beat s.lock.info now s

  abbrev pub exists_file : LockFile → Bool
  exists_file absent = false
  exists_file (present info modified) = true

  unfoldable pub release : Locked → Locked
  release s = record {
    file = if s.lock.is_held && exists_file s.file then absent else s.file;
    lock = record s.lock { is_held = false };
  }
