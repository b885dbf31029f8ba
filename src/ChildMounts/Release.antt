-- ===== src/ChildMounts/Release.antt =====
-- The publication of dirty uppers, the unmounting and the reaping of mounts, and the nested mounts of
-- src/ccc_storage_mountd/childmount.py.
use ccc_storage.Base.{
  String, ℕ, Bool, true, false, not, ◌&&◌, ◌||◌, Option, none, some, List, [], ◌∷◌, Result, raised,
  ok, str_eq, if◌then◌else◌,
}
use ccc_storage.Base.Integers.{minus_one, is_positive}
use ccc_storage.Base.Action.{◌>>=◌, return}
use ccc_storage.Base.Dict.{Dict, lookup, discard}
use ccc_storage.CommitPolicy.{Clock}
use ccc_storage.Locks.{NfsLock, Locked, heartbeat}
use ccc_storage.Manifest.{ChildManifest, write_policy_local_ssd_async}
use ccc_storage.Overlay.{Entries, dirty_stats}
use ccc_storage.Overlay.Mirror.{DirtyMirror, MirrorDir, publish_logical_mirror}
use ccc_storage.PackReader.{FilePath, Host, unmount}
use ccc_storage.ChildMounts.{
  is_mounted, MountRecord, Manager, State, put_upper, put_record, put_lock_file, put_mirror,
}
use ccc_storage.ChildMounts.Writable.{mount, released}

abbrev pub is_set {ℓ} : {A : Type ℓ} → Option A → Bool
is_set none = false
is_set (some x) = true

module _ (clock : Clock) (host : Host) (Blob : Type 0) (size_of : Blob → ℕ) where
  open clock use {Seconds, at_least, minus}

  abbrev S : Type 0
  S = State clock host Blob size_of

  abbrev R : Type 0
  R = MountRecord clock host Blob size_of

  abbrev M : Type 0
  M = Manager clock host Blob size_of

  -- `_publish_record`: the record with the lock that its heartbeat leaves, and the mirror if one is
  -- published. An error of the heartbeat is passed over.
  pub record Published : Type 0 where
    pub state : S
    pub record_after : R
    pub answer : Result (Option (DirtyMirror Blob Seconds))

  abbrev pub published : S → R → Result (Option (DirtyMirror Blob Seconds)) → Published
  published s r answer = record { state = s; record_after = r; answer = answer }

  abbrev pub is_writer : M → R → Bool
  is_writer m r =
      str_eq r.write_policy write_policy_local_ssd_async && str_eq r.mode "rw" && is_set m.nfs_root

  abbrev pub new_mirror_of :
      String → S → R → MirrorDir Blob Seconds × Result (DirtyMirror Blob Seconds) → Published
  new_mirror_of id s r (dir, raised e) =
      published (put_mirror clock host Blob size_of id dir s) r (raised e)
  new_mirror_of id s r (dir, ok mirror) =
      published (put_mirror clock host Blob size_of id dir s) r (ok (some mirror))

  abbrev pub publish_upper : M → R → Seconds → S → Option (Entries Blob) → Published
  publish_upper m r now s none = published s r (ok none)
  publish_upper m r now s (some tree) =
      if not r.has_local_paths || not (dirty_stats Blob size_of (some tree)).dirty
      then published s r (ok none)
      else new_mirror_of r.manifest_id s r (
          publish_logical_mirror Blob Seconds size_of
            (record {
              child_id = r.manifest_id;
              node_id = m.node_id;
              base_generation = r.base_generation;
              published_ts = now;
            })
            (some tree) (s.mirror r.manifest_id))

  abbrev pub publish_beaten : M → R → Seconds → S → Locked clock → Published
  publish_beaten m r now s l =
      let id = r.manifest_id in
      publish_upper m (record r { writer_lock = some l.lock }) now
        (put_lock_file clock host Blob size_of id l.file s) (s.upper id)

  abbrev pub publish_locked : M → R → Seconds → S → Option (NfsLock clock) → Published
  publish_locked m r now s none = published s r (ok none)
  publish_locked m r now s (some lock) =
      if is_writer m r
      then publish_beaten m r now s
          (heartbeat clock now (record { file = s.lock_file r.manifest_id; lock = lock })).0
      else published s r (ok none)

  unfoldable pub publish_record : M → R → Seconds → S → Published
  publish_record m r now s = publish_locked m r now s r.writer_lock

  abbrev pub publish_found :
      M → Seconds → Option R → S → S × Result (Option (DirtyMirror Blob Seconds))
  publish_found m now none s = (s, ok none)
  publish_found m now (some r) s =
      let p = publish_record m r now s in
      (put_record clock host Blob size_of p.record_after p.state, p.answer)

  unfoldable pub publish_dirty :
      M → String → Seconds → S → S × Result (Option (DirtyMirror Blob Seconds))
  publish_dirty m id now s = publish_found m now (lookup s.records id) s

  abbrev pub add_mirror :
      Option (DirtyMirror Blob Seconds)
      → List (DirtyMirror Blob Seconds)
      → List (DirtyMirror Blob Seconds)
  add_mirror none rest = rest
  add_mirror (some mirror) rest = mirror ∷ rest

  abbrev pub ids_of : Dict R → List String
  ids_of [] = []
  ids_of ((id, r) ∷ rest) = id ∷ ids_of rest

  -- The list of a call, with what comes before it.
  abbrev pub listed : {A : Type 0} → (List A → List A) → S × Result (List A) → S × Result (List A)
  listed f (s, raised e) = (s, raised e)
  listed f (s, ok rest) = (s, ok (f rest))

  unfoldable pub publish_each :
      M → Seconds → List String → S → S × Result (List (DirtyMirror Blob Seconds))
  publish_each m now [] = return []
  publish_each m now (id ∷ rest) =
      publish_dirty m id now >>= λ mirror u. listed (add_mirror mirror) (publish_each m now rest u)

  unfoldable pub publish_all_dirty : M → Seconds → S → S × Result (List (DirtyMirror Blob Seconds))
  publish_all_dirty m now s = publish_each m now (ids_of s.records) s

  -- The unmount of a record's handle, and the release of its lock.
  abbrev pub release_lock : String → Option (NfsLock clock) → S → S
  release_lock id none s = s
  release_lock id (some lock) s = released clock host Blob size_of id lock s

  abbrev pub take_down : R → S → S
  take_down r s =
      release_lock r.manifest_id r.writer_lock (record s { table = unmount host r.handle s.table })

  abbrev pub forget : String → S → S
  forget id s = record s { records = discard s.records id }

  -- The answers of the calls: no mount, or a mount that is gone, or the record.
  pub data MountStatus : Type 0 where
    unknown : MountStatus
    gone : FilePath → MountStatus
    status_of : R → MountStatus

  -- `unmount`: where the publication raises, the record stays, with its count.
  abbrev pub drop_last :
      R → Published → Result (Option (DirtyMirror Blob Seconds)) → S × Result MountStatus
  drop_last r p (raised e) = (put_record clock host Blob size_of p.record_after p.state, raised e)
  drop_last r p (ok mirror) =
      (forget r.manifest_id (take_down p.record_after p.state), ok (gone r.mountpoint))

  abbrev pub unmount_found : M → Seconds → Option R → S → S × Result MountStatus
  unmount_found m now none s = (s, ok unknown)
  unmount_found m now (some r) s =
      let less = record r { refcount = minus_one r.refcount } in
      if not (is_positive (minus_one r.refcount))
      then (let p = publish_record m less now s in drop_last less p p.answer)
      else (put_record clock host Blob size_of less s, ok (status_of less))

  unfoldable pub unmount_child : M → String → Seconds → S → S × Result MountStatus
  unmount_child m id now s = unmount_found m now (lookup s.records id) s

  -- `force_unmount` forgets the record first.
  abbrev pub taken_down :
      R → Published → Result (Option (DirtyMirror Blob Seconds)) → S × Result MountStatus
  taken_down r p (raised e) = (p.state, raised e)
  taken_down r p (ok mirror) = (take_down p.record_after p.state, ok (gone r.mountpoint))

  abbrev pub force_found : M → Seconds → Option R → S → S × Result MountStatus
  force_found m now none s = (s, ok unknown)
  force_found m now (some r) s =
      let p = publish_record m r now (forget r.manifest_id s) in taken_down r p p.answer

  unfoldable pub force_unmount : M → String → Seconds → S → S × Result MountStatus
  force_unmount m id now s = force_found m now (lookup s.records id) s

  -- `release`: the mount stays.
  abbrev pub release_found : Seconds → Option R → S → S × MountStatus
  release_found now none s = (s, unknown)
  release_found now (some r) s =
      let less = record r {
        refcount = if is_positive r.refcount then minus_one r.refcount else r.refcount;
        last_used = now;
      } in
      (put_record clock host Blob size_of less s, status_of less)

  unfoldable pub release_child : String → Seconds → S → S × MountStatus
  release_child id now s = release_found now (lookup s.records id) s

  -- `idle_unmount_expired`: one id, and whether it was unmounted; then all ids.
  abbrev pub reaped : R → Published → Result (Option (DirtyMirror Blob Seconds)) → S × Result Bool
  reaped r p (raised e) = (put_record clock host Blob size_of p.record_after p.state, raised e)
  reaped r p (ok mirror) = (forget r.manifest_id (take_down p.record_after p.state), ok true)

  abbrev pub is_expired : Seconds → Seconds → R → Bool
  is_expired ttl now r = not (is_positive r.refcount) && at_least (minus now r.last_used) ttl

  abbrev pub reap_found : M → Seconds → Seconds → Option R → S → S × Result Bool
  reap_found m ttl now none s = (s, ok false)
  reap_found m ttl now (some r) s =
      if is_expired ttl now r
      then (let p = publish_record m r now s in reaped r p p.answer)
      else (s, ok false)

  unfoldable pub reap : M → Seconds → Seconds → String → S → S × Result Bool
  reap m ttl now id s = reap_found m ttl now (lookup s.records id) s

  abbrev pub add_if : Bool → String → List String → List String
  add_if true id rest = id ∷ rest
  add_if false id rest = rest

  unfoldable pub reap_each : M → Seconds → Seconds → List String → S → S × Result (List String)
  reap_each m ttl now [] = return []
  reap_each m ttl now (id ∷ rest) =
      reap m ttl now id >>= λ done u. listed (add_if done id) (reap_each m ttl now rest u)

  unfoldable pub idle_unmount_expired : M → Seconds → Seconds → S → S × Result (List String)
  idle_unmount_expired m ttl now s = reap_each m ttl now (ids_of s.records) s

  -- `stop_all`: the newest first, each as by `force_unmount`.
  abbrev pub reverse_onto : List String → List String → List String
  reverse_onto [] done = done
  reverse_onto (id ∷ rest) done = reverse_onto rest (id ∷ done)

  unfoldable pub stop_each : M → Seconds → List String → S → S × Result {0} Unit
  stop_each m now [] = return tt
  stop_each m now (id ∷ rest) = force_unmount m id now >>= λ status. stop_each m now rest

  unfoldable pub stop_all : M → Seconds → S → S × Result {0} Unit
  stop_all m now s = stop_each m now (reverse_onto (ids_of s.records) []) s

  abbrev pub status_found : Option R → MountStatus
  status_found none = unknown
  status_found (some r) = status_of r

  abbrev pub status : ChildManifest → S → MountStatus
  status manifest s = status_found (lookup s.records manifest.id)

  abbrev pub active_ids : Dict R → List String
  active_ids [] = []
  active_ids ((id, r) ∷ rest) =
      if is_mounted r.handle then id ∷ active_ids rest else active_ids rest

  -- NestedMountManager: the parent is never among the children.
  abbrev pub children_of : String → List String → List String
  children_of parent_id [] = []
  children_of parent_id (id ∷ rest) =
      if str_eq id parent_id then children_of parent_id rest else id ∷ children_of parent_id rest

  unfoldable pub idle_reap : M → String → Seconds → Seconds → S → S × Result (List String)
  idle_reap m parent_id ttl now =
      idle_unmount_expired m ttl now >>= λ ids. return (children_of parent_id ids)

  abbrev pub nested_active_ids : String → S → List String
  nested_active_ids parent_id s = children_of parent_id (active_ids s.records)

  -- `cleanup_local_child`, which a commit calls.
  abbrev pub cleanup_local_child : String → S → S
  cleanup_local_child id s = put_upper clock host Blob size_of id none s

  -- A NestedMountManager: the parent's id, and whether the parent is mounted.
  pub record Nested : Type 0 where
    pub parent_id : String
    pub parent_mounted : Bool

  abbrev parent_after : Nested → S × Result R → Nested × S × Result R
  parent_after n (s, raised e) = (n, s, raised e)
  parent_after n (s, ok r) = (record n { parent_mounted = true }, s, ok r)

  unfoldable mount_parent : M → ChildManifest → Seconds → Nested × S → Nested × S × Result R
  mount_parent m manifest now (n, s) =
      parent_after n (mount clock host Blob size_of m manifest now s)

  abbrev access_child : M → ChildManifest → Seconds → S → S × Result R
  access_child m manifest now s = mount clock host Blob size_of m manifest now s
