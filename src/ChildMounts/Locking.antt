-- ===== src/ChildMounts/Locking.antt =====
-- The locks of the local writers, and the records that hold them (childmount.py).
use ccc_storage.Base.{
  String, ℕ, ◌≡◌, refl, sym, ap, ◌∙◌, inl, inr, Bool, true, false, ◌&&◌, ◌||◌, not, Option, none,
  some, Result, raised, ok, if◌then◌else◌, str_eq, str_eq_iff, Bool-cases, arith, subst,
}
use ccc_storage.Base.Dict.{lookup, discard, lookup-assign, lookup-discard}
use ccc_storage.CommitPolicy.{Clock}
use ccc_storage.Locks.{LockFile, NfsLock, Locked, heartbeat, release, exists_file}
use ccc_storage.Overlay.{Entries, dirty_stats}
use ccc_storage.Overlay.Mirror.{DirtyMirror, MirrorDir}
use ccc_storage.PackReader.{Host}
use ccc_storage.PackReader.Compose.{if-holds}
use ccc_storage.ChildMounts.{is_mounted, MountRecord, Manager, State, put_record, put_lock_file}
use ccc_storage.ChildMounts.Release.{
  is_set, Published, publish_record, publish_upper, publish_beaten, publish_locked, is_writer,
  new_mirror_of, take_down, release_lock,
}

pub or_false : (b : Bool) → (b || false) ≡ b
or_false true = refl
or_false false = refl

and_false : (b : Bool) → (b && false) ≡ false
and_false true = refl
and_false false = refl

module _ (clock : Clock) (host : Host) (Blob : Type 0) (size_of : Blob → ℕ)
    (foreign : String → Bool) where
  open clock use {Seconds}

  abbrev S : Type 0
  S = State clock host Blob size_of

  abbrev R : Type 0
  R = MountRecord clock host Blob size_of

  abbrev pub IsHeld : Option (NfsLock clock) → Type 0
  IsHeld none = Unit
  IsHeld (some lock) = lock.is_held ≡ true

  abbrev pub owns : Option R → Bool
  owns none = false
  owns (some r) = is_set r.writer_lock

  abbrev pub IsKept : String → Option R → Type 0
  IsKept id none = Unit
  IsKept id (some r) = (r.manifest_id ≡ id) × IsHeld r.writer_lock × (is_mounted r.handle ≡ true)

  -- The record of a child is kept under its id, it is mounted, its lock is held, and the lock file of a child is
  -- there exactly if another node made it or a record holds the lock, and not both.
  abbrev pub SoundFor : String → Option R → Bool → Type 0
  SoundFor id found there =
      (there ≡ (foreign id || owns found)) × ((foreign id && owns found) ≡ false) × IsKept id found

  abbrev pub IsSound : S → Type 0
  IsSound s = (id : String) → SoundFor id (lookup s.records id) (exists_file clock (s.lock_file id))

  -- The record of a child is changed, and its lock file too, and both fit.
  pub put_both-IsSound :
      (r : R) (file : LockFile clock) (s : S)
      → IsSound s
      → SoundFor r.manifest_id (some r) (exists_file clock file)
      → IsSound (
          put_record clock host Blob size_of r
            (put_lock_file clock host Blob size_of r.manifest_id file s))
  put_both-IsSound r file s sound fits other =
      let id = r.manifest_id in
      elim (Bool-cases (str_eq id other)) [
        | inl e ↦
            let same = (str_eq_iff id other).0 e in
            rw (lookup-assign s.records id r other, e)
              (subst (λ x. SoundFor x (some r) (exists_file clock file)) same fits)
        | inr e ↦ rw (lookup-assign s.records id r other, e) (sound other)
      ]

  pub put_record-IsSound :
      (r : R) (s : S)
      → IsSound s
      → is_set r.writer_lock ≡ owns (lookup s.records r.manifest_id)
      → IsHeld r.writer_lock
      → is_mounted r.handle ≡ true
      → IsSound (put_record clock host Blob size_of r s)
  put_record-IsSound r s sound same held up other =
      let id = r.manifest_id in
      elim (Bool-cases (str_eq id other)) [
        | inl e ↦
            let is = (str_eq_iff id other).0 e in
            let (locked, apart, kept) = sound id in
            let fits : SoundFor id (some r) (exists_file clock (s.lock_file id)) =
              (rw same locked, rw same apart, (refl, held, up)) in
            rw (lookup-assign s.records id r other, e)
              (subst (λ x. SoundFor x (some r) (exists_file clock (s.lock_file x))) is fits)
        | inr e ↦ rw (lookup-assign s.records id r other, e) (sound other)
      ]

  -- A record is forgotten, and its lock released.
  pub discard-IsSound :
      (id : String) (s u : S)
      → IsSound s
      → u.records ≡ discard s.records id
      → ((x : String)
          → exists_file clock (u.lock_file x)
            ≡ (if str_eq id x then foreign x else exists_file clock (s.lock_file x)))
      → IsSound u
  discard-IsSound id s u sound records files other =
      let found : lookup u.records other
          ≡ (if str_eq id other then none else lookup s.records other) =
        ap (λ d. lookup d other) records ∙ lookup-discard s.records id other in
      elim (Bool-cases (str_eq id other)) [
        | inl e ↦
            rw (found, e, files other, e)
              (sym (or_false (foreign other)), and_false (foreign other), tt)
        | inr e ↦ rw (found, e, files other, e) (sound other)
      ]

  -- What `lock.release()` leaves of the file, if the lock is held.
  pub release-exists :
      (file : LockFile clock) (lock : NfsLock clock)
      → lock.is_held ≡ true
      → exists_file clock (release clock (record { file = file; lock = lock })).file ≡ false
  unfolding release
  release-exists file lock held = ground (arith, held)

  release_lock-exists :
      (id : String) (lock : Option (NfsLock clock)) (s : S) (x : String)
      → IsHeld lock
      → exists_file clock ((release_lock clock host Blob size_of id lock s).lock_file x)
        ≡ (if str_eq id x && is_set lock then false else exists_file clock (s.lock_file x))
  release_lock-exists id none s x held = rw (and_false (str_eq id x)) refl
  release_lock-exists id (some lock) s x held = elim (Bool-cases (str_eq id x)) [
    | inl e ↦ rw e (release-exists (s.lock_file id) lock held)
    | inr e ↦ rw e refl
  ]

  heartbeat-exists :
      (now : Seconds) (file : LockFile clock) (lock : NfsLock clock)
      → lock.is_held ≡ true
      → exists_file clock file ≡ true
      → let l = (heartbeat clock now (record { file = file; lock = lock })).0 in
        (exists_file clock l.file ≡ true) × (l.lock.is_held ≡ true)
  unfolding heartbeat
  heartbeat-exists now file lock held there =
      (ground (arith, held, there), ground (arith, held, there))

  held_of :
      (lock : NfsLock clock) {o : Option (NfsLock clock)}
      → o ≡ some lock
      → IsHeld o
      → lock.is_held ≡ true
  held_of lock is held = subst IsHeld is held

  -- A publication leaves the records alone, and the locks as they are but for a heartbeat.
  abbrev pub IsPublication : S → R → Published clock host Blob size_of → Type 0
  IsPublication s r p =
      (p.state.records ≡ s.records)
      × ((x : String) → exists_file clock (p.state.lock_file x) ≡ exists_file clock (s.lock_file x))
      × (p.record_after.manifest_id ≡ r.manifest_id)
      × (is_set p.record_after.writer_lock ≡ is_set r.writer_lock)
      × IsHeld p.record_after.writer_lock
      × (p.record_after.handle ≡ r.handle)

  IsPublication-self :
      (s : S) (r : R) (answer : Result (Option (DirtyMirror Blob Seconds)))
      → IsHeld r.writer_lock
      → IsPublication s r (record { state = s; record_after = r; answer = answer })
  IsPublication-self s r answer held = (refl, λ x. refl, refl, refl, held, refl)

  new_mirror_of-IsPublication :
      (id : String) (s : S) (r : R)
      (made : MirrorDir Blob Seconds × Result (DirtyMirror Blob Seconds))
      → IsHeld r.writer_lock
      → IsPublication s r (new_mirror_of clock host Blob size_of id s r made)
  new_mirror_of-IsPublication id s r (dir, raised e) held =
      (refl, λ x. refl, refl, refl, held, refl)
  new_mirror_of-IsPublication id s r (dir, ok mirror) held =
      (refl, λ x. refl, refl, refl, held, refl)

  publish_upper-IsPublication :
      (m : Manager clock host Blob size_of) (r : R) (now : Seconds) (s : S)
      (upper : Option (Entries Blob))
      → IsHeld r.writer_lock
      → IsPublication s r (publish_upper clock host Blob size_of m r now s upper)
  publish_upper-IsPublication m r now s none held = IsPublication-self s r (ok none) held
  publish_upper-IsPublication m r now s (some tree) held =
      if-holds (IsPublication s r)
        (not r.has_local_paths || not (dirty_stats Blob size_of (some tree)).dirty) _ _
        (IsPublication-self s r (ok none) held)
        (new_mirror_of-IsPublication r.manifest_id s r _ held)

  put_lock_file-exists :
      (id : String) (file : LockFile clock) (s : S) (x : String)
      → exists_file clock file ≡ true
      → exists_file clock (s.lock_file id) ≡ true
      → exists_file clock ((put_lock_file clock host Blob size_of id file s).lock_file x)
        ≡ exists_file clock (s.lock_file x)
  put_lock_file-exists id file s x now was = elim (Bool-cases (str_eq id x)) [
    | inl e ↦
        rw e (now ∙ sym was ∙ ap (λ y. exists_file clock (s.lock_file y)) ((str_eq_iff id x).0 e))
    | inr e ↦ rw e refl
  ]

  publish_beaten-IsPublication :
      (m : Manager clock host Blob size_of) (r : R) (now : Seconds) (s : S) (l : Locked clock)
      → is_set r.writer_lock ≡ true
      → (exists_file clock l.file ≡ true) × (l.lock.is_held ≡ true)
      → exists_file clock (s.lock_file r.manifest_id) ≡ true
      → IsPublication s r (publish_beaten clock host Blob size_of m r now s l)
  publish_beaten-IsPublication m r now s l is (file, lock) there =
      let id = r.manifest_id in
      let beaten = record r { writer_lock = some l.lock } in
      let s' = put_lock_file clock host Blob size_of id l.file s in
      let (records, files, same_id, set, held, same_handle) =
        publish_upper-IsPublication m beaten now s' (s.upper id) lock in
      (
        records,
        λ x. files x ∙ put_lock_file-exists id l.file s x file there,
        same_id,
        set ∙ sym is,
        held,
        same_handle,
      )

  publish_locked-IsPublication :
      (m : Manager clock host Blob size_of) (r : R) (now : Seconds) (s : S)
      (lock : Option (NfsLock clock))
      → r.writer_lock ≡ lock
      → IsHeld r.writer_lock
      → (is_set r.writer_lock ≡ true → exists_file clock (s.lock_file r.manifest_id) ≡ true)
      → IsPublication s r (publish_locked clock host Blob size_of m r now s lock)
  publish_locked-IsPublication m r now s none is held there = IsPublication-self s r (ok none) held
  publish_locked-IsPublication m r now s (some lock) is held there =
      if-holds (IsPublication s r) (is_writer clock host Blob size_of m r) _ _
        (publish_beaten-IsPublication m r now s _ (ap is_set is)
          (heartbeat-exists now (s.lock_file r.manifest_id) lock (held_of lock is held)
            (there (ap is_set is)))
          (there (ap is_set is)))
        (IsPublication-self s r (ok none) held)

  pub take_down-exists :
      (r : R) (s : S) (x : String)
      → IsHeld r.writer_lock
      → exists_file clock ((take_down clock host Blob size_of r s).lock_file x) ≡ (
          if str_eq r.manifest_id x && is_set r.writer_lock
          then false
          else exists_file clock (s.lock_file x))
  take_down-exists r s x held = release_lock-exists r.manifest_id r.writer_lock _ x held

  pub publish_record-IsPublication :
      (m : Manager clock host Blob size_of) (r : R) (now : Seconds) (s : S)
      → IsHeld r.writer_lock
      → (is_set r.writer_lock ≡ true → exists_file clock (s.lock_file r.manifest_id) ≡ true)
      → IsPublication s r (publish_record clock host Blob size_of m r now s)
  unfolding publish_record
  publish_record-IsPublication m r now s held there =
      publish_locked-IsPublication m r now s r.writer_lock refl held there
