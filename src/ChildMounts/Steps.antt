-- ===== src/ChildMounts/Steps.antt =====
-- Calls of a manager one after the other, and its stop (childmount.py).
use ccc_storage.Base.{String, ℕ, ◌≡◌, refl, Bool, [], Result, raised, ok}
use ccc_storage.Base.Dict.{lookup}
use ccc_storage.CommitPolicy.{Clock}
use ccc_storage.Manifest.{ChildManifest}
use ccc_storage.PackReader.{Host, FilePath}
use ccc_storage.ChildMounts.{Manager, State, mount_at}
use ccc_storage.ChildMounts.Writable.{hydrate_local_upper, ensure_local_upper, mount_rw_at}
use ccc_storage.ChildMounts.Release.{
  publish_dirty, publish_all_dirty, unmount_child, force_unmount, release_child,
  idle_unmount_expired, stop_all, MountStatus, ids_of, reverse_onto,
}
use ccc_storage.ChildMounts.Locking.{IsSound}
use ccc_storage.ChildMounts.Calls.{
  SoundIfOk, unmount_found-Sound, publish_found-Sound, release_found-Sound, publish_each-Sound,
  reap_each-Sound, stop_each-Sound, force_found-Sound,
}
use ccc_storage.ChildMounts.Mounting.{mount_at-After}
use ccc_storage.ChildMounts.Writing.{mount_rw_at-After}

module _ (clock : Clock) (host : Host) (Blob : Type 0) (size_of : Blob → ℕ) where
  open clock use {Seconds}

  abbrev St : Type 0
  St = State clock host Blob size_of

  module _ (m : Manager clock host Blob size_of) where
    -- One call. A call that forgets a record before it publishes is a step if it returns, and a writable
    -- mount unless the copy of a mirror into the upper raises; every other call whether it returns or
    -- raises.
    pub data Step : St → St → Type 0 where
      mounts :
          {s : St} (manifest : ChildManifest) (mnt : FilePath)
          (require_existing increment_ref : Bool) (now : Seconds)
          → Step s
              (mount_at clock host Blob size_of m manifest mnt require_existing increment_ref now
                s).0
      mounts_rw :
          {s : St} (manifest : ChildManifest) (mnt : FilePath)
          (require_existing increment_ref : Bool) (now : Seconds)
          → (hydrate_local_upper clock host Blob size_of manifest.id
              (ensure_local_upper clock host Blob size_of manifest.id s)).1
            ≡ ok tt
          → Step s
              (mount_rw_at clock host Blob size_of m manifest mnt require_existing increment_ref now
                s).0
      publishes :
          {s : St} (id : String) (now : Seconds)
          → Step s (publish_dirty clock host Blob size_of m id now s).0
      publishes_all :
          {s : St} (now : Seconds) → Step s (publish_all_dirty clock host Blob size_of m now s).0
      unmounts :
          {s : St} (id : String) (now : Seconds)
          → Step s (unmount_child clock host Blob size_of m id now s).0
      forces :
          {s : St} (id : String) (now : Seconds) (status : MountStatus clock host Blob size_of)
          → (force_unmount clock host Blob size_of m id now s).1 ≡ ok status
          → Step s (force_unmount clock host Blob size_of m id now s).0
      releases :
          {s : St} (id : String) (now : Seconds)
          → Step s (release_child clock host Blob size_of id now s).0
      reaps :
          {s : St} (ttl now : Seconds)
          → Step s (idle_unmount_expired clock host Blob size_of m ttl now s).0
      stops :
          {s : St} (now : Seconds)
          → (stop_all clock host Blob size_of m now s).1 ≡ ok tt
          → Step s (stop_all clock host Blob size_of m now s).0

    pub data Steps : St → St → Type 0 where
      stay : {s : St} → Steps s s
      next : {s t u : St} → Step s t → Steps t u → Steps s u

  module _ (foreign : String → Bool) (m : Manager clock host Blob size_of) where
    if_ok :
        {A : Type 0} (r : St × Result A) (a : A)
        → r.1 ≡ ok a
        → SoundIfOk clock host Blob size_of foreign r
        → IsSound clock host Blob size_of foreign r.0
    if_ok (u, raised e) a is h = absurd (cc)
    if_ok (u, ok b) a is h = h

    Step-IsSound :
        {s t : St}
        → Step m s t
        → IsSound clock host Blob size_of foreign s
        → IsSound clock host Blob size_of foreign t
    unfolding publish_dirty publish_all_dirty unmount_child force_unmount release_child
        idle_unmount_expired stop_all
    Step-IsSound {s} (mounts manifest mnt require_existing increment_ref now) sound =
        mount_at-After clock host Blob size_of foreign m manifest mnt require_existing increment_ref
          now s sound
    Step-IsSound {s} (mounts_rw manifest mnt require_existing increment_ref now copied) sound =
        mount_rw_at-After clock host Blob size_of foreign m manifest mnt now require_existing
          increment_ref s sound copied
    Step-IsSound {s} (publishes id now) sound =
        publish_found-Sound clock host Blob size_of foreign m now s id (lookup s.records id) sound
          refl
    Step-IsSound {s} (publishes_all now) sound =
        publish_each-Sound clock host Blob size_of foreign m now
          (ids_of clock host Blob size_of s.records) s sound
    Step-IsSound {s} (unmounts id now) sound =
        unmount_found-Sound clock host Blob size_of foreign m now s id (lookup s.records id) sound
          refl
    Step-IsSound {s} (forces id now status returned) sound =
        if_ok (force_unmount clock host Blob size_of m id now s) status returned (
          force_found-Sound clock host Blob size_of foreign m now s id (lookup s.records id) sound
            refl)
    Step-IsSound {s} (releases id now) sound =
        release_found-Sound clock host Blob size_of foreign now s id (lookup s.records id) sound
          refl
    Step-IsSound {s} (reaps ttl now) sound =
        reap_each-Sound clock host Blob size_of foreign m ttl now
          (ids_of clock host Blob size_of s.records) s sound
    Step-IsSound {s} (stops now returned) sound =
        if_ok (stop_all clock host Blob size_of m now s) tt returned (
          stop_each-Sound clock host Blob size_of foreign m now
            (reverse_onto clock host Blob size_of (ids_of clock host Blob size_of s.records) []) s
            sound)

    -- If the calls of a manager follow one another, none beginning before another has ended, and each
    -- ends as a step does: the record of a child is kept under its id, is mounted, and holds its lock
    -- if it has one; and the lock file of a child's local writer is there exactly if another node made
    -- it or a record holds its lock, and not both. So it is if it was so before.
    pub Steps-IsSound :
        (s t : St)
        → Steps m s t
        → IsSound clock host Blob size_of foreign s
        → IsSound clock host Blob size_of foreign t
    Steps-IsSound s t stay sound = sound
    Steps-IsSound s t (next step rest) sound = Steps-IsSound _ t rest (Step-IsSound step sound)
