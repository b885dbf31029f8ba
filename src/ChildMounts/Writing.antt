-- ===== src/ChildMounts/Writing.antt =====
-- The writable mounts keep the locks of the local writers and the records together
-- (childmount.py).
use ccc_storage.Base.{
  String, ℕ, ◌≡◌, refl, sym, ap, ◌∙◌, inl, inr, Bool, true, false, ◌||◌, Option, none, some, [],
  Result, raised, ok, child_mount_error, str_eq, str_eq_iff, Bool-cases,
}
use ccc_storage.Base.Action.{go_on}
use ccc_storage.Base.Dict.{lookup, assign}
use ccc_storage.Base.Text.{is_empty}
use ccc_storage.CommitPolicy.{Clock}
use ccc_storage.Locks.{
  LockFile, absent, present, NfsLock, Locked, acquire, created, exists_file, new_lock,
}
use Prim.Native.String.{◌++◌ as ◌<>◌}
use ccc_storage.Manifest.{ChildManifest, write_policy_shared_nfs, write_policy_local_ssd_async}
use ccc_storage.Overlay.Mirror.{DirtyMirror}
use ccc_storage.PackReader.{Host, FilePath, child, MountHandle, mount_layered_rw_kernel_overlay}
use ccc_storage.PackReader.Compose.{if-holds}
use ccc_storage.ChildMounts.{
  MountRecord, Manager, State, put_record, put_lock_file, reuse_existing, on_table, on_host,
  has_lowers, fail, new_record,
}
use ccc_storage.ChildMounts.Locking.{owns, SoundFor, put_both-IsSound, release-exists, or_false}
use ccc_storage.ChildMounts.Leaks.{Sound, or_right}
use ccc_storage.ChildMounts.Calls.{SoundAfter}
use ccc_storage.ChildMounts.Up.{
  IsUp, mount_layered_rw-IsUp, mount_layered_rw_kernel_overlay-IsUp, mount_dirs_and_packs_ro-IsUp,
  mount_bind_ro-IsUp,
}
use ccc_storage.ChildMounts.Mounting.{reuse-After, on_host-After, mount_at-After}
use ccc_storage.ChildMounts.Writable.{
  mount_rw_shared_nfs, mirror_file_path, mount_mirror, mount_latest, mount_published_mirror_ro,
  hydrate_local_upper, ensure_local_upper, released, local_mount, local_paths, mount_local,
  lock_taken, mount_on, mount_rw_local_ssd_async, mount_by_policy, mount_rw_at,
}
use ccc_storage.Names.{safe_namespace_name}
use ccc_storage.Manifest.WritePolicy.{normalize_write_policy}
use ccc_storage.ChildMounts.Hydration.{
  or_missing-After, same-Ok, IsFrame, hydrate-IsFrame, hydrate-lock_file,
}

module _ (clock : Clock) (host : Host) (Blob : Type 0) (size_of : Blob → ℕ)
    (foreign : String → Bool) where
  open clock use {Seconds}
  open host use {Table, is_dir}

  abbrev St : Type 0
  St = State clock host Blob size_of

  abbrev Rec : Type 0
  Rec = MountRecord clock host Blob size_of

  abbrev Ok : St → Type 0
  Ok = Sound clock host Blob size_of foreign

  abbrev OkAfter : {A : Type 0} → St × A → Type 0
  OkAfter = SoundAfter clock host Blob size_of foreign

  abbrev Call : Type 0
  Call = St → St × Result Rec

  module _ (m : Manager clock host Blob size_of) (manifest : ChildManifest) (mnt : FilePath)
      (now : Seconds) where
    shared-After :
        (require_existing : Bool) (s : St)
        → Ok s
        → lookup s.records manifest.id ≡ none
        → OkAfter
            (mount_rw_shared_nfs clock host Blob size_of m manifest mnt require_existing now s)
    unfolding mount_rw_shared_nfs
    shared-After require_existing s sound is =
        or_missing-After clock host Blob size_of foreign require_existing mnt _ s sound (
          if-holds (λ (c : Call). OkAfter (c s)) (is_empty manifest.overlay.active_upper)
            (fail clock host Blob size_of child_mount_error) _ sound
            (on_host-After clock host Blob size_of foreign s manifest.id _ _ sound is (λ h. refl)
              (λ h. refl) (λ h. refl)
              (mount_layered_rw-IsUp host m.prefer_kernel manifest.pack_stack.lowers _ _ mnt
                s.table)))

    mount_mirror-IsUp :
        (nfs_root : FilePath) (latest : DirtyMirror Blob Seconds) (t : Table)
        → IsUp host (mount_mirror clock host Blob size_of m nfs_root manifest mnt latest t)
    mount_mirror-IsUp nfs_root latest t =
        if-holds (λ (c : Table → Table × Result MountHandle). IsUp host (c t))
          (has_lowers clock host Blob size_of manifest.pack_stack.lowers) _ _
          (mount_dirs_and_packs_ro-IsUp host false
            (mirror_file_path clock host Blob size_of nfs_root manifest.id latest.path) []
            manifest.pack_stack.lowers _ mnt t)
          (mount_bind_ro-IsUp host
            (mirror_file_path clock host Blob size_of nfs_root manifest.id latest.path) mnt t)

    mount_latest-After :
        (nfs_root : FilePath) (s : St) (latest : Option (DirtyMirror Blob Seconds))
        → Ok s
        → lookup s.records manifest.id ≡ none
        → OkAfter (mount_latest clock host Blob size_of m nfs_root manifest mnt now latest s)
    mount_latest-After nfs_root s none sound is =
        if-holds (λ (c : Call). OkAfter (c s))
          (has_lowers clock host Blob size_of manifest.pack_stack.lowers) _
          (fail clock host Blob size_of child_mount_error)
          (mount_at-After clock host Blob size_of foreign m manifest mnt false false now s sound)
          sound
    mount_latest-After nfs_root s (some latest) sound is =
        on_host-After clock host Blob size_of foreign s manifest.id _ _ sound is (λ h. refl)
          (λ h. refl) (λ h. refl) (mount_mirror-IsUp nfs_root latest s.table)

    published-After :
        (nfs_root : FilePath) (s : St)
        → Ok s
        → lookup s.records manifest.id ≡ none
        → OkAfter (mount_published_mirror_ro clock host Blob size_of m nfs_root manifest mnt now s)
    unfolding mount_published_mirror_ro
    published-After nfs_root s sound is = mount_latest-After nfs_root s _ sound is

    not_foreign :
        (s : St) (id : String)
        → Ok s
        → lookup s.records id ≡ none
        → exists_file clock (s.lock_file id) ≡ false
        → foreign id ≡ false
    not_foreign s id sound is free =
        let (locked, apart, kept) = sound id in
        sym (or_false (foreign id))
        ∙ ap (λ o. foreign id || owns clock host Blob size_of foreign o) (sym is)
        ∙ sym locked
        ∙ free

    released-exists :
        (s v : St) (lock : NfsLock clock) (file : LockFile clock) (x : String)
        → exists_file clock (s.lock_file manifest.id) ≡ false
        → lock.is_held ≡ true
        → v.lock_file ≡ (put_lock_file clock host Blob size_of manifest.id file s).lock_file
        → exists_file clock ((released clock host Blob size_of manifest.id lock v).lock_file x)
          ≡ exists_file clock (s.lock_file x)
    released-exists s v lock file x free held files = elim (Bool-cases (str_eq manifest.id x)) [
      | inl e ↦ rw e (
          release-exists clock host Blob size_of foreign (v.lock_file manifest.id) lock held
          ∙ sym free
          ∙ ap (λ y. exists_file clock (s.lock_file y)) ((str_eq_iff manifest.id x).0 e))
      | inr e ↦
          rw e (ap (λ (f : String → LockFile clock). exists_file clock (f x)) files ∙ rw e refl)
    ]

    -- The lock is taken, and the local upper mounted.
    local_mount-After :
        (s v : St) (lock : NfsLock clock) (file : LockFile clock) (r : Table × Result MountHandle)
        → Ok s
        → lookup s.records manifest.id ≡ none
        → exists_file clock (s.lock_file manifest.id) ≡ false
        → lock.is_held ≡ true
        → exists_file clock file ≡ true
        → IsFrame clock host Blob size_of foreign
            (put_lock_file clock host Blob size_of manifest.id file s)
            v
        → IsUp host r
        → OkAfter (
            local_mount clock host Blob size_of m manifest mnt lock now
              (on_table clock host Blob size_of v r))
    local_mount-After s v lock file (t, raised e) sound is free held there (records, files) up =
        same-Ok clock host Blob size_of foreign s
          (released clock host Blob size_of manifest.id lock (record v { table = t })) sound records
          (λ x. released-exists s v lock file x free held files)
    local_mount-After s v lock file (t, ok h) sound is free held there (records, files) up =
        let id = manifest.id in
        let q : Rec =
          record (new_record clock host Blob size_of manifest mnt h "rw"
            write_policy_local_ssd_async now) {
              writer_lock = some lock;
              has_local_paths = true;
              base_generation = manifest.generation;
            } in
        let alone = not_foreign s id sound is free in
        let fits : SoundFor clock host Blob size_of foreign id (some q) (exists_file clock file) = (
          there ∙ sym (or_right clock host Blob size_of foreign (foreign id) true refl),
          rw alone refl,
          (refl, held, up),
        ) in
        same-Ok clock host Blob size_of foreign
          (put_record clock host Blob size_of q (put_lock_file clock host Blob size_of id file s))
          (put_record clock host Blob size_of q (record v { table = t }))
          (put_both-IsSound clock host Blob size_of foreign q file s sound fits)
          (ap (λ d. assign d id q) records)
          (λ x. ap (λ (f : String → LockFile clock). exists_file clock (f x)) files)

    hydrated-After :
        (s : St) (lock : NfsLock clock) (file : LockFile clock) (r : St × Result {0} Unit)
        → Ok s
        → lookup s.records manifest.id ≡ none
        → exists_file clock (s.lock_file manifest.id) ≡ false
        → lock.is_held ≡ true
        → exists_file clock file ≡ true
        → IsFrame clock host Blob size_of foreign
            (put_lock_file clock host Blob size_of manifest.id file s)
            r.0
        → r.1 ≡ ok tt
        → OkAfter (
            go_on r (λ done u. local_mount clock host Blob size_of m manifest mnt lock now (
              on_host clock host Blob size_of
                (mount_layered_rw_kernel_overlay host false manifest.pack_stack.lowers
                  (local_paths clock host Blob size_of m manifest.id)
                  (child (child m.run_dir "stacks") (safe_namespace_name manifest.id <> ".local"))
                  mnt)
                u)))
    hydrated-After s lock file (v, raised e) sound is free held there frame copied = absurd (cc)
    hydrated-After s lock file (v, ok done) sound is free held there frame copied =
        local_mount-After s v lock file _ sound is free held there frame (
          mount_layered_rw_kernel_overlay-IsUp host false manifest.pack_stack.lowers
            (local_paths clock host Blob size_of m manifest.id) _ mnt v.table)

    mount_local-After :
        (s : St) (l : Locked clock)
        → Ok s
        → lookup s.records manifest.id ≡ none
        → exists_file clock (s.lock_file manifest.id) ≡ false
        → (l.lock.is_held ≡ true) × (exists_file clock l.file ≡ true)
        → (hydrate_local_upper clock host Blob size_of manifest.id
            (ensure_local_upper clock host Blob size_of manifest.id s)).1
          ≡ ok tt
        → OkAfter (
            mount_local clock host Blob size_of m manifest mnt l.lock now
              (put_lock_file clock host Blob size_of manifest.id l.file s))
    unfolding mount_local
    mount_local-After s l sound is free (held, there) copied =
        let id = manifest.id in
        let locked = put_lock_file clock host Blob size_of id l.file s in
        hydrated-After s l.lock l.file
          (hydrate_local_upper clock host Blob size_of id
            (ensure_local_upper clock host Blob size_of id locked))
          sound is free held there (hydrate-IsFrame clock host Blob size_of foreign id locked)
          (hydrate-lock_file clock host Blob size_of foreign id s l.file ∙ copied)

    -- What `acquire` finds.
    taken_from-After :
        (nfs_root : FilePath) (s : St) (file : LockFile clock)
        → s.lock_file manifest.id ≡ file
        → Ok s
        → lookup s.records manifest.id ≡ none
        → (hydrate_local_upper clock host Blob size_of manifest.id
            (ensure_local_upper clock host Blob size_of manifest.id s)).1
          ≡ ok tt
        → OkAfter (
            lock_taken clock host Blob size_of m nfs_root manifest mnt now s (
              acquire clock m.process false now now
                (record { file = file; lock = new_lock clock "local-writer" m.stale_after })))
    unfolding acquire
    taken_from-After nfs_root s absent e sound is copied =
        mount_local-After s
          (created clock (new_lock clock "local-writer" m.stale_after) m.process now) sound is
          (ap (exists_file clock) e) (refl, refl) copied
    taken_from-After nfs_root s (present info modified) e sound is copied =
        published-After nfs_root s sound is

    local-After :
        (require_existing : Bool) (s : St) (root : Option FilePath)
        → Ok s
        → lookup s.records manifest.id ≡ none
        → (hydrate_local_upper clock host Blob size_of manifest.id
            (ensure_local_upper clock host Blob size_of manifest.id s)).1
          ≡ ok tt
        → OkAfter (mount_on clock host Blob size_of m root manifest mnt require_existing now s)
    local-After require_existing s none sound is copied = sound
    local-After require_existing s (some nfs_root) sound is copied =
        or_missing-After clock host Blob size_of foreign require_existing mnt _ s sound
          (taken_from-After nfs_root s (s.lock_file manifest.id) refl sound is copied)

    by_policy-After :
        (require_existing : Bool) (s : St) (policy : Result String)
        → Ok s
        → lookup s.records manifest.id ≡ none
        → (hydrate_local_upper clock host Blob size_of manifest.id
            (ensure_local_upper clock host Blob size_of manifest.id s)).1
          ≡ ok tt
        → OkAfter
            (mount_by_policy clock host Blob size_of m manifest mnt require_existing now policy s)
    unfolding mount_rw_local_ssd_async
    by_policy-After require_existing s (raised e) sound is copied = sound
    by_policy-After require_existing s (ok policy) sound is copied =
        if-holds (λ (c : Call). OkAfter (c s)) (str_eq policy write_policy_shared_nfs) _ _
          (shared-After require_existing s sound is)
          (if-holds (λ (c : Call). OkAfter (c s)) (str_eq policy write_policy_local_ssd_async) _
            (fail clock host Blob size_of child_mount_error)
            (local-After require_existing s m.nfs_root sound is copied) sound)

    pub mount_rw_at-After :
        (require_existing increment_ref : Bool) (s : St)
        → Ok s
        → (hydrate_local_upper clock host Blob size_of manifest.id
            (ensure_local_upper clock host Blob size_of manifest.id s)).1
          ≡ ok tt
        → OkAfter (
            mount_rw_at clock host Blob size_of m manifest mnt require_existing increment_ref now s)
    unfolding mount_rw_at reuse_existing
    mount_rw_at-After require_existing increment_ref s sound copied =
        reuse-After clock host Blob size_of foreign manifest mnt "rw" increment_ref now _ s
          (lookup s.records manifest.id) sound refl
          (λ is.
            by_policy-After require_existing s (normalize_write_policy (some manifest.write_policy))
              sound is copied)
