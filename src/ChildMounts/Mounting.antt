-- ===== src/ChildMounts/Mounting.antt =====
-- The mounts of children keep the locks of the local writers and the records together
-- (childmount.py).
use ccc_storage.Base.{
  String, ℕ, ◌≡◌, refl, sym, ap, ◌∙◌, Bool, true, false, ◌&&◌, not, Option, none, some, Result,
  raised, ok, child_mount_error, if◌then◌else◌, str_eq, subst,
}
use ccc_storage.Base.Action.{go_on}
use ccc_storage.Base.Dict.{lookup}
use ccc_storage.CommitPolicy.{Clock}
use ccc_storage.Manifest.{ChildManifest}
use ccc_storage.PackReader.{Host, FilePath, same_path, MountHandle, mount_stack_ro}
use ccc_storage.PackReader.Compose.{if-holds}
use ccc_storage.ChildMounts.{
  is_mounted, MountRecord, Manager, State, put_record, reuse, reused, reuse_existing, or_mount,
  on_table, keep, mount_new_ro, mount_at, has_lowers, fail, new_record,
}
use ccc_storage.ChildMounts.Release.{is_set}
use ccc_storage.ChildMounts.Locking.{IsHeld, owns, put_record-IsSound}
use ccc_storage.ChildMounts.Leaks.{Sound, changed-Sound, found-SoundFor}
use ccc_storage.ChildMounts.Calls.{SoundAfter}
use ccc_storage.ChildMounts.Up.{IsUp, mount_stack_ro-IsUp}

if-not-holds {ℓ κ} :
    {A : Type ℓ} (P : A → Type κ) (b : Bool) (x y : A) → b ≡ true → P y → P (if not b then x else y)
if-not-holds P true x y is h = h
if-not-holds P false x y is h = absurd (cc)

module _ (clock : Clock) (host : Host) (Blob : Type 0) (size_of : Blob → ℕ)
    (foreign : String → Bool) where
  open clock use {Seconds}
  open host use {Table, is_dir}

  abbrev pub State' : Type 0
  State' = State clock host Blob size_of

  abbrev pub Record' : Type 0
  Record' = MountRecord clock host Blob size_of

  abbrev pub After : {A : Type 0} → State' × A → Type 0
  After = SoundAfter clock host Blob size_of foreign

  -- A call that reuses a mount, or else makes one where the child has none.
  pub reuse-After :
      (manifest : ChildManifest) (mnt : FilePath) (mode : String) (increment_ref : Bool)
      (now : Seconds) (call : State' → State' × Result Record') (s : State')
      (found : Option Record')
      → Sound clock host Blob size_of foreign s
      → lookup s.records manifest.id ≡ found
      → (found ≡ none → After (call s))
      → After (
          go_on
            (reuse clock host Blob size_of manifest mnt mode increment_ref now found s)
            (or_mount clock host Blob size_of call))
  reuse-After manifest mnt mode increment_ref now call s none sound is h = h refl
  reuse-After manifest mnt mode increment_ref now call s (some r) sound is h =
      let (locked, apart, (kept, held, up)) =
        found-SoundFor clock host Blob size_of foreign s manifest.id r sound is in
      let again = reused clock host Blob size_of r increment_ref now in
      let P = λ (x : State' × Result (Option Record')).
        After (go_on x (or_mount clock host Blob size_of call)) in
      if-not-holds P (is_mounted r.handle) _ _ up (
        if-holds P (not (same_path r.mountpoint mnt)) (s, raised child_mount_error) _ sound
          (if-holds P (not (str_eq r.mode mode)) (s, raised child_mount_error) _ sound
            (if-holds P (not (str_eq r.write_policy manifest.write_policy))
              (s, raised child_mount_error) _ sound
              (changed-Sound clock host Blob size_of foreign s manifest.id r again sound is refl
                refl refl))))

  -- A record that is kept for a child that had none.
  pub keep-After :
      (s : State') (q : Record')
      → Sound clock host Blob size_of foreign s
      → lookup s.records q.manifest_id ≡ none
      → q.writer_lock ≡ none
      → is_mounted q.handle ≡ true
      → Sound clock host Blob size_of foreign (put_record clock host Blob size_of q s)
  keep-After s q sound is lock up =
      put_record-IsSound clock host Blob size_of foreign q s sound
        (ap is_set lock ∙ sym (ap (owns clock host Blob size_of foreign) is))
        (subst (IsHeld clock host Blob size_of foreign) (sym lock) tt) up

  -- A mount by the host, whose record has no lock.
  pub on_host-After :
      (s : State') (id : String) (made : MountHandle → Record') (r : Table × Result MountHandle)
      → Sound clock host Blob size_of foreign s
      → lookup s.records id ≡ none
      → ((h : MountHandle) → (made h).manifest_id ≡ id)
      → ((h : MountHandle) → (made h).writer_lock ≡ none)
      → ((h : MountHandle) → (made h).handle ≡ h)
      → IsUp host r
      → After (
          go_on (on_table clock host Blob size_of s r) (λ h. keep clock host Blob size_of (made h)))
  on_host-After s id made (t, raised e) sound is ids locks handles up = sound
  on_host-After s id made (t, ok h) sound is ids locks handles up =
      keep-After (record s { table = t }) (made h) sound (ap (lookup s.records) (ids h) ∙ is)
        (locks h) (ap is_mounted (handles h) ∙ up)

  mount_new_ro-After :
      (m : Manager clock host Blob size_of) (manifest : ChildManifest) (mnt : FilePath)
      (require_existing : Bool) (now : Seconds) (s : State')
      → Sound clock host Blob size_of foreign s
      → lookup s.records manifest.id ≡ none
      → After (mount_new_ro clock host Blob size_of m manifest mnt require_existing now s)
  mount_new_ro-After m manifest mnt require_existing now s sound is =
      let P = λ (call : State' → State' × Result Record'). After (call s) in
      if-holds P (not (has_lowers clock host Blob size_of manifest.pack_stack.lowers))
        (fail clock host Blob size_of child_mount_error) _ sound
        (if-holds P (require_existing && not (is_dir mnt))
          (fail clock host Blob size_of child_mount_error) _ sound
          (on_host-After s manifest.id
            (λ h. new_record clock host Blob size_of manifest mnt h "ro" manifest.write_policy now)
            (mount_stack_ro host m.prefer_kernel manifest.pack_stack.lowers mnt s.table) sound is
            (λ h. refl) (λ h. refl) (λ h. refl)
            (mount_stack_ro-IsUp host m.prefer_kernel manifest.pack_stack.lowers mnt s.table)))

  pub mount_at-After :
      (m : Manager clock host Blob size_of) (manifest : ChildManifest) (mnt : FilePath)
      (require_existing increment_ref : Bool) (now : Seconds) (s : State')
      → Sound clock host Blob size_of foreign s
      → After (mount_at clock host Blob size_of m manifest mnt require_existing increment_ref now s)
  unfolding mount_at reuse_existing
  mount_at-After m manifest mnt require_existing increment_ref now s sound =
      reuse-After manifest mnt "ro" increment_ref now
        (mount_new_ro clock host Blob size_of m manifest mnt require_existing now) s
        (lookup s.records manifest.id) sound refl
        (mount_new_ro-After m manifest mnt require_existing now s sound)
