-- ===== src/ChildMounts/Hydration.antt =====
-- What the copy of a mirror into the local upper leaves as it was (childmount.py).
use ccc_storage.Base.{
  String, ℕ, ◌≡◌, refl, Bool, ◌&&◌, not, Option, none, some, Result, child_mount_error,
}
use ccc_storage.CommitPolicy.{Clock}
use ccc_storage.Locks.{LockFile, exists_file}
use ccc_storage.Overlay.{Entries, nil, cons}
use ccc_storage.Overlay.Mirror.{DirtyMirror, tree_at, latest_dirty_mirror}
use ccc_storage.PackReader.{Host, FilePath}
use ccc_storage.PackReader.Compose.{if-holds}
use ccc_storage.ChildMounts.{MountRecord, State, put_lock_file, fail}
use ccc_storage.ChildMounts.Leaks.{Sound}
use ccc_storage.ChildMounts.Calls.{SoundAfter}
use ccc_storage.ChildMounts.Writable.{
  or_missing, copied_tree, hydrate_from, hydrate_into, hydrate_local_upper, ensure_local_upper,
}

module _ (clock : Clock) (host : Host) (Blob : Type 0) (size_of : Blob → ℕ)
    (foreign : String → Bool) where
  open clock use {Seconds}
  open host use {Table, is_dir}

  abbrev St : Type 0
  St = State clock host Blob size_of

  abbrev Rec : Type 0
  Rec = MountRecord clock host Blob size_of

  abbrev Ok : St → Type 0
  Ok = Sound clock host Blob size_of foreign

  abbrev OkAfter : {A : Type 0} → St × A → Type 0
  OkAfter = SoundAfter clock host Blob size_of foreign

  abbrev Call : Type 0
  Call = St → St × Result Rec

  pub or_missing-After :
      (require_existing : Bool) (mnt : FilePath) (call : Call) (s : St)
      → Ok s
      → OkAfter (call s)
      → OkAfter (or_missing clock host Blob size_of require_existing mnt call s)
  or_missing-After require_existing mnt call s sound h =
      if-holds (λ (c : Call). OkAfter (c s)) (require_existing && not (is_dir mnt))
        (fail clock host Blob size_of child_mount_error) call sound h

  -- A state with the records and the lock files of a sound one.
  pub same-Ok :
      (s u : St)
      → Ok s
      → u.records ≡ s.records
      → ((x : String) → exists_file clock (u.lock_file x) ≡ exists_file clock (s.lock_file x))
      → Ok u
  same-Ok s u sound records files id = rw (records, files id) (sound id)

  -- The copy of a mirror into an upper changes the uppers alone.
  abbrev pub IsFrame : St → St → Type 0
  IsFrame s u = (u.records ≡ s.records) × (u.lock_file ≡ s.lock_file)

  copied_tree-IsFrame :
      (id : String) (tree : Option (Entries Blob)) (s : St)
      → IsFrame s (copied_tree clock host Blob size_of id tree s).0
  copied_tree-IsFrame id none s = (refl, refl)
  copied_tree-IsFrame id (some tree) s = (refl, refl)

  hydrate_from-IsFrame :
      (id : String) (latest : Option (DirtyMirror Blob Seconds)) (s : St)
      → IsFrame s (hydrate_from clock host Blob size_of id latest s).0
  hydrate_from-IsFrame id none s = (refl, refl)
  hydrate_from-IsFrame id (some latest) s = copied_tree-IsFrame id _ s

  hydrate_into-IsFrame :
      (id : String) (upper : Option (Entries Blob)) (s : St)
      → IsFrame s (hydrate_into clock host Blob size_of id upper s).0
  hydrate_into-IsFrame id none s = hydrate_from-IsFrame id _ s
  hydrate_into-IsFrame id (some nil) s = hydrate_from-IsFrame id _ s
  hydrate_into-IsFrame id (some (cons name node rest)) s = (refl, refl)

  pub hydrate-IsFrame :
      (id : String) (s : St)
      → IsFrame s
          (hydrate_local_upper clock host Blob size_of id
            (ensure_local_upper clock host Blob size_of id s)).0
  unfolding hydrate_local_upper
  hydrate-IsFrame id s = hydrate_into-IsFrame id _ _

  -- Its answer does not depend on the lock files.
  copied_tree-lock_file :
      (id : String) (tree : Option (Entries Blob)) (s : St) (file : LockFile clock)
      → (copied_tree clock host Blob size_of id tree
          (put_lock_file clock host Blob size_of id file s)).1
        ≡ (copied_tree clock host Blob size_of id tree s).1
  copied_tree-lock_file id none s file = refl
  copied_tree-lock_file id (some tree) s file = refl

  hydrate_from-lock_file :
      (id : String) (latest : Option (DirtyMirror Blob Seconds)) (s : St) (file : LockFile clock)
      → (hydrate_from clock host Blob size_of id latest
          (put_lock_file clock host Blob size_of id file s)).1
        ≡ (hydrate_from clock host Blob size_of id latest s).1
  hydrate_from-lock_file id none s file = refl
  hydrate_from-lock_file id (some latest) s file =
      copied_tree-lock_file id (tree_at Blob Seconds (s.mirror id) latest.path) s file

  hydrate_into-lock_file :
      (id : String) (upper : Option (Entries Blob)) (s : St) (file : LockFile clock)
      → (hydrate_into clock host Blob size_of id upper
          (put_lock_file clock host Blob size_of id file s)).1
        ≡ (hydrate_into clock host Blob size_of id upper s).1
  hydrate_into-lock_file id none s file =
      hydrate_from-lock_file id (latest_dirty_mirror Blob Seconds (s.mirror id)) s file
  hydrate_into-lock_file id (some nil) s file =
      hydrate_from-lock_file id (latest_dirty_mirror Blob Seconds (s.mirror id)) s file
  hydrate_into-lock_file id (some (cons name node rest)) s file = refl

  pub hydrate-lock_file :
      (id : String) (s : St) (file : LockFile clock)
      → (hydrate_local_upper clock host Blob size_of id (
          ensure_local_upper clock host Blob size_of id
            (put_lock_file clock host Blob size_of id file s))).1
        ≡ (hydrate_local_upper clock host Blob size_of id
            (ensure_local_upper clock host Blob size_of id s)).1
  unfolding hydrate_local_upper
  hydrate-lock_file id s file =
      hydrate_into-lock_file id _ (ensure_local_upper clock host Blob size_of id s) file
