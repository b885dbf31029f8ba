-- ===== src/ChildMounts/Leaks.antt =====
-- What a publication and the end of a mount leave of the records and of the locks of the local
-- writers (childmount.py).
use ccc_storage.Base.{
  String, ℕ, ◌≡◌, refl, sym, ap, ◌∙◌, inl, inr, Bool, true, false, ◌&&◌, ◌||◌, Option, none, some,
  if◌then◌else◌, str_eq, str_eq_iff, Bool-cases, arith, subst,
}
use ccc_storage.Base.Dict.{lookup, discard}
use ccc_storage.CommitPolicy.{Clock}
use ccc_storage.Locks.{NfsLock, exists_file}
use ccc_storage.PackReader.{Host, unmount}
use ccc_storage.ChildMounts.{is_mounted, MountRecord, Manager, State, put_record}
use ccc_storage.ChildMounts.Release.{
  is_set, Published, publish_record, take_down, release_lock, forget,
}
use ccc_storage.ChildMounts.Locking.{
  IsHeld, owns, SoundFor, IsSound, put_record-IsSound, discard-IsSound, IsPublication,
  take_down-exists, publish_record-IsPublication,
}

module _ (clock : Clock) (host : Host) (Blob : Type 0) (size_of : Blob → ℕ)
    (foreign : String → Bool) where
  open clock use {Seconds}

  abbrev pub S : Type 0
  S = State clock host Blob size_of

  abbrev pub R : Type 0
  R = MountRecord clock host Blob size_of

  abbrev pub Sound : S → Type 0
  Sound = IsSound clock host Blob size_of foreign

  abbrev pub Publication : S → R → Published clock host Blob size_of → Type 0
  Publication = IsPublication clock host Blob size_of foreign

  pub found-SoundFor :
      (s : S) (id : String) (r : R)
      → Sound s
      → lookup s.records id ≡ some r
      → SoundFor clock host Blob size_of foreign id (some r) (exists_file clock (s.lock_file id))
  found-SoundFor s id r sound is =
      subst
        (λ o. SoundFor clock host Blob size_of foreign id o (exists_file clock (s.lock_file id))) is
        (sound id)

  pub or_right : (a b : Bool) → b ≡ true → (a || b) ≡ true
  or_right true b h = refl
  or_right false b h = h

  -- The publication of a record that is kept, whatever its count and the other records are.
  pub publication :
      (m : Manager clock host Blob size_of) (now : Seconds) (s u : S) (id : String) (r q : R)
      → Sound s
      → lookup s.records id ≡ some r
      → u.lock_file ≡ s.lock_file
      → q.manifest_id ≡ r.manifest_id
      → q.writer_lock ≡ r.writer_lock
      → Publication u q (publish_record clock host Blob size_of m q now u)
  publication m now s u id r q sound is files same lock =
      let (locked, apart, (kept, held, up)) = found-SoundFor s id r sound is in
      publish_record-IsPublication clock host Blob size_of foreign m q now u (rw lock held) (λ set.
        rw (same, kept, files)
          (locked ∙ or_right (foreign id) (is_set r.writer_lock) (rw (← lock) set)))

  published-Sound :
      (s : S) (r : R) (p : Published clock host Blob size_of)
      → Sound s
      → Publication s r p
      → Sound p.state
  published-Sound s r p sound is id = rw (is.0, is.1 id) (sound id)

  -- A record that is put back after its publication.
  pub put_back-Sound :
      (s : S) (id : String) (r q : R) (p : Published clock host Blob size_of)
      → Sound s
      → lookup s.records id ≡ some r
      → q.manifest_id ≡ r.manifest_id
      → q.writer_lock ≡ r.writer_lock
      → q.handle ≡ r.handle
      → Publication s q p
      → Sound (put_record clock host Blob size_of p.record_after p.state)
  put_back-Sound s id r q p sound is same lock same_handle pub_ =
      let (locked, apart, (kept, held, up)) = found-SoundFor s id r sound is in
      let (records, files, same_id, set, held', same_handle') = pub_ in
      let there : lookup p.state.records p.record_after.manifest_id ≡ some r =
        ap (λ d. lookup d p.record_after.manifest_id) records
        ∙ ap (lookup s.records) (same_id ∙ same ∙ kept)
        ∙ is in
      put_record-IsSound clock host Blob size_of foreign p.record_after p.state
        (published-Sound s q p sound pub_)
        (set ∙ ap is_set lock ∙ sym (ap (owns clock host Blob size_of foreign) there)) held'
        (rw (same_handle', same_handle) up)

  released_if :
      (id x : String) (set there : Bool)
      → (id ≡ x → (there ≡ (foreign x || set)) × ((foreign x && set) ≡ false))
      → (if str_eq id x && set then false else there) ≡ (if str_eq id x then foreign x else there)
  released_if id x set there h = elim (Bool-cases (str_eq id x)) [
    | inl e ↦
        let (locked, apart) = h ((str_eq_iff id x).0 e) in rw e (ground (arith, locked, apart))
    | inr e ↦ rw e refl
  ]

  release_lock-records :
      (id : String) (lock : Option (NfsLock clock)) (s : S)
      → (release_lock clock host Blob size_of id lock s).records ≡ s.records
  release_lock-records id none s = refl
  release_lock-records id (some lock) s = refl

  pub take_down-records :
      (r : R) (s : S) → (take_down clock host Blob size_of r s).records ≡ s.records
  take_down-records r s =
      release_lock-records r.manifest_id r.writer_lock
        (record s { table = unmount host r.handle s.table })

  -- A record that is taken down after its publication, and forgotten.
  pub take_down-Sound :
      (s u : S) (id : String) (r q : R) (p : Published clock host Blob size_of)
      → Sound s
      → lookup s.records id ≡ some r
      → u.lock_file ≡ s.lock_file
      → q.manifest_id ≡ r.manifest_id
      → q.writer_lock ≡ r.writer_lock
      → Publication u q p
      → (x : String)
      → exists_file clock ((take_down clock host Blob size_of p.record_after p.state).lock_file x)
        ≡ (if str_eq id x then foreign x else exists_file clock (s.lock_file x))
  take_down-Sound s u id r q p sound is files0 same lock pub_ x =
      let (locked, apart, (kept, held, up)) = found-SoundFor s id r sound is in
      let (records, files, same_id, set, held', same_handle') = pub_ in
      take_down-exists clock host Blob size_of foreign p.record_after p.state x held'
      ∙ rw (same_id, same, kept, set, lock, files x, files0)
          (released_if id x (is_set r.writer_lock) (exists_file clock (s.lock_file x)) (λ e.
            subst
              (λ y.
                (exists_file clock (s.lock_file y) ≡ (foreign y || is_set r.writer_lock))
                × ((foreign y && is_set r.writer_lock) ≡ false))
              e (locked, apart)))

  pub forgotten-Sound :
      (s u : S) (id : String) (r q : R) (p : Published clock host Blob size_of)
      → Sound s
      → lookup s.records id ≡ some r
      → u.records ≡ s.records
      → u.lock_file ≡ s.lock_file
      → q.manifest_id ≡ r.manifest_id
      → q.writer_lock ≡ r.writer_lock
      → Publication u q p
      → Sound (
          forget clock host Blob size_of r.manifest_id
            (take_down clock host Blob size_of p.record_after p.state))
  forgotten-Sound s u id r q p sound is records files same lock pub_ =
      let (locked, apart, (kept, held, up)) = found-SoundFor s id r sound is in
      subst
        (λ x. Sound (
          forget clock host Blob size_of x
            (take_down clock host Blob size_of p.record_after p.state)))
        (sym kept)
        (discard-IsSound clock host Blob size_of foreign id s
          (forget clock host Blob size_of id
            (take_down clock host Blob size_of p.record_after p.state))
          sound
          (ap (λ d. discard d id) (take_down-records p.record_after p.state ∙ pub_.0 ∙ records))
          (take_down-Sound s u id r q p sound is files same lock pub_))

  -- A record that keeps its lock and its handle is put back.
  pub changed-Sound :
      (s : S) (id : String) (r q : R)
      → Sound s
      → lookup s.records id ≡ some r
      → q.manifest_id ≡ r.manifest_id
      → q.writer_lock ≡ r.writer_lock
      → q.handle ≡ r.handle
      → Sound (put_record clock host Blob size_of q s)
  changed-Sound s id r q sound is same lock same_handle =
      let (locked, apart, (kept, held, up)) = found-SoundFor s id r sound is in
      let there : lookup s.records q.manifest_id ≡ some r =
        ap (lookup s.records) (same ∙ kept) ∙ is in
      put_record-IsSound clock host Blob size_of foreign q s sound
        (ap is_set lock ∙ sym (ap (owns clock host Blob size_of foreign) there))
        (subst (IsHeld clock host Blob size_of foreign) (sym lock) held)
        (ap is_mounted same_handle ∙ up)
