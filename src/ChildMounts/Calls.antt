-- ===== src/ChildMounts/Calls.antt =====
-- The calls on a mounted child keep the locks of the local writers and the records together
-- (childmount.py).
use ccc_storage.Base.{
  if◌then◌else◌, not, String, ℕ, ◌≡◌, refl, sym, ap, ◌∙◌, Bool, Option, none, some, List, [], ◌∷◌,
  Result, raised, ok, subst,
}
use ccc_storage.Base.Integers.{minus_one, is_positive}
use ccc_storage.Base.Action.{go_on}
use ccc_storage.Base.Dict.{lookup, discard}
use ccc_storage.CommitPolicy.{Clock}
use ccc_storage.Overlay.Mirror.{DirtyMirror}
use ccc_storage.PackReader.{Host}
use ccc_storage.PackReader.Compose.{if-holds}
use ccc_storage.ChildMounts.{MountRecord, Manager, State, put_record}
use ccc_storage.ChildMounts.Release.{
  Published, publish_record, take_down, forget, publish_found, publish_dirty, publish_each,
  drop_last, unmount_found, taken_down, force_found, force_unmount, release_found, reaped,
  reap_found, reap, reap_each, stop_each, is_expired, listed, add_mirror, add_if,
}
use ccc_storage.ChildMounts.Locking.{IsSound, discard-IsSound, IsPublication}
use ccc_storage.ChildMounts.Leaks.{
  found-SoundFor, publication, put_back-Sound, take_down-records, take_down-Sound, forgotten-Sound,
  changed-Sound,
}

module _ (clock : Clock) (host : Host) (Blob : Type 0) (size_of : Blob → ℕ)
    (foreign : String → Bool) where
  open clock use {Seconds}

  abbrev S : Type 0
  S = State clock host Blob size_of

  abbrev R : Type 0
  R = MountRecord clock host Blob size_of

  abbrev Sound : S → Type 0
  Sound = IsSound clock host Blob size_of foreign

  abbrev Publication : S → R → Published clock host Blob size_of → Type 0
  Publication = IsPublication clock host Blob size_of foreign

  -- The two ends of a publication clock host Blob size_of foreign, for a record that stays until then.
  module _ (m : Manager clock host Blob size_of) (now : Seconds) (s : S) (id : String) (r q : R)
      (sound : Sound s) (is : lookup s.records id ≡ some r) (same : q.manifest_id ≡ r.manifest_id)
      (lock : q.writer_lock ≡ r.writer_lock) (same_handle : q.handle ≡ r.handle) where
    abbrev done : Published clock host Blob size_of
    done = publish_record clock host Blob size_of m q now s

    back : Sound (put_record clock host Blob size_of done.record_after done.state)
    back =
        put_back-Sound clock host Blob size_of foreign s id r q done sound is same lock same_handle
          (publication clock host Blob size_of foreign m now s s id r q sound is refl same lock)

    gone_ : Sound (
        forget clock host Blob size_of q.manifest_id
          (take_down clock host Blob size_of done.record_after done.state))
    gone_ =
        subst
          (λ x. Sound (
            forget clock host Blob size_of x
              (take_down clock host Blob size_of done.record_after done.state)))
          (sym same)
          (forgotten-Sound clock host Blob size_of foreign s s id r q done sound is refl refl same
            lock
            (publication clock host Blob size_of foreign m now s s id r q sound is refl same lock))

    drop_last-Sound :
        (answer : Result (Option (DirtyMirror Blob Seconds)))
        → Sound (drop_last clock host Blob size_of q done answer).0
    drop_last-Sound (raised e) = back
    drop_last-Sound (ok mirror) = gone_

    reaped-Sound :
        (answer : Result (Option (DirtyMirror Blob Seconds)))
        → Sound (reaped clock host Blob size_of q done answer).0
    reaped-Sound (raised e) = back
    reaped-Sound (ok mirror) = gone_

  abbrev pub SoundAfter : {A : Type 0} → S × A → Type 0
  SoundAfter (u, answer) = Sound u

  -- Of a call that may raise before it is done with a record that it forgot.
  abbrev pub SoundIfOk : {A : Type 0} → S × Result A → Type 0
  SoundIfOk (u, raised e) = Unit
  SoundIfOk (u, ok a) = Sound u

  pub unmount_found-Sound :
      (m : Manager clock host Blob size_of) (now : Seconds) (s : S) (id : String) (found : Option R)
      → Sound s
      → lookup s.records id ≡ found
      → Sound (unmount_found clock host Blob size_of m now found s).0
  unmount_found-Sound m now s id none sound is = sound
  unmount_found-Sound m now s id (some r) sound is =
      let less = record r { refcount = minus_one r.refcount } in
      if-holds SoundAfter (not (is_positive (minus_one r.refcount))) _ _
        (drop_last-Sound m now s id r less sound is refl refl refl _)
        (changed-Sound clock host Blob size_of foreign s id r less sound is refl refl refl)

  pub publish_found-Sound :
      (m : Manager clock host Blob size_of) (now : Seconds) (s : S) (id : String) (found : Option R)
      → Sound s
      → lookup s.records id ≡ found
      → Sound (publish_found clock host Blob size_of m now found s).0
  publish_found-Sound m now s id none sound is = sound
  publish_found-Sound m now s id (some r) sound is = back m now s id r r sound is refl refl refl

  pub release_found-Sound :
      (now : Seconds) (s : S) (id : String) (found : Option R)
      → Sound s
      → lookup s.records id ≡ found
      → Sound (release_found clock host Blob size_of now found s).0
  release_found-Sound now s id none sound is = sound
  release_found-Sound now s id (some r) sound is =
      changed-Sound clock host Blob size_of foreign s id r
        (record r {
          refcount = if is_positive r.refcount then minus_one r.refcount else r.refcount;
          last_used = now;
        })
        sound is refl refl refl

  reap_found-Sound :
      (m : Manager clock host Blob size_of) (ttl now : Seconds) (s : S) (id : String)
      (found : Option R)
      → Sound s
      → lookup s.records id ≡ found
      → SoundAfter (reap_found clock host Blob size_of m ttl now found s)
  reap_found-Sound m ttl now s id none sound is = sound
  reap_found-Sound m ttl now s id (some r) sound is =
      if-holds SoundAfter (is_expired clock host Blob size_of ttl now r) _ _
        (reaped-Sound m now s id r r sound is refl refl refl _) sound

  taken_down-Sound :
      (m : Manager clock host Blob size_of) (now : Seconds) (s : S) (id : String) (r : R)
      → Sound s
      → lookup s.records id ≡ some r
      → (answer : Result (Option (DirtyMirror Blob Seconds)))
      → SoundIfOk (
          taken_down clock host Blob size_of r
            (publish_record clock host Blob size_of m r now
              (forget clock host Blob size_of r.manifest_id s))
            answer)
  taken_down-Sound m now s id r sound is (raised e) = tt
  taken_down-Sound m now s id r sound is (ok mirror) =
      let forgot = forget clock host Blob size_of r.manifest_id s in
      let done = publish_record clock host Blob size_of m r now forgot in
      let is_pub =
        publication clock host Blob size_of foreign m now s forgot id r r sound is refl refl refl in
      let (locked, apart, (kept, held, up)) =
        found-SoundFor clock host Blob size_of foreign s id r sound is in
      discard-IsSound clock host Blob size_of foreign id s
        (take_down clock host Blob size_of done.record_after done.state) sound
        (take_down-records clock host Blob size_of foreign done.record_after done.state
          ∙ is_pub.0
          ∙ ap (discard s.records) kept)
        (take_down-Sound clock host Blob size_of foreign s forgot id r r done sound is refl refl
          refl is_pub)

  pub force_found-Sound :
      (m : Manager clock host Blob size_of) (now : Seconds) (s : S) (id : String) (found : Option R)
      → Sound s
      → lookup s.records id ≡ found
      → SoundIfOk (force_found clock host Blob size_of m now found s)
  force_found-Sound m now s id none sound is = sound
  force_found-Sound m now s id (some r) sound is = taken_down-Sound m now s id r sound is _

  go_on-Sound :
      {A B : Type 0} (r : S × Result A) (next : A → S → S × Result B)
      → Sound r.0
      → ((a : A) (u : S) → Sound u → SoundAfter (next a u))
      → SoundAfter (go_on r next)
  go_on-Sound (u, raised e) next h k = h
  go_on-Sound (u, ok a) next h k = k a u h

  go_on-SoundIfOk :
      {A B : Type 0} (r : S × Result A) (next : A → S → S × Result B)
      → SoundIfOk r
      → ((a : A) (u : S) → Sound u → SoundIfOk (next a u))
      → SoundIfOk (go_on r next)
  go_on-SoundIfOk (u, raised e) next h k = tt
  go_on-SoundIfOk (u, ok a) next h k = k a u h

  listed-Sound :
      {A : Type 0} (f : List A → List A) (r : S × Result (List A))
      → SoundAfter r
      → SoundAfter (listed clock host Blob size_of f r)
  listed-Sound f (u, raised e) h = h
  listed-Sound f (u, ok l) h = h

  module _ (m : Manager clock host Blob size_of) where
    pub publish_each-Sound :
        (now : Seconds) (ids : List String) (s : S)
        → Sound s
        → SoundAfter (publish_each clock host Blob size_of m now ids s)
    unfolding publish_each publish_dirty
    publish_each-Sound now [] s sound = sound
    publish_each-Sound now (id ∷ rest) s sound =
        go_on-Sound (publish_found clock host Blob size_of m now (lookup s.records id) s)
          (λ mirror u.
            listed clock host Blob size_of (add_mirror clock host Blob size_of mirror)
              (publish_each clock host Blob size_of m now rest u))
          (publish_found-Sound m now s id (lookup s.records id) sound refl)
          (λ mirror u h.
            listed-Sound _ (publish_each clock host Blob size_of m now rest u)
              (publish_each-Sound now rest u h))

    pub reap_each-Sound :
        (ttl now : Seconds) (ids : List String) (s : S)
        → Sound s
        → SoundAfter (reap_each clock host Blob size_of m ttl now ids s)
    unfolding reap_each reap
    reap_each-Sound ttl now [] s sound = sound
    reap_each-Sound ttl now (id ∷ rest) s sound =
        go_on-Sound (reap_found clock host Blob size_of m ttl now (lookup s.records id) s)
          (λ done u.
            listed clock host Blob size_of (add_if clock host Blob size_of done id)
              (reap_each clock host Blob size_of m ttl now rest u))
          (reap_found-Sound m ttl now s id (lookup s.records id) sound refl)
          (λ done u h.
            listed-Sound _ (reap_each clock host Blob size_of m ttl now rest u)
              (reap_each-Sound ttl now rest u h))

    pub stop_each-Sound :
        (now : Seconds) (ids : List String) (s : S)
        → Sound s
        → SoundIfOk (stop_each clock host Blob size_of m now ids s)
    unfolding stop_each force_unmount
    stop_each-Sound now [] s sound = sound
    stop_each-Sound now (id ∷ rest) s sound =
        go_on-SoundIfOk (force_found clock host Blob size_of m now (lookup s.records id) s)
          (λ status u. stop_each clock host Blob size_of m now rest u)
          (force_found-Sound m now s id (lookup s.records id) sound refl)
          (λ status u h. stop_each-Sound now rest u h)
