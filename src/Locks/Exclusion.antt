-- ===== src/Locks/Exclusion.antt =====
-- Calls of several lock objects on one lock file, one after the other (locks.py).
use ccc_storage.Base.{
  ℕ, ◌≡◌, ◌⊎◌, ◌↔◌, inl, inr, Bool, true, false, ◌==◌, raised, ok, lock_held, if◌then◌else◌, arith,
  Bool-cases, Option-cases,
}
use ccc_storage.CommitPolicy.{Clock}
use ccc_storage.Locks.{
  LockFile, absent, present, NfsLock, Process, Locked, acquire, heartbeat, release, exists_file,
  is_stale,
}

module _ (clock : Clock) where
  open clock use {Seconds}

  -- The lock file, and the lock objects of any number of processes.
  pub record World : Type 0 where
    pub file : LockFile clock
    pub locks : ℕ → NfsLock clock

  abbrev pub seen : World → ℕ → Locked clock
  seen w i = record { file = w.file; lock = w.locks i }

  abbrev pub changed : World → ℕ → Locked clock → World
  changed w i s = record { file = s.file; locks = λ j. if i == j then s.lock else w.locks j }

  -- One call, which does not steal.
  pub data Step : World → World → Type 0 where
    acquires :
        {w : World} (i : ℕ) (p : Process clock) (now later : Seconds)
        → Step w (changed w i (acquire clock p false now later (seen w i)).0)
    beats :
        {w : World} (i : ℕ) (now : Seconds)
        → Step w (changed w i (heartbeat clock now (seen w i)).0)
    releases : {w : World} (i : ℕ) → Step w (changed w i (release clock (seen w i)))

  pub data Steps : World → World → Type 0 where
    stop : {w : World} → Steps w w
    step : {u v w : World} → Step u v → Steps v w → Steps u w

  -- A lock that is held has its file, and no other lock is held.
  abbrev pub IsExclusive : World → Type 0
  IsExclusive w =
      (i : ℕ)
      → (w.locks i).is_held ≡ true
      → (exists_file clock w.file ≡ true) × ((j : ℕ) → (w.locks j).is_held ≡ true → i ≡ j)

  -- A call that leaves the lock held leaves its file, and held the lock before or found no file;
  -- a call on a lock that is not held does not remove the file.
  abbrev IsFair : Locked clock → Locked clock → Type 0
  IsFair before after =
      (after.lock.is_held ≡ true
        → (exists_file clock after.file ≡ true)
          × ((before.lock.is_held ≡ true) ⊎ (exists_file clock before.file ≡ false)))
      × (before.lock.is_held ≡ false
          → exists_file clock before.file ≡ true
          → exists_file clock after.file ≡ true)

  -- A lock that is held after the call, and one that was held before, are the same.
  IsFair-same :
      (u : World) (i j : ℕ) (s : Locked clock)
      → IsExclusive u
      → IsFair (seen u i) s
      → s.lock.is_held ≡ true
      → (u.locks j).is_held ≡ true
      → i ≡ j
  IsFair-same u i j s h (own, others) now was = elim ((own now).1) [
    | inl held ↦ (h i held).1 j was
    | inr gone ↦ let there = (h j was).0 in absurd (ground (arith, gone, there))
  ]

  changed-exists :
      (u : World) (i k : ℕ) (s : Locked clock)
      → IsExclusive u
      → IsFair (seen u i) s
      → ((changed u i s).locks k).is_held ≡ true
      → exists_file clock s.file ≡ true
  changed-exists u i k s h (own, others) held = elim (Bool-cases (i == k)) [
    | inl e ↦ (own (rw e at held)).0
    | inr e ↦
        let was : (u.locks k).is_held ≡ true = rw e at held in
        elim (Bool-cases ((u.locks i).is_held)) [
          | inl both ↦ let same = (h i both).1 k was in absurd (ground (arith, same, e))
          | inr free ↦ others free (h k was).0
        ]
  ]

  changed-same :
      (u : World) (i k j : ℕ) (s : Locked clock)
      → IsExclusive u
      → IsFair (seen u i) s
      → ((changed u i s).locks k).is_held ≡ true
      → ((changed u i s).locks j).is_held ≡ true
      → k ≡ j
  changed-same u i k j s h fair held_k held_j = elim (Bool-cases (i == k)) [
    | inl e ↦ elim (Bool-cases (i == j)) [
      | inl f ↦ ground (arith, e, f)
      | inr f ↦
          let same = IsFair-same u i j s h fair (rw e at held_k) (rw f at held_j) in
          ground (arith, e, same)
    ]
    | inr e ↦ elim (Bool-cases (i == j)) [
      | inl f ↦
          let same = IsFair-same u i k s h fair (rw f at held_j) (rw e at held_k) in
          ground (arith, f, same)
      | inr f ↦ (h k (rw e at held_k)).1 j (rw f at held_j)
    ]
  ]

  changed-IsExclusive :
      (u : World) (i : ℕ) (s : Locked clock)
      → IsExclusive u
      → IsFair (seen u i) s
      → IsExclusive (changed u i s)
  changed-IsExclusive u i s h fair k held =
      (changed-exists u i k s h fair held, λ j held_j. changed-same u i k j s h fair held held_j)

  acquire-IsFair :
      (p : Process clock) (now later : Seconds) (file : LockFile clock) (lock : NfsLock clock)
      → (lock.is_held ≡ true → exists_file clock file ≡ true)
      → IsFair
          (record { file = file; lock = lock })
          (acquire clock p false now later (record { file = file; lock = lock })).0
  unfolding acquire
  acquire-IsFair p now later absent lock sound = ground (arith, sound)
  acquire-IsFair p now later (present info modified) lock sound = ground (arith, sound)

  heartbeat-IsFair :
      (now : Seconds) (s : Locked clock)
      → (s.lock.is_held ≡ true → exists_file clock s.file ≡ true)
      → IsFair s (heartbeat clock now s).0
  unfolding heartbeat
  heartbeat-IsFair now s sound = elim (Option-cases s.lock.info) [
    | inl e ↦ rw e (ground (arith, sound))
    | inr (info, e) ↦ rw e (ground (arith, sound))
  ]

  release-IsFair : (s : Locked clock) → IsFair s (release clock s)
  unfolding release
  release-IsFair s = ground arith

  Step-IsExclusive : {u v : World} → Step u v → IsExclusive u → IsExclusive v
  Step-IsExclusive {u} (acquires i p now later) h =
      changed-IsExclusive u i _ h
        (acquire-IsFair p now later u.file (u.locks i) (λ held. (h i held).0))
  Step-IsExclusive {u} (beats i now) h =
      changed-IsExclusive u i _ h (heartbeat-IsFair now (seen u i) (λ held. (h i held).0))
  Step-IsExclusive {u} (releases i) h = changed-IsExclusive u i _ h (release-IsFair (seen u i))

  -- However the lock objects call, none of them stealing, a lock that is held has its file and is
  -- the only one that is held, if that was so before.
  pub Steps-IsExclusive : (u v : World) → Steps u v → IsExclusive u → IsExclusive v
  Steps-IsExclusive u v stop h = h
  Steps-IsExclusive u v (step s rest) h = Steps-IsExclusive _ v rest (Step-IsExclusive s h)

  -- A call of `acquire` returns exactly if there is no lock file, or if it may steal and the file is
  -- stale; the lock is then held and its file is there. If it raises, nothing has changed.
  pub acquire_iff :
      (p : Process clock) (steal_stale : Bool) (now later : Seconds) (s : Locked clock)
      → (((acquire clock p steal_stale now later s).1 ≡ ok tt) ↔ (
          (exists_file clock s.file ≡ false)
          ⊎ ((steal_stale ≡ true) × (is_stale clock s.lock s.file now ≡ true))))
        × (((acquire clock p steal_stale now later s).1 ≡ ok tt)
            → ((acquire clock p steal_stale now later s).0.lock.is_held ≡ true)
              × (exists_file clock (acquire clock p steal_stale now later s).0.file ≡ true))
        × (((acquire clock p steal_stale now later s).1 ≡ raised lock_held)
            → (acquire clock p steal_stale now later s).0 ≡ s)
  unfolding acquire
  acquire_iff p steal_stale now later s = ground arith
