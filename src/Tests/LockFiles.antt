-- ===== src/Tests/LockFiles.antt =====
-- Lock objects on one lock file (locks.py).
use ccc_storage.Base.{
  ℕ, ◌-◌, ◌≡◌, refl, ◌↔◌, ◌⊎◌, true, false, ok, raised, lock_held, leb, if◌then◌else◌,
}
use ccc_storage.CommitPolicy.{Clock}
use ccc_storage.Locks.{absent, Process, new_lock, acquire, release, exists_file, is_stale}
use ccc_storage.Locks.Exclusion.{
  World, seen, changed, acquires, releases, Steps, stop, step, IsExclusive, Steps-IsExclusive,
  acquire_iff,
}

-- Times in whole seconds.
abbrev seconds : Clock
seconds = record {
  Seconds = ℕ;
  zero_seconds = 0;
  at_least = λ a b. leb b a;
  earlier = λ a b. if leb a b then a else b;
  later = λ a b. if leb a b then b else a;
  minus = λ a b. a - b;
}

abbrev process : ℕ → Process seconds
process pid = record { node = "n"; pid = pid }

abbrev idle : World seconds
idle = record { file = absent; locks = λ i. new_lock seconds "commit" 3600 }

idle-IsExclusive : IsExclusive seconds idle
idle-IsExclusive i held = absurd cc

-- Lock 0 is acquired, lock 1 is refused, lock 0 is released.
abbrev first : World seconds
first = changed seconds idle 0 (acquire seconds (process 7) false 10 10 (seen seconds idle 0)).0

abbrev second : World seconds
second = changed seconds first 1 (acquire seconds (process 8) false 20 20 (seen seconds first 1)).0

abbrev third : World seconds
third = changed seconds second 0 (release seconds (seen seconds second 0))

run : Steps seconds idle third
run =
    step (acquires 0 (process 7) 10 10)
      (step (acquires 1 (process 8) 20 20) (step (releases 0) stop))

Steps-IsExclusive_example : IsExclusive seconds third
Steps-IsExclusive_example = Steps-IsExclusive seconds idle third run idle-IsExclusive

refused : (acquire seconds (process 8) false 20 20 (seen seconds first 1)).1 ≡ raised lock_held
unfolding acquire
refused = refl

-- A lock that was stolen removes the file of the thief when it is released.
abbrev stolen : World seconds
stolen =
    changed seconds first 1 (acquire seconds (process 8) true 5000 5001 (seen seconds first 1)).0

stolen-release : (release seconds (seen seconds stolen 0)).file ≡ absent
unfolding acquire release
stolen-release = refl

acquire_iff_example :
    (((acquire seconds (process 8) true 5000 5001 (seen seconds first 1)).1 ≡ ok tt) ↔ (
      (exists_file seconds first.file ≡ false)
      ⊎ ((true ≡ true) × (is_stale seconds (first.locks 1) first.file 5000 ≡ true))))
    × (((acquire seconds (process 8) true 5000 5001 (seen seconds first 1)).1 ≡ ok tt)
        → ((acquire seconds (process 8) true 5000 5001 (seen seconds first 1)).0.lock.is_held
            ≡ true)
          × (exists_file seconds
                (acquire seconds (process 8) true 5000 5001 (seen seconds first 1)).0.file
              ≡ true))
    × (((acquire seconds (process 8) true 5000 5001 (seen seconds first 1)).1 ≡ raised lock_held)
        → (acquire seconds (process 8) true 5000 5001 (seen seconds first 1)).0
          ≡ seen seconds first 1)
acquire_iff_example = acquire_iff seconds (process 8) true 5000 5001 (seen seconds first 1)
