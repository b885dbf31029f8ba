-- ===== src/Tests/Ticks.antt =====
-- A tick of the worker of src/ccc_storage_mountd/workers/auto_commit.py over three children.
use ccc_storage.Base.{
  ℕ, suc, ◌≡◌, refl, true, if◌then◌else◌, leb, String, str_eq, List, [], ◌∷◌, Result, raised, ok,
  lock_held, ◌-◌,
}
use ccc_storage.Manifest.{ChildManifest, new_manifest}
use ccc_storage.CommitPolicy.{Clock, CommitPolicy, PolicyInputs, trigger, manual, evaluate}
use ccc_storage.AutoCommit.{tick}

-- Times in whole seconds.
abbrev pub seconds : Clock
seconds = record {
  Seconds = ℕ;
  zero_seconds = 0;
  at_least = λ a b. leb b a;
  earlier = λ a b. if leb a b then a else b;
  later = λ a b. if leb a b then b else a;
  minus = λ a b. a - b;
}

abbrev eager : CommitPolicy seconds
eager = record {
  mode = "auto";
  max_dirty_bytes = 1000;
  max_file_count = 2;
  min_quiet_seconds = 10;
  max_age_seconds = 60;
}

-- A service that counts its commits, and whose child `b` is locked.
abbrev commit_unless_locked : String → ℕ → ℕ × Result {0} Unit
commit_unless_locked id n = if str_eq id "b" then (n, raised lock_held) else (suc n, ok tt)

abbrev ready_upper : ChildManifest → ℕ → ℕ
ready_upper m n = n

abbrev three_files : ℕ → ChildManifest → PolicyInputs seconds
three_files n m = record {
  dirty = true;
  bytes = 9;
  file_count = 3;
  age_seconds = 20;
  quiet_seconds = 5;
}

abbrev children : List ChildManifest
children =
    new_manifest "a" "a" "project" 1
    ∷ new_manifest "b" "b" "project" 1
    ∷ record (new_manifest "c" "c" "project" 1) { commit_mode = "manual" }
    ∷ []

tick_runs : tick seconds ℕ commit_unless_locked ready_upper three_files eager children 0 ≡ (
  1,
  ok (record {
    decisions = ("a", trigger) ∷ ("b", trigger) ∷ ("c", manual) ∷ [];
    committed = "a" ∷ [];
    skipped = "b" ∷ [];
  }),
)
unfolding tick evaluate
tick_runs = refl
