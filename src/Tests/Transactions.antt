-- ===== src/Tests/Transactions.antt =====
-- A transaction of an environment whose program writes one file (env_txn.py).
use ccc_storage.Base.{ℕ, refl, some, none, [], ◌∷◌, Result, ok}
use ccc_storage.Locks.{absent}
use ccc_storage.Overlay.{cons, nil, file}
use ccc_storage.Commit.{Child}
use ccc_storage.Base.Integers.{pos}
use ccc_storage.EnvTxn.{CommandResult, Env, EnvTransaction, run}
use ccc_storage.EnvTxn.Safety.{IsProgram, IsTransaction, run-IsTransaction}
use ccc_storage.Tests.Commits.{
  same, tool, text, tool-IsLawful, service, child, edited, edited-IsFresh,
}
use ccc_storage.Tests.Ticks.{seconds}

abbrev S : Type 0
S = Child seconds ℕ same tool text

abbrev install : S → S × Result CommandResult
install s =
    (record s { upper = some (cons "new.txt" (file 3) nil) }, ok (record { returncode = pos 0 }))

abbrev check : S → S × Result CommandResult
check s = (s, ok (record { returncode = pos 0 }))

abbrev txn : EnvTransaction seconds ℕ same tool text
txn = record {
  service = service tool;
  mode = none;
  runner = install;
  sanity_check = check;
  stale_after = 3600;
}

abbrev env : Env seconds ℕ same tool text
env = record { child = child tool [] (some edited); update_lock = absent }

install-IsProgram : IsProgram seconds ℕ same tool text tool-IsLawful install
install-IsProgram s = (refl, refl, refl, refl)

check-IsProgram : IsProgram seconds ℕ same tool text tool-IsLawful check
check-IsProgram s = (refl, refl, refl, refl)

run-IsTransaction_example :
    IsTransaction seconds ℕ same tool text tool-IsLawful txn
      ("install" ∷ [])
      10
      env
      (run seconds ℕ same tool text txn ("install" ∷ []) 10 env)
run-IsTransaction_example =
    run-IsTransaction seconds ℕ same tool text tool-IsLawful txn ("install" ∷ []) 10 env
      install-IsProgram check-IsProgram edited-IsFresh
