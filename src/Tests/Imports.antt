-- ===== src/Tests/Imports.antt =====
-- A delta that comes back to a branch, and its promotion (importqueue.py).
use ccc_storage.Base.{ℕ, String, ◌≡◌, refl, none, raised, value_error}
use ccc_storage.Base.Text.{strip}
use ccc_storage.Manifest.Value.{Value}
use ccc_storage.Paths.{split, kept_parts, join}
use ccc_storage.Hpc.ImportQueue.{Provenance, ImportQueue, branch_dir}

abbrev sum_of : ℕ → String
sum_of n = "sum"

abbrev repr : Value → String
repr value = "a value"

abbrev from_site : Provenance
from_site = record { site = "hpc"; job_id = "17"; root_id = "p"; base_generation = 4 }

abbrev empty_queue : ImportQueue ℕ sum_of repr "/import"
empty_queue = record { deltas = λ dir. none; records = λ dir. none }

unsafe_branch : branch_dir "a/../b" ≡ raised value_error
unfolding branch_dir strip split kept_parts join
unsafe_branch = refl
