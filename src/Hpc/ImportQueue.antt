-- ===== src/Hpc/ImportQueue.antt =====
-- src/ccc_storage_hpc/importqueue.py: the deltas that come back from a site, on named branches. A file
-- of JSON is the dict that it was written from, and one that is no JSON is left out; so is a branch
-- whose directory is a file of another one.
use Prim.Native.String.{◌++◌ as ◌<>◌}
use ccc_storage.Base.{
  String, ℕ, ◌≡◌, Bool, true, false, ◌||◌, ◌&&◌, not, Option, none, some, List, [], ◌∷◌, Result,
  raised, ok, ◌>>=◌, value_error, type_error, file_not_found, str_eq, if◌then◌else◌,
}
use ccc_storage.Base.Text.{is_empty, is_slash, strip}
use ccc_storage.Manifest.Value.{
  Value, text, int, bool, table, Fields, empty, field, get, index, truth,
}
use ccc_storage.Paths.{split, kept_parts, join}

pub record Provenance : Type 0 where
  pub site : String
  pub job_id : String
  pub root_id : String
  pub base_generation : ℕ

pub record ImportRecord : Type 0 where
  pub branch : String
  pub delta_path : String
  pub sha256 : String
  pub provenance : Provenance
  pub promoted : Bool

-- `asdict(self.provenance)`
abbrev pub provenance_to_dict : Provenance → Fields
provenance_to_dict p = field "site" (text p.site) (
    field "job_id" (text p.job_id)
      (field "root_id" (text p.root_id) (field "base_generation" (int p.base_generation) empty)))

-- `to_dict`
abbrev pub record_to_dict : ImportRecord → Fields
record_to_dict r = field "branch" (text r.branch) (
    field "delta_path" (text r.delta_path) (
      field "sha256" (text r.sha256) (
        field "provenance" (table (provenance_to_dict r.provenance))
          (field "promoted" (bool r.promoted) empty))))

-- `Provenance(**value)`: the names of the fields, each once. A value of another type, which the class
-- would keep, is refused here.
abbrev pub is_provenance_key : String → Bool
is_provenance_key key =
    str_eq key "site" || str_eq key "job_id" || str_eq key "root_id" || str_eq key "base_generation"

unfoldable pub has_provenance_keys : Fields → Bool
has_provenance_keys empty = true
has_provenance_keys (field key value rest) = is_provenance_key key && has_provenance_keys rest

abbrev pub text_argument : Option Value → Result String
text_argument (some (text s)) = ok s
text_argument other = raised type_error

abbrev pub int_argument : Option Value → Result ℕ
int_argument (some (int n)) = ok n
int_argument other = raised type_error

unfoldable pub provenance_of : Fields → Result Provenance
provenance_of d = if not (has_provenance_keys d) then raised type_error else do
  site ← text_argument (get d "site")
  job_id ← text_argument (get d "job_id")
  root_id ← text_argument (get d "root_id")
  base_generation ← int_argument (get d "base_generation")
  ok (record { site = site; job_id = job_id; root_id = root_id; base_generation = base_generation })

abbrev pub provenance_from : Value → Result Provenance
provenance_from (table d) = provenance_of d
provenance_from other = raised type_error

-- `bool(data.get("promoted", False))`
abbrev pub truth_or_false : Option Value → Bool
truth_or_false none = false
truth_or_false (some v) = truth v

abbrev pub has_dot_dot : List String → Bool
has_dot_dot [] = false
has_dot_dot (part ∷ rest) = str_eq part ".." || has_dot_dot rest

-- `_branch_dir`, below `branches`.
unfoldable pub branch_dir : String → Result String
branch_dir branch =
    let clean = strip is_slash branch in
    let parts = kept_parts (split clean) in
    if is_empty clean || has_dot_dot parts then raised value_error else ok (join parts)

-- `str` of a value that is no text.
module _ (repr : Value → String) where
  abbrev pub str_of : Value → String
  str_of (text s) = s
  str_of other = repr other

  -- `from_dict`
  unfoldable pub record_from_dict : Fields → Result ImportRecord
  record_from_dict d = do
    branch ← index d "branch"
    delta_path ← index d "delta_path"
    sha256 ← index d "sha256"
    value ← index d "provenance"
    provenance ← provenance_from value
    ok (record {
      branch = str_of branch;
      delta_path = str_of delta_path;
      sha256 = str_of sha256;
      provenance = provenance;
      promoted = truth_or_false (get d "promoted");
    })

module _ (Bytes : Type 0) (sha256_file : Bytes → String) (repr : Value → String)
    (root : String) where
  -- The two files of each branch, by its directory.
  pub record ImportQueue : Type 0 where
    pub deltas : String → Option Bytes
    pub records : String → Option Fields

  abbrev pub at_dir : {A : Type 0} → String → A → (String → Option A) → String → Option A
  at_dir dir value old other = if str_eq dir other then some value else old other

  abbrev pub queued : String → String → Bytes → Provenance → ImportRecord
  queued branch dir bytes provenance = record {
    branch = branch;
    delta_path = root <> ("/branches/" <> (dir <> "/delta.tar"));
    sha256 = sha256_file bytes;
    provenance = provenance;
    promoted = false;
  }

  abbrev pub put_import : String → ImportRecord → ImportQueue → ImportQueue
  put_import dir r q = record q { records = at_dir dir (record_to_dict r) q.records }

  abbrev pub enqueue_at :
      Bytes → String → Provenance → ImportQueue → Result String → ImportQueue × Result ImportRecord
  enqueue_at bytes branch provenance q (raised e) = (q, raised e)
  enqueue_at bytes branch provenance q (ok dir) =
      let r = queued branch dir bytes provenance in
      (put_import dir r (record q { deltas = at_dir dir bytes q.deltas }), ok r)

  -- The bytes of the bundle, if it is a file.
  unfoldable pub enqueue_delta :
      Option Bytes → String → Provenance → ImportQueue → ImportQueue × Result ImportRecord
  enqueue_delta none branch provenance q = (q, raised file_not_found)
  enqueue_delta (some bytes) branch provenance q =
      enqueue_at bytes branch provenance q (branch_dir branch)

  abbrev pub found_record : Option Fields → Result ImportRecord
  found_record none = raised file_not_found
  found_record (some d) = record_from_dict repr d

  abbrev pub load_at : ImportQueue → Result String → Result ImportRecord
  load_at q (raised e) = raised e
  load_at q (ok dir) = found_record (q.records dir)

  unfoldable pub load : String → ImportQueue → Result ImportRecord
  load branch q = load_at q (branch_dir branch)

  abbrev pub promoted_at :
      ImportQueue → Result ImportRecord → Result String → ImportQueue × Result ImportRecord
  promoted_at q (raised e) dir = (q, raised e)
  promoted_at q (ok r) (raised e) = (q, raised e)
  promoted_at q (ok r) (ok dir) =
      let r' = record r { promoted = true } in (put_import dir r' q, ok r')

  unfoldable pub promote : String → ImportQueue → ImportQueue × Result ImportRecord
  promote branch q = promoted_at q (load branch q) (branch_dir branch)

  -- What stands in the queue after an import and its promotion.
  abbrev pub IsImported : String → String → Bytes → Provenance → ImportQueue → Type 0
  IsImported branch dir bytes provenance q =
      let p = enqueue_delta (some bytes) branch provenance q in
      let u = promote branch p.0 in
      let r = queued branch dir bytes provenance in
      (p.1 ≡ ok r)
      × (load branch p.0 ≡ ok r)
      × (u.1 ≡ ok (record r { promoted = true }))
      × (load branch u.0 ≡ ok (record r { promoted = true }))
      × (u.0.deltas dir ≡ some bytes)
      × ((other : String)
          → str_eq dir other ≡ false
          → (u.0.deltas other ≡ q.deltas other) × (u.0.records other ≡ q.records other))
