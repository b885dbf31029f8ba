-- ===== src/Compaction.antt =====
-- The pack stack rewrites of src/ccc_storage_mountd/workers/compaction.py.
pub mod Ranges
pub mod Paths
pub mod Indexes
pub mod Publish
pub mod Healing
pub mod Trigger
use Prim.Native.Nat.{min, max}
use ccc_storage.Base.{
  ℕ, zero, suc, ◌+◌, ◌-◌, String, Bool, true, false, not, ◌||◌, Option, none, some, List, [], ◌∷◌,
  ◌++◌, map, Result, ok, raised, index_error, compaction_error, ◌>>=◌, str_eq, ltb, ◌==◌,
  if◌then◌else◌, length, take, drop,
}
use ccc_storage.Manifest.{PackInfo, PackStack, ChildManifest}

-- `[pack.generation_min for pack in packs if pack.generation_min]`
pub generation_mins : List PackInfo → List ℕ
generation_mins [] = []
generation_mins (pack ∷ rest) =
    let later = generation_mins rest in
    if pack.generation_min == 0 then later else pack.generation_min ∷ later

pub generation_maxes : List PackInfo → List ℕ
generation_maxes [] = []
generation_maxes (pack ∷ rest) =
    let later = generation_maxes rest in
    if pack.generation_max == 0 then later else pack.generation_max ∷ later

-- `min(values, default=default)`
pub min_or : ℕ → List ℕ → ℕ
min_or default [] = default
min_or default (value ∷ []) = value
min_or default (value ∷ next ∷ rest) = min value (min_or default (next ∷ rest))

-- `max(values, default=default)`
pub max_or : ℕ → List ℕ → ℕ
max_or default [] = default
max_or default (value ∷ []) = value
max_or default (value ∷ next ∷ rest) = max value (max_or default (next ∷ rest))

unfoldable pub generation_min : List PackInfo → ℕ
unfolding generation_mins min_or
generation_min packs = min_or 0 (generation_mins packs)

unfoldable pub generation_max : List PackInfo → ℕ
unfolding generation_maxes max_or
generation_max packs = max_or 0 (generation_maxes packs)

abbrev pub with_compaction_metadata : PackInfo → List PackInfo → ℕ → PackInfo
with_compaction_metadata pack selected target_level = record pack {
  level = target_level;
  generation_min = generation_min selected;
  generation_max = generation_max selected;
  kind = "compact";
}

-- `text in texts`
abbrev pub contains : List String → String → Bool
contains [] text = false
contains (first ∷ rest) text = str_eq first text || contains rest text

abbrev pub paths_of : List PackInfo → List String
paths_of = map (λ (pack : PackInfo). pack.path)

-- `[idx for idx, pack in enumerate(lowers, idx) if pack.path in paths]`
unfoldable pub selected_indexes : List String → ℕ → List PackInfo → List ℕ
selected_indexes paths idx [] = []
selected_indexes paths idx (pack ∷ rest) =
    let later = selected_indexes paths (idx + 1) rest in
    if contains paths pack.path then idx ∷ later else later

-- `list(range(first, first + count))`
unfoldable pub range_from : ℕ → ℕ → List ℕ
range_from first zero = []
range_from first (suc count) = first ∷ range_from (first + 1) count

-- `list(range(first, stop))`
abbrev range : ℕ → ℕ → List ℕ
range first stop = range_from first (stop - first)

unfoldable pub same_indexes : List ℕ → List ℕ → Bool
same_indexes [] [] = true
same_indexes [] (y ∷ ys) = false
same_indexes (x ∷ xs) [] = false
same_indexes (x ∷ xs) (y ∷ ys) = let later = same_indexes xs ys in if x == y then later else false

-- `indexes[0]` and `indexes[-1]`
unfoldable pub head : List ℕ → Result ℕ
head [] = raised index_error
head (x ∷ xs) = ok x

unfoldable pub get_last : List ℕ → Result ℕ
get_last [] = raised index_error
get_last (x ∷ []) = ok x
get_last (x ∷ y ∷ rest) = get_last (y ∷ rest)

abbrev replace_lowers : ChildManifest → List PackInfo → ChildManifest
replace_lowers manifest lowers = record manifest {
  pack_stack = record { active_revision = manifest.pack_stack.active_revision; lowers = lowers };
}

-- The manifest with the run of packs at `first` to `last` replaced, and the packs of the run.
unfoldable pub replace_run : ChildManifest → ℕ → ℕ → PackInfo → ℕ → ChildManifest × List PackInfo
replace_run manifest first last new_pack target_level =
    let lowers = manifest.pack_stack.lowers in
    let retired = drop first (take (last + 1) lowers) in
    let annotated = with_compaction_metadata new_pack retired target_level in
    (replace_lowers manifest (take first lowers ++ annotated ∷ drop (last + 1) lowers), retired)

-- The checks on `selected_indexes`, and the replacement of the packs that stand there.
publish_at : ChildManifest → ℕ → List ℕ → PackInfo → ℕ → Result (ChildManifest × List PackInfo)
publish_at manifest count indexes new_pack target_level =
    if not (length indexes == count) then raised compaction_error else do
      first ← head indexes
      last ← get_last indexes
      if not (same_indexes indexes (range first (last + 1)))
          then raised compaction_error
          else ok (replace_run manifest first last new_pack target_level)

unfoldable pub publish_partial_compaction :
    ChildManifest → List PackInfo → PackInfo → ℕ → Result (ChildManifest × List PackInfo)
unfolding publish_at
publish_partial_compaction manifest [] new_pack target_level = raised compaction_error
publish_partial_compaction manifest (pack ∷ more) new_pack target_level =
    let selected = pack ∷ more in
    publish_at manifest (length selected)
      (selected_indexes (paths_of selected) 0 manifest.pack_stack.lowers) new_pack target_level

-- `new_generation` is `None` unless the caller chooses one. The text of `active_revision` is
-- `revision generation`.
unfoldable pub publish_consolidation :
    (ℕ → String) → ChildManifest → PackInfo → Option ℕ → ChildManifest × List PackInfo
publish_consolidation revision manifest new_pack new_generation =
    let retired = manifest.pack_stack.lowers in
    let generation : ℕ = elim new_generation [
      | none ↦ manifest.generation + 1
      | some chosen ↦ chosen
    ] in
    (
      record manifest {
        generation = generation;
        pack_stack = record { active_revision = revision generation; lowers = new_pack ∷ [] };
      },
      retired,
    )
