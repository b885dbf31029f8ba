-- ===== src/Tests/Stacks.antt =====
-- Levels, plans and publications on small stacks (levels.py, compaction.py).
use ccc_storage.Base.{
  ltb, ◌+◌, Bool, ℕ, ◌<◌, ◌≡◌, ◌↔◌, ◌⊎◌, ◌≤◌, refl, String, true, false, ◌||◌, none, some, List, [],
  ◌∷◌, ok, raised, compaction_error, arith,
}
use ccc_storage.Manifest.{PackInfo, ChildManifest, new_pack, new_manifest}
use ccc_storage.Levels.{
  PackLevel, LevelPolicy, CompactionCandidate, not_blocked, base_compaction, base_level, level_cap,
  top_level, choose_initial_level, is_valid_stack, plan_level_compaction,
}
use ccc_storage.Levels.Placement.{IsTightest, IsOversized, choose_initial_level-IsTightest}
use ccc_storage.Levels.Stack.{IsRising, is_valid_stack_iff}
use ccc_storage.Levels.Plan.{IsHealing, plan_level_compaction-IsHealing}
use ccc_storage.Levels.Blocked.{blocked_reason_iff}
use ccc_storage.Compaction.{
  publish_partial_compaction, selected_indexes, range_from, same_indexes, head, get_last,
  replace_run,
}
use ccc_storage.Compaction.Ranges.{IsChain}
use ccc_storage.Compaction.Paths.{DistinctPaths}
use ccc_storage.Compaction.Publish.{
  published, IsPublished, publish_partial_compaction-run, publish_partial_compaction-IsPublished,
}
use ccc_storage.Compaction.Trigger.{IsPlanOf, plan_compaction, plan_compaction-IsPlanOf}
use ccc_storage.Compaction.Healing.{
  IsHealed, plan_level_compaction-IsHealed, publish_partial_compaction-IsChain,
}

abbrev pack_level : ℕ → ℕ → PackLevel
pack_level level max_bytes = record { level = level; max_bytes = max_bytes; name = "" }

abbrev pub policy : LevelPolicy
policy = record {
  levels = pack_level 0 1000 ∷ pack_level 1 100 ∷ pack_level 2 10 ∷ [];
  max_packs_per_level = 1;
  allow_base_compaction = false;
  max_online_compaction_bytes = 500;
  trigger_after_commit = true;
  trigger_interval_seconds = 0;
}

abbrev pub pack_at : String → ℕ → ℕ → ℕ → PackInfo
pack_at path size level generation = record (new_pack path "" size) {
  level = level;
  generation_min = generation;
  generation_max = generation;
  kind = "delta";
}

abbrev stack : List PackInfo
stack = pack_at "a" 900 0 1 ∷ pack_at "b" 7 2 2 ∷ pack_at "c" 8 2 3 ∷ []

abbrev manifest : ChildManifest
manifest = record (new_manifest "p:x" "x" "dataset" 3) {
  pack_stack = record { active_revision = "g3"; lowers = stack };
}

abbrev merge : CompactionCandidate
merge = record {
  packs = pack_at "b" 7 2 2 ∷ pack_at "c" 8 2 3 ∷ [];
  target_level = 1;
  total_bytes = 15;
  blocked_reason = not_blocked;
}

abbrev compacted : ChildManifest
compacted = (published manifest (pack_at "a" 900 0 1 ∷ []) merge.packs [] (new_pack "m" "" 14) 1).0

first : base_level policy ≡ ok 0
unfolding base_level
first = refl

capacities : (level_cap policy 1 ≡ ok 100) × (top_level policy ≡ ok 2)
unfolding level_cap top_level
capacities = (refl, refl)

planned : plan_level_compaction stack policy false ≡ ok (some merge)
unfolding plan_level_compaction
planned = refl

blocked_base :
    plan_level_compaction (pack_at "a" 900 0 1 ∷ pack_at "b" 600 0 2 ∷ []) policy false
    ≡ ok (
        some (record {
          packs = pack_at "a" 900 0 1 ∷ pack_at "b" 600 0 2 ∷ [];
          target_level = 0;
          total_bytes = 1500;
          blocked_reason = base_compaction 0;
        }))
unfolding plan_level_compaction
blocked_base = refl

not_contiguous :
    publish_partial_compaction manifest
      (pack_at "a" 900 0 1 ∷ pack_at "c" 8 2 3 ∷ [])
      (new_pack "m" "" 14)
      1
    ≡ raised compaction_error
unfolding publish_partial_compaction selected_indexes range_from same_indexes head get_last
    replace_run
not_contiguous = refl

choose_initial_level-IsTightest_example :
    (level : ℕ) × (choose_initial_level policy 50 ≡ ok level)
    × ((IsOversized policy.levels 50 × (level ≡ 0)) ⊎ IsTightest policy.levels 50 level)
choose_initial_level-IsTightest_example =
    choose_initial_level-IsTightest policy 50 0 first (omega arith)

is_valid_stack_iff_example : (is_valid_stack stack policy ≡ true) ↔ IsRising stack
is_valid_stack_iff_example = is_valid_stack_iff stack policy (omega arith)

plan_level_compaction-IsHealing_example :
    (IsRising stack × (plan_level_compaction stack policy false ≡ ok none))
    ⊎ ((¬ IsRising stack)
        × ((c : CompactionCandidate) × (plan_level_compaction stack policy false ≡ ok (some c))
            × IsHealing policy stack c))
plan_level_compaction-IsHealing_example =
    plan_level_compaction-IsHealing policy stack 0 first (omega arith) false

blocked_reason_iff_example : (merge.blocked_reason ≡ not_blocked) ↔ (
    (false || policy.allow_base_compaction ≡ true)
    ⊎ ((0 < merge.target_level) × (merge.total_bytes ≤ policy.max_online_compaction_bytes)))
blocked_reason_iff_example =
    blocked_reason_iff policy stack 0 first (omega arith) false merge planned

distinct : DistinctPaths manifest.pack_stack.lowers
distinct = (refl, (refl, (refl, tt)))

publish_partial_compaction-run_example :
    publish_partial_compaction manifest merge.packs (new_pack "m" "" 14) 1
    ≡ ok (published manifest (pack_at "a" 900 0 1 ∷ []) merge.packs [] (new_pack "m" "" 14) 1)
publish_partial_compaction-run_example =
    publish_partial_compaction-run manifest (new_pack "m" "" 14) 1 (pack_at "a" 900 0 1 ∷ [])
      (pack_at "b" 7 2 2) (pack_at "c" 8 2 3 ∷ []) [] refl distinct

publish_partial_compaction-IsPublished_example :
    IsPublished manifest
      (new_pack "m" "" 14)
      1
      merge.packs
      (published manifest (pack_at "a" 900 0 1 ∷ []) merge.packs [] (new_pack "m" "" 14) 1)
publish_partial_compaction-IsPublished_example =
    publish_partial_compaction-IsPublished manifest (new_pack "m" "" 14) 1 merge.packs
      (published manifest (pack_at "a" 900 0 1 ∷ []) merge.packs [] (new_pack "m" "" 14) 1)
      publish_partial_compaction-run_example

publish_partial_compaction-IsChain_example : IsChain 0 compacted.pack_stack.lowers 3
publish_partial_compaction-IsChain_example =
    publish_partial_compaction-IsChain manifest merge.packs (new_pack "m" "" 14) 1 0 3 compacted
      merge.packs (omega arith) publish_partial_compaction-run_example

plan_level_compaction-IsHealed_example : IsHealed policy manifest merge (new_pack "m" "" 14)
plan_level_compaction-IsHealed_example =
    plan_level_compaction-IsHealed policy manifest 0 first (omega arith) distinct
      (new_pack "m" "" 14) false merge planned

-- More than a tenth of the base.
abbrev exceeds : ℕ → ℕ → Bool
exceeds bytes base =
    ltb base (bytes + bytes + bytes + bytes + bytes + bytes + bytes + bytes + bytes + bytes)

plan_compaction-IsPlanOf_example : IsPlanOf 1 exceeds stack (plan_compaction 1 exceeds manifest)
plan_compaction-IsPlanOf_example = plan_compaction-IsPlanOf 1 exceeds manifest
