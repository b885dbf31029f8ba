-- ===== src/Levels/Blocked.antt =====
-- When `plan_level_compaction` of levels.py lets the merge that it finds go ahead.
use ccc_storage.Base.{
  ℕ, ◌≤◌, ◌<◌, ◌≡◌, ◌↔◌, ◌⊎◌, inl, inr, Bool, true, false, ◌||◌, some, List, ok, arith, length,
  subst,
}
use ccc_storage.Manifest.{PackInfo}
use ccc_storage.Levels.{
  LevelPolicy, not_blocked, CompactionCandidate, base_level, blocked_reason_for, plan_loop,
  plan_level_compaction,
}
use ccc_storage.Levels.Stack.{IsRising}
use ccc_storage.Levels.Search.{plan_loop-IsFirst}
use ccc_storage.Levels.Plan.{IsHealing, plan_level_compaction-IsHealing}

blocked_reason_for_iff :
    (base budget target total : ℕ) (allow_base : Bool)
    → (blocked_reason_for base budget target total allow_base ≡ not_blocked)
      ↔ ((allow_base ≡ true) ⊎ ((base < target) × (total ≤ budget)))
unfolding blocked_reason_for
blocked_reason_for_iff base budget target total true = ground arith
blocked_reason_for_iff base budget target total false = ground arith

module _ (policy : LevelPolicy) (packs : List PackInfo) (base : ℕ)
    (first : base_level policy ≡ ok base) (room : 1 ≤ policy.max_packs_per_level)
    (allow_base : Bool) (c : CompactionCandidate)
    (planned : plan_level_compaction packs policy allow_base ≡ ok (some c)) where
  plan_loop_of_planned :
      plan_loop policy (allow_base || policy.allow_base_compaction) packs (length packs) 1
      ≡ ok (some c)
  unfolding plan_level_compaction
  plan_loop_of_planned = ground arith

  pub IsHealing-of_planned : IsHealing policy packs c
  IsHealing-of_planned =
      elim (plan_level_compaction-IsHealing policy packs base first room allow_base) [
        | inl (up, none_left) ↦ cc
        | inr (low, found) ↦
            let same : found.0 ≡ c = cc (found.1) in subst (IsHealing policy packs) same found.2
      ]

  pub not-IsRising_of_planned : ¬ IsRising packs
  not-IsRising_of_planned =
      elim (plan_level_compaction-IsHealing policy packs base first room allow_base) [
        | inl (up, none_left) ↦ cc
        | inr (low, found) ↦ low
      ]

  -- A merge that the planner finds may go ahead exactly if base compaction is allowed, by the
  -- caller or by the policy, or if the merge lands above the base level and its bytes are within
  -- the online budget.
  pub blocked_reason_iff : (c.blocked_reason ≡ not_blocked) ↔ (
      (allow_base || policy.allow_base_compaction ≡ true)
      ⊎ ((base < c.target_level) × (c.total_bytes ≤ policy.max_online_compaction_bytes)))
  blocked_reason_iff =
      let f =
        plan_loop-IsFirst policy (allow_base || policy.allow_base_compaction) packs base first room
          (length packs) 1 c plan_loop_of_planned in
      rw f.same (
        blocked_reason_for_iff base policy.max_online_compaction_bytes f.target _
          (allow_base || policy.allow_base_compaction))
