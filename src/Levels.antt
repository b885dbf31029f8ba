-- ===== src/Levels.antt =====
-- The policy and the planner of src/ccc_storage_mountd/workers/levels.py. The text of a reason is
-- not modelled: `BlockedReason` keeps what it names, and `not_blocked` is the empty text.
pub mod Placement
pub mod Stack
pub mod Search
pub mod Plan
pub mod Blocked
use ccc_storage.Base.{
  ℕ, zero, suc, ◌+◌, ◌-◌, String, Bool, true, false, not, ◌&&◌, ◌||◌, Option, none, some, List, [],
  ◌∷◌, Result, ok, raised, index_error, level_policy_error, ◌>>=◌, ltb, leb, ◌==◌, if◌then◌else◌,
  length, take, drop,
}
use ccc_storage.Manifest.{PackInfo}

pub record PackLevel : Type 0 where
  pub level : ℕ
  pub max_bytes : ℕ
  pub name : String

-- `trigger_interval_seconds` is read by the maintenance thread alone; it is a whole number here.
pub record LevelPolicy : Type 0 where
  pub levels : List PackLevel
  pub max_packs_per_level : ℕ
  pub allow_base_compaction : Bool
  pub max_online_compaction_bytes : ℕ
  pub trigger_after_commit : Bool
  pub trigger_interval_seconds : ℕ

pub data BlockedReason : Type 0 where
  not_blocked : BlockedReason
  base_compaction : ℕ → BlockedReason
  online_budget : ℕ → ℕ → BlockedReason

pub record CompactionCandidate : Type 0 where
  pub packs : List PackInfo
  pub target_level : ℕ
  pub total_bytes : ℕ
  pub blocked_reason : BlockedReason

level_cap_loop : ℕ → List PackLevel → Result ℕ
level_cap_loop level [] = raised level_policy_error
level_cap_loop level (lvl ∷ rest) =
    if lvl.level == level then ok lvl.max_bytes else level_cap_loop level rest

unfoldable pub level_cap : LevelPolicy → ℕ → Result ℕ
unfolding level_cap_loop
level_cap policy level = level_cap_loop level policy.levels

-- `levels[0].level`
first_level : List PackLevel → Result ℕ
first_level [] = raised index_error
first_level (lvl ∷ rest) = ok lvl.level

unfoldable pub base_level : LevelPolicy → Result ℕ
unfolding first_level
base_level policy = first_level policy.levels

-- `levels[-1].level`
last_level : List PackLevel → Result ℕ
last_level [] = raised index_error
last_level (lvl ∷ []) = ok lvl.level
last_level (lvl ∷ next ∷ rest) = last_level (next ∷ rest)

unfoldable pub top_level : LevelPolicy → Result ℕ
unfolding last_level
top_level policy = last_level policy.levels

choose_loop : ℕ → ℕ → List PackLevel → ℕ
choose_loop size chosen [] = chosen
choose_loop size chosen (lvl ∷ rest) =
    choose_loop size (if leb size lvl.max_bytes then lvl.level else chosen) rest

unfoldable pub choose_initial_level : LevelPolicy → ℕ → Result ℕ
unfolding base_level choose_loop
choose_initial_level policy size = do
  base ← base_level policy
  ok (choose_loop size base policy.levels)

pub target_level_for : LevelPolicy → ℕ → Result ℕ
unfolding choose_initial_level
target_level_for policy total = choose_initial_level policy total

-- The dict `counts`: a level that is absent counts 0, as in `counts.get(level, 0)`.
abbrev bump : ℕ → (ℕ → ℕ) → ℕ → ℕ
bump level counts other = if other == level then counts level + 1 else counts other

-- `prev_level is not None and level <= prev_level`
abbrev falls : Option ℕ → ℕ → Bool
falls none level = false
falls (some prev) level = leb level prev

is_valid_loop : ℕ → (ℕ → ℕ) → Option ℕ → List PackInfo → Bool
is_valid_loop limit counts prev [] = true
is_valid_loop limit counts prev (pack ∷ rest) =
    let counts' = bump pack.level counts in
    let later = is_valid_loop limit counts' (some pack.level) rest in
    if ltb limit (counts' pack.level) then false else if falls prev pack.level then false else later

unfoldable pub is_valid_stack : List PackInfo → LevelPolicy → Bool
unfolding is_valid_loop
is_valid_stack packs policy = is_valid_loop policy.max_packs_per_level (λ _. 0) none packs

-- `sum(p.size for p in group)`
abbrev pub total_size : List PackInfo → ℕ
total_size [] = 0
total_size (pack ∷ rest) = pack.size + total_size rest

-- `max((p.level for p in prefix), default=-1)`; `none` stands for -1.
abbrev max_level : List PackInfo → Option ℕ
max_level [] = none
max_level (pack ∷ rest) = elim (max_level rest) [
  | none ↦ some pack.level
  | some other ↦ if leb other pack.level then some pack.level else some other
]

-- `target > prefix_max_level`
abbrev above : ℕ → Option ℕ → Bool
above target none = true
above target (some level) = ltb level target

pub blocked_reason_for : ℕ → ℕ → ℕ → ℕ → Bool → BlockedReason
blocked_reason_for base budget target total allow_base =
    if leb target base && not allow_base
    then base_compaction target
    else if ltb budget total && not allow_base
    then online_budget total budget
    else not_blocked

module _ (policy : LevelPolicy) (allow_base : Bool) (packs : List PackInfo) where
  -- The rounds of `for m in range(1, n + 1)` that are left, and `m`.
  pub plan_loop : ℕ → ℕ → Result (Option CompactionCandidate)
  plan_loop zero m = ok none
  plan_loop (suc rounds) m =
      let next = plan_loop rounds (m + 1) in
      let group = drop (length packs - m) packs in
      let prefix = take (length packs - m) packs in
      if not (is_valid_stack prefix policy) then next else do
        let total = total_size group
        target ← target_level_for policy total
        if not (above target (max_level prefix)) then next else do
          base ← base_level policy
          ok (
              some (record {
                packs = group;
                target_level = target;
                total_bytes = total;
                blocked_reason =
                    blocked_reason_for base policy.max_online_compaction_bytes target total
                      allow_base;
              }))

unfoldable pub plan_level_compaction :
    List PackInfo → LevelPolicy → Bool → Result (Option CompactionCandidate)
unfolding is_valid_stack plan_loop target_level_for base_level blocked_reason_for
plan_level_compaction packs policy allow_base =
    if leb (length packs) 1
    then ok none
    else if is_valid_stack packs policy
    then ok none
    else plan_loop policy (allow_base || policy.allow_base_compaction) packs (length packs) 1
