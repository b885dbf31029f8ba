-- ===== src/Levels/Placement.antt =====
-- Where `choose_initial_level` of levels.py puts a pack.
use ccc_storage.Base.{
  ℕ, ◌≤◌, ◌<◌, ◌≡◌, refl, ap, ◌⊎◌, inl, inr, List, [], ◌∷◌, ◌++◌, ok, arith, leb, All,
  All-append_right, Bool-cases, tests,
}
use ccc_storage.Levels.{
  PackLevel, LevelPolicy, base_level, choose_loop, choose_initial_level, target_level_for,
}

-- The order that `parse_levels` returns its levels in.
abbrev pub IsAscending : List PackLevel → Type 0
IsAscending [] = Unit
IsAscending (lvl ∷ rest) =
    All (λ (next : PackLevel). lvl.level < next.level) rest × IsAscending rest

-- `level` is that of an entry that can hold `size`, and no entry that can has a higher number.
pub record IsTightest (levels : List PackLevel) (size level : ℕ) : Type 0 where
  pub older : List PackLevel
  pub entry : PackLevel
  pub newer : List PackLevel
  pub split : levels ≡ older ++ entry ∷ newer
  pub fits : size ≤ entry.max_bytes
  pub chosen : level ≡ entry.level
  pub highest : All (λ (lvl : PackLevel). size ≤ lvl.max_bytes → lvl.level ≤ level) levels

-- No entry can hold `size`.
abbrev pub IsOversized : List PackLevel → ℕ → Type 0
IsOversized levels size = All (λ (lvl : PackLevel). lvl.max_bytes < size) levels

-- The last entry that can hold `size`.
record IsLastFit (levels : List PackLevel) (size level : ℕ) : Type 0 where
  older : List PackLevel
  entry : PackLevel
  newer : List PackLevel
  split : levels ≡ older ++ entry ∷ newer
  fits : size ≤ entry.max_bytes
  chosen : level ≡ entry.level
  rest : IsOversized newer size

choose_loop-cases :
    (size chosen : ℕ) (levels : List PackLevel)
    → (IsOversized levels size × (choose_loop size chosen levels ≡ chosen))
      ⊎ IsLastFit levels size (choose_loop size chosen levels)
unfolding choose_loop
choose_loop-cases size chosen [] = inl (tt, refl)
choose_loop-cases size chosen (lvl ∷ rest) = elim (Bool-cases (leb size lvl.max_bytes)) [
  | inl fits ↦ rw fits (elim (choose_loop-cases size lvl.level rest) [
    | inl p ↦ inr (record {
      older = [];
      entry = lvl;
      newer = rest;
      split = refl;
      fits = omega tests;
      chosen = p.1;
      rest = p.0;
    })
    | inr q ↦ inr (record {
      older = lvl ∷ q.older;
      entry = q.entry;
      newer = q.newer;
      split = ap (λ l. lvl ∷ l) q.split;
      fits = q.fits;
      chosen = q.chosen;
      rest = q.rest;
    })
  ])
  | inr big ↦ rw big (elim (choose_loop-cases size chosen rest) [
    | inl p ↦ inl ((ground arith, p.0), p.1)
    | inr q ↦ inr (record {
      older = lvl ∷ q.older;
      entry = q.entry;
      newer = q.newer;
      split = ap (λ l. lvl ∷ l) q.split;
      fits = q.fits;
      chosen = q.chosen;
      rest = q.rest;
    })
  ])
]

highest_of_oversized :
    (size level : ℕ) (levels : List PackLevel)
    → IsOversized levels size
    → All (λ (lvl : PackLevel). size ≤ lvl.max_bytes → lvl.level ≤ level) levels
highest_of_oversized size level [] h = tt
highest_of_oversized size level (lvl ∷ rest) h =
    (λ fits. absurd (omega (arith, h.0)), highest_of_oversized size level rest h.1)

highest_of_last :
    (size : ℕ) (older : List PackLevel) (entry : PackLevel) (newer : List PackLevel)
    → IsAscending (older ++ entry ∷ newer)
    → IsOversized newer size
    → All
        (λ (lvl : PackLevel). size ≤ lvl.max_bytes → lvl.level ≤ entry.level)
        (older ++ entry ∷ newer)
highest_of_last size [] entry newer up big =
    (λ fits. omega arith, highest_of_oversized size entry.level newer big)
highest_of_last size (lvl ∷ older) entry newer up big = (
  λ fits. omega (arith, (All-append_right _ older (entry ∷ newer) up.0).0),
  highest_of_last size older entry newer up.1 big,
)

IsTightest-of_last :
    (levels : List PackLevel) (size level : ℕ)
    → IsAscending levels
    → IsLastFit levels size level
    → IsTightest levels size level
IsTightest-of_last levels size level up h = record {
  older = h.older;
  entry = h.entry;
  newer = h.newer;
  split = h.split;
  fits = h.fits;
  chosen = h.chosen;
  highest =
      rw (h.split, h.chosen)
        (highest_of_last size h.older h.entry h.newer (rw h.split at up) h.rest);
}

module _ (policy : LevelPolicy) where
  -- Of a policy with at least one level, in ascending order, every size has a level: the highest
  -- number whose capacity holds the size, or the base level if no capacity does.
  pub choose_initial_level-IsTightest :
      (size base : ℕ)
      → base_level policy ≡ ok base
      → IsAscending policy.levels
      → (level : ℕ) × (choose_initial_level policy size ≡ ok level)
        × ((IsOversized policy.levels size × (level ≡ base)) ⊎ IsTightest policy.levels size level)
  unfolding choose_initial_level
  choose_initial_level-IsTightest size base first up = (
    choose_loop size base policy.levels,
    rw first,
    elim (choose_loop-cases size base policy.levels) [
      | inl p ↦ inl p
      | inr q ↦ inr (IsTightest-of_last policy.levels size _ up q)
    ],
  )

  pub target_level_for_total :
      (total base : ℕ)
      → base_level policy ≡ ok base
      → (level : ℕ) × (target_level_for policy total ≡ ok level)
  unfolding target_level_for
  target_level_for_total total base first = (choose_loop total base policy.levels, rw first)
