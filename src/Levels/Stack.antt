-- ===== src/Levels/Stack.antt =====
-- What `_is_valid_stack` of levels.py tests: the levels rise from the oldest pack to the newest.
use ccc_storage.Base.{
  ℕ, ◌≤◌, ◌<◌, ◌≡◌, refl, ◌↔◌, true, Option, none, some, List, [], ◌∷◌, ◌++◌, arith, All,
  All-append, All-append_left, All-append_right,
}
use ccc_storage.Manifest.{PackInfo}
use ccc_storage.Levels.{LevelPolicy, bump, is_valid_loop, is_valid_stack, max_level, above}

-- Every pack stands at a lower level than each newer one.
abbrev pub IsRising : List PackInfo → Type 0
IsRising [] = Unit
IsRising (pack ∷ rest) = All (λ (newer : PackInfo). pack.level < newer.level) rest × IsRising rest

abbrev pub IsBelow : ℕ → List PackInfo → Type 0
IsBelow level packs = All (λ (pack : PackInfo). pack.level < level) packs

IsBelow_trans :
    {low high : ℕ} (packs : List PackInfo)
    → low ≤ high
    → All (λ (pack : PackInfo). high < pack.level) packs
    → All (λ (pack : PackInfo). low < pack.level) packs
IsBelow_trans [] h all = tt
IsBelow_trans (pack ∷ rest) h all = (omega (arith, all.0), IsBelow_trans rest h all.1)

-- The levels rise one by one, from above `prev`.
abbrev Exceeds : Option ℕ → ℕ → Type 0
Exceeds none level = Unit
Exceeds (some prev) level = prev < level

abbrev Climbs : Option ℕ → List PackInfo → Type 0
Climbs prev [] = Unit
Climbs prev (pack ∷ rest) = Exceeds prev pack.level × Climbs (some pack.level) rest

Climbs-All :
    (prev : ℕ) (packs : List PackInfo)
    → Climbs (some prev) packs
    → All (λ (pack : PackInfo). prev < pack.level) packs
Climbs-All prev [] h = tt
Climbs-All prev (pack ∷ rest) h =
    (h.0, IsBelow_trans rest (omega (arith, h.0)) (Climbs-All pack.level rest h.1))

Climbs-IsRising : (prev : Option ℕ) (packs : List PackInfo) → Climbs prev packs → IsRising packs
Climbs-IsRising prev [] h = tt
Climbs-IsRising prev (pack ∷ rest) h =
    (Climbs-All pack.level rest h.1, Climbs-IsRising (some pack.level) rest h.1)

IsRising-Climbs :
    (prev : ℕ) (packs : List PackInfo)
    → All (λ (pack : PackInfo). prev < pack.level) packs
    → IsRising packs
    → Climbs (some prev) packs
IsRising-Climbs prev [] all h = tt
IsRising-Climbs prev (pack ∷ rest) all h = (all.0, IsRising-Climbs pack.level rest h.0 h.1)

IsRising-Climbs-none : (packs : List PackInfo) → IsRising packs → Climbs none packs
IsRising-Climbs-none [] h = tt
IsRising-Climbs-none (pack ∷ rest) h = (tt, IsRising-Climbs pack.level rest h.0 h.1)

module _ (limit : ℕ) (room : 1 ≤ limit) where
  -- No level above `prev` has been counted yet.
  abbrev Fresh : (ℕ → ℕ) → Option ℕ → Type 0
  Fresh counts prev = (level : ℕ) → Exceeds prev level → counts level ≡ 0

  Fresh-bump :
      (counts : ℕ → ℕ) (prev : Option ℕ) (level : ℕ)
      → Fresh counts prev
      → Exceeds prev level
      → Fresh (bump level counts) (some level)
  Fresh-bump counts none level fresh up other h = ground (arith, fresh other)
  Fresh-bump counts (some prev) level fresh up other h = ground (arith, fresh other)

  is_valid_loop-Climbs :
      (counts : ℕ → ℕ) (prev : Option ℕ) (packs : List PackInfo)
      → is_valid_loop limit counts prev packs ≡ true
      → Climbs prev packs
  unfolding is_valid_loop
  is_valid_loop-Climbs counts prev [] h = tt
  is_valid_loop-Climbs counts none (pack ∷ rest) h =
      (tt, is_valid_loop-Climbs (bump pack.level counts) (some pack.level) rest (ground arith))
  is_valid_loop-Climbs counts (some p) (pack ∷ rest) h = (
    ground arith,
    is_valid_loop-Climbs (bump pack.level counts) (some pack.level) rest (ground arith),
  )

  Climbs-is_valid_loop :
      (counts : ℕ → ℕ) (prev : Option ℕ) (packs : List PackInfo)
      → Fresh counts prev
      → Climbs prev packs
      → is_valid_loop limit counts prev packs ≡ true
  unfolding is_valid_loop
  Climbs-is_valid_loop counts prev [] fresh h = refl
  Climbs-is_valid_loop counts none (pack ∷ rest) fresh h = ground (
    arith,
    fresh pack.level tt,
    Climbs-is_valid_loop (bump pack.level counts) (some pack.level) rest
        (Fresh-bump counts none pack.level fresh tt) h.1,
  )
  Climbs-is_valid_loop counts (some p) (pack ∷ rest) fresh h = ground (
    arith,
    fresh pack.level h.0,
    Climbs-is_valid_loop (bump pack.level counts) (some pack.level) rest
        (Fresh-bump counts (some p) pack.level fresh h.0) h.1,
  )

-- Whatever the limit on packs per level is, if it is at least one, a stack is valid exactly when
-- every pack stands at a lower level than each newer one.
pub is_valid_stack_iff :
    (packs : List PackInfo) (policy : LevelPolicy)
    → 1 ≤ policy.max_packs_per_level
    → (is_valid_stack packs policy ≡ true) ↔ IsRising packs
unfolding is_valid_stack
is_valid_stack_iff packs policy room = (
  λ h.
      Climbs-IsRising none packs
        (is_valid_loop-Climbs policy.max_packs_per_level room (λ _. 0) none packs h),
  λ h.
      Climbs-is_valid_loop policy.max_packs_per_level room (λ _. 0) none packs (λ level _. refl)
        (IsRising-Climbs-none packs h),
)

-- `target > max(levels, default=-1)`
pub above-max_level_iff :
    (target : ℕ) (packs : List PackInfo)
    → (above target (max_level packs) ≡ true) ↔ IsBelow target packs
above-max_level_iff target [] = (λ h. tt, λ h. refl)
above-max_level_iff target (pack ∷ rest) = ground (arith, above-max_level_iff target rest)

-- A pack on top of a rising stack, at a level above all of it.
pub IsRising-snoc :
    (packs : List PackInfo) (top : PackInfo)
    → IsRising packs
    → IsBelow top.level packs
    → IsRising (packs ++ top ∷ [])
IsRising-snoc [] top up low = (tt, tt)
IsRising-snoc (pack ∷ rest) top up low = (
  All-append (λ (newer : PackInfo). pack.level < newer.level) rest (top ∷ []) up.0 (low.0, tt),
  IsRising-snoc rest top up.1 low.1,
)

pub IsRising-unsnoc :
    (packs : List PackInfo) (top : PackInfo)
    → IsRising (packs ++ top ∷ [])
    → IsRising packs × IsBelow top.level packs
IsRising-unsnoc [] top h = (tt, tt)
IsRising-unsnoc (pack ∷ rest) top h = (
  (
    All-append_left (λ (newer : PackInfo). pack.level < newer.level) rest (top ∷ []) h.0,
    (IsRising-unsnoc rest top h.1).0,
  ),
  (
    (All-append_right (λ (newer : PackInfo). pack.level < newer.level) rest (top ∷ []) h.0).0,
    (IsRising-unsnoc rest top h.1).1,
  ),
)
