-- ===== src/Levels/Search.antt =====
-- The loop of `plan_level_compaction` of levels.py, round by round.
use ccc_storage.Base.{
  ℕ, zero, suc, ◌+◌, ◌-◌, ◌≤◌, ◌<◌, ◌≡◌, sym, ◌∙◌, ◌⊎◌, inl, inr, Bool, true, false, some, List, ok,
  arith, length, take, drop, Bool-cases,
}
use native.Mathlib.Decide.{ℕ_discrete}
use ccc_storage.Manifest.{PackInfo}
use ccc_storage.Levels.{
  LevelPolicy, CompactionCandidate, base_level, target_level_for, is_valid_stack, total_size,
  max_level, above, blocked_reason_for, plan_loop,
}
use ccc_storage.Levels.Placement.{target_level_for_total}
use ccc_storage.Levels.Stack.{IsRising, IsBelow, is_valid_stack_iff, above-max_level_iff}

-- Merging `group` into one pack heals a stack of `prefix` and `group`: the merged pack belongs at
-- `level`, above all of the rising `prefix`.
pub record Heals (policy : LevelPolicy) (prefix group : List PackInfo) (level : ℕ) : Type 0 where
  pub placed : target_level_for policy (total_size group) ≡ ok level
  pub rising : IsRising prefix
  pub below : IsBelow level prefix

module _ (policy : LevelPolicy) (allow_base : Bool) (packs : List PackInfo) where
  abbrev pub group_of : ℕ → List PackInfo
  group_of m = drop (length packs - m) packs

  abbrev pub prefix_of : ℕ → List PackInfo
  prefix_of m = take (length packs - m) packs

  abbrev pub found : ℕ → ℕ → ℕ → CompactionCandidate
  found base m target = record {
    packs = group_of m;
    target_level = target;
    total_bytes = total_size (group_of m);
    blocked_reason =
        blocked_reason_for base policy.max_online_compaction_bytes target (total_size (group_of m))
          allow_base;
  }

  -- One round of the loop: it stops at `m` if that merge heals the stack, and goes on if not.
  module _ (base : ℕ) (first : base_level policy ≡ ok base) (target : ℕ) (m : ℕ) (rounds : ℕ)
      (placed : target_level_for policy (total_size (group_of m)) ≡ ok target) where
    plan_loop-found :
        is_valid_stack (prefix_of m) policy ≡ true
        → above target (max_level (prefix_of m)) ≡ true
        → plan_loop policy allow_base packs (suc rounds) m ≡ ok (some (found base m target))
    unfolding plan_loop
    plan_loop-found v a = rw (v, placed, a, first)

    plan_loop_invalid :
        is_valid_stack (prefix_of m) policy ≡ false
        → plan_loop policy allow_base packs (suc rounds) m
          ≡ plan_loop policy allow_base packs rounds (m + 1)
    unfolding plan_loop
    plan_loop_invalid v = rw v

    plan_loop_low :
        is_valid_stack (prefix_of m) policy ≡ true
        → above target (max_level (prefix_of m)) ≡ false
        → plan_loop policy allow_base packs (suc rounds) m
          ≡ plan_loop policy allow_base packs rounds (m + 1)
    unfolding plan_loop
    plan_loop_low v a = rw (v, placed, a)

  module _ (base : ℕ) (first : base_level policy ≡ ok base)
      (room : 1 ≤ policy.max_packs_per_level) where
    -- A round returns a merge that heals, or finds that its merge does not and goes on.
    abbrev Round : ℕ → ℕ → Type 0
    Round rounds m =
        ((target : ℕ) × Heals policy (prefix_of m) (group_of m) target
          × (plan_loop policy allow_base packs (suc rounds) m ≡ ok (some (found base m target))))
        ⊎ (((level : ℕ) → ¬ Heals policy (prefix_of m) (group_of m) level)
            × (plan_loop policy allow_base packs (suc rounds) m
                ≡ plan_loop policy allow_base packs rounds (m + 1)))

    plan_loop-Round :
        (rounds m target : ℕ)
        → target_level_for policy (total_size (group_of m)) ≡ ok target
        → Round rounds m
    plan_loop-Round rounds m target placed =
        elim (Bool-cases (is_valid_stack (prefix_of m) policy)) [
          | inl v ↦ elim (Bool-cases (above target (max_level (prefix_of m)))) [
            | inl a ↦ inl (
              target,
              record {
                placed = placed;
                rising = (is_valid_stack_iff (prefix_of m) policy room).0 v;
                below = (above-max_level_iff target (prefix_of m)).0 a;
              },
              plan_loop-found base first target m rounds placed v a,
            )
            | inr a ↦ inr (
              λ level h.
                  let same : target ≡ level = cc (placed, h.placed) in
                  cc (a, (above-max_level_iff target (prefix_of m)).1 (rw same h.below)),
              plan_loop_low base first target m rounds placed v a,
            )
          ]
          | inr v ↦ inr (
            λ level h. cc (v, (is_valid_stack_iff (prefix_of m) policy room).1 h.rising),
            plan_loop_invalid base first target m rounds placed v,
          )
        ]

    plan_loop-cases : (rounds m : ℕ) → Round rounds m
    plan_loop-cases rounds m =
        let (target, placed) = target_level_for_total policy (total_size (group_of m)) base first in
        plan_loop-Round rounds m target placed

    Heals-all :
        (m : ℕ) → length packs - m ≡ 0 → (level : ℕ) × Heals policy (prefix_of m) (group_of m) level
    Heals-all m none_left =
        let (target, placed) = target_level_for_total policy (total_size (group_of m)) base first in
        (target, record { placed = placed; rising = rw none_left tt; below = rw none_left tt })

    -- The last round always heals: there is no older pack left.
    pub plan_loop-some :
        (rounds m : ℕ)
        → suc rounds + m ≡ suc (length packs)
        → (c : CompactionCandidate) × (plan_loop policy allow_base packs (suc rounds) m
            ≡ ok (some c))
    plan_loop-some zero m e = elim (plan_loop-cases zero m) [
      | inl (target, h, q) ↦ (found base m target, q)
      | inr (bad, q) ↦ let (target, h) = Heals-all m (omega arith) in absurd (bad target h)
    ]
    plan_loop-some (suc rounds) m e = elim (plan_loop-cases (suc rounds) m) [
      | inl (target, h, q) ↦ (found base m target, q)
      | inr (bad, q) ↦ let (c, r) = plan_loop-some rounds (m + 1) (omega arith) in (c, q ∙ r)
    ]

    -- What the loop returns is the merge of the first round, from `m` on, whose merge heals.
    pub record IsFirst (rounds m : ℕ) (c : CompactionCandidate) : Type 0 where
      pub count : ℕ
      pub target : ℕ
      pub from : m ≤ count
      pub within : count < m + rounds
      pub same : c ≡ found base count target
      pub heals : Heals policy (prefix_of count) (group_of count) target
      pub earlier :
          (k : ℕ)
          → m ≤ k
          → k < count
          → (level : ℕ) → ¬ Heals policy (prefix_of k) (group_of k) level

    pub plan_loop-IsFirst :
        (rounds m : ℕ) (c : CompactionCandidate)
        → plan_loop policy allow_base packs rounds m ≡ ok (some c)
        → IsFirst rounds m c
    unfolding plan_loop
    plan_loop-IsFirst zero m c e = cc
    plan_loop-IsFirst (suc rounds) m c e = elim (plan_loop-cases rounds m) [
      | inl (target, h, q) ↦ record {
        count = m;
        target = target;
        from = omega arith;
        within = omega arith;
        same = cc;
        heals = h;
        earlier = λ k low high level. absurd (omega arith);
      }
      | inr (bad, q) ↦
          let later = plan_loop-IsFirst rounds (m + 1) c (sym q ∙ e) in
          record {
            count = later.count;
            target = later.target;
            from = omega (arith, later.from);
            within = omega (arith, later.within);
            same = later.same;
            heals = later.heals;
            earlier = λ k low high level. elim (ℕ_discrete m k) [
              | yes here ↦ rw (← here) (bad level)
              | no past ↦ later.earlier k (omega arith) high level
            ];
          }
    ]
