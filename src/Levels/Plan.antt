-- ===== src/Levels/Plan.antt =====
-- What `plan_level_compaction` of levels.py finds: always a merge that heals the stack, and the
-- smallest one.
use ccc_storage.Base.{
  ℕ, suc, ◌-◌, ◌≤◌, ◌<◌, ◌≡◌, refl, sym, ap, ◌∙◌, ◌⊎◌, inl, inr, Bool, false, ◌||◌, none, some,
  List, [], ◌∷◌, ◌++◌, ok, arith, leb, length, take, drop, length-append, take-append-drop,
  length-drop, take-length, drop-length, Bool-cases, tests, leb→le, not-leb→lt,
}
use ccc_storage.Manifest.{PackInfo}
use ccc_storage.Levels.{
  LevelPolicy, CompactionCandidate, base_level, is_valid_stack, total_size, plan_loop,
  plan_level_compaction,
}
use ccc_storage.Levels.Stack.{IsRising, is_valid_stack_iff}
use ccc_storage.Levels.Search.{Heals, IsFirst, plan_loop-some, plan_loop-IsFirst}

plan_loop-length :
    (policy : LevelPolicy) (allow_base : Bool) (packs : List PackInfo) (base : ℕ)
    → base_level policy ≡ ok base
    → 1 ≤ policy.max_packs_per_level
    → 1 < length packs
    → (c : CompactionCandidate) × (plan_loop policy allow_base packs (length packs) 1 ≡ ok (some c))
plan_loop-length policy allow_base packs base first room many =
    let e : length packs ≡ suc (length packs - 1) = omega arith in
    let (c, q) =
      plan_loop-some policy allow_base packs base first room (length packs - 1) 1 (omega arith) in
    (c, ap (λ (n : ℕ). plan_loop policy allow_base packs n 1) e ∙ q)

-- What a candidate is: the newest packs `c.packs`, as few as can be, whose merge heals the stack.
pub record IsHealing (policy : LevelPolicy) (packs : List PackInfo) (c : CompactionCandidate)
    : Type 0 where
  pub older : List PackInfo
  pub split : packs ≡ older ++ c.packs
  pub selects : 0 < length c.packs
  pub total : c.total_bytes ≡ total_size c.packs
  pub heals : Heals policy older c.packs c.target_level
  pub smallest :
      (prefix group : List PackInfo) (level : ℕ)
      → packs ≡ prefix ++ group
      → 0 < length group
      → length group < length c.packs
      → ¬ Heals policy prefix group level

-- A split of the stack is the one at the length of its newer part.
cut_at-length :
    (prefix group : List PackInfo)
    → (take (length (prefix ++ group) - length group) (prefix ++ group) ≡ prefix)
      × (drop (length (prefix ++ group) - length group) (prefix ++ group) ≡ group)
cut_at-length prefix group =
    let e : length (prefix ++ group) - length group ≡ length prefix =
      omega (arith, length-append prefix group) in
    (rw e (take-length prefix group), rw e (drop-length prefix group))

module _ (policy : LevelPolicy) (packs : List PackInfo) (base : ℕ)
    (first : base_level policy ≡ ok base) (room : 1 ≤ policy.max_packs_per_level) where
  Heals-at_length :
      (all prefix group : List PackInfo) (level : ℕ)
      → all ≡ prefix ++ group
      → Heals policy prefix group level
      → Heals policy
          (take (length all - length group) all)
          (drop (length all - length group) all)
          level
  Heals-at_length all prefix group level e h =
      rw (e, (cut_at-length prefix group).0, (cut_at-length prefix group).1) h

  IsFirst-IsHealing :
      (allow_base : Bool) (c : CompactionCandidate)
      → IsFirst policy allow_base packs base first room (length packs) 1 c
      → IsHealing policy packs c
  IsFirst-IsHealing allow_base c f = rw f.same (record {
    older = take (length packs - f.count) packs;
    split = sym (take-append-drop (length packs - f.count) packs);
    selects = omega (arith, length-drop (length packs - f.count) packs, f.from, f.within);
    total = refl;
    heals = f.heals;
    smallest = λ prefix group level e some_packs fewer h.
        f.earlier (length group) some_packs
          (omega (arith, length-drop (length packs - f.count) packs, f.within)) level
          (Heals-at_length packs prefix group level e h);
  })

  single_IsRising : (stack : List PackInfo) → length stack ≤ 1 → IsRising stack
  single_IsRising [] h = tt
  single_IsRising (pack ∷ []) h = (tt, tt)
  single_IsRising (pack ∷ next ∷ rest) h = absurd (omega arith)

  -- Of a policy with a level and room for a pack on each, the planner always answers. It finds
  -- nothing to do on a stack whose levels rise, and only there. On any other it returns the
  -- fewest newest packs whose merge heals the stack: the merged pack goes to the level that its
  -- total size is placed at, which is above every older pack, and the older packs' levels rise.
  pub plan_level_compaction-IsHealing :
      (allow_base : Bool)
      → (IsRising packs × (plan_level_compaction packs policy allow_base ≡ ok none))
        ⊎ ((¬ IsRising packs)
            × ((c : CompactionCandidate) × (plan_level_compaction packs policy allow_base
                  ≡ ok (some c))
                × IsHealing policy packs c))
  unfolding plan_level_compaction
  plan_level_compaction-IsHealing allow_base = elim (Bool-cases (leb (length packs) 1)) [
    | inl few ↦ inl (single_IsRising packs (leb→le _ _ few), rw few)
    | inr many ↦ elim (Bool-cases (is_valid_stack packs policy)) [
      | inl valid ↦ inl ((is_valid_stack_iff packs policy room).0 valid, rw (many, valid))
      | inr invalid ↦
          inr
            (λ up. cc (invalid, (is_valid_stack_iff packs policy room).1 up), planned many invalid)
    ]
  ]
    where
      allowed : Bool
      allowed = allow_base || policy.allow_base_compaction

      planned :
          leb (length packs) 1 ≡ false
          → is_valid_stack packs policy ≡ false
          → (c : CompactionCandidate) × (plan_level_compaction packs policy allow_base
              ≡ ok (some c))
            × IsHealing policy packs c
      planned many invalid =
          let (c, q) =
            plan_loop-length policy allowed packs base first room
              (omega (tests, not-leb→lt _ _ many)) in
          (
            c,
            rw (many, invalid) q,
            IsFirst-IsHealing allowed c
                (plan_loop-IsFirst policy allowed packs base first room (length packs) 1 c q),
          )
