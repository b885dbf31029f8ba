-- ===== src/Compaction/Trigger.antt =====
-- `plan_compaction` of src/ccc_storage_mountd/workers/compaction.py: when a base and its deltas are to
-- be consolidated. The comparison of the bytes with a share of the base, which is a float, is a
-- parameter.
use ccc_storage.Base.{
  String, ℕ, ◌+◌, ◌<◌, ◌≡◌, ◌≢◌, refl, ◌⊎◌, inl, inr, Bool, true, false, ◌&&◌, ◌||◌, ltb, Option,
  none, some, List, [], ◌∷◌, ◌++◌, length, if◌then◌else◌, arith,
}
use ccc_storage.Manifest.{PackInfo, ChildManifest}

pub data TriggerReason : Type 0 where
  delta_count delta_bytes : TriggerReason

pub record CompactionPlan : Type 0 where
  pub child_id : String
  pub base : PackInfo
  pub deltas : List PackInfo
  pub reason : List TriggerReason

-- `sum(pack.size for pack in deltas)`
abbrev pub bytes_of : List PackInfo → ℕ
bytes_of [] = 0
bytes_of (p ∷ rest) = p.size + bytes_of rest

module _ (max_deltas : ℕ) (exceeds : ℕ → ℕ → Bool) where
  abbrev pub reason_if : Bool → TriggerReason → List TriggerReason
  reason_if test reason = if test then reason ∷ [] else []

  abbrev pub plan_reasons : PackInfo → List PackInfo → List TriggerReason
  plan_reasons base deltas =
      reason_if (ltb max_deltas (length deltas)) delta_count
      ++ reason_if (ltb 0 base.size && exceeds (bytes_of deltas) base.size) delta_bytes

  abbrev pub planned :
      String → PackInfo → List PackInfo → List TriggerReason → Option CompactionPlan
  planned child_id base deltas [] = none
  planned child_id base deltas (reason ∷ more) =
      some (record { child_id = child_id; base = base; deltas = deltas; reason = reason ∷ more })

  abbrev pub plan_lowers : String → List PackInfo → Option CompactionPlan
  plan_lowers child_id [] = none
  plan_lowers child_id (base ∷ []) = none
  plan_lowers child_id (base ∷ delta ∷ rest) =
      planned child_id base (delta ∷ rest) (plan_reasons base (delta ∷ rest))

  unfoldable pub plan_compaction : ChildManifest → Option CompactionPlan
  plan_compaction manifest = plan_lowers manifest.id manifest.pack_stack.lowers

  -- There are too many deltas, or too many bytes of them.
  abbrev pub IsTriggered : PackInfo → List PackInfo → Type 0
  IsTriggered base deltas =
      (max_deltas < length deltas)
      ⊎ ((0 < base.size) × (exceeds (bytes_of deltas) base.size ≡ true))

  abbrev pub IsPlanOf : List PackInfo → Option CompactionPlan → Type 0
  IsPlanOf [] o = o ≡ none
  IsPlanOf (base ∷ []) o = o ≡ none
  IsPlanOf (base ∷ delta ∷ rest) o =
      (IsTriggered base (delta ∷ rest)
        × ((plan : CompactionPlan) × (o ≡ some plan)
            × (plan.base ≡ base)
            × (plan.deltas ≡ delta ∷ rest)
            × (plan.reason ≢ [])))
      ⊎ ((¬ IsTriggered base (delta ∷ rest)) × (o ≡ none))

  abbrev Holds : PackInfo → List PackInfo → Option CompactionPlan → Type 0
  Holds base deltas o =
      (plan : CompactionPlan) × (o ≡ some plan)
      × (plan.base ≡ base)
      × (plan.deltas ≡ deltas)
      × (plan.reason ≢ [])

  planned_lem :
      (child_id : String) (base : PackInfo) (deltas : List PackInfo) (many large : Bool)
      → (((many || large) ≡ true)
          × Holds base deltas (
              planned child_id base deltas
                (reason_if many delta_count ++ reason_if large delta_bytes)))
        ⊎ (((many || large) ≡ false)
            × (planned child_id base deltas
                  (reason_if many delta_count ++ reason_if large delta_bytes)
                ≡ none))
  planned_lem child_id base deltas true large = inl (refl, (_, refl, refl, refl, λ e. cc))
  planned_lem child_id base deltas false true = inl (refl, (_, refl, refl, refl, λ e. cc))
  planned_lem child_id base deltas false false = inr (refl, refl)

  planned-IsPlanOf :
      (child_id : String) (base delta : PackInfo) (rest : List PackInfo)
      → IsPlanOf (base ∷ delta ∷ rest) (plan_lowers child_id (base ∷ delta ∷ rest))
  planned-IsPlanOf child_id base delta rest =
      elim (planned_lem child_id base (delta ∷ rest) (ltb max_deltas (length (delta ∷ rest)))
        (ltb 0 base.size && exceeds (bytes_of (delta ∷ rest)) base.size)) [
          | inl (due, plan) ↦ inl (ground (arith, due), plan)
          | inr (idle, nothing) ↦ inr (λ t. ground (arith, idle, t), nothing)
        ]

  -- A stack with deltas is to be consolidated exactly if there are more deltas than the policy allows,
  -- or the base has bytes and the deltas have too many for it; the plan holds the oldest pack as the
  -- base, all others as the deltas, and a reason. No other stack is.
  pub plan_compaction-IsPlanOf :
      (manifest : ChildManifest) → IsPlanOf manifest.pack_stack.lowers (plan_compaction manifest)
  unfolding plan_compaction
  plan_compaction-IsPlanOf manifest = lowers_case manifest.id manifest.pack_stack.lowers
    where
      lowers_case :
          (child_id : String) (lowers : List PackInfo)
          → IsPlanOf lowers (plan_lowers child_id lowers)
      lowers_case child_id [] = refl
      lowers_case child_id (base ∷ []) = refl
      lowers_case child_id (base ∷ delta ∷ rest) = planned-IsPlanOf child_id base delta rest
