-- ===== src/Compaction/Healing.antt =====
-- The planner of levels.py and the publication of compaction.py together, as `handle_compact` of
-- src/ccc_storage_mountd/daemon.py runs them: a stack that has been compacted needs no compaction.
use ccc_storage.Base.{
  ℕ, suc, ◌≤◌, ◌≡◌, refl, sym, ap, ◌∙◌, inl, inr, Bool, none, some, List, [], ◌∷◌, ◌++◌, ok, arith,
  length,
}
use mathlib.Core.List.{append-nil}
use ccc_storage.Manifest.{PackInfo, ChildManifest}
use ccc_storage.Levels.{LevelPolicy, CompactionCandidate, base_level, plan_level_compaction}
use ccc_storage.Levels.Stack.{IsRising, IsRising-snoc}
use ccc_storage.Levels.Plan.{IsHealing, plan_level_compaction-IsHealing}
use ccc_storage.Levels.Blocked.{IsHealing-of_planned}
use ccc_storage.Compaction.{with_compaction_metadata, publish_partial_compaction}
use ccc_storage.Compaction.Ranges.{
  IsChain, IsChain-le, IsChain-append, IsChain-split, generation_min-IsChain,
  generation_max-IsChain,
}
use ccc_storage.Compaction.Paths.{DistinctPaths}
use ccc_storage.Compaction.Publish.{
  published, publish_partial_compaction-run, publish_partial_compaction-IsPublished,
}

-- One merged pack chains like the run that it replaces.
IsChain-merged :
    (from to : ℕ) (run : List PackInfo) (new_pack : PackInfo) (target more : ℕ)
    → length run ≡ suc more
    → IsChain from run to
    → IsChain from (with_compaction_metadata new_pack run target ∷ []) to
IsChain-merged from to [] new_pack target more e h = absurd (omega arith)
IsChain-merged from to (pack ∷ rest) new_pack target more e h = (
  generation_min-IsChain from to pack rest h,
  omega (
    arith,
    generation_min-IsChain from to pack rest h,
    generation_max-IsChain from to pack rest h,
    IsChain-le pack.generation_max to rest h.2,
    h.0,
    h.1,
  ),
  generation_max-IsChain from to pack rest h,
)

-- If the packs of a stack hold the generations after `from` up to `to`, each once and in order,
-- they do so after every publication that succeeds.
pub publish_partial_compaction-IsChain :
    (manifest : ChildManifest) (selected : List PackInfo) (new_pack : PackInfo) (target from to : ℕ)
    (updated : ChildManifest) (retired : List PackInfo)
    → IsChain from manifest.pack_stack.lowers to
    → publish_partial_compaction manifest selected new_pack target ≡ ok (updated, retired)
    → IsChain from updated.pack_stack.lowers to
publish_partial_compaction-IsChain manifest selected new_pack target from to updated retired h e =
    let p =
      publish_partial_compaction-IsPublished manifest new_pack target selected (updated, retired)
        e in
    let s = p.stretch in
    let (first, a, b) = IsChain-split from to s.older (s.run ++ s.newer) (rw s.split at h) in
    let (last, c, d) = IsChain-split first to s.run s.newer b in
    let same : updated ≡ (published manifest s.older s.run s.newer new_pack target).0 =
      ap (λ r. r.0) p.same in
    rw same (
      IsChain-append from first to s.older _ a (
        IsChain-append first last to (with_compaction_metadata new_pack s.run target ∷ []) s.newer
          (IsChain-merged first last s.run new_pack target p.more s.in_run c) d))

plan-none_of_IsRising :
    (policy : LevelPolicy) (packs : List PackInfo) (base : ℕ)
    → base_level policy ≡ ok base
    → 1 ≤ policy.max_packs_per_level
    → IsRising packs
    → (again : Bool) → plan_level_compaction packs policy again ≡ ok none
plan-none_of_IsRising policy packs base first room up again =
    elim (plan_level_compaction-IsHealing policy packs base first room again) [
      | inl (rises, none_left) ↦ none_left
      | inr (low, found) ↦ absurd (low up)
    ]

-- The candidate is published, and leaves a stack with nothing to do.
abbrev pub IsHealed : LevelPolicy → ChildManifest → CompactionCandidate → PackInfo → Type 0
IsHealed policy manifest c new_pack =
    (updated : ChildManifest) × (publish_partial_compaction manifest c.packs new_pack c.target_level
      ≡ ok (updated, c.packs))
    × IsRising updated.pack_stack.lowers
    × ((again : Bool) → plan_level_compaction updated.pack_stack.lowers policy again ≡ ok none)

module _ (policy : LevelPolicy) (manifest : ChildManifest) (base : ℕ)
    (first : base_level policy ≡ ok base) (room : 1 ≤ policy.max_packs_per_level)
    (distinct : DistinctPaths manifest.pack_stack.lowers) (new_pack : PackInfo) where
  IsHealed-of_run :
      (c : CompactionCandidate) (run : List PackInfo)
      → c.packs ≡ run
      → IsHealing policy manifest.pack_stack.lowers c
      → IsHealed policy manifest c new_pack
  IsHealed-of_run c [] e healing = absurd (omega (arith, healing.selects, ap length e))
  IsHealed-of_run c (pack ∷ more) e healing =
      let older = healing.older in
      let split : manifest.pack_stack.lowers ≡ older ++ (pack ∷ more ++ []) =
        healing.split ∙ ap (λ l. older ++ l) (e ∙ sym (append-nil (pack ∷ more))) in
      let up =
        IsRising-snoc older (with_compaction_metadata new_pack (pack ∷ more) c.target_level)
          healing.heals.rising healing.heals.below in
      (
        (published manifest older (pack ∷ more) [] new_pack c.target_level).0,
        rw e (
            publish_partial_compaction-run manifest new_pack c.target_level older pack more [] split
              distinct),
        up,
        plan-none_of_IsRising policy _ base first room up,
      )

  -- Publishing the planner's candidate, on a stack whose packs have distinct paths, succeeds and
  -- retires the packs of the candidate. The levels of the new stack rise, so the planner finds
  -- nothing to do there, with base compaction allowed or not.
  pub plan_level_compaction-IsHealed :
      (allow_base : Bool) (c : CompactionCandidate)
      → plan_level_compaction manifest.pack_stack.lowers policy allow_base ≡ ok (some c)
      → IsHealed policy manifest c new_pack
  plan_level_compaction-IsHealed allow_base c planned =
      IsHealed-of_run c c.packs refl (
        IsHealing-of_planned policy manifest.pack_stack.lowers base first room allow_base c planned)
