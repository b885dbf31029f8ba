-- ===== src/Gc.antt =====
-- `plan_gc` of src/ccc_storage_mountd/workers/gc.py: which retired packs may be deleted.
use ccc_storage.Base.{
  ◌≡◌, ◌≢◌, ◌⊎◌, inl, inr, Bool, true, false, List, [], ◌∷◌, ◌++◌, arith, if◌then◌else◌,
}
use ccc_storage.Manifest.{PackInfo, ChildManifest}

pub data Reason : Type 0 where
  pinned dirty_overlay active_mount pending_commit : Reason

pub record GcPlan : Type 0 where
  pub evictable : List PackInfo
  pub blocked : List PackInfo
  pub reasons : List Reason

-- What the caller knows of the child.
pub record Activity : Type 0 where
  pub active_mount : Bool
  pub dirty : Bool
  pub pending_lock : Bool
  pub admin_override : Bool

-- `if test: reasons.append(reason)`
abbrev append_if : Bool → Reason → List Reason → List Reason
append_if test reason reasons = if test then reasons ++ reason ∷ [] else reasons

activity_reasons : Activity → List Reason → List Reason
activity_reasons a reasons =
    if a.admin_override
    then reasons
    else append_if a.pending_lock pending_commit
        (append_if a.active_mount Reason.active_mount (append_if a.dirty dirty_overlay reasons))

decide_gc : List PackInfo → List Reason → GcPlan
decide_gc candidates [] = record { evictable = candidates; blocked = []; reasons = [] }
decide_gc candidates (reason ∷ more) = record {
  evictable = [];
  blocked = candidates;
  reasons = reason ∷ more;
}

unfoldable pub plan_gc : ChildManifest → List PackInfo → Activity → GcPlan
unfolding activity_reasons decide_gc
plan_gc manifest retired a =
    decide_gc retired (activity_reasons a (append_if manifest.pinned pinned []))

-- Nothing may still need the retired packs of the child.
abbrev pub IsQuiet : ChildManifest → Activity → Type 0
IsQuiet manifest a =
    (manifest.pinned ≡ false)
    × ((a.admin_override ≡ true)
        ⊎ ((a.dirty ≡ false) × (a.active_mount ≡ false) × (a.pending_lock ≡ false)))

plan_gc_of_IsQuiet :
    (manifest : ChildManifest) (retired : List PackInfo) (a : Activity)
    → IsQuiet manifest a
    → plan_gc manifest retired a ≡ record { evictable = retired; blocked = []; reasons = [] }
unfolding plan_gc
plan_gc_of_IsQuiet manifest retired a quiet = ground arith

plan_gc_of_not-IsQuiet :
    (manifest : ChildManifest) (retired : List PackInfo) (a : Activity)
    → ¬ IsQuiet manifest a
    → ((plan_gc manifest retired a).evictable ≡ [])
      × ((plan_gc manifest retired a).blocked ≡ retired)
      × ((plan_gc manifest retired a).reasons ≢ [])
unfolding plan_gc
plan_gc_of_not-IsQuiet manifest retired a busy = ground arith

IsQuiet-dec :
    (manifest : ChildManifest) (a : Activity) → IsQuiet manifest a ⊎ (¬ IsQuiet manifest a)
IsQuiet-dec manifest a = ground arith

-- The plan evicts all retired packs of a child that is not pinned and, unless an administrator
-- overrides it, is clean, unmounted and not being committed. Of any other child it keeps every
-- one of them, with a reason.
pub plan_gc-IsQuiet :
    (manifest : ChildManifest) (retired : List PackInfo) (a : Activity)
    → (IsQuiet manifest a
        × (plan_gc manifest retired a ≡ record { evictable = retired; blocked = []; reasons = [] }))
      ⊎ ((¬ IsQuiet manifest a)
          × ((plan_gc manifest retired a).evictable ≡ [])
          × ((plan_gc manifest retired a).blocked ≡ retired)
          × ((plan_gc manifest retired a).reasons ≢ []))
unfolding plan_gc
plan_gc-IsQuiet manifest retired a = elim (IsQuiet-dec manifest a) [
  | inl quiet ↦ inl (quiet, plan_gc_of_IsQuiet manifest retired a quiet)
  | inr busy ↦ let (e, b, r) = plan_gc_of_not-IsQuiet manifest retired a busy in inr (busy, e, b, r)
]
