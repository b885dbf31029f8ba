-- ===== src/Cold/Policy.antt =====
-- src/ccc_storage_cold/policy.py: when a child may be archived, and when it must be recalled. Seconds
-- are those of a clock; `time.strptime` is a parameter, and so is which paths are files.
use ccc_storage.Base.{
  String, ◌≡◌, ◌≢◌, refl, sym, subst, ◌↔◌, Bool, true, false, not, ◌&&◌, Option, none, some, List,
  [], ◌∷◌, str_eq, str_eq_iff, if◌then◌else◌, arith,
}
use ccc_storage.Base.Text.{is_empty}
use ccc_storage.Manifest.{PackInfo, ChildManifest}
use ccc_storage.CommitPolicy.{Clock}

pub data ArchiveReason : Type 0 where
  pinned mounted no_packs already_cold hot_pack_missing dirty no_access_metadata recently_accessed
        eligible :
      ArchiveReason

module _ (clock : Clock) (is_file : String → Bool)
    (parse_time : String → Option clock.Seconds) where
  open clock use {Seconds, zero_seconds, at_least, later, minus}

  pub record ColdArchiveDecision : Type 0 where
    pub is_eligible : Bool
    pub reason : ArchiveReason
    pub idle_age_seconds : Seconds

  abbrev pub all_files : List PackInfo → Bool
  all_files [] = true
  all_files (pack ∷ rest) = is_file pack.path && all_files rest

  unfoldable pub hot_packs_present : ChildManifest → Bool
  hot_packs_present manifest = all_files manifest.pack_stack.lowers

  abbrev pub no_lowers : List PackInfo → Bool
  no_lowers [] = true
  no_lowers (pack ∷ rest) = false

  unfoldable pub needs_recall : ChildManifest → Bool
  needs_recall manifest =
      if no_lowers manifest.pack_stack.lowers
      then false
      else if str_eq manifest.s3.pack_state "cold"
      then true
      else not (hot_packs_present manifest)

  abbrev pub accessed_text : ChildManifest → String
  accessed_text manifest =
      if is_empty manifest.s3.last_accessed_at
      then manifest.s3.last_recalled_at
      else manifest.s3.last_accessed_at

  unfoldable pub last_access_epoch : ChildManifest → Option Seconds
  last_access_epoch manifest =
      if is_empty (accessed_text manifest) then none else parse_time (accessed_text manifest)

  abbrev pub refused : ArchiveReason → ColdArchiveDecision
  refused why = record { is_eligible = false; reason = why; idle_age_seconds = zero_seconds }

  abbrev pub aged : Seconds → Seconds → ColdArchiveDecision
  aged idle_seconds idle_age =
      if not (at_least idle_age idle_seconds)
      then record { is_eligible = false; reason = recently_accessed; idle_age_seconds = idle_age }
      else record { is_eligible = true; reason = eligible; idle_age_seconds = idle_age }

  abbrev pub idle_decision : Seconds → Seconds → Option Seconds → ColdArchiveDecision
  idle_decision idle_seconds now none = refused no_access_metadata
  idle_decision idle_seconds now (some accessed) =
      aged idle_seconds (later zero_seconds (minus now accessed))

  unfoldable pub archive_decision :
      ChildManifest → Bool → Bool → Seconds → Seconds → ColdArchiveDecision
  archive_decision manifest is_dirty is_mounted idle_seconds now =
      if manifest.pinned
      then refused pinned
      else if is_mounted
      then refused mounted
      else if no_lowers manifest.pack_stack.lowers
      then refused no_packs
      else if str_eq manifest.s3.pack_state "cold"
      then refused already_cold
      else if not (hot_packs_present manifest)
      then refused hot_pack_missing
      else if is_dirty
      then refused dirty
      else idle_decision idle_seconds now (last_access_epoch manifest)

  -- Nothing uses or changes the child, and its last access is long enough ago.
  abbrev pub IsEligible : ChildManifest → Bool → Bool → Seconds → Seconds → Type 0
  IsEligible manifest is_dirty is_mounted idle_seconds now =
      (manifest.pinned ≡ false)
      × (is_mounted ≡ false)
      × (is_dirty ≡ false)
      × (manifest.pack_stack.lowers ≢ [])
      × (needs_recall manifest ≡ false)
      × ((accessed : Seconds) × (last_access_epoch manifest ≡ some accessed)
          × (at_least (later zero_seconds (minus now accessed)) idle_seconds ≡ true))

  no_lowers_iff : (packs : List PackInfo) → (no_lowers packs ≡ true) ↔ (packs ≡ [])
  no_lowers_iff [] = ground arith
  no_lowers_iff (p ∷ rest) = ground arith

  aged_iff :
      (idle_seconds now : Seconds) (o : Option Seconds)
      → ((idle_decision idle_seconds now o).is_eligible ≡ true) ↔ (
          (accessed : Seconds) × (o ≡ some accessed)
          × (at_least (later zero_seconds (minus now accessed)) idle_seconds ≡ true))
  aged_iff idle_seconds now none = (λ h. absurd cc, λ h. absurd cc)
  aged_iff idle_seconds now (some a) = (
    λ h. (a, refl, ground (arith, h)),
    λ (x, e, h).
        let same : a ≡ x = cc in
        let h' =
          subst (λ t. at_least (later zero_seconds (minus now t)) idle_seconds ≡ true) (sym same)
            h in
        ground (arith, h'),
  )

  -- The policy archives a child exactly if it is not pinned, not mounted and clean, has packs, is not
  -- in need of a recall, and was last accessed, as its manifest says, at least the idle time ago.
  pub archive_decision_iff :
      (manifest : ChildManifest) (is_dirty is_mounted : Bool) (idle_seconds now : Seconds)
      → ((archive_decision manifest is_dirty is_mounted idle_seconds now).is_eligible ≡ true)
        ↔ IsEligible manifest is_dirty is_mounted idle_seconds now
  unfolding archive_decision needs_recall
  archive_decision_iff manifest is_dirty is_mounted idle_seconds now = ground (
    arith,
    aged_iff idle_seconds now (last_access_epoch manifest),
    no_lowers_iff manifest.pack_stack.lowers,
    str_eq_iff manifest.s3.pack_state "cold",
  )
