-- ===== src/Manifest/WritePolicy.antt =====
-- `normalize_write_policy` of src/ccc_storage_core/manifest.py.
use ccc_storage.Base.{
  ◌≡◌, refl, ◌⊎◌, inl, inr, String, Bool, not, ◌||◌, Option, none, some, List, [], ◌∷◌, Result, ok,
  raised, manifest_error, arith, str_eq, str_eq_iff, if◌then◌else◌,
}
use ccc_storage.Base.Text.{strip, lower, is_space}
use ccc_storage.Manifest.{write_policy_shared_nfs, write_policy_local_ssd_async}

abbrev write_policy_aliases : List (String × String)
write_policy_aliases =
    ("", write_policy_shared_nfs)
    ∷ ("shared", write_policy_shared_nfs)
    ∷ ("shared-overlay", write_policy_shared_nfs)
    ∷ ("nfs", write_policy_shared_nfs)
    ∷ ("nfs-upper", write_policy_shared_nfs)
    ∷ ("local", write_policy_local_ssd_async)
    ∷ ("local-async", write_policy_local_ssd_async)
    ∷ ("ssd", write_policy_local_ssd_async)
    ∷ ("local-ssd", write_policy_local_ssd_async)
    ∷ []

-- `aliases.get(raw, default)`
abbrev alias_or : List (String × String) → String → String → String
alias_or [] raw default = default
alias_or ((alias, policy) ∷ rest) raw default =
    let later = alias_or rest raw default in if str_eq alias raw then policy else later

abbrev is_valid_write_policy : String → Bool
is_valid_write_policy policy =
    str_eq policy write_policy_shared_nfs || str_eq policy write_policy_local_ssd_async

-- `"" if value is None else str(value).strip().lower()`
abbrev raw_write_policy : Option String → String
raw_write_policy none = ""
raw_write_policy (some value) = lower (strip is_space value)

-- `if policy not in VALID_WRITE_POLICIES: raise ManifestError`
checked_policy : String → Result String
checked_policy policy =
    if not (is_valid_write_policy policy) then raised manifest_error else ok policy

unfoldable pub normalize_write_policy : Option String → Result String
unfolding checked_policy lower strip
normalize_write_policy value =
    let raw = raw_write_policy value in checked_policy (alias_or write_policy_aliases raw raw)

-- The two policies are their own normal forms.
pub normalize_write_policy-shared :
    normalize_write_policy (some write_policy_shared_nfs) ≡ ok write_policy_shared_nfs
unfolding normalize_write_policy
normalize_write_policy-shared = refl

pub normalize_write_policy-local :
    normalize_write_policy (some write_policy_local_ssd_async) ≡ ok write_policy_local_ssd_async
unfolding normalize_write_policy
normalize_write_policy-local = refl

abbrev pub IsWritePolicy : String → Type 0
IsWritePolicy policy = (policy ≡ write_policy_shared_nfs) ⊎ (policy ≡ write_policy_local_ssd_async)

checked_policy-IsWritePolicy :
    (raw policy : String) → checked_policy raw ≡ ok policy → IsWritePolicy policy
unfolding checked_policy
checked_policy-IsWritePolicy raw policy h =
    ground
      (arith, str_eq_iff raw write_policy_shared_nfs, str_eq_iff raw write_policy_local_ssd_async)

normalize_write_policy_fixed :
    (policy : String) → IsWritePolicy policy → normalize_write_policy (some policy) ≡ ok policy
normalize_write_policy_fixed policy (inl e) = rw e normalize_write_policy-shared
normalize_write_policy_fixed policy (inr e) = rw e normalize_write_policy-local

-- A write policy that is accepted is one of the two once it is normalised, and normalising it
-- again changes nothing.
pub normalize_write_policy-IsWritePolicy :
    (value : Option String) (policy : String)
    → normalize_write_policy value ≡ ok policy
    → IsWritePolicy policy × (normalize_write_policy (some policy) ≡ ok policy)
normalize_write_policy-IsWritePolicy value policy h =
    let valid = checked value policy h in (valid, normalize_write_policy_fixed policy valid)
  where
    checked : (v : Option String) (p : String) → normalize_write_policy v ≡ ok p → IsWritePolicy p
    checked v p e =
        unfold normalize_write_policy in
        checked_policy-IsWritePolicy
          (alias_or write_policy_aliases (raw_write_policy v) (raw_write_policy v)) p e
