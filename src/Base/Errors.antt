-- ===== src/Base/Errors.antt =====
-- Python's exceptions as values. A function that may raise returns a `Result`; the constructors of
-- `Exception` are the classes that the program raises or catches, without their messages.
use mathlib.Core.Path.{◌≡◌, refl}

pub data Exception : Type 0 where
  managed_parent_error child_exists child_not_found child_not_empty : Exception
  index_error key_error value_error type_error attribute_error : Exception
  manifest_error unsupported_schema_version protocol_error excluded_child : Exception
  file_not_found os_error child_mount_error pack_read_error : Exception
  pack_build_error verification_error : Exception
  level_policy_error compaction_error object_store_error recall_error lock_held runtime_error :
      Exception

pub data Result {ℓ} (A : Type ℓ) : Type ℓ where
  raised : Exception → Result A
  ok : A → Result A

-- What follows a call runs only if the call returns.
module _ {ℓ κ} {A : Type ℓ} {B : Type κ} where
  infixl 8 ◌>>=◌
  abbrev pub ◌>>=◌ : Result A → (A → Result B) → Result B
  raised exception >>= next = raised exception
  ok value >>= next = next value

  -- A block that returns has returned from its first call.
  pub >>=-ok :
      (call : Result A) (next : A → Result B) (answer : B)
      → call >>= next ≡ ok answer
      → (value : A) × (next value ≡ ok answer) × (call ≡ ok value)
  >>=-ok (raised exception) next answer returned = cc
  >>=-ok (ok value) next answer returned = (value, returned, refl)
