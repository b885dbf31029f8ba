-- ===== src/Base/Action.antt =====
-- A call that changes a state and may raise: what it did before it raised stays done.
use ccc_storage.Base.Errors.{Result, raised, ok}

module _ {ℓ κ μ} {S : Type ℓ} {A : Type κ} {B : Type μ} where
  abbrev pub go_on : S × Result A → (A → S → S × Result B) → S × Result B
  go_on (s, raised e) next = (s, raised e)
  go_on (s, ok a) next = next a s

  infixl 8 ◌>>=◌
  abbrev pub ◌>>=◌ : (S → S × Result A) → (A → S → S × Result B) → S → S × Result B
  (call >>= next) s = go_on (call s) next

module _ {ℓ κ} {S : Type ℓ} {A : Type κ} where
  abbrev pub return : A → S → S × Result A
  return a s = (s, ok a)
