-- ===== src/Manifest/Value.antt =====
-- The values of a TOML document, and Python's dict operations and conversions on them, as
-- src/ccc_storage_core/manifest.py uses them.
use ccc_storage.Base.{
  ℕ, ◌≡◌, refl, ◌∙◌, ◌&&◌, ◌||◌, String, Bool, true, false, not, Option, none, some, Result, ok,
  raised, key_error, type_error, attribute_error, arith, str_eq, str_eq_iff, if◌then◌else◌, ◌==◌,
}
use ccc_storage.Base.Text.{is_empty}

mutual
  pub data Value : Type 0 where
    text : String → Value
    int : ℕ → Value
    bool : Bool → Value
    list : Items → Value
    table : Fields → Value

  pub data Items : Type 0 where
    nil : Items
    item : Value → Items → Items

  -- A dict, in insertion order.
  pub data Fields : Type 0 where
    empty : Fields
    field : String → Value → Fields → Fields

-- `d.get(key)`
unfoldable pub get : Fields → String → Option Value
get empty key = none
get (field k v rest) key = let later = get rest key in if str_eq k key then some v else later

-- `d[key] = value`
unfoldable pub put : Fields → String → Value → Fields
put empty key value = field key value empty
put (field k v rest) key value =
    let later = put rest key value in if str_eq k key then field k value rest else field k v later

pub get-put :
    (d : Fields) (key : String) (value : Value) (other : String)
    → get (put d key value) other ≡ (if str_eq key other then some value else get d other)
unfolding get put
get-put empty key value other = refl
get-put (field k v rest) key value other = ground (
  arith,
  get-put rest key value other,
  str_eq_iff k key,
  str_eq_iff k other,
  str_eq_iff key other,
)

pub get-empty : (key : String) → get empty key ≡ none
unfolding get
get-empty key = refl

-- `if test: d[key] = value`
unfoldable pub put_if : Bool → Fields → String → Value → Fields
put_if test d key value = if test then put d key value else d

pub get-put_if :
    (test : Bool) (d : Fields) (key : String) (value : Value) (other : String)
    → get (put_if test d key value) other
      ≡ (if str_eq key other && test then some value else get d other)
unfolding put_if
get-put_if true d key value other = get-put d key value other ∙ ground arith
get-put_if false d key value other = ground arith

abbrev pub required : Option Value → Result Value
required none = raised key_error
required (some v) = ok v

-- `d[key]`
unfoldable pub index : Fields → String → Result Value
index d key = required (get d key)

pub index_lem : (d : Fields) (key : String) → index d key ≡ required (get d key)
unfolding index
index_lem d key = refl

-- `bool(value)`
abbrev pub truth : Value → Bool
truth (text s) = not (is_empty s)
truth (int n) = not (n == 0)
truth (bool b) = b
truth (list nil) = false
truth (list (item v rest)) = true
truth (table empty) = false
truth (table (field k v rest)) = true

pub truth-put : (d : Fields) (key : String) (value : Value) → truth (table (put d key value)) ≡ true
unfolding put
truth-put empty key value = refl
truth-put (field k v rest) key value = ground arith

pub truth-put_if :
    (test : Bool) (d : Fields) (key : String) (value : Value)
    → truth (table (put_if test d key value)) ≡ (truth (table d) || test)
unfolding put_if
truth-put_if true d key value = truth-put d key value ∙ ground arith
truth-put_if false d key value = ground arith

pub ruleset dict_laws = (index_lem, get-put, get-put_if, get-empty, truth-put, truth-put_if)

-- What a value is that is subscripted by a text: all but a table raise.
abbrev pub subscripted : Value → Result Fields
subscripted (table d) = ok d
subscripted _ = raised type_error

-- What a value is whose `get` is called.
abbrev pub with_get : Value → Result Fields
with_get (table d) = ok d
with_get _ = raised attribute_error

-- The items that a loop runs over, where each is subscripted by a text: the characters of a text
-- and the keys of a table cannot be, so these raise unless there are none.
abbrev pub iterated : Value → Result Items
iterated (list items) = ok items
iterated (table empty) = ok nil
iterated (text s) = if is_empty s then ok nil else raised type_error
iterated _ = raised type_error
