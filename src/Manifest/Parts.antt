-- ===== src/Manifest/Parts.antt =====
-- Reading back what the `to_dict` methods of the parts of a manifest wrote (manifest.py).
use ccc_storage.Base.{
  ℕ, ◌≡◌, refl, String, true, not, ◌&&◌, ◌==◌, Option, none, some, List, [], ◌∷◌, map, Result, ok,
  arith, str_eq, str_eq_iff, if◌then◌else◌,
}
use ccc_storage.Base.Text.{is_empty, strip, is_slash, strip-strip}
use ccc_storage.Manifest.{PackInfo, PackStack, OverlayInfo, ColdStorageInfo, ChildBoundary}
use ccc_storage.Manifest.Value.{Value, text, int, table, truth, Fields, get, dict_laws, get-put}
use ccc_storage.Manifest.Encode.{
  put_count, pack_to_dict, pack_items, stack_to_dict, overlay_to_dict, cold_to_dict,
  boundary_to_dict, boundary_items,
}
use ccc_storage.Manifest.Decode.{
  int_or, str_or, int_or_none, pack_from_dict, packs_from_items, stack_from_dict, overlay_from_dict,
  cold_from_dict, boundary_from_dict, boundaries_from_items,
}

-- `to_dict` leaves an empty kind out, and `from_dict` reads a missing kind as "base".
abbrev pub canonical_pack : PackInfo → PackInfo
canonical_pack p = record p { kind = if is_empty p.kind then "base" else p.kind }

abbrev pub canonical_stack : PackStack → PackStack
canonical_stack s = record s { lowers = map canonical_pack s.lowers }

-- Both methods strip the slashes round the path of a boundary.
abbrev pub canonical_boundary : ChildBoundary → ChildBoundary
canonical_boundary b = record b { path = strip is_slash b.path }

-- A count or a list that a dict holds only if there is one, over what the dict held before.
or_count : Option ℕ → Option Value → Option Value
or_count none before = before
or_count (some n) before = some (int n)

get-put_count :
    (d : Fields) (key : String) (count : Option ℕ) (other : String)
    → get (put_count d key count) other
      ≡ (if str_eq key other then or_count count (get d other) else get d other)
unfolding put_count or_count
get-put_count d key none other = ground arith
get-put_count d key (some n) other = get-put d key (int n) other

module _ (repr : Value → String) (read_int : String → Result ℕ) where
  pub overlay_from_dict-overlay_to_dict :
      (o : OverlayInfo) → overlay_from_dict repr read_int (some (table (overlay_to_dict o))) ≡ ok o
  unfolding overlay_from_dict overlay_to_dict
  overlay_from_dict-overlay_to_dict o = simp dict_laws

  pub int_or_zero :
      (n : ℕ) → int_or repr read_int (if not (n == 0) then some (int n) else none) 0 ≡ ok n
  int_or_zero n = ground arith

  pub str_or_empty :
      (s : String) → str_or repr read_int (if not (is_empty s) then some (text s) else none) "" ≡ s
  str_or_empty String.[] = refl
  str_or_empty (String.◌∷◌ c s) = refl

  int_or_none-or_count :
      (count : Option ℕ) → int_or_none repr read_int (or_count count none) ≡ ok count
  unfolding or_count
  int_or_none-or_count none = refl
  int_or_none-or_count (some n) = refl

  pub str_or-kind :
      (kind : String)
      → str_or repr read_int
          (if not (is_empty kind) && not (str_eq kind "base") then some (text kind) else none)
          "base"
        ≡ (if is_empty kind then "base" else kind)
  str_or-kind String.[] = refl
  str_or-kind (String.◌∷◌ c s) = ground (arith, str_eq_iff (String.◌∷◌ c s) "base")

  pub pack_from_dict-pack_to_dict :
      (p : PackInfo) → pack_from_dict repr read_int (table (pack_to_dict p)) ≡ ok (canonical_pack p)
  unfolding pack_from_dict pack_to_dict
  pack_from_dict-pack_to_dict p =
      simp (dict_laws, get-put_count, int_or_zero, int_or_none-or_count, str_or-kind)

  packs_from_items-pack_items :
      (packs : List PackInfo)
      → packs_from_items repr read_int (pack_items packs) ≡ ok (map canonical_pack packs)
  unfolding packs_from_items pack_items
  packs_from_items-pack_items [] = refl
  packs_from_items-pack_items (p ∷ rest) =
      simp (pack_from_dict-pack_to_dict, packs_from_items-pack_items rest)

  pub stack_from_dict-stack_to_dict :
      (s : PackStack)
      → stack_from_dict repr read_int (some (table (stack_to_dict s))) ≡ ok (canonical_stack s)
  unfolding stack_from_dict stack_to_dict
  stack_from_dict-stack_to_dict s = simp (dict_laws, packs_from_items-pack_items)

  pub cold_from_dict-cold_to_dict :
      (c : ColdStorageInfo) → cold_from_dict repr read_int (some (table (cold_to_dict c))) ≡ ok c
  unfolding cold_from_dict cold_to_dict
  cold_from_dict-cold_to_dict c = simp (dict_laws, str_or_empty)

  boundary_from_dict-boundary_to_dict :
      (b : ChildBoundary)
      → boundary_from_dict repr read_int (table (boundary_to_dict b)) ≡ ok (canonical_boundary b)
  unfolding boundary_from_dict boundary_to_dict
  boundary_from_dict-boundary_to_dict b = simp (dict_laws, strip-strip)

  pub boundaries_from_items-boundary_items :
      (boundaries : List ChildBoundary)
      → boundaries_from_items repr read_int (boundary_items boundaries)
        ≡ ok (map canonical_boundary boundaries)
  unfolding boundaries_from_items boundary_items
  boundaries_from_items-boundary_items [] = refl
  boundaries_from_items-boundary_items (b ∷ rest) =
      simp (boundary_from_dict-boundary_to_dict, boundaries_from_items-boundary_items rest)

pub truth-cold_to_dict : (c : ColdStorageInfo) → truth (table (cold_to_dict c)) ≡ true
unfolding cold_to_dict
truth-cold_to_dict c = simp dict_laws
