-- ===== src/Base/Text.antt =====
-- Python's `strip`, `lower` and truth of texts. White space and letters are those of ASCII.
use Prim.Native.Char.{Char, code}
use Prim.Native.String.{String}
use mathlib.Core.Path.{◌≡◌, refl, ap, ◌∙◌}
use mathlib.Core.Logic.{inl, inr}
use mathlib.Core.Bool.{Bool, true, false, ◌&&◌, ◌||◌}
use ccc_storage.Base.Tests.{leb, ◌==◌, if◌then◌else◌, Bool-cases}

-- `not text`
abbrev pub is_empty : String → Bool
is_empty String.[] = true
is_empty (String.◌∷◌ c rest) = false

abbrev pub is_space : Char → Bool
is_space c = code c == 32 || leb 9 (code c) && leb (code c) 13 || leb 28 (code c) && leb (code c) 31

abbrev pub is_slash : Char → Bool
is_slash c = code c == 47

module _ (drops : Char → Bool) where
  abbrev pub lstrip : String → String
  lstrip String.[] = ""
  lstrip (String.◌∷◌ c rest) =
      let later = lstrip rest in if drops c then later else String.◌∷◌ c rest

  abbrev pub rstrip : String → String
  rstrip String.[] = ""
  rstrip (String.◌∷◌ c rest) =
      let later = rstrip rest in if drops c && is_empty later then "" else String.◌∷◌ c later

  unfoldable pub strip : String → String
  strip text = rstrip (lstrip text)

  rstrip-rstrip : (s : String) → rstrip (rstrip s) ≡ rstrip s
  rstrip-rstrip String.[] = refl
  rstrip-rstrip (String.◌∷◌ c rest) = elim (Bool-cases (drops c && is_empty (rstrip rest))) [
    | inl e ↦ rw e
    | inr e ↦ rw e (rw (rstrip-rstrip rest, e))
  ]

  lstrip-rstrip-lstrip : (s : String) → lstrip (rstrip (lstrip s)) ≡ rstrip (lstrip s)
  lstrip-rstrip-lstrip String.[] = refl
  lstrip-rstrip-lstrip (String.◌∷◌ c rest) = elim (Bool-cases (drops c)) [
    | inl e ↦ rw e (lstrip-rstrip-lstrip rest)
    | inr e ↦ rw e (rw e (rw e))
  ]

  -- A text that was stripped is not changed by stripping it again.
  pub strip-strip : (s : String) → strip (strip s) ≡ strip s
  unfolding strip
  strip-strip s = ap rstrip (lstrip-rstrip-lstrip s) ∙ rstrip-rstrip (lstrip s)

-- The letter at the place of `c` in `from` is replaced by the one at that place in `to`.
abbrev translate : String → String → Char → Char
translate String.[] to c = c
translate (String.◌∷◌ f from) String.[] c = c
translate (String.◌∷◌ f from) (String.◌∷◌ t to) c =
    let later = translate from to c in if code f == code c then t else later

unfoldable pub lower : String → String
lower String.[] = ""
lower (String.◌∷◌ c rest) =
    String.◌∷◌ (translate "ABCDEFGHIJKLMNOPQRSTUVWXYZ" "abcdefghijklmnopqrstuvwxyz" c) (lower rest)

lower_example : lower (strip is_space " Local-SSD ") ≡ "local-ssd"
unfolding lower strip
lower_example = refl
