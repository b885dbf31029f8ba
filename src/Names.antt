-- ===== src/Names.antt =====
-- src/ccc_storage_core/names.py: the name of a directory for an id, percent-encoded as by
-- `urllib.parse.quote`, which leaves `~` too.
use Prim.Native.Nat.{◌/◌, ◌%◌}
use Prim.Native.Char.{Char, code}
use Prim.Native.String.{◌++◌ as ◌<>◌}
use ccc_storage.Base.{
  String, ℕ, zero, suc, ◌+◌, ◌≡◌, refl, Bool, ◌||◌, ◌&&◌, leb, ◌==◌, List, [], ◌∷◌, ltb,
  if◌then◌else◌,
}
use ccc_storage.Base.Text.{is_empty}

abbrev pub is_safe : Char → Bool
is_safe c =
    let n = code c in
    (leb b'A' n && leb n b'Z')
    || (leb b'a' n && leb n b'z')
    || (leb b'0' n && leb n b'9')
    || n == b'_'
    || n == b'.'
    || n == b'-'
    || n == b'~'

-- The bytes of a code point in UTF-8.
abbrev pub utf8 : ℕ → List ℕ
utf8 n =
    if ltb n 0x80
    then n ∷ []
    else if ltb n 0x800
    then (0xC0 + n / 64) ∷ (0x80 + n % 64) ∷ []
    else if ltb n 0x10000
    then (0xE0 + n / 4096) ∷ (0x80 + n / 64 % 64) ∷ (0x80 + n % 64) ∷ []
    else (0xF0 + n / 262144) ∷ (0x80 + n / 4096 % 64) ∷ (0x80 + n / 64 % 64) ∷ (0x80 + n % 64) ∷ []

abbrev digit_of : String → ℕ → String
digit_of String.[] n = ""
digit_of (String.◌∷◌ c rest) zero = String.◌∷◌ c ""
digit_of (String.◌∷◌ c rest) (suc n) = digit_of rest n

abbrev pub hex_digit : ℕ → String
hex_digit n = digit_of "0123456789ABCDEF" n

abbrev pub percent : List ℕ → String
percent [] = ""
percent (b ∷ rest) = "%" <> (hex_digit (b / 16) <> (hex_digit (b % 16) <> percent rest))

abbrev pub quote_char : Char → String
quote_char c = if is_safe c then String.◌∷◌ c "" else percent (utf8 (code c))

unfoldable pub quote : String → String
quote String.[] = ""
quote (String.◌∷◌ c rest) = quote_char c <> quote rest

unfoldable pub safe_namespace_name : String → String
safe_namespace_name text =
    if is_empty text then "child" else if is_empty (quote text) then "child" else quote text

safe_namespace_name_runs : safe_namespace_name "observe:a/b%ä" ≡ "observe%3Aa%2Fb%25%C3%A4"
unfolding safe_namespace_name quote
safe_namespace_name_runs = refl
