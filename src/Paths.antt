-- ===== src/Paths.antt =====
-- Texts as POSIX paths: what Python's `startswith`, `PurePosixPath` and `str.join` do with them.
pub mod Laws
use Prim.Native.Nat.{ℕ, zero, suc, ◌+◌}
use Prim.Native.Char.{Char, code}
use Prim.Native.String.{String, ◌++◌ as ◌<>◌}
use ccc_storage.Base.{
  ◌≡◌, refl, Bool, true, false, not, ◌&&◌, ◌||◌, Option, none, some, List, [], ◌∷◌, ◌==◌, str_eq,
  if◌then◌else◌,
}
use ccc_storage.Base.Text.{is_empty, is_slash, lstrip}

-- `len(text)`
abbrev pub count : String → ℕ
count String.[] = 0
count (String.◌∷◌ c rest) = suc (count rest)

-- `text[n:]`
abbrev pub drop_text : ℕ → String → String
drop_text zero s = s
drop_text (suc n) String.[] = ""
drop_text (suc n) (String.◌∷◌ c rest) = drop_text n rest

-- What follows `prefix` in a text that starts with it.
abbrev pub after_prefix : String → String → Option String
after_prefix s String.[] = some s
after_prefix String.[] (String.◌∷◌ p prefix) = none
after_prefix (String.◌∷◌ c s) (String.◌∷◌ p prefix) =
    let later = after_prefix s prefix in if code c == code p then later else none

-- `text.startswith(prefix)`
abbrev pub starts_with : String → String → Bool
starts_with s prefix = elim (after_prefix s prefix) [ none ↦ false | some rest ↦ true ]

-- `text.split("/")`
abbrev cons_head : Char → List String → List String
cons_head c [] = String.◌∷◌ c "" ∷ []
cons_head c (part ∷ rest) = String.◌∷◌ c part ∷ rest

unfoldable pub split : String → List String
split String.[] = "" ∷ []
split (String.◌∷◌ c s) = let later = split s in if is_slash c then "" ∷ later else cons_head c later

-- The parts that `PurePosixPath` keeps.
unfoldable pub kept_parts : List String → List String
kept_parts [] = []
kept_parts (part ∷ rest) =
    let later = kept_parts rest in if is_empty part || str_eq part "." then later else part ∷ later

-- `"/".join(parts)`
unfoldable pub join : List String → String
join [] = ""
join (part ∷ []) = part
join (part ∷ next ∷ rest) = part <> ("/" <> join (next ∷ rest))

abbrev or_dot : Bool → List String → String
or_dot rooted [] = if rooted then "" else "."
or_dot rooted (part ∷ rest) = join (part ∷ rest)

-- `str(PurePosixPath(path)).lstrip("/")`: the one or two slashes of a root are stripped again.
unfoldable pub normalize : String → String
unfolding split kept_parts join
normalize path = or_dot (starts_with path "/") (kept_parts (split path))

-- `Path(path).name`: the last part, and empty if there is none.
abbrev last_part : List String → String
last_part [] = ""
last_part (part ∷ []) = part
last_part (part ∷ next ∷ rest) = last_part (next ∷ rest)

unfoldable pub name : String → String
unfolding split kept_parts
name path = last_part (kept_parts (split path))

normalize_examples :
    (normalize "/a//b/./c/" ≡ "a/b/c") × (normalize "" ≡ ".") × (normalize "//" ≡ "")
unfolding normalize
normalize_examples = (refl, refl, refl)
