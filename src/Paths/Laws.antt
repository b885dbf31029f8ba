-- ===== src/Paths/Laws.antt =====
-- A prefix with what follows it is the text, and what follows a slash of a normalised path does not begin with one.
use Prim.Native.Char.{Char, code}
use Prim.Native.String.{◌++◌ as ◌<>◌}
use text.Mathlib.TextEquality.{Char-path}
use text.Mathlib.TextLemmas.{nil-append, cons-append, append-nil}
use ccc_storage.Base.{
  suc, String, ◌≡◌, refl, sym, ap, ap₂, ◌∙◌, Bool, true, false, not, ◌&&◌, some, List, [], ◌∷◌, All,
  ◌==◌, arith, Bool-cases, inl, inr, str_eq, ◌||◌,
}
use ccc_storage.Base.Text.{is_empty, is_slash, lstrip}
use ccc_storage.Paths.{
  count, drop_text, after_prefix, starts_with, cons_head, split, kept_parts, join, or_dot,
  normalize,
}

pub after_prefix-eq :
    (s prefix rest : String) → after_prefix s prefix ≡ some rest → s ≡ prefix <> rest
after_prefix-eq s String.[] rest h = cc (nil-append rest)
after_prefix-eq String.[] (String.◌∷◌ p prefix) rest h = cc
after_prefix-eq (String.◌∷◌ c s) (String.◌∷◌ p prefix) rest h =
    elim (Bool-cases (code c == code p)) [
      | inl e ↦
          ap₂ String.◌∷◌ (Char-path c p (ground (arith, e)))
            (after_prefix-eq s prefix rest (rw e at h))
          ∙ sym (cons-append p prefix rest)
      | inr e ↦ cc (rw e at h)
    ]

pub after_prefix-append : (prefix rest : String) → after_prefix (prefix <> rest) prefix ≡ some rest
after_prefix-append String.[] rest = ap some (nil-append rest)
after_prefix-append (String.◌∷◌ p prefix) rest =
    let same : (code p == code p) ≡ true = ground arith in
    rw (cons-append p prefix rest) (rw (same, after_prefix-append prefix rest))

pub drop_text-append : (p s : String) → drop_text (count p) (p <> s) ≡ s
drop_text-append String.[] s = nil-append s
drop_text-append (String.◌∷◌ c p) s =
    ap (λ t. drop_text (suc (count p)) t) (cons-append c p s) ∙ drop_text-append p s

-- No slash follows another.
abbrev begins_with_slash : String → Bool
begins_with_slash String.[] = false
begins_with_slash (String.◌∷◌ c s) = is_slash c

abbrev slash_free : String → Bool
slash_free String.[] = true
slash_free (String.◌∷◌ c s) = not (is_slash c) && slash_free s

abbrev tidy : String → Bool
tidy String.[] = true
tidy (String.◌∷◌ c s) = not (is_slash c && begins_with_slash s) && tidy s

slash_free-tidy : (p s : String) → slash_free p ≡ true → tidy (p <> s) ≡ tidy s
slash_free-tidy String.[] s h = ap tidy (nil-append s)
slash_free-tidy (String.◌∷◌ c p) s h =
    rw (cons-append c p s) (ground (arith, h, slash_free-tidy p s))

tidy_tail : (p s : String) → tidy (p <> s) ≡ true → tidy s ≡ true
tidy_tail String.[] s h = rw (nil-append s) at h
tidy_tail (String.◌∷◌ c p) s h =
    let h' : tidy (String.◌∷◌ c (p <> s)) ≡ true = rw (cons-append c p s) at h in
    tidy_tail p s (ground (arith, h'))

pub slash-append : (s : String) → "/" <> s ≡ String.◌∷◌ "/" s
slash-append s = cons-append "/" "" s ∙ ap (λ t. String.◌∷◌ "/" t) (nil-append s)

tidy-lstrip : (s : String) → tidy (String.◌∷◌ "/" s) ≡ true → lstrip is_slash s ≡ s
tidy-lstrip String.[] h = refl
tidy-lstrip (String.◌∷◌ c s) h = let off : is_slash c ≡ false = ground (arith, h) in rw off

-- A part of a path: not empty, and without a slash.
abbrev IsPart : String → Type 0
IsPart p = (is_empty p ≡ false) × (slash_free p ≡ true)

cons_head-slash_free :
    (c : Char) (ps : List String)
    → is_slash c ≡ false
    → All (λ p. slash_free p ≡ true) ps
    → All (λ p. slash_free p ≡ true) (cons_head c ps)
cons_head-slash_free c [] e h = (ground (arith, e), tt)
cons_head-slash_free c (p ∷ ps) e h = (ground (arith, e, h), h.1)

split-slash_free : (s : String) → All (λ p. slash_free p ≡ true) (split s)
unfolding split
split-slash_free String.[] = (refl, tt)
split-slash_free (String.◌∷◌ c s) =
    let ih = split-slash_free s in
    elim (Bool-cases (is_slash c)) [
      | inl e ↦ rw e (refl, ih)
      | inr e ↦ rw e (cons_head-slash_free c (split s) e ih)
    ]

kept_parts-IsPart :
    (ps : List String) → All (λ p. slash_free p ≡ true) ps → All IsPart (kept_parts ps)
unfolding kept_parts
kept_parts-IsPart [] h = tt
kept_parts-IsPart (p ∷ ps) h =
    let ih = kept_parts-IsPart ps h.1 in
    elim (Bool-cases (is_empty p || str_eq p ".")) [
      | inl e ↦ rw e ih
      | inr e ↦ rw e ((ground (arith, e), h.0), ih)
    ]

join-begins : (ps : List String) → All IsPart ps → begins_with_slash (join ps) ≡ false
unfolding join
join-begins [] h = refl
join-begins (String.[] ∷ ps) h = ground arith
join-begins (String.◌∷◌ c p ∷ []) h = ground (arith, h)
join-begins (String.◌∷◌ c p ∷ next ∷ rest) h =
    rw (cons-append c p ("/" <> join (next ∷ rest))) (ground (arith, h))

tidy-join : (ps : List String) → All IsPart ps → tidy (join ps) ≡ true
unfolding join
tidy-join [] h = refl
tidy-join (p ∷ []) h = ap tidy (sym (append-nil p)) ∙ slash_free-tidy p "" h.0.1
tidy-join (p ∷ next ∷ rest) h =
    let later = tidy-join (next ∷ rest) h.1 in
    let head = join-begins (next ∷ rest) h.1 in
    slash_free-tidy p ("/" <> join (next ∷ rest)) h.0.1
    ∙ rw (slash-append (join (next ∷ rest))) (ground (arith, later, head))

tidy-or_dot : (rooted : Bool) (ps : List String) → All IsPart ps → tidy (or_dot rooted ps) ≡ true
tidy-or_dot true [] h = refl
tidy-or_dot false [] h = refl
tidy-or_dot rooted (p ∷ ps) h = tidy-join (p ∷ ps) h

tidy-normalize : (path : String) → tidy (normalize path) ≡ true
unfolding normalize
tidy-normalize path =
    tidy-or_dot (starts_with path "/") (kept_parts (split path))
      (kept_parts-IsPart (split path) (split-slash_free path))

-- What follows a slash in a normalised path does not begin with another.
pub lstrip-normalize :
    (path prefix rest : String)
    → normalize path ≡ prefix <> ("/" <> rest)
    → lstrip is_slash rest ≡ rest
lstrip-normalize path prefix rest h = tidy-lstrip rest (
    tidy_tail prefix (String.◌∷◌ "/" rest)
      (rw (← slash-append rest) (rw (← h) (tidy-normalize path))))
