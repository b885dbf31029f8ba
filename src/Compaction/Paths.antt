-- ===== src/Compaction/Paths.antt =====
-- Which packs of a stack have a path among those of a selection (compaction.py).
use text.Mathlib.TextEquality.{eq_iff}
use text.Mathlib.TextPositions.{eq_refl}
use ccc_storage.Base.{◌≡◌, refl, String, true, false, List, [], ◌∷◌, ◌++◌, arith, All}
use ccc_storage.Manifest.{PackInfo}
use ccc_storage.Compaction.{contains, paths_of}

abbrev pub IsPicked : List String → PackInfo → Type 0
IsPicked paths pack = contains paths pack.path ≡ true

abbrev pub IsSpared : List String → PackInfo → Type 0
IsSpared paths pack = contains paths pack.path ≡ false

-- No two packs have one path.
abbrev pub DistinctPaths : List PackInfo → Type 0
DistinctPaths [] = Unit
DistinctPaths (pack ∷ rest) = IsSpared (paths_of rest) pack × DistinctPaths rest

All-IsPicked_cons :
    (path : String) (paths : List String) (packs : List PackInfo)
    → All (IsPicked paths) packs
    → All (IsPicked (path ∷ paths)) packs
All-IsPicked_cons path paths [] h = tt
All-IsPicked_cons path paths (pack ∷ rest) h =
    (ground (arith, h.0), All-IsPicked_cons path paths rest h.1)

pub All-IsPicked_self : (packs : List PackInfo) → All (IsPicked (paths_of packs)) packs
All-IsPicked_self [] = tt
All-IsPicked_self (pack ∷ rest) = (
  ground (arith, eq_refl pack.path),
  All-IsPicked_cons pack.path (paths_of rest) rest (All-IsPicked_self rest),
)

contains-append_left :
    (xs ys : List PackInfo) (path : String)
    → contains (paths_of (xs ++ ys)) path ≡ false
    → contains (paths_of xs) path ≡ false
contains-append_left [] ys path h = refl
contains-append_left (x ∷ xs) ys path h = ground (arith, contains-append_left xs ys path)

contains-append_right :
    (xs ys : List PackInfo) (path : String)
    → contains (paths_of (xs ++ ys)) path ≡ false
    → contains (paths_of ys) path ≡ false
contains-append_right [] ys path h = h
contains-append_right (x ∷ xs) ys path h = contains-append_right xs ys path (ground arith)

pub DistinctPaths-append_right :
    (xs ys : List PackInfo) → DistinctPaths (xs ++ ys) → DistinctPaths ys
DistinctPaths-append_right [] ys h = h
DistinctPaths-append_right (x ∷ xs) ys h = DistinctPaths-append_right xs ys h.1

-- The packs before a run are not among its paths.
pub IsSpared-before :
    (older run newer : List PackInfo)
    → DistinctPaths (older ++ (run ++ newer))
    → All (IsSpared (paths_of run)) older
IsSpared-before [] run newer h = tt
IsSpared-before (pack ∷ older) run newer h = (
  contains-append_left run newer pack.path
      (contains-append_right older (run ++ newer) pack.path h.0),
  IsSpared-before older run newer h.1,
)

IsSpared-cons :
    (first : PackInfo) (paths : List String) (packs : List PackInfo)
    → contains (paths_of packs) first.path ≡ false
    → All (IsSpared paths) packs
    → All (IsSpared (first.path ∷ paths)) packs
IsSpared-cons first paths [] h all = tt
IsSpared-cons first paths (pack ∷ rest) h all = (
  ground (arith, all.0, eq_iff first.path pack.path, eq_iff pack.path first.path),
  IsSpared-cons first paths rest (ground arith) all.1,
)

IsSpared-nil : (packs : List PackInfo) → All (IsSpared []) packs
IsSpared-nil [] = tt
IsSpared-nil (pack ∷ rest) = (refl, IsSpared-nil rest)

-- Nor are those behind it.
pub IsSpared-behind :
    (run newer : List PackInfo) → DistinctPaths (run ++ newer) → All (IsSpared (paths_of run)) newer
IsSpared-behind [] newer h = IsSpared-nil newer
IsSpared-behind (pack ∷ run) newer h =
    IsSpared-cons pack (paths_of run) newer (contains-append_right run newer pack.path h.0)
      (IsSpared-behind run newer h.1)
