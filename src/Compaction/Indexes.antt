-- ===== src/Compaction/Indexes.antt =====
-- `selected_indexes` of `publish_partial_compaction` in compaction.py is a range exactly when the
-- selected packs are one run of the stack.
use ccc_storage.Base.{
  ℕ, zero, suc, ◌+◌, ◌≤◌, ◌≡◌, refl, ap, ◌∙◌, ◌↔◌, inl, inr, true, String, List, [], ◌∷◌, ◌++◌, ok,
  arith, All, length, Bool-cases,
}
use ccc_storage.Manifest.{PackInfo}
use ccc_storage.Compaction.{contains, selected_indexes, range_from, same_indexes, head, get_last}
use ccc_storage.Compaction.Paths.{IsPicked, IsSpared}

pub same_indexes_iff : (xs ys : List ℕ) → (same_indexes xs ys ≡ true) ↔ (xs ≡ ys)
unfolding same_indexes
same_indexes_iff [] [] = (λ h. refl, λ h. refl)
same_indexes_iff [] (y ∷ ys) = (λ h. cc, λ h. cc)
same_indexes_iff (x ∷ xs) [] = (λ h. cc, λ h. cc)
same_indexes_iff (x ∷ xs) (y ∷ ys) = ground (arith, same_indexes_iff xs ys)

pub length-range_from : (first count : ℕ) → length (range_from first count) ≡ count
unfolding range_from
length-range_from first zero = refl
length-range_from first (suc count) = ap suc (length-range_from (first + 1) count)

pub head-range_from : (first count : ℕ) → head (range_from first (suc count)) ≡ ok first
unfolding range_from head
head-range_from first count = refl

pub get_last-range_from :
    (first count : ℕ) → get_last (range_from first (suc count)) ≡ ok (first + count)
unfolding range_from get_last
get_last-range_from first zero = ap ok (omega arith)
get_last-range_from first (suc count) = get_last-range_from (first + 1) count ∙ ap ok (omega arith)

eq-nil_of_length : (packs : List PackInfo) → length packs ≡ 0 → packs ≡ []
eq-nil_of_length [] h = refl
eq-nil_of_length (pack ∷ packs) h = absurd (omega arith)

cons-head : (x y : ℕ) (xs ys : List ℕ) → x ∷ xs ≡ y ∷ ys → x ≡ y
cons-head x y xs ys h = cc

cons-tail : (x y : ℕ) (xs ys : List ℕ) → x ∷ xs ≡ y ∷ ys → xs ≡ ys
cons-tail x y xs ys h = cc

module _ (paths : List String) where
  selected_indexes_spared :
      (idx : ℕ) (packs : List PackInfo)
      → All (IsSpared paths) packs
      → selected_indexes paths idx packs ≡ []
  unfolding selected_indexes
  selected_indexes_spared idx [] h = refl
  selected_indexes_spared idx (pack ∷ rest) h = rw h.0 (selected_indexes_spared (idx + 1) rest h.1)

  selected_indexes_picked :
      (idx : ℕ) (run newer : List PackInfo)
      → All (IsPicked paths) run
      → All (IsSpared paths) newer
      → selected_indexes paths idx (run ++ newer) ≡ range_from idx (length run)
  unfolding selected_indexes range_from
  selected_indexes_picked idx [] newer p s = selected_indexes_spared idx newer s
  selected_indexes_picked idx (pack ∷ run) newer p s =
      rw p.0 (ap (λ l. idx ∷ l) (selected_indexes_picked (idx + 1) run newer p.1 s))

  pub selected_indexes_run :
      (idx : ℕ) (older run newer : List PackInfo)
      → All (IsSpared paths) older
      → All (IsPicked paths) run
      → All (IsSpared paths) newer
      → selected_indexes paths idx (older ++ (run ++ newer))
        ≡ range_from (idx + length older) (length run)
  unfolding selected_indexes
  selected_indexes_run idx [] run newer b p s =
      selected_indexes_picked idx run newer p s
      ∙ ap (λ (n : ℕ). range_from n (length run)) (omega arith)
  selected_indexes_run idx (pack ∷ older) run newer b p s = rw b.0 (
      selected_indexes_run (idx + 1) older run newer b.1 p s
      ∙ ap (λ (n : ℕ). range_from n (length run)) (omega arith))

  -- A stack in which exactly the packs of one run are picked.
  pub record IsRun (packs : List PackInfo) (before count : ℕ) : Type 0 where
    pub older : List PackInfo
    pub run : List PackInfo
    pub newer : List PackInfo
    pub split : packs ≡ older ++ (run ++ newer)
    pub before_run : length older ≡ before
    pub in_run : length run ≡ count
    pub spared_older : All (IsSpared paths) older
    pub picked : All (IsPicked paths) run
    pub spared_newer : All (IsSpared paths) newer

  IsSpared-of_no_indexes :
      (idx : ℕ) (packs : List PackInfo)
      → selected_indexes paths idx packs ≡ []
      → All (IsSpared paths) packs
  unfolding selected_indexes
  IsSpared-of_no_indexes idx [] h = tt
  IsSpared-of_no_indexes idx (pack ∷ rest) h = elim (Bool-cases (contains paths pack.path)) [
    | inl here ↦ cc (rw here at h)
    | inr away ↦ (away, IsSpared-of_no_indexes (idx + 1) rest (rw away at h))
  ]

  selected_indexes-le :
      (idx first : ℕ) (rest : List ℕ) (packs : List PackInfo)
      → selected_indexes paths idx packs ≡ first ∷ rest
      → idx ≤ first
  unfolding selected_indexes
  selected_indexes-le idx first rest [] h = cc
  selected_indexes-le idx first rest (pack ∷ packs) h =
      elim (Bool-cases (contains paths pack.path)) [
        | inl here ↦ let e : idx ≡ first = cc (rw here at h) in omega arith
        | inr away ↦ omega (arith, selected_indexes-le (idx + 1) first rest packs (rw away at h))
      ]

  IsRun-alone :
      (pack : PackInfo) (packs : List PackInfo)
      → IsPicked paths pack
      → All (IsSpared paths) packs
      → IsRun (pack ∷ packs) 0 1
  IsRun-alone pack packs here rest = record {
    older = [];
    run = pack ∷ [];
    newer = packs;
    split = refl;
    before_run = refl;
    in_run = refl;
    spared_older = tt;
    picked = (here, tt);
    spared_newer = rest;
  }

  IsRun-extend :
      (count : ℕ) (pack : PackInfo) (packs : List PackInfo)
      → IsPicked paths pack
      → IsRun packs 0 count
      → IsRun (pack ∷ packs) 0 (suc count)
  IsRun-extend count pack packs here r = record {
    older = [];
    run = pack ∷ r.run;
    newer = r.newer;
    split =
        ap (λ l. pack ∷ l)
          (r.split ∙ ap (λ l. l ++ (r.run ++ r.newer)) (eq-nil_of_length r.older r.before_run));
    before_run = refl;
    in_run = ap suc r.in_run;
    spared_older = tt;
    picked = (here, r.picked);
    spared_newer = r.spared_newer;
  }

  IsRun-skip :
      (before count : ℕ) (pack : PackInfo) (packs : List PackInfo)
      → IsSpared paths pack
      → IsRun packs before count
      → IsRun (pack ∷ packs) (suc before) count
  IsRun-skip before count pack packs away r = record {
    older = pack ∷ r.older;
    run = r.run;
    newer = r.newer;
    split = ap (λ l. pack ∷ l) r.split;
    before_run = ap suc r.before_run;
    in_run = r.in_run;
    spared_older = (away, r.spared_older);
    picked = r.picked;
    spared_newer = r.spared_newer;
  }

  pub IsRun-of_indexes :
      (idx before count : ℕ) (packs : List PackInfo)
      → selected_indexes paths idx packs ≡ range_from (idx + before) (suc count)
      → IsRun packs before (suc count)
  unfolding selected_indexes range_from
  IsRun-of_indexes idx before count [] h = cc
  IsRun-of_indexes idx zero zero (pack ∷ packs) h = elim (Bool-cases (contains paths pack.path)) [
    | inl here ↦
        IsRun-alone pack packs here
          (IsSpared-of_no_indexes (idx + 1) packs (cons-tail _ _ _ _ (rw here at h)))
    | inr away ↦
        absurd (omega (arith, selected_indexes-le (idx + 1) (idx + 0) [] packs (rw away at h)))
  ]
  IsRun-of_indexes idx zero (suc count) (pack ∷ packs) h =
      elim (Bool-cases (contains paths pack.path)) [
        | inl here ↦ IsRun-extend (suc count) pack packs here (
            IsRun-of_indexes (idx + 1) zero count packs (
              cons-tail _ _ _ _ (rw here at h)
              ∙ ap (λ (n : ℕ). range_from n (suc count)) (omega arith)))
        | inr away ↦
            absurd (omega (arith, selected_indexes-le (idx + 1) (idx + 0) _ packs (rw away at h)))
      ]
  IsRun-of_indexes idx (suc before) count (pack ∷ packs) h =
      elim (Bool-cases (contains paths pack.path)) [
        | inl here ↦
            let e : idx ≡ idx + suc before = cons-head _ _ _ _ (rw here at h) in
            absurd (omega arith)
        | inr away ↦ IsRun-skip before (suc count) pack packs away (
            IsRun-of_indexes (idx + 1) before count packs
              (rw away at h ∙ ap (λ (n : ℕ). range_from n (suc count)) (omega arith)))
      ]
