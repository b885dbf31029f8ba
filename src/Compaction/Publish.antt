-- ===== src/Compaction/Publish.antt =====
-- What `publish_partial_compaction` of compaction.py does to a pack stack.
use ccc_storage.Base.{
  ℕ, suc, ◌+◌, ◌-◌, ◌≡◌, refl, sym, ap, ◌∙◌, inl, inr, true, List, [], ◌∷◌, ◌++◌, ok, >>=-ok, arith,
  ◌==◌, length, take, drop, length-append, take-length, drop-length, Bool-cases,
}
use mathlib.Core.List.{append_assoc}
use ccc_storage.Manifest.{PackInfo, ChildManifest}
use ccc_storage.Compaction.{
  with_compaction_metadata, paths_of, selected_indexes, range_from, same_indexes, head, get_last,
  replace_lowers, replace_run, publish_at, publish_partial_compaction,
}
use ccc_storage.Compaction.Paths.{
  DistinctPaths, All-IsPicked_self, DistinctPaths-append_right, IsSpared-before, IsSpared-behind,
}
use ccc_storage.Compaction.Indexes.{
  same_indexes_iff, length-range_from, head-range_from, get_last-range_from, selected_indexes_run,
  IsRun, IsRun-of_indexes,
}

-- The result of a publication that replaces `run` between `older` and `newer`.
abbrev pub published :
    ChildManifest
    → List PackInfo
    → List PackInfo
    → List PackInfo
    → PackInfo
    → ℕ
    → ChildManifest × List PackInfo
published manifest older run newer new_pack target =
    (replace_lowers manifest (older ++ with_compaction_metadata new_pack run target ∷ newer), run)

cut_run :
    (older run newer : List PackInfo) (count : ℕ)
    → length run ≡ suc count
    → (take (length older) (older ++ (run ++ newer)) ≡ older)
      × (drop (length older) (take (length older + count + 1) (older ++ (run ++ newer))) ≡ run)
      × (drop (length older + count + 1) (older ++ (run ++ newer)) ≡ newer)
cut_run older run newer count e =
    let n : length older + count + 1 ≡ length (older ++ run) =
      omega (arith, length-append older run) in
    (
      take-length older (run ++ newer),
      rw (n, ← append_assoc older run newer, take-length (older ++ run) newer)
          (drop-length older run),
      rw (n, ← append_assoc older run newer) (drop-length (older ++ run) newer),
    )

eq_self : (n : ℕ) → (n == n) ≡ true
eq_self n = ground arith

same_indexes_range :
    (first count : ℕ)
    → same_indexes (range_from first (suc count)) (range_from first (first + count + 1 - first))
      ≡ true
same_indexes_range first count = (same_indexes_iff _ _).1 (ap (range_from first) (omega arith))

ok-inj {ℓ} : {A : Type ℓ} {a b : A} → ok a ≡ ok b → a ≡ b
ok-inj h = cc

module _ (manifest : ChildManifest) (new_pack : PackInfo) (target : ℕ) where
  replace_run_lem :
      (older run newer : List PackInfo) (count : ℕ)
      → manifest.pack_stack.lowers ≡ older ++ (run ++ newer)
      → length run ≡ suc count
      → replace_run manifest (length older) (length older + count) new_pack target
        ≡ published manifest older run newer new_pack target
  unfolding replace_run
  replace_run_lem older run newer count split e =
      let (a, b, c) = cut_run older run newer count e in rw (split, a, b, c)

  -- On a stack whose packs have distinct paths, publishing a run of at least one pack always
  -- succeeds, wherever the run stands. It puts the new pack, marked with the target level and the
  -- generations of the run, in the place of the run. The packs before and behind it, the active
  -- revision and the rest of the manifest stay, and the packs of the run are returned.
  pub publish_partial_compaction-run :
      (older : List PackInfo) (pack : PackInfo) (more newer : List PackInfo)
      → manifest.pack_stack.lowers ≡ older ++ (pack ∷ more ++ newer)
      → DistinctPaths manifest.pack_stack.lowers
      → publish_partial_compaction manifest (pack ∷ more) new_pack target
        ≡ ok (published manifest older (pack ∷ more) newer new_pack target)
  unfolding publish_partial_compaction
  publish_partial_compaction-run older pack more newer split distinct =
      let run = pack ∷ more in
      let distinct' = rw split at distinct in
      let indexes =
        selected_indexes_run (paths_of run) 0 older run newer
          (IsSpared-before older run newer distinct') (All-IsPicked_self run)
          (IsSpared-behind run newer (DistinctPaths-append_right older (run ++ newer) distinct')) in
      let e : selected_indexes (paths_of run) 0 manifest.pack_stack.lowers
          ≡ range_from (length older) (suc (length more)) =
        ap (selected_indexes (paths_of run) 0) split
        ∙ indexes
        ∙ ap (λ (n : ℕ). range_from n (suc (length more))) (omega arith) in
      rw (e, length-range_from, eq_self, head-range_from, get_last-range_from, same_indexes_range)
        (ap ok (replace_run_lem older run newer (length more) split refl))

  -- The indexes that pass the checks are a range.
  record IsAccepted (count : ℕ) (indexes : List ℕ) (result : ChildManifest × List PackInfo)
      : Type 0 where
    first : ℕ
    more : ℕ
    counted : count ≡ suc more
    ranged : indexes ≡ range_from first (suc more)
    replaced : result ≡ replace_run manifest first (first + more) new_pack target

  IsAccepted-of_range :
      (count first last : ℕ) (rest : List ℕ) (result : ChildManifest × List PackInfo)
      → length (first ∷ rest) ≡ count
      → get_last (first ∷ rest) ≡ ok last
      → first ∷ rest ≡ range_from first (last + 1 - first)
      → result ≡ replace_run manifest first last new_pack target
      → IsAccepted count (first ∷ rest) result
  IsAccepted-of_range count first last rest result n l r q =
      let m : last + 1 - first ≡ suc (length rest) =
        sym (ap length r ∙ length-range_from first (last + 1 - first)) in
      let ranged : first ∷ rest ≡ range_from first (suc (length rest)) =
        r ∙ ap (range_from first) m in
      let end : last ≡ first + length rest =
        ok-inj (sym l ∙ ap get_last ranged ∙ get_last-range_from first (length rest)) in
      record {
        first = first;
        more = length rest;
        counted = sym n;
        ranged = ranged;
        replaced = q ∙ ap (λ (k : ℕ). replace_run manifest first k new_pack target) end;
      }

  publish_at-IsAccepted :
      (count : ℕ) (indexes : List ℕ) (result : ChildManifest × List PackInfo)
      → publish_at manifest count indexes new_pack target ≡ ok result
      → IsAccepted count indexes result
  unfolding publish_at head
  publish_at-IsAccepted count [] result h = elim (Bool-cases (0 == count)) [
    | inl same ↦ cc (rw same at h)
    | inr differs ↦ cc (rw differs at h)
  ]
  publish_at-IsAccepted count (first ∷ rest) result h =
      elim (Bool-cases (length (first ∷ rest) == count)) [
        | inr differs ↦ cc (rw differs at h)
        | inl same ↦
            let h' = rw same at h in
            let (last, k, l) = >>=-ok (get_last (first ∷ rest)) _ result h' in
            elim (Bool-cases (same_indexes (first ∷ rest) (range_from first (last + 1 - first)))) [
              | inr bad ↦ cc (rw bad at k)
              | inl good ↦
                  IsAccepted-of_range count first last rest result (ground arith) l
                    ((same_indexes_iff _ _).0 good) (ok-inj (sym (rw good at k)))
            ]
      ]

  -- What a publication that succeeds has done.
  pub record IsPublished (selected : List PackInfo) (result : ChildManifest × List PackInfo)
      : Type 0 where
    pub before : ℕ
    pub more : ℕ
    pub counted : length selected ≡ suc more
    pub stretch : IsRun (paths_of selected) manifest.pack_stack.lowers before (suc more)
    pub same : result ≡ published manifest stretch.older stretch.run stretch.newer new_pack target

  IsPublished-of_run :
      (selected : List PackInfo) (result : ChildManifest × List PackInfo) (first more : ℕ)
      → length selected ≡ suc more
      → IsRun (paths_of selected) manifest.pack_stack.lowers first (suc more)
      → result ≡ replace_run manifest first (first + more) new_pack target
      → IsPublished selected result
  IsPublished-of_run selected result first more counted r q = record {
    before = first;
    more = more;
    counted = counted;
    stretch = r;
    same =
        q
        ∙ ap (λ (n : ℕ). replace_run manifest n (n + more) new_pack target) (sym r.before_run)
        ∙ replace_run_lem r.older r.run r.newer more r.split r.in_run;
  }

  -- Publishing succeeds only if the packs of the stack whose paths are selected are one run, as
  -- long as the selection and not empty. It then replaces that run, whatever else the stack holds.
  pub publish_partial_compaction-IsPublished :
      (selected : List PackInfo) (result : ChildManifest × List PackInfo)
      → publish_partial_compaction manifest selected new_pack target ≡ ok result
      → IsPublished selected result
  unfolding publish_partial_compaction
  publish_partial_compaction-IsPublished [] result h = cc
  publish_partial_compaction-IsPublished (pack ∷ more) result h =
      let a =
        publish_at-IsAccepted (length (pack ∷ more))
          (selected_indexes (paths_of (pack ∷ more)) 0 manifest.pack_stack.lowers) result h in
      IsPublished-of_run (pack ∷ more) result a.first a.more a.counted
        (IsRun-of_indexes (paths_of (pack ∷ more)) 0 a.first a.more manifest.pack_stack.lowers
          (a.ranged ∙ ap (λ (n : ℕ). range_from n (suc a.more)) (omega arith)))
        a.replaced
