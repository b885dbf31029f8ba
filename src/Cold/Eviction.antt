-- ===== src/Cold/Eviction.antt =====
-- Removing the hot files of packs (archive.py).
use ccc_storage.Base.{
  String, ◌≡◌, refl, sym, ap, Result, raised, ok, os_error, All, ◌∙◌, Bool, true, false, Option,
  none, some, List, [], ◌∷◌, if◌then◌else◌, arith, Option-cases, ◌||◌, inl, inr, str_eq, str_eq_iff,
}
use ccc_storage.Base.Dict.{lookup, discard, lookup-discard}
use ccc_storage.Manifest.{PackInfo}
use ccc_storage.ObjectStore.{ObjectStore}
use ccc_storage.Cold.Upload.{go_on-ok}
use ccc_storage.Cold.{Machine, unlink_found, remove_all}

-- The path is one of the packs'.
abbrev pub is_path_of : List PackInfo → String → Bool
is_path_of [] other = false
is_path_of (p ∷ rest) other = str_eq p.path other || is_path_of rest other

module _ (Blob : Type 0) (store : ObjectStore Blob) where
  -- An eviction that returns has removed the files at these paths, and nothing else.
  abbrev pub IsEvicted : (String → Bool) → Machine Blob store → Machine Blob store → Type 0
  IsEvicted gone m after =
      ((other : String)
        → lookup after.files other ≡ (if gone other then none else lookup m.files other))
      × (after.objects ≡ m.objects)
      × (after.documents ≡ m.documents)

  abbrev deleted : PackInfo → Machine Blob store → Bool → Machine Blob store × Result (List String)
  deleted p m refused =
      if refused
      then (m, raised os_error)
      else (record m { files = discard m.files p.path }, ok (p.path ∷ []))

  deleted-IsEvicted :
      (p : PackInfo) (m after : Machine Blob store) (removed : List String) (refused : Bool)
      → deleted p m refused ≡ (after, ok removed)
      → IsEvicted (str_eq p.path) m after
  deleted-IsEvicted p m after removed true h = absurd (cc)
  deleted-IsEvicted p m after removed false h =
      let same = ap (λ (t : Machine Blob store × Result (List String)). t.0) h in
      (
        λ other.
            ap (λ (n : Machine Blob store). lookup n.files other) (sym same)
            ∙ lookup-discard m.files p.path other,
        ap (λ (n : Machine Blob store). n.objects) (sym same),
        ap (λ (n : Machine Blob store). n.documents) (sym same),
      )

  unlinked-IsEvicted :
      (p : PackInfo) (m after : Machine Blob store) (removed : List String) (o : Option Blob)
      → lookup m.files p.path ≡ o
      → unlink_found Blob store p m o ≡ (after, ok removed)
      → IsEvicted (str_eq p.path) m after
  unlinked-IsEvicted p m after removed none gone h =
      let same = ap (λ (t : Machine Blob store × Result (List String)). t.0) h in
      (
        λ other.
            ap (λ (n : Machine Blob store). lookup n.files other) (sym same)
            ∙ ground (arith, gone, str_eq_iff p.path other),
        ap (λ (n : Machine Blob store). n.objects) (sym same),
        ap (λ (n : Machine Blob store). n.documents) (sym same),
      )
  unlinked-IsEvicted p m after removed (some b) there h =
      deleted-IsEvicted p m after removed (m.refuses p.path) h

  pub remove_all-IsEvicted :
      (packs : List PackInfo) (m after : Machine Blob store) (removed : List String)
      → remove_all Blob store packs m ≡ (after, ok removed)
      → IsEvicted (is_path_of packs) m after
  unfolding remove_all
  remove_all-IsEvicted [] m after removed h =
      let same = ap (λ (t : Machine Blob store × Result (List String)). t.0) h in
      (
        λ other. ap (λ (n : Machine Blob store). lookup n.files other) (sym same),
        ap (λ (n : Machine Blob store). n.objects) (sym same),
        ap (λ (n : Machine Blob store). n.documents) (sym same),
      )
  remove_all-IsEvicted (p ∷ rest) m after removed h =
      let (first, mid, unlinks, h1) =
        go_on-ok (unlink_found Blob store p m (lookup m.files p.path)) _ after removed h in
      let (later, end, removes, h2) =
        go_on-ok (remove_all Blob store rest mid) _ after removed h1 in
      let (f1, o1, d1) = unlinked-IsEvicted p m mid first _ refl unlinks in
      let (f2, o2, d2) = remove_all-IsEvicted rest mid end later removes in
      let same = ap (λ (t : Machine Blob store × Result (List String)). t.0) h2 in
      (
        λ other.
            ap (λ (n : Machine Blob store). lookup n.files other) (sym same)
            ∙ f2 other
            ∙ ground (arith, f1 other),
        ap (λ (n : Machine Blob store). n.objects) (sym same) ∙ o2 ∙ o1,
        ap (λ (n : Machine Blob store). n.documents) (sym same) ∙ d2 ∙ d1,
      )

  -- An eviction returns if the disk deletes every file.
  pub remove_all-returns :
      (packs : List PackInfo) (m : Machine Blob store)
      → All (λ p. m.refuses p.path ≡ false) packs
      → (after : Machine Blob store) × (removed : List String) × (remove_all Blob store packs m
          ≡ (after, ok removed))
  unfolding remove_all
  remove_all-returns [] m free = (m, [], refl)
  remove_all-returns (p ∷ rest) m (here, free) = elim (Option-cases (lookup m.files p.path)) [
    | inl gone ↦
        let (after, removed, removes) = remove_all-returns rest m free in
        (after, removed, rw (gone, removes) refl)
    | inr (b, there) ↦
        let next : Machine Blob store = record m { files = discard m.files p.path } in
        let (after, removed, removes) = remove_all-returns rest next free in
        (after, p.path ∷ removed, rw (there, here, removes) refl)
  ]
