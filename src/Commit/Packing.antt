-- ===== src/Commit/Packing.antt =====
-- The building of a partial compaction changes no more of a child than its new pack
-- (build_partial_compaction of src/ccc_storage_mountd/workers/compaction.py).
use ccc_storage.Base.{
  String, ℕ, ◌≡◌, refl, Bool, true, false, Option, none, some, List, [], ◌∷◌, str_eq, Result,
  raised, ok,
}
use ccc_storage.Base.Action.{go_on}
use ccc_storage.CommitPolicy.{Clock}
use ccc_storage.Manifest.{PackInfo}
use ccc_storage.Overlay.{Entries, nil}
use ccc_storage.Commit.{PackTool, NumberText, Child, inspected, build_pack, verify_pack, put_pack}
use ccc_storage.Commit.Following.{merge_all, compacted_pack, build_from, build_partial_compaction}

module _ (clock : Clock) (Blob : Type 0) (size_of : Blob → ℕ) (tool : PackTool Blob)
    (text : NumberText) where
  open tool use {Image, mksquashfs}

  abbrev S : Type 0
  S = Child clock Blob size_of tool text

  -- All packs but the one at this path stay.
  abbrev pub IsElsewhere : String → S → S → Type 0
  IsElsewhere out v u = (other : String) → str_eq out other ≡ false → u.packs other ≡ v.packs other

  -- A step that changes packs alone.
  abbrev pub IsPack : String → S → S → Type 0
  IsPack out v u = (u ≡ record v { packs = u.packs }) × IsElsewhere out v u

  abbrev pub IsPacking : {A : Type 0} → String → S → S × Result A → Type 0
  IsPacking out v (u, answer) = IsPack out v u

  elsewhere :
      (out : String) (v : S) (image : Option Image)
      → IsElsewhere out v (put_pack clock Blob size_of tool text out image v)
  elsewhere out v image other away = rw away refl

  inspected-IsPacking :
      (out : String) (tree : Entries Blob) (v : S) (r : Option Image × Bool)
      → IsPacking out v (inspected clock Blob size_of tool text out tree v r)
  inspected-IsPacking out tree v (image, false) = (refl, elsewhere out v image)
  inspected-IsPacking out tree v (none, true) = (refl, elsewhere out v none)
  inspected-IsPacking out tree v (some image, true) = (refl, elsewhere out v (some image))

  checked-IsPacking :
      {A : Type 0} (out : String) (v u : S) (answer : Result {0} Unit) (a : A)
      → IsPack out v u
      → IsPacking out v (go_on (u, answer) (λ done t. (t, ok a)))
  checked-IsPacking out v u (raised e) a h = h
  checked-IsPacking out v u (ok done) a h = h

  built-IsPacking :
      (selected : List PackInfo) (out : String) (target : ℕ) (v : S) (r : S × Result PackInfo)
      → IsPacking out v r
      → IsPacking out v (go_on r (compacted_pack clock Blob size_of tool text selected out target))
  built-IsPacking selected out target v (u, raised e) h = h
  built-IsPacking selected out target v (u, ok pack) h =
      checked-IsPacking out v u (verify_pack clock Blob size_of tool text out pack u) _ h

  merged-IsPacking :
      (selected : List PackInfo) (out : String) (target : ℕ) (v : S) (view : Result (Entries Blob))
      → IsPacking out v (build_from clock Blob size_of tool text selected out target v view)
  unfolding build_pack
  merged-IsPacking selected out target v (raised e) = (refl, λ other away. refl)
  merged-IsPacking selected out target v (ok view) =
      built-IsPacking selected out target v (build_pack clock Blob size_of tool text view out v)
        (inspected-IsPacking out view v (mksquashfs view (v.packs out)))

  pub compaction-IsPacking :
      (selected : List PackInfo) (out : String) (target : ℕ) (v : S)
      → IsPacking out v
          (build_partial_compaction clock Blob size_of tool text selected out target v)
  unfolding build_partial_compaction
  compaction-IsPacking [] out target v = (refl, λ other away. refl)
  compaction-IsPacking (pack ∷ rest) out target v =
      merged-IsPacking (pack ∷ rest) out target v
        (merge_all clock Blob size_of tool text (pack ∷ rest) v.packs nil)
