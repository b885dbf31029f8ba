-- ===== src/Commit/Building.antt =====
-- What the build of a commit leaves, whether it returns or raises (`_publish_commit` of
-- src/ccc_storage_mountd/daemon.py).
use ccc_storage.Base.{
  String, ℕ, ◌≡◌, refl, ap, Bool, true, false, Option, none, some, List, [], ◌∷◌, ◌++◌, map, Result,
  raised, ok, str_eq, str_eq_iff, arith,
}
use ccc_storage.Base.Action.{go_on}
use ccc_storage.CommitPolicy.{Clock}
use ccc_storage.Levels.{choose_initial_level}
use ccc_storage.Manifest.{ChildManifest, PackInfo}
use ccc_storage.Overlay.{Entries, copytree}
use ccc_storage.Commit.{
  PackTool, NumberText, Service, Child, put_pack, lift, inspected, build_pack, build_delta,
  verify_pack, delta_path, leveled, updated, publish_manifest, publish_commit,
}

module _ (Blob : Type 0) (tool : PackTool Blob) where
  open tool use {Image, mksquashfs, contents}

  -- A pack that the program wrote shows the tree that it was given.
  pub record IsLawful : Type 0 where
    pub shows :
        (tree : Entries Blob) (old : Option Image) (image : Image)
        → mksquashfs tree old ≡ (some image, true)
        → contents image ≡ tree

  abbrev pub layer : Option Image → Option (Entries Blob)
  layer none = none
  layer (some image) = some (contents image)

  -- What the packs of a stack show, the oldest first.
  abbrev pub layers_of : (String → Option Image) → List PackInfo → List (Option (Entries Blob))
  layers_of packs = map (λ (pack : PackInfo). layer (packs pack.path))

  -- No pack of the stack is at the path.
  unfoldable pub IsNew : String → List PackInfo → Type 0
  IsNew out [] = Unit
  IsNew out (pack ∷ rest) = (str_eq out pack.path ≡ false) × IsNew out rest

  abbrev pub IsSameElsewhere : String → (String → Option Image) → (String → Option Image) → Type 0
  IsSameElsewhere out packs packs' = (p : String) → str_eq out p ≡ false → packs' p ≡ packs p

  pub layers_of-same :
      (out : String) (packs packs' : String → Option Image) (lowers : List PackInfo)
      → IsNew out lowers
      → IsSameElsewhere out packs packs'
      → layers_of packs' lowers ≡ layers_of packs lowers
  unfolding IsNew
  layers_of-same out packs packs' [] new same = refl
  layers_of-same out packs packs' (pack ∷ rest) (differs, new) same =
      let e : layer (packs' pack.path) ≡ layer (packs pack.path) =
        ap layer (same pack.path differs) in
      rw (e, layers_of-same out packs packs' rest new same) refl

  pub layers_of-append :
      (packs : String → Option Image) (lowers more : List PackInfo)
      → layers_of packs (lowers ++ more) ≡ layers_of packs lowers ++ layers_of packs more
  layers_of-append packs [] more = refl
  layers_of-append packs (pack ∷ rest) more =
      ap (λ l. layer (packs pack.path) ∷ l) (layers_of-append packs rest more)

module _ (clock : Clock) (Blob : Type 0) (size_of : Blob → ℕ) (tool : PackTool Blob)
    (text : NumberText) (lawful : IsLawful Blob tool) where
  open tool use {Image, mksquashfs, contents}

  abbrev S : Type 0
  S = Child clock Blob size_of tool text

  -- Only packs at `out` are changed.
  abbrev pub IsPut : String → S → S → Type 0
  IsPut out s u = (u ≡ record s { packs = u.packs }) × IsSameElsewhere Blob tool out s.packs u.packs

  abbrev IsPacked : String → Option (Entries Blob) → S → S × Result PackInfo → Type 0
  IsPacked out source s (u, raised e) = IsPut out s u
  IsPacked out source s (u, ok pack) =
      IsPut out s u
      × (pack.path ≡ out)
      × ((tree : Entries Blob) × (source ≡ some tree)
          × (layer Blob tool (u.packs out) ≡ some (copytree Blob tree)))

  put_pack-IsPut :
      (out : String) (image : Option Image) (s : S)
      → IsPut out s (put_pack clock Blob size_of tool text out image s)
  put_pack-IsPut out image s = (refl, λ p differs. rw differs refl)

  inspected-IsPacked :
      (out : String) (tree : Entries Blob) (s : S) (r : Option Image × Bool)
      → mksquashfs (copytree Blob tree) (s.packs out) ≡ r
      → IsPacked out
          (some tree)
          s
          (inspected clock Blob size_of tool text out (copytree Blob tree) s r)
  inspected-IsPacked out tree s (image, false) is = put_pack-IsPut out image s
  inspected-IsPacked out tree s (none, true) is = put_pack-IsPut out none s
  inspected-IsPacked out tree s (some image, true) is = (
    put_pack-IsPut out (some image) s,
    refl,
    (
      tree,
      refl,
      ground (arith, str_eq_iff out out, lawful.shows (copytree Blob tree) (s.packs out) image is),
    ),
  )

  build_delta-IsPacked :
      (out : String) (source : Option (Entries Blob)) (s : S)
      → IsPacked out source s (build_delta clock Blob size_of tool text source out s)
  unfolding build_pack
  build_delta-IsPacked out none s = (refl, λ p differs. refl)
  build_delta-IsPacked out (some tree) s = inspected-IsPacked out tree s _ refl

  module _ (service : Service clock Blob size_of tool text) (manifest : ChildManifest)
      (source : Option (Entries Blob)) (generation : ℕ) (mode : String) (cleanup : S → S) where
    abbrev out : String
    out = delta_path clock Blob size_of tool text service manifest.id generation

    -- A build that raises has changed packs at the new path alone. One that returns has put there a
    -- pack that shows the source, devices left out, and the manifest has it on top of its stack.
    abbrev pub IsBuilt : S → S × Result ChildManifest → Type 0
    IsBuilt s (u, raised e) = IsPut out s u
    IsBuilt s (u, ok m) =
        (pack : PackInfo) × (v : S) × IsPut out s v
        × (u ≡ cleanup (record v { manifest = m }))
        × (m ≡ updated clock Blob size_of tool text service manifest generation mode pack)
        × (pack.path ≡ out)
        × ((tree : Entries Blob) × (source ≡ some tree)
            × (layer Blob tool (v.packs out) ≡ some (copytree Blob tree)))

    abbrev level_of : ℕ → PackInfo → PackInfo
    level_of level pack = leveled clock Blob size_of tool text generation level pack

    abbrev publish : ℕ → PackInfo → S → S × Result ChildManifest
    publish level pack =
        publish_manifest clock Blob size_of tool text
          (updated clock Blob size_of tool text service manifest generation mode
            (level_of level pack))
          cleanup

    verified-IsBuilt :
        (s u : S) (pack : PackInfo) (level : ℕ) (answer : Result {0} Unit)
        → IsPacked out source s (u, ok pack)
        → IsBuilt s (go_on (u, answer) (λ done. publish level pack))
    verified-IsBuilt s u pack level (raised e) (put, at_out, shown) = put
    verified-IsBuilt s u pack level (ok done) (put, at_out, shown) =
        (level_of level pack, u, put, refl, refl, at_out, shown)

    leveled-IsBuilt :
        (s u : S) (pack : PackInfo) (answer : Result ℕ)
        → IsPacked out source s (u, ok pack)
        → IsBuilt s (
            go_on
              (u, answer)
              (λ level v.
                go_on
                  (lift clock Blob size_of tool text
                    (verify_pack clock Blob size_of tool text out (level_of level pack) v)
                    v)
                  (λ done. publish level pack)))
    leveled-IsBuilt s u pack (raised e) (put, at_out, shown) = put
    leveled-IsBuilt s u pack (ok level) packed = verified-IsBuilt s u pack level _ packed

    packed-IsBuilt :
        (s : S) (r : S × Result PackInfo)
        → IsPacked out source s r
        → IsBuilt s (
            go_on r (λ pack u.
              go_on
                (u, choose_initial_level service.level_policy pack.size)
                (λ level v.
                  go_on
                    (lift clock Blob size_of tool text
                      (verify_pack clock Blob size_of tool text out (level_of level pack) v)
                      v)
                    (λ done. publish level pack))))
    packed-IsBuilt s (u, raised e) put = put
    packed-IsBuilt s (u, ok pack) packed =
        leveled-IsBuilt s u pack (choose_initial_level service.level_policy pack.size) packed

    pub build-IsBuilt :
        (s : S)
        → IsBuilt s (
            publish_commit clock Blob size_of tool text service manifest source generation mode
              cleanup s)
    unfolding publish_commit
    build-IsBuilt s =
        packed-IsBuilt s (build_delta clock Blob size_of tool text source out s)
          (build_delta-IsPacked out source s)
