-- ===== src/Commit/Mirroring.antt =====
-- A mirror in cold storage keeps the stack and the generation (mirror_committed_packs_to_cold_storage of
-- src/ccc_storage_cold/archive.py).
use ccc_storage.Base.{String, ◌≡◌, refl, true, Result, raised, ok}
use ccc_storage.Base.Action.{go_on}
use ccc_storage.Cold.{
  Machine, MirrorResult, mirror_committed_packs_to_cold_storage, manifest_with_cold_state,
  upload_all, put_manifest_object, dump_atomic, manifest_key,
}
use ccc_storage.Manifest.{ChildManifest}
use ccc_storage.Commit.{PackTool}

module _ (Blob : Type 0) (tool : PackTool Blob) where
  open tool use {Image, store, document}

  -- What a mirror returns has the stack and the generation.
  abbrev pub IsMirrorOf : ChildManifest → Machine Image store × Result MirrorResult → Type 0
  IsMirrorOf m (machine, raised e) = Unit
  IsMirrorOf m (machine, ok r) =
      (r.manifest.generation ≡ m.generation) × (r.manifest.pack_stack ≡ m.pack_stack)

  go_on-IsMirrorOf :
      {A : Type 0} (m : ChildManifest) (r : Machine Image store × Result A)
      (next : A → Machine Image store → Machine Image store × Result MirrorResult)
      → ((a : A) (k : Machine Image store) → IsMirrorOf m (next a k))
      → IsMirrorOf m (go_on r next)
  go_on-IsMirrorOf m (k, raised e) next h = tt
  go_on-IsMirrorOf m (k, ok a) next h = h a k

  pub mirror-IsMirrorOf :
      (m : ChildManifest) (path prefix backend stamp : String) (k : Machine Image store)
      → IsMirrorOf m (
          mirror_committed_packs_to_cold_storage Image store document m path prefix backend true
            stamp k)
  unfolding mirror_committed_packs_to_cold_storage
  mirror-IsMirrorOf m path prefix backend stamp k =
      go_on-IsMirrorOf m (upload_all Image store prefix m.pack_stack.lowers k) _ (λ keys k1.
        go_on-IsMirrorOf m
          (put_manifest_object Image store document (manifest_key prefix)
            (manifest_with_cold_state m prefix "hot" backend "mirror" stamp) k1)
          _
          (λ done k2.
            go_on-IsMirrorOf m
              (dump_atomic Image store path
                (manifest_with_cold_state m prefix "hot" backend "mirror" stamp) k2)
              _ (λ done k3. (refl, refl))))
