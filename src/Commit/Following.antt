-- ===== src/Commit/Following.antt =====
-- What follows a commit, if the service is configured so: the compaction of the newest packs and the
-- mirror in cold storage (`_build_commit_from_source`, `_compact_if_needed` and
-- `_mirror_after_commit_if_configured` of src/ccc_storage_mountd/daemon.py, and
-- build_partial_compaction of src/ccc_storage_mountd/workers/compaction.py).
use Prim.Native.String.{◌++◌ as ◌<>◌}
use ccc_storage.Base.{
  String, ℕ, Bool, true, false, not, Option, none, some, List, [], ◌∷◌, Result, raised, ok,
  compaction_error, if◌then◌else◌,
}
use ccc_storage.Base.{◌>>=◌ as ◌>>>◌}
use ccc_storage.Base.Action.{◌>>=◌, go_on}
use ccc_storage.Base.Dict.{Dict}
use ccc_storage.Base.Text.{is_slash, strip}
use ccc_storage.CommitPolicy.{Clock}
use ccc_storage.Cold.{Machine, MirrorResult, mirror_committed_packs_to_cold_storage}
use ccc_storage.Compaction.{
  generation_mins, generation_maxes, min_or, max_or, with_compaction_metadata,
  publish_partial_compaction,
}
use ccc_storage.Levels.{
  BlockedReason, not_blocked, base_compaction, online_budget, CompactionCandidate,
  plan_level_compaction,
}
use ccc_storage.Manifest.{ChildManifest, PackInfo}
use ccc_storage.Names.{safe_namespace_name}
use ccc_storage.Overlay.{Entries, nil}
use ccc_storage.Commit.{
  PackTool, NumberText, Service, Child, lift, build_pack, verify_pack, publish_commit,
}
use ccc_storage.Commit.Merge.{merge_extracted_layer}

module _ (clock : Clock) (Blob : Type 0) (size_of : Blob → ℕ) (tool : PackTool Blob)
    (text : NumberText) where
  open clock use {Seconds}
  open tool use {Image, unsquashfs, store, document}

  abbrev S : Type 0
  S = Child clock Blob size_of tool text

  abbrev P : Type 0
  P = Service clock Blob size_of tool text

  -- The packs are extracted and merged from the oldest on.
  unfoldable pub merge_all :
      List PackInfo → (String → Option Image) → Entries Blob → Result (Entries Blob)
  merge_all [] packs view = ok view
  merge_all (pack ∷ rest) packs view = unsquashfs (packs pack.path) >>> λ layer.
      merge_extracted_layer Blob layer view >>> λ merged. merge_all rest packs merged

  -- The pack that was built, once it is verified.
  abbrev pub compacted_pack : List PackInfo → String → ℕ → PackInfo → S → S × Result PackInfo
  compacted_pack selected out target_level pack s =
      (lift clock Blob size_of tool text (verify_pack clock Blob size_of tool text out pack s)
          >>= λ checked s. (s, ok (with_compaction_metadata pack selected target_level)))
        s

  abbrev pub build_from :
      List PackInfo → String → ℕ → S → Result (Entries Blob) → S × Result PackInfo
  build_from selected out target_level s (raised e) = (s, raised e)
  build_from selected out target_level s (ok view) =
      go_on (build_pack clock Blob size_of tool text view out s)
        (compacted_pack selected out target_level)

  unfoldable pub build_partial_compaction : List PackInfo → String → ℕ → S → S × Result PackInfo
  build_partial_compaction [] out target_level s = (s, raised compaction_error)
  build_partial_compaction (pack ∷ rest) out target_level s =
      build_from (pack ∷ rest) out target_level s (merge_all (pack ∷ rest) s.packs nil)

  -- `_compaction_output_path`
  abbrev pub compaction_output_path : P → ChildManifest → ℕ → List PackInfo → String
  compaction_output_path service manifest target_level selected =
      service.state_root
      <> ("/packs/"
          <> (safe_namespace_name manifest.id
              <> ("/compact-L"
                  <> (text.plain target_level
                      <> ("-g"
                          <> (text.padded (min_or manifest.generation (generation_mins selected))
                              <> ("-g"
                                  <> (text.padded
                                        (max_or manifest.generation (generation_maxes selected))
                                      <> ".sqfs"))))))))

  abbrev pub is_blocked : BlockedReason → Bool
  is_blocked not_blocked = false
  is_blocked (base_compaction level) = true
  is_blocked (online_budget total most) = true

  abbrev pub dumped_compaction :
      S → Result (ChildManifest × List PackInfo) → S × Result (Option ChildManifest)
  dumped_compaction s (raised e) = (s, raised e)
  dumped_compaction s (ok (manifest, retired)) =
      (record s { manifest = manifest }, ok (some manifest))

  abbrev pub publish_compaction :
      ChildManifest → CompactionCandidate → S × Result PackInfo → S × Result (Option ChildManifest)
  publish_compaction manifest c (s, raised e) = (s, raised e)
  publish_compaction manifest c (s, ok pack) =
      dumped_compaction s (publish_partial_compaction manifest c.packs pack c.target_level)

  abbrev pub compact_planned :
      P
      → ChildManifest
      → S
      → Result (Option CompactionCandidate)
      → S × Result (Option ChildManifest)
  compact_planned service manifest s (raised e) = (s, raised e)
  compact_planned service manifest s (ok none) = (s, ok none)
  compact_planned service manifest s (ok (some c)) =
      if is_blocked c.blocked_reason
      then (s, ok none)
      else publish_compaction manifest c (
          build_partial_compaction c.packs
            (compaction_output_path service manifest c.target_level c.packs) c.target_level s)

  -- `_compact_if_needed`
  unfoldable pub compact_if_needed :
      P → Bool → ChildManifest → S → S × Result (Option ChildManifest)
  compact_if_needed service allow_base manifest s =
      compact_planned service manifest s
        (plan_level_compaction manifest.pack_stack.lowers service.level_policy allow_base)

  -- The packs of a stack as files.
  abbrev pub found_file : String → Option Image → Dict Image → Dict Image
  found_file path none rest = rest
  found_file path (some image) rest = (path, image) ∷ rest

  abbrev pub files_of : (String → Option Image) → List PackInfo → Dict Image
  files_of packs [] = []
  files_of packs (pack ∷ rest) = found_file pack.path (packs pack.path) (files_of packs rest)

  abbrev pub cold_prefix_of : P → ChildManifest → String
  cold_prefix_of service manifest =
      strip is_slash service.cold_prefix
      <> ("/children/"
          <> (safe_namespace_name manifest.id <> ("/g" <> text.padded manifest.generation)))

  abbrev pub mirrored_child :
      S → Machine Image store × Result MirrorResult → S × Result ChildManifest
  mirrored_child s (machine, raised e) = (record s { objects = machine.objects }, raised e)
  mirrored_child s (machine, ok r) =
      (record s { objects = machine.objects; manifest = r.manifest }, ok r.manifest)

  -- `_mirror_after_commit_if_configured`. The manifest is written last.
  unfoldable pub mirror_after_commit : P → ChildManifest → S → S × Result ChildManifest
  mirror_after_commit service manifest s =
      if not service.mirrors_after_commit
      then (s, ok manifest)
      else mirrored_child s (
          mirror_committed_packs_to_cold_storage Image store document manifest "manifest"
            (cold_prefix_of service manifest) service.backend true service.stamp
            (record {
              files = files_of s.packs manifest.pack_stack.lowers;
              documents = [];
              objects = s.objects;
              refuses = λ path. false;
            }))

  abbrev pub compact_after_commit : P → ChildManifest → S → S × Result (Option ChildManifest)
  compact_after_commit service manifest s =
      if service.level_policy.trigger_after_commit
      then compact_if_needed service false manifest s
      else (s, ok none)

  abbrev pub mirror_compacted :
      P → ChildManifest → Option ChildManifest → S → S × Result ChildManifest
  mirror_compacted service manifest none = mirror_after_commit service manifest
  mirror_compacted service manifest (some compacted) = mirror_after_commit service compacted

  unfoldable pub after_commit : P → ChildManifest → S → S × Result ChildManifest
  after_commit service manifest =
      compact_after_commit service manifest >>= mirror_compacted service manifest

  -- `_build_commit_from_source`
  unfoldable pub build_commit_from_source :
      P
      → ChildManifest
      → Option (Entries Blob)
      → ℕ
      → String
      → (S → S)
      → S
      → S × Result ChildManifest
  build_commit_from_source service manifest source new_generation overlay_mode cleanup =
      publish_commit clock Blob size_of tool text service manifest source new_generation
        overlay_mode cleanup
      >>= after_commit service
