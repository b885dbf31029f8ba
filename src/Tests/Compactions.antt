-- ===== src/Tests/Compactions.antt =====
-- A commit that is followed by the compaction of the two newest packs (daemon.py, compaction.py).
use ccc_storage.Base.{ℕ, ◌≡◌, refl, none, some, [], ◌∷◌, map, str_eq, Result, ok, if◌then◌else◌}
use ccc_storage.Levels.{plan_level_compaction, choose_initial_level}
use ccc_storage.Locks.{acquire, release}
use ccc_storage.Manifest.{PackInfo, ChildManifest}
use ccc_storage.Names.{safe_namespace_name, quote}
use ccc_storage.Overlay.{Entries, cons, nil, file, files_in, copytree}
use ccc_storage.Compaction.{
  publish_partial_compaction, selected_indexes, range_from, same_indexes, head, get_last,
  replace_run,
}
use ccc_storage.Commit.{Service, Child, publish_commit, build_pack, verify_pack}
use ccc_storage.Commit.Merge.{
  merge_extracted_layer, clear_below, merge_below, merge_level, put_entry, remove_entry, find_entry,
}
use ccc_storage.Commit.Following.{
  build_commit_from_source, after_commit, compact_if_needed, build_partial_compaction, merge_all,
  mirror_after_commit,
}
use ccc_storage.Commit.Calls.{handle_commit, commit_shared_nfs, with_commit_lock}
use ccc_storage.Tests.Commits.{same, tool, text, service, child}
use ccc_storage.Tests.Stacks.{policy, pack_at}
use ccc_storage.Tests.Ticks.{seconds}

abbrev older : Entries ℕ
older = cons "a" (file 1) (cons "b" (file 2) nil)

abbrev newer : Entries ℕ
newer = cons ".wh.a" (file 0) (cons "c" (file 5) nil)

abbrev merged : Entries ℕ
merged = cons "b" (file 2) (cons ".wh.a" (file 0) (cons "c" (file 5) nil))

abbrev compacting : Service seconds ℕ same tool text
compacting = record (service tool) { level_policy = policy }

abbrev before : Child seconds ℕ same tool text
before = record (child tool [] (some newer)) {
  manifest = record ((child tool [] none).manifest) {
    pack_stack = record {
      active_revision = "g4";
      lowers = pack_at "base" 900 0 1 ∷ pack_at "old" 7 2 4 ∷ [];
    };
  };
  packs = λ path. if str_eq path "old" then some older else none;
}

abbrev outcome : Child seconds ℕ same tool text × Result ChildManifest
outcome = handle_commit seconds ℕ same tool text compacting none 10 before

-- The whiteout and the newer file are on the older files, and the base stays.
compacted_commit :
    (map (λ (p : PackInfo). p.path) outcome.0.manifest.pack_stack.lowers
      ≡ "base" ∷ "/nfs/packs/a/compact-L5-g0005-g0005.sqfs" ∷ [])
    × (map (λ (p : PackInfo). p.level) outcome.0.manifest.pack_stack.lowers ≡ 0 ∷ 1 ∷ [])
    × (outcome.0.packs "/nfs/packs/a/compact-L5-g0005-g0005.sqfs" ≡ some merged)
    × (outcome.0.manifest.generation ≡ 5)
    × (outcome.0.upper ≡ some nil)
    × (outcome.1 ≡ ok outcome.0.manifest)
unfolding handle_commit commit_shared_nfs with_commit_lock build_commit_from_source publish_commit
    build_pack verify_pack after_commit compact_if_needed build_partial_compaction merge_all
    merge_extracted_layer clear_below copytree merge_below merge_level put_entry remove_entry
    find_entry mirror_after_commit acquire release files_in plan_level_compaction
    choose_initial_level publish_partial_compaction selected_indexes range_from same_indexes head
    get_last replace_run safe_namespace_name quote
compacted_commit = (refl, refl, refl, refl, refl, refl)
