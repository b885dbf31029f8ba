-- ===== src/Tests/Commits.antt =====
-- Commits of a child with a dirty upper, with a program that writes packs and with one that fails
-- (daemon.py).
use ccc_storage.Base.{
  ℕ, ◌≡◌, refl, true, false, Option, none, some, [], ◌∷◌, inl, Result, ok, raised, pack_build_error,
  map,
}
use ccc_storage.Levels.{LevelPolicy, choose_initial_level}
use ccc_storage.Locks.{absent, acquire, release}
use ccc_storage.Manifest.{new_manifest, PackInfo}
use ccc_storage.Overlay.{Entries, cons, nil, file, device, directory, files_in, copytree}
use ccc_storage.Overlay.Mirror.{no_mirror}
use ccc_storage.Names.{safe_namespace_name, quote}
use ccc_storage.Commit.{PackTool, NumberText, Service, Child, publish_commit, build_pack}
use ccc_storage.ObjectStore.{local_store}
use ccc_storage.Commit.Following.{build_commit_from_source}
use ccc_storage.Commit.Calls.{handle_commit, commit_shared_nfs, with_commit_lock}
use ccc_storage.Commit.Building.{IsLawful, IsNew}
use ccc_storage.Commit.Outcome.{IsOutcome, IsFresh}
use ccc_storage.Commit.Handler.{handle_commit-IsOutcome}
use ccc_storage.Commit.Returns.{IsReturned, handle_commit-returns}
use ccc_storage.Tests.Packs.{two_packs}
use ccc_storage.Tests.Ticks.{seconds}

-- A file is its number of bytes, and a pack is the tree it shows.
abbrev pub same : ℕ → ℕ
same n = n

abbrev extracted : Option (Entries ℕ) → Result (Entries ℕ)
extracted none = raised pack_build_error
extracted (some tree) = ok tree

abbrev pub tool : PackTool ℕ
tool = record {
  Image = Entries ℕ;
  mksquashfs = λ tree old. (some tree, true);
  contents = λ tree. tree;
  sha256 = λ tree. "sum";
  size = λ tree. 7;
  leads_to_file = λ target. false;
  unsquashfs = extracted;
  store = local_store (Entries ℕ);
  document = λ d. nil;
}

abbrev full_disk : PackTool ℕ
full_disk = record tool { mksquashfs = λ tree old. (old, false) }

pub tool-IsLawful : IsLawful ℕ tool
tool-IsLawful = record { shows = λ tree old image is. cc }

abbrev pub text : NumberText
text = record { plain = λ n. "5"; padded = λ n. "0005" }

abbrev policy : LevelPolicy
policy = record {
  levels = record { level = 0; max_bytes = 10; name = "hot" } ∷ [];
  max_packs_per_level = 1;
  allow_base_compaction = false;
  max_online_compaction_bytes = 100;
  trigger_after_commit = false;
  trigger_interval_seconds = 60;
}

module _ (tool : PackTool ℕ) where
  abbrev pub service : Service seconds ℕ same tool text
  service = record {
    state_root = "/nfs";
    level_policy = policy;
    process = record { node = "n"; pid = 7 };
    stale_after = 3600;
    mirrors_after_commit = false;
    cold_prefix = "/cold/";
    backend = "s3";
    stamp = "now";
  }

  abbrev pub child : tool.store.Objects → Option (Entries ℕ) → Child seconds ℕ same tool text
  child objects upper = record {
    manifest = record (new_manifest "a" "a" "project" 4) {
      pack_stack = record { active_revision = "g4"; lowers = two_packs };
    };
    packs = λ path. none;
    upper = upper;
    sealed = [];
    mirror = no_mirror ℕ ℕ;
    local_upper = none;
    commit_lock = absent;
    writer_lock = absent;
    objects = objects;
  }

abbrev pub edited : Entries ℕ
edited = cons "a.txt" (file 5) (cons "sub" (directory (cons "gone" device nil)) nil)

pub edited-IsFresh :
    IsFresh seconds ℕ same tool text tool-IsLawful (service tool) (child tool [] (some edited))
unfolding IsNew safe_namespace_name quote
edited-IsFresh = (refl, (refl, tt))

handle_commit-IsOutcome_example :
    IsOutcome seconds ℕ same tool text tool-IsLawful
      (service tool)
      false
      (child tool [] (some edited))
      (handle_commit seconds ℕ same tool text
        (service tool)
        (some "ro")
        10
        (child tool [] (some edited)))
handle_commit-IsOutcome_example =
    handle_commit-IsOutcome seconds ℕ same tool text tool-IsLawful (service tool) (some "ro") 10
      (child tool [] (some edited)) edited-IsFresh

fits : choose_initial_level policy 7 ≡ ok 0
unfolding choose_initial_level
fits = refl

handle_commit-returns_example : IsReturned seconds ℕ same tool text (service tool) (
    handle_commit seconds ℕ same tool text
      (service tool)
      (some "ro")
      10
      (child tool [] (some edited)))
handle_commit-returns_example =
    handle_commit-returns seconds ℕ same tool text (service tool) (some "ro") 10
      (child tool [] (some edited)) refl refl refl
      (record { image = copytree ℕ edited; wrote = refl; level = 0; fits = fits; idle = inl refl })
      refl

-- A build that fails takes the dirty upper with it.
failed_commit :
    (let r =
        handle_commit seconds ℕ same full_disk text
          (service full_disk)
          none
          10
          (child full_disk [] (some edited)) in
      (r.0.upper ≡ some nil) × (r.0.sealed ≡ []) × (r.1 ≡ raised pack_build_error))
unfolding handle_commit commit_shared_nfs with_commit_lock build_commit_from_source publish_commit
    build_pack acquire release files_in
failed_commit = (refl, refl, refl)

-- An upper that only deletes is clean.
deletion_only :
    (let r =
        handle_commit seconds ℕ same tool text
          (service tool)
          none
          10
          (child tool [] (some (cons ".wh.a" (file 0) (cons "b" device nil)))) in
      (r.0.manifest.generation ≡ 4)
      × (map (λ (p : PackInfo). p.path) r.0.manifest.pack_stack.lowers
          ≡ "base.sqfs" ∷ "delta.sqfs" ∷ []))
unfolding handle_commit commit_shared_nfs files_in
deletion_only = (refl, refl)
