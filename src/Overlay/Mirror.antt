-- ===== src/Overlay/Mirror.antt =====
-- `publish_logical_mirror` and `latest_dirty_mirror` of src/ccc_storage_mountd/overlay.py. The
-- directory of a child's mirror holds an epoch's tree under the number in its name, and the links
-- point at the tree of an epoch. The `epoch.json` beside a tree, which nothing reads, is left out.
-- `publish.json` is absent, unreadable or what the code writes.
use ccc_storage.Base.{
  String, ℕ, suc, ◌==◌, Result, raised, ok, file_not_found, Option, none, some, List, [], ◌∷◌,
  if◌then◌else◌,
}
use ccc_storage.Overlay.{Entries, dirty_stats, copy_logical_tree}

-- `final / "tree"` of an epoch, or `paths.current`.
pub data MirrorPath : Type 0 where
  epoch_tree : ℕ → MirrorPath
  current_link : MirrorPath

module _ (Blob Seconds : Type 0) where
  pub record DirtyMirror : Type 0 where
    pub child_id : String
    pub node_id : String
    pub epoch : ℕ
    pub base_generation : ℕ
    pub path : MirrorPath
    pub file_count : ℕ
    pub bytes : ℕ
    pub published_ts : Seconds

  pub record MirrorDir : Type 0 where
    pub epochs : ℕ → Option (Entries Blob)
    pub stagings : ℕ → Option (Entries Blob)
    pub current : Option ℕ
    pub current_tmp : Option ℕ
    pub publish_json : Option DirtyMirror
    pub publish_json_tmp : Option DirtyMirror

  abbrev pub at_epoch :
      ℕ → Option (Entries Blob) → (ℕ → Option (Entries Blob)) → ℕ → Option (Entries Blob)
  at_epoch epoch tree trees e = if epoch == e then tree else trees e

  -- A call that changes the directory.
  pub data Change : Type 0 where
    remove_staging : ℕ → Change
    remove_final : ℕ → Change
    copy_tree : ℕ → Entries Blob → Change
    publish_epoch : ℕ → Change
    unlink_latest_tmp : Change
    link_latest_tmp : ℕ → Change
    replace_current : Change
    write_publish_tmp : DirtyMirror → Change
    replace_publish_json : Change

  unfoldable pub change : Change → MirrorDir → MirrorDir
  change (remove_staging e) d = record d { stagings = at_epoch e none d.stagings }
  change (remove_final e) d = record d { epochs = at_epoch e none d.epochs }
  change (copy_tree e tree) d = record d { stagings = at_epoch e (some tree) d.stagings }
  change (publish_epoch e) d = record d {
    epochs = at_epoch e (d.stagings e) d.epochs;
    stagings = at_epoch e none d.stagings;
  }
  change unlink_latest_tmp d = record d { current_tmp = none }
  change (link_latest_tmp e) d = record d { current_tmp = some e }
  change replace_current d = record d { current = d.current_tmp; current_tmp = none }
  change (write_publish_tmp m) d = record d { publish_json_tmp = some m }
  change replace_publish_json d = record d {
    publish_json = d.publish_json_tmp;
    publish_json_tmp = none;
  }

  unfoldable pub changes : List Change → MirrorDir → MirrorDir
  changes [] d = d
  changes (c ∷ rest) d = changes rest (change c d)

  abbrev epoch_after : Option DirtyMirror → ℕ
  epoch_after none = 1
  epoch_after (some latest) = suc latest.epoch

  -- `_next_epoch`
  abbrev pub next_epoch : MirrorDir → ℕ
  next_epoch d = epoch_after d.publish_json

  -- What a publication is told.
  pub record Publisher : Type 0 where
    pub child_id : String
    pub node_id : String
    pub base_generation : ℕ
    pub published_ts : Seconds

  module _ (size_of : Blob → ℕ) where
    abbrev pub new_mirror : Publisher → ℕ → Entries Blob → DirtyMirror
    new_mirror p epoch tree = record {
      child_id = p.child_id;
      node_id = p.node_id;
      epoch = epoch;
      base_generation = p.base_generation;
      path = epoch_tree epoch;
      file_count = (dirty_stats Blob size_of (some tree)).file_count;
      bytes = (dirty_stats Blob size_of (some tree)).bytes;
      published_ts = p.published_ts;
    }

    -- The changes of a publication, from what the copy of the upper leaves and answers.
    abbrev pub changes_from : Publisher → ℕ → Entries Blob × Result {0} Unit → List Change
    changes_from p epoch (tree, raised e) =
        remove_staging epoch ∷ remove_final epoch ∷ copy_tree epoch tree ∷ []
    changes_from p epoch (tree, ok done) =
        remove_staging epoch
        ∷ remove_final epoch
        ∷ copy_tree epoch tree
        ∷ publish_epoch epoch
        ∷ unlink_latest_tmp
        ∷ link_latest_tmp epoch
        ∷ replace_current
        ∷ write_publish_tmp (new_mirror p epoch tree)
        ∷ replace_publish_json
        ∷ []

    -- Each directory is made before it is used.
    abbrev pub publish_changes : Publisher → Entries Blob → MirrorDir → List Change
    publish_changes p upper d = changes_from p (next_epoch d) (copy_logical_tree Blob upper)

    abbrev pub mirrored : Publisher → ℕ → Entries Blob × Result {0} Unit → Result DirtyMirror
    mirrored p epoch (tree, raised e) = raised e
    mirrored p epoch (tree, ok done) = ok (new_mirror p epoch tree)

    unfoldable pub publish_logical_mirror :
        Publisher → Option (Entries Blob) → MirrorDir → MirrorDir × Result DirtyMirror
    publish_logical_mirror p none d = (d, raised file_not_found)
    publish_logical_mirror p (some upper) d = (
      changes (publish_changes p upper d) d,
      mirrored p (next_epoch d) (copy_logical_tree Blob upper),
    )

  -- The tree that a path leads to.
  abbrev pub tree_of_link : MirrorDir → Option ℕ → Option (Entries Blob)
  tree_of_link d none = none
  tree_of_link d (some e) = d.epochs e

  abbrev pub tree_at : MirrorDir → MirrorPath → Option (Entries Blob)
  tree_at d (epoch_tree e) = d.epochs e
  tree_at d current_link = tree_of_link d d.current

  abbrev pub latest_at : MirrorDir → DirtyMirror → Option DirtyMirror
  latest_at d latest = elim (tree_at d latest.path) [
    | some tree ↦ some latest
    | none ↦ elim (tree_at d current_link) [
      | some tree ↦ some (record latest { path = current_link })
      | none ↦ none
    ]
  ]

  abbrev pub latest_of : MirrorDir → Option DirtyMirror → Option DirtyMirror
  latest_of d none = none
  latest_of d (some latest) = latest_at d latest

  unfoldable pub latest_dirty_mirror : MirrorDir → Option DirtyMirror
  latest_dirty_mirror d = latest_of d d.publish_json

  abbrev pub no_mirror : MirrorDir
  no_mirror = record {
    epochs = λ e. none;
    stagings = λ e. none;
    current = none;
    current_tmp = none;
    publish_json = none;
    publish_json_tmp = none;
  }

  -- `cleanup_dirty_mirror`
  abbrev pub cleanup_dirty_mirror : MirrorDir → MirrorDir
  cleanup_dirty_mirror d = no_mirror
