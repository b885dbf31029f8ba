-- ===== src/Tests/Mirrors.antt =====
-- A publication of a dirty upper, stopped and done again (overlay.py).
use ccc_storage.Base.{ℕ, ◌≡◌, refl, ◌⊎◌, some, ok}
use ccc_storage.Overlay.{
  Entries, nil, cons, file, symlink, device, directory, files_in, bytes_in, copy_logical_tree,
  copytree, has_device,
}
use ccc_storage.Overlay.Mirror.{
  epoch_tree, DirtyMirror, MirrorDir, Publisher, no_mirror, change, changes, next_epoch, new_mirror,
  publish_changes, publish_logical_mirror, latest_dirty_mirror,
}
use ccc_storage.Overlay.Atomic.{interrupted, IsPublished, view, publish-IsAtomic, publish-view}

-- A file is its number of bytes.
abbrev same : ℕ → ℕ
same n = n

abbrev upper : Entries ℕ
upper = cons "a.txt" (file 5) (
    cons "gone" device
      (cons "sub" (directory (cons ".wh.b" (file 0) (cons "c" (symlink 3) nil))) nil))

abbrev publisher : Publisher ℕ ℕ
publisher = record { child_id = "p"; node_id = "n"; base_generation = 4; published_ts = 100 }

abbrev once : MirrorDir ℕ ℕ
once = (publish_logical_mirror ℕ ℕ same publisher (some upper) (no_mirror ℕ ℕ)).0

abbrev first : DirtyMirror ℕ ℕ
first = record {
  child_id = "p";
  node_id = "n";
  epoch = 1;
  base_generation = 4;
  path = epoch_tree 1;
  file_count = 2;
  bytes = 8;
  published_ts = 100;
}

latest_runs : latest_dirty_mirror ℕ ℕ once ≡ some first
unfolding latest_dirty_mirror publish_logical_mirror changes change copy_logical_tree copytree
    has_device files_in bytes_in
latest_runs = refl

once-IsPublished : IsPublished ℕ ℕ once
unfolding publish_logical_mirror changes change copy_logical_tree copytree has_device files_in
    bytes_in
once-IsPublished = (refl, (copy_logical_tree ℕ upper).0, refl)

-- Stopped in the removal of the old tree of the epoch.
publish-IsAtomic_example :
    let epoch = next_epoch ℕ ℕ once in
    let (tree, answer) = copy_logical_tree ℕ upper in
    let d' = interrupted ℕ ℕ 1 (some nil) (publish_changes ℕ ℕ same publisher upper once) once in
    IsPublished ℕ ℕ d'
    × ((view ℕ ℕ d' ≡ view ℕ ℕ once)
        ⊎ ((answer ≡ ok tt)
            × (view ℕ ℕ d' ≡ some (new_mirror ℕ ℕ same publisher epoch tree, tree))))
publish-IsAtomic_example =
    publish-IsAtomic ℕ ℕ same publisher 1 (some nil) upper once once-IsPublished

second-published :
    (publish_logical_mirror ℕ ℕ same publisher (some upper) once).1
    ≡ ok (record first { epoch = 2; path = epoch_tree 2 })
unfolding publish_logical_mirror changes change copy_logical_tree copytree has_device files_in
    bytes_in
second-published = refl

publish-view_example :
    let d' = (publish_logical_mirror ℕ ℕ same publisher (some upper) once).0 in
    let second = record first { epoch = 2; path = epoch_tree 2 } in
    (view ℕ ℕ d' ≡ some (second, (copy_logical_tree ℕ upper).0))
    × (second.epoch ≡ next_epoch ℕ ℕ once)
    × (second.base_generation ≡ publisher.base_generation)
    × (second.file_count ≡ files_in ℕ upper)
    × (second.bytes ≡ bytes_in ℕ same upper)
publish-view_example =
    publish-view ℕ ℕ same publisher upper once (record first { epoch = 2; path = epoch_tree 2 })
      second-published
