-- ===== src/Overlay/Atomic.antt =====
-- What a reader sees of a mirror while a node publishes, or after it was stopped in the middle
-- (overlay.py).
use ccc_storage.Base.{
  ℕ, zero, suc, ◌≡◌, ◌≢◌, refl, sym, ap, ◌∙◌, ◌⊎◌, inl, inr, Result, raised, ok, Option, none, some,
  List, [], ◌∷◌, ◌++◌, All, arith,
}
use ccc_storage.Overlay.{Entries, files_in, bytes_in, copy_logical_tree}
use ccc_storage.Overlay.Tree.{copy_logical_tree-files}
use ccc_storage.Overlay.Mirror.{
  epoch_tree, DirtyMirror, MirrorDir, Change, remove_staging, remove_final, copy_tree,
  publish_epoch, unlink_latest_tmp, link_latest_tmp, replace_current, write_publish_tmp,
  replace_publish_json, at_epoch, change, changes, next_epoch, Publisher, new_mirror, changes_from,
  mirrored, publish_changes, publish_logical_mirror, tree_at, latest_of, latest_dirty_mirror,
}

module _ (Blob Seconds : Type 0) where
  abbrev Dir : Type 0
  Dir = MirrorDir Blob Seconds

  abbrev Changes : Type 0
  Changes = List (Change Blob Seconds)

  -- A change that is stopped: what removes or copies a tree may leave any part of it.
  abbrev pub torn : Change Blob Seconds → Option (Entries Blob) → Dir → Dir
  torn (remove_staging e) left d = record d { stagings = at_epoch Blob Seconds e left d.stagings }
  torn (remove_final e) left d = record d { epochs = at_epoch Blob Seconds e left d.epochs }
  torn (copy_tree e tree) left d = record d { stagings = at_epoch Blob Seconds e left d.stagings }
  torn (publish_epoch e) left d = d
  torn unlink_latest_tmp left d = d
  torn (link_latest_tmp e) left d = d
  torn replace_current left d = d
  torn (write_publish_tmp m) left d = d
  torn replace_publish_json left d = d

  -- The directory after `n` changes, if the next one is stopped.
  unfoldable pub interrupted : ℕ → Option (Entries Blob) → Changes → Dir → Dir
  interrupted n left [] d = d
  interrupted zero left (c ∷ rest) d = torn c left d
  interrupted (suc n) left (c ∷ rest) d = interrupted n left rest (change Blob Seconds c d)

  -- The tree of the epoch that `publish.json` names is there.
  abbrev IsReadable : Dir → Option (DirtyMirror Blob Seconds) → Type 0
  IsReadable d none = Unit
  IsReadable d (some m) =
      (m.path ≡ epoch_tree m.epoch) × (tree : Entries Blob) × (d.epochs m.epoch ≡ some tree)

  abbrev pub IsPublished : Dir → Type 0
  IsPublished d = IsReadable d d.publish_json

  abbrev with_tree :
      DirtyMirror Blob Seconds
      → Option (Entries Blob)
      → Option (DirtyMirror Blob Seconds × Entries Blob)
  with_tree m none = none
  with_tree m (some tree) = some (m, tree)

  abbrev seen :
      Dir → Option (DirtyMirror Blob Seconds) → Option (DirtyMirror Blob Seconds × Entries Blob)
  seen d none = none
  seen d (some m) = with_tree m (tree_at Blob Seconds d m.path)

  -- What a reader sees: the latest mirror, and its tree.
  abbrev pub view : Dir → Option (DirtyMirror Blob Seconds × Entries Blob)
  view d = seen d (latest_dirty_mirror Blob Seconds d)

  abbrev named :
      Dir → Option (DirtyMirror Blob Seconds) → Option (DirtyMirror Blob Seconds × Entries Blob)
  named d none = none
  named d (some m) = with_tree m (d.epochs m.epoch)

  seen-latest_of :
      (d : Dir) (doc : Option (DirtyMirror Blob Seconds))
      → IsReadable d doc
      → seen d (latest_of Blob Seconds d doc) ≡ named d doc
  seen-latest_of d none h = refl
  seen-latest_of d (some m) (path, tree, there) = ground (arith, path, there)

  view_lem : (d : Dir) → IsPublished d → view d ≡ named d d.publish_json
  unfolding latest_dirty_mirror
  view_lem d h = seen-latest_of d d.publish_json h

  -- Nothing changes but the epoch that is published.
  abbrev Keeps : ℕ → Dir → Dir → Type 0
  Keeps epoch d d' =
      (d'.publish_json ≡ d.publish_json) × ((e : ℕ) → epoch ≢ e → d'.epochs e ≡ d.epochs e)

  abbrev IsQuiet : ℕ → Change Blob Seconds → Type 0
  IsQuiet epoch (remove_staging e) = Unit
  IsQuiet epoch (remove_final e) = epoch ≡ e
  IsQuiet epoch (copy_tree e tree) = Unit
  IsQuiet epoch (publish_epoch e) = epoch ≡ e
  IsQuiet epoch unlink_latest_tmp = Unit
  IsQuiet epoch (link_latest_tmp e) = Unit
  IsQuiet epoch replace_current = Unit
  IsQuiet epoch (write_publish_tmp m) = Unit
  IsQuiet epoch replace_publish_json = ⊥

  at_epoch-ne :
      (epoch e k : ℕ) (tree : Option (Entries Blob)) (trees : ℕ → Option (Entries Blob))
      → epoch ≡ e
      → epoch ≢ k
      → at_epoch Blob Seconds e tree trees k ≡ trees k
  at_epoch-ne epoch e k tree trees h ne = ground arith

  change-Keeps :
      (epoch : ℕ) (c : Change Blob Seconds) (d : Dir)
      → IsQuiet epoch c
      → Keeps epoch d (change Blob Seconds c d)
  unfolding change
  change-Keeps epoch (remove_final e) d q = (refl, λ k. at_epoch-ne epoch e k _ d.epochs q)
  change-Keeps epoch (publish_epoch e) d q = (refl, λ k. at_epoch-ne epoch e k _ d.epochs q)
  change-Keeps epoch replace_publish_json d q = absurd q
  change-Keeps epoch c d q = (refl, λ k ne. refl)

  torn-Keeps :
      (epoch : ℕ) (c : Change Blob Seconds) (left : Option (Entries Blob)) (d : Dir)
      → IsQuiet epoch c
      → Keeps epoch d (torn c left d)
  torn-Keeps epoch (remove_final e) left d q = (refl, λ k. at_epoch-ne epoch e k _ d.epochs q)
  torn-Keeps epoch c left d q = (refl, λ k ne. refl)

  Keeps-trans : (epoch : ℕ) (a b c : Dir) → Keeps epoch a b → Keeps epoch b c → Keeps epoch a c
  Keeps-trans epoch a b c (j, t) (j', t') = (j' ∙ j, λ e ne. t' e ne ∙ t e ne)

  -- A list of quiet changes, stopped anywhere.
  interrupted-Keeps :
      (epoch n : ℕ) (left : Option (Entries Blob)) (cs : Changes) (d : Dir)
      → All (IsQuiet epoch) cs
      → Keeps epoch d (interrupted n left cs d)
  unfolding interrupted
  interrupted-Keeps epoch n left [] d q = (refl, λ k ne. refl)
  interrupted-Keeps epoch zero left (c ∷ rest) d q = torn-Keeps epoch c left d q.0
  interrupted-Keeps epoch (suc n) left (c ∷ rest) d q =
      let next = change Blob Seconds c d in
      Keeps-trans epoch d next (interrupted n left rest next) (change-Keeps epoch c d q.0)
        (interrupted-Keeps epoch n left rest next q.1)

  -- Then the replacement of `publish.json`: it has been made, or all before it was quiet.
  interrupted-last :
      (epoch n : ℕ) (left : Option (Entries Blob)) (cs : Changes) (d : Dir)
      → All (IsQuiet epoch) cs
      → let all = cs ++ (replace_publish_json ∷ []) in
        (Keeps epoch d (interrupted n left all d))
        ⊎ (interrupted n left all d ≡ changes Blob Seconds all d)
  unfolding interrupted changes
  interrupted-last epoch zero left [] d q = inl (refl, λ k ne. refl)
  interrupted-last epoch (suc n) left [] d q = inr refl
  interrupted-last epoch zero left (c ∷ rest) d q = inl (torn-Keeps epoch c left d q.0)
  interrupted-last epoch (suc n) left (c ∷ rest) d q =
      let next = change Blob Seconds c d in
      elim (interrupted-last epoch n left rest next q.1) [
        | inl k ↦ inl (
            Keeps-trans epoch d next (interrupted n left (rest ++ (replace_publish_json ∷ [])) next)
              (change-Keeps epoch c d q.0) k)
        | inr e ↦ inr e
      ]

  -- What is published stays readable, and is seen as before.
  IsReadable-Keeps :
      (d d' : Dir) (doc : Option (DirtyMirror Blob Seconds))
      → IsReadable d doc
      → ((m : DirtyMirror Blob Seconds) → doc ≡ some m → d'.epochs m.epoch ≡ d.epochs m.epoch)
      → IsReadable d' doc × (named d' doc ≡ named d doc)
  IsReadable-Keeps d d' none h k = (tt, refl)
  IsReadable-Keeps d d' (some m) (path, tree, there) k =
      ((path, tree, k m refl ∙ there), rw (k m refl) refl)

  view-Keeps :
      (d d' : Dir)
      → IsPublished d
      → Keeps (next_epoch Blob Seconds d) d d'
      → IsPublished d' × (view d' ≡ view d)
  view-Keeps d d' h (json, trees) =
      let (readable, same) =
        IsReadable-Keeps d d' d.publish_json h (λ m e. trees m.epoch (rw e (omega arith))) in
      let published : IsPublished d' = rw json readable in
      (published, view_lem d' published ∙ rw json same ∙ sym (view_lem d h))

  module _ (size_of : Blob → ℕ) (p : Publisher Blob Seconds) where
    abbrev new : ℕ → Entries Blob → DirtyMirror Blob Seconds
    new = new_mirror Blob Seconds size_of p

    -- All changes of a publication whose copy returned.
    changes_from-view :
        (epoch : ℕ) (tree : Entries Blob) (d : Dir)
        → let d' =
            changes Blob Seconds (changes_from Blob Seconds size_of p epoch (tree, ok tt)) d in
          IsPublished d' × (view d' ≡ some (new epoch tree, tree))
    unfolding changes change
    changes_from-view epoch tree d =
        let d' = changes Blob Seconds (changes_from Blob Seconds size_of p epoch (tree, ok tt)) d in
        let there : d'.epochs epoch ≡ some tree = ground arith in
        let published : IsPublished d' = (refl, tree, there) in
        (published, view_lem d' published ∙ ap (with_tree (new epoch tree)) there)

    interrupted-view :
        (n : ℕ) (left : Option (Entries Blob)) (copy : Entries Blob × Result {0} Unit) (d : Dir)
        → IsPublished d
        → let epoch = next_epoch Blob Seconds d in
          let d' = interrupted n left (changes_from Blob Seconds size_of p epoch copy) d in
          IsPublished d'
          × ((view d' ≡ view d) ⊎ ((copy.1 ≡ ok tt) × (view d' ≡ some (new epoch copy.0, copy.0))))
    interrupted-view n left (tree, raised e) d h =
        let epoch = next_epoch Blob Seconds d in
        let cs : Changes = remove_staging epoch ∷ remove_final epoch ∷ copy_tree epoch tree ∷ [] in
        let (published, same) =
          view-Keeps d _ h (interrupted-Keeps epoch n left cs d (tt, (refl, (tt, tt)))) in
        (published, inl same)
    interrupted-view n left (tree, ok done) d h =
        let epoch = next_epoch Blob Seconds d in
        let cs : Changes =
          remove_staging epoch
          ∷ remove_final epoch
          ∷ copy_tree epoch tree
          ∷ publish_epoch epoch
          ∷ unlink_latest_tmp
          ∷ link_latest_tmp epoch
          ∷ replace_current
          ∷ write_publish_tmp (new epoch tree)
          ∷ [] in
        elim (interrupted-last epoch n left cs d
          (tt, (refl, (tt, (refl, (tt, (tt, (tt, (tt, tt))))))))) [
            | inl k ↦ let (published, same) = view-Keeps d _ h k in (published, inl same)
            | inr e ↦
                let (published, now) = changes_from-view epoch tree d in
                rw e (published, inr (refl, now))
          ]

    -- At any moment of a publication, and if it is stopped there, a reader sees the mirror and the
    -- tree that he saw before, or all of the new mirror and its tree, and this only if the copy of the
    -- upper returned. So it is for the next publication too.
    pub publish-IsAtomic :
        (n : ℕ) (left : Option (Entries Blob)) (upper : Entries Blob) (d : Dir)
        → IsPublished d
        → let epoch = next_epoch Blob Seconds d in
          let (tree, answer) = copy_logical_tree Blob upper in
          let d' = interrupted n left (publish_changes Blob Seconds size_of p upper d) d in
          IsPublished d'
          × ((view d' ≡ view d) ⊎ ((answer ≡ ok tt) × (view d' ≡ some (new epoch tree, tree))))
    publish-IsAtomic n left upper d h = interrupted-view n left (copy_logical_tree Blob upper) d h

    mirrored-ok :
        (epoch : ℕ) (copy : Entries Blob × Result {0} Unit) (m : DirtyMirror Blob Seconds)
        → mirrored Blob Seconds size_of p epoch copy ≡ ok m
        → (copy.1 ≡ ok tt) × (new epoch copy.0 ≡ m)
    mirrored-ok epoch (tree, raised e) m h = absurd (cc)
    mirrored-ok epoch (tree, ok done) m h = (refl, cc)

    mirrored-view :
        (epoch : ℕ) (copy : Entries Blob × Result {0} Unit) (d : Dir) (m : DirtyMirror Blob Seconds)
        → mirrored Blob Seconds size_of p epoch copy ≡ ok m
        → view (changes Blob Seconds (changes_from Blob Seconds size_of p epoch copy) d)
          ≡ some (m, copy.0)
    mirrored-view epoch (tree, raised e) d m h = absurd (cc)
    mirrored-view epoch (tree, ok done) d m h =
        (changes_from-view epoch tree d).1
        ∙ ap (λ x. some (x, tree)) (mirrored-ok epoch (tree, ok tt) m h).1

    -- If a publication returns a mirror, a reader sees it with the copy of the upper; its epoch is the
    -- next one, its generation the publisher's, and it counts the files and the bytes of the upper.
    pub publish-view :
        (upper : Entries Blob) (d : Dir) (m : DirtyMirror Blob Seconds)
        → (publish_logical_mirror Blob Seconds size_of p (some upper) d).1 ≡ ok m
        → let d' = (publish_logical_mirror Blob Seconds size_of p (some upper) d).0 in
          (view d' ≡ some (m, (copy_logical_tree Blob upper).0))
          × (m.epoch ≡ next_epoch Blob Seconds d)
          × (m.base_generation ≡ p.base_generation)
          × (m.file_count ≡ files_in Blob upper)
          × (m.bytes ≡ bytes_in Blob size_of upper)
    unfolding publish_logical_mirror
    publish-view upper d m h =
        let epoch = next_epoch Blob Seconds d in
        let copy = copy_logical_tree Blob upper in
        let (fine, same) = mirrored-ok epoch copy m h in
        let (files, bytes) = copy_logical_tree-files Blob size_of upper fine in
        (
          mirrored-view epoch copy d m h,
          rw (← same) refl,
          rw (← same) refl,
          rw (← same) files,
          rw (← same) bytes,
        )
