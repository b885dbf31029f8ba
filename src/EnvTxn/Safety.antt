-- ===== src/EnvTxn/Safety.antt =====
-- What a transaction leaves, whatever it reports or raises (EnvTransaction.run of
-- src/ccc_storage_mountd/env_txn.py).
use ccc_storage.Base.{
  String, ℕ, ◌+◌, ◌≡◌, refl, sym, ap, ◌∙◌, ◌⊎◌, inl, inr, Bool, true, false, not, Option, some,
  List, [], ◌∷◌, ◌++◌, Result, raised, ok, str_eq, subst,
}
use ccc_storage.CommitPolicy.{Clock}
use ccc_storage.Locks.{LockFile, Locked, absent, present, acquire, release, new_lock}
use ccc_storage.Manifest.{ChildManifest, PackInfo, write_policy_local_ssd_async}
use ccc_storage.Overlay.{Entries, copytree}
use ccc_storage.PackReader.Compose.{if-holds}
use ccc_storage.Commit.{PackTool, NumberText, Child, ensure_active_upper, delta_path}
use ccc_storage.Commit.Calls.{handle_commit}
use ccc_storage.Commit.Building.{IsLawful, layers_of, IsNew}
use ccc_storage.Commit.Outcome.{layers, IsSameStack, IsSameLocks, IsOutcome, IsCommitted, IsFresh}
use ccc_storage.Commit.Followed.{is_quiet, IsFollowedBy}
use ccc_storage.Commit.Handler.{handle_commit-IsOutcome}
use ccc_storage.EnvTxn.{
  CommandResult, EnvTxnResult, Env, EnvTransaction, is_success, reported, after_sanity,
  after_command, unlocked, begun, run, sanity_failed, command_failed,
}

module _ (clock : Clock) (Blob : Type 0) (size_of : Blob → ℕ) (tool : PackTool Blob)
    (text : NumberText) (lawful : IsLawful Blob tool) where
  open clock use {Seconds}

  abbrev S : Type 0
  S = Child clock Blob size_of tool text

  -- What the program and the check leave alone: the manifest, the packs and the locks of commits.
  abbrev pub IsApart : S → S → Type 0
  IsApart s u =
      (u.manifest ≡ s.manifest)
      × (u.packs ≡ s.packs)
      × (u.commit_lock ≡ s.commit_lock)
      × (u.writer_lock ≡ s.writer_lock)

  abbrev pub IsProgram : (S → S × Result CommandResult) → Type 0
  IsProgram program = (s : S) → IsApart s (program s).0

  module _ (txn : EnvTransaction clock Blob size_of tool text) (command : List String)
      (now : Seconds) where
    abbrev Same : S → S → Type 0
    Same = IsSameStack clock Blob size_of tool text lawful txn.service

    abbrev SameLocks : S → S → Type 0
    SameLocks = IsSameLocks clock Blob size_of tool text lawful txn.service

    abbrev stack : S → List (Option (Entries Blob))
    stack = layers clock Blob size_of tool text lawful txn.service

    -- One more pack, and the next generation.
    abbrev IsGrown : S → S → Type 0
    IsGrown s v =
        (v.manifest.generation ≡ s.manifest.generation + 1)
        × ((pack : PackInfo) × (v.manifest.pack_stack.lowers
              ≡ s.manifest.pack_stack.lowers ++ (pack ∷ [])))
        × ((tree : Entries Blob) × (stack v ≡ stack s ++ (some tree ∷ [])))

    abbrev Followed : S → S → Type 0
    Followed = IsFollowedBy clock Blob size_of tool text txn.service

    -- The service compacts or mirrors after commits.
    abbrev IsBusy : Type 0
    IsBusy = is_quiet clock Blob size_of tool text txn.service ≡ false

    -- The generation that is reported is the child's; the stack grows only if a commit is reported.
    abbrev IsReported : Bool → S → S → ℕ → Type 0
    IsReported true s u generation =
        (generation ≡ u.manifest.generation)
        × (Same s u ⊎ ((v : S) × IsGrown s v × Followed v u × (IsBusy ⊎ Same v u)))
    IsReported false s u generation = (generation ≡ u.manifest.generation) × Same s u

    abbrev IsAnswered : S → S → Result EnvTxnResult → Type 0
    IsAnswered s u (raised e) = Same s u ⊎ ((v : S) × IsGrown s v × Followed v u × IsBusy)
    IsAnswered s u (ok result) = IsReported result.committed s u result.generation

    abbrev pub IsSafe : S → S × Result EnvTxnResult → Type 0
    IsSafe s (u, answer) = SameLocks s u × IsAnswered s u answer

    apart-Same : (s u : S) → IsApart s u → Same s u × SameLocks s u
    apart-Same s u (manifest, packs, commit, writer) = (
      (
        manifest,
        ap (λ (m : ChildManifest). layers_of Blob tool u.packs m.pack_stack.lowers) manifest
            ∙ ap (λ p. layers_of Blob tool p s.manifest.pack_stack.lowers) packs,
      ),
      (commit, writer),
    )

    IsApart-trans : (s u v : S) → IsApart s u → IsApart u v → IsApart s v
    IsApart-trans s u v (a, b, c, d) (e, f, g, h) = (e ∙ a, f ∙ b, g ∙ c, h ∙ d)

    generation_of : (s u : S) → Same s u → s.manifest.generation ≡ u.manifest.generation
    generation_of s u (manifest, stacked) = ap (λ (m : ChildManifest). m.generation) (sym manifest)

    apart-IsGrown :
        (async : Bool) (s t v : S)
        → IsApart s t
        → IsCommitted clock Blob size_of tool text lawful txn.service async t v
        → IsGrown s v
    apart-IsGrown async s t v apart (next, (pack, at_out, lowers), (tree, source, grown), taken) =
        let ((m, l), locks) = apart-Same s t apart in
        (
          next ∙ ap (λ (x : ChildManifest). x.generation + 1) m,
          (pack, lowers ∙ ap (λ (x : ChildManifest). x.pack_stack.lowers ++ (pack ∷ [])) m),
          (copytree Blob tree, grown ∙ ap (λ l. l ++ (some (copytree Blob tree) ∷ [])) l),
        )

    reported-IsSafe :
        (async : Bool) (s t : S) (result : CommandResult) (r : S × Result ChildManifest)
        → IsApart s t
        → IsOutcome clock Blob size_of tool text lawful txn.service async t r
        → IsSafe s (reported clock Blob size_of tool text txn s.manifest command now result r)
    reported-IsSafe async s t result (u, raised e) apart ((c, w), inl ((m, l), kept)) =
        let ((m', l'), (c', w')) = apart-Same s t apart in ((c ∙ c', w ∙ w'), inl (m ∙ m', l ∙ l'))
    reported-IsSafe async s t result (u, raised e) apart ((c, w), inr (v, done, after, busy)) =
        let (same, (c', w')) = apart-Same s t apart in
        ((c ∙ c', w ∙ w'), inr (v, apart-IsGrown async s t v apart done, after, busy))
    reported-IsSafe async s t result (u, ok n) apart ((c, w), inl (nothing, is, (m, l), kept)) =
        let ((m', l'), (c', w')) = apart-Same s t apart in
        (
          (c ∙ c', w ∙ w'),
          (
            ap (λ (x : ChildManifest). x.generation) is
                ∙ ap (λ (x : ChildManifest). x.generation) (sym m),
            inl (m ∙ m', l ∙ l'),
          ),
        )
    reported-IsSafe async s t result (u, ok n) apart ((c, w), inr (is, (v, done, after, rest))) =
        let (same, (c', w')) = apart-Same s t apart in
        (
          (c ∙ c', w ∙ w'),
          (
            ap (λ (x : ChildManifest). x.generation) (sym is),
            inr (v, apart-IsGrown async s t v apart done, after, rest),
          ),
        )

    -- No pack of the stack is at the path of the next one.
    abbrev pub Fresh : S → Type 0
    Fresh = IsFresh clock Blob size_of tool text lawful txn.service

    apart-Fresh : (s t : S) → IsApart s t → Fresh s → Fresh t
    apart-Fresh s t apart fresh =
        subst
          (λ (m : ChildManifest).
            IsNew Blob tool
              (delta_path clock Blob size_of tool text txn.service m.id (m.generation + 1))
              m.pack_stack.lowers)
          (sym apart.0) fresh

    unchanged-IsSafe :
        (s t : S) (result : EnvTxnResult)
        → result.committed ≡ false
        → result.generation ≡ s.manifest.generation
        → IsApart s t
        → IsSafe s (t, ok result)
    unchanged-IsSafe s t result silent told apart =
        let (same, locks) = apart-Same s t apart in
        (
          locks,
          subst (λ c. IsReported c s t result.generation) (sym silent)
              (told ∙ generation_of s t same, same),
        )

    after_sanity-IsSafe :
        (s : S) (result : CommandResult) (r : S × Result CommandResult)
        → Fresh s
        → IsApart s r.0
        → IsSafe s (after_sanity clock Blob size_of tool text txn s.manifest command now result r)
    after_sanity-IsSafe s result (t, raised e) fresh apart =
        let (same, locks) = apart-Same s t apart in (locks, inl same)
    after_sanity-IsSafe s result (t, ok checked) fresh apart =
        if-holds (IsSafe s) (not (is_success checked))
          (t, ok (sanity_failed clock Blob size_of tool text s.manifest command result)) _
          (unchanged-IsSafe s t
            (sanity_failed clock Blob size_of tool text s.manifest command result) refl refl apart)
          (reported-IsSafe (str_eq t.manifest.write_policy write_policy_local_ssd_async) s t result
            (handle_commit clock Blob size_of tool text txn.service txn.mode now t) apart
            (handle_commit-IsOutcome clock Blob size_of tool text lawful txn.service txn.mode now t
              (apart-Fresh s t apart fresh)))

    after_command-IsSafe :
        (s : S) (r : S × Result CommandResult)
        → Fresh s
        → IsProgram txn.sanity_check
        → IsApart s r.0
        → IsSafe s (after_command clock Blob size_of tool text txn s.manifest command now r)
    after_command-IsSafe s (t, raised e) fresh checks apart =
        let (same, locks) = apart-Same s t apart in (locks, inl same)
    after_command-IsSafe s (t, ok result) fresh checks apart =
        if-holds (IsSafe s) (not (is_success result))
          (t, ok (command_failed clock Blob size_of tool text s.manifest command result)) _
          (unchanged-IsSafe s t
            (command_failed clock Blob size_of tool text s.manifest command result) refl refl apart)
          (after_sanity-IsSafe s result (txn.sanity_check t) fresh
            (IsApart-trans s t (txn.sanity_check t).0 apart (checks t)))

    abbrev pub IsTransaction :
        Env clock Blob size_of tool text
        → Env clock Blob size_of tool text × Result EnvTxnResult
        → Type 0
    IsTransaction e (f, answer) = (f.update_lock ≡ e.update_lock) × IsSafe e.child (f.child, answer)

    unlocked-IsTransaction :
        (e : Env clock Blob size_of tool text) (l : Locked clock) (r : S × Result EnvTxnResult)
        → (release clock l).file ≡ e.update_lock
        → IsSafe e.child r
        → IsTransaction e
            (unlocked clock Blob size_of tool text txn e.child.manifest command now l.file l.lock r)
    unlocked-IsTransaction e l (u, answer) freed safe = (freed, safe)

    begun-IsTransaction :
        (e : Env clock Blob size_of tool text) (file : LockFile clock)
        → e.update_lock ≡ file
        → Fresh e.child
        → IsProgram txn.runner
        → IsProgram txn.sanity_check
        → IsTransaction e (
            begun clock Blob size_of tool text txn e.child.manifest command now e (
              acquire clock txn.service.process false now now
                (record { file = file; lock = new_lock clock "env-update" txn.stale_after })))
    unfolding acquire release
    begun-IsTransaction e absent is fresh runs checks =
        let s = ensure_active_upper clock Blob size_of tool text e.child in
        let l =
          (acquire clock txn.service.process false now now
            (record { file = absent; lock = new_lock clock "env-update" txn.stale_after })).0 in
        unlocked-IsTransaction e l
          (after_command clock Blob size_of tool text txn e.child.manifest command now
            (txn.runner s))
          (sym is) (after_command-IsSafe e.child (txn.runner s) fresh checks (runs s))
    begun-IsTransaction e (present info modified) is fresh runs checks =
        (refl, ((refl, refl), (refl, (refl, refl))))

    -- If manifests can be written, files removed and owners set, a pack shows the tree that it was
    -- written from, the program and the check leave the manifest,
    -- the packs and the locks of commits alone, and no pack of the stack is at the path of the next one:
    -- a transaction leaves all three lock files as they were, whether it returns or raises. If it
    -- reports no commit, the manifest and what its packs show are as before. If it raises, they are so
    -- too; or the service compacts or mirrors after commits, and a commit was published. If it reports a
    -- commit, they are as before or a commit was published. The generation that it reports is the
    -- child's in every case.
    -- That a commit was published means: there is a state of the next generation with one pack more, that
    -- shows one tree on top; and the child that is left has its generation, its uppers, its mirror and its
    -- packs, but for the pack at one path, and that state's stack or the one that
    -- publish_partial_compaction makes of it for the planner's candidate. If the service neither compacts
    -- nor mirrors after commits, its manifest and what its packs show are those of that state.
    pub run-IsTransaction :
        (e : Env clock Blob size_of tool text)
        → IsProgram txn.runner
        → IsProgram txn.sanity_check
        → Fresh e.child
        → IsTransaction e (run clock Blob size_of tool text txn command now e)
    unfolding run
    run-IsTransaction e runs checks fresh =
        begun-IsTransaction e e.update_lock refl fresh runs checks
