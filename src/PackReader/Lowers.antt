-- ===== src/PackReader/Lowers.antt =====
-- The mounts of the packs below a view (reader.py).
use ccc_storage.Base.{
  String, ℕ, suc, ◌≡◌, ◌<◌, refl, ap, ◌⊎◌, inl, inr, Bool, true, false, ◌&&◌, List, [], ◌∷◌, arith,
  Bool-cases, Result, raised, ok, pack_read_error,
}
use ccc_storage.Manifest.{PackInfo}
use ccc_storage.PackReader.{
  FilePath, nth, same_path, Command, mount_squashfs, squashfuse, MountHandle, handle, MountHandles,
  nil, cons, Host, start, mount_ro, mount_lowers, Progress,
}
use ccc_storage.PackReader.Unmount.{
  same_path_self, adds, removes, occurrences, places_all, IsLawful, IsOver, IsFresh,
}

module _ (host : Host) where
  open host use {Table, run, mounted_at, has_mount, has_squashfuse}

  -- A mount by one command over what was mounted before: it changes nothing, or adds its mount point.
  abbrev pub IsStarted :
      Table → FilePath → Command → MountHandles → Table → Table × Result MountHandle → Type 0
  IsStarted t mnt c hs u r =
      (r ≡ (u, raised pack_read_error))
      ⊎ ((v : Table) × (r ≡ (v, ok (handle mnt c true hs))) × IsOver host t (mnt ∷ places_all hs) v)

  -- The same over nothing.
  abbrev pub IsOne : FilePath → Table → Table × Result MountHandle → Type 0
  IsOne mnt u r =
      (r ≡ (u, raised pack_read_error))
      ⊎ ((v : Table) × (c : Command) × (r ≡ (v, ok (handle mnt c true nil)))
          × IsOver host u (mnt ∷ []) v)

  module _ (lawful : IsLawful host) where
    pub start-IsStarted :
        (t : Table) (mnt : FilePath) (c : Command) (hs : MountHandles) (u : Table)
        → adds c ≡ mnt ∷ []
        → removes c ≡ []
        → IsOver host t (places_all hs) u
        → IsStarted t mnt c hs u (start host mnt c hs u)
    start-IsStarted t mnt c hs u add remove over = elim (Bool-cases ((run c u).1)) [
      | inr e ↦ inl (rw e (rw (lawful.failed c u e) refl))
      | inl e ↦ inr (
        (run c u).0,
        rw e refl,
        λ p.
            let counts = lawful.succeeded c u p e in
            let added = ap (occurrences p) add in
            let removed = ap (occurrences p) remove in
            omega (arith, counts, added, removed, over p),
      )
    ]

    start-IsOne :
        (mnt : FilePath) (c : Command) (u : Table)
        → adds c ≡ mnt ∷ []
        → removes c ≡ []
        → IsOne mnt u (start host mnt c nil u)
    unfolding places_all
    start-IsOne mnt c u add remove =
        elim (start-IsStarted u mnt c nil u add remove (λ p. omega arith)) [
          | inl same ↦ inl same
          | inr (v, e, over) ↦ inr (v, c, e, over)
        ]

    pub mount_ro-IsOne :
        (prefer_kernel : Bool) (pack : String) (mnt : FilePath) (u : Table)
        → IsOne mnt u (mount_ro host prefer_kernel pack mnt u)
    unfolding mount_ro
    mount_ro-IsOne prefer_kernel pack mnt u = elim (Bool-cases (prefer_kernel && has_mount)) [
      | inl e ↦ rw e (start-IsOne mnt (mount_squashfs pack mnt) u refl refl)
      | inr e ↦ elim (Bool-cases has_squashfuse) [
        | inl f ↦ rw (e, f) (start-IsOne mnt (squashfuse pack mnt) u refl refl)
        | inr f ↦ rw (e, f) (inl refl)
      ]
    ]

    -- The handles are at places of a lower directory with indexes below `idx`, where nothing was.
    abbrev pub IsWithin : FilePath → ℕ → List FilePath → Type 0
    IsWithin root idx ps =
        (q : FilePath)
        → ((i : ℕ) → i < idx → same_path (nth root i) q ≡ false)
        → occurrences q ps ≡ 0

    abbrev pub IsLowers : Table → FilePath → ℕ → Progress host → Type 0
    IsLowers t root idx p =
        let ps = places_all p.lower_handles in
        IsFresh host t ps × IsOver host t ps p.table × IsWithin root idx ps

    nth-ne : (root : FilePath) (i j : ℕ) → i < j → same_path (nth root i) (nth root j) ≡ false
    unfolding same_path
    nth-ne root i j h = ground (arith, same_path_self root)

    IsWithin-cons :
        (root : FilePath) (idx : ℕ) (ps : List FilePath)
        → IsWithin root idx ps
        → IsWithin root (suc idx) (nth root idx ∷ ps)
    IsWithin-cons root idx ps w q apart =
        let here : same_path (nth root idx) q ≡ false = apart idx (omega arith) in
        rw here (omega (arith, w q (λ i h. apart i (omega arith))))

    pub mount_lowers-IsLowers :
        (prefer_kernel : Bool) (t : Table) (root : FilePath)
        → ((i : ℕ) → mounted_at t (nth root i) ≡ 0)
        → (idx : ℕ) (packs : List PackInfo) (hs : MountHandles) (u : Table)
        → IsLowers t root idx (record { table = u; lower_handles = hs; answer = ok tt })
        → (end : ℕ) × IsLowers t root end (mount_lowers host prefer_kernel root idx packs hs u)
    unfolding mount_lowers places_all
    mount_lowers-IsLowers prefer_kernel t root free idx [] hs u h = (idx, h)
    mount_lowers-IsLowers prefer_kernel t root free idx (pack ∷ rest) hs u h =
        elim (mount_ro-IsOne prefer_kernel pack.path (nth root idx) u) [
          | inl same ↦ (idx, rw same h)
          | inr (v, c, e, over) ↦
              let (fresh, below, within) = h in
              let place = nth root idx in
              rw e (
                mount_lowers-IsLowers prefer_kernel t root free (suc idx) rest
                  (cons (handle place c true nil) hs) v
                  (
                    (free idx, within place (λ i. nth-ne root i idx), fresh),
                    λ p. omega (arith, below p, over p),
                    IsWithin-cons root idx (places_all hs) within,
                  ))
        ]
