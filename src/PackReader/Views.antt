-- ===== src/PackReader/Views.antt =====
-- The calls that mount a view of packs (reader.py): what they mount is taken down again by the
-- handle, and by the call itself if it raises.
use ccc_storage.Base.{
  String, ℕ, ◌≡◌, refl, sym, ap, ◌∙◌, Bool, true, false, ◌&&◌, List, [], ◌∷◌, arith, Result, raised,
  ok, pack_read_error,
}
use ccc_storage.Manifest.{PackInfo}
use ccc_storage.PackReader.{
  FilePath, path, child, nth, same_path, Command, fuse_overlayfs, MountHandle, handle, nil, cons,
  Host, mount_ro, mount_lowers, compose, unmount, stack_root, mount_stack_ro, UpperPaths,
  mount_layered_rw, mount_layered_rw_kernel_overlay, mount_dirs_and_packs_ro, mount_bind_ro,
  mount_bind, remount_ro, remounted, bound, layered_command, kernel_command, dirs_command,
  stack_progress, mount_lower_stack,
}
use ccc_storage.PackReader.Unmount.{
  adds, removes, places, places_all, IsLawful, IsOver, IsFresh, unmount-IsSame,
}
use ccc_storage.PackReader.Compose.{
  stack-apart, places_all-one, if-holds, IsView, compose-IsComposed, IsComposed-IsView,
  compose_lowers, IsAt, IsOne-IsView, IsComposed-IsAt,
}
use ccc_storage.PackReader.Lowers.{mount_ro-IsOne}

module _ (host : Host) (lawful : IsLawful host) where
  open host use {Table, run, mounted_at, has_mount, has_fuse_overlayfs, is_dir}

  compose_stack :
      (t : Table) (mnt : FilePath) (prefer_kernel : Bool) (packs : List PackInfo)
      → mounted_at t mnt ≡ 0
      → ((i : ℕ) → mounted_at t (nth (child (stack_root mnt) "lowers") i) ≡ 0)
      → let root = child (stack_root mnt) "lowers" in
        let r =
          compose host mnt
            (λ dirs. fuse_overlayfs dirs mnt)
            (mount_lowers host prefer_kernel root 0 packs nil t) in
        IsView host t mnt r × IsAt host lawful mnt root r.1
  compose_stack t mnt prefer_kernel packs free lowers =
      let root = child (stack_root mnt) "lowers" in
      let p = mount_lowers host prefer_kernel root 0 packs nil t in
      let (view, composed, (end, within)) =
        compose_lowers host lawful t mnt root (λ dirs. fuse_overlayfs dirs mnt) (λ dirs. refl)
          (λ dirs. refl) (free, lowers, stack-apart mnt) prefer_kernel packs in
      (view, IsComposed-IsAt host lawful t mnt root end p.lower_handles _ within composed)

  -- A stack of packs: nothing is mounted at its place nor in its own directory.
  mount_stack_ro-IsAt :
      (prefer_kernel : Bool) (packs : List PackInfo) (mnt : FilePath) (t : Table)
      → mounted_at t mnt ≡ 0
      → ((i : ℕ) → mounted_at t (nth (child (stack_root mnt) "lowers") i) ≡ 0)
      → IsView host t mnt (mount_stack_ro host prefer_kernel packs mnt t)
        × IsAt host lawful mnt
            (child (stack_root mnt) "lowers")
            (mount_stack_ro host prefer_kernel packs mnt t).1
  unfolding mount_stack_ro
  mount_stack_ro-IsAt prefer_kernel [] mnt t free lowers = (λ p. refl, tt)
  mount_stack_ro-IsAt prefer_kernel (pack ∷ []) mnt t free lowers =
      IsOne-IsView host lawful t mnt _ (mount_ro host prefer_kernel pack.path mnt t) free
        (mount_ro-IsOne host lawful prefer_kernel pack.path mnt t)
  mount_stack_ro-IsAt prefer_kernel (pack ∷ next ∷ rest) mnt t free lowers =
      let root = child (stack_root mnt) "lowers" in
      let packs = pack ∷ next ∷ rest in
      let p = mount_lowers host prefer_kernel root 0 packs nil t in
      let (view, at) = compose_stack t mnt prefer_kernel packs free lowers in
      if-holds (λ r. IsView host t mnt r × IsAt host lawful mnt root r.1) has_fuse_overlayfs
        (compose host mnt (λ dirs. fuse_overlayfs dirs mnt) p) (t, raised pack_read_error)
        (view, at) (λ q. refl, tt)

  -- The view over a stack, from what the mount of the stack gave.
  compose_over-IsView :
      (t : Table) (a : String) (lower : FilePath) (command : List FilePath → Command)
      → ((dirs : List FilePath) → adds (command dirs) ≡ path a ∷ [])
      → ((dirs : List FilePath) → removes (command dirs) ≡ [])
      → mounted_at t (path a) ≡ 0
      → same_path lower (path a) ≡ false
      → (root : FilePath) → ((i : ℕ) → same_path (nth root i) (path a) ≡ false)
      → (r : Table × Result MountHandle) → IsView host t lower r × IsAt host lawful lower root r.1
      → IsView host t (path a) (compose host (path a) command (stack_progress host r))
  unfolding unmount
  compose_over-IsView t a lower command add remove free apart root lowers (u, raised e) h = h.0
  compose_over-IsView t a lower command add remove free apart root lowers (u, ok h)
        ((is, fresh, over, back), at) =
      let one = places_all-one h in
      let fresh' : IsFresh host t (places_all (cons h nil)) = rw one fresh in
      let over' : IsOver host t (places_all (cons h nil)) u = rw one over in
      IsComposed-IsView host lawful t (path a) (cons h nil) _ free
        (rw one (at (path a) apart lowers)) fresh'
        (compose-IsComposed host lawful t (path a) command add remove u (cons h nil) (ok tt) fresh'
          over')

  bound-IsView :
      (t : Table) (mnt : FilePath) (c : Command) (u : Table)
      → mounted_at t mnt ≡ 0
      → IsOver host t (mnt ∷ []) u
      → (r : Table × Bool) → run (remount_ro mnt) u ≡ r
      → IsView host t mnt (bound host mnt c r)
  unfolding places unmount
  bound-IsView t mnt c u free over (v, true) e =
      let good : (run (remount_ro mnt) u).1 ≡ true = ap (λ x. x.1) e in
      let same : (run (remount_ro mnt) u).0 ≡ v = ap (λ x. x.0) e in
      let fresh : IsFresh host t (mnt ∷ []) = (free, refl, tt) in
      let now : IsOver host t (mnt ∷ []) v = λ p. omega (
        arith,
        lawful.succeeded (remount_ro mnt) u p good,
        over p,
        ap (λ x. mounted_at x p) same,
      ) in
      (refl, fresh, now, unmount-IsSame host lawful (handle mnt c true nil) t v fresh now)
  bound-IsView t mnt c u free over (v, false) e =
      let bad : (run (remount_ro mnt) u).1 ≡ false = ap (λ x. x.1) e in
      let same : u ≡ v = sym (lawful.failed (remount_ro mnt) u bad) ∙ ap (λ x. x.0) e in
      rw (← same) (unmount-IsSame host lawful (handle mnt c true nil) t u (free, refl, tt) over)

  bind-IsView :
      (t : Table) (mnt source : FilePath)
      → mounted_at t mnt ≡ 0
      → (r : Table × Bool) → run (mount_bind source mnt) t ≡ r
      → IsView host t mnt (remounted host mnt (mount_bind source mnt) r)
  bind-IsView t mnt source free (u, false) e =
      let bad : (run (mount_bind source mnt) t).1 ≡ false = ap (λ x. x.1) e in
      let same : t ≡ u = sym (lawful.failed (mount_bind source mnt) t bad) ∙ ap (λ x. x.0) e in
      λ p. ap (λ x. mounted_at x p) (sym same)
  bind-IsView t mnt source free (u, true) e =
      let good : (run (mount_bind source mnt) t).1 ≡ true = ap (λ x. x.1) e in
      let same : (run (mount_bind source mnt) t).0 ≡ u = ap (λ x. x.0) e in
      let over : IsOver host t (mnt ∷ []) u = λ p.
        omega (
          arith,
          lawful.succeeded (mount_bind source mnt) t p good,
          ap (λ x. mounted_at x p) same,
        ) in
      bound-IsView t mnt (mount_bind source mnt) u free over _ refl

  -- Nothing is mounted at the mount point nor in the directories of the calls.
  pub record IsUnused (t : Table) (mnt scratch : FilePath) : Type 0 where
    pub free : mounted_at t mnt ≡ 0
    pub stack_lowers : (i : ℕ) → mounted_at t (nth (child (stack_root mnt) "lowers") i) ≡ 0
    pub lowers : (i : ℕ) → mounted_at t (nth (child scratch "lowers") i) ≡ 0
    pub lower : mounted_at t (child scratch "lower") ≡ 0
    pub lower_lowers :
        (i : ℕ) → mounted_at t (nth (child (stack_root (child scratch "lower")) "lowers") i) ≡ 0

  layered-IsView :
      (prefer_kernel : Bool) (packs : List PackInfo) (paths : UpperPaths) (scratch : FilePath)
      (a : String) (t : Table)
      → IsUnused t (path a) scratch
      → IsView host t (path a) (
          compose host
            (path a)
            (layered_command paths scratch (path a))
            (mount_lower_stack host prefer_kernel packs (child scratch "lower") t))
  unfolding same_path places_all
  layered-IsView prefer_kernel [] paths scratch a t u =
      IsComposed-IsView host lawful t (path a) nil _ u.free refl tt (
        compose-IsComposed host lawful t (path a) (layered_command paths scratch (path a))
          (λ dirs. refl) (λ dirs. refl) t nil (ok tt) tt (λ p. omega arith))
  layered-IsView prefer_kernel (pack ∷ rest) paths scratch a t u =
      let lower = child scratch "lower" in
      compose_over-IsView t a lower (layered_command paths scratch (path a)) (λ dirs. refl)
        (λ dirs. refl) u.free refl (child (stack_root lower) "lowers") (λ i. refl)
        (mount_stack_ro host prefer_kernel (pack ∷ rest) lower t)
        (mount_stack_ro-IsAt prefer_kernel (pack ∷ rest) lower t u.lower u.lower_lowers)

  -- Each of the calls that mount a view, where nothing is mounted at its mount point nor in its
  -- directories, and of the installed programs one can unmount a single mount: if the call raises,
  -- the mounts are as before. If it returns, it has added mounts at its mount point and at distinct
  -- places that were free, and unmounting its handle leaves the mounts as they were before the call.
  pub mount-IsView :
      (prefer_kernel : Bool) (packs : List PackInfo) (paths : UpperPaths) (scratch : FilePath)
      (a : String) (t : Table)
      → IsUnused t (path a) scratch
      → IsView host t (path a) (mount_stack_ro host prefer_kernel packs (path a) t)
        × IsView host t
            (path a)
            (mount_layered_rw host prefer_kernel packs paths scratch (path a) t)
        × IsView host t
            (path a)
            (mount_layered_rw_kernel_overlay host prefer_kernel packs paths scratch (path a) t)
        × ((top : FilePath) (more : List FilePath)
            → IsView host t
                (path a)
                (mount_dirs_and_packs_ro host prefer_kernel top more packs scratch (path a) t))
        × ((source : FilePath) → IsView host t (path a) (mount_bind_ro host source (path a) t))
  unfolding mount_layered_rw mount_layered_rw_kernel_overlay mount_dirs_and_packs_ro mount_bind_ro
      same_path
  mount-IsView prefer_kernel packs paths scratch a t u =
      let mnt = path a in
      let unchanged : IsView host t mnt (t, raised pack_read_error) = λ p. refl in
      let over_lowers =
        λ (command : List FilePath → Command)
            (add : (dirs : List FilePath) → adds (command dirs) ≡ mnt ∷ [])
            (remove : (dirs : List FilePath) → removes (command dirs) ≡ []).
          (compose_lowers host lawful t mnt (child scratch "lowers") command add remove
            (u.free, u.lowers, λ i. refl) prefer_kernel packs).0 in
      (
        (mount_stack_ro-IsAt prefer_kernel packs mnt t u.free u.stack_lowers).0,
        if-holds (IsView host t mnt) has_fuse_overlayfs _ _
            (layered-IsView prefer_kernel packs paths scratch a t u) unchanged,
        if-holds (IsView host t mnt) has_mount _ _
            (over_lowers (kernel_command paths scratch mnt) (λ dirs. refl) (λ dirs. refl))
            unchanged,
        λ top more.
            if-holds (IsView host t mnt) has_fuse_overlayfs _ _
              (over_lowers (dirs_command top more mnt) (λ dirs. refl) (λ dirs. refl)) unchanged,
        λ source.
            if-holds (IsView host t mnt) (has_mount && is_dir source) _ _
              (bind-IsView t mnt source u.free _ refl) unchanged,
      )
