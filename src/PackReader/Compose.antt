-- ===== src/PackReader/Compose.antt =====
-- A view over lower handles (reader.py): the call that makes it takes them down if it raises.
use ccc_storage.Base.{
  ℕ, suc, ◌≡◌, refl, ap, ◌⊎◌, inl, inr, Bool, true, false, List, [], ◌∷◌, if◌then◌else◌, arith,
  Bool-cases, Result, raised, ok, pack_read_error, Exception,
}
use mathlib.Core.List.{append-nil}
use ccc_storage.Manifest.{PackInfo}
use ccc_storage.PackReader.{
  FilePath, path, child, nth, hidden, sibling, same_path, Command, MountHandle, handle,
  MountHandles, nil, cons, Host, mount_lowers, progress, mountpoint, mountpoints, compose, unmount,
  stack_root,
}
use ccc_storage.PackReader.Unmount.{
  same_path_eq, adds, removes, occurrences, places, places_all, IsLawful, IsOver, IsFresh, IsSame,
  unmount-IsSame, unmount_all-IsSame,
}
use ccc_storage.PackReader.Lowers.{start-IsStarted, IsOne, IsWithin, mount_lowers-IsLowers}

-- Paths of different depths are different.
depth : FilePath → ℕ
depth (path a) = 0
depth (child p a) = suc (depth p)
depth (nth p i) = suc (depth p)
depth (sibling p a) = suc (depth p)
depth (hidden p a) = suc (depth p)

-- A stack's lower directories are none of its mount point.
pub stack-apart :
    (mnt : FilePath) (i : ℕ) → same_path (nth (child (stack_root mnt) "lowers") i) mnt ≡ false
unfolding depth
stack-apart mnt i = elim (Bool-cases (same_path (nth (child (stack_root mnt) "lowers") i) mnt)) [
  | inr e ↦ e
  | inl e ↦
      absurd
        (omega (arith, ap depth (same_path_eq (nth (child (stack_root mnt) "lowers") i) mnt e)))
]

pub if-holds {ℓ κ} :
    {A : Type ℓ} (P : A → Type κ) (b : Bool) (x y : A) → P x → P y → P (if b then x else y)
if-holds P true x y hx hy = hx
if-holds P false x y hx hy = hy

pub places_all-one : (h : MountHandle) → places_all (cons h nil) ≡ places h
unfolding places
places_all-one h = append-nil (places h)

module _ (host : Host) where
  open host use {Table, run, mounted_at, has_fuse_overlayfs}

  -- The call raises and the mounts are as before, or it returns a handle on one more mount, at `mnt`,
  -- over those of the lower handles.
  abbrev pub IsComposed : Table → FilePath → MountHandles → Table × Result MountHandle → Type 0
  IsComposed t mnt hs r =
      ((e : Exception) × (r.1 ≡ raised e) × IsSame host t r.0)
      ⊎ ((c : Command) × (r.1 ≡ ok (handle mnt c true hs))
          × IsOver host t (mnt ∷ places_all hs) r.0)

  -- A view that is mounted, and unmounted again.
  abbrev pub IsView : Table → FilePath → Table × Result MountHandle → Type 0
  IsView t mnt (u, raised e) = IsSame host t u
  IsView t mnt (u, ok h) =
      (mountpoint h ≡ mnt)
      × IsFresh host t (places h)
      × IsOver host t (places h) u
      × IsSame host t (unmount host h u)

  module _ (lawful : IsLawful host) where
    pub compose-IsComposed :
        (t : Table) (mnt : FilePath) (command : List FilePath → Command)
        → ((dirs : List FilePath) → adds (command dirs) ≡ mnt ∷ [])
        → ((dirs : List FilePath) → removes (command dirs) ≡ [])
        → (u : Table) (hs : MountHandles) (answer : Result {0} Unit)
        → IsFresh host t (places_all hs)
        → IsOver host t (places_all hs) u
        → IsComposed t mnt hs (compose host mnt command (progress host u hs answer))
    compose-IsComposed t mnt command add remove u hs (raised e) fresh over =
        inl (e, refl, unmount_all-IsSame host lawful hs t u fresh over)
    compose-IsComposed t mnt command add remove u hs (ok done) fresh over =
        let c = command (mountpoints hs) in
        elim (start-IsStarted host lawful t mnt c hs u (add (mountpoints hs))
          (remove (mountpoints hs)) over) [
            | inl same ↦
                rw same
                  (inl (pack_read_error, refl, unmount_all-IsSame host lawful hs t u fresh over))
            | inr (v, e, now) ↦ rw e (inr (c, refl, now))
          ]

    pub IsComposed-IsView :
        (t : Table) (mnt : FilePath) (hs : MountHandles) (r : Table × Result MountHandle)
        → mounted_at t mnt ≡ 0
        → occurrences mnt (places_all hs) ≡ 0
        → IsFresh host t (places_all hs)
        → IsComposed t mnt hs r
        → IsView t mnt r
    unfolding places
    IsComposed-IsView t mnt hs (u, raised e) free once fresh (inl (f, q, same)) = same
    IsComposed-IsView t mnt hs (u, raised e) free once fresh (inr (c, q, over)) = absurd (cc)
    IsComposed-IsView t mnt hs (u, ok h) free once fresh (inl (f, q, same)) = absurd (cc)
    IsComposed-IsView t mnt hs (u, ok h) free once fresh (inr (c, q, over)) =
        let is : h ≡ handle mnt c true hs = cc in
        let all : IsFresh host t (mnt ∷ places_all hs) = (free, once, fresh) in
        rw is (refl, all, over, unmount-IsSame host lawful (handle mnt c true hs) t u all over)

    -- Nothing is mounted at `mnt` nor at the lower directories, which are not `mnt`.
    abbrev pub IsFree : Table → FilePath → FilePath → Type 0
    IsFree t mnt root =
        (mounted_at t mnt ≡ 0)
        × ((i : ℕ) → mounted_at t (nth root i) ≡ 0)
        × ((i : ℕ) → same_path (nth root i) mnt ≡ false)

    pub compose_lowers :
        (t : Table) (mnt root : FilePath) (command : List FilePath → Command)
        → ((dirs : List FilePath) → adds (command dirs) ≡ mnt ∷ [])
        → ((dirs : List FilePath) → removes (command dirs) ≡ [])
        → IsFree t mnt root
        → (prefer_kernel : Bool) (packs : List PackInfo)
        → let p = mount_lowers host prefer_kernel root 0 packs nil t in
          IsView t mnt (compose host mnt command p)
          × IsComposed t mnt p.lower_handles (compose host mnt command p)
          × ((end : ℕ) × IsWithin host lawful root end (places_all p.lower_handles))
    unfolding places_all
    compose_lowers t mnt root command add remove (free, lowers, apart) prefer_kernel packs =
        let p = mount_lowers host prefer_kernel root 0 packs nil t in
        let (end, (fresh, over, within)) =
          mount_lowers-IsLowers host lawful prefer_kernel t root lowers 0 packs nil t
            (tt, λ q. omega arith, λ q h. refl) in
        let composed =
          compose-IsComposed t mnt command add remove p.table p.lower_handles p.answer fresh over in
        (
          IsComposed-IsView t mnt p.lower_handles _ free (within mnt (λ i h. apart i)) fresh
              composed,
          composed,
          (end, within),
        )

    -- No place of the handle but `mnt` and the lower directories.
    abbrev pub IsAt : FilePath → FilePath → Result MountHandle → Type 0
    IsAt mnt root (raised e) = Unit
    IsAt mnt root (ok h) =
        (q : FilePath)
        → same_path mnt q ≡ false
        → ((i : ℕ) → same_path (nth root i) q ≡ false)
        → occurrences q (places h) ≡ 0

    pub IsOne-IsView :
        (t : Table) (mnt root : FilePath) (r : Table × Result MountHandle)
        → mounted_at t mnt ≡ 0
        → IsOne host mnt t r
        → IsView t mnt r × IsAt mnt root r.1
    unfolding places_all places
    IsOne-IsView t mnt root (u, raised e) free (inl q) =
        (let same : u ≡ t = ap (λ x. x.0) q in rw same (λ p. refl), tt)
    IsOne-IsView t mnt root (u, raised e) free (inr (v, c, q, over)) = absurd (cc (ap (λ x. x.1) q))
    IsOne-IsView t mnt root (u, ok h) free (inl q) = absurd (cc (ap (λ x. x.1) q))
    IsOne-IsView t mnt root (u, ok h) free (inr (v, c, q, over)) =
        let same : u ≡ v = ap (λ x. x.0) q in
        let is : h ≡ handle mnt c true nil = cc (ap (λ x. x.1) q) in
        let all : IsFresh host t (mnt ∷ []) = (free, refl, tt) in
        rw (same, is)
          (
            (refl, all, over, unmount-IsSame host lawful (handle mnt c true nil) t v all over),
            λ p apart lowers. rw apart refl,
          )

    pub IsComposed-IsAt :
        (t : Table) (mnt root : FilePath) (end : ℕ) (hs : MountHandles)
        (r : Table × Result MountHandle)
        → IsWithin host lawful root end (places_all hs)
        → IsComposed t mnt hs r
        → IsAt mnt root r.1
    unfolding places
    IsComposed-IsAt t mnt root end hs (u, raised e) within h = tt
    IsComposed-IsAt t mnt root end hs (u, ok h) within (inl (f, q, same)) = absurd (cc)
    IsComposed-IsAt t mnt root end hs (u, ok h) within (inr (c, q, over)) =
        let is : h ≡ handle mnt c true hs = cc in
        rw is (λ p apart lowers. rw apart (omega (arith, within p (λ i b. lowers i))))
