-- ===== src/PackReader/Unmount.antt =====
-- What the host's programs do to the table of mounts, and that unmounting a handle takes its mounts
-- off again (reader.py).
use ccc_storage.Base.{
  ℕ, ◌+◌, ◌≡◌, refl, sym, ap, ◌∙◌, ◌⊎◌, inl, inr, Bool, true, false, List, [], ◌∷◌, ◌++◌,
  if◌then◌else◌, arith, Bool-cases, str_eq_iff,
}
use ccc_storage.PackReader.{
  FilePath, path, child, nth, hidden, sibling, same_path, Command, mount_squashfs, squashfuse,
  fuse_overlayfs, fuse_overlayfs_rw, mount_overlay, mount_bind, remount_ro, fusermount, umount,
  MountHandle, handle, MountHandles, nil, cons, Host, unmount, unmount_all, unmount_at, run_if,
}

pub same_path_self : (p : FilePath) → same_path p p ≡ true
unfolding same_path
same_path_self (path a) = (str_eq_iff a a).1 refl
same_path_self (child p a) = ground (arith, same_path_self p, str_eq_iff a a)
same_path_self (nth p i) = ground (arith, same_path_self p)
same_path_self (sibling p a) = ground (arith, same_path_self p, str_eq_iff a a)
same_path_self (hidden p a) = ground (arith, same_path_self p, str_eq_iff a a)

-- Paths that are the same are equal.
pub same_path_eq : (p q : FilePath) → same_path p q ≡ true → p ≡ q
unfolding same_path
same_path_eq (path a) (path b) h = ap path ((str_eq_iff a b).0 h)
same_path_eq (child p a) (child q b) h = ground (arith, same_path_eq p q, str_eq_iff a b)
same_path_eq (nth p i) (nth q j) h = ground (arith, same_path_eq p q)
same_path_eq (sibling p a) (sibling q b) h = ground (arith, same_path_eq p q, str_eq_iff a b)
same_path_eq (hidden p a) (hidden q b) h = ground (arith, same_path_eq p q, str_eq_iff a b)
same_path_eq (path a) (child q b) h = absurd (cc)
same_path_eq (path a) (nth q b) h = absurd (cc)
same_path_eq (path a) (hidden q b) h = absurd (cc)
same_path_eq (child p a) (path q) h = absurd (cc)
same_path_eq (child p a) (nth q b) h = absurd (cc)
same_path_eq (child p a) (hidden q b) h = absurd (cc)
same_path_eq (nth p a) (path q) h = absurd (cc)
same_path_eq (nth p a) (child q b) h = absurd (cc)
same_path_eq (nth p a) (hidden q b) h = absurd (cc)
same_path_eq (hidden p a) (path q) h = absurd (cc)
same_path_eq (hidden p a) (child q b) h = absurd (cc)
same_path_eq (hidden p a) (nth q b) h = absurd (cc)
same_path_eq (sibling p a) (path q) h = absurd (cc)
same_path_eq (sibling p a) (child q b) h = absurd (cc)
same_path_eq (sibling p a) (nth q b) h = absurd (cc)
same_path_eq (sibling p a) (hidden q b) h = absurd (cc)
same_path_eq (path p) (sibling q b) h = absurd (cc)
same_path_eq (child p a) (sibling q b) h = absurd (cc)
same_path_eq (nth p a) (sibling q b) h = absurd (cc)
same_path_eq (hidden p a) (sibling q b) h = absurd (cc)

-- The places where a command mounts, at its success.
abbrev pub adds : Command → List FilePath
adds (mount_squashfs pack mnt) = mnt ∷ []
adds (squashfuse pack mnt) = mnt ∷ []
adds (fuse_overlayfs dirs mnt) = mnt ∷ []
adds (fuse_overlayfs_rw dirs upper work mnt) = mnt ∷ []
adds (mount_overlay dirs upper work mnt) = mnt ∷ []
adds (mount_bind source mnt) = mnt ∷ []
adds (remount_ro mnt) = []
adds (fusermount mnt) = []
adds (umount mnt) = []

abbrev pub removes : Command → List FilePath
removes (fusermount mnt) = mnt ∷ []
removes (umount mnt) = mnt ∷ []
removes (mount_squashfs pack mnt) = []
removes (squashfuse pack mnt) = []
removes (fuse_overlayfs dirs mnt) = []
removes (fuse_overlayfs_rw dirs upper work mnt) = []
removes (mount_overlay dirs upper work mnt) = []
removes (mount_bind source mnt) = []
removes (remount_ro mnt) = []

-- How often a place stands in a list.
abbrev pub occurrences : FilePath → List FilePath → ℕ
occurrences p [] = 0
occurrences p (q ∷ rest) = (if same_path q p then 1 else 0) + occurrences p rest

-- The places where a handle and its lower handles are mounted, in the order of their unmounting.
unfoldable mutual
  pub places : MountHandle → List FilePath
  places (handle place command mounted lowers) =
      let below = places_all lowers in if mounted then place ∷ below else below

  pub places_all : MountHandles → List FilePath
  places_all nil = []
  places_all (cons h rest) = places h ++ places_all rest

module _ (host : Host) where
  open host use {Table, run, mounted_at, has_fusermount, has_umount}

  -- A command that fails changes nothing; one that succeeds adds a mount, or takes one off, at its
  -- mount point alone; and of the programs that unmount, one that is found can take off a single mount.
  pub record IsLawful : Type 0 where
    pub failed : (c : Command) (t : Table) → (run c t).1 ≡ false → (run c t).0 ≡ t
    pub succeeded :
        (c : Command) (t : Table) (p : FilePath)
        → (run c t).1 ≡ true
        → mounted_at (run c t).0 p + occurrences p (removes c)
          ≡ mounted_at t p + occurrences p (adds c)
    pub unmounts :
        (t : Table) (p : FilePath)
        → mounted_at t p ≡ 1
        → ((has_fusermount ≡ true) × ((run (fusermount p) t).1 ≡ true))
          ⊎ ((has_umount ≡ true) × ((run (umount p) t).1 ≡ true))

  abbrev pub IsSame : Table → Table → Type 0
  IsSame t u = (p : FilePath) → mounted_at u p ≡ mounted_at t p

  -- `u` has the mounts of `t`, and one more at each of the places.
  abbrev pub IsOver : Table → List FilePath → Table → Type 0
  IsOver t places u = (p : FilePath) → mounted_at u p ≡ mounted_at t p + occurrences p places

  -- The places are distinct, and nothing is mounted there.
  abbrev pub IsFresh : Table → List FilePath → Type 0
  IsFresh t [] = Unit
  IsFresh t (p ∷ rest) = (mounted_at t p ≡ 0) × (occurrences p rest ≡ 0) × IsFresh t rest

  abbrev unmount_places : List FilePath → Table → Table
  unmount_places [] t = t
  unmount_places (p ∷ rest) t = unmount_places rest (unmount_at host p t)

  unmount_places-append :
      (ps qs : List FilePath) (t : Table)
      → unmount_places (ps ++ qs) t ≡ unmount_places qs (unmount_places ps t)
  unmount_places-append [] qs t = refl
  unmount_places-append (p ∷ ps) qs t = unmount_places-append ps qs (unmount_at host p t)

  mutual
    unfolding unmount unmount_all places places_all

    unmount_of : (h : MountHandle) (t : Table) → unmount host h t ≡ unmount_places (places h) t
    unmount_of (handle place command true lowers) t =
        unmount_all_of lowers (unmount_at host place t)
    unmount_of (handle place command false lowers) t = unmount_all_of lowers t

    unmount_all_of :
        (hs : MountHandles) (t : Table) → unmount_all host hs t ≡ unmount_places (places_all hs) t
    unmount_all_of nil t = refl
    unmount_all_of (cons h rest) t =
        unmount_all_of rest (unmount host h t)
        ∙ ap (unmount_places (places_all rest)) (unmount_of h t)
        ∙ sym (unmount_places-append (places h) (places_all rest) t)

  -- `u` is `t` with one mount less at the place.
  abbrev IsOff : FilePath → Table → Table → Type 0
  IsOff place t u = (p : FilePath) → mounted_at u p + occurrences p (place ∷ []) ≡ mounted_at t p

  module _ (lawful : IsLawful) where
    attempt :
        (found : Bool) (c : Command) (t : Table)
        → ((found ≡ true) × ((run c t).1 ≡ true)) ⊎ (run_if host found c t ≡ t)
    attempt false c t = inr refl
    attempt true c t = elim (Bool-cases ((run c t).1)) [
      | inl e ↦ inl (refl, e)
      | inr e ↦ inr (lawful.failed c t e)
    ]

    umount-IsOff :
        (place : FilePath) (t : Table)
        → (has_umount ≡ true) × ((run (umount place) t).1 ≡ true)
        → IsOff place t (run_if host has_umount (umount place) t)
    umount-IsOff place t (found, good) p =
        rw found (omega (arith, lawful.succeeded (umount place) t p good))

    fusermount-IsOff :
        (place : FilePath) (t : Table)
        → (has_fusermount ≡ true) × ((run (fusermount place) t).1 ≡ true)
        → IsOff place t (run_if host has_fusermount (fusermount place) t)
    fusermount-IsOff place t (found, good) p =
        rw found (omega (arith, lawful.succeeded (fusermount place) t p good))

    occurrences-one : (place : FilePath) → occurrences place (place ∷ []) ≡ 1
    occurrences-one place = rw (same_path_self place) refl

    -- Nothing can be taken off where nothing is mounted.
    umount_none :
        (place : FilePath) (u : Table)
        → mounted_at u place ≡ 0
        → run_if host has_umount (umount place) u ≡ u
    umount_none place u none_there = elim (attempt has_umount (umount place) u) [
      | inr same ↦ same
      | inl good ↦
          absurd (omega (arith, umount-IsOff place u good place, occurrences-one place, none_there))
    ]

    -- Where one thing is mounted, unmounting takes it off, and touches nothing else.
    pub unmount_at-IsOff :
        (place : FilePath) (t : Table)
        → mounted_at t place ≡ 1
        → IsOff place t (unmount_at host place t)
    unmount_at-IsOff place t one = elim (attempt has_fusermount (fusermount place) t) [
      | inl good ↦
          let off = fusermount-IsOff place t good in
          let none_there : mounted_at (run_if host has_fusermount (fusermount place) t) place ≡ 0 =
            omega (arith, off place, occurrences-one place, one) in
          rw (umount_none place (run_if host has_fusermount (fusermount place) t) none_there) off
      | inr same ↦ elim (lawful.unmounts t place one) [
        | inl (found, good) ↦ absurd (
            omega (
              arith,
              fusermount-IsOff place t (found, good) place,
              occurrences-one place,
              ap (λ u. mounted_at u place) same,
            ))
        | inr good ↦ rw same (umount-IsOff place t good)
      ]
    ]

    unmount_places-IsSame :
        (ps : List FilePath) (t u : Table)
        → IsFresh t ps
        → IsOver t ps u
        → IsSame t (unmount_places ps u)
    unmount_places-IsSame [] t u fresh over = λ p. omega (arith, over p)
    unmount_places-IsSame (p ∷ rest) t u (free, once, fresh) over =
        let one : mounted_at u p ≡ 1 = omega (arith, over p, occurrences-one p) in
        let off = unmount_at-IsOff p u one in
        unmount_places-IsSame rest t (unmount_at host p u) fresh (λ q. omega (arith, over q, off q))

    pub unmount_all-IsSame :
        (hs : MountHandles) (t u : Table)
        → IsFresh t (places_all hs)
        → IsOver t (places_all hs) u
        → IsSame t (unmount_all host hs u)
    unmount_all-IsSame hs t u fresh over =
        rw (unmount_all_of hs u) (unmount_places-IsSame (places_all hs) t u fresh over)

    pub unmount-IsSame :
        (h : MountHandle) (t u : Table)
        → IsFresh t (places h)
        → IsOver t (places h) u
        → IsSame t (unmount host h u)
    unmount-IsSame h t u fresh over =
        rw (unmount_of h u) (unmount_places-IsSame (places h) t u fresh over)
