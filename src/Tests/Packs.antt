-- ===== src/Tests/Packs.antt =====
-- Views of packs on a host whose programs all work (reader.py).
use ccc_storage.Base.{
  ℕ, ◌+◌, ◌-◌, ◌≡◌, ◌<◌, refl, ap, inl, inr, Bool, true, false, List, [], ◌∷◌, ltb, if◌then◌else◌,
  Bool-cases, arith, ok,
}
use ccc_storage.Manifest.{PackInfo, new_pack}
use ccc_storage.PackReader.{
  FilePath, path, child, nth, hidden, same_path, Command, mount_squashfs, squashfuse,
  fuse_overlayfs, fuse_overlayfs_rw, mount_overlay, mount_bind, remount_ro, fusermount, umount,
  handle, nil, cons, Host, UpperPaths, mount_stack_ro, mount_layered_rw,
  mount_layered_rw_kernel_overlay, mount_dirs_and_packs_ro, mount_bind_ro, mount_ro, mount_lowers,
}
use ccc_storage.PackReader.Unmount.{same_path_eq, adds, removes, occurrences, IsLawful}
use ccc_storage.PackReader.Compose.{IsView}
use ccc_storage.PackReader.Views.{IsUnused, mount-IsView}

-- How many things are mounted at each place.
abbrev Mounts : Type 0
Mounts = FilePath → ℕ

abbrev mount_at : FilePath → Mounts → Mounts × Bool
mount_at place t = (λ p. t p + occurrences p (place ∷ []), true)

abbrev take_off : FilePath → Mounts → Mounts × Bool
take_off place t =
    if ltb 0 (t place) then (λ p. t p - occurrences p (place ∷ []), true) else (t, false)

abbrev perform : Command → Mounts → Mounts × Bool
perform (mount_squashfs pack mnt) t = mount_at mnt t
perform (squashfuse pack mnt) t = mount_at mnt t
perform (fuse_overlayfs dirs mnt) t = mount_at mnt t
perform (fuse_overlayfs_rw dirs upper work mnt) t = mount_at mnt t
perform (mount_overlay dirs upper work mnt) t = mount_at mnt t
perform (mount_bind source mnt) t = mount_at mnt t
perform (remount_ro mnt) t = (t, true)
perform (fusermount mnt) t = take_off mnt t
perform (umount mnt) t = take_off mnt t

abbrev pub host : Host
host = record {
  Table = Mounts;
  run = perform;
  mounted_at = λ t p. t p;
  has_mount = true;
  has_squashfuse = true;
  has_fuse_overlayfs = true;
  has_fusermount = true;
  has_umount = true;
  is_dir = λ p. true;
}

take_off_failed :
    (place : FilePath) (t : Mounts) → (take_off place t).1 ≡ false → (take_off place t).0 ≡ t
take_off_failed place t h = elim (Bool-cases (ltb 0 (t place))) [
  | inl e ↦ absurd (ground (arith, e, h))
  | inr e ↦ rw e refl
]

take_off_fits :
    (place : FilePath) (t : Mounts) (p : FilePath)
    → 0 < t place
    → (t p - occurrences p (place ∷ [])) + occurrences p (place ∷ []) ≡ t p
take_off_fits place t p h = elim (Bool-cases (same_path place p)) [
  | inl e ↦ let q : t place ≡ t p = ap t (same_path_eq place p e) in rw e (omega arith)
  | inr e ↦ rw e (omega arith)
]

take_off_succeeded :
    (place : FilePath) (t : Mounts) (p : FilePath)
    → (take_off place t).1 ≡ true
    → (take_off place t).0 p + occurrences p (place ∷ []) ≡ t p + 0
take_off_succeeded place t p h = elim (Bool-cases (ltb 0 (t place))) [
  | inl e ↦ rw e (omega (arith, take_off_fits place t p (ground (arith, e))))
  | inr e ↦ absurd (ground (arith, e, h))
]

perform_failed : (c : Command) (t : Mounts) → (perform c t).1 ≡ false → (perform c t).0 ≡ t
perform_failed (mount_squashfs pack mnt) t h = absurd (cc)
perform_failed (squashfuse pack mnt) t h = absurd (cc)
perform_failed (fuse_overlayfs dirs mnt) t h = absurd (cc)
perform_failed (fuse_overlayfs_rw dirs upper work mnt) t h = absurd (cc)
perform_failed (mount_overlay dirs upper work mnt) t h = absurd (cc)
perform_failed (mount_bind source mnt) t h = absurd (cc)
perform_failed (remount_ro mnt) t h = absurd (cc)
perform_failed (fusermount mnt) t h = take_off_failed mnt t h
perform_failed (umount mnt) t h = take_off_failed mnt t h

perform_succeeded :
    (c : Command) (t : Mounts) (p : FilePath)
    → (perform c t).1 ≡ true
    → (perform c t).0 p + occurrences p (removes c) ≡ t p + occurrences p (adds c)
perform_succeeded (mount_squashfs pack mnt) t p h = omega arith
perform_succeeded (squashfuse pack mnt) t p h = omega arith
perform_succeeded (fuse_overlayfs dirs mnt) t p h = omega arith
perform_succeeded (fuse_overlayfs_rw dirs upper work mnt) t p h = omega arith
perform_succeeded (mount_overlay dirs upper work mnt) t p h = omega arith
perform_succeeded (mount_bind source mnt) t p h = omega arith
perform_succeeded (remount_ro mnt) t p h = omega arith
perform_succeeded (fusermount mnt) t p h = take_off_succeeded mnt t p h
perform_succeeded (umount mnt) t p h = take_off_succeeded mnt t p h

host-IsLawful : IsLawful host
host-IsLawful = record {
  failed = perform_failed;
  succeeded = perform_succeeded;
  unmounts = λ t p one. inl (refl, rw one refl);
}

abbrev pub nothing : Mounts
nothing p = 0

abbrev scratch : FilePath
scratch = path "/run/stacks/a"

abbrev place : FilePath
place = path "/run/mounts/a"

abbrev upper : UpperPaths
upper = record { active_upper = path "/nfs/a/active"; work = path "/nfs/a/work" }

abbrev pub two_packs : List PackInfo
two_packs = new_pack "base.sqfs" "0" 1 ∷ new_pack "delta.sqfs" "1" 1 ∷ []

nothing-IsUnused : IsUnused host host-IsLawful nothing place scratch
nothing-IsUnused = record {
  free = refl;
  stack_lowers = λ i. refl;
  lowers = λ i. refl;
  lower = refl;
  lower_lowers = λ i. refl;
}

-- The newest pack is on top.
mount_stack_ro_runs : (mount_stack_ro host false two_packs (path "/m") nothing).1 ≡ (
    let lowers = child (hidden (path "/m") ".stack") "lowers" in
    ok (
      handle (path "/m") (fuse_overlayfs (nth lowers 1 ∷ nth lowers 0 ∷ []) (path "/m")) true (
        cons
          (handle (nth lowers 1) (squashfuse "delta.sqfs" (nth lowers 1)) true nil)
          (cons (handle (nth lowers 0) (squashfuse "base.sqfs" (nth lowers 0)) true nil) nil))))
unfolding mount_stack_ro mount_lowers mount_ro
mount_stack_ro_runs = refl

mount-IsView_example :
    IsView host nothing place (mount_stack_ro host false two_packs place nothing)
    × IsView host nothing place (mount_layered_rw host false two_packs upper scratch place nothing)
    × IsView host nothing place
        (mount_layered_rw_kernel_overlay host false two_packs upper scratch place nothing)
    × ((top : FilePath) (more : List FilePath)
        → IsView host nothing place
            (mount_dirs_and_packs_ro host false top more two_packs scratch place nothing))
    × ((source : FilePath) → IsView host nothing place (mount_bind_ro host source place nothing))
mount-IsView_example =
    mount-IsView host host-IsLawful false two_packs upper scratch "/run/mounts/a" nothing
      nothing-IsUnused
