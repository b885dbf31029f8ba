-- ===== src/CommitPolicy.antt =====
-- The auto-commit policy of src/ccc_storage_mountd/workers/policy.py. A time in seconds is a float
-- there: here a type with its order, its least and greatest of two, and its difference.
use ccc_storage.Base.{
  ℕ, ◌+◌, ◌≤◌, ◌<◌, ◌≡◌, ◌≢◌, refl, ◌↔◌, ◌⊎◌, String, Bool, true, false, not, ◌&&◌, Option, none,
  some, List, [], ◌∷◌, arith, leb, ◌==◌, str_eq, str_eq_iff, if◌then◌else◌,
}

pub data Decision : Type 0 where
  trigger manual noop : Decision

pub record Clock : Type 1 where
  pub Seconds : Type 0
  pub zero_seconds : Seconds
  pub at_least : Seconds → Seconds → Bool
  pub earlier : Seconds → Seconds → Seconds
  pub later : Seconds → Seconds → Seconds
  pub minus : Seconds → Seconds → Seconds

module _ (clock : Clock) where
  open clock use {Seconds, zero_seconds, at_least, earlier, later, minus}

  pub record CommitPolicy : Type 0 where
    pub mode : String
    pub max_dirty_bytes : ℕ
    pub max_file_count : ℕ
    pub min_quiet_seconds : Seconds
    pub max_age_seconds : Seconds

  pub record PolicyInputs : Type 0 where
    pub dirty : Bool
    pub bytes : ℕ
    pub file_count : ℕ
    pub age_seconds : Seconds
    pub quiet_seconds : Seconds

  unfoldable pub evaluate : CommitPolicy → PolicyInputs → Decision
  evaluate policy inputs =
      let quiet_ok = at_least inputs.quiet_seconds policy.min_quiet_seconds in
      if not inputs.dirty
      then noop
      else if str_eq policy.mode "manual"
      then manual
      else if leb policy.max_file_count inputs.file_count
      then trigger
      else if leb policy.max_dirty_bytes inputs.bytes && quiet_ok
      then trigger
      else if at_least inputs.age_seconds policy.max_age_seconds && quiet_ok
      then trigger
      else noop

  -- One entry under the upper: a directory, or a file or symbolic link with its size and
  -- modification time, if `lstat` gives them.
  pub data Entry : Type 0 where
    directory : Entry
    unreadable : Entry
    readable : ℕ → Seconds → Entry

  pub record Scan : Type 0 where
    pub count : ℕ
    pub total : ℕ
    pub oldest : Option Seconds
    pub newest : Option Seconds

  abbrev oldest_of : Option Seconds → Seconds → Seconds
  oldest_of none mtime = mtime
  oldest_of (some t) mtime = earlier t mtime

  abbrev newest_of : Option Seconds → Seconds → Seconds
  newest_of none mtime = mtime
  newest_of (some t) mtime = later t mtime

  -- The body of the loop, for an entry that can be read.
  abbrev add_readable : Scan → ℕ → Seconds → Scan
  add_readable s size mtime = record {
    count = s.count + 1;
    total = s.total + size;
    oldest = some (oldest_of s.oldest mtime);
    newest = some (newest_of s.newest mtime);
  }

  -- The loop over `upper.rglob("*")`; a missing upper has no entries.
  pub scan_upper : Scan → List Entry → Scan
  scan_upper s [] = s
  scan_upper s (directory ∷ rest) = scan_upper s rest
  scan_upper s (unreadable ∷ rest) = scan_upper (record s { count = s.count + 1 }) rest
  scan_upper s (readable size mtime ∷ rest) = scan_upper (add_readable s size mtime) rest

  abbrev no_scan : Scan
  no_scan = record { count = 0; total = 0; oldest = none; newest = none }

  abbrev or_now : Option Seconds → Seconds → Seconds
  or_now none now = now
  or_now (some t) now = t

  unfoldable pub overlay_inputs : List Entry → Seconds → PolicyInputs
  unfolding scan_upper
  overlay_inputs entries now =
      let s = scan_upper no_scan entries in
      if s.count == 0
      then record {
        dirty = false;
        bytes = 0;
        file_count = 0;
        age_seconds = zero_seconds;
        quiet_seconds = zero_seconds;
      }
      else record {
        dirty = true;
        bytes = s.total;
        file_count = s.count;
        age_seconds = minus now (or_now s.oldest now);
        quiet_seconds = minus now (or_now s.newest now);
      }

  -- What asks for a commit: very many files, or many bytes or old changes once it is quiet.
  abbrev pub IsDue : CommitPolicy → PolicyInputs → Type 0
  IsDue policy inputs =
      (policy.max_file_count ≤ inputs.file_count)
      ⊎ ((at_least inputs.quiet_seconds policy.min_quiet_seconds ≡ true)
          × ((policy.max_dirty_bytes ≤ inputs.bytes)
              ⊎ (at_least inputs.age_seconds policy.max_age_seconds ≡ true)))

  -- The policy wants a commit exactly if the child is dirty, its mode is not manual, and it has
  -- very many changed files, or many changed bytes or old changes and is quiet. Its answer is
  -- `manual` exactly if the child is dirty and its mode is manual.
  pub evaluate_iff :
      (policy : CommitPolicy) (inputs : PolicyInputs)
      → ((evaluate policy inputs ≡ trigger)
          ↔ ((inputs.dirty ≡ true) × (policy.mode ≢ "manual") × IsDue policy inputs))
        × ((evaluate policy inputs ≡ manual) ↔ ((inputs.dirty ≡ true) × (policy.mode ≡ "manual")))
  unfolding evaluate
  evaluate_iff policy inputs = ground (arith, str_eq_iff policy.mode "manual")

  -- The entries that are files or symbolic links.
  abbrev pub files : List Entry → ℕ
  files [] = 0
  files (directory ∷ rest) = files rest
  files (unreadable ∷ rest) = files rest + 1
  files (readable size mtime ∷ rest) = files rest + 1

  abbrev pub bytes_of : List Entry → ℕ
  bytes_of [] = 0
  bytes_of (directory ∷ rest) = bytes_of rest
  bytes_of (unreadable ∷ rest) = bytes_of rest
  bytes_of (readable size mtime ∷ rest) = bytes_of rest + size

  scan_upper_totals :
      (s : Scan) (entries : List Entry)
      → ((scan_upper s entries).count ≡ s.count + files entries)
        × ((scan_upper s entries).total ≡ s.total + bytes_of entries)
  unfolding scan_upper
  scan_upper_totals s [] = omega arith
  scan_upper_totals s (directory ∷ rest) = scan_upper_totals s rest
  scan_upper_totals s (unreadable ∷ rest) =
      omega (arith, scan_upper_totals (record s { count = s.count + 1 }) rest)
  scan_upper_totals s (readable size mtime ∷ rest) =
      omega (arith, scan_upper_totals (add_readable s size mtime) rest)

  bytes_of-files : (entries : List Entry) → files entries ≡ 0 → bytes_of entries ≡ 0
  bytes_of-files [] h = refl
  bytes_of-files (directory ∷ rest) h = bytes_of-files rest h
  bytes_of-files (unreadable ∷ rest) h = absurd (omega arith)
  bytes_of-files (readable size mtime ∷ rest) h = absurd (omega arith)

  -- What the policy is told of an upper: it is dirty exactly if it holds a file or a symbolic
  -- link, unreadable ones included, their number, and the bytes of those that can be read.
  overlay_inputs-files :
      (entries : List Entry) (now : Seconds)
      → (((overlay_inputs entries now).dirty ≡ true) ↔ (0 < files entries))
        × ((overlay_inputs entries now).file_count ≡ files entries)
        × ((overlay_inputs entries now).bytes ≡ bytes_of entries)
  unfolding overlay_inputs
  overlay_inputs-files entries now =
      ground (arith, scan_upper_totals no_scan entries, bytes_of-files entries)
