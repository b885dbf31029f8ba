-- ===== src/Tests/ColdStorage.antt =====
-- Archives and recalls on a small store (archive.py, policy.py, object_store.py).
use ccc_storage.Base.{
  os_error, str_eq, All, ℕ, ◌-◌, ◌≡◌, refl, ◌↔◌, String, Bool, true, false, Option, some, List, [],
  ◌∷◌, map, Result, ok, raised, recall_error, object_store_error, leb, if◌then◌else◌,
}
use ccc_storage.Base.Text.{strip}
use ccc_storage.Base.Dict.{Dict, lookup, assign, discard}
use ccc_storage.Paths.{count, name, split, kept_parts, normalize}
use ccc_storage.Manifest.{PackInfo, ChildManifest, new_pack, new_manifest}
use ccc_storage.Manifest.Value.{Fields}
use ccc_storage.Manifest.Encode.{manifest_to_dict}
use ccc_storage.Manifest.WritePolicy.{normalize_write_policy, normalize_write_policy-shared}
use ccc_storage.CommitPolicy.{Clock}
use ccc_storage.ObjectStore.{ObjectStore, local_store, clean_place}
use ccc_storage.Cold.Objects.{DistinctKeys}
use ccc_storage.Cold.Keeping.{IsKept, archive-IsKept}
use ccc_storage.Cold.Staging.{DistinctNames, moved, hot_path}
use ccc_storage.Cold.RoundTrip.{IsSound, IsRestored, recall-archive}
use ccc_storage.Cold.Returns.{IsReady, IsAccepted, archive-returns}
use ccc_storage.Cold.Policy.{
  archive_decision, hot_packs_present, last_access_epoch, IsEligible, archive_decision_iff,
}
use ccc_storage.Cold.{
  manifest_key, Machine, ColdArchiveResult, upload_all, remove_all, archived_manifest,
  archive_committed_packs_to_cold_storage, recalled_manifest, stage_all, publish_all,
  recall_cold_storage_packs,
}

abbrev store : ObjectStore String
store = local_store String

-- A file is a text, which stands for its checksum too.
abbrev sha256 : String → String
sha256 blob = blob

abbrev document : Fields → String
document d = "toml"

abbrev machine : Machine String store
machine = record {
  files = ("/hot/g1.sqfs", "one") ∷ ("/hot/g2.sqfs", "three") ∷ ("/etc/fstab", "x") ∷ [];
  documents = [];
  objects = [];
  refuses = λ path. false;
}

abbrev manifest : ChildManifest
manifest = record (new_manifest "p:x" "x" "dataset" 2) {
  pack_stack = record {
    active_revision = "g2";
    lowers = new_pack "/hot/g1.sqfs" "one" 3 ∷ new_pack "/hot/g2.sqfs" "three" 5 ∷ [];
  };
}

abbrev archived : ChildManifest
archived = archived_manifest String store document manifest "/cold/x/" true "s3" "now"

abbrev objects : Dict String
objects =
    ("cold/x/packs/g1.sqfs", "one")
    ∷ ("cold/x/packs/g2.sqfs", "three")
    ∷ ("cold/x/manifest.toml", "toml")
    ∷ []

abbrev result : ColdArchiveResult
result = record {
  manifest = archived;
  uploaded_keys = "cold/x/packs/g1.sqfs" ∷ "cold/x/packs/g2.sqfs" ∷ "cold/x/manifest.toml" ∷ [];
  removed_hot_paths = "/hot/g1.sqfs" ∷ "/hot/g2.sqfs" ∷ [];
}

archive_files :
    (archive_committed_packs_to_cold_storage String store document manifest "m.toml" "/cold/x/" true
      "s3" "now" machine).0.files
    ≡ ("/etc/fstab", "x") ∷ []
unfolding archive_committed_packs_to_cold_storage upload_all remove_all clean_place strip normalize
    name lookup assign discard manifest_to_dict normalize_write_policy split kept_parts
archive_files = refl

abbrev archive : Machine String store → Machine String store × Result ColdArchiveResult
archive =
    archive_committed_packs_to_cold_storage String store document manifest "m.toml" "/cold/x/" true
      "s3" "now"

abbrev after : Machine String store
after = (archive machine).0

archive_run : archive machine ≡ (after, ok result)
unfolding archive_committed_packs_to_cold_storage upload_all remove_all clean_place strip normalize
    name lookup assign discard manifest_to_dict normalize_write_policy split kept_parts
archive_run = refl

abbrev recall : Machine String store → Machine String store × Result ChildManifest
recall =
    recall_cold_storage_packs String store sha256 count archived "m.toml" "/new" "later" "later"

abbrev packs : List PackInfo
packs = manifest.pack_stack.lowers

keys : DistinctKeys String store "/cold/x/" packs
unfolding clean_place strip normalize name split kept_parts
keys = (((refl, tt), refl, ((tt, refl, tt))))

names : DistinctNames "/new" packs
unfolding name split kept_parts
names = ((refl, tt), (tt, tt))

sound_blob :
    (b want : String) (n : ℕ)
    → count want ≡ n
    → some want ≡ some b
    → (sha256 b ≡ want) × (count b ≡ n)
sound_blob b want n size h = let eq : want ≡ b = cc in rw (← eq) (refl, size)

sound : IsSound String store sha256 count packs machine.files
unfolding lookup
sound = (λ b h. sound_blob b "one" 3 refl h, (λ b h. sound_blob b "three" 5 refl h, tt))

placeable : All (λ p. after.refuses (hot_path "/new" p) ≡ false) packs
unfolding archive_committed_packs_to_cold_storage upload_all remove_all clean_place strip normalize
    name lookup assign discard manifest_to_dict normalize_write_policy split kept_parts
placeable = (refl, (refl, tt))

recall-archive_example :
    (final : Machine String store) × (restored : ChildManifest) × (recall after
      ≡ (final, ok restored))
    × IsRestored String store sha256 count "/new" packs machine.files final.files
    × (restored.pack_stack.lowers ≡ map (moved "/new") packs)
recall-archive_example =
    recall-archive String store sha256 count document manifest "m.toml" "/cold/x/" true "s3" "now"
      machine after result "/new" "later" "later" archive_run keys names sound
      (unfold strip in refl) placeable

-- One file is missing: the archive raises after it has uploaded the other.
abbrev torn : Machine String store
torn = record machine { files = ("/hot/g1.sqfs", "one") ∷ [] }

torn_run : (archive torn).1 ≡ raised object_store_error
unfolding archive_committed_packs_to_cold_storage upload_all remove_all clean_place strip normalize
    name lookup assign discard manifest_to_dict normalize_write_policy split kept_parts
torn_run = refl

-- One object is cut short: the recall raises.
abbrev corrupt : Machine String store
corrupt = record machine {
  objects = ("cold/x/packs/g1.sqfs", "one") ∷ ("cold/x/packs/g2.sqfs", "thr") ∷ [];
}

corrupt_run : (recall corrupt).1 ≡ raised recall_error
unfolding recall_cold_storage_packs stage_all publish_all clean_place strip normalize name lookup
    assign manifest_to_dict normalize_write_policy split kept_parts
corrupt_run = refl

abbrev stocked : Machine String store
stocked = record { files = []; documents = []; objects = objects; refuses = λ path. false }

abbrev restored : ChildManifest
restored =
    recalled_manifest String store sha256 count archived (map (moved "/new") packs) "later" "later"

ready : IsReady String store "/cold/x/" packs machine.files
unfolding lookup clean_place strip normalize name split kept_parts
ready =
    ((("one", refl), λ blob before. (_, refl)), ((("three", refl), λ blob before. (_, refl)), tt))

accepted : IsAccepted String store (manifest_key "/cold/x/")
unfolding clean_place strip normalize split kept_parts
accepted blob before = (_, refl)

archive-returns_example :
    (m : Machine String store) × (r : ColdArchiveResult) × (archive machine ≡ (m, ok r))
archive-returns_example =
    archive-returns String store document manifest "m.toml" "/cold/x/" true "s3" "now" "shared-nfs"
      machine ready accepted normalize_write_policy-shared (refl, (refl, tt))

abbrev seconds : Clock
seconds = record {
  Seconds = ℕ;
  zero_seconds = 0;
  at_least = λ a b. leb b a;
  earlier = λ a b. if leb a b then a else b;
  later = λ a b. if leb a b then b else a;
  minus = λ a b. a - b;
}

abbrev is_file : String → Bool
is_file path = true

abbrev parse_time : String → Option ℕ
parse_time text = some (count text)

abbrev idle : ChildManifest
idle = record manifest { s3 = record manifest.s3 { last_accessed_at = "12345" } }

archive_decision_iff_example :
    ((archive_decision seconds is_file parse_time idle false false 90 100).is_eligible ≡ true)
    ↔ IsEligible seconds is_file parse_time idle false false 90 100
archive_decision_iff_example =
    archive_decision_iff seconds is_file parse_time idle false false 90 100

archive_decision_runs :
    ((archive_decision seconds is_file parse_time idle false false 95 100).is_eligible ≡ true)
    × ((archive_decision seconds is_file parse_time idle false false 96 100).is_eligible ≡ false)
unfolding archive_decision hot_packs_present last_access_epoch
archive_decision_runs = (refl, refl)

-- The disk does not delete the second file: the first is gone, and the manifest says that both are.
abbrev stuck : Machine String store
stuck = record machine { refuses = λ path. str_eq path "/hot/g2.sqfs" }

stuck_run :
    ((archive stuck).1 ≡ raised os_error)
    × ((archive stuck).0.files ≡ ("/hot/g2.sqfs", "three") ∷ ("/etc/fstab", "x") ∷ [])
unfolding archive_committed_packs_to_cold_storage upload_all remove_all clean_place strip normalize
    name lookup assign discard manifest_to_dict normalize_write_policy split kept_parts
stuck_run = (refl, refl)

archive-IsKept_example : IsKept String store document "/cold/x/" packs stuck (archive stuck).0
archive-IsKept_example =
    archive-IsKept String store document manifest "m.toml" "/cold/x/" true "s3" "now" stuck keys
