-- ===== src/Cold.antt =====
-- src/ccc_storage_cold/archive.py: uploading a pack stack to cold storage, evicting the hot files,
-- and recalling them. Files have the paths as the manifest writes them, and the bytes of a file, its
-- checksum, its size and the text of a document are parameters, as are the two times of a call. The
-- disk may refuse to delete a hot file and to put a recalled one in its place; it does not refuse to
-- write a manifest here, and the temporary files of a recall are not kept.
pub mod Policy
pub mod Upload
pub mod Staging
pub mod Recall
pub mod Objects
pub mod Eviction
pub mod Archive
pub mod RoundTrip
pub mod Returns
pub mod Keeping
use Prim.Native.String.{◌++◌ as ◌<>◌}
use ccc_storage.Base.{
  String, ℕ, Bool, true, false, not, ◌||◌, ◌==◌, Option, none, some, List, [], ◌∷◌, ◌++◌, Result,
  raised, ok, object_store_error, os_error, recall_error, Exception, str_eq, if◌then◌else◌,
}
use ccc_storage.Base.{◌>>=◌ as ◌>>>◌}
use ccc_storage.Base.Action.{◌>>=◌, go_on, return}
use ccc_storage.Base.Text.{is_empty, is_slash, strip}
use ccc_storage.Base.Dict.{Dict, lookup, assign, discard}
use ccc_storage.Paths.{name}
use ccc_storage.Manifest.{PackInfo, PackStack, ColdStorageInfo, ChildManifest}
use ccc_storage.Manifest.Value.{Fields}
use ccc_storage.Manifest.Encode.{manifest_to_dict}
use ccc_storage.ObjectStore.{ObjectStore}

abbrev pub pack_key : String → PackInfo → String
pack_key prefix pack = strip is_slash prefix <> ("/packs/" <> name pack.path)

abbrev pub manifest_key : String → String
manifest_key prefix = strip is_slash prefix <> "/manifest.toml"

-- `str(out_dir / name)`, where `out_dir` is written as a path is.
abbrev pub below : String → String → String
below out_dir name = out_dir <> ("/" <> name)

abbrev pub cold_state : ChildManifest → String → String → String → String → String → ColdStorageInfo
cold_state manifest prefix pack_state backend mode stamp = record manifest.s3 {
  backend = backend;
  mode = mode;
  pack_state = pack_state;
  snapshot_state = "available";
  pack_generation = manifest.generation;
  mirror_generation = manifest.generation;
  overlay_generation = manifest.overlay.overlay_generation;
  uri = strip is_slash prefix;
  archived_at = if str_eq pack_state "cold" then stamp else manifest.s3.archived_at;
  last_mirrored_at = stamp;
}

abbrev pub manifest_with_cold_state :
    ChildManifest → String → String → String → String → String → ChildManifest
manifest_with_cold_state manifest prefix pack_state backend mode stamp = record manifest {
  s3 = cold_state manifest prefix pack_state backend mode stamp;
}

pub record MirrorResult : Type 0 where
  pub manifest : ChildManifest
  pub uploaded_keys : List String

pub record ColdArchiveResult : Type 0 where
  pub manifest : ChildManifest
  pub uploaded_keys : List String
  pub removed_hot_paths : List String

module _ (Blob : Type 0) (store : ObjectStore Blob) where
  -- The files on disk, the manifests on disk, the objects of the store, and the paths at which
  -- the disk refuses to delete a file or to put a recalled one.
  pub record Machine : Type 0 where
    pub files : Dict Blob
    pub documents : Dict Fields
    pub objects : store.Objects
    pub refuses : String → Bool

  abbrev pub stored : Machine → Result store.Objects → Machine × Result {0} Unit
  stored m (raised e) = (m, raised e)
  stored m (ok objects) = (record m { objects = objects }, ok tt)

  abbrev pub put_found : String → Machine → Option Blob → Machine × Result {0} Unit
  put_found key m none = (m, raised object_store_error)
  put_found key m (some blob) = stored m (store.put key blob m.objects)

  -- `store.put_file(key, path)`
  abbrev pub put_file : String → String → Machine → Machine × Result {0} Unit
  put_file key path m = put_found key m (lookup m.files path)

  abbrev pub dumped : String → Machine → Result Fields → Machine × Result {0} Unit
  dumped path m (raised e) = (m, raised e)
  dumped path m (ok d) = (record m { documents = assign m.documents path d }, ok tt)

  abbrev pub dump_atomic : String → ChildManifest → Machine → Machine × Result {0} Unit
  dump_atomic path manifest m = dumped path m (manifest_to_dict manifest)

  unfoldable pub upload_all : String → List PackInfo → Machine → Machine × Result (List String)
  upload_all prefix [] = return []
  upload_all prefix (pack ∷ rest) = do
    done ← put_file (pack_key prefix pack) pack.path
    keys ← upload_all prefix rest
    return (pack_key prefix pack ∷ keys)

  -- `if path.exists(): path.unlink(); removed.append(...)`
  abbrev pub unlink_found : PackInfo → Machine → Option Blob → Machine × Result (List String)
  unlink_found pack m none = (m, ok [])
  unlink_found pack m (some blob) =
      if m.refuses pack.path
      then (m, raised os_error)
      else (record m { files = discard m.files pack.path }, ok (pack.path ∷ []))

  -- The loop that removes the hot files, and the paths removed.
  unfoldable pub remove_all : List PackInfo → Machine → Machine × Result (List String)
  remove_all [] m = (m, ok [])
  remove_all (pack ∷ rest) m =
      go_on (unlink_found pack m (lookup m.files pack.path))
        (λ removed m1. go_on (remove_all rest m1) (λ later m2. (m2, ok (removed ++ later))))

  abbrev pub remove_if : Bool → List PackInfo → Machine → Machine × Result (List String)
  remove_if true packs m = remove_all packs m
  remove_if false packs m = (m, ok [])

  module _ (document : Fields → Blob) where
    abbrev pub put_document : String → Machine → Result Fields → Machine × Result {0} Unit
    put_document key m (raised e) = (m, raised e)
    put_document key m (ok d) = stored m (store.put key (document d) m.objects)

    -- `_put_manifest_object`: the temporary file is gone when it returns.
    abbrev pub put_manifest_object : String → ChildManifest → Machine → Machine × Result {0} Unit
    put_manifest_object key manifest m = put_document key m (manifest_to_dict manifest)

    unfoldable pub mirror_committed_packs_to_cold_storage :
        ChildManifest
        → String
        → String
        → String
        → Bool
        → String
        → Machine
        → Machine × Result MirrorResult
    mirror_committed_packs_to_cold_storage manifest path prefix backend persist stamp = do
      keys ← upload_all prefix manifest.pack_stack.lowers
      let mirrored = manifest_with_cold_state manifest prefix "hot" backend "mirror" stamp
      done ← put_manifest_object (manifest_key prefix) mirrored
      done ← if persist then dump_atomic path mirrored else return tt
      return (record { manifest = mirrored; uploaded_keys = keys ++ manifest_key prefix ∷ [] })

    -- What `archive_committed_packs_to_cold_storage` does when all is uploaded and written.
    abbrev pub evicted :
        ChildManifest
        → List PackInfo
        → List String
        → Bool
        → Machine
        → Machine × Result ColdArchiveResult
    evicted archived packs keys remove_hot m = go_on (remove_if remove_hot packs m) (λ removed m1. (
      m1,
      ok (record { manifest = archived; uploaded_keys = keys; removed_hot_paths = removed }),
    ))

    abbrev pub archived_manifest : ChildManifest → String → Bool → String → String → ChildManifest
    archived_manifest manifest prefix remove_hot backend stamp =
        manifest_with_cold_state manifest prefix (if remove_hot then "cold" else "hot") backend
          (if remove_hot then "archive" else "mirror") stamp

    unfoldable pub archive_committed_packs_to_cold_storage :
        ChildManifest
        → String
        → String
        → Bool
        → String
        → String
        → Machine
        → Machine × Result ColdArchiveResult
    archive_committed_packs_to_cold_storage manifest path prefix remove_hot backend stamp = do
      keys ← upload_all prefix manifest.pack_stack.lowers
      let archived = archived_manifest manifest prefix remove_hot backend stamp
      done ← put_manifest_object (manifest_key prefix) archived
      done ← dump_atomic path archived
      evicted archived manifest.pack_stack.lowers (keys ++ manifest_key prefix ∷ []) remove_hot

  module _ (sha256 : Blob → String) (size_of : Blob → ℕ) where
    -- `except ObjectStoreError as exc: raise RecallError(str(exc)) from exc`
    abbrev pub recall_failure : Exception → Exception
    recall_failure object_store_error = recall_error
    recall_failure e = e

    abbrev pub verified : PackInfo → Result Blob → Result Blob
    verified pack (raised e) = raised (recall_failure e)
    verified pack (ok blob) =
        if not (str_eq (sha256 blob) pack.sha256) || not (size_of blob == pack.size)
        then raised recall_error
        else ok blob

    pub record Staged : Type 0 where
      pub blob : Blob
      pub final : String
      pub pack : PackInfo

    -- The first loop: the temporary files, which are removed again if it raises.
    unfoldable pub stage_all :
        String → String → List PackInfo → store.Objects → Result (List Staged)
    stage_all uri hot_dir [] objects = ok []
    stage_all uri hot_dir (pack ∷ rest) objects =
        verified pack (store.fetch (pack_key uri pack) objects) >>> λ blob.
        stage_all uri hot_dir rest objects >>> λ staged.
        ok (record { blob = blob; final = below hot_dir (name pack.path); pack = pack } ∷ staged)

    -- The second loop: each temporary file takes its final path.
    abbrev pub recalled_next :
        Staged → Dict Blob × Result (List PackInfo) → Dict Blob × Result (List PackInfo)
    recalled_next s (files, raised e) = (files, raised e)
    recalled_next s (files, ok recalled) = (files, ok (record s.pack { path = s.final } ∷ recalled))

    unfoldable pub publish_all :
        (String → Bool) → List Staged → Dict Blob → Dict Blob × Result (List PackInfo)
    publish_all refuses [] files = (files, ok [])
    publish_all refuses (s ∷ rest) files =
        let later = publish_all refuses rest (assign files s.final s.blob) in
        if refuses s.final then (files, raised os_error) else recalled_next s later

    abbrev pub recalled_manifest : ChildManifest → List PackInfo → String → String → ChildManifest
    recalled_manifest manifest packs recalled_at accessed_at = record manifest {
      s3 = record manifest.s3 {
        pack_state = "hot";
        mode = "recalled";
        last_recalled_at = recalled_at;
        last_accessed_at = accessed_at;
      };
      pack_stack = record manifest.pack_stack { lowers = packs };
    }

    abbrev pub written : ChildManifest → Machine × Result {0} Unit → Machine × Result ChildManifest
    written manifest (m, raised e) = (m, raised e)
    written manifest (m, ok done) = (m, ok manifest)

    abbrev pub hot_again :
        ChildManifest
        → String
        → String
        → String
        → Machine
        → Dict Blob × Result (List PackInfo)
        → Machine × Result ChildManifest
    hot_again manifest path recalled_at accessed_at m (files, raised e) =
        (record m { files = files }, raised e)
    hot_again manifest path recalled_at accessed_at m (files, ok recalled) =
        let updated = recalled_manifest manifest recalled recalled_at accessed_at in
        written updated (dump_atomic path updated (record m { files = files }))

    abbrev pub published :
        ChildManifest
        → String
        → String
        → String
        → Machine
        → Result (List Staged)
        → Machine × Result ChildManifest
    published manifest path recalled_at accessed_at m (raised e) = (m, raised e)
    published manifest path recalled_at accessed_at m (ok staged) =
        hot_again manifest path recalled_at accessed_at m (publish_all m.refuses staged m.files)

    unfoldable pub recall_cold_storage_packs :
        ChildManifest → String → String → String → String → Machine → Machine × Result ChildManifest
    recall_cold_storage_packs manifest path hot_dir recalled_at accessed_at m =
        if is_empty manifest.s3.uri
        then (m, raised recall_error)
        else published manifest path recalled_at accessed_at m
            (stage_all manifest.s3.uri hot_dir manifest.pack_stack.lowers m.objects)
