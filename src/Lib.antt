-- ===== src/Lib.antt =====
-- CCC storage serves folders of many small files from stacks of immutable packs with a writable
-- overlay on top. A commit turns the overlay into the newest pack of the stack; compaction merges
-- the newest packs of a stack into one; a parent's manifest gives some of its paths to children,
-- which have stacks of their own; and retired packs are deleted once nothing needs them.
--
-- Each file below stands for one part of the program:
--
-- - Manifest, with the children Value, Encode, Decode, WritePolicy, Parts and RoundTrip:
--   src/ccc_storage_core/manifest.py. The records keep the fields of the dataclasses; to_dict and
--   from_dict of a class C are C_to_dict and C_from_dict (pack, stack, overlay, cold, boundary,
--   manifest) on the values of a TOML document.
-- - Paths and Resolve, with Owner and Parents: src/ccc_storage_core/resolve.py. Paths holds the
--   operations on texts that `_normalize` and the boundary test use; Resolve the functions under
--   their own names.
-- - Levels, with Placement, Stack, Search, Plan and Blocked:
--   src/ccc_storage_mountd/workers/levels.py. LevelPolicy and its methods, choose_initial_level,
--   target_level_for, _is_valid_stack and plan_level_compaction.
-- - Compaction, with Ranges, Paths, Indexes, Publish, Healing and Trigger:
--   src/ccc_storage_mountd/workers/compaction.py. with_compaction_metadata,
--   publish_partial_compaction, publish_consolidation, and plan_compaction in Trigger.
-- - Gc: plan_gc of src/ccc_storage_mountd/workers/gc.py.
-- - ObjectStore: src/ccc_storage_cold/object_store.py. The protocol as a record of operations and
--   laws, and LocalObjectStore as an instance.
-- - Cold, with Upload, Objects, Eviction, Archive, Keeping, Staging, Recall, Returns,
--   RoundTrip:
--   src/ccc_storage_cold/archive.py, as functions on a machine of files, manifests and objects, so
--   that what was done before an exception stays done. Cold.Policy:
--   src/ccc_storage_cold/policy.py.
-- - ManagedParent, with Children and Renaming: src/ccc_storage_mountd/managed_parent.py. The
--   manifests of the directory are a dict from file names to documents. The overlay's upper, whether
--   the create lock is held and whether the overlay is dirty are given to the calls.
-- - Protocol: src/ccc_storage_core/protocol.py, on dicts; the line of JSON is not modelled.
-- - Hpc, with Closure and ImportQueue: src/ccc_storage_hpc/closure.py, and StagedPackset.lookup of
--   src/ccc_storage_hpc/client.py as lookup_path; src/ccc_storage_hpc/importqueue.py.
-- - Locks, with Exclusion: src/ccc_storage_core/locks.py. A call is one step on the lock file and the
--   lock object; Exclusion lets any number of objects call in any order.
-- - AutoCommit: tick and poke of src/ccc_storage_mountd/workers/auto_commit.py, with the commit of the service
--   as a call that may raise.
-- - Overlay, with Tree, Mirror and Atomic: src/ccc_storage_mountd/overlay.py. The trees of an upper,
--   dirty_stats, and a publication of the dirty mirror as the list of changes that it makes, so that it
--   can be stopped after any of them.
-- - PackReader, with Unmount, Lowers, Compose and Views: src/ccc_storage_pack/reader.py. The programs
--   that mount and unmount are parameters with what they document as laws on the table of mounts.
-- - Names: src/ccc_storage_core/names.py.
-- - ChildMounts: src/ccc_storage_mountd/childmount.py, the records and the read-only mounts, with
--   Writable for the writable mounts and Release for publishing, releasing and unmounting. The other
--   children carry the invariant of Locking over the calls, and Steps lets them follow each other; calls
--   that overlap are not modelled. The
--   clock is asked once for each call, and the upper and the mirror of a child are those of Overlay.
-- - Commit, with Merge, Following, Packing, Mirroring, Followed, Calls, Building, Outcome, Handler
--   and Returns: handle_commit of
--   src/ccc_storage_mountd/daemon.py with what it calls there, in
--   src/ccc_storage_pack/builder.py and src/ccc_storage_pack/verify.py, on one child with its packs,
--   uppers, mirror and locks. The programs that write and extract packs are parameters. Following has
--   what a commit is followed by under trigger_after_commit and mirror_after_commit, over Compaction and
--   Cold, and Merge the merge of extracted packs.
-- - EnvTxn, with Safety: src/ccc_storage_mountd/env_txn.py, over the commit. The package manager and
--   the check are parameters, with what they leave alone as a hypothesis.
-- - CommitPolicy: evaluate and overlay_inputs of src/ccc_storage_mountd/workers/policy.py.
-- - Base: what the parts share. Results with Python's exceptions, tests, lists, texts and dicts.
-- - Tests: runs on concrete data.
--
-- Numbers of the program that are never negative (sizes, generations, levels, counts) are natural
-- numbers. Loops are recursion on the list they run over, so no fuel is needed; the search of the
-- planner runs over the suffixes of the stack. Exceptions are the constructors of a result type,
-- without their messages. `strip` and `lower` are those of ASCII texts. Python's `str` of a value
-- that is no text, its `int` of a text, and the seconds of the commit policy, which are floats, are
-- parameters, and so are the bytes of a file with their checksum and size, and the text of a TOML
-- document. A path is the text by which a manifest names it, so two names of one file are two
-- paths.
--
-- Not modelled: reading and writing files, the FUSE layer, sockets, processes, the S3 client and
-- command lines; and, of the files above, the parsers of the level text and the TOML printer. Where
-- a part does not say otherwise, manifests can be written, files removed and owners set: such calls
-- of the operating system do not raise there.
pub mod Base
pub mod Manifest
pub mod Levels
pub mod Compaction
pub mod Gc
pub mod Overlay
pub mod PackReader
pub mod Names
pub mod ChildMounts
pub mod Commit
pub mod EnvTxn
pub mod CommitPolicy
pub mod AutoCommit
pub mod Paths
pub mod Resolve
pub mod ObjectStore
pub mod Cold
pub mod Locks
pub mod ManagedParent
pub mod Protocol
pub mod Hpc
mod Tests
