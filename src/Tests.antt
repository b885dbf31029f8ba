-- ===== src/Tests.antt =====
-- Runs of the definitions, and the theorems at concrete data.
mod Stacks
mod Manifests
mod Messages
mod ChildCalls
mod LockFiles
mod ColdStorage
mod Ticks
mod Packs
mod Mirrors
mod Mounts
mod Commits
mod Compactions
mod Transactions
mod Imports
