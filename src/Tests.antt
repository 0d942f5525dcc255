-- ===== src/Tests.antt =====
-- Runs of the models on concrete inputs, and each theorem at an input that meets its hypotheses.
mod Toy
mod Manifests
mod Chunks
mod Blocks
mod Caches
mod Databases
mod Deadman
mod Switches
mod Handles
mod Reading
mod Requests
mod Policies
mod Sentences
mod FileCodec
mod Releases
mod ShareCodec
mod Sharing
mod ConfigCodec
mod Volumes
mod Apis
mod Access
mod Services
mod Shreds
mod Attributes
mod Parsing
mod RecordCodec
mod Records
mod SnapshotTable
mod SnapshotCodec
mod Snapshots
