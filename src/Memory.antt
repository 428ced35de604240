-- ===== src/Memory.antt =====
-- datastore/memory: the in-memory datastore, which keeps every version of every item until a purge,
-- and its transactions. A method is one step; locks are not modelled.
pub mod Tree
pub mod Item
pub mod Datastore
pub mod Txn
pub mod Snapshot
pub mod Commit
pub mod Own
pub mod Auto
pub mod Batch
pub mod Query
pub mod InFlight
pub mod Purge
pub mod Purged
pub mod PurgeEnds
pub mod Model
pub mod Tests
pub mod WriteTests
