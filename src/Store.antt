-- ===== src/Store.antt =====
-- internal/store/store.go: the run records, results, executions and worker leases on disk. A run's
-- directory is an entry of `Disk.runs`; every operation takes the disk and returns it, as the code
-- holds the run's lock from its first read to its last write.
pub mod Disk
pub mod Record
pub mod Runs
pub mod Aggregate
pub mod Lease
pub mod LeaseLaws
pub mod Exclusion
pub mod Immutable
pub mod Transitions
pub mod Results
pub mod Scans
pub mod Published
pub mod Saves
