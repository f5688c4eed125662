-- ===== src/Bundle.antt =====
-- internal/bundlecache: the cache of Git bundles on a worker.
pub mod Cache
pub mod Entries
pub mod Evict
pub mod Stale
pub mod Eviction
pub mod Admission
pub mod Reaping
