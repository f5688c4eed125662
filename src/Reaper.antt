-- ===== src/Reaper.antt =====
-- internal/reaper: the maintenance pass over runs, build requests, stored blobs and directories.
pub mod Sweep
pub mod Aggregate
pub mod Retention
pub mod Workers
pub mod Partials
pub mod Maintain
pub mod Remote
pub mod Cleaned
pub mod MapOrder
pub mod Dirs
pub mod Artifacts
pub mod WorkDirs
