-- ===== src/App.antt =====
-- internal/app: what the coordinator does with runs, over the store and the scheduler, the changes of the
-- configuration, and what a client sends.
pub mod Abort
pub mod Fanout
pub mod Stage
pub mod Saves
pub mod Atomic
pub mod Summary
pub mod Artifacts
pub mod Collected
pub mod Configure
pub mod Configured
pub mod Unattached
pub mod Reverted
pub mod RemoteLine
