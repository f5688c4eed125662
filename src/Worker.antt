-- ===== src/Worker.antt =====
-- internal/cli/internal.go and internal_reconstruct.go: the commands that a coordinator runs on a worker.
pub mod Clean
pub mod Paths
pub mod Archive
pub mod Cache
pub mod Evict
pub mod Decimal
pub mod Commands
pub mod Oldest
pub mod Evicting
pub mod Refused
pub mod Numbers
pub mod Reaps
pub mod Flags
pub mod Reconstruct
pub mod FlagLaws
pub mod Rebuilt
pub mod Segments
pub mod Joining
