-- ===== src/System.antt =====
-- The system as a whole: its state is the disk, and each step is one locked operation of the store, of
-- the leases or of the scheduler. What processes do at once is some sequence of such steps.
pub mod Steps
pub mod Claims
pub mod Others
pub mod Histories
pub mod Composites
pub mod Cancelling
pub mod Aborting
pub mod AbortRound
pub mod AbortLoop
pub mod LoadedTargets
pub mod Aborted
