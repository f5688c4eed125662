-- ===== src/Examples.antt =====
-- Concrete configurations, records and disks, and the theorems at them.
pub mod Fixtures
pub mod OfModel
pub mod OfConfig
pub mod OfStore
pub mod OfScheduler
pub mod OfApp
pub mod OfBundle
pub mod OfSystem
pub mod OfHost
pub mod OfReaper
pub mod OfRemote
pub mod OfRuntime
pub mod OfConfigure
pub mod OfWorker
pub mod OfSource
