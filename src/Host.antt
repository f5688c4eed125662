-- ===== src/Host.antt =====
-- internal/host/ssh.go: commands on a worker over ssh.
pub mod Paths
pub mod Shell
pub mod Windows
pub mod Client
pub mod Cache
pub mod Words
pub mod Quoting
pub mod Script
pub mod Reports
pub mod Entries
