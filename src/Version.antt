-- ===== src/Version.antt =====
-- internal/version/version.go: the strict semantic versions and the version that a binary reports.
pub mod Semver
pub mod Resolved
