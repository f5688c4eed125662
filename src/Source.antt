-- ===== src/Source.antt =====
-- internal/source: the choice of a project and the check of the files of a build input.
pub mod Select
pub mod Input
pub mod Entries
pub mod Order
pub mod Accepted
