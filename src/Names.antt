-- ===== src/Names.antt =====
-- Names of branches and tags: services/git_core/names.rs, the parser of version tags in
-- git/bundle.rs and the author's branch of git/magic.rs.
pub mod Branch
pub mod Version
pub mod Bounds
pub mod Decimal
mod Tests
