-- ===== src/Db.antt =====
-- The rules of the database layer that are about values: db/carryover.rs and the levels of
-- db/mod.rs.
pub mod Carryover
pub mod Rows
