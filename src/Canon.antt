-- ===== src/Canon.antt =====
-- The canon of a list, `list.json`: how a version is written as a value (git/serialize.rs), how a
-- value is read as steps (git/project.rs), and the strict reading of the editor (git/canon.rs). The
-- printer and the parser of texts are serde_json.
pub mod Raw
pub mod Steps
pub mod Written
pub mod Reading
pub mod RoundTrip
pub mod Strict
pub mod Losses
pub mod Lossless
pub mod Complaints
pub mod Readme
pub mod Project
mod Tests
