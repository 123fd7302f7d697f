-- ===== src/Gate.antt =====
-- gate.rs: the core asks the application whether a list may be written to. The HTTP client, the URI
-- parser and the JSON parser are parameters.
pub mod Url
pub mod Verdict
pub mod Ask
pub mod Portions
mod Tests
