-- ===== src/Git.antt =====
-- The git subsystem: the paths of a list's tree, the author's files, the one place that moves
-- `main`, the magic refs, and the RPCs on branches and tags. libgit2 is a parameter: `Git.Refs` and
-- `Git.Objects` hold what the program uses of it.
pub mod Paths
pub mod Authored
pub mod Refs
pub mod Objects
pub mod Update
pub mod Magic
pub mod Branches
pub mod Push
pub mod Sync
pub mod History
pub mod Missing
pub mod Pushed
pub mod Export
pub mod Web
mod Tests
