-- ===== src/Lib.antt =====
-- A model of the core of SetFork, a gRPC service that keeps lists of steps in bare git repositories
-- and their versions in a database.
--
-- The program asks the application before each write whether a list may be written to (the gate),
-- limits the rate of calls, and lets every change of `main` that it makes itself go through one
-- function. A push to `refs/for/<base>` becomes a branch of its author. Branches and tags of a
-- repository are made and deleted by RPCs behind the gate. A push of a mirror is a background task
-- that is coalesced by list. A version is written to git as `list.json`, from which a push is projected
-- into the database, and `README.md`, which is made of it.
--
-- Files and the code that they are about:
--   * Gate: src/gate.rs. Gate/Url is `parse_app_url`, Gate/Verdict `parse_verdict`, Gate/Ask the
--     question, its payload and `ensure_writable`, `ensure_writable_at`,
--     `ensure_content_allowed_at`, Gate/Portions `text_portions`. The application is a function from
--     the request to what the exchange came to.
--   * Reason: src/reason.rs, the reasons of refusals and the status that carries one.
--   * Ratelimit: src/ratelimit.rs, `allow` over a state of windows. An instant is a number of
--     nanoseconds; the length of a window is compared as a u32, with its wrap-around.
--   * Throttle: src/throttle.rs, `coalesce`; a schedule is a list of steps of calls and workers.
--     Throttle/Gates is `serialized` and `GateCleanup`, for the tasks of one key.
--   * Blocks: src/blocks.rs. Json: the values of serde_json.
--   * Names: src/services/git_core/names.rs, `version_of_tag` and `max_tag_in` of src/git/bundle.rs,
--     `author_branch` of src/git/magic.rs.
--   * Git/Paths: the path rules of src/git/serialize.rs. Git/Authored and Git/Update:
--     src/git/update.rs (Git/Update/Refusal with `main_status` of src/services/git_core/mod.rs), with
--     the libgit2 calls of Git/Refs and Git/Objects as records of operations and
--     documented laws; Git/Refs/Listed fills the first with a list. Git/Magic: src/git/magic.rs.
--     Git/Branches: `create_branch`, `delete_branch` and `create_tag` of
--     src/services/git_core/mod.rs. Git/Push: `receive_pack` of the same file and `choose_actor` of
--     src/services/git_core/actor.rs. Git/Sync: `sync_repo_with_db` of src/git/version.rs.
--   * Canon: list.json and README.md. Canon/Written: `SerStep`, `list_json`, `commit_message` of
--     src/git/serialize.rs, a value of Json that the printer writes. Canon/Raw and Canon/Steps: the
--     reading of src/git/project.rs. Canon/Strict: src/git/canon.rs. Canon/Readme and
--     Canon/Readme/Page: `readme`. Canon/Project: `project_pushed_commit`. The other files of Canon
--     prove: Reading and RoundTrip what is read of what was written, Losses, Lossless and Complaints
--     the strict reading.
--   * Git/History: `build_history` and `append_version_with` of src/git/bundle.rs; Git/Missing:
--     `append_versions` and `append_missing_versions` of the same file. Git/Pushed: `pushed_texts` of
--     src/git/project.rs, with Git/Pushed/Laws on what git documents of the calls.
--     Git/Export: `authored_files` of src/git/authored.rs. Git/Web:
--     `commit_web_version` of src/git/version.rs, where a transaction is a copy of the database that
--     counts once it is committed; Git/Web/Transaction says what is run in it.
--   * Db/Rows: `ser_step_from_row` of src/db/versions.rs and `loc` of src/db/mod.rs.
--   * Db/Carryover: src/db/carryover.rs, with `Level` and `loc_val` of src/db/mod.rs, `keeps_ref` of
--     src/git/serialize.rs and the projected step of src/git/project.rs.
--
-- A text is a list of code points. The repository of a call is a value that the call returns changed;
-- where another process may write between two steps of a call, the second step has a repository of
-- its own. Every loop is structural recursion on what it walks; the digits of a number are written on
-- fuel, one more than the number, which is more than it has digits, and the loop that takes blank
-- lines out of README.md on the length of the text, since each round shortens it.
--
-- Where the models are coarser than the code: the instant of a call of the limiter belongs to the step
-- under its lock, while the code reads the clock in front of the lock; a run of a coalesced task that
-- panics has no step; a version of the alignment and of a web edit is a natural number below the
-- greatest i32; an error of the commit of a transaction counts as not committed; the reading of an
-- object in front of a tag is part of the setting of the tag, and a failure to list the tags, which
-- counts as no tags, part of the list; the tag that the projection of a push sets stays outside
-- Git/Push.
--
-- Not modelled: SQL and the pool, the git processes of the smart HTTP transport, metrics and logs,
-- the generated protocol code, the printer and the parser of serde_json, the validator of the schema,
-- start-up and configuration.
pub mod Shared
pub mod Names
pub mod Json
pub mod Blocks
pub mod Reason
pub mod Gate
pub mod Ratelimit
pub mod Throttle
pub mod Canon
pub mod Git
pub mod Db
