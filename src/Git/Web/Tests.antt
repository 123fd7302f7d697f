-- ===== src/Git/Web/Tests.antt =====
-- A web edit of a concrete list, and the commit of its version.
use setfork_core.Shared.{ℕ, suc, true, Option, none, some, [], ◌∷◌, codes, Result, ok, pos}
use setfork_core.Json.{empty_object}
use setfork_core.Canon.Written.{VersionData}
use setfork_core.Git.Authored.{MainUpdateError}
use setfork_core.Git.Refs.{Oid}
use setfork_core.Git.Refs.Listed.{Refs, listed}
use setfork_core.Git.History.{AuthoredMode, append_version_with}
use setfork_core.Git.History.Outcome.{Says, append_version_with-Says}
use setfork_core.Git.Sync.{SyncOutcome, SyncError}
use setfork_core.Git.Tests.{line}
use setfork_core.Git.Web.{WebEdit, ListRow, Tables, Prepared, commit_web_version}
use setfork_core.Git.Web.Atomic.{Outcome, commit_web_version-Outcome}

abbrev row : ListRow
row = record {
  current = 1;
  title = empty_object;
  desc = empty_object;
  tags = [];
  ordered = true;
  kind = none;
  skill_header = none;
}

-- The database is the number of statements that were run.
abbrev tables : Tables ℕ
tables = record {
  begin = λ db. ok db;
  select_for_update = λ db. ok (some row);
  set_title = λ v db. ok (suc db);
  set_desc = λ v db. ok (suc db);
  set_tags = λ v db. ok (suc db);
  set_ordered = λ v db. ok (suc db);
  insert_version_row = λ version note author db.
      ok (record { ver_id = 9; created_s = pos 0; created_ms = pos 0 }, suc db);
  insert_step_rows = λ id rows db. ok (suc db);
  bump_current_version = λ version db. ok (suc db);
  commit = λ db. ok db;
  uuid_text = λ n. [];
}

abbrev repo : Refs
repo = (codes "refs/heads/main", 1) ∷ []

abbrev commit_next : Option Oid → VersionData → AuthoredMode → Result MainUpdateError Oid
commit_next parent v mode = ok 2

abbrev in_sync : ℕ → Refs → Result SyncError SyncOutcome × (ℕ × Refs)
in_sync db r = (ok SyncOutcome.in_sync, (db, r))

abbrev edit : WebEdit
edit = record {
  note = codes "fix";
  author_id = none;
  rows = [];
  patch = record { title = none; desc = none; tags = some (codes "t" ∷ []); ordered = none };
  expected_version = some 1;
  authored = none;
}

abbrev stale_edit : WebEdit
stale_edit = record edit { expected_version = some 7 }

abbrev next : VersionData
next = record {
  version = pos 2;
  note = codes "fix";
  ts = pos 0;
  title = [];
  desc = [];
  tags = codes "t" ∷ [];
  ordered = true;
  kind = none;
  skill_header = none;
  steps = [];
}

append_version_with-Says_example :
    Says line listed commit_next next AuthoredMode.carry repo
      (append_version_with line listed commit_next next AuthoredMode.carry repo)
append_version_with-Says_example =
    append_version_with-Says line listed commit_next next AuthoredMode.carry repo

commit_web_version-Outcome_example :
    Outcome tables line listed commit_next in_sync edit 0 repo
      (commit_web_version tables line listed commit_next in_sync edit 0 repo)
commit_web_version-Outcome_example =
    commit_web_version-Outcome tables line listed commit_next in_sync edit 0 repo

abbrev ready : Prepared ℕ
ready = record {
  version = 2;
  row = record { ver_id = 9; created_s = pos 0; created_ms = pos 0 };
  vdata = next;
  tx = 2;
}
