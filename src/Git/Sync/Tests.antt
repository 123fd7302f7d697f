-- ===== src/Git/Sync/Tests.antt =====
-- The alignment of a concrete repository whose `main` is missing.
use setfork_core.Shared.{
  ◌≡◌, refl, true, none, some, [], ◌∷◌, codes, ok, strip_prefix, byte_len, is_ascii_digit,
}
use setfork_core.Names.Decimal.{parse_from, digits, digits_fuel}
use setfork_core.Names.Version.{version_of_tag, max_tag_in, max_from}
use setfork_core.Git.Paths.{authored_path, name_ok, tree_path_allowed}
use setfork_core.Git.Authored.{add, finish}
use setfork_core.Git.Refs.Listed.{Refs, listed}
use setfork_core.Git.Update.{
  update_main, tree_check, fast_forward, first_foreign_path, authored_check, tally_dirs,
  tally_entries, tally_entry,
}
use setfork_core.Git.Tests.{line}
use setfork_core.Git.Sync.{
  SyncOutcome, Host, tag_on_tip, restore_main_from_tag, align_by_counters, heal_main, sync_from,
  sync_repo_with_db,
}
use setfork_core.Git.Sync.Healed.{IsSound, HasNothing}
use setfork_core.Git.Sync.Spared.{elsewhere, sync_repo_with_db-IsSafe}
use setfork_core.Git.Sync.{Exec}
use setfork_core.Shared.{◌⊎◌, ℕ, List}

abbrev repo : Refs
repo = (codes "refs/tags/v2", 5) ∷ []

abbrev host : Host line listed
host = record {
  current = ok (some 2);
  on_disk = true;
  can_open = true;
  tags = λ r. codes "v2" ∷ [];
  rows = ok (1 ∷ 2 ∷ []);
  bootstrap_bare = λ vs r. (ok tt, r);
  append_missing = λ vs r. (ok tt, r);
  project_pushed = λ r. (ok none, r);
}

restored_two : (sync_repo_with_db line listed host repo).0 ≡ ok (SyncOutcome.main_restored 2)
unfolding sync_repo_with_db sync_from heal_main restore_main_from_tag align_by_counters tag_on_tip
    max_tag_in max_from version_of_tag parse_from digits digits_fuel is_ascii_digit update_main
    tree_check fast_forward first_foreign_path tree_path_allowed authored_path strip_prefix name_ok
    authored_check tally_dirs tally_entries tally_entry add finish byte_len
restored_two = refl

sync_repo_with_db-IsSafe_example :
    IsSound line listed host repo (sync_repo_with_db line listed host repo)
    × (HasNothing line listed host repo
        ⊎ ((other : List ℕ → Refs → Exec line listed (Unit {0}))
            → sync_repo_with_db line listed (elsewhere line listed host other) repo
              ≡ sync_repo_with_db line listed host repo))
sync_repo_with_db-IsSafe_example = sync_repo_with_db-IsSafe line listed host repo
