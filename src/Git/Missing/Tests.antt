-- ===== src/Git/Missing/Tests.antt =====
-- Three commits on `main`, where the tags of the last two were lost.
use setfork_core.Shared.{
  ◌⊎◌, ℕ, suc, zero, ◌*◌, ◌≡◌, refl, arith, Option, none, some, List, [], ◌∷◌, Str, codes, Result,
  ok, ℤ, pos, negsuc, true,
}
use setfork_core.Names.Decimal.{digits}
use setfork_core.Canon.Written.{VersionData, decimal}
use setfork_core.Git.Authored.{MainUpdateError}
use setfork_core.Git.Refs.{Oid}
use setfork_core.Git.Refs.Listed.{Refs, listed}
use setfork_core.Git.History.{AuthoredMode, build_history}
use setfork_core.Git.Tests.{line}
use setfork_core.Git.Missing.{
  Commit, reverse_onto, expected_tree, tail_from, tail_commits, tag_all, append_onto,
  append_missing_versions,
}
use setfork_core.Git.Missing.Restored.{IsRestored, append_missing_versions-Restores}
use setfork_core.Git.Missing.Tail.{Chain}

abbrev version : ℕ → VersionData
version n = record {
  version = pos n;
  note = [];
  ts = pos 0;
  title = [];
  desc = [];
  tags = [];
  ordered = true;
  kind = none;
  skill_header = none;
  steps = [];
}

abbrev commits : Oid → Result Str Commit
commits n = ok (record { tree_id = 10 * n; tree = ok n; parent_ids = before n })
  where
    before : ℕ → List Oid
    before zero = []
    before (suc n) = n ∷ []

abbrev tree_of : VersionData → ℕ → Result Str Oid
tree_of v tree = ok (10 * number v.version)
  where
    number : ℤ → ℕ
    number (pos n) = n
    number (negsuc n) = zero

abbrev repo : Refs
repo = (codes "refs/heads/main", 3) ∷ (codes "refs/tags/v1", 1) ∷ []

abbrev restored : Refs
restored = (codes "refs/tags/v3", 3) ∷ (codes "refs/tags/v2", 2) ∷ repo

abbrev commit_next : Option Oid → VersionData → AuthoredMode → Result MainUpdateError Oid
commit_next parent v mode = ok 4

tail_found : tail_commits commits tree_of 3 (version 2 ∷ version 3 ∷ []) ≡ ok (some (2 ∷ 3 ∷ []))
unfolding tail_commits tail_from reverse_onto expected_tree
tail_found = refl

tags_back :
    append_missing_versions commits tree_of line listed commit_next
      (version 2 ∷ version 3 ∷ [])
      repo
    ≡ (ok (some 3), restored)
unfolding append_missing_versions append_onto tag_all tail_commits tail_from reverse_onto
    expected_tree decimal digits
tags_back = refl

-- The tags come back, since the versions are commits at the end of `main`.
append_missing_versions-Restores_example :
    ((oids : List Oid) × IsRestored commits tree_of line listed commit_next 3
        (version 2 ∷ version 3 ∷ [])
        oids
        (some 3)
        restored)
    ⊎ (((oids : List Oid) → ¬ Chain commits tree_of 3 (version 2 ∷ version 3 ∷ []) oids)
        × (build_history line listed commit_next
              (version 2 ∷ version 3 ∷ [])
              (some 3)
              AuthoredMode.carry
              repo
            ≡ (ok (some 3), restored)))
append_missing_versions-Restores_example =
    append_missing_versions-Restores commits tree_of line listed commit_next 2 3 (version 2)
      (version 3 ∷ []) (some 3) repo restored
      (2, refl, omega arith, omega arith, (3, refl, omega arith, omega arith, tt)) refl tags_back
