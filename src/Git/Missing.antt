-- ===== src/Git/Missing.antt =====
-- `append_versions`, `tail_commits` and `append_missing_versions` of git/bundle.rs, which bring the
-- versions of the database that git lacks into git. The reading of a commit and `build_tree`, which
-- writes the tree of a version by libgit2, are arguments. The collection of garbage does not count.
mod Tests
pub mod Tail
pub mod Restored
use setfork_core.Shared.{
  ℕ, ◌==◌, Option, none, some, List, [], ◌∷◌, Str, Result, ok, err, ◌>>=◌, if◌then◌else◌,
}
use setfork_core.Canon.Written.{VersionData, decimal}
use setfork_core.Git.Authored.{MainUpdateError}
use setfork_core.Git.Refs.{Oid, RefDb, error_text, main_ref}
use setfork_core.Git.Objects.{Objects}
use setfork_core.Git.Branches.{tag_ref}
use setfork_core.Git.History.{AuthoredMode, Written, build_history}

-- What a read commit holds: the id of its tree, `commit.tree()` and its parents.
pub record Commit : Type 0 where
  pub tree_id : Oid
  pub tree : Result Str ℕ
  pub parent_ids : List Oid

abbrev pub first : List Oid → Option Oid
first [] = none
first (x ∷ xs) = some x

abbrev pub version_tag : VersionData → Str
unfolding decimal
version_tag v = tag_ref (b'v' ∷ decimal v.version)

unfoldable pub reverse_onto : List VersionData → List VersionData → List VersionData
reverse_onto [] ds = ds
reverse_onto (v ∷ vs) ds = reverse_onto vs (v ∷ ds)

-- `find_commit` and `build_tree` of a version, with the author's files of a tree.
module _ (find_commit : Oid → Result Str Commit)
    (build_tree : VersionData → ℕ → Result Str Oid) where
  -- The tree that the version has with the files of the commit.
  unfoldable pub expected_tree : VersionData → Commit → Result Str Oid
  expected_tree v c = do tree ← c.tree; build_tree v tree

  -- The loop over the versions, the newest first; the commits are gathered in the order of the
  -- versions.
  unfoldable pub tail_from :
      Option Oid → List VersionData → List Oid → Result Str (Option (List Oid))
  unfolding expected_tree
  tail_from cur [] oids = ok (some oids)
  tail_from none (v ∷ vs) oids = ok none
  tail_from (some oid) (v ∷ vs) oids = do
    commit ← find_commit oid
    expected ← expected_tree v commit
    let rest = tail_from (first commit.parent_ids) vs (oid ∷ oids) in
        if commit.tree_id == expected then rest else ok none

  unfoldable pub tail_commits : Oid → List VersionData → Result Str (Option (List Oid))
  unfolding tail_from reverse_onto
  tail_commits tip versions = tail_from (some tip) (reverse_onto versions []) []

  module _ (o : Objects) (d : RefDb)
      (commit_version : Option Oid → VersionData → AuthoredMode → Result MainUpdateError Oid) where
    abbrev pub Outcome : Type 0
    Outcome = Written o d commit_version (Option Oid)

    -- A tag for each version on its commit.
    unfoldable pub tag_all : List VersionData → List Oid → Oid → d.Repo → Outcome
    unfolding decimal
    tag_all (v ∷ vs) (oid ∷ oids) tip r = elim (find_commit oid) [
      | err e ↦ (err (MainUpdateError.git e), r)
      | ok c ↦ elim (d.set r (version_tag v) oid) [
        | err e ↦ (err (MainUpdateError.git (error_text e)), r)
        | ok r' ↦ tag_all vs oids tip r'
      ]
    ]
    tag_all _ _ tip r = (ok (some tip), r)

    unfoldable pub append_versions : List VersionData → d.Repo → Outcome
    unfolding build_history
    append_versions [] r = (ok none, r)
    append_versions (v ∷ vs) r =
        build_history o d commit_version (v ∷ vs) (d.find r main_ref) AuthoredMode.carry r

    abbrev pub append_or_tag :
        Oid → List VersionData → d.Repo → Result Str (Option (List Oid)) → Outcome
    unfolding build_history tag_all
    append_or_tag tip versions r (err e) = (err (MainUpdateError.git e), r)
    append_or_tag tip versions r (ok (some oids)) = tag_all versions oids tip r
    append_or_tag tip versions r (ok none) =
        build_history o d commit_version versions (some tip) AuthoredMode.carry r

    abbrev pub append_onto : Option Oid → List VersionData → d.Repo → Outcome
    unfolding build_history tail_commits
    append_onto none versions r =
        build_history o d commit_version versions none AuthoredMode.carry r
    append_onto (some tip) versions r = append_or_tag tip versions r (tail_commits tip versions)

    unfoldable pub append_missing_versions : List VersionData → d.Repo → Outcome
    append_missing_versions [] r = (ok none, r)
    append_missing_versions (v ∷ vs) r = append_onto (d.find r main_ref) (v ∷ vs) r
