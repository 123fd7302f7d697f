-- ===== src/Git/Objects.antt =====
-- What the program uses of libgit2's object database. Objects never change, so it is a value.
use setfork_core.Shared.{ℕ, ◌≡◌, ◌≢◌, Bool, true, Option, List, Str, Result, ok}
use setfork_core.Git.Refs.{Oid, zero_oid}

-- An entry that a walk of a tree visits: a directory, or a leaf with its path, where the name is
-- UTF-8.
pub data WalkEntry : Type 0 where
  directory : WalkEntry
  leaf : Str → Option Str → WalkEntry

pub record TreeEntry : Type 0 where
  pub name : Option Str
  pub filemode : ℕ
  pub id : Oid

pub record Objects : Type 1 where
  pub Tree : Type 0
  -- `find_commit(id)?.tree()?`
  pub commit_tree : Oid → Result Str Tree
  -- `tree.get_path(path).is_ok()`
  pub has_path : Tree → Str → Bool
  -- what `tree.walk(PreOrder, …)` hands to its callback, in turn; an error ends the walk
  pub walk : Tree → List (Result Str WalkEntry)
  -- `tree.get_name(dir)` and `to_object(repo)?.peel_to_tree()`
  pub subtree : Tree → Str → Option Tree
  -- `tree.iter()`
  pub entries : Tree → List TreeEntry
  -- `find_blob(id)?.content()`
  pub find_blob : Oid → Result Str (List ℕ)
  -- `graph_descendant_of(commit, ancestor)`
  pub descendant_of : Oid → Oid → Result Str Bool
  -- No object has the id 0.
  pub commit_tree_zero : (t : Tree) → commit_tree zero_oid ≢ ok t
  pub descendant_trans :
      (a b c : Oid)
      → descendant_of a b ≡ ok true
      → descendant_of b c ≡ ok true
      → descendant_of a c ≡ ok true
