-- ===== src/Git/Export.antt =====
-- `authored_files` of git/authored.rs: the author's files of a commit, as the export of a skill
-- takes them.
mod Tests
pub mod Served
use setfork_core.Shared.{
  ℕ, Bool, ◌==◌, Option, none, some, List, [], ◌∷◌, ◌++◌, Str, codes, Result, ok, err, ◌>>=◌,
  if◌then◌else◌,
}
use setfork_core.Git.Paths.{authored_dirs}
use setfork_core.Git.Refs.{Oid}
use setfork_core.Git.Objects.{TreeEntry, Objects}
use setfork_core.Git.Update.{is_regular, dir_entries}

pub record AuthoredFile : Type 0 where
  pub path : Str
  pub content : List ℕ
  pub executable : Bool

abbrev pub file_at : Str → Str → ℕ → List ℕ → AuthoredFile
file_at dir name mode content = record {
  path = dir ++ codes "/" ++ name;
  content = content;
  executable = mode == 0o100755;
}

module _ (o : Objects) where
  -- What an entry adds: nothing, where it is no regular file or its name is no UTF-8.
  abbrev pub named_file : Str → TreeEntry → Option Str → Result Str (List AuthoredFile)
  named_file dir e none = ok []
  named_file dir e (some name) = do
    content ← o.find_blob e.id
    ok (file_at dir name e.filemode content ∷ [])

  unfoldable pub entry_files : Str → TreeEntry → Result Str (List AuthoredFile)
  entry_files dir e = if is_regular e.filemode then named_file dir e e.name else ok []

  unfoldable pub dir_files : Str → List TreeEntry → Result Str (List AuthoredFile)
  unfolding entry_files
  dir_files dir [] = ok []
  dir_files dir (e ∷ es) = do one ← entry_files dir e; rest ← dir_files dir es; ok (one ++ rest)

  unfoldable pub tree_files_of : o.Tree → List Str → Result Str (List AuthoredFile)
  unfolding dir_files
  tree_files_of tree [] = ok []
  tree_files_of tree (dir ∷ dirs) = do
    some_files ← dir_files dir (dir_entries o tree dir)
    rest ← tree_files_of tree dirs
    ok (some_files ++ rest)

  unfoldable pub authored_files : Oid → Result Str (List AuthoredFile)
  unfolding tree_files_of
  authored_files commit = do tree ← o.commit_tree commit; tree_files_of tree authored_dirs
