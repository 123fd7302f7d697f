-- ===== src/Git/Export/Tests.antt =====
-- `authored_files` on a concrete tree.
use setfork_core.Shared.{
  ◌≤◌, ◌≡◌, refl, true, List, [], ◌∷◌, Str, codes, ok, length, In, strip_prefix, byte_len,
}
use setfork_core.Git.Paths.{authored_dirs, tree_path_allowed, authored_path, name_ok}
use setfork_core.Git.Authored.{add, finish, authored_max_files}
use setfork_core.Git.Objects.{TreeEntry}
use setfork_core.Git.Update.{
  dir_entries, tree_check, first_foreign_path, authored_check, tally_dirs, tally_entries,
  tally_entry,
}
use setfork_core.Git.Tests.{line}
use setfork_core.Git.Export.{AuthoredFile, authored_files, tree_files_of, dir_files, entry_files}
use setfork_core.Git.Export.Served.{IsServed, authored_files-IsServed}

one_script :
    authored_files line 1
    ≡ ok
        (record { path = codes "scripts/run.sh"; content = 104 ∷ 105 ∷ []; executable = true } ∷ [])
unfolding authored_files tree_files_of dir_files entry_files
one_script = refl

accepted : tree_check line 1 ≡ ok tt
unfolding tree_check first_foreign_path tree_path_allowed authored_path strip_prefix name_ok
    authored_check tally_dirs tally_entries tally_entry add finish byte_len
accepted = refl

authored_files-IsServed_example :
    (fs : List AuthoredFile) × (authored_files line 1 ≡ ok fs)
    × (length fs ≤ authored_max_files)
    × ((dir : Str) (e : TreeEntry)
        → In dir authored_dirs
        → In e (dir_entries line tt dir)
        → IsServed line fs dir e)
authored_files-IsServed_example = authored_files-IsServed line 1 tt refl accepted
