-- ===== src/Git/Update.antt =====
-- git/update.rs: `first_foreign_path`, `authored_violation` and `update_main`, the one place that
-- moves `main`. A failure of libgit2 becomes `MainUpdateError.git`, as `?` makes it. What other
-- processes do between the check of `main` and the write is the difference of two states.
pub mod Refusal
pub mod Rules
pub mod Moves
pub mod History
use setfork_core.Shared.{
  ℕ, ◌≡◌, Bool, true, false, not, ◌&&◌, ◌||◌, Option, none, some, List, [], ◌∷◌, ◌++◌, ◌==◌,
  if◌then◌else◌, Str, codes, unwrap_or, Result, ok, err, ◌>>=◌, ◌>>◌,
}
use setfork_core.Git.Paths.{authored_dirs, tree_path_allowed}
use setfork_core.Git.Authored.{MainUpdateError, AuthoredTally, empty_tally, add, finish}
use setfork_core.Git.Refs.{Oid, zero_oid, RefError, error_text, RefDb, main_ref}
use setfork_core.Git.Objects.{WalkEntry, directory, leaf, TreeEntry, Objects}

abbrev pub shown : Option Str → Str
shown name = unwrap_or name (codes "<non-utf8>")

-- The walk stops at the first leaf that is not allowed.
unfoldable pub first_foreign_path : List (Result Str WalkEntry) → Result Str (Option Str)
first_foreign_path [] = ok none
first_foreign_path (err e ∷ es) = err e
first_foreign_path (ok directory ∷ es) = first_foreign_path es
first_foreign_path (ok (leaf dir name) ∷ es) =
    let rest = first_foreign_path es in
    if tree_path_allowed (dir ++ shown name) then rest else ok (some (dir ++ shown name))

abbrev pub git_result {ℓ} : {A : Type ℓ} → Result Str A → Result MainUpdateError A
git_result (ok a) = ok a
git_result (err e) = err (MainUpdateError.git e)

-- The modes of a file and of an executable file.
abbrev pub is_regular : ℕ → Bool
is_regular mode = mode == 0o100644 || mode == 0o100755

abbrev pub entry_path : Str → TreeEntry → Str
entry_path dir e = dir ++ (codes "/" ++ shown e.name)

abbrev pub finished : Option MainUpdateError → Result MainUpdateError (Unit {0})
finished none = ok tt
finished (some e) = err e

abbrev pub foreign_check : Option Str → Result MainUpdateError (Unit {0})
foreign_check none = ok tt
foreign_check (some path) = err (MainUpdateError.foreign_path path)

abbrev pub guard : Bool → MainUpdateError → Result MainUpdateError (Unit {0})
guard true e = ok tt
guard false e = err e

abbrev pub written : {A : Type 0} → Result RefError A → Result MainUpdateError A
written (ok r) = ok r
written (err (RefError.modified e)) = err MainUpdateError.stale
written (err (RefError.exists e)) = err (MainUpdateError.git e)
written (err (RefError.other e)) = err (MainUpdateError.git e)

abbrev pub opt_eq : Option Oid → Option Oid → Bool
opt_eq none none = true
opt_eq (some a) (some b) = a == b
opt_eq _ _ = false

module _ (o : Objects) where
  unfoldable pub tally_entry :
      Str → AuthoredTally → TreeEntry → Result MainUpdateError AuthoredTally
  tally_entry dir t e =
      if is_regular e.filemode
      then (do content ← git_result (o.find_blob e.id); add t (entry_path dir e) content)
      else err (MainUpdateError.authored_not_file (entry_path dir e))

  unfoldable pub tally_entries :
      Str → AuthoredTally → List TreeEntry → Result MainUpdateError AuthoredTally
  tally_entries dir t [] = ok t
  tally_entries dir t (e ∷ es) = do t' ← tally_entry dir t e; tally_entries dir t' es

  -- The entries of a directory of the tree; a name that is missing or no directory has none.
  abbrev pub dir_entries : o.Tree → Str → List TreeEntry
  dir_entries tree dir = elim (o.subtree tree dir) [ none ↦ [] | some sub ↦ o.entries sub ]

  unfoldable pub tally_dirs :
      o.Tree → List Str → AuthoredTally → Result MainUpdateError AuthoredTally
  tally_dirs tree [] t = ok t
  tally_dirs tree (dir ∷ dirs) t = do
    t' ← tally_entries dir t (dir_entries tree dir)
    tally_dirs tree dirs t'

  unfoldable pub authored_check : o.Tree → Result MainUpdateError (Unit {0})
  authored_check tree = do t ← tally_dirs tree authored_dirs empty_tally; finished (finish t)

  -- The three rules on the tree of the new tip.
  unfoldable pub tree_check : Oid → Result MainUpdateError (Unit {0})
  tree_check new_tip = do
    tree ← git_result (o.commit_tree new_tip)
    guard (o.has_path tree (codes "list.json")) MainUpdateError.missing_list_json
    foreign ← git_result (first_foreign_path (o.walk tree))
    foreign_check foreign
    authored_check tree

  unfoldable pub fast_forward : Oid → Option Oid → Result MainUpdateError (Unit {0})
  fast_forward new_tip none = ok tt
  fast_forward new_tip (some old) = if new_tip == old then ok tt else (do
    descends ← git_result (o.descendant_of new_tip old)
    guard descends MainUpdateError.non_fast_forward)

  module _ (d : RefDb) where
    -- `r` is the repository where `main` is checked, `r'` where it is written.
    unfoldable pub update_main : d.Repo → d.Repo → Oid → Option Oid → Result MainUpdateError d.Repo
    update_main r r' new_tip expected_old = do
      tree_check new_tip
      guard (opt_eq (d.find r main_ref) expected_old) MainUpdateError.stale
      fast_forward new_tip expected_old
      written (d.matching r' main_ref new_tip (unwrap_or expected_old zero_oid))
