-- ===== src/Git/Tests.antt =====
-- The paths, the author's files and a move of `main` on concrete input.
use setfork_core.Shared.{
  ℕ, ◌≡◌, ◌≢◌, ◌↔◌, ◌⊎◌, inl, refl, true, false, Bool, none, some, List, [], ◌∷◌, In, arith, Str,
  codes, ltb, str_eq, if◌then◌else◌, Result, ok, err, strip_prefix, byte_len,
}
use setfork_core.Git.Paths.{
  authored_dirs, root_files, authored_path, name_ok, tree_path_allowed, IsIn, IsLegacyStep,
  tree_path_allowed_iff,
}
use setfork_core.Git.Authored.{AuthoredInput, add, finish, authored_input_violation}
use setfork_core.Git.Authored.Accepted.{IsAccepted, authored_input_violation_iff}
use setfork_core.Git.Refs.{Oid, main_ref}
use setfork_core.Git.Refs.Listed.{Refs, listed}
use setfork_core.Git.Objects.{WalkEntry, Objects}
use setfork_core.Git.Update.{
  update_main, tree_check, fast_forward, first_foreign_path, authored_check, tally_dirs,
  tally_entries, tally_entry,
}
use setfork_core.Git.Update.Rules.{tree_check_sound}
use setfork_core.Git.Update.Moves.{IsMove, update_main-IsMove}
use setfork_core.Git.Update.History.{Step, Reach, HasTipFrom, Reach-HasTipFrom}

abbrev script : Str
script = codes "scripts/run.sh"

tree_path_allowed_iff_example : (tree_path_allowed (codes "steps/01.md") ≡ true) ↔ (
    In (codes "steps/01.md") root_files
    ⊎ ((dir : Str) × In dir authored_dirs × IsIn dir (codes "steps/01.md"))
    ⊎ IsLegacyStep (codes "steps/01.md"))
tree_path_allowed_iff_example = tree_path_allowed_iff (codes "steps/01.md")

abbrev files : List AuthoredInput
files =
    record { path = script; content = 104 ∷ 105 ∷ []; executable = true }
    ∷ record { path = codes "assets/a.txt"; content = 1 ∷ []; executable = false }
    ∷ []

authored_input_violation_iff_example : (authored_input_violation files ≡ none) ↔ IsAccepted files
authored_input_violation_iff_example = authored_input_violation_iff files

pub below : ℕ → ℕ → Result Str Bool
below a b = ok (ltb b a)

pub below_trans : (a b c : ℕ) → below a b ≡ ok true → below b c ≡ ok true → below a c ≡ ok true
unfolding below
below_trans a b c h k = ground arith

-- Commits 1, 2, … on one line, all with the same tree: `list.json` and one script.
abbrev pub tree_of : Oid → Result Str (Unit {0})
tree_of id = if ltb 0 id then ok tt else err (codes "not found")

pub no_commit_zero : (t : Unit {0}) → tree_of 0 ≢ ok t
no_commit_zero t h = ground arith

abbrev pub line : Objects
line = record {
  Tree = Unit {0};
  commit_tree = tree_of;
  has_path = λ t p. str_eq p (codes "list.json");
  walk = λ t.
      ok (WalkEntry.leaf [] (some (codes "list.json")))
      ∷ ok WalkEntry.directory
      ∷ ok (WalkEntry.leaf (codes "scripts/") (some (codes "run.sh")))
      ∷ [];
  subtree = λ t dir. if str_eq dir (codes "scripts") then some tt else none;
  entries = λ t. record { name = some (codes "run.sh"); filemode = 33261; id = 9 } ∷ [];
  find_blob = λ id. ok (104 ∷ 105 ∷ []);
  descendant_of = below;
  commit_tree_zero = no_commit_zero;
  descendant_trans = below_trans;
}

abbrev at : Oid → Refs
at id = (main_ref, id) ∷ []

moved_one : update_main line listed (at 1) (at 1) 2 (some 1) ≡ ok ((main_ref, 2) ∷ at 1)
unfolding update_main below fast_forward tree_check first_foreign_path tree_path_allowed
    authored_path strip_prefix name_ok authored_check tally_dirs tally_entries tally_entry add
    finish byte_len
moved_one = refl

update_main-IsMove_example : IsMove line listed (at 1) (at 1) ((main_ref, 2) ∷ at 1) 2 (some 1)
update_main-IsMove_example =
    update_main-IsMove line listed (at 1) (at 1) ((main_ref, 2) ∷ at 1) 2 (some 1) moved_one

good_one : tree_check line 1 ≡ ok tt
unfolding tree_check first_foreign_path tree_path_allowed authored_path strip_prefix name_ok
    authored_check tally_dirs tally_entries tally_entry add finish byte_len
good_one = refl

first_tip : HasTipFrom line listed 1 (at 1)
first_tip = (1, refl, inl refl, tree_check_sound line 1 good_one)

Reach-HasTipFrom_example : HasTipFrom line listed 1 ((main_ref, 2) ∷ at 1)
Reach-HasTipFrom_example =
    Reach-HasTipFrom line listed 1 first_tip
      (Reach.next Reach.here (Step.move (at 1) 2 (some 1) moved_one))
