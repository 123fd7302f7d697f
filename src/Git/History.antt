-- ===== src/Git/History.antt =====
-- `build_history` and `append_version_with` of git/bundle.rs. `commit_version`, which writes the
-- tree and the commit of a version by libgit2, is an argument. Setting HEAD and the collection of
-- garbage do not count.
pub mod Outcome
use setfork_core.Shared.{
  ℕ, ◌==◌, Bool, true, false, not, Option, none, some, List, [], ◌∷◌, Str, Result, ok, err, ◌>>=◌,
  if◌then◌else◌,
}
use setfork_core.Canon.Written.{VersionData, decimal}
use setfork_core.Git.Authored.{MainUpdateError, AuthoredInput, authored_input_violation}
use setfork_core.Git.Refs.{Oid, RefDb, RefError, error_text, main_ref}
use setfork_core.Git.Objects.{Objects}
use setfork_core.Git.Update.{update_main, opt_eq}
use setfork_core.Git.Branches.{tag_ref}

-- `bundle::Authored`
pub data AuthoredMode : Type 0 where
  carry : AuthoredMode
  replace : List AuthoredInput → AuthoredMode

abbrev pub violation_of : AuthoredMode → Option MainUpdateError
unfolding authored_input_violation
violation_of carry = none
violation_of (replace files) = authored_input_violation files

module _ (o : Objects) (d : RefDb)
    (commit_version : Option Oid → VersionData → AuthoredMode → Result MainUpdateError Oid) where
  -- The commits of the versions, each on the one before it, with the names of their tags.
  unfoldable pub commit_all :
      Option Oid
      → List VersionData
      → AuthoredMode
      → Result MainUpdateError (Option Oid × List (Str × Oid))
  unfolding decimal
  commit_all parent [] mode = ok (parent, [])
  commit_all parent (v ∷ vs) mode = do
    oid ← commit_version parent v mode
    (tip, tagged) ← commit_all (some oid) vs mode
    ok (tip, (tag_ref (b'v' ∷ decimal v.version), oid) ∷ tagged)

  abbrev pub Written : Type 0 → Type 0
  Written A = Result MainUpdateError A × d.Repo

  unfoldable pub set_tags : List (Str × Oid) → Option Oid → d.Repo → Written (Option Oid)
  set_tags [] tip r = (ok tip, r)
  set_tags ((name, oid) ∷ tags) tip r = elim (d.set r name oid) [
    | ok r' ↦ set_tags tags tip r'
    | err e ↦ (err (MainUpdateError.git (error_text e)), r)
  ]

  abbrev pub moved :
      List (Str × Oid) → Oid → d.Repo → Result MainUpdateError d.Repo → Written (Option Oid)
  unfolding set_tags
  moved tagged tip r (err e) = (err e, r)
  moved tagged tip r (ok r') = set_tags tagged (some tip) r'

  abbrev pub publish :
      Option Oid
      → d.Repo
      → Result MainUpdateError (Option Oid × List (Str × Oid))
      → Written (Option Oid)
  unfolding update_main
  publish old r (err e) = (err e, r)
  publish old r (ok (none, tagged)) = (ok none, r)
  publish old r (ok (some tip, tagged)) =
      if opt_eq (some tip) old
      then (ok (some tip), r)
      else moved tagged tip r (update_main o d r r tip old)

  unfoldable pub build_history :
      List VersionData → Option Oid → AuthoredMode → d.Repo → Written (Option Oid)
  unfolding commit_all
  build_history vs parent mode r = publish parent r (commit_all parent vs mode)

  abbrev pub unless_violated :
      Option MainUpdateError → VersionData → AuthoredMode → d.Repo → Written (Option Oid)
  unfolding build_history
  unless_violated (some e) v mode r = (err e, r)
  unless_violated none v mode r = build_history (v ∷ []) (d.find r main_ref) mode r

  unfoldable pub append_version_with : VersionData → AuthoredMode → d.Repo → Written (Option Oid)
  append_version_with v mode r = unless_violated (violation_of mode) v mode r
