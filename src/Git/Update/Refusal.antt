-- ===== src/Git/Update/Refusal.antt =====
-- The text of a refused move of `main` (`Display` of `MainUpdateError` in git/update.rs) and its
-- status (`main_status` of services/git_core/mod.rs).
use setfork_core.Shared.{◌≡◌, ◌↔◌, refl, Option, ◌++◌, Str, codes}
use setfork_core.Names.Decimal.{digits}
use setfork_core.Reason.{Code, Reason, Status, plain, status}
use setfork_core.Git.Authored.{
  MainUpdateError, authored_max_files, authored_max_bytes, authored_name_max_bytes,
}

unfoldable pub display : MainUpdateError → Str
display MainUpdateError.missing_list_json = codes "list.json is required at the repo root"
display (MainUpdateError.foreign_path p) =
    codes
      "only README.md, list.json, .gitattributes and scripts/, references/, assets/ files are allowed in a list tree (one level, a name up to "
    ++ (digits authored_name_max_bytes
        ++ (codes
              " bytes, not starting with a dot, no control or direction characters); foreign path: "
            ++ p))
display (MainUpdateError.authored_not_file p) =
    p ++ codes " must be a regular file (no symlinks or submodules)"
display (MainUpdateError.authored_binary p) =
    p ++ codes " is binary; scripts/, references/ and assets/ hold text only"
display (MainUpdateError.authored_too_many n) =
    codes "scripts/, references/ and assets/ hold "
    ++ (digits n ++ (codes " files; the limit is " ++ digits authored_max_files))
display (MainUpdateError.authored_too_large b) =
    codes "scripts/, references/ and assets/ hold "
    ++ (digits b ++ (codes " bytes; the limit is " ++ digits authored_max_bytes))
display (MainUpdateError.authored_duplicate p) = p ++ codes " is listed twice in the file set"
display (MainUpdateError.authored_executable p) =
    p ++ codes " is marked executable; only files in scripts/ may be executable"
display MainUpdateError.non_fast_forward = codes "non-fast-forward update of main is forbidden"
display MainUpdateError.stale = codes "main moved concurrently (stale expected tip)"
display (MainUpdateError.git e) = codes "git2: " ++ e

-- `parse` is the parser of a metadata value.
module _ (parse : Str → Option Str) where
  abbrev foreign : Str → Status
  foreign text = status parse Code.failed_precondition Reason.foreign_path text

  unfoldable pub main_status : MainUpdateError → Status
  unfolding display
  main_status MainUpdateError.missing_list_json =
      status parse Code.failed_precondition Reason.missing_list_json
        (codes "list.json is required at the repo root")
  main_status (MainUpdateError.foreign_path p) = foreign (
      codes
        "only README.md, list.json, .gitattributes and scripts/, references/, assets/ files are allowed in the list tree; foreign path: "
      ++ p)
  main_status (MainUpdateError.authored_not_file p) =
      foreign (display (MainUpdateError.authored_not_file p))
  main_status (MainUpdateError.authored_binary p) =
      foreign (display (MainUpdateError.authored_binary p))
  main_status (MainUpdateError.authored_too_many n) =
      foreign (display (MainUpdateError.authored_too_many n))
  main_status (MainUpdateError.authored_too_large b) =
      foreign (display (MainUpdateError.authored_too_large b))
  main_status (MainUpdateError.authored_duplicate p) =
      foreign (display (MainUpdateError.authored_duplicate p))
  main_status (MainUpdateError.authored_executable p) =
      foreign (display (MainUpdateError.authored_executable p))
  main_status MainUpdateError.stale =
      status parse Code.aborted Reason.stale (codes "main moved concurrently")
  main_status MainUpdateError.non_fast_forward =
      plain Code.internal (codes "non-fast-forward update of main (invariant breach)")
  main_status (MainUpdateError.git e) = plain Code.internal e

  -- The error is the author's to correct: the tree of the commit breaks a rule.
  abbrev pub IsOfTree : MainUpdateError → Type 0
  IsOfTree MainUpdateError.non_fast_forward = ⊥
  IsOfTree MainUpdateError.stale = ⊥
  IsOfTree (MainUpdateError.git e) = ⊥
  IsOfTree _ = Unit

  stale_code :
      (e : MainUpdateError) → (main_status e).code ≡ Code.aborted → e ≡ MainUpdateError.stale
  unfolding main_status status
  stale_code MainUpdateError.stale h = refl
  stale_code _ h = cc

  tree_code : (e : MainUpdateError) → (main_status e).code ≡ Code.failed_precondition → IsOfTree e
  unfolding main_status status
  tree_code MainUpdateError.stale h = cc
  tree_code MainUpdateError.non_fast_forward h = cc
  tree_code (MainUpdateError.git e) h = cc
  tree_code _ h = tt

  IsOfTree-code :
      (e : MainUpdateError) → IsOfTree e → (main_status e).code ≡ Code.failed_precondition
  unfolding main_status status
  IsOfTree-code MainUpdateError.stale h = absurd h
  IsOfTree-code MainUpdateError.non_fast_forward h = absurd h
  IsOfTree-code (MainUpdateError.git e) h = absurd h
  IsOfTree-code _ h = refl

  stale_aborted :
      (e : MainUpdateError) → e ≡ MainUpdateError.stale → (main_status e).code ≡ Code.aborted
  unfolding main_status status
  stale_aborted MainUpdateError.stale h = refl
  stale_aborted _ h = cc

  -- A refused move of `main` asks the client to try again from the new tip, by the code Aborted,
  -- exactly when `main` had moved, and to correct the commit, by the code FailedPrecondition,
  -- exactly when the tree of the commit breaks a rule.
  pub main_status_iff :
      (e : MainUpdateError)
      → (((main_status e).code ≡ Code.aborted) ↔ (e ≡ MainUpdateError.stale))
        × (((main_status e).code ≡ Code.failed_precondition) ↔ IsOfTree e)
  main_status_iff e = ((stale_code e, stale_aborted e), (tree_code e, IsOfTree-code e))
