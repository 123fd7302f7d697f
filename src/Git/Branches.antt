-- ===== src/Git/Branches.antt =====
-- The calls `create_branch`, `delete_branch` and `create_tag` of services/git_core/mod.rs, from the
-- request to the reference. `r` is the bare repository that `ensure` hands out; what `ensure_repo`,
-- the opening of the repository and the lookups of objects come to are arguments.
pub mod Kept
pub mod Done
mod Tests
use setfork_core.Shared.{
  ◌≡◌, Bool, true, false, not, ◌&&◌, Option, none, some, ◌++◌, Str, codes, str_eq, is_empty,
  if◌then◌else◌, Result, ok, err, ◌>>=◌, ◌>>◌,
}
use setfork_core.Reason.{Code, Reason, Status, plain, status}
use setfork_core.Names.Branch.{valid_branch, valid_tag}
use setfork_core.Names.Version.{is_version_tag}
use setfork_core.Gate.Ask.{World, ensure_writable}
use setfork_core.Git.Refs.{Oid, zero_oid, RefError, RefDb}
use setfork_core.Git.Magic.{head}

-- `refs/tags/<name>`
abbrev pub tag_ref : Str → Str
tag_ref name = codes "refs/tags/" ++ name

-- `internal(e)` of services/util.rs
abbrev pub internal : Status
internal = plain Code.internal (codes "internal error")

abbrev pub guard : Bool → Status → Result Status (Unit {0})
guard true s = ok tt
guard false s = err s

abbrev pub not_internal {ℓ} : {A : Type ℓ} → Result Str A → Result Status A
not_internal (ok a) = ok a
not_internal (err e) = err internal

-- `repo.ok_or_else(…)`: the owner and the slug of the request.
abbrev pub required : Option (Str × Str) → Result Status (Str × Str)
required none = err (plain Code.invalid_argument (codes "repo required"))
required (some p) = ok p

-- What the calls meet outside the references: the result of `ensure_repo` for a list (`false` where
-- there is none), of `Repository::open_bare`, of `find_commit` and of `find_object`.
pub record Disk : Type 0 where
  pub ensure_repo : Str → Str → Result Status Bool
  pub open_bare : Result Str (Unit {0})
  pub find_commit : Oid → Result Str (Unit {0})
  pub find_object : Oid → Result Str (Unit {0})

module _ {Body : Type 0} (w : World Body) (app_url : Option Str) (disk : Disk) where
  abbrev listed : Bool → Result Status (Unit {0})
  listed found =
      guard found (status w.metadata Code.not_found Reason.not_found (codes "list not found"))

  unfoldable pub ensure : Str → Str → Result Status (Unit {0})
  ensure owner slug = disk.ensure_repo owner slug >>= listed

  abbrev pub bad_name : Str → Status
  bad_name text = status w.metadata Code.invalid_argument Reason.bad_name text

  -- `with_repo`, up to the closure.
  abbrev pub entered : Str → Str → Result Status (Unit {0})
  entered owner slug = do ensure owner slug; not_internal disk.open_bare

  module _ (d : RefDb) where
    abbrev pub Exec : Type 0
    Exec = Result Status Oid × d.Repo

    -- The early returns of a call.
    abbrev pub after : Result Status (Unit {0}) → d.Repo → Exec → Exec
    after (ok u) r x = x
    after (err e) r x = (err e, r)

    abbrev pub created : Oid → d.Repo → Result RefError d.Repo → Exec
    created base r (ok r') = (ok base, r')
    created base r (err (RefError.exists e)) =
        (err (status w.metadata Code.already_exists Reason.exists (codes "branch exists")), r)
    created base r (err (RefError.modified e)) = (err internal, r)
    created base r (err (RefError.other e)) = (err internal, r)

    unfoldable pub create_branch_in : Str → Option Oid → d.Repo → Exec
    create_branch_in name none r =
        (err (status w.metadata Code.not_found Reason.not_found (codes "base branch not found")), r)
    create_branch_in name (some base) r =
        after (not_internal (disk.find_commit base)) r
          (created base r (d.create r (head name) base))

    -- The name of the base where the request has none.
    abbrev pub base_name : Str → Str
    base_name from = if is_empty from then codes "main" else from

    unfoldable pub create_branch_checks : Option (Str × Str) → Str → Str → Result Status (Unit {0})
    create_branch_checks repo name from = do
      list ← required repo
      ensure_writable w app_url list.0 list.1
      guard (valid_branch name && valid_branch (base_name from))
          (bad_name (codes "bad branch name"))
      entered list.0 list.1

    unfoldable pub create_branch : Option (Str × Str) → Str → Str → d.Repo → Exec
    unfolding create_branch_checks create_branch_in
    create_branch repo name from r =
        after (create_branch_checks repo name from) r
          (create_branch_in name (d.find r (head (base_name from))) r)

    abbrev pub done : Oid → d.Repo → Result RefError d.Repo → Exec
    done id r (ok r') = (ok id, r')
    done id r (err e) = (err internal, r)

    unfoldable pub delete_branch_in : Str → Option Oid → d.Repo → Exec
    delete_branch_in name none r =
        (err (status w.metadata Code.not_found Reason.not_found (codes "branch not found")), r)
    delete_branch_in name (some id) r = done zero_oid r (d.delete r (head name))

    unfoldable pub delete_branch_checks : Option (Str × Str) → Str → Result Status (Unit {0})
    delete_branch_checks repo name = do
      list ← required repo
      ensure_writable w app_url list.0 list.1
      guard (valid_branch name) (bad_name (codes "bad branch name"))
      guard (not (str_eq name (codes "main")))
          (status w.metadata Code.failed_precondition Reason.protected (codes "main is protected"))
      entered list.0 list.1

    -- The response has an empty `tip_sha`: no object.
    unfoldable pub delete_branch : Option (Str × Str) → Str → d.Repo → Exec
    unfolding delete_branch_checks delete_branch_in
    delete_branch repo name r =
        after (delete_branch_checks repo name) r (delete_branch_in name (d.find r (head name)) r)

    unfoldable pub create_tag_in : Str → Option Oid → d.Repo → Exec
    create_tag_in name none r = (err (plain Code.not_found (codes "version not found")), r)
    create_tag_in name (some target) r =
        after (not_internal (disk.find_object target)) r
          (done target r (d.set r (tag_ref name) target))

    unfoldable pub create_tag_checks : Option (Str × Str) → Str → Result Status (Unit {0})
    create_tag_checks repo name = do
      list ← required repo
      ensure_writable w app_url list.0 list.1
      guard (valid_tag name) (bad_name (codes "bad tag name"))
      guard (not (is_version_tag name)) (
          status w.metadata Code.invalid_argument Reason.reserved_tag_name
            (codes "reserved tag name"))
      entered list.0 list.1

    -- The second `ensure`, for the mirror: an error of it is the answer, and the tag stays.
    abbrev pub mirrored : Result Status (Unit {0}) → Exec → Exec
    mirrored again (ok id, r) = (again >>= (λ u. ok id), r)
    mirrored again (err e, r) = (err e, r)

    -- `version` is the number of the version, as printed; `again` is what the second `ensure` comes
    -- to.
    unfoldable pub create_tag :
        Option (Str × Str) → Str → Str → Result Status (Unit {0}) → d.Repo → Exec
    unfolding create_tag_checks create_tag_in
    create_tag repo name version again r = mirrored again (
        after (create_tag_checks repo name) r
          (create_tag_in name (d.find r (tag_ref (codes "v" ++ version))) r))
