-- ===== src/Git/Push.antt =====
-- `receive_pack` of services/git_core/mod.rs with `ensure_repo_under_limit`, `main_oid`, `opt` and
-- `project_main_or_log`, and `choose_actor` of services/git_core/actor.rs. The reception by git,
-- the projection and what the other calls come to are arguments; the background push of the mirror
-- and the logs are left out.
pub mod Versions
mod Tests
use setfork_core.Shared.{
  ℕ, ◌*◌, ◌/◌, Bool, true, false, not, ◌&&◌, Option, none, some, List, [], ◌∷◌, ◌++◌, ltb, ◌==◌,
  if◌then◌else◌, Str, codes, is_empty, Result, ok, err, ◌>>=◌, ◌>>◌, is_some,
}
use setfork_core.Names.Decimal.{digits}
use setfork_core.Reason.{Code, Reason, Status, plain, status}
use setfork_core.Gate.Ask.{World, ensure_writable}
use setfork_core.Git.Refs.{Oid, RefError, RefDb, main_ref}
use setfork_core.Git.Magic.{MagicPush, Snapshot, snapshot, take_magic_pushes}
use setfork_core.Git.Branches.{Disk, ensure, internal, not_internal, required}

unfoldable pub choose_actor : Str → Str → Str → Str
choose_actor [] [] handle = handle
choose_actor [] (c ∷ role) handle = []
choose_actor (c ∷ id) role handle = c ∷ id

abbrev pub opt : Str → Option Str
opt s = if is_empty s then none else some s

-- The outcome of the projection as a version; nothing to project and a failure are 0.
abbrev pub version_or_zero : Result Str (Option ℕ) → ℕ
version_or_zero (ok (some v)) = v
version_or_zero (ok none) = 0
version_or_zero (err e) = 0

-- `attempt n` is what the projection comes to the first and the second time.
unfoldable pub project_main_or_log : (ℕ → Result Str (Option ℕ)) → ℕ
project_main_or_log attempt = elim (attempt 0) [
  | err e ↦ version_or_zero (attempt 1)
  | ok v ↦ version_or_zero (ok v)
]

-- What git is told of the push.
pub record PushEnv : Type 0 where
  pub actor : Option Str
  pub role : Option Str
  pub owner : Option Str
  pub slug : Option Str

pub record PushRequest : Type 0 where
  pub repo : Option (Str × Str)
  pub body : Str
  pub git_protocol : Str
  pub lang : Str
  pub actor_handle : Str
  pub actor_id : Str
  pub actor_role : Str

pub record PushResponse : Type 0 where
  pub pack : Str
  pub new_version : ℕ
  pub magic : List MagicPush

abbrev pub mebibyte : ℕ
mebibyte = 1024 * 1024

module _ {Body : Type 0} (w : World Body) (app_url : Option Str) (disk : Disk) (d : RefDb) where
  -- What a push meets: the lock of the repository, the hook, the size with its limit, git, and the
  -- projection of the repository at its first and its second attempt.
  pub record Host : Type 0 where
    pub repo_guard : Result Status (Unit {0})
    pub install_hook : Result Str (Unit {0})
    pub repo_size : ℕ
    pub repo_limit : ℕ
    pub receive : Str → Option Str → Option Str → PushEnv → d.Repo → Result Str Str × d.Repo
    pub project : d.Repo → ℕ → Result Str (Option ℕ)

  unfoldable pub ensure_repo_under_limit : ℕ → ℕ → Result Status (Unit {0})
  ensure_repo_under_limit limit size =
      if limit == 0
      then ok tt
      else if ltb limit size
      then err (
          status w.metadata Code.resource_exhausted Reason.repo_too_large (
            codes "list repository is "
            ++ (digits (size / mebibyte)
                ++ (codes " MB, over the "
                    ++ (digits (limit / mebibyte) ++ codes " MB limit; writes are stopped")))))
      else ok tt

  abbrev pub Exec : Type 0
  Exec = Result Status PushResponse × d.Repo

  abbrev same : Option Oid → Option Oid → Bool
  same none none = true
  same (some a) (some b) = a == b
  same none (some b) = false
  same (some a) none = false

  -- `after.is_some() && after != before`
  abbrev pub moved : Option Oid → Option Oid → Bool
  moved before after = is_some after && not (same after before)

  module _ (h : Host) where
    -- Behind the magic refs: the version of a `main` that moved.
    abbrev pub answered : Str → Bool → Result RefError (List MagicPush) × d.Repo → Exec
    answered pack move (err e, r) = (err internal, r)
    answered pack move (ok magic, r) = (
      ok (record {
        pack = pack;
        new_version = if move then project_main_or_log (h.project r) else 0;
        magic = magic;
      }),
      r,
    )

    abbrev pub received : Str → Snapshot → Option Oid → Result Str Str × d.Repo → Exec
    received actor before main_before (err e, r) = (err internal, r)
    received actor before main_before (ok pack, r) =
        answered pack (moved main_before (d.find r main_ref)) (take_magic_pushes d actor before r)

    -- `snapshot(&r).unwrap_or_default()`
    abbrev pub or_empty : Result RefError Snapshot → Snapshot
    or_empty (ok s) = s
    or_empty (err e) = []

    unfoldable pub push_checks : Option (Str × Str) → Result Status (Unit {0})
    unfolding ensure_repo_under_limit
    push_checks repo = do
      list ← required repo
      ensure_writable w app_url list.0 list.1
      ensure w app_url disk list.0 list.1
      h.repo_guard
      not_internal h.install_hook
      ensure_repo_under_limit h.repo_limit h.repo_size
      not_internal disk.open_bare

    abbrev owner_of : Option (Str × Str) → Str
    owner_of none = []
    owner_of (some p) = p.0

    abbrev slug_of : Option (Str × Str) → Str
    slug_of none = []
    slug_of (some p) = p.1

    abbrev pub env_of : PushRequest → Str → PushEnv
    env_of q actor = record {
      actor = opt actor;
      role = opt q.actor_role;
      owner = opt (owner_of q.repo);
      slug = opt (slug_of q.repo);
    }

    abbrev pub actor_of : PushRequest → Str
    actor_of q = choose_actor q.actor_id q.actor_role q.actor_handle

    abbrev pub after : Result Status (Unit {0}) → d.Repo → Exec → Exec
    after (ok u) r x = x
    after (err e) r x = (err e, r)

    unfoldable pub receive_pack : PushRequest → d.Repo → Exec
    unfolding choose_actor push_checks
    receive_pack q r = after (push_checks q.repo) r (
        received (actor_of q) (or_empty (snapshot d r)) (d.find r main_ref)
          (h.receive q.body (opt q.git_protocol) (opt q.lang) (env_of q (actor_of q)) r))
