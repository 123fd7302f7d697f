-- ===== src/Git/Magic.antt =====
-- git/magic.rs: a push to `refs/for/<base>` becomes the branch of its author, and the magic ref
-- goes.
pub mod Moves
pub mod Claims
mod Tests
use setfork_core.Shared.{
  ℕ, Bool, true, false, ◌&&◌, Option, none, some, List, [], ◌∷◌, ◌++◌, ◌==◌, if◌then◌else◌, any,
  Str, codes, str_eq, is_empty, strip_prefix, Result, ok, err,
}
use setfork_core.Names.Branch.{author_branch}
use setfork_core.Git.Refs.{Oid, RefError, RefDb}

-- `MAGIC_PREFIX`
abbrev pub magic_prefix : Str
magic_prefix = codes "refs/for/"

pub record MagicPush : Type 0 where
  pub base : Str
  pub branch : Str
  pub tip : Oid

-- `format!("refs/heads/{branch}")`
abbrev pub head : Str → Str
head branch = codes "refs/heads/" ++ branch

abbrev pub Snapshot : Type 0
Snapshot = List (Str × Oid)

-- `before.iter().any(|(n, o)| n == &name && o == &tip)`
abbrev pub lay_before : Snapshot → Str → Oid → Bool
lay_before before name tip = any (λ p. str_eq p.0 name && p.1 == tip) before

module _ (d : RefDb) where
  -- A call that changes the repository, or fails in the state that it has come to.
  abbrev pub Exec : Type 0 → Type 0
  Exec A = Result RefError A × d.Repo

  -- `snapshot`: the magic refs with their tips; a name that does not resolve is left out.
  unfoldable pub tips_of : d.Repo → List Str → Snapshot
  tips_of r [] = []
  tips_of r (name ∷ names) =
      let rest = tips_of r names in
      elim (d.find r name) [ none ↦ rest | some id ↦ (name, id) ∷ rest ]

  unfoldable pub snapshot : d.Repo → Result RefError Snapshot
  unfolding tips_of
  snapshot r = elim (d.glob r magic_prefix) [ err e ↦ err e | ok names ↦ ok (tips_of r names) ]

  abbrev deleted {ℓ} :
      {A : Type ℓ} → A → d.Repo → Result RefError d.Repo → Result RefError A × d.Repo
  deleted a r (ok r') = (ok a, r')
  deleted a r (err e) = (err e, r)

  -- The branch is moved, then the magic ref is deleted.
  abbrev claimed : Str → MagicPush → d.Repo → Result RefError d.Repo → Exec (Option MagicPush)
  claimed name p r (ok r') = deleted (some p) r' (d.delete r' name)
  claimed name p r (err e) = (err e, r)

  unfoldable pub claim : Str → Str → Str → Oid → d.Repo → Exec (Option MagicPush)
  claim actor name base tip r =
      let branch = author_branch actor base in
      claimed name (record { base = base; branch = branch; tip = tip }) r
        (d.set r (head branch) tip)

  unfoldable pub take_resolved :
      Str → Snapshot → Str → Str → Option Oid → d.Repo → Exec (Option MagicPush)
  take_resolved actor before name base none r = (err (RefError.other (codes "not found")), r)
  take_resolved actor before name base (some tip) r =
      if lay_before before name tip
      then deleted none r (d.delete r name)
      else claim actor name base tip r

  -- One round of the loop; `none` for a name that gives no push.
  unfoldable pub take_one : Str → Snapshot → Str → d.Repo → Exec (Option MagicPush)
  take_one actor before name r = elim (strip_prefix name magic_prefix) [
    | none ↦ (ok none, r)
    | some base ↦ take_resolved actor before name base (d.find r name) r
  ]

  abbrev push_opt : Option MagicPush → List MagicPush → List MagicPush
  push_opt none ps = ps
  push_opt (some p) ps = p ∷ ps

  abbrev pushed : Option MagicPush → Exec (List MagicPush) → Exec (List MagicPush)
  pushed p (ok ps, r) = (ok (push_opt p ps), r)
  pushed p (err e, r) = (err e, r)

  -- The `?` of a round: an error ends the loop in the state that it left.
  abbrev pub and_rest :
      Exec (Option MagicPush) → (d.Repo → Exec (List MagicPush)) → Exec (List MagicPush)
  and_rest (err e, r) rest = (err e, r)
  and_rest (ok p, r) rest = pushed p (rest r)

  unfoldable pub take_names : Str → Snapshot → List Str → d.Repo → Exec (List MagicPush)
  take_names actor before [] r = (ok [], r)
  take_names actor before (name ∷ names) r =
      and_rest (take_one actor before name r) (take_names actor before names)

  unfoldable pub take_magic_pushes : Str → Snapshot → d.Repo → Exec (List MagicPush)
  unfolding take_names
  take_magic_pushes actor before r =
      if is_empty actor then (ok [], r) else elim (d.glob r magic_prefix) [
        | err e ↦ (err e, r)
        | ok names ↦ take_names actor before names r
      ]
