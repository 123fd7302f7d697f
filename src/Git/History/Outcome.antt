-- ===== src/Git/History/Outcome.antt =====
-- What the writing of one version leaves behind, on every branch.
use setfork_core.Shared.{
  ◌≡◌, refl, ap, sym, ◌∙◌, ◌⊎◌, inl, inr, true, Option, none, some, [], ◌∷◌, Str, Result, ok, err,
  Result-cases, Bool-cases, arith,
}
use setfork_core.Canon.Written.{VersionData, decimal}
use setfork_core.Git.Authored.{MainUpdateError}
use setfork_core.Git.Refs.{Oid, RefDb, error_text, main_ref}
use setfork_core.Git.Objects.{Objects}
use setfork_core.Git.Update.{update_main, opt_eq}
use setfork_core.Git.Update.Moves.{update_main-IsMove}
use setfork_core.Git.Branches.{tag_ref}
use setfork_core.Git.History.{
  AuthoredMode, violation_of, commit_all, set_tags, moved, publish, build_history, unless_violated,
  append_version_with, Written,
}

module _ (o : Objects) (d : RefDb)
    (commit_version : Option Oid → VersionData → AuthoredMode → Result MainUpdateError Oid) where
  -- `main` stands at the commit of the version on the tip that was.
  abbrev pub Stands : VersionData → AuthoredMode → d.Repo → d.Repo → Oid → Type 0
  Stands v mode r r' sha =
      (commit_version (d.find r main_ref) v mode ≡ ok sha) × (d.find r' main_ref ≡ some sha)

  abbrev pub Says :
      VersionData → AuthoredMode → d.Repo → Written o d commit_version (Option Oid) → Type 0
  Says v mode r (err e, r') =
      (r' ≡ r) ⊎ ((x : Str) × (sha : Oid) × (e ≡ MainUpdateError.git x) × Stands v mode r r' sha)
  Says v mode r (ok none, r') = r' ≡ r
  Says v mode r (ok (some sha), r') = Stands v mode r r' sha

  opt_eq→eq : (a b : Option Oid) → opt_eq a b ≡ true → a ≡ b
  opt_eq→eq none none h = refl
  opt_eq→eq (some a) (some b) h = ap some (ground arith)
  opt_eq→eq none (some b) h = absurd (ground arith)
  opt_eq→eq (some a) none h = absurd (ground arith)

  tag_kept :
      (r r' : d.Repo) (name : Str) (oid : Oid)
      → d.set r (tag_ref name) oid ≡ ok r'
      → d.find r' main_ref ≡ d.find r main_ref
  tag_kept r r' name oid h = d.find-set r r' (tag_ref name) oid h main_ref

  tagged-Says :
      (v : VersionData) (mode : AuthoredMode) (r r' : d.Repo) (name : Str) (sha : Oid)
      → Stands v mode r r' sha
      → Says v mode r (set_tags o d commit_version ((tag_ref name, sha) ∷ []) (some sha) r')
  unfolding set_tags
  tagged-Says v mode r r' name sha (c, m) = elim (Result-cases (d.set r' (tag_ref name) sha)) [
    | inl (x, p) ↦ rw (set_tags, p) (inr (error_text x, sha, refl, (c, m)))
    | inr (r'', p) ↦ rw (set_tags, p) (c, tag_kept r' r'' name sha p ∙ m)
  ]

  moved-Says :
      (v : VersionData) (mode : AuthoredMode) (r : d.Repo) (name : Str) (sha : Oid)
      → commit_version (d.find r main_ref) v mode ≡ ok sha
      → Says v mode r (
          moved o d commit_version
            ((tag_ref name, sha) ∷ [])
            sha
            r
            (update_main o d r r sha (d.find r main_ref)))
  unfolding moved
  moved-Says v mode r name sha c =
      elim (Result-cases (update_main o d r r sha (d.find r main_ref))) [
        | inl (e, p) ↦ rw p (inl refl)
        | inr (r', p) ↦ rw p (
            tagged-Says v mode r r' name sha
              (c, (update_main-IsMove o d r r r' sha (d.find r main_ref) p).moved))
      ]

  publish-Says :
      (v : VersionData) (mode : AuthoredMode) (r : d.Repo) (name : Str) (sha : Oid)
      → commit_version (d.find r main_ref) v mode ≡ ok sha
      → Says v mode r (
          publish o d commit_version
            (d.find r main_ref)
            r
            (ok (some sha, (tag_ref name, sha) ∷ [])))
  unfolding publish
  publish-Says v mode r name sha c = elim (Bool-cases (opt_eq (some sha) (d.find r main_ref))) [
    | inl e ↦ rw e (c, sym (opt_eq→eq (some sha) (d.find r main_ref) e))
    | inr e ↦ rw e (moved-Says v mode r name sha c)
  ]

  build_history-Says :
      (v : VersionData) (mode : AuthoredMode) (r : d.Repo)
      → Says v mode r (build_history o d commit_version (v ∷ []) (d.find r main_ref) mode r)
  unfolding build_history commit_all publish
  build_history-Says v mode r = elim (Result-cases (commit_version (d.find r main_ref) v mode)) [
    | inl (e, p) ↦ rw p (inl refl)
    | inr (sha, p) ↦ rw p (publish-Says v mode r (b'v' ∷ decimal v.version) sha p)
  ]

  -- The writing of a version, when it gives a commit, leaves `main` at the commit of the version on
  -- the tip that was; when it gives none, it changes nothing; and when it fails, it changes nothing
  -- or `main` stands at the commit of the version already and the error is one of git.
  pub append_version_with-Says :
      (v : VersionData) (mode : AuthoredMode) (r : d.Repo)
      → Says v mode r (append_version_with o d commit_version v mode r)
  unfolding append_version_with unless_violated
  append_version_with-Says v mode r = go (violation_of mode)
    where
      go :
          (x : Option MainUpdateError)
          → Says v mode r (unless_violated o d commit_version x v mode r)
      go (some e) = inl refl
      go none = build_history-Says v mode r
