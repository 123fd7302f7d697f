-- ===== src/Git/Web/Atomic.antt =====
-- What a web edit leaves behind, on every branch.
use setfork_core.Shared.{
  ℕ, ◌≡◌, ◌≢◌, refl, sym, ◌⊎◌, inl, inr, false, ◌&&◌, Option, none, some, Result, ok, err,
  Result-cases, Bool-cases, ◌==◌, arith, is_some, subst,
}
use setfork_core.Canon.Written.{VersionData}
use setfork_core.Git.Authored.{MainUpdateError}
use setfork_core.Git.Refs.{Oid, RefDb}
use setfork_core.Git.Objects.{Objects}
use setfork_core.Git.History.{AuthoredMode, Written}
use setfork_core.Git.History.Outcome.{Stands, Says, append_version_with-Says}
use setfork_core.Git.Sync.{SyncOutcome, SyncError}
use setfork_core.Git.Web.Transaction.{IsPrepared, IsStored, prepare-IsPrepared, db_tail-IsStored}
use setfork_core.Git.Web.{
  TxError, of_tx, WebEdit, WebVersionError, ListRow, Tables, Prepared, check_expected, prepare,
  db_tail, mode_of, refused, projected, committed, prepared, aligned, commit_web_version, is_input,
  Out,
}

module _ {Db : Type 0} (t : Tables Db) (o : Objects) (d : RefDb)
    (commit_version : Option Oid → VersionData → AuthoredMode → Result MainUpdateError Oid)
    (sync : Db → d.Repo → Result SyncError SyncOutcome × (Db × d.Repo)) where
  -- The commit of an edit that was prepared stands at `main`.
  abbrev pub Lands : WebEdit → Db → d.Repo → d.Repo → Oid → Type 0
  Lands edit base r r' sha =
      (p : Prepared Db) × IsPrepared t edit base p
      × Stands o d commit_version p.vdata (mode_of t edit.authored) r r' sha

  -- `base` and `r` are the database and the repository behind the alignment.
  abbrev pub Outcome : WebEdit → Db → d.Repo → Out t o d commit_version sync → Type 0
  Outcome edit base r (ok v, (base', r')) =
      (p : Prepared Db) × IsPrepared t edit base p
      × (v.version ≡ p.version)
      × Stands o d commit_version p.vdata (mode_of t edit.authored) r r' v.commit_sha
      × (v.ver_id ≡ p.row.ver_id)
      × IsStored t edit p base'
  Outcome edit base r (err (WebVersionError.projection_lost ver sha e), (base', r')) =
      (base' ≡ base) × Lands edit base r r' sha
  Outcome edit base r (err (WebVersionError.git e), (base', r')) =
      (base' ≡ base) × ((r' ≡ r) ⊎ ((sha : Oid) × Lands edit base r r' sha))
  Outcome edit base r (err _, (base', r')) = (base' ≡ base) × (r' ≡ r)

  projected-Outcome :
      (edit : WebEdit) (base : Db) (r r' : d.Repo) (p : Prepared Db) (sha : Oid)
      → IsPrepared t edit base p
      → Stands o d commit_version p.vdata (mode_of t edit.authored) r r' sha
      → Outcome edit base r (projected t o d commit_version sync p sha base r' (db_tail t edit p))
  projected-Outcome edit base r r' p sha e s = elim (Result-cases (db_tail t edit p)) [
    | inl (x, q) ↦ rw q (refl, (p, e, s))
    | inr (base', q) ↦ rw q (p, e, refl, s, refl, db_tail-IsStored t edit p base' q)
  ]

  kept :
      (edit : WebEdit) (base : Db) (r r' : d.Repo) (x : MainUpdateError)
      → r' ≡ r
      → Outcome edit base r (err (refused t (is_some edit.authored) x), (base, r'))
  kept edit base r r' x h = elim (Bool-cases (is_input x && is_some edit.authored)) [
    | inl e ↦ rw e (refl, h)
    | inr e ↦ rw e (refl, inl h)
  ]

  committed-Outcome :
      (edit : WebEdit) (base : Db) (r : d.Repo) (p : Prepared Db)
      (w : Written o d commit_version (Option Oid))
      → IsPrepared t edit base p
      → Says o d commit_version p.vdata (mode_of t edit.authored) r w
      → Outcome edit base r (committed t o d commit_version sync edit p base w)
  unfolding committed
  committed-Outcome edit base r p (ok (some sha), r') e s =
      projected-Outcome edit base r r' p sha e s
  committed-Outcome edit base r p (ok none, r') e s = (refl, s)
  committed-Outcome edit base r p (err x, r') e (inl h) = kept edit base r r' x h
  committed-Outcome edit base r p (err x, r') e (inr (text, sha, g, s)) =
      subst (λ x. Outcome edit base r (err (refused t (is_some edit.authored) x), (base, r')))
        (sym g) (refl, inr (sha, (p, e, s)))

  stopped :
      (edit : WebEdit) (base : Db) (r : d.Repo) (x : TxError)
      → Outcome edit base r (err (of_tx x), (base, r))
  stopped edit base r TxError.no_row = (refl, refl)
  stopped edit base r (TxError.stale e c) = (refl, refl)
  stopped edit base r (TxError.failed e) = (refl, refl)

  prepared-Outcome :
      (edit : WebEdit) (base : Db) (r : d.Repo)
      → Outcome edit base r (prepared t o d commit_version sync edit base r (prepare t edit base))
  unfolding prepared
  prepared-Outcome edit base r = elim (Result-cases (prepare t edit base)) [
    | inl (x, q) ↦ rw q (stopped edit base r x)
    | inr (p, q) ↦ rw q (
        committed-Outcome edit base r p _ (prepare-IsPrepared t edit base p q)
          (append_version_with-Says o d commit_version p.vdata (mode_of t edit.authored) r))
  ]

  aligned-Outcome :
      (edit : WebEdit) (base : Db) (r : d.Repo) (res : Result SyncError SyncOutcome)
      → Outcome edit base r (aligned t o d commit_version sync edit (res, (base, r)))
  unfolding aligned
  aligned-Outcome edit base r (ok (SyncOutcome.conflict have current)) = (refl, refl)
  aligned-Outcome edit base r (err SyncError.row_not_found) = (refl, refl)
  aligned-Outcome edit base r (err _) = (refl, refl)
  aligned-Outcome edit base r (ok _) = prepared-Outcome edit base r

  -- A web edit, behind the alignment, either commits the version in git and its rows in the
  -- database: the row of the version, the rows of its steps and the counter, in one transaction,
  -- which is committed; or has committed in git alone, which is told with the version and the
  -- commit; or is an error of git, which leaves the database alone and the repository too unless
  -- the commit stands at `main`; or is another error, which leaves both alone. The commit that
  -- stands at `main` is that of the edit on the tip that was.
  pub commit_web_version-Outcome :
      (edit : WebEdit) (base : Db) (r : d.Repo)
      → let (base', r') = (sync base r).1 in
        Outcome edit base' r' (commit_web_version t o d commit_version sync edit base r)
  unfolding commit_web_version
  commit_web_version-Outcome edit base r =
      aligned-Outcome edit (sync base r).1.0 (sync base r).1.1 (sync base r).0

  -- An edit that is based on another version than the current one is refused and writes nothing,
  -- where the repository is aligned and the row of the list can be read.
  pub commit_web_version_stale :
      (edit : WebEdit) (base tx : Db) (r : d.Repo) (e : ℕ) (l : ListRow)
      → sync base r ≡ (ok SyncOutcome.in_sync, (base, r))
      → t.begin base ≡ ok tx
      → t.select_for_update tx ≡ ok (some l)
      → edit.expected_version ≡ some e
      → e ≢ l.current
      → commit_web_version t o d commit_version sync edit base r
        ≡ (err (WebVersionError.version_conflict e l.current), (base, r))
  unfolding commit_web_version prepare check_expected aligned prepared
  commit_web_version_stale edit base tx r e l h1 h2 h3 h4 h5 = rw (h1, h2, h3, h4, differs) refl
    where
      differs : (e == l.current) ≡ false
      differs = ground arith
