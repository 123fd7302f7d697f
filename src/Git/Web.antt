-- ===== src/Git/Web.antt =====
-- `commit_web_version` of git/version.rs with `has_text`, under the lock of the repository: a web
-- edit as a commit of main first and rows of the database after it. A transaction works on a copy
-- of the database, which counts once it is committed. The calls of the database are arguments, as
-- is the alignment of the repository; versions are natural numbers below the greatest i32.
pub mod Transaction
pub mod Atomic
mod Tests
use setfork_core.Shared.{
  ℕ, suc, ◌+◌, ◌==◌, Bool, true, false, not, ◌&&◌, ◌||◌, Option, none, some, List, [], ◌∷◌, Str,
  codes, is_empty, trim, Result, ok, err, ◌>>=◌, ◌>>◌, if◌then◌else◌, ℤ, pos, and_then, is_some_and,
  is_some,
}
use setfork_core.Json.{Json, Fields, as_str}
use setfork_core.Canon.Project.{take}
use setfork_core.Canon.Written.{VersionData, SerStep, is_valid_kind, skill_header_valid}
use setfork_core.Db.Carryover.{StepRow}
use setfork_core.Db.Rows.{loc, ser_step_from_row}
use setfork_core.Git.Authored.{MainUpdateError, AuthoredInput}
use setfork_core.Git.Refs.{Oid, RefDb}
use setfork_core.Git.Objects.{Objects}
use setfork_core.Git.History.{AuthoredMode, Written, append_version_with}
use setfork_core.Git.Sync.{SyncOutcome, SyncError}

pub record MetaPatch : Type 0 where
  pub title : Option Json
  pub desc : Option Json
  pub tags : Option (List Str)
  pub ordered : Option Bool

pub record WebEdit : Type 0 where
  pub note : Str
  pub author_id : Option ℕ
  pub rows : List StepRow
  pub patch : MetaPatch
  pub expected_version : Option ℕ
  pub authored : Option (List AuthoredInput)

pub record WebVersion : Type 0 where
  pub ver_id : ℕ
  pub version : ℕ
  pub commit_sha : Oid
  pub created_at_ms : ℤ

-- The text of `git` is not kept apart from its cause.
pub data WebVersionError : Type 0 where
  not_found nothing_to_commit : WebVersionError
  version_conflict out_of_sync : ℕ → ℕ → WebVersionError
  db : SyncError → WebVersionError
  git authored : MainUpdateError → WebVersionError
  projection_lost : ℕ → Oid → SyncError → WebVersionError

-- What can be wrong before git: the errors of `WebVersionError` that the transaction itself gives.
pub data TxError : Type 0 where
  no_row : TxError
  stale : ℕ → ℕ → TxError
  failed : SyncError → TxError

abbrev pub of_tx : TxError → WebVersionError
of_tx no_row = WebVersionError.not_found
of_tx (stale expected current) = WebVersionError.version_conflict expected current
of_tx (failed e) = WebVersionError.db e

-- The row of the list that is locked, and the row of a new version.
pub record ListRow : Type 0 where
  pub current : ℕ
  pub title : Json
  pub desc : Json
  pub tags : List Str
  pub ordered : Bool
  pub kind : Option Str
  pub skill_header : Option Json

pub record VersionRow : Type 0 where
  pub ver_id : ℕ
  pub created_s : ℤ
  pub created_ms : ℤ

abbrev pub any_text : Fields → Bool
any_text Fields.end = false
any_text (Fields.field k v fs) =
    is_some_and (as_str v) (λ t. not (is_empty (trim t))) || any_text fs

unfoldable pub has_text : Json → Bool
has_text (Json.obj fs) = any_text fs
has_text _ = false

-- The errors of `append_version_with` that are about the files of the author.
abbrev pub is_input : MainUpdateError → Bool
is_input (MainUpdateError.foreign_path p) = true
is_input (MainUpdateError.authored_not_file p) = true
is_input (MainUpdateError.authored_binary p) = true
is_input (MainUpdateError.authored_too_many n) = true
is_input (MainUpdateError.authored_too_large n) = true
is_input (MainUpdateError.authored_duplicate p) = true
is_input (MainUpdateError.authored_executable p) = true
is_input _ = false

pub record Tables (Db : Type 0) : Type 0 where
  pub begin : Db → Result SyncError Db
  pub select_for_update : Db → Result SyncError (Option ListRow)
  pub set_title : Json → Db → Result SyncError Db
  pub set_desc : Json → Db → Result SyncError Db
  pub set_tags : List Str → Db → Result SyncError Db
  pub set_ordered : Bool → Db → Result SyncError Db
  pub insert_version_row : ℕ → Str → Option ℕ → Db → Result SyncError (VersionRow × Db)
  pub insert_step_rows : ℕ → List StepRow → Db → Result SyncError Db
  pub bump_current_version : ℕ → Db → Result SyncError Db
  pub commit : Db → Result SyncError Db
  pub uuid_text : ℕ → Str

pub record Prepared (Db : Type 0) : Type 0 where
  pub version : ℕ
  pub row : VersionRow
  pub vdata : VersionData
  pub tx : Db

module _ {Db : Type 0} (t : Tables Db) where
  abbrev pub Tx : Type 0 → Type 0
  Tx A = Result TxError A

  abbrev pub of_db : {A : Type 0} → Result SyncError A → Tx A
  of_db (ok a) = ok a
  of_db (err e) = err (TxError.failed e)

  abbrev pub found : Option ListRow → Tx ListRow
  found none = err TxError.no_row
  found (some l) = ok l

  unfoldable pub check_expected : Option ℕ → ℕ → Tx (Unit {0})
  check_expected none current = ok tt
  check_expected (some e) current = if e == current then ok tt else err (TxError.stale e current)

  -- A field that the patch has is written, and its value goes into the canon.
  abbrev pub patched :
      {A : Type 0} → Option A → A → (A → Db → Result SyncError Db) → Db → Tx (A × Db)
  patched none old write tx = ok (old, tx)
  patched (some new) old write tx = do tx' ← of_db (write new tx); ok (new, tx')

  abbrev pub with_text : Option Json → Option Json
  unfolding has_text
  with_text none = none
  with_text (some v) = if has_text v then some v else none

  abbrev pub first_tags : Option (List Str) → Option (List Str)
  first_tags none = none
  first_tags (some ts) = some (take 20 ts)

  abbrev pub valid_kind : Option Str → Option Str
  unfolding is_valid_kind
  valid_kind none = none
  valid_kind (some k) = if is_valid_kind k then some k else none

  unfoldable pub numbered : ℕ → List StepRow → List SerStep
  unfolding ser_step_from_row
  numbered i [] = []
  numbered i (r ∷ rs) = ser_step_from_row t.uuid_text (pos (suc i)) r ∷ numbered (suc i) rs

  -- What is done in the transaction before git.
  unfoldable pub prepare : WebEdit → Db → Tx (Prepared Db)
  unfolding check_expected numbered loc with_text valid_kind skill_header_valid
  prepare edit base = do
    tx ← of_db (t.begin base)
    row ← of_db (t.select_for_update tx)
    l ← found row
    check_expected edit.expected_version l.current
    (title, tx1) ← patched (with_text edit.patch.title) l.title t.set_title tx
    (desc, tx2) ← patched edit.patch.desc l.desc t.set_desc tx1
    (tags, tx3) ← patched (first_tags edit.patch.tags) l.tags t.set_tags tx2
    (ordered, tx4) ← patched edit.patch.ordered l.ordered t.set_ordered tx3
    (ver, tx5) ← of_db (t.insert_version_row (suc l.current) edit.note edit.author_id tx4)
    ok (record {
      version = suc l.current;
      row = ver;
      vdata = record {
        version = pos (suc l.current);
        note = edit.note;
        ts = ver.created_s;
        title = loc title;
        desc = loc desc;
        tags = tags;
        ordered = ordered;
        kind = valid_kind l.kind;
        skill_header = and_then l.skill_header skill_header_valid;
        steps = numbered 0 edit.rows;
      };
      tx = tx5;
    })

  -- The rows of the steps and the counter, behind the commit in git.
  unfoldable pub db_tail : WebEdit → Prepared Db → Result SyncError Db
  db_tail edit p = do
    tx ← t.insert_step_rows p.row.ver_id edit.rows p.tx
    tx' ← t.bump_current_version p.version tx
    t.commit tx'

  abbrev pub mode_of : Option (List AuthoredInput) → AuthoredMode
  mode_of none = AuthoredMode.carry
  mode_of (some files) = AuthoredMode.replace files

  abbrev pub refused : Bool → MainUpdateError → WebVersionError
  refused sent_files e =
      if is_input e && sent_files then WebVersionError.authored e else WebVersionError.git e

  module _ (o : Objects) (d : RefDb)
      (commit_version : Option Oid → VersionData → AuthoredMode → Result MainUpdateError Oid)
      (sync : Db → d.Repo → Result SyncError SyncOutcome × (Db × d.Repo)) where
    abbrev pub Out : Type 0
    Out = Result WebVersionError WebVersion × (Db × d.Repo)

    abbrev pub projected : Prepared Db → Oid → Db → d.Repo → Result SyncError Db → Out
    projected p sha base r (ok base') = (
      ok (record {
        ver_id = p.row.ver_id;
        version = p.version;
        commit_sha = sha;
        created_at_ms = p.row.created_ms;
      }),
      (base', r),
    )
    projected p sha base r (err e) =
        (err (WebVersionError.projection_lost p.version sha e), (base, r))

    abbrev pub committed :
        WebEdit → Prepared Db → Db → Written o d commit_version (Option Oid) → Out
    unfolding db_tail
    committed edit p base (ok (some sha), r) = projected p sha base r (db_tail edit p)
    committed edit p base (ok none, r) = (err WebVersionError.nothing_to_commit, (base, r))
    committed edit p base (err e, r) = (err (refused (is_some edit.authored) e), (base, r))

    abbrev pub prepared : WebEdit → Db → d.Repo → Tx (Prepared Db) → Out
    unfolding append_version_with
    prepared edit base r (err e) = (err (of_tx e), (base, r))
    prepared edit base r (ok p) =
        committed edit p base
          (append_version_with o d commit_version p.vdata (mode_of edit.authored) r)

    abbrev pub aligned : WebEdit → Result SyncError SyncOutcome × (Db × d.Repo) → Out
    unfolding prepare
    aligned edit (ok (SyncOutcome.conflict have current), s) =
        (err (WebVersionError.out_of_sync have current), s)
    aligned edit (err SyncError.row_not_found, s) = (err WebVersionError.not_found, s)
    aligned edit (err e, s) = (err (WebVersionError.db e), s)
    aligned edit (ok _, (base, r)) = prepared edit base r (prepare edit base)

    unfoldable pub commit_web_version : WebEdit → Db → d.Repo → Out
    commit_web_version edit base r = aligned edit (sync base r)
