-- ===== src/Git/Sync.antt =====
-- `sync_repo_with_db` of git/version.rs with `align_by_counters`, `restore_main_from_tag`,
-- `bootstrap_from_db`, `main_exists` and `tag_on_tip`: the alignment of a repository with the
-- version counter of the database, under the lock of the repository. Versions are natural numbers
-- below the greatest i32. What the database, the projection and the writers of history come to are
-- arguments.
pub mod Plain
pub mod Spared
pub mod Healed
mod Tests
use setfork_core.Shared.{
  ℕ, suc, ◌+◌, Bool, true, false, not, ◌&&◌, Option, none, some, List, [], ◌∷◌, ltb, ◌==◌, min,
  if◌then◌else◌, length, Str, Result, ok, err, is_some,
}
use setfork_core.Names.Version.{tag_name, max_tag_in}
use setfork_core.Git.Authored.{MainUpdateError}
use setfork_core.Git.Refs.{Oid, RefDb, main_ref}
use setfork_core.Git.Objects.{Objects}
use setfork_core.Git.Update.{update_main}
use setfork_core.Git.Branches.{tag_ref}

pub data SyncOutcome : Type 0 where
  in_sync : SyncOutcome
  bootstrapped main_restored : ℕ → SyncOutcome
  appended : ℕ → ℕ → SyncOutcome
  projected_tip tip_not_versioned : ℕ → SyncOutcome
  conflict : ℕ → ℕ → SyncOutcome

pub data SyncError : Type 0 where
  row_not_found not_opened : SyncError
  failed : Str → SyncError
  update : MainUpdateError → SyncError

module _ (o : Objects) (d : RefDb) where
  abbrev pub Exec : Type 0 → Type 0
  Exec A = Result SyncError A × d.Repo

  -- `current` is the counter of the list, `rows` the versions of its history in the database,
  -- `tags` the names that `max_tag_in` reads.
  pub record Host : Type 0 where
    pub current : Result SyncError (Option ℕ)
    pub on_disk : Bool
    pub can_open : Bool
    pub tags : d.Repo → List Str
    pub rows : Result SyncError (List ℕ)
    pub bootstrap_bare : List ℕ → d.Repo → Exec (Unit {0})
    pub append_missing : List ℕ → d.Repo → Exec (Unit {0})
    pub project_pushed : d.Repo → Exec (Option ℕ)

  -- A ref that cannot be read counts as in place.
  abbrev pub tags_tip : Option Oid → Option Oid → Bool
  tags_tip (some tag) (some tip) = tag == tip
  tags_tip none tip = true
  tags_tip (some tag) none = true

  unfoldable pub tag_on_tip : d.Repo → ℕ → Bool
  tag_on_tip r ver = tags_tip (d.find r (tag_ref (tag_name ver))) (d.find r main_ref)

  abbrev restored : d.Repo → Result MainUpdateError d.Repo → Exec Bool
  restored r (ok r') = (ok true, r')
  restored r (err e) = (err (update e), r)

  abbrev pub restore_at : d.Repo → Option Oid → Exec Bool
  restore_at r none = (ok false, r)
  restore_at r (some oid) = restored r (update_main o d r r oid none)

  unfoldable pub restore_main_from_tag : d.Repo → ℕ → Exec Bool
  restore_main_from_tag r ver = restore_at r (d.find r (tag_ref (tag_name ver)))

  abbrev newer : ℕ → List ℕ → List ℕ
  newer have [] = []
  newer have (v ∷ vs) = let rest = newer have vs in if ltb have v then v ∷ rest else rest

  module _ (h : Host) where
    abbrev bootstrapped_with : ℕ → Exec (Unit {0}) → Exec (Option SyncOutcome)
    bootstrapped_with n (ok u, r) = (ok (some (bootstrapped n)), r)
    bootstrapped_with n (err e, r) = (err e, r)

    abbrev bootstrap_rows : Result SyncError (List ℕ) → d.Repo → Exec (Option SyncOutcome)
    bootstrap_rows (err e) r = (err e, r)
    bootstrap_rows (ok []) r = (ok none, r)
    bootstrap_rows (ok (v ∷ vs)) r =
        bootstrapped_with (length (v ∷ vs)) (h.bootstrap_bare (v ∷ vs) r)

    unfoldable pub bootstrap_from_db : d.Repo → Exec (Option SyncOutcome)
    bootstrap_from_db r = bootstrap_rows h.rows r

    -- Both counters agree, and `main` is ahead of its tag.
    abbrev tip_projected : ℕ → Exec (Option ℕ) → Exec SyncOutcome
    tip_projected current (ok (some v), r) = (ok (projected_tip v), r)
    tip_projected current (ok none, r) = (ok (tip_not_versioned current), r)
    tip_projected current (err e, r) = (err e, r)

    abbrev appended_with : ℕ → ℕ → Exec (Unit {0}) → Exec SyncOutcome
    appended_with have current (ok u, r) = (ok (appended (suc have) current), r)
    appended_with have current (err e, r) = (err e, r)

    -- Git lags behind; `vs` are the rows above `have`.
    abbrev pub append_rows : ℕ → ℕ → List ℕ → d.Repo → Exec SyncOutcome
    append_rows have current [] r =
        if have == 0 && not (is_some (d.find r main_ref))
        then (ok in_sync, r)
        else (ok (conflict have current), r)
    append_rows have current (v ∷ vs) r = appended_with have current (h.append_missing (v ∷ vs) r)

    abbrev behind : ℕ → ℕ → Result SyncError (List ℕ) → d.Repo → Exec SyncOutcome
    behind have current (err e) r = (err e, r)
    behind have current (ok vs) r = append_rows have current (newer have vs) r

    abbrev tail_projected : ℕ → ℕ → Exec (Option ℕ) → Exec SyncOutcome
    tail_projected have current (ok (some v), r) = (ok (projected_tip v), r)
    tail_projected have current (ok none, r) = (ok (conflict have current), r)
    tail_projected have current (err e, r) = (err e, r)

    unfoldable pub align_by_counters : ℕ → ℕ → d.Repo → Exec SyncOutcome
    unfolding tag_on_tip
    align_by_counters current have r =
        if have == current
        then (if ltb 0 current && not (tag_on_tip r current)
            then tip_projected current (h.project_pushed r)
            else (ok in_sync, r))
        else if ltb have current
        then behind have current h.rows r
        else if have == suc current && tag_on_tip r have
        then tail_projected have current (h.project_pushed r)
        else (ok (conflict have current), r)

    -- Behind a restored `main`: nothing else to do is reported as the restoring.
    abbrev pub as_restored : ℕ → Exec SyncOutcome → Exec SyncOutcome
    as_restored ver (ok in_sync, r) = (ok (main_restored ver), r)
    as_restored ver (ok x, r) = (ok x, r)
    as_restored ver (err e, r) = (err e, r)

    abbrev or_align : ℕ → ℕ → Exec (Option SyncOutcome) → Exec SyncOutcome
    or_align current have (ok (some x), r) = (ok x, r)
    or_align current have (ok none, r) = align_by_counters current have r
    or_align current have (err e, r) = (err e, r)

    -- There is no `main`, and it was not restored.
    unfoldable pub rebuild : ℕ → ℕ → d.Repo → Exec SyncOutcome
    unfolding bootstrap_from_db
    rebuild current have r =
        if have == 0
        then or_align current have (bootstrap_from_db r)
        else align_by_counters current have r

    abbrev pub after_restore : ℕ → ℕ → ℕ → Exec Bool → Exec SyncOutcome
    after_restore ver current have (ok true, r) = as_restored ver (align_by_counters current have r)
    after_restore ver current have (ok false, r) = rebuild current have r
    after_restore ver current have (err e, r) = (err e, r)

    unfoldable pub heal_main : ℕ → ℕ → d.Repo → Exec SyncOutcome
    unfolding restore_main_from_tag rebuild
    heal_main current have r =
        let ver = min have current in
        if ltb 0 ver
        then after_restore ver current have (restore_main_from_tag r ver)
        else rebuild current have r

    abbrev or_in_sync : Exec (Option SyncOutcome) → Exec SyncOutcome
    or_in_sync (ok (some x), r) = (ok x, r)
    or_in_sync (ok none, r) = (ok in_sync, r)
    or_in_sync (err e, r) = (err e, r)

    unfoldable pub sync_from : ℕ → d.Repo → Exec SyncOutcome
    unfolding heal_main align_by_counters bootstrap_from_db
    sync_from current r =
        if not h.on_disk
        then or_in_sync (bootstrap_from_db r)
        else if not h.can_open
        then (err not_opened, r)
        else if is_some (d.find r main_ref)
        then align_by_counters current (max_tag_in (h.tags r)) r
        else heal_main current (max_tag_in (h.tags r)) r

    abbrev known : Result SyncError (Option ℕ) → d.Repo → Exec SyncOutcome
    known (err e) r = (err e, r)
    known (ok none) r = (err row_not_found, r)
    known (ok (some current)) r = sync_from current r

    unfoldable pub sync_repo_with_db : d.Repo → Exec SyncOutcome
    unfolding sync_from
    sync_repo_with_db r = known h.current r
