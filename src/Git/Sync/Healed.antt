-- ===== src/Git/Sync/Healed.antt =====
-- When the alignment rebuilds a repository or restores its `main`.
use setfork_core.Shared.{
  ℕ, ◌≡◌, ◌⊎◌, inl, inr, refl, ap, ◌∙◌, subst, Bool, true, false, not, Option, none, some, List, [],
  ◌∷◌, ltb, ◌==◌, min, arith, if◌then◌else◌, Result, ok, err, is_some, Bool-cases, ==_iff,
}
use setfork_core.Names.Version.{tag_name, max_tag_in}
use setfork_core.Git.Authored.{MainUpdateError}
use setfork_core.Git.Refs.{Oid, RefDb, main_ref}
use setfork_core.Git.Objects.{Objects}
use setfork_core.Git.Update.{update_main}
use setfork_core.Git.Update.Rules.{IsGoodTip}
use setfork_core.Git.Update.Moves.{update_main-IsMove}
use setfork_core.Git.Branches.{tag_ref}
use setfork_core.Git.Sync.{
  SyncOutcome, SyncError, Exec, Host, restore_at, restored, restore_main_from_tag,
  bootstrapped_with, bootstrap_rows, bootstrap_from_db, align_by_counters, as_restored, or_align,
  rebuild, after_restore, heal_main, or_in_sync, sync_from, known, sync_repo_with_db,
}
use setfork_core.Git.Sync.Plain.{IsPlain, err-IsPlain, in_sync-IsPlain, align_by_counters-IsPlain}

module _ (o : Objects) (d : RefDb) (h : Host o d) where
  -- `main` was missing and stands at the commit of its version's tag, which has a good tree.
  abbrev pub IsRestored : ℕ → d.Repo → d.Repo → Type 0
  IsRestored v r r' =
      (oid : Oid) × (d.find r main_ref ≡ none)
      × (d.find r (tag_ref (tag_name v)) ≡ some oid)
      × (d.find r' main_ref ≡ some oid)
      × IsGoodTip o oid

  -- Nothing is lost by a rebuild: there is no repository on disk, or it has neither `main` nor a
  -- tag of a version.
  abbrev pub HasNothing : d.Repo → Type 0
  HasNothing r = (h.on_disk ≡ false) ⊎ ((d.find r main_ref ≡ none) × (max_tag_in (h.tags r) ≡ 0))

  pub record IsSound (r : d.Repo) (out : Exec o d SyncOutcome) : Type 0 where
    pub rebuilt : (n : ℕ) → out.0 ≡ ok (SyncOutcome.bootstrapped n) → HasNothing r
    pub put_back : (v : ℕ) → out.0 ≡ ok (SyncOutcome.main_restored v) → IsRestored v r out.1

  IsPlain-IsSound :
      (r s : d.Repo) (out : Exec o d SyncOutcome) → IsPlain o d h s out → IsSound r out
  IsPlain-IsSound r s out p = record {
    rebuilt = λ n e. absurd (p.no_rebuild n e);
    put_back = λ v e. absurd (p.no_restore v e);
  }

  rebuilt-IsSound :
      (r s : d.Repo) (n : ℕ) → HasNothing r → IsSound r (ok (SyncOutcome.bootstrapped n), s)
  rebuilt-IsSound r s n q = record { rebuilt = λ m e. q; put_back = λ v e. absurd (ground arith) }

  or_in_sync-IsSound :
      (r : d.Repo) (n : ℕ) (x : Exec o d (Unit {0}))
      → HasNothing r
      → IsSound r (or_in_sync o d h (bootstrapped_with o d h n x))
  or_in_sync-IsSound r n (ok u, s) q = rebuilt-IsSound r s n q
  or_in_sync-IsSound r n (err e, s) q = IsPlain-IsSound r r (err e, s) (err-IsPlain o d h r s e)

  or_align-IsSound :
      (r : d.Repo) (current have n : ℕ) (x : Exec o d (Unit {0}))
      → HasNothing r
      → IsSound r (or_align o d h current have (bootstrapped_with o d h n x))
  or_align-IsSound r current have n (ok u, s) q = rebuilt-IsSound r s n q
  or_align-IsSound r current have n (err e, s) q =
      IsPlain-IsSound r r (err e, s) (err-IsPlain o d h r s e)

  first_rows-IsSound :
      (r : d.Repo) (rows : Result SyncError (List ℕ))
      → HasNothing r
      → IsSound r (or_in_sync o d h (bootstrap_rows o d h rows r))
  first_rows-IsSound r (err e) q = IsPlain-IsSound r r (err e, r) (err-IsPlain o d h r r e)
  first_rows-IsSound r (ok []) q = IsPlain-IsSound r r _ (in_sync-IsPlain o d h r)
  first_rows-IsSound r (ok (v ∷ vs)) q = or_in_sync-IsSound r _ (h.bootstrap_bare (v ∷ vs) r) q

  rows-IsSound :
      (r : d.Repo) (current have : ℕ) (rows : Result SyncError (List ℕ))
      → HasNothing r
      → IsSound r (or_align o d h current have (bootstrap_rows o d h rows r))
  rows-IsSound r current have (err e) q = IsPlain-IsSound r r (err e, r) (err-IsPlain o d h r r e)
  rows-IsSound r current have (ok []) q =
      IsPlain-IsSound r r _ (align_by_counters-IsPlain o d h current have r)
  rows-IsSound r current have (ok (v ∷ vs)) q =
      or_align-IsSound r current have _ (h.bootstrap_bare (v ∷ vs) r) q

  rebuild-IsSound :
      (r : d.Repo) (current have : ℕ)
      → d.find r main_ref ≡ none
      → max_tag_in (h.tags r) ≡ have
      → IsSound r (rebuild o d h current have r)
  unfolding rebuild bootstrap_from_db
  rebuild-IsSound r current have m t = elim (Bool-cases (have == 0)) [
    | inl e ↦ rw e (rows-IsSound r current have h.rows (inr (m, t ∙ (==_iff have 0).0 e)))
    | inr e ↦ rw e (IsPlain-IsSound r r _ (align_by_counters-IsPlain o d h current have r))
  ]

  as_restored-IsSound :
      (r s : d.Repo) (ver oid : ℕ) (out : Exec o d SyncOutcome)
      → IsPlain o d h s out
      → d.find r main_ref ≡ none
      → d.find r (tag_ref (tag_name ver)) ≡ some oid
      → d.find s main_ref ≡ some oid
      → IsGoodTip o oid
      → IsSound r (as_restored o d h ver out)
  as_restored-IsSound r s ver oid (ok SyncOutcome.in_sync, t) p m tag f g = record {
    rebuilt = λ n e. absurd (ground arith);
    put_back = λ v e.
        subst (λ x. IsRestored x r t) {x = ver} (ground arith)
          (oid, m, tag, ap (λ x. d.find x main_ref) (p.calm refl) ∙ f, g);
  }
  as_restored-IsSound r s ver oid (ok (SyncOutcome.bootstrapped n), t) p m tag f g =
      IsPlain-IsSound r s _ p
  as_restored-IsSound r s ver oid (ok (SyncOutcome.main_restored n), t) p m tag f g =
      IsPlain-IsSound r s _ p
  as_restored-IsSound r s ver oid (ok (SyncOutcome.appended a b), t) p m tag f g =
      IsPlain-IsSound r s _ p
  as_restored-IsSound r s ver oid (ok (SyncOutcome.projected_tip n), t) p m tag f g =
      IsPlain-IsSound r s _ p
  as_restored-IsSound r s ver oid (ok (SyncOutcome.tip_not_versioned n), t) p m tag f g =
      IsPlain-IsSound r s _ p
  as_restored-IsSound r s ver oid (ok (SyncOutcome.conflict a b), t) p m tag f g =
      IsPlain-IsSound r s _ p
  as_restored-IsSound r s ver oid (err e, t) p m tag f g = IsPlain-IsSound r s _ p

  restored-IsSound :
      (r : d.Repo) (current have ver oid : ℕ) (x : Result MainUpdateError d.Repo)
      → d.find r main_ref ≡ none
      → d.find r (tag_ref (tag_name ver)) ≡ some oid
      → update_main o d r r oid none ≡ x
      → IsSound r (after_restore o d h ver current have (restored o d r x))
  restored-IsSound r current have ver oid (err e) m tag q =
      IsPlain-IsSound r r _ (err-IsPlain o d h r r (SyncError.update e))
  restored-IsSound r current have ver oid (ok s) m tag q =
      let k = update_main-IsMove o d r r s oid none q in
      as_restored-IsSound r s ver oid (align_by_counters o d h current have s)
        (align_by_counters-IsPlain o d h current have s) m tag k.moved k.tip

  restore_at-IsSound :
      (r : d.Repo) (current have ver : ℕ) (x : Option Oid)
      → d.find r main_ref ≡ none
      → max_tag_in (h.tags r) ≡ have
      → d.find r (tag_ref (tag_name ver)) ≡ x
      → IsSound r (after_restore o d h ver current have (restore_at o d r x))
  restore_at-IsSound r current have ver none m t q = rebuild-IsSound r current have m t
  restore_at-IsSound r current have ver (some oid) m t q =
      restored-IsSound r current have ver oid (update_main o d r r oid none) m q refl

  heal_main-IsSound :
      (r : d.Repo) (current : ℕ)
      → d.find r main_ref ≡ none
      → IsSound r (heal_main o d h current (max_tag_in (h.tags r)) r)
  unfolding heal_main restore_main_from_tag
  heal_main-IsSound r current m =
      let have = max_tag_in (h.tags r) in
      let ver = min have current in
      elim (Bool-cases (ltb 0 ver)) [
        | inl e ↦ rw e (restore_at-IsSound r current have ver _ m refl refl)
        | inr e ↦ rw e (rebuild-IsSound r current have m refl)
      ]

  if-IsSound :
      (r : d.Repo) (b : Bool) (x y : Exec o d SyncOutcome)
      → (b ≡ true → IsSound r x)
      → (b ≡ false → IsSound r y)
      → IsSound r (if b then x else y)
  if-IsSound r true x y p q = p refl
  if-IsSound r false x y p q = q refl

  pub missing : (x : Option Oid) → is_some x ≡ false → x ≡ none
  missing none e = refl
  missing (some a) e = absurd (ground arith)

  sync_from-IsSound : (r : d.Repo) (current : ℕ) → IsSound r (sync_from o d h current r)
  unfolding sync_from bootstrap_from_db
  sync_from-IsSound r current =
      let have = max_tag_in (h.tags r) in
      if-IsSound r (not h.on_disk) _ _ (λ e. first_rows-IsSound r h.rows (inl (ground arith)))
        λ e.
          if-IsSound r (not h.can_open) _ _
            (λ f. IsPlain-IsSound r r _ (err-IsPlain o d h r r SyncError.not_opened))
            λ f.
              if-IsSound r (is_some (d.find r main_ref)) _ _
                (λ m. IsPlain-IsSound r r _ (align_by_counters-IsPlain o d h current have r))
                (λ m. heal_main-IsSound r current (missing (d.find r main_ref) m))

  known-IsSound : (r : d.Repo) (x : Result SyncError (Option ℕ)) → IsSound r (known o d h x r)
  known-IsSound r (err e) = IsPlain-IsSound r r _ (err-IsPlain o d h r r e)
  known-IsSound r (ok none) = IsPlain-IsSound r r _ (err-IsPlain o d h r r SyncError.row_not_found)
  known-IsSound r (ok (some current)) = sync_from-IsSound r current

  -- The alignment answers that it rebuilt the repository from the database
  -- only if there was none on disk, or it had neither `main` nor a tag of a version; and that it
  -- restored `main` for a version only if `main` was missing and now stands at the commit of that
  -- version's tag, whose tree keeps the rules.
  pub sync_repo_with_db-IsSound : (r : d.Repo) → IsSound r (sync_repo_with_db o d h r)
  unfolding sync_repo_with_db
  sync_repo_with_db-IsSound r = known-IsSound r h.current
