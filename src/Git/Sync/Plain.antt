-- ===== src/Git/Sync/Plain.antt =====
-- What the alignment by counters can answer.
use setfork_core.Shared.{
  ℕ, suc, ◌≡◌, ◌≢◌, inl, inr, refl, Bool, true, false, not, ◌&&◌, Option, none, some, List, [], ◌∷◌,
  ltb, ◌==◌, arith, if◌then◌else◌, Result, ok, err, is_some, Bool-cases,
}
use setfork_core.Git.Refs.{RefDb, main_ref}
use setfork_core.Git.Objects.{Objects}
use setfork_core.Git.Sync.{
  SyncOutcome, SyncError, Exec, Host, tag_on_tip, newer, tip_projected, appended_with, append_rows,
  behind, tail_projected, align_by_counters,
}

module _ (o : Objects) (d : RefDb) (h : Host o d) where
  -- What the alignment by counters can say: if all is in sync it has changed nothing, and it
  -- neither restores nor rebuilds.
  pub record IsPlain (r : d.Repo) (out : Exec o d SyncOutcome) : Type 0 where
    pub calm : out.0 ≡ ok SyncOutcome.in_sync → out.1 ≡ r
    pub no_restore : (v : ℕ) → out.0 ≢ ok (SyncOutcome.main_restored v)
    pub no_rebuild : (n : ℕ) → out.0 ≢ ok (SyncOutcome.bootstrapped n)

  other-IsPlain :
      (r s : d.Repo) (x : SyncOutcome)
      → x ≢ SyncOutcome.in_sync
      → ((v : ℕ) → x ≢ SyncOutcome.main_restored v)
      → ((n : ℕ) → x ≢ SyncOutcome.bootstrapped n)
      → IsPlain r (ok x, s)
  other-IsPlain r s x a b c = record {
    calm = λ e. absurd (a (ground arith));
    no_restore = λ v e. b v (ground arith);
    no_rebuild = λ n e. c n (ground arith);
  }

  pub err-IsPlain : (r s : d.Repo) (e : SyncError) → IsPlain r (err e, s)
  err-IsPlain r s e = record {
    calm = λ q. absurd (ground arith);
    no_restore = λ v q. ground arith;
    no_rebuild = λ n q. ground arith;
  }

  pub in_sync-IsPlain : (r : d.Repo) → IsPlain r (ok SyncOutcome.in_sync, r)
  in_sync-IsPlain r = record {
    calm = λ q. refl;
    no_restore = λ v q. ground arith;
    no_rebuild = λ n q. ground arith;
  }

  conflict-IsPlain : (r s : d.Repo) (a b : ℕ) → IsPlain r (ok (SyncOutcome.conflict a b), s)
  conflict-IsPlain r s a b =
      other-IsPlain r s (SyncOutcome.conflict a b) (λ q. ground arith) (λ v q. ground arith)
        (λ v q. ground arith)

  projected-IsPlain : (r s : d.Repo) (v : ℕ) → IsPlain r (ok (SyncOutcome.projected_tip v), s)
  projected-IsPlain r s v =
      other-IsPlain r s (SyncOutcome.projected_tip v) (λ q. ground arith) (λ v q. ground arith)
        (λ v q. ground arith)

  tip-IsPlain :
      (r : d.Repo) (current : ℕ) (x : Exec o d (Option ℕ))
      → IsPlain r (tip_projected o d h current x)
  tip-IsPlain r current (ok (some v), s) = projected-IsPlain r s v
  tip-IsPlain r current (ok none, s) =
      other-IsPlain r s (SyncOutcome.tip_not_versioned current) (λ q. ground arith)
        (λ v q. ground arith) (λ v q. ground arith)
  tip-IsPlain r current (err e, s) = err-IsPlain r s e

  tail-IsPlain :
      (r : d.Repo) (have current : ℕ) (x : Exec o d (Option ℕ))
      → IsPlain r (tail_projected o d h have current x)
  tail-IsPlain r have current (ok (some v), s) = projected-IsPlain r s v
  tail-IsPlain r have current (ok none, s) = conflict-IsPlain r s have current
  tail-IsPlain r have current (err e, s) = err-IsPlain r s e

  appended-IsPlain :
      (r : d.Repo) (have current : ℕ) (x : Exec o d (Unit {0}))
      → IsPlain r (appended_with o d h have current x)
  appended-IsPlain r have current (ok u, s) =
      other-IsPlain r s (SyncOutcome.appended (suc have) current) (λ q. ground arith)
        (λ v q. ground arith) (λ v q. ground arith)
  appended-IsPlain r have current (err e, s) = err-IsPlain r s e

  append-IsPlain :
      (r : d.Repo) (have current : ℕ) (vs : List ℕ)
      → IsPlain r (append_rows o d h have current vs r)
  append-IsPlain r have current [] =
      elim (Bool-cases (have == 0 && not (is_some (d.find r main_ref)))) [
        | inl e ↦ rw e (in_sync-IsPlain r)
        | inr e ↦ rw e (conflict-IsPlain r r have current)
      ]
  append-IsPlain r have current (v ∷ vs) =
      appended-IsPlain r have current (h.append_missing (v ∷ vs) r)

  behind-IsPlain :
      (r : d.Repo) (have current : ℕ) (x : Result SyncError (List ℕ))
      → IsPlain r (behind o d h have current x r)
  behind-IsPlain r have current (err e) = err-IsPlain r r e
  behind-IsPlain r have current (ok vs) = append-IsPlain r have current (newer o d have vs)

  if-IsPlain :
      (r : d.Repo) (b : Bool) (x y : Exec o d SyncOutcome)
      → IsPlain r x
      → IsPlain r y
      → IsPlain r (if b then x else y)
  if-IsPlain r true x y p q = p
  if-IsPlain r false x y p q = q

  pub align_by_counters-IsPlain :
      (current have : ℕ) (r : d.Repo) → IsPlain r (align_by_counters o d h current have r)
  unfolding align_by_counters
  align_by_counters-IsPlain current have r =
      if-IsPlain r (have == current) _ _
        (if-IsPlain r (ltb 0 current && not (tag_on_tip o d r current)) _ _
          (tip-IsPlain r current (h.project_pushed r)) (in_sync-IsPlain r))
        (if-IsPlain r (ltb have current) _ _ (behind-IsPlain r have current h.rows) (
          if-IsPlain r (have == suc current && tag_on_tip o d r have) _ _
            (tail-IsPlain r have current (h.project_pushed r)) (conflict-IsPlain r r have current)))
