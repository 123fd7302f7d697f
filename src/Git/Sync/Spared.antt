-- ===== src/Git/Sync/Spared.antt =====
-- A repository with something in it is never built anew.
use setfork_core.Shared.{
  ℕ, ◌≡◌, ◌⊎◌, inl, inr, refl, true, false, Option, none, some, List, Result, ok, err, Bool-cases,
  Option-cases, ==_iff, Bool, ◌==◌, ltb, min, not, is_some, ap, if◌then◌else◌, arith,
}
use setfork_core.Git.Refs.{RefDb, main_ref}
use setfork_core.Names.Version.{max_tag_in}
use setfork_core.Git.Objects.{Objects}
use setfork_core.Git.Sync.Healed.{missing, HasNothing, IsSound, sync_repo_with_db-IsSound}
use setfork_core.Git.Sync.{
  SyncError, as_restored, SyncOutcome, Exec, Host, restore_main_from_tag, align_by_counters,
  after_restore, rebuild, heal_main, sync_from, known, sync_repo_with_db,
}

module _ (o : Objects) (d : RefDb) (h : Host o d)
    (other : List ℕ → d.Repo → Exec o d (Unit {0})) where
  -- The same surroundings, where a repository is built in another way.
  abbrev pub elsewhere : Host o d
  elsewhere = record h { bootstrap_bare = other }

  align_same :
      (current have : ℕ) (r : d.Repo)
      → align_by_counters o d elsewhere current have r ≡ align_by_counters o d h current have r
  unfolding align_by_counters
  align_same current have r = refl

  rebuild_same :
      (current have : ℕ) (r : d.Repo)
      → (have == 0) ≡ false
      → rebuild o d elsewhere current have r ≡ rebuild o d h current have r
  unfolding rebuild
  rebuild_same current have r e = rw e (align_same current have r)

  after_restore_same :
      (ver current have : ℕ) (out : Exec o d Bool)
      → (have == 0) ≡ false
      → after_restore o d elsewhere ver current have out ≡ after_restore o d h ver current have out
  after_restore_same ver current have (ok true, s) e =
      ap (as_restored o d h ver) (align_same current have s)
  after_restore_same ver current have (ok false, s) e = rebuild_same current have s e
  after_restore_same ver current have (err x, s) e = refl

  heal_main_same :
      (current have : ℕ) (r : d.Repo)
      → (have == 0) ≡ false
      → heal_main o d elsewhere current have r ≡ heal_main o d h current have r
  unfolding heal_main
  heal_main_same current have r e = elim (Bool-cases (ltb 0 (min have current))) [
    | inl q ↦ rw q (
        after_restore_same (min have current) current have
          (restore_main_from_tag o d r (min have current)) e)
    | inr q ↦ rw q (rebuild_same current have r e)
  ]

  some_tag :
      (r : d.Repo)
      → ¬ HasNothing o d h r
      → d.find r main_ref ≡ none
      → (max_tag_in (h.tags r) == 0) ≡ false
  some_tag r n m = elim (Bool-cases (max_tag_in (h.tags r) == 0)) [
    | inl e ↦ absurd (n (inr (m, (==_iff (max_tag_in (h.tags r)) 0).0 e)))
    | inr e ↦ e
  ]

  if_same :
      (b : Bool) (x x' y y' : Exec o d SyncOutcome)
      → (b ≡ true → x' ≡ x)
      → (b ≡ false → y' ≡ y)
      → ◌≡◌ {A = Exec o d SyncOutcome} (if b then x' else y') (if b then x else y)
  if_same true x x' y y' p q = p refl
  if_same false x x' y y' p q = q refl

  sync_from_same :
      (current : ℕ) (r : d.Repo)
      → ¬ HasNothing o d h r
      → sync_from o d elsewhere current r ≡ sync_from o d h current r
  unfolding sync_from
  sync_from_same current r n =
      let have = max_tag_in (h.tags r) in
      if_same (not h.on_disk) _ _ _ _ (λ e. absurd (n (inl (ground arith))))
        λ e.
          if_same (not h.can_open) _ _ _ _ (λ f. refl)
            λ f.
              if_same (is_some (d.find r main_ref)) _ _ _ _ (λ m. align_same current have r)
                (λ m.
                  heal_main_same current have r
                    (some_tag r n (missing o d h (d.find r main_ref) m)))

  known_same :
      (x : Result SyncError (Option ℕ)) (r : d.Repo)
      → ¬ HasNothing o d h r
      → known o d elsewhere x r ≡ known o d h x r
  known_same (err e) r n = refl
  known_same (ok none) r n = refl
  known_same (ok (some current)) r n = sync_from_same current r n

-- There is nothing in the repository, or there is something.
nothing-cases :
    (o : Objects) (d : RefDb) (h : Host o d) (r : d.Repo)
    → HasNothing o d h r ⊎ (¬ HasNothing o d h r)
nothing-cases o d h r = elim (Bool-cases h.on_disk) [
  | inr e ↦ inl (inl e)
  | inl e ↦ elim (Option-cases (d.find r main_ref)) [
    | inr (x, m) ↦ inr (λ n. elim n [ inl f ↦ cc (e, f) | inr (f, t) ↦ ground (arith, m, f) ])
    | inl m ↦ elim (Bool-cases (max_tag_in (h.tags r) == 0)) [
      | inl t ↦ inl (inr (m, (==_iff (max_tag_in (h.tags r)) 0).0 t))
      | inr t ↦ inr (λ n. elim n [
        | inl f ↦ cc (e, f)
        | inr (f, z) ↦ cc (t, (==_iff (max_tag_in (h.tags r)) 0).1 z)
      ])
    ]
  ]
]

-- The alignment answers that it rebuilt the repository from the database only if there was none on
-- disk, or it had neither `main` nor a tag of a version; and that it restored `main` for a version
-- only if `main` was missing and now stands at the commit of that version's tag, whose tree keeps
-- the rules. And it builds no repository anew that has something in it: either there was none on
-- disk, or it had neither `main` nor a tag of a version, or all that the alignment does and answers
-- is the same whatever the building of a repository would do.
pub sync_repo_with_db-IsSafe :
    (o : Objects) (d : RefDb) (h : Host o d) (r : d.Repo)
    → IsSound o d h r (sync_repo_with_db o d h r)
      × (HasNothing o d h r
          ⊎ ((other : List ℕ → d.Repo → Exec o d (Unit {0}))
              → sync_repo_with_db o d (elsewhere o d h other) r ≡ sync_repo_with_db o d h r))
unfolding sync_repo_with_db
sync_repo_with_db-IsSafe o d h r = (
  sync_repo_with_db-IsSound o d h r,
  elim (nothing-cases o d h r) [
    | inl n ↦ inl n
    | inr n ↦ inr (λ other. known_same o d h other h.current r n)
  ],
)
