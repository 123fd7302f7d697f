-- ===== src/Canon/Project/Published.antt =====
-- What the projection of the tip of main comes to.
use setfork_core.Shared.{
  ℕ, ◌≡◌, refl, sym, ap, ◌↔◌, Option, none, some, List, [], Str, Result, ok, err, arith,
}
use setfork_core.Json.{Json}
use setfork_core.Canon.Raw.{Read, RawStep, RawList}
use setfork_core.Canon.Steps.{parse_steps}
use setfork_core.Canon.Project.{
  Host, TipData, ProjectError, project_pushed_commit, versioned, with_tip, with_list, with_steps,
  note_of,
}

module _ {Body World : Type 0} (h : Host Body World) where
  -- The tip holds a list with steps, which are added as a version of this number.
  abbrev pub Adds : World → ℕ → Type 0
  Adds w ver =
      (t : TipData Body) × (l : RawList) × (steps : List RawStep) × (w' : World) × (h.read_tip w
        ≡ ok (some t))
      × (h.from_slice t.raw ≡ ok l)
      × (l.steps ≡ some steps)
      × (h.add_version (note_of t.subject) (parse_steps steps) w ≡ (ok ver, w'))

  as_version : Result ProjectError (Option ℕ) → Result ProjectError ℕ
  as_version (ok (some v)) = ok v
  as_version (ok none) = err (ProjectError.join [])
  as_version (err e) = err e

  versioned-ok :
      (l : RawList) (tip : Str) (p : Result ProjectError ℕ × World) (ver : ℕ)
      → (versioned h l tip p).0 ≡ ok (some ver)
      → p ≡ (ok ver, p.1)
  unfolding as_version
  versioned-ok l tip (ok v, w) ver e = ap (λ r. (as_version r, w)) e
  versioned-ok l tip (err x, w) ver e = absurd (ground arith)

  -- The tip of main is projected as a version of a number just if it holds a list with steps that
  -- are added as a version of that number: what becomes of the data of the list and of the tag does
  -- not matter.
  pub project_pushed_commit-Adds :
      (w : World) (ver : ℕ) → ((project_pushed_commit h w).0 ≡ ok (some ver)) ↔ Adds w ver
  unfolding project_pushed_commit with_steps
  project_pushed_commit-Adds w ver = (
    λ e. at_tip (h.read_tip w) refl e,
    λ (t, l, steps, w', e1, e2, e3, e4). rw (e1, e2, e3, e4) refl,
  )
    where
      at_steps :
          (t : TipData Body) (l : RawList) (o : Option (List RawStep))
          → h.read_tip w ≡ ok (some t)
          → h.from_slice t.raw ≡ ok l
          → l.steps ≡ o
          → (with_steps h l t o w).0 ≡ ok (some ver)
          → Adds w ver
      at_steps t l none e1 e2 e3 e = absurd (ground arith)
      at_steps t l (some steps) e1 e2 e3 e = (
        t,
        l,
        steps,
        (h.add_version (note_of t.subject) (parse_steps steps) w).1,
        e1,
        e2,
        e3,
        versioned-ok l t.tip (h.add_version (note_of t.subject) (parse_steps steps) w) ver e,
      )

      at_list :
          (t : TipData Body) (r : Read RawList)
          → h.read_tip w ≡ ok (some t)
          → h.from_slice t.raw ≡ r
          → (with_list h t r w).0 ≡ ok (some ver)
          → Adds w ver
      at_list t (ok l) e1 e2 e = at_steps t l l.steps e1 e2 refl e
      at_list t (err x) e1 e2 e = absurd (ground arith)

      at_tip :
          (r : Result ProjectError (Option (TipData Body)))
          → h.read_tip w ≡ r
          → (with_tip h r w).0 ≡ ok (some ver)
          → Adds w ver
      at_tip (ok (some t)) e1 e = at_list t (h.from_slice t.raw) e1 refl e
      at_tip (ok none) e1 e = absurd (ground arith)
      at_tip (err x) e1 e = absurd (ground arith)

  versioned_some :
      (l : RawList) (tip : Str) (p : Result ProjectError ℕ × World)
      → ¬ ((versioned h l tip p).0 ≡ ok none)
  versioned_some l tip (ok v, w) e = ground arith
  versioned_some l tip (err x, w) e = ground arith

  -- A tip that is no version leaves everything as it was.
  pub project_pushed_commit-frame :
      (w w' : World) → project_pushed_commit h w ≡ (ok none, w') → w' ≡ w
  unfolding project_pushed_commit with_steps
  project_pushed_commit-frame w w' e = at_tip (h.read_tip w) e
    where
      at_steps :
          (t : TipData Body) (l : RawList) (o : Option (List RawStep))
          → with_steps h l t o w ≡ (ok none, w')
          → w' ≡ w
      at_steps t l none e = ap (λ p. p.1) (sym e)
      at_steps t l (some steps) e = absurd (
          versioned_some l t.tip (h.add_version (note_of t.subject) (parse_steps steps) w)
            (ap (λ p. p.0) e))

      at_list : (t : TipData Body) (r : Read RawList) → with_list h t r w ≡ (ok none, w') → w' ≡ w
      at_list t (ok l) e = at_steps t l l.steps e
      at_list t (err x) e = ap (λ p. p.1) (sym e)

      at_tip :
          (r : Result ProjectError (Option (TipData Body)))
          → with_tip h r w ≡ (ok none, w')
          → w' ≡ w
      at_tip (ok (some t)) e = at_list t (h.from_slice t.raw) e
      at_tip (ok none) e = ap (λ p. p.1) (sym e)
      at_tip (err x) e = absurd (ground (arith, ap (λ p. p.0) e))
