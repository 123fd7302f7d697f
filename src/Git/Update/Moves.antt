-- ===== src/Git/Update/Moves.antt =====
-- What a move of `main` by `update_main` promises.
use setfork_core.Shared.{
  ◌≡◌, ◌≢◌, ◌⊎◌, inl, inr, refl, ◌∙◌, true, false, Option, none, some, arith, ◌==◌, Str, str_eq,
  unwrap_or, ok, err, Bool-cases, Result-cases,
}
use setfork_core.Git.Authored.{MainUpdateError}
use setfork_core.Git.Refs.{Oid, zero_oid, RefError, RefDb, main_ref}
use setfork_core.Git.Objects.{Objects}
use setfork_core.Git.Update.{opt_eq, tree_check, fast_forward, update_main}
use setfork_core.Git.Update.Rules.{IsGoodTip, tree_check_sound, tree_check_complete}

opt_eq→eq : (a b : Option Oid) → opt_eq a b ≡ true → a ≡ b
opt_eq→eq none none h = refl
opt_eq→eq none (some b) h = cc
opt_eq→eq (some a) none h = cc
opt_eq→eq (some a) (some b) h = ground arith

opt_eq_refl : (a : Option Oid) → opt_eq a a ≡ true
opt_eq_refl none = refl
opt_eq_refl (some a) = ground arith

module _ (o : Objects) (d : RefDb) where
  -- The new tip is the old one or descends from it; there is no old one before the first commit.
  abbrev pub IsForward : Oid → Option Oid → Type 0
  IsForward new none = Unit
  IsForward new (some old) = (new ≡ old) ⊎ (o.descendant_of new old ≡ ok true)

  fast_forward_sound :
      (new : Oid) (old : Option Oid) → fast_forward o new old ≡ ok tt → IsForward new old
  unfolding fast_forward
  fast_forward_sound new none h = tt
  fast_forward_sound new (some old) h = elim (Bool-cases (new == old)) [
    | inl e ↦ inl (ground arith)
    | inr e ↦ elim (Result-cases (o.descendant_of new old)) [
      | inl (x, p) ↦ absurd (ground arith)
      | inr (b, p) ↦ inr (ground arith)
    ]
  ]

  -- What a successful move has done.
  pub record IsMove (r r' r'' : d.Repo) (new : Oid) (expected : Option Oid) : Type 0 where
    pub tip : IsGoodTip o new
    pub checked : d.find r main_ref ≡ expected
    pub forward : IsForward new expected
    pub swapped : unwrap_or (d.find r' main_ref) zero_oid ≡ unwrap_or expected zero_oid
    pub moved : d.find r'' main_ref ≡ some new
    pub frame : (k : Str) → str_eq main_ref k ≡ false → d.find r'' k ≡ d.find r' k

  -- A move of `main` that succeeds took a good tree to a tip that descends from the expected one,
  -- found `main` at the expected tip at the check and, whatever other processes did in between, at
  -- the write, and changed no other reference.
  pub update_main-IsMove :
      (r r' r'' : d.Repo) (new : Oid) (expected : Option Oid)
      → update_main o d r r' new expected ≡ ok r''
      → IsMove r r' r'' new expected
  unfolding update_main
  update_main-IsMove r r' r'' new expected h = elim (Result-cases (tree_check o new)) [
    | inl (x, p) ↦ absurd (ground arith)
    | inr (tt', p) ↦ elim (Result-cases (fast_forward o new expected)) [
      | inl (x, q) ↦ absurd (ground arith)
      | inr (u, q) ↦
          let w : d.matching r' main_ref new (unwrap_or expected zero_oid) ≡ ok r'' =
            ground arith in
          let (swapped, found) = d.find-matching r' r'' main_ref new _ w in
          record {
            tip = tree_check_sound o new p;
            checked = opt_eq→eq (d.find r main_ref) expected (ground arith);
            forward = fast_forward_sound new expected q;
            swapped = swapped;
            moved = found main_ref;
            frame = λ k ne. found k ∙ rw ne refl;
          }
    ]
  ]

  fast_forward_complete :
      (new : Oid) (old : Option Oid) → IsForward new old → fast_forward o new old ≡ ok tt
  unfolding fast_forward
  fast_forward_complete new none f = refl
  fast_forward_complete new (some old) f = ground arith

  fast_forward-refuses :
      (new old : Oid)
      → new ≢ old
      → o.descendant_of new old ≡ ok false
      → fast_forward o new (some old) ≡ err MainUpdateError.non_fast_forward
  unfolding fast_forward
  fast_forward-refuses new old ne n = ground arith

  -- Why a move to a good tree is refused: `main` is not where the caller saw it, first of all; then
  -- the new tip does not descend from it; then another process moved `main` before the write.
  pub update_main_refusals :
      (r r' : d.Repo) (new : Oid) (expected : Option Oid)
      → IsGoodTip o new
      → (d.find r main_ref ≢ expected
          → update_main o d r r' new expected ≡ err MainUpdateError.stale)
        × ((old : Oid)
            → d.find r main_ref ≡ expected
            → expected ≡ some old
            → new ≢ old
            → o.descendant_of new old ≡ ok false
            → update_main o d r r' new expected ≡ err MainUpdateError.non_fast_forward)
        × ((e : Str)
            → d.find r main_ref ≡ expected
            → IsForward new expected
            → d.matching r' main_ref new (unwrap_or expected zero_oid) ≡ err (RefError.modified e)
            → update_main o d r r' new expected ≡ err MainUpdateError.stale)
  unfolding update_main
  update_main_refusals r r' new expected good =
      let t = tree_check_complete o new good in
      (
        λ ne. rw t (ground (arith, opt_eq→eq (d.find r main_ref) expected)),
        λ old e f ne n.
            rw t (
              rw e
                (rw (opt_eq_refl expected) (rw f (rw (fast_forward-refuses new old ne n) refl)))),
        λ x e f w. rw t (
            rw e
              (rw (opt_eq_refl expected) (rw (fast_forward_complete new expected f) (rw w refl)))),
      )
