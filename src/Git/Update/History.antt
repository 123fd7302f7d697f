-- ===== src/Git/Update/History.antt =====
-- `main` over any run of moves by `update_main` and of other changes that leave `main` alone.
use setfork_core.Shared.{
  ◌≡◌, ◌≢◌, ◌⊎◌, inl, inr, sym, ap, ◌∙◌, subst, true, Option, none, some, ok, unwrap_or,
}
use setfork_core.Git.Refs.{Oid, zero_oid, RefDb, main_ref}
use setfork_core.Git.Objects.{Objects}
use setfork_core.Git.Update.{update_main}
use setfork_core.Git.Update.Rules.{IsGoodTip}
use setfork_core.Git.Update.Moves.{IsForward, update_main-IsMove}

module _ (o : Objects) (d : RefDb) where
  -- A writer checked `main` in some earlier repository `r` and writes in `r'`; or something else
  -- happens, on any other reference.
  pub data Step (r' : d.Repo) : d.Repo → Type 0 where
    move :
        {r'' : d.Repo} (r : d.Repo) (new : Oid) (expected : Option Oid)
        → update_main o d r r' new expected ≡ ok r''
        → Step r' r''
    elsewhere : {r'' : d.Repo} → d.find r'' main_ref ≡ d.find r' main_ref → Step r' r''

  pub data Reach (s : d.Repo) : d.Repo → Type 0 where
    here : Reach s s
    next : {t u : d.Repo} → Reach s t → Step t u → Reach s u

  -- The tip `b` is `a` or descends from it.
  abbrev pub IsLater : Oid → Oid → Type 0
  IsLater b a = (b ≡ a) ⊎ (o.descendant_of b a ≡ ok true)

  IsLater-trans : (a b c : Oid) → IsLater c b → IsLater b a → IsLater c a
  IsLater-trans a b c (inl e) h = subst (λ x. IsLater x a) (sym e) h
  IsLater-trans a b c (inr k) (inl e) = inr (subst (λ x. o.descendant_of c x ≡ ok true) e k)
  IsLater-trans a b c (inr k) (inr h) = inr (o.descendant_trans c b a k h)

  -- `main` stands at a commit with a good tree that is `a` or descends from it.
  abbrev pub HasTipFrom : Oid → d.Repo → Type 0
  HasTipFrom a r = (b : Oid) × (d.find r main_ref ≡ some b) × IsLater b a × IsGoodTip o b

  IsGoodTip-nonzero : (b : Oid) → IsGoodTip o b → b ≢ zero_oid
  IsGoodTip-nonzero b (tree, e, k) z =
      o.commit_tree_zero tree (subst (λ x. o.commit_tree x ≡ ok tree) z e)

  -- The expected tip is the one that the write found, if that is a commit.
  forward_from :
      (new b : Oid) (expected : Option Oid)
      → b ≢ zero_oid
      → b ≡ unwrap_or expected zero_oid
      → IsForward o d new expected
      → IsLater new b
  forward_from new b none nz e f = absurd (nz e)
  forward_from new b (some old) nz e f = subst (IsLater new) (sym e) f

  Step-HasTipFrom : (a : Oid) {r s : d.Repo} → HasTipFrom a r → Step r s → HasTipFrom a s
  Step-HasTipFrom a (b, e, l, g) (elsewhere same) = (b, same ∙ e, l, g)
  Step-HasTipFrom a {r} {s} (b, e, l, g) (move from new expected h) =
      let m = update_main-IsMove o d from r s new expected h in
      let found = sym (ap (λ x. unwrap_or x zero_oid) e) ∙ m.swapped in
      let k = forward_from new b expected (IsGoodTip-nonzero b g) found m.forward in
      (new, m.moved, IsLater-trans a b new k l, m.tip)

  -- Once `main` stands at a commit with a good tree, then whatever moves by `update_main` follow,
  -- by whatever writers with however old a view of it, and whatever else happens to other
  -- references, `main` stands at a commit with a good tree that is the first one or descends from
  -- it: no accepted commit is ever lost from the history of `main`.
  pub Reach-HasTipFrom : (a : Oid) {r s : d.Repo} → HasTipFrom a r → Reach r s → HasTipFrom a s
  Reach-HasTipFrom a h here = h
  Reach-HasTipFrom a h (next run step) = Step-HasTipFrom a (Reach-HasTipFrom a h run) step
