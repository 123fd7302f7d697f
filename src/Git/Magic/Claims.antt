-- ===== src/Git/Magic/Claims.antt =====
-- Which pushes a call of `take_magic_pushes` reports.
use setfork_core.Shared.{
  ◌≡◌, inl, inr, refl, sym, subst, true, false, Option, none, some, List, [], ◌∷◌, ◌++◌, arith, In,
  All, Str, is_empty, starts_with, ap, strip_prefix, strip_prefix-append, strip_prefix→eq, is_some,
  Result, ok, err, Bool-cases, Result-cases, Option-cases,
}
use setfork_core.Names.Branch.{author_branch}
use setfork_core.Git.Refs.{Oid, RefError, RefDb}
use setfork_core.Git.Magic.{
  magic_prefix, MagicPush, head, Snapshot, lay_before, Exec, deleted, claim, take_resolved,
  take_one, and_rest, push_opt, pushed, take_names, take_magic_pushes,
}
use setfork_core.Git.Magic.Moves.{Keeps, take_one-Round, err-ne-ok}

module _ (d : RefDb) (actor : Str) (before : Snapshot) where
  -- A push that the state `r` asks for: its magic ref stands there with its tip, did not stand
  -- there before the push, and its branch is its author's.
  pub record IsAsked (r : d.Repo) (p : MagicPush) : Type 0 where
    pub stands : d.find r (magic_prefix ++ p.base) ≡ some p.tip
    pub fresh : lay_before before (magic_prefix ++ p.base) p.tip ≡ false
    pub own : p.branch ≡ author_branch actor p.base

  -- What the result of a round, or of the rest of the rounds, says of the state before it.
  abbrev OneAsked : d.Repo → Exec d (Option MagicPush) → Type 0
  OneAsked r out = (p : MagicPush) → out.0 ≡ ok (some p) → IsAsked r p

  abbrev AllAsked : d.Repo → Exec d (List MagicPush) → Type 0
  AllAsked r out = (ps : List MagicPush) → out.0 ≡ ok ps → All (IsAsked r) ps

  deleted-none : (r s : d.Repo) (m : Result RefError d.Repo) → OneAsked r (deleted d none s m)
  deleted-none r s (ok t) p h = absurd (ground arith)
  deleted-none r s (err e) p h = absurd (ground arith)

  deleted-some :
      (r s : d.Repo) (q : MagicPush) (m : Result RefError d.Repo)
      → IsAsked r q
      → OneAsked r (deleted d (some q) s m)
  deleted-some r s q (ok t) a p h = subst (IsAsked r) (ground arith) a
  deleted-some r s q (err e) a p h = absurd (ground arith)

  claim-IsAsked :
      (r : d.Repo) (base : Str) (tip : Oid)
      → d.find r (magic_prefix ++ base) ≡ some tip
      → lay_before before (magic_prefix ++ base) tip ≡ false
      → OneAsked r (claim d actor (magic_prefix ++ base) base tip r)
  unfolding claim
  claim-IsAsked r base tip e f =
      elim (Result-cases (d.set r (head (author_branch actor base)) tip)) [
        | inl (x, q) ↦ rw q (λ p h. absurd (ground arith))
        | inr (s, q) ↦ rw q (deleted-some r s _ _ (record { stands = e; fresh = f; own = refl }))
      ]

  take_resolved-IsAsked :
      (r : d.Repo) (base : Str) (tip : Option Oid)
      → d.find r (magic_prefix ++ base) ≡ tip
      → OneAsked r (take_resolved d actor before (magic_prefix ++ base) base tip r)
  unfolding take_resolved
  take_resolved-IsAsked r base none e = λ p h. absurd (ground arith)
  take_resolved-IsAsked r base (some tip) e =
      elim (Bool-cases (lay_before before (magic_prefix ++ base) tip)) [
        | inl f ↦ rw f (deleted-none r r (d.delete r (magic_prefix ++ base)))
        | inr f ↦ rw f (claim-IsAsked r base tip e f)
      ]

  take_one-IsAsked : (r : d.Repo) (name : Str) → OneAsked r (take_one d actor before name r)
  unfolding take_one
  take_one-IsAsked r name = elim (Option-cases (strip_prefix name magic_prefix)) [
    | inl e ↦ rw (e, take_one) (λ p h. absurd (ground arith))
    | inr (base, e) ↦
        rw (e, take_one)
          (subst (λ n. OneAsked r (take_resolved d actor before n base (d.find r n) r))
            (sym (strip_prefix→eq name magic_prefix e)) (take_resolved-IsAsked r base _ refl))
  ]

  -- What a later round finds asked for was asked for before the round.
  IsAsked-earlier :
      (r s : d.Repo) (ps : List MagicPush)
      → Keeps d actor r s
      → All (IsAsked s) ps
      → All (IsAsked r) ps
  IsAsked-earlier r s [] k a = tt
  IsAsked-earlier r s (p ∷ ps) k (a, more) = (
    record {
      stands = k.magic _ _ (ap is_some (strip_prefix-append magic_prefix p.base)) a.stands;
      fresh = a.fresh;
      own = a.own;
    },
    IsAsked-earlier r s ps k more,
  )

  push_opt-All :
      (r : d.Repo) (q : Option MagicPush) (qs : List MagicPush)
      → ((p : MagicPush) → q ≡ some p → IsAsked r p)
      → All (IsAsked r) qs
      → All (IsAsked r) (push_opt d q qs)
  push_opt-All r none qs a b = b
  push_opt-All r (some p) qs a b = (a p refl, b)

  pushed-AllAsked :
      (r : d.Repo) (q : Option MagicPush) (out : Exec d (List MagicPush))
      → ((p : MagicPush) → q ≡ some p → IsAsked r p)
      → AllAsked r out
      → AllAsked r (pushed d q out)
  pushed-AllAsked r q (ok qs, t) a b ps h =
      subst (All (IsAsked r)) {x = push_opt d q qs} (ground arith)
        (push_opt-All r q qs a (b qs refl))
  pushed-AllAsked r q (err e, t) a b ps h = absurd (ground arith)

  and_rest-AllAsked :
      (r : d.Repo) (out : Exec d (Option MagicPush)) (rest : d.Repo → Exec d (List MagicPush))
      → Keeps d actor r out.1
      → OneAsked r out
      → ((s : d.Repo) → AllAsked s (rest s))
      → AllAsked r (and_rest d out rest)
  and_rest-AllAsked r (err e, s) rest k a more = λ ps h. absurd (ground arith)
  and_rest-AllAsked r (ok q, s) rest k a more =
      pushed-AllAsked r q (rest s) (λ p e. a p (ap ok e))
        (λ ps h. IsAsked-earlier r s ps k (more s ps h))

  take_names-AllAsked :
      (names : List Str) (r : d.Repo)
      → ((k : Str) → In k names → starts_with k magic_prefix ≡ true)
      → AllAsked r (take_names d actor before names r)
  unfolding take_names
  take_names-AllAsked [] r m = λ ps h. subst (All (IsAsked r)) {x = []} (ground arith) tt
  take_names-AllAsked (name ∷ names) r m =
      and_rest-AllAsked r _ _ (take_one-Round d actor before r name (m name (inl refl))).0
        (take_one-IsAsked r name) (λ s. take_names-AllAsked names s (λ k i. m k (inr i)))

  -- Each push that a successful call reports was asked for by this push, as far as the snapshot
  -- `before` tells: a magic ref `refs/for/<base>` stood in the repository with the tip reported and
  -- was not there, with that tip, in the snapshot, and the branch reported is the one of the author
  -- for that base. A snapshot that failed is empty, and then a magic ref of an earlier push counts
  -- as asked for.
  pub take_magic_pushes-IsAsked :
      (r : d.Repo) (ps : List MagicPush)
      → (take_magic_pushes d actor before r).0 ≡ ok ps
      → All (IsAsked r) ps
  unfolding take_magic_pushes
  take_magic_pushes-IsAsked r = elim (Bool-cases (is_empty actor)) [
    | inl e ↦ rw e (λ ps h. subst (All (IsAsked r)) {x = []} (ground arith) tt)
    | inr e ↦ elim (Result-cases (d.glob r magic_prefix)) [
      | inl (x, q) ↦ rw (e, q) (λ ps h. absurd (err-ne-ok x ps h))
      | inr (names, q) ↦
          rw (e, q) (take_names-AllAsked names r (λ k. (d.glob-names r magic_prefix names q k).0))
    ]
  ]
