-- ===== src/Git/Magic/Moves.antt =====
-- Which references a magic push touches: the magic refs, and the branches of its own author.
use mathlib.Core.List.{append_assoc}
use setfork_core.Shared.{
  ◌≡◌, ◌≢◌, inl, inr, refl, sym, ap, ◌∙◌, subst, true, false, Option, none, some, List, [], ◌∷◌,
  ◌++◌, arith, if◌then◌else◌, In, Str, codes, str_eq, str_eq_refl, str_eq→eq, is_empty, starts_with,
  strip_prefix, strip_prefix-append, is_some, ok, err, Bool-cases, Result-cases, Option-cases,
}
use setfork_core.Names.Branch.{author_branch}
use setfork_core.Git.Refs.{Oid, RefError, RefDb}
use setfork_core.Git.Magic.{
  magic_prefix, MagicPush, head, Snapshot, lay_before, Exec, deleted, claim, take_resolved,
  take_one, and_rest, pushed, take_names, take_magic_pushes,
}

-- The references of the branches of one author.
abbrev pub own_prefix : Str → Str
own_prefix actor = codes "refs/heads/u/" ++ (actor ++ codes "/")

target_eq : (actor base : Str) → head (author_branch actor base) ≡ own_prefix actor ++ base
unfolding author_branch
target_eq actor base =
    ap (λ s. codes "refs/heads/u/" ++ s) (sym (append_assoc actor (codes "/") base))

target_own :
    (actor base : Str) → starts_with (head (author_branch actor base)) (own_prefix actor) ≡ true
target_own actor base = rw target_eq (ap is_some (strip_prefix-append (own_prefix actor) base))

target_magic :
    (actor base : Str) → starts_with (head (author_branch actor base)) magic_prefix ≡ false
unfolding author_branch strip_prefix
target_magic actor base = refl

-- Two texts of which one begins with `p` and the other does not are different.
str_eq-apart : (a k p : Str) → starts_with a p ≡ true → starts_with k p ≡ false → str_eq a k ≡ false
str_eq-apart a k p h e = elim (Bool-cases (str_eq a k)) [
  | inl q ↦ absurd (cc (h, e, ap (λ s. starts_with s p) (str_eq→eq a k q)))
  | inr q ↦ q
]

str_eq-apart' :
    (a k p : Str) → starts_with a p ≡ false → starts_with k p ≡ true → str_eq a k ≡ false
str_eq-apart' a k p h e = elim (Bool-cases (str_eq a k)) [
  | inl q ↦ absurd (cc (h, e, ap (λ s. starts_with s p) (str_eq→eq a k q)))
  | inr q ↦ q
]

pub err-ne-ok : {E A : Type 0} (e : E) (a : A) → err e ≢ ok a
err-ne-ok e a h = cc

module _ (d : RefDb) (actor : Str) where
  -- What a call leaves alone: references that are neither magic nor the author's own, and the
  -- absence of a magic ref.
  pub record Keeps (r r' : d.Repo) : Type 0 where
    pub outside :
        (k : Str)
        → starts_with k magic_prefix ≡ false
        → starts_with k (own_prefix actor) ≡ false
        → d.find r' k ≡ d.find r k
    pub gone :
        (k : Str) → starts_with k magic_prefix ≡ true → d.find r k ≡ none → d.find r' k ≡ none
    pub magic :
        (k : Str) (id : Oid)
        → starts_with k magic_prefix ≡ true
        → d.find r' k ≡ some id
        → d.find r k ≡ some id

  Keeps-refl : (r : d.Repo) → Keeps r r
  Keeps-refl r = record { outside = λ k m o. refl; gone = λ k m e. e; magic = λ k id m e. e }

  Keeps-trans : (r s t : d.Repo) → Keeps r s → Keeps s t → Keeps r t
  Keeps-trans r s t h k = record {
    outside = λ x m o. k.outside x m o ∙ h.outside x m o;
    gone = λ x m e. k.gone x m (h.gone x m e);
    magic = λ x id m e. h.magic x id m (k.magic x id m e);
  }

  delete-Keeps :
      (r r' : d.Repo) (name : Str)
      → starts_with name magic_prefix ≡ true
      → d.delete r name ≡ ok r'
      → Keeps r r'
  delete-Keeps r r' name p h = record {
    outside = λ k m o. d.find-delete r r' name h k ∙ rw (str_eq-apart name k magic_prefix p m) refl;
    gone = λ k m e.
        d.find-delete r r' name h k
        ∙ rw e (elim (Bool-cases (str_eq name k)) [ inl q ↦ rw q refl | inr q ↦ rw q refl ]);
    magic = λ k id m e.
        let f : (if str_eq name k then none else d.find r k) ≡ some id =
          sym (d.find-delete r r' name h k) ∙ e in
        elim (Bool-cases (str_eq name k)) [ inl q ↦ absurd (ground arith) | inr q ↦ ground arith ];
  }

  set-Keeps :
      (r r' : d.Repo) (base : Str) (tip : Oid)
      → d.set r (head (author_branch actor base)) tip ≡ ok r'
      → Keeps r r'
  set-Keeps r r' base tip h = record {
    outside = λ k m o.
        d.find-set r r' _ tip h k
        ∙ rw (str_eq-apart _ k (own_prefix actor) (target_own actor base) o) refl;
    gone = λ k m e.
        d.find-set r r' _ tip h k
        ∙ rw (str_eq-apart' _ k magic_prefix (target_magic actor base) m) e;
    magic = λ k id m e.
        let apart =
          str_eq-apart' (head (author_branch actor base)) k magic_prefix (target_magic actor base)
            m in
        (sym (d.find-set r r' _ tip h k ∙ rw apart refl)) ∙ e;
  }

  -- The magic ref of one round is gone if the round succeeds.
  deleted-lem :
      {A : Type 0} (a : A) (r : d.Repo) (name : Str)
      → starts_with name magic_prefix ≡ true
      → Keeps r (deleted d a r (d.delete r name)).1
        × ((b : A)
            → (deleted d a r (d.delete r name)).0 ≡ ok b
            → d.find (deleted d a r (d.delete r name)).1 name ≡ none)
  deleted-lem a r name p = elim (Result-cases (d.delete r name)) [
    | inl (e, q) ↦ rw q (Keeps-refl r, λ b h. absurd (ground arith))
    | inr (r', q) ↦ rw q (
      delete-Keeps r r' name p q,
      λ b h. d.find-delete r r' name q name ∙ rw (str_eq_refl name) refl,
    )
  ]

  -- What a round promises of its state and, if it succeeds, of its magic ref.
  abbrev Round : (r : d.Repo) (name : Str) → Exec d (Option MagicPush) → Type 0
  Round r name out =
      Keeps r out.1 × ((p : Option MagicPush) → out.0 ≡ ok p → d.find out.1 name ≡ none)

  claim-Round :
      (r : d.Repo) (name base : Str) (tip : Oid)
      → starts_with name magic_prefix ≡ true
      → Round r name (claim d actor name base tip r)
  unfolding claim
  claim-Round r name base tip p =
      elim (Result-cases (d.set r (head (author_branch actor base)) tip)) [
        | inl (e, q) ↦ rw q (Keeps-refl r, λ b h. absurd (ground arith))
        | inr (r', q) ↦
            let push : MagicPush = record {
              base = base;
              branch = author_branch actor base;
              tip = tip;
            } in
            let rest = deleted-lem (some push) r' name p in
            rw q (Keeps-trans r r' _ (set-Keeps r r' base tip q) rest.0, rest.1)
      ]

  take_resolved-Round :
      (before : Snapshot) (r : d.Repo) (name base : Str) (tip : Option Oid)
      → starts_with name magic_prefix ≡ true
      → Round r name (take_resolved d actor before name base tip r)
  unfolding take_resolved
  take_resolved-Round before r name base none p = (Keeps-refl r, λ b h. absurd (ground arith))
  take_resolved-Round before r name base (some tip) p =
      elim (Bool-cases (lay_before before name tip)) [
        | inl e ↦ rw e (deleted-lem none r name p)
        | inr e ↦ rw e (claim-Round r name base tip p)
      ]

  pub take_one-Round :
      (before : Snapshot) (r : d.Repo) (name : Str)
      → starts_with name magic_prefix ≡ true
      → Round r name (take_one d actor before name r)
  unfolding take_one
  take_one-Round before r name p = elim (Option-cases (strip_prefix name magic_prefix)) [
    | inl e ↦ absurd (cc (p, ap is_some e))
    | inr (base, e) ↦ rw (e, take_one) (take_resolved-Round before r name base (d.find r name) p)
  ]

  -- The same of a run of rounds.
  abbrev Rounds : (r : d.Repo) (names : List Str) → Exec d (List MagicPush) → Type 0
  Rounds r names out =
      Keeps r out.1
      × ((ps : List MagicPush)
          → out.0 ≡ ok ps
          → (k : Str) → In k names
          → (starts_with k magic_prefix ≡ true) × (d.find out.1 k ≡ none))

  pushed-Rounds :
      (r : d.Repo) (names : List Str) (p : Option MagicPush) (out : Exec d (List MagicPush))
      → Rounds r names out
      → Rounds r names (pushed d p out)
  pushed-Rounds r names p (ok ps, r') (k, g) = (k, λ qs h. g ps refl)
  pushed-Rounds r names p (err e, r') (k, g) = (k, λ qs h. absurd (ground arith))

  and_rest-Rounds :
      (r : d.Repo) (name : Str) (names : List Str) (out : Exec d (Option MagicPush))
      (rest : d.Repo → Exec d (List MagicPush))
      → starts_with name magic_prefix ≡ true
      → Round r name out
      → ((s : d.Repo) → Rounds s names (rest s))
      → Rounds r (name ∷ names) (and_rest d out rest)
  and_rest-Rounds r name names (err e, s) rest m (k, g) more = (k, λ ps h. absurd (ground arith))
  and_rest-Rounds r name names (ok p, s) rest m (k, g) more =
      let (keeps, cleared) = pushed-Rounds s names p (rest s) (more s) in
      (
        Keeps-trans r s _ k keeps,
        λ ps h x i. elim i [
          | inl e ↦
              subst
                (λ y.
                  (starts_with y magic_prefix ≡ true) × (d.find (pushed d p (rest s)).1 y ≡ none))
                (sym e) (m, keeps.gone name m (g p refl))
          | inr j ↦ cleared ps h x j
        ],
      )

  take_names-Rounds :
      (before : Snapshot) (names : List Str) (r : d.Repo)
      → ((k : Str) → In k names → starts_with k magic_prefix ≡ true)
      → Rounds r names (take_names d actor before names r)
  unfolding take_names
  take_names-Rounds before [] r m = (Keeps-refl r, λ ps h k i. absurd i)
  take_names-Rounds before (name ∷ names) r m =
      and_rest-Rounds r name names _ _ (m name (inl refl))
        (take_one-Round before r name (m name (inl refl)))
        (λ s. take_names-Rounds before names s (λ k i. m k (inr i)))

  -- Whatever a magic push comes to, an error in the middle included, it changes no reference that
  -- is neither magic nor a branch of its own author, so neither `main` nor a tag nor the branch of
  -- another author; and it makes no magic ref.
  pub take_magic_pushes-Keeps :
      (before : Snapshot) (r : d.Repo) → Keeps r (take_magic_pushes d actor before r).1
  unfolding take_magic_pushes
  take_magic_pushes-Keeps before r = elim (Bool-cases (is_empty actor)) [
    | inl e ↦ rw e (Keeps-refl r)
    | inr e ↦ elim (Result-cases (d.glob r magic_prefix)) [
      | inl (x, q) ↦ rw (e, q) (Keeps-refl r)
      | inr (names, q) ↦
          rw (e, q)
            (take_names-Rounds before names r (λ k. (d.glob-names r magic_prefix names q k).0)).0
    ]
  ]

  pub known-take_names :
      (before : Snapshot) (r : d.Repo) (names : List Str)
      → is_empty actor ≡ false
      → d.glob r magic_prefix ≡ ok names
      → take_magic_pushes d actor before r ≡ take_names d actor before names r
  unfolding take_magic_pushes
  known-take_names before r names known q = rw (known, q) refl

  pub known-err :
      (before : Snapshot) (r : d.Repo) (x : RefError)
      → is_empty actor ≡ false
      → d.glob r magic_prefix ≡ err x
      → (take_magic_pushes d actor before r).0 ≡ err x
  unfolding take_magic_pushes
  known-err before r x known q = rw (known, q) refl

  -- A magic push with a known author that succeeds leaves no magic ref behind, claimed or stale, so
  -- the next push to the same magic ref is a new one.
  pub take_magic_pushes-clears :
      (before : Snapshot) (r : d.Repo) (ps : List MagicPush) (k : Str)
      → is_empty actor ≡ false
      → (take_magic_pushes d actor before r).0 ≡ ok ps
      → starts_with k magic_prefix ≡ true
      → d.find (take_magic_pushes d actor before r).1 k ≡ none
  take_magic_pushes-clears before r ps k known h m = elim (Result-cases (d.glob r magic_prefix)) [
    | inl (x, q) ↦ absurd (err-ne-ok x ps (sym (known-err before r x known q) ∙ h))
    | inr (names, q) ↦
        let eq = known-take_names before r names known q in
        let (keeps, cleared) =
          take_names-Rounds before names r (λ x. (d.glob-names r magic_prefix names q x).0) in
        rw eq (elim (Option-cases (d.find r k)) [
          | inl e ↦ keeps.gone k m e
          | inr (id, e) ↦
              (cleared ps (ap (λ o. o.0) (sym eq) ∙ h) k
                ((d.glob-names r magic_prefix names q k).1 m id e)).1
        ])
  ]
