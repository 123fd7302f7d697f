-- ===== src/Git/Pushed/Searched.antt =====
-- In a repository whose git keeps its documentation, what a push brings is among the texts.
use setfork_core.Shared.{
  ◌≡◌, ◌≢◌, refl, sym, ap, ◌∙◌, inl, inr, true, false, some, List, [], ◌∷◌, ◌++◌, Str, codes,
  str_eq, str_eq_refl, strip_prefix, strip_prefix-append, ends_with_char, contains_char, is_empty,
  any, In→any, any-append, In, Result, ok, arith, Bool-cases, subst, from_ok, ok_injective,
  str_eq→eq, or_cases,
}
use setfork_core.Gate.Ask.{PushedText}
use setfork_core.Git.Paths.{tree_path_allowed, tree_path_allowed_iff}
use setfork_core.Git.Pushed.{
  split_on, not_empty, full_lines, specs, contains, succeeds, tree_blobs, objects, inherited_from,
  inherited, new_commits, pushed_texts,
}
use setfork_core.Git.Pushed.Complete.{Covers, pushed_texts-brings}
use setfork_core.Git.Pushed.Laws.{Repository, Documented, matches, lines}
use setfork_core.Git.Pushed.Listing.{not_empty-In, In-not_empty, entry_filled, blobs-In, In-blobs}

-- The paths that the rules of the tree allow, but `.gitattributes`, are among the paths of the
-- listing.
in_specs :
    (path spec : Str) → In spec specs → matches path spec ≡ true → any (matches path) specs ≡ true
in_specs path spec i m = In→any (matches path) spec specs i m

matches_itself : (path : Str) → matches path path ≡ true
matches_itself path = rw (str_eq_refl path) refl

matches_in :
    (path spec name : Str)
    → path ≡ spec ++ name
    → ends_with_char spec b'/' ≡ true
    → contains_char name b'/' ≡ false
    → matches path spec ≡ true
matches_in path spec name e d n =
    let rest : strip_prefix path spec ≡ some name =
      ap (λ x. strip_prefix x spec) e ∙ strip_prefix-append spec name in
    rw (rest, d, n) (ground arith)

allowed_matches :
    (path : Str)
    → tree_path_allowed path ≡ true
    → path ≢ codes ".gitattributes"
    → any (matches path) specs ≡ true
unfolding ends_with_char
allowed_matches path h n = elim ((tree_path_allowed_iff path).0 h) [
  | inl (inl e) ↦
      in_specs path (codes "README.md") (inr (inl refl))
        (subst (λ x. matches path x ≡ true) e (matches_itself path))
  | inl (inr (inl e)) ↦
      in_specs path (codes "list.json") (inl refl)
        (subst (λ x. matches path x ≡ true) e (matches_itself path))
  | inl (inr (inr (inl e))) ↦ absurd (n e)
  | inl (inr (inr (inr e))) ↦ absurd e
  | inr (inl (dir, i, (name, e, (a, b, c, f)))) ↦ elim i [
    | inl q ↦
        in_specs path (codes "scripts/") (inr (inr (inr (inl refl)))) (
          matches_in path (codes "scripts/") name (e ∙ ap (λ x. x ++ (codes "/" ++ name)) q) refl b)
    | inr (inl q) ↦ in_specs path (codes "references/") (inr (inr (inr (inr (inl refl))))) (
        matches_in path (codes "references/") name (e ∙ ap (λ x. x ++ (codes "/" ++ name)) q) refl
          b)
    | inr (inr (inl q)) ↦
        in_specs path (codes "assets/") (inr (inr (inr (inr (inr (inl refl))))))
          (matches_in path (codes "assets/") name (e ∙ ap (λ x. x ++ (codes "/" ++ name)) q) refl b)
    | inr (inr (inr q)) ↦ absurd q
  ]
  | inr (inr (stem, e, a, b)) ↦ in_specs path (codes "steps/") (inr (inr (inl refl))) (
      matches_in path (codes "steps/") (stem ++ codes ".md") e refl
        (any-append _ stem (codes ".md") ∙ rw b refl))
]

module _ (g : Repository) (sh_git : List Str → Result Str Str) (doc : Documented g sh_git) where
  tree_blobs-In :
      (c path oid : Str) (es : List (Str × Str))
      → tree_blobs sh_git c ≡ ok es
      → g.Holds c path oid
      → any (matches path) specs ≡ true
      → In (path, oid) es
  unfolding tree_blobs
  tree_blobs-In c path oid es h k m = from_ok (sh_git _) _ es h λ out e f.
      let (x, i, t) = doc.listed c path oid out specs e k m in
      subst (In (path, oid)) (ok_injective _ es f) (
        blobs-In (not_empty (split_on 0 out)) x path oid
          (not_empty-In x (split_on 0 out) i (entry_filled x path oid t)) t)

  tree_blobs-Holds :
      (c path oid : Str) (es : List (Str × Str))
      → tree_blobs sh_git c ≡ ok es
      → In (path, oid) es
      → g.Holds c path oid
  unfolding tree_blobs
  tree_blobs-Holds c path oid es h i = from_ok (sh_git _) _ es h λ out e f.
      let (x, j, t) =
        In-blobs (not_empty (split_on 0 out)) path oid
          (subst (In (path, oid)) (sym (ok_injective _ es f)) i) in
      doc.only_listed c path oid out x specs e (In-not_empty x (split_on 0 out) j).0 t

  In-objects :
      (es : List (Str × Str)) (oid : Str)
      → contains (objects sh_git es) oid ≡ true
      → (path : Str) × In (path, oid) es
  In-objects [] oid h = absurd (ground arith)
  In-objects ((p, x) ∷ es) oid h = elim (Bool-cases (str_eq oid x)) [
    | inl e ↦ (p, inl (ap (λ y. (p, y)) (str_eq→eq oid x e)))
    | inr e ↦ let (q, i) = In-objects es oid (ground arith) in (q, inr i)
  ]

  -- An inherited blob stands in the tree of a parent.
  abbrev FromParent : List Str → Str → Type 0
  FromParent ps oid = (p : Str) × (path : Str) × In p ps × g.Holds p path oid

  inherited_from-Holds :
      (ps old : List Str) (oid : Str)
      → inherited_from sh_git ps ≡ ok old
      → contains old oid ≡ true
      → FromParent ps oid
  unfolding inherited_from
  inherited_from-Holds [] old oid h k =
      let e = ok_injective [] old h in absurd (cc (k, ap (λ x. contains x oid) e))
  inherited_from-Holds (p ∷ ps) old oid h k = from_ok (tree_blobs sh_git p) _ old h λ es e h1.
      from_ok (inherited_from sh_git ps) _ old h1 λ rest f h2.
        let whole = ok_injective (objects sh_git es ++ rest) old h2 in
        let split =
          sym (any-append (str_eq oid) (objects sh_git es) rest)
          ∙ ap (λ x. contains x oid) whole
          ∙ k in
        elim (or_cases (contains (objects sh_git es) oid) (contains rest oid) split) [
          | inl a ↦
              let (path, i) = In-objects es oid a in
              (p, path, inl refl, tree_blobs-Holds p path oid es e i)
          | inr b ↦
              let (q, path, i, w) = inherited_from-Holds ps rest oid f b in (q, path, inr i, w)
        ]

  -- A commit that the pushed one reaches and main does not is among the commits of the push.
  new_commits-In :
      (commit c : Str) (cs : List Str)
      → g.Reaches commit c
      → ¬ g.Reaches (codes "refs/heads/main") c
      → new_commits sh_git commit ≡ ok cs
      → In c cs
  unfolding new_commits full_lines
  new_commits-In commit c cs r n h =
      elim (Bool-cases (
        succeeds (
          sh_git
            (codes "rev-parse" ∷ codes "--verify" ∷ codes "-q" ∷ codes "refs/heads/main" ∷ [])))) [
              | inl e ↦ from_ok (sh_git _) _ cs (rw e at h) λ out f k.
                  among (lines out) k
                    (doc.rev_list_not commit (codes "refs/heads/main") c out f r n)
              | inr e ↦
                  from_ok (sh_git _) _ cs (rw e at h)
                    λ out f k. among (lines out) k (doc.rev_list commit c out f r)
            ]
    where
      among :
          (ls : List Str)
          → Path (Result Str (List Str)) (ok (not_empty ls)) (ok cs)
          → In c ls × (is_empty c ≡ false)
          → In c cs
      among ls k (i, e) = subst (In c) (ok_injective (not_empty ls) cs k) (not_empty-In c ls i e)

  inherited-Holds :
      (c oid : Str) (old : List Str)
      → inherited sh_git c ≡ ok old
      → contains old oid ≡ true
      → (p : Str) × (path : Str) × g.IsParent c p × g.Holds p path oid
  unfolding inherited full_lines
  inherited-Holds c oid old h k = from_ok (sh_git _) _ old h λ out e f.
      let (p, path, i, w) = inherited_from-Holds (not_empty (lines out)) old oid f k in
      let (j, z) = In-not_empty p (lines out) i in (p, path, doc.rev_parse c p out e j z, w)

  -- When the texts of a push are given, the text of every blob that a commit of the push brings is
  -- among them: of a commit that the pushed one reaches and main does not, for a blob in its tree
  -- at a path that the rules of the tree allow, `.gitattributes` excepted, which no parent of the
  -- commit has; also where a later commit of the push takes it away again. The git process gives
  -- what is documented of `rev-list`, `rev-parse` and `ls-tree`.
  pub pushed_texts-Covers :
      (commit c path oid : Str) (out : List PushedText)
      → is_empty commit ≡ false
      → pushed_texts sh_git commit ≡ ok out
      → g.Reaches commit c
      → ¬ g.Reaches (codes "refs/heads/main") c
      → g.Holds c path oid
      → tree_path_allowed path ≡ true
      → path ≢ codes ".gitattributes"
      → ((p other : Str) → g.IsParent c p → ¬ g.Holds p other oid)
      → Covers sh_git out oid
  pushed_texts-Covers commit c path oid out e h r n k a b fresh =
      pushed_texts-brings sh_git commit out c oid e h (λ cs q. new_commits-In commit c cs r n q)
        λ old es p q. (
          path,
          tree_blobs-In c path oid es q k (allowed_matches path a b),
          elim (Bool-cases (contains old oid)) [
            | inl x ↦
                let (m, other, i, w) = inherited-Holds c oid old p x in absurd (fresh m other i w)
            | inr x ↦ x
          ],
        )
