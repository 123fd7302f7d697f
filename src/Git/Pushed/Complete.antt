-- ===== src/Git/Pushed/Complete.antt =====
-- What a push brings is among the texts.
use setfork_core.Shared.{
  codes, In-left, In-right, ◌≡◌, refl, sym, ap, ◌⊎◌, inl, inr, true, false, ◌||◌, List, [], ◌∷◌,
  ◌++◌, Str, str_eq, eq→str_eq, str_eq→eq, is_empty, In, Result, ok, arith, Bool-cases, subst,
  from_ok, ok_injective,
}
use setfork_core.Gate.Ask.{PushedText}
use setfork_core.Git.Pushed.{
  contains, label, Found, tree_blobs, blob_text, inherited, add_blobs, add_commits, new_commits,
  pushed_from, pushed_texts,
}

module _ (sh_git : List Str → Result Str Str) where
  -- The text of the object is among the texts, under some name.
  abbrev pub Covers : List PushedText → Str → Type 0
  Covers out oid =
      (text : Str) × (name : Str) × (sh_git (codes "cat-file" ∷ codes "blob" ∷ oid ∷ []) ≡ ok text)
      × In (name, text) out

  Covers-left : (a b : List PushedText) (oid : Str) → Covers a oid → Covers (a ++ b) oid
  Covers-left a b oid (text, name, e, i) = (text, name, e, In-left (name, text) a b i)

  Covers-right : (a b : List PushedText) (oid : Str) → Covers b oid → Covers (a ++ b) oid
  Covers-right a b oid (text, name, e, i) = (text, name, e, In-right (name, text) a b i)

  -- What the texts of a commit are and what is seen behind them.
  record Added (old : List Str) (es : List (Str × Str)) (seen : List Str) (f : Found) : Type 0 where
    known : (oid : Str) → contains f.1 oid ≡ true → (contains seen oid ≡ true) ⊎ Covers f.0 oid
    grown : (oid : Str) → contains seen oid ≡ true → contains f.1 oid ≡ true
    all_new :
        (path oid : Str) → In (path, oid) es → contains old oid ≡ false → contains f.1 oid ≡ true

  -- A blob that is taken, in front of the others.
  taken :
      (name text path oid : Str) (old : List Str) (es : List (Str × Str)) (seen : List Str)
      (f : Found)
      → blob_text sh_git oid ≡ ok text
      → Added old es (oid ∷ seen) f
      → Added old ((path, oid) ∷ es) seen ((name, text) ∷ f.0, f.1)
  unfolding blob_text
  taken name text path oid old es seen f p j = record {
    known = λ o k. elim (j.known o k) [
      | inr c ↦ inr (Covers-right ((name, text) ∷ []) f.0 o c)
      | inl m ↦ elim (Bool-cases (str_eq o oid)) [
        | inl e ↦ inr (
            subst (Covers ((name, text) ∷ f.0)) (sym (str_eq→eq o oid e)) (text, name, p, inl refl))
        | inr e ↦ inl (ground arith)
      ]
    ];
    grown = λ o k. j.grown o (ground arith);
    all_new = λ q o i n. elim i [
      | inl e ↦ j.grown o (ground (arith, eq→str_eq o oid (ap (λ x. x.1) e)))
      | inr m ↦ j.all_new q o m n
    ];
  }

  skipped :
      (path oid : Str) (old : List Str) (es : List (Str × Str)) (seen : List Str) (f : Found)
      → (contains old oid || contains seen oid) ≡ true
      → Added old es seen f
      → Added old ((path, oid) ∷ es) seen f
  skipped path oid old es seen f q j = record {
    known = j.known;
    grown = j.grown;
    all_new = λ p o i n. elim i [
      | inl e ↦
          let same = ap (λ x. x.1) e in
          j.grown o (
            subst (λ x. contains seen x ≡ true) (sym same)
              (let m = subst (λ x. contains old x ≡ false) same n in ground arith))
      | inr m ↦ j.all_new p o m n
    ];
  }

  add_blobs-Added :
      (tip : List (Str × Str)) (c : Str) (old : List Str) (es : List (Str × Str)) (seen : List Str)
      (f : Found)
      → add_blobs sh_git tip c old es seen ≡ ok f
      → Added old es seen f
  unfolding add_blobs blob_text
  add_blobs-Added tip c old [] seen f h =
      subst (Added old [] seen) (ok_injective ([], seen) f h)
        (record { known = λ o k. inl k; grown = λ o k. k; all_new = λ p o i n. absurd i })
  add_blobs-Added tip c old ((path, oid) ∷ es) seen f h =
      elim (Bool-cases (contains old oid || contains seen oid)) [
        | inl q ↦
            skipped path oid old es seen f q (add_blobs-Added tip c old es seen f (ground arith))
        | inr q ↦ from_ok (blob_text sh_git oid) _ f (ground arith) (λ text p k.
            from_ok (add_blobs sh_git tip c old es (oid ∷ seen)) _ f k (λ r g m.
              subst (Added old ((path, oid) ∷ es) seen) (ok_injective _ f m) (
                taken (label tip c path oid) text path oid old es seen r p
                  (add_blobs-Added tip c old es (oid ∷ seen) r g))))
      ]

  -- A blob that is read in the tree of a commit and in no parent of the commit.
  abbrev pub Brings : Str → Str → Type 0
  Brings c oid =
      (old : List Str) (es : List (Str × Str))
      → inherited sh_git c ≡ ok old
      → tree_blobs sh_git c ≡ ok es
      → (path : Str) × In (path, oid) es × (contains old oid ≡ false)

  seen_first :
      (old : List Str) (es : List (Str × Str)) (seen : List Str) (f : Found)
      (rest : List PushedText) (oid : Str)
      → Added old es seen f
      → contains f.1 oid ≡ true
      → (contains seen oid ≡ true) ⊎ Covers (f.0 ++ rest) oid
  seen_first old es seen f rest oid j m = elim (j.known oid m) [
    | inl s ↦ inl s
    | inr c ↦ inr (Covers-left f.0 rest oid c)
  ]

  brought :
      (c : Str) (old : List Str) (es : List (Str × Str)) (seen : List Str) (f : Found) (oid : Str)
      → inherited sh_git c ≡ ok old
      → tree_blobs sh_git c ≡ ok es
      → Added old es seen f
      → Brings c oid
      → contains f.1 oid ≡ true
  brought c old es seen f oid p q j b = let (path, i, n) = b old es p q in j.all_new path oid i n

  add_commits-Covers :
      (tip : List (Str × Str)) (cs seen : List Str) (out : List PushedText)
      → add_commits sh_git tip cs seen ≡ ok out
      → (c : Str) → In c cs
      → (oid : Str) → Brings c oid
      → (contains seen oid ≡ true) ⊎ Covers out oid
  unfolding add_commits
  add_commits-Covers tip [] seen out h c i oid b = absurd i
  add_commits-Covers tip (d ∷ cs) seen out h c i oid b =
      from_ok (inherited sh_git d) _ out h (λ old p h1.
        from_ok (tree_blobs sh_git d) _ out h1 (λ es q h2.
          from_ok (add_blobs sh_git tip d old es seen) _ out h2 (λ f g h3.
            from_ok (add_commits sh_git tip cs f.1) _ out h3 (λ rest k m.
              let j = add_blobs-Added tip d old es seen f g in
              subst (λ x. (contains seen oid ≡ true) ⊎ Covers x oid)
                (ok_injective (f.0 ++ rest) out m)
                (elim i [
                  | inl e ↦
                      seen_first old es seen f rest oid j
                        (brought d old es seen f oid p q j (subst (λ x. Brings x oid) e b))
                  | inr n ↦ elim (add_commits-Covers tip cs f.1 rest k c n oid b) [
                    | inl s ↦ seen_first old es seen f rest oid j s
                    | inr r ↦ inr (Covers-right f.0 rest oid r)
                  ]
                ])))))

  nothing_seen :
      (out : List PushedText) (oid : Str)
      → (contains [] oid ≡ true) ⊎ Covers out oid
      → Covers out oid
  nothing_seen out oid (inl e) = absurd (ground arith)
  nothing_seen out oid (inr c) = c

  -- When the texts are given, they cover what a listed commit brings.
  pub pushed_texts-brings :
      (commit : Str) (out : List PushedText) (c oid : Str)
      → is_empty commit ≡ false
      → pushed_texts sh_git commit ≡ ok out
      → ((cs : List Str) → new_commits sh_git commit ≡ ok cs → In c cs)
      → Brings c oid
      → Covers out oid
  unfolding pushed_texts pushed_from
  pushed_texts-brings commit out c oid e h i b =
      from_ok (tree_blobs sh_git commit) _ out (ground arith) (λ tip p h1.
        from_ok (new_commits sh_git commit) _ out h1
          (λ cs q h2. nothing_seen out oid (add_commits-Covers tip cs [] out h2 c (i cs q) oid b)))
