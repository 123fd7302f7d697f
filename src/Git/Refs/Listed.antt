-- ===== src/Git/Refs/Listed.antt =====
-- References kept as a list of names with their objects: an implementation of `RefDb`, which shows
-- that its laws can hold.
use setfork_core.Shared.{
  ◌≡◌, refl, sym, ◌∙◌, true, false, Option, none, some, List, [], ◌∷◌, arith, ◌==◌, if◌then◌else◌,
  In, Str, codes, str_eq, str_eq→eq, starts_with, Result, ok, err, unwrap_or, is_some, Bool-cases,
  Option-cases, inl, inr, ==_iff, subst, ap,
}
use setfork_core.Git.Refs.{Oid, zero_oid, RefError, RefDb}

abbrev pub Refs : Type 0
Refs = List (Str × Oid)

abbrev look : Refs → Str → Option Oid
look [] k = none
look ((n, id) ∷ r) k = if str_eq n k then some id else look r k

abbrev erase : Refs → Str → Refs
erase [] k = []
erase ((n, id) ∷ r) k = let rest = erase r k in if str_eq n k then rest else (n, id) ∷ rest

abbrev put : Refs → Str → Oid → Refs
put r k id = (k, id) ∷ r

abbrev names : Refs → Str → List Str
names [] p = []
names ((n, id) ∷ r) p = let rest = names r p in if starts_with n p then n ∷ rest else rest

abbrev checked : Refs → Str → Oid → Oid → Result RefError Refs
checked r k id expected =
    if unwrap_or (look r k) zero_oid == expected
    then ok (put r k id)
    else err (RefError.modified (codes "old reference value does not match"))

abbrev made : Refs → Str → Oid → Result RefError Refs
made r k id =
    if is_some (look r k) then err (RefError.exists (codes "already exists")) else ok (put r k id)

pub look-erase :
    (r : Refs) (n k : Str) → look (erase r n) k ≡ (if str_eq n k then none else look r k)
look-erase [] n k = ground arith
look-erase ((m, id) ∷ r) n k = elim (Bool-cases (str_eq m n)) [
  | inl e ↦ rw e (
      look-erase r n k
      ∙ subst
          (λ x.
            (if str_eq n k then none else look r k)
            ≡ (if str_eq n k then none else (if str_eq x k then some id else look r k)))
          (sym (str_eq→eq m n e)) (ground arith))
  | inr e ↦ rw e (elim (Bool-cases (str_eq n k)) [
    | inl q ↦
        let apart : str_eq m k ≡ false = subst (λ x. str_eq m x ≡ false) (str_eq→eq n k q) e in
        ground (arith, look-erase r n k)
    | inr q ↦ ground (arith, look-erase r n k)
  ])
]

pub names-starts : (r : Refs) (p k : Str) → In k (names r p) → starts_with k p ≡ true
names-starts [] p k i = absurd i
names-starts ((n, id) ∷ r) p k i = elim (Bool-cases (starts_with n p)) [
  | inl e ↦ elim (subst (λ b. In k (if b then n ∷ names r p else names r p)) e i) [
    | inl q ↦ subst (λ x. starts_with x p ≡ true) (sym q) e
    | inr j ↦ names-starts r p k j
  ]
  | inr e ↦ names-starts r p k (subst (λ b. In k (if b then n ∷ names r p else names r p)) e i)
]

pub names-all :
    (r : Refs) (p k : Str) (id : Oid)
    → starts_with k p ≡ true
    → look r k ≡ some id
    → In k (names r p)
names-all [] p k id h e = absurd (ground arith)
names-all ((n, a) ∷ r) p k id h e = elim (Bool-cases (str_eq n k)) [
  | inl q ↦
      let m : starts_with n p ≡ true =
        subst (λ x. starts_with x p ≡ true) (sym (str_eq→eq n k q)) h in
      rw m (inl (sym (str_eq→eq n k q)))
  | inr q ↦
      let i = names-all r p k id h (ground arith) in
      elim (Bool-cases (starts_with n p)) [ inl m ↦ rw m (inr i) | inr m ↦ rw m i ]
]

pub checked-law :
    (r r' : Refs) (k : Str) (id expected : Oid)
    → checked r k id expected ≡ ok r'
    → (unwrap_or (look r k) zero_oid ≡ expected)
      × ((j : Str) → look r' j ≡ (if str_eq k j then some id else look r j))
checked-law r r' k id expected h = elim (Bool-cases (unwrap_or (look r k) zero_oid == expected)) [
  | inl e ↦
      let q : put r k id ≡ r' = ground arith in
      (
        (==_iff _ expected).0 e,
        λ j. subst (λ s. look s j ≡ (if str_eq k j then some id else look r j)) q refl,
      )
  | inr e ↦ absurd (ground arith)
]

pub made-law :
    (r r' : Refs) (k : Str) (id : Oid)
    → made r k id ≡ ok r'
    → (look r k ≡ none) × ((j : Str) → look r' j ≡ (if str_eq k j then some id else look r j))
made-law r r' k id h = elim (Option-cases (look r k)) [
  | inl e ↦
      let q : put r k id ≡ r' = ground arith in
      (e, λ j. subst (λ s. look s j ≡ (if str_eq k j then some id else look r j)) q refl)
  | inr (a, e) ↦ absurd (ground arith)
]

value : {A : Type 0} → A → Result RefError A → A
value d (ok a) = a
value d (err e) = d

pub ok-eq : {A : Type 0} (a b : A) (m : Result RefError A) → m ≡ ok b → m ≡ ok a → a ≡ b
unfolding value
ok-eq a b m h k = ap (value a) (sym k ∙ h)

-- The implementation.
abbrev pub listed : RefDb
listed = record {
  Repo = Refs;
  find = look;
  matching = checked;
  set = λ r k id. ok (put r k id);
  create = made;
  delete = λ r k. ok (erase r k);
  glob = λ r p. ok (names r p);
  find-matching = checked-law;
  find-set = λ r r' k id h j.
      subst (λ s. look s j ≡ (if str_eq k j then some id else look r j)) (ok-eq _ _ _ h refl) refl;
  find-create = made-law;
  find-delete = λ r r' k h j.
      subst (λ s. look s j ≡ (if str_eq k j then none else look r j)) (ok-eq _ _ _ h refl)
        (look-erase r k j);
  glob-names = λ r p ns h k. (
    λ i. names-starts r p k (subst (In k) (sym (ok-eq _ _ _ h refl)) i),
    λ m id e. subst (In k) (ok-eq _ _ _ h refl) (names-all r p k id m e),
  );
}
