-- ===== src/Canon/Complaints.antt =====
-- The strict reading gives all its complaints at once.
use setfork_core.Shared.{
  In-left, In-right, ◌↔◌, In→any, eq→str_eq, Bool-cases, subst, ◌≡◌, refl, sym, ap, Bool, true,
  false, ◌&&◌, Option, List, [], ◌∷◌, ◌++◌, map, Str, str_eq, str_eq→eq, Result, ok, err, any→In,
  and_parts, inl, inr, In, ◌⊎◌,
}
use setfork_core.Json.{Json}
use setfork_core.Canon.Steps.{parse_list_value}
use setfork_core.Canon.Strict.{
  CanonIssue, ValidationError, SyntaxError, empty_ref, unmasked, schema_issues, silent_loss_issues,
  complaints, judged, parse_canon, is_ref_empty,
}

In-append : {A : Type 0} (x : A) (xs ys : List A) → In x (xs ++ ys) → In x xs ⊎ In x ys
In-append x [] ys i = inr i
In-append x (y ∷ xs) ys (inl e) = inl (inl e)
In-append x (y ∷ xs) ys (inr i) = elim (In-append x xs ys i) [ inl j ↦ inl (inr j) | inr j ↦ inr j ]

-- An issue of the schema that a plainer one speaks for: it comes of an `anyOf`, and the issue of an
-- empty reference stands at the same path.
abbrev pub IsMasked : List CanonIssue → CanonIssue × Bool → Type 0
IsMasked loss (s, any_of) =
    (any_of ≡ true)
    × ((l : CanonIssue) × In l loss × (is_ref_empty l.code ≡ true) × (l.path ≡ s.path))

-- What the list of complaints says: each issue of the schema that is not masked, each silent loss,
-- and nothing else.
pub record IsWhole (ss : List (CanonIssue × Bool)) (loss issues : List CanonIssue) : Type 0 where
  pub of_schema : (s : CanonIssue) (a : Bool) → In (s, a) ss → In s issues ⊎ IsMasked loss (s, a)
  pub of_loss : (l : CanonIssue) → In l loss → In l issues
  pub no_more :
      (c : CanonIssue)
      → In c issues
      → In c loss ⊎ ((a : Bool) × In (c, a) ss × ¬ IsMasked loss (c, a))

empty_ref_iff :
    (loss : List CanonIssue) (s : CanonIssue) (a : Bool)
    → ((a && empty_ref loss s.path) ≡ true) ↔ IsMasked loss (s, a)
empty_ref_iff loss s a = (
  λ h.
      let (b, e) = and_parts a (empty_ref loss s.path) h in
      let (l, i, m) = any→In _ loss e in
      let (r, q) = and_parts (is_ref_empty l.code) (str_eq s.path l.path) m in
      (b, (l, i, r, sym (str_eq→eq s.path l.path q))),
  λ (b, (l, i, r, q)).
      let found =
        In→any (λ x. is_ref_empty x.code && str_eq s.path x.path) l loss i
          (rw r (eq→str_eq s.path l.path (sym q))) in
      rw (b, found) refl,
)

unmasked_keeps :
    (loss : List CanonIssue) (ss : List (CanonIssue × Bool)) (s : CanonIssue) (a : Bool)
    → In (s, a) ss
    → In s (unmasked loss ss) ⊎ IsMasked loss (s, a)
unfolding unmasked
unmasked_keeps loss [] s a i = absurd i
unmasked_keeps loss ((t, b) ∷ ss) s a (inl e) = elim (Bool-cases (a && empty_ref loss s.path)) [
  | inl m ↦ inr ((empty_ref_iff loss s a).0 m)
  | inr m ↦
      let kept : (b && empty_ref loss t.path) ≡ false =
        subst (λ x. (x.1 && empty_ref loss x.0.path) ≡ false) e m in
      inl (rw kept (inl (ap (λ x. x.0) e)))
]
unmasked_keeps loss ((t, b) ∷ ss) s a (inr i) = elim (unmasked_keeps loss ss s a i) [
  | inr m ↦ inr m
  | inl j ↦ elim (Bool-cases (b && empty_ref loss t.path)) [
    | inl m ↦ inl (rw m j)
    | inr m ↦ inl (rw m (inr j))
  ]
]

unmasked_only :
    (loss : List CanonIssue) (ss : List (CanonIssue × Bool)) (c : CanonIssue)
    → In c (unmasked loss ss)
    → (a : Bool) × In (c, a) ss × ¬ IsMasked loss (c, a)
unfolding unmasked
unmasked_only loss [] c i = absurd i
unmasked_only loss ((t, b) ∷ ss) c i = elim (Bool-cases (b && empty_ref loss t.path)) [
  | inl m ↦ later (unmasked_only loss ss c (rw m at i))
  | inr m ↦ elim (rw m at i) [
    | inl e ↦ (
      b,
      inl (ap (λ x. (x, b)) e),
      λ k. absurd (
          cc
            (m, subst (λ x. (b && empty_ref loss x.path) ≡ true) e ((empty_ref_iff loss c b).1 k))),
    )
    | inr j ↦ later (unmasked_only loss ss c j)
  ]
]
  where
    later :
        ((a : Bool) × In (c, a) ss × ¬ IsMasked loss (c, a))
        → (a : Bool) × In (c, a) ((t, b) ∷ ss) × ¬ IsMasked loss (c, a)
    later (a, j, n) = (a, inr j, n)

judged-err : (is : List CanonIssue) (v : Json) (x : CanonIssue) → In x is → judged is v ≡ err is
unfolding parse_list_value
judged-err [] v x i = absurd i
judged-err (j ∷ is) v x i = refl

In-firsts :
    (ss : List (CanonIssue × Bool)) (c : CanonIssue)
    → In c (map (λ p. p.0) ss)
    → (a : Bool) × In (c, a) ss
In-firsts [] c i = absurd i
In-firsts ((s, a) ∷ ss) c (inl e) = (a, inl (ap (λ x. (x, a)) e))
In-firsts (s ∷ ss) c (inr i) = let (a, j) = In-firsts ss c i in (a, inr j)

complaints-IsWhole :
    (validator : Option (Json → List ValidationError)) (v : Json)
    → IsWhole (schema_issues validator v) (silent_loss_issues v) (complaints validator v)
unfolding complaints
complaints-IsWhole validator v =
    let loss = silent_loss_issues v in
    let ss = schema_issues validator v in
    record {
      of_schema = λ s a i. elim (unmasked_keeps loss ss s a i) [
        | inl j ↦ inl (In-left s (unmasked loss ss) loss j)
        | inr m ↦ inr m
      ];
      of_loss = λ l i. In-right l (unmasked loss ss) loss i;
      no_more = λ c i. elim (In-append c (unmasked loss ss) loss i) [
        | inl j ↦ inr (unmasked_only loss ss c j)
        | inr j ↦ inl j
      ];
    }

-- A text that parses and has an issue of the schema or a silent loss is refused with all its
-- complaints at once: each silent loss; each issue of the schema but those of an `anyOf` at the
-- path of an empty reference, which the list names by itself; and nothing else.
pub parse_canon-IsWhole :
    (from_str : Str → Result SyntaxError Json) (validator : Option (Json → List ValidationError))
    (text : Str) (v : Json) (c : CanonIssue)
    → from_str text ≡ ok v
    → In c (map (λ p. p.0) (schema_issues validator v) ++ silent_loss_issues v)
    → (issues : List CanonIssue) × (parse_canon from_str validator text ≡ err issues)
      × IsWhole (schema_issues validator v) (silent_loss_issues v) issues
unfolding parse_canon
parse_canon-IsWhole from_str validator text v c h i =
    let (x, j) = some_issue in
    (complaints validator v, rw h (judged-err _ v x j), complaints-IsWhole validator v)
  where
    some_issue : (x : CanonIssue) × In x (complaints validator v)
    some_issue =
        elim (In-append c (map (λ p. p.0) (schema_issues validator v)) (silent_loss_issues v) i) [
          | inr j ↦ (c, whole.of_loss c j)
          | inl j ↦
              let (a, k) = In-firsts (schema_issues validator v) c j in
              elim (whole.of_schema c a k) [
                | inl m ↦ (c, m)
                | inr (b, (l, m, r, q)) ↦ (l, whole.of_loss l m)
              ]
        ]
      where
        whole : IsWhole (schema_issues validator v) (silent_loss_issues v) (complaints validator v)
        whole = complaints-IsWhole validator v
