-- ===== src/Git/Pushed/Tests.antt =====
-- A push of two commits to a repository without main: the first brings a script, the second takes
-- it away.
use setfork_core.Shared.{
  ◌≢◌, In, true, false, is_empty, Bool-cases, subst, sym, ap, ◌∙◌, ok_injective, str_eq→eq, arith,
  some, eq→str_eq, strip_prefix, unwrap_or, ◌≡◌, refl, inl, inr, List, [], ◌∷◌, ◌++◌, Str, codes,
  str_eq, Result, ok, err, if◌then◌else◌,
}
use setfork_core.Gate.Ask.{PushedText}
use setfork_core.Git.Pushed.{
  split_on, split_once, split_entry, strip_return, ended_lines, not_empty, full_lines, blobs, take,
  label, tree_blobs, blob_text, inherited_from, inherited, add_blobs, add_commits, new_commits,
  pushed_from, pushed_texts,
}
use setfork_core.Git.Pushed.Complete.{Covers}
use setfork_core.Git.Pushed.Listing.{entry_read, entry_filled}
use setfork_core.Git.Paths.{tree_path_allowed, authored_path, name_ok}
use setfork_core.Git.Pushed.Laws.{Repository, Documented, IsEntry, lines}
use setfork_core.Git.Pushed.Searched.{pushed_texts-Covers}

abbrev entry : Str → Str → Str
entry oid path = codes "100644 blob " ++ oid ++ 9 ∷ path ++ 0 ∷ []

abbrev tree : Str → Str
tree commit =
    if str_eq commit (codes "c1")
    then entry (codes "a") (codes "list.json") ++ entry (codes "k") (codes "scripts/k")
    else entry (codes "b") (codes "list.json")

abbrev parents : Str → Result Str Str
parents name =
    if str_eq name (codes "c2^@")
    then ok (codes "c1" ++ 10 ∷ [])
    else if str_eq name (codes "c1^@")
    then ok []
    else err (codes "fatal")

abbrev git : List Str → Result Str Str
git (cmd ∷ a ∷ []) =
    if str_eq cmd (codes "rev-list")
    then ok (codes "c2" ++ 10 ∷ codes "c1" ++ 10 ∷ [])
    else parents a
git (cmd ∷ a ∷ b ∷ []) = ok (codes "text of " ++ b)
git (cmd ∷ a ∷ b ∷ args) = if str_eq cmd (codes "ls-tree") then ok (tree b) else err (codes "fatal")
git _ = err (codes "usage")

abbrev texts : List PushedText
texts =
    (codes "list.json", codes "text of b")
    ∷ (codes "list.json@c1", codes "text of a")
    ∷ (codes "scripts/k@c1", codes "text of k")
    ∷ []

two_commits : new_commits git (codes "c2") ≡ ok (codes "c2" ∷ codes "c1" ∷ [])
unfolding new_commits full_lines split_on ended_lines strip_return not_empty
two_commits = refl

three_texts : pushed_texts git (codes "c2") ≡ ok texts
unfolding pushed_texts pushed_from new_commits full_lines split_on ended_lines strip_return
    not_empty tree_blobs blobs split_once add_commits inherited inherited_from add_blobs blob_text
    label take
three_texts = refl

-- The blobs of a tree with their paths.
abbrev held : Str → List (Str × Str)
held commit =
    if str_eq commit (codes "c1")
    then (codes "list.json", codes "a") ∷ (codes "scripts/k", codes "k") ∷ []
    else (codes "list.json", codes "b") ∷ []

-- The two commits, where main reaches none.
abbrev repository : Repository
repository = record {
  Reaches = λ a c. (a ≢ codes "refs/heads/main") × In c (codes "c2" ∷ codes "c1" ∷ []);
  IsParent = λ c p. (c ++ codes "^@" ≡ codes "c2^@") × (p ≡ codes "c1");
  Holds = λ c path oid. In (path, oid) (held c);
}

two_lines :
    (c : Str)
    → In c (codes "c2" ∷ codes "c1" ∷ [])
    → In c (lines (codes "c2" ++ 10 ∷ codes "c1" ++ 10 ∷ [])) × (is_empty c ≡ false)
unfolding split_on ended_lines strip_return
two_lines c (inl e) = (inl e, subst (λ x. is_empty x ≡ false) (sym e) refl)
two_lines c (inr (inr i)) = absurd i
two_lines c (inr (inl e)) = (inr (inl e), subst (λ x. is_empty x ≡ false) (sym e) refl)

no_line : (p : Str) → p ≡ [] → is_empty p ≡ false → ⊥
no_line p e f = let g = subst (λ x. is_empty x ≡ false) e f in ground arith

parent_of :
    (name p out : Str)
    → parents name ≡ ok out
    → In p (lines out)
    → is_empty p ≡ false
    → (name ≡ codes "c2^@") × (p ≡ codes "c1")
unfolding split_on ended_lines strip_return
parent_of name p out h i f = elim (Bool-cases (str_eq name (codes "c2^@"))) [
  | inl e ↦
      let o = ok_injective (codes "c1" ++ 10 ∷ []) out (rw e at h) in
      (
        str_eq→eq name (codes "c2^@") e,
        elim (subst (λ x. In p (lines x)) (sym o) i) [
          | inl q ↦ q
          | inr (inl q) ↦ absurd (no_line p q f)
          | inr (inr q) ↦ absurd q
        ],
      )
  | inr e ↦ elim (Bool-cases (str_eq name (codes "c1^@"))) [
    | inl g ↦
        let o = ok_injective [] out (rw (e, g) at h) in
        elim (subst (λ x. In p (lines x)) (sym o) i) [
          | inl q ↦ absurd (no_line p q f)
          | inr q ↦ absurd q
        ]
    | inr g ↦ absurd (ground arith)
  ]
]

-- An entry of a tree for a blob of it, and the other way round.
abbrev HasEntry : Str → Str × Str → Type 0
HasEntry out (path, oid) = (e : Str) × In e (split_on 0 out) × IsEntry e path oid

tree_listed : (c : Str) (x : Str × Str) → In x (held c) → HasEntry (tree c) x
unfolding split_on split_once
tree_listed c x i = elim (Bool-cases (str_eq c (codes "c1"))) [
  | inl e ↦ rw e (elim (rw e at i) [
    | inl q ↦ subst (HasEntry (tree (codes "c1"))) (sym q) (
      codes "100644 blob a" ++ 9 ∷ codes "list.json",
      inl refl,
      (codes "100644 blob a", codes "100644", [], refl, refl),
    )
    | inr (inl q) ↦ subst (HasEntry (tree (codes "c1"))) (sym q) (
      codes "100644 blob k" ++ 9 ∷ codes "scripts/k",
      inr (inl refl),
      (codes "100644 blob k", codes "100644", [], refl, refl),
    )
    | inr (inr q) ↦ absurd q
  ])
  | inr e ↦ rw e (elim (rw e at i) [
    | inl q ↦ subst (HasEntry (tree (codes "c2"))) (sym q) (
      codes "100644 blob b" ++ 9 ∷ codes "list.json",
      inl refl,
      (codes "100644 blob b", codes "100644", [], refl, refl),
    )
    | inr q ↦ absurd q
  ])
]

read_as :
    (e d path oid : Str) (x : Str × Str)
    → split_entry (split_once 9 d) ≡ some x
    → e ≡ d
    → IsEntry e path oid
    → (path, oid) ≡ x
read_as e d path oid x h q k =
    ap (λ o. unwrap_or o ([], []))
      (sym (entry_read e path oid k) ∙ ap (λ y. split_entry (split_once 9 y)) q ∙ h)

empty_entry : (e path oid : Str) → e ≡ [] → IsEntry e path oid → ⊥
empty_entry e path oid q k = no_line e q (entry_filled e path oid k)

tree_held :
    (c path oid e : Str) → In e (split_on 0 (tree c)) → IsEntry e path oid → In (path, oid) (held c)
unfolding split_on split_once split_entry
tree_held c path oid e i k = elim (Bool-cases (str_eq c (codes "c1"))) [
  | inl f ↦ rw f (elim (rw f at i) [
    | inl q ↦ inl (read_as e _ path oid (codes "list.json", codes "a") refl q k)
    | inr (inl q) ↦ inr (inl (read_as e _ path oid (codes "scripts/k", codes "k") refl q k))
    | inr (inr (inl q)) ↦ absurd (empty_entry e path oid q k)
    | inr (inr (inr q)) ↦ absurd q
  ])
  | inr f ↦ rw f (elim (rw f at i) [
    | inl q ↦ inl (read_as e _ path oid (codes "list.json", codes "b") refl q k)
    | inr (inl q) ↦ absurd (empty_entry e path oid q k)
    | inr (inr q) ↦ absurd q
  ])
]

documented : Documented repository git
documented = record {
  rev_list = λ a c out h r.
      subst (λ x. In c (lines x) × (is_empty c ≡ false)) (ok_injective _ out h) (two_lines c r.1);
  rev_list_not = λ a b c out h r n. absurd (ground arith);
  rev_parse = λ c p out h i f. parent_of (c ++ codes "^@") p out h i f;
  listed = λ c path oid out specs h i m.
      subst (λ x. HasEntry x (path, oid)) (ok_injective (tree c) out h)
        (tree_listed c (path, oid) i);
  only_listed = λ c path oid out e specs h i k.
      tree_held c path oid e
        (subst (λ x. In e (split_on 0 x)) (sym (ok_injective (tree c) out h)) i) k;
}

allowed_script : tree_path_allowed (codes "scripts/k") ≡ true
unfolding tree_path_allowed authored_path strip_prefix name_ok
allowed_script = refl

differ : (a b : Str) → str_eq a b ≡ false → a ≢ b
differ a b h e = cc (h, eq→str_eq a b e)

pushed_texts-Covers_example : Covers git texts (codes "k")
pushed_texts-Covers_example =
    pushed_texts-Covers repository git documented (codes "c2") (codes "c1") (codes "scripts/k")
      (codes "k") texts refl three_texts
      (differ (codes "c2") (codes "refs/heads/main") refl, inr (inl refl)) (λ r. r.0 refl)
      (inr (inl refl)) allowed_script (differ (codes "scripts/k") (codes ".gitattributes") refl)
      (λ p other (e, q). absurd (differ (codes "c1^@") (codes "c2^@") refl e))
