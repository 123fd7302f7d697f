-- ===== src/Git/Missing/Tail.antt =====
-- Whether the versions lie as commits at the end of `main`.
use setfork_core.Shared.{
  from_ok, ℕ, ◌≡◌, refl, sym, ap, ◌∙◌, Option, none, some, List, [], ◌∷◌, ◌++◌, Str, Result, ok,
  err, Result-cases, Bool-cases, subst, ◌==◌, ==_iff, inl, inr, arith,
}
use setfork_core.Canon.Written.{VersionData}
use setfork_core.Git.Refs.{Oid}
use setfork_core.Git.Missing.{Commit, first, reverse_onto, expected_tree, tail_from, tail_commits}

reverse_onto-onto :
    (vs ws ds : List VersionData)
    → reverse_onto (reverse_onto vs ws) ds ≡ reverse_onto ws (vs ++ ds)
unfolding reverse_onto
reverse_onto-onto [] ws ds = refl
reverse_onto-onto (v ∷ vs) ws ds = reverse_onto-onto vs (v ∷ ws) ds

append_nil : (vs : List VersionData) → vs ++ [] ≡ vs
append_nil [] = refl
append_nil (v ∷ vs) = ap (◌∷◌ v) (append_nil vs)

reverse_onto-twice : (vs : List VersionData) → reverse_onto (reverse_onto vs []) [] ≡ vs
unfolding reverse_onto
reverse_onto-twice vs = reverse_onto-onto vs [] [] ∙ append_nil vs

module _ (find_commit : Oid → Result Str Commit)
    (build_tree : VersionData → ℕ → Result Str Oid) where
  -- The commit has the tree that the version has with the author's files of the commit itself.
  abbrev pub IsCommitOf : VersionData → Oid → Type 0
  IsCommitOf v oid =
      (c : Commit) × (tree : ℕ) × (find_commit oid ≡ ok c)
      × (c.tree ≡ ok tree)
      × (build_tree v tree ≡ ok c.tree_id)

  expected_tree-ok :
      (v : VersionData) (c : Commit) (t : Oid)
      → expected_tree find_commit build_tree v c ≡ ok t
      → (tree : ℕ) × (c.tree ≡ ok tree) × (build_tree v tree ≡ ok t)
  unfolding expected_tree
  expected_tree-ok v c t h = from_ok c.tree _ t h λ tree e k. (tree, e, k)

  abbrev pub parent_in : Result Str Commit → Option Oid
  parent_in (ok c) = first c.parent_ids
  parent_in (err e) = none

  -- The commit under the oldest of those that were gathered.
  abbrev pub under : Oid → List Oid → Option Oid
  under tip [] = some tip
  under tip (oid ∷ oids) = parent_in (find_commit oid)

  -- A commit for each version, each the first parent of the next, the last one at the tip.
  abbrev pub Chain : Oid → List VersionData → List Oid → Type 0
  Chain tip [] [] = Unit
  Chain tip (v ∷ vs) (oid ∷ oids) =
      IsCommitOf v oid × (under tip oids ≡ some oid) × Chain tip vs oids
  Chain tip _ _ = ⊥

  is_commit :
      (v : VersionData) (oid : Oid) (k : Commit) (t : Oid)
      → find_commit oid ≡ ok k
      → expected_tree find_commit build_tree v k ≡ ok t
      → k.tree_id ≡ t
      → IsCommitOf v oid
  is_commit v oid k t p q e =
      let (tree, f, g) = expected_tree-ok v k t q in (k, tree, p, f, g ∙ ap ok (sym e))

  tail_from-Chain :
      (tip : Oid) (cur : Option Oid) (vs ds : List VersionData) (acc oids : List Oid)
      → cur ≡ under tip acc
      → Chain tip ds acc
      → tail_from find_commit build_tree cur vs acc ≡ ok (some oids)
      → Chain tip (reverse_onto vs ds) oids
  unfolding tail_from reverse_onto expected_tree
  tail_from-Chain tip cur [] ds acc oids u c h = subst (Chain tip ds) (ground arith) c
  tail_from-Chain tip none (v ∷ vs) ds acc oids u c h = absurd (ground arith)
  tail_from-Chain tip (some oid) (v ∷ vs) ds acc oids u c h =
      elim (Result-cases (find_commit oid)) [
        | inl (e, p) ↦ absurd (ground arith)
        | inr (k, p) ↦ elim (Result-cases (expected_tree find_commit build_tree v k)) [
          | inl (e, q) ↦ absurd (ground arith)
          | inr (t, q) ↦ elim (Bool-cases (k.tree_id == t)) [
            | inl b ↦
                tail_from-Chain tip (first k.parent_ids) vs (v ∷ ds) (oid ∷ acc) oids (rw p refl)
                  (is_commit v oid k t p q ((==_iff k.tree_id t).0 b), sym u, c) (ground arith)
            | inr b ↦ absurd (ground arith)
          ]
        ]
      ]

  pub tail_commits-Chain :
      (tip : Oid) (vs : List VersionData) (oids : List Oid)
      → tail_commits find_commit build_tree tip vs ≡ ok (some oids)
      → Chain tip vs oids
  unfolding tail_commits
  tail_commits-Chain tip vs oids h =
      subst (λ x. Chain tip x oids) (reverse_onto-twice vs)
        (tail_from-Chain tip (some tip) (reverse_onto vs []) [] [] oids refl tt h)

  -- The loop over the versions on top of those that were found goes on to the commits of the chain.
  Chain-tail_from :
      (tip : Oid) (vs ds : List VersionData) (oids : List Oid)
      → Chain tip (reverse_onto vs ds) oids
      → (acc : List Oid) × Chain tip ds acc
        × (tail_from find_commit build_tree (under tip acc) vs acc ≡ ok (some oids))
  unfolding tail_from reverse_onto expected_tree
  Chain-tail_from tip [] ds oids c = (oids, c, refl)
  Chain-tail_from tip (v ∷ vs) ds oids c =
      let (acc, k, h) = Chain-tail_from tip vs (v ∷ ds) oids c in go acc k h
    where
      go :
          (acc : List Oid)
          → Chain tip (v ∷ ds) acc
          → tail_from find_commit build_tree (under tip acc) vs acc ≡ ok (some oids)
          → (rest : List Oid) × Chain tip ds rest
            × (tail_from find_commit build_tree (under tip rest) (v ∷ vs) rest ≡ ok (some oids))
      go [] k h = absurd k
      go (oid ∷ acc) ((c, tree, p, f, g), u, rest) h =
          let e : expected_tree find_commit build_tree v c ≡ ok c.tree_id = rw f g in
          (
            acc,
            rest,
            rw (u, p, e, (==_iff c.tree_id c.tree_id).1 refl)
                (ap (λ x. tail_from find_commit build_tree (parent_in x) vs (oid ∷ acc)) (sym p)
                  ∙ h),
          )

  pub Chain-tail_commits :
      (tip : Oid) (vs : List VersionData) (oids : List Oid)
      → Chain tip vs oids
      → tail_commits find_commit build_tree tip vs ≡ ok (some oids)
  unfolding tail_commits
  Chain-tail_commits tip vs oids c =
      let (acc, k, h) =
        Chain-tail_from tip (reverse_onto vs []) [] oids
          (subst (λ x. Chain tip x oids) (sym (reverse_onto-twice vs)) c) in
      go acc k h
    where
      go :
          (acc : List Oid)
          → Chain tip [] acc
          → tail_from find_commit build_tree (under tip acc) (reverse_onto vs []) acc
            ≡ ok (some oids)
          → tail_from find_commit build_tree (some tip) (reverse_onto vs []) [] ≡ ok (some oids)
      go [] k h = h
      go (oid ∷ acc) k h = absurd k
