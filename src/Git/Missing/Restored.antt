-- ===== src/Git/Missing/Restored.antt =====
-- A version whose commit is on `main` and whose tag was lost gets the tag back on that commit.
use setfork_core.Shared.{
  ◌⊎◌, ℕ, suc, ◌≡◌, ◌≤◌, ◌<◌, refl, sym, ap, ◌∙◌, false, Option, none, some, List, [], ◌∷◌, Str,
  str_eq, str_eq_refl, str_eq→eq, Result, ok, err, Result-cases, Bool-cases, if◌then◌else◌, inl,
  inr, arith, pos,
}
use setfork_core.Names.Decimal.{i32_max}
use setfork_core.Names.Version.{version_of_tag, tag_name, version_of_tag-tag_name}
use setfork_core.Canon.Written.{VersionData, decimal}
use setfork_core.Git.Authored.{MainUpdateError}
use setfork_core.Git.Refs.{Oid, RefDb, main_ref}
use setfork_core.Git.Objects.{Objects}
use setfork_core.Git.Branches.{tag_ref}
use setfork_core.Git.History.{AuthoredMode, build_history}
use setfork_core.Git.Missing.Tail.{Chain, tail_commits-Chain, Chain-tail_commits}
use setfork_core.Git.Missing.{
  Commit, version_tag, tail_commits, tag_all, append_missing_versions, append_or_tag, append_onto,
}

-- The numbers of the versions grow, from `n` on, and fit an i32.
abbrev pub Numbered : ℕ → List VersionData → Type 0
Numbered n [] = Unit
Numbered n (v ∷ vs) = (m : ℕ) × (v.version ≡ pos m) × (n ≤ m) × (m ≤ i32_max) × Numbered (suc m) vs

number_tag : ℕ → Str
number_tag k = tag_ref (tag_name k)

other_tag : (m k : ℕ) → k < m → m ≤ i32_max → str_eq (tag_name m) (tag_name k) ≡ false
other_tag m k l b = elim (Bool-cases (str_eq (tag_name m) (tag_name k))) [
  | inr q ↦ q
  | inl q ↦
      let same =
        sym (version_of_tag-tag_name m b)
        ∙ ap version_of_tag (str_eq→eq (tag_name m) (tag_name k) q)
        ∙ version_of_tag-tag_name k (omega arith) in
      absurd (ground arith)
]

module _ (find_commit : Oid → Result Str Commit)
    (build_tree : VersionData → ℕ → Result Str Oid) where
  module _ (o : Objects) (d : RefDb)
      (commit_version : Option Oid → VersionData → AuthoredMode → Result MainUpdateError Oid) where
    abbrev pub Tagged : d.Repo → List VersionData → List Oid → Type 0
    Tagged r (v ∷ vs) (oid ∷ oids) = (d.find r (version_tag v) ≡ some oid) × Tagged r vs oids
    Tagged r _ _ = Unit

    -- What the writing of the tags of versions from `n` on leaves.
    record TagsOnly (n : ℕ) (tip : Oid) (vs : List VersionData) (oids : List Oid) (t : Option Oid)
        (r r' : d.Repo) : Type 0 where
      at_tip : t ≡ some tip
      main : d.find r' main_ref ≡ d.find r main_ref
      below : (k : ℕ) → k < n → d.find r' (number_tag k) ≡ d.find r (number_tag k)
      tagged : Tagged r' vs oids

    ended :
        (n : ℕ) (tip : Oid) (vs : List VersionData) (oids : List Oid) (t : Option Oid)
        (r r' : d.Repo)
        → Tagged r' vs oids
        → ◌≡◌ {A = Result MainUpdateError (Option Oid) × d.Repo} (ok (some tip), r) (ok t, r')
        → TagsOnly n tip vs oids t r r'
    ended n tip vs oids t r r' a h = record {
      at_tip = let e = ap (λ p. p.0) h in ground arith;
      main = ap (λ p. d.find p.1 main_ref) (sym h);
      below = λ k l. ap (λ p. d.find p.1 (number_tag k)) (sym h);
      tagged = a;
    }

    -- One tag, and then the others.
    one_more :
        (n m : ℕ) (tip : Oid) (v : VersionData) (vs : List VersionData) (oid : Oid)
        (oids : List Oid) (t : Option Oid) (r r1 r' : d.Repo)
        → version_tag v ≡ number_tag m
        → n ≤ m
        → m ≤ i32_max
        → d.set r (version_tag v) oid ≡ ok r1
        → TagsOnly (suc m) tip vs oids t r1 r'
        → TagsOnly n tip (v ∷ vs) (oid ∷ oids) t r r'
    unfolding number_tag version_tag
    one_more n m tip v vs oid oids t r r1 r' s l b p rest =
        let set = d.find-set r r1 (version_tag v) oid p in
        record {
          at_tip = rest.at_tip;
          main = rest.main ∙ set main_ref;
          below = λ k j.
              rest.below k (omega arith)
              ∙ set (number_tag k)
              ∙ ap (λ x. if str_eq x (number_tag k) then some oid else d.find r (number_tag k)) s
              ∙ ap (λ x. if x then some oid else d.find r (number_tag k))
                  (other_tag m k (omega arith) b);
          tagged = (
            ap (d.find r') s
                ∙ rest.below m (omega arith)
                ∙ ap (d.find r1) (sym s)
                ∙ set (version_tag v)
                ∙ rw (str_eq_refl (version_tag v)) refl,
            rest.tagged,
          );
        }

    tag_all-TagsOnly :
        (n : ℕ) (tip : Oid) (vs : List VersionData) (oids : List Oid) (t : Option Oid)
        (r r' : d.Repo)
        → Numbered n vs
        → tag_all find_commit build_tree o d commit_version vs oids tip r ≡ (ok t, r')
        → TagsOnly n tip vs oids t r r'
    unfolding tag_all number_tag version_tag decimal
    tag_all-TagsOnly n tip [] oids t r r' m h = ended n tip [] oids t r r' tt h
    tag_all-TagsOnly n tip (v ∷ vs) [] t r r' m h = ended n tip (v ∷ vs) [] t r r' tt h
    tag_all-TagsOnly n tip (v ∷ vs) (oid ∷ oids) t r r' (m, e, l, b, ms) h =
        elim (Result-cases (find_commit oid)) [
          | inl (x, p) ↦ absurd (ground arith)
          | inr (c, p) ↦ elim (Result-cases (d.set r (version_tag v) oid)) [
            | inl (x, q) ↦ absurd (ground arith)
            | inr (r1, q) ↦
                one_more n m tip v vs oid oids t r r1 r' (ap (λ z. tag_ref (b'v' ∷ decimal z)) e) l
                  b q (tag_all-TagsOnly (suc m) tip vs oids t r1 r' ms (ground arith))
          ]
        ]

    -- What `append_missing_versions` leaves where every version has its commit at the end of
    -- `main`: no new commit, and the tag of each version at its commit.
    pub record IsRestored (tip : Oid) (vs : List VersionData) (oids : List Oid) (t : Option Oid)
        (r' : d.Repo) : Type 0 where
      pub chain : Chain find_commit build_tree tip vs oids
      pub at_tip : t ≡ some tip
      pub main : d.find r' main_ref ≡ some tip
      pub tagged : Tagged r' vs oids

    -- Where `main` is, the alignment with versions whose numbers grow, when it succeeds, does one
    -- of two things. Either the versions are commits at the end of `main` already: each version has
    -- the tree of its commit, each commit is the first parent of the next and the last one is the
    -- tip; then no commit is made, the tip stays, and the tag of each version is at its commit. Or
    -- they are not, and then the versions are written as new commits on the tip.
    pub append_missing_versions-Restores :
        (n : ℕ) (tip : Oid) (v : VersionData) (vs : List VersionData) (t : Option Oid)
        (r r' : d.Repo)
        → Numbered n (v ∷ vs)
        → d.find r main_ref ≡ some tip
        → append_missing_versions find_commit build_tree o d commit_version (v ∷ vs) r ≡ (ok t, r')
        → ((oids : List Oid) × IsRestored tip (v ∷ vs) oids t r')
          ⊎ (((oids : List Oid) → ¬ Chain find_commit build_tree tip (v ∷ vs) oids)
              × (build_history o d commit_version (v ∷ vs) (some tip) AuthoredMode.carry r
                  ≡ (ok t, r')))
    unfolding append_missing_versions append_onto append_or_tag
    append_missing_versions-Restores n tip v vs t r r' m f k =
        go (tail_commits find_commit build_tree tip (v ∷ vs)) refl
          (sym (ap (λ x. append_onto find_commit build_tree o d commit_version x (v ∷ vs) r) f) ∙ k)
      where
        go :
            (x : Result Str (Option (List Oid)))
            → tail_commits find_commit build_tree tip (v ∷ vs) ≡ x
            → append_or_tag find_commit build_tree o d commit_version tip (v ∷ vs) r x ≡ (ok t, r')
            → ((oids : List Oid) × IsRestored tip (v ∷ vs) oids t r')
              ⊎ (((oids : List Oid) → ¬ Chain find_commit build_tree tip (v ∷ vs) oids)
                  × (build_history o d commit_version (v ∷ vs) (some tip) AuthoredMode.carry r
                      ≡ (ok t, r')))
        go (err e) h k = absurd (let x = ap (λ p. p.0) k in ground arith)
        go (ok none) h k = inr (
          λ oids c.
              let x = sym h ∙ Chain-tail_commits find_commit build_tree tip (v ∷ vs) oids c in
              ground arith,
          k,
        )
        go (ok (some oids)) h k =
            let only = tag_all-TagsOnly n tip (v ∷ vs) oids t r r' m k in
            inl (
              oids,
              record {
                chain = tail_commits-Chain find_commit build_tree tip (v ∷ vs) oids h;
                at_tip = only.at_tip;
                main = only.main ∙ f;
                tagged = only.tagged;
              },
            )
