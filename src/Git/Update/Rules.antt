-- ===== src/Git/Update/Rules.antt =====
-- The rules on the tree of a new tip, and what `update_main` promises.
use setfork_core.Shared.{
  ℕ, ◌+◌, ◌≤◌, ◌≡◌, inl, inr, refl, ◌∙◌, true, false, none, List, [], ◌∷◌, ◌++◌, arith, length, All,
  Str, codes, byte_len, Result, ok, err, Result-cases,
}
use setfork_core.Git.Paths.{authored_dirs, tree_path_allowed}
use setfork_core.Git.Authored.{
  AuthoredTally, empty_tally, add, finish, contains_nul, authored_max_files, authored_max_bytes,
}
use setfork_core.Git.Refs.{Oid}
use setfork_core.Git.Objects.{WalkEntry, directory, leaf, TreeEntry, Objects}
use setfork_core.Git.Update.{
  shown, first_foreign_path, is_regular, entry_path, tally_entry, tally_entries, dir_entries,
  tally_dirs, authored_check, tree_check,
}

abbrev pub LeafAllowed : Result Str WalkEntry → Type 0
LeafAllowed (err e) = ⊥
LeafAllowed (ok directory) = Unit
LeafAllowed (ok (leaf dir name)) = tree_path_allowed (dir ++ shown name) ≡ true

first_foreign_path-none :
    (es : List (Result Str WalkEntry)) → first_foreign_path es ≡ ok none → All LeafAllowed es
unfolding first_foreign_path
first_foreign_path-none [] h = tt
first_foreign_path-none (err e ∷ es) h = absurd (ground arith)
first_foreign_path-none (ok directory ∷ es) h = (tt, first_foreign_path-none es h)
first_foreign_path-none (ok (leaf dir name) ∷ es) h =
    (ground arith, first_foreign_path-none es (ground arith))

All-first_foreign_path :
    (es : List (Result Str WalkEntry)) → All LeafAllowed es → first_foreign_path es ≡ ok none
unfolding first_foreign_path
All-first_foreign_path [] h = refl
All-first_foreign_path (err e ∷ es) h = absurd h.0
All-first_foreign_path (ok directory ∷ es) h = All-first_foreign_path es h.1
All-first_foreign_path (ok (leaf dir name) ∷ es) h = ground (arith, All-first_foreign_path es h.1)

module _ (o : Objects) where
  -- An entry of an author's directory that is a regular file with text in it.
  abbrev pub IsTextFile : TreeEntry → Type 0
  IsTextFile e =
      (is_regular e.filemode ≡ true)
      × (content : List ℕ) × (o.find_blob e.id ≡ ok content)
      × (contains_nul content ≡ false)

  abbrev blob_length : Result Str (List ℕ) → ℕ
  blob_length (ok content) = length content
  blob_length (err e) = 0

  pub dir_bytes : Str → List TreeEntry → ℕ
  dir_bytes dir [] = 0
  dir_bytes dir (e ∷ es) =
      blob_length (o.find_blob e.id) + byte_len (entry_path dir e) + dir_bytes dir es

  -- The files and the bytes of all directories of a list.
  unfoldable pub tree_files : o.Tree → List Str → ℕ
  tree_files tree [] = 0
  tree_files tree (dir ∷ dirs) = length (dir_entries o tree dir) + tree_files tree dirs

  pub tree_bytes : o.Tree → List Str → ℕ
  tree_bytes tree [] = 0
  tree_bytes tree (dir ∷ dirs) = dir_bytes dir (dir_entries o tree dir) + tree_bytes tree dirs

  tally_entry_sound :
      (dir : Str) (t t' : AuthoredTally) (e : TreeEntry)
      → tally_entry o dir t e ≡ ok t'
      → IsTextFile e
        × (t'.files ≡ t.files + 1)
        × (t'.bytes ≡ t.bytes + (blob_length (o.find_blob e.id) + byte_len (entry_path dir e)))
  unfolding tally_entry add
  tally_entry_sound dir t t' e h = elim (Result-cases (o.find_blob e.id)) [
    | inl (x, p) ↦ absurd (ground arith)
    | inr (content, p) ↦
        ((ground arith, content, p, ground arith), ground arith, rw p (ground arith))
  ]

  abbrev after : AuthoredTally → ℕ → ℕ → AuthoredTally
  after t n b = record { files = t.files + n; bytes = t.bytes + b }

  tally_entry_complete :
      (dir : Str) (t : AuthoredTally) (e : TreeEntry)
      → IsTextFile e
      → t.files + 1 ≤ authored_max_files
      → tally_entry o dir t e
        ≡ ok (after t 1 (blob_length (o.find_blob e.id) + byte_len (entry_path dir e)))
  unfolding tally_entry add
  tally_entry_complete dir t e (r, content, p, n) k = rw p (ground arith)

  tally_entries_sound :
      (dir : Str) (t t' : AuthoredTally) (es : List TreeEntry)
      → tally_entries o dir t es ≡ ok t'
      → All IsTextFile es
        × (t'.files ≡ t.files + length es)
        × (t'.bytes ≡ t.bytes + dir_bytes dir es)
  unfolding tally_entries dir_bytes
  tally_entries_sound dir t t' [] h = (tt, ground arith, ground arith)
  tally_entries_sound dir t t' (e ∷ es) h = elim (Result-cases (tally_entry o dir t e)) [
    | inl (x, p) ↦ absurd (ground arith)
    | inr (u, p) ↦
        let (a, f, b) = tally_entry_sound dir t u e p in
        let (rest, g, c) = tally_entries_sound dir u t' es (ground arith) in
        ((a, rest), omega (arith, f, g), omega (arith, b, c))
  ]

  tally_entries_complete :
      (dir : Str) (t : AuthoredTally) (es : List TreeEntry)
      → All IsTextFile es
      → t.files + length es ≤ authored_max_files
      → tally_entries o dir t es ≡ ok (after t (length es) (dir_bytes dir es))
  unfolding tally_entries dir_bytes
  tally_entries_complete dir t [] a k = ground arith
  tally_entries_complete dir t (e ∷ es) (a, rest) k =
      rw (tally_entry_complete dir t e a (omega arith), tally_entries)
        (tally_entries_complete dir
            (after t 1 (blob_length (o.find_blob e.id) + byte_len (entry_path dir e))) es rest
            (omega arith)
          ∙ ground arith)

  -- Every entry of the author's directories is a text file.
  abbrev pub AllText : o.Tree → List Str → Type 0
  AllText tree [] = Unit
  AllText tree (dir ∷ dirs) = All IsTextFile (dir_entries o tree dir) × AllText tree dirs

  tally_dirs_sound :
      (tree : o.Tree) (dirs : List Str) (t t' : AuthoredTally)
      → tally_dirs o tree dirs t ≡ ok t'
      → AllText tree dirs
        × (t'.files ≡ t.files + tree_files tree dirs)
        × (t'.bytes ≡ t.bytes + tree_bytes tree dirs)
  unfolding tally_dirs tree_files tree_bytes
  tally_dirs_sound tree [] t t' h = (tt, ground arith, ground arith)
  tally_dirs_sound tree (dir ∷ dirs) t t' h =
      elim (Result-cases (tally_entries o dir t (dir_entries o tree dir))) [
        | inl (x, p) ↦ absurd (ground arith)
        | inr (u, p) ↦
            let (a, f, b) = tally_entries_sound dir t u (dir_entries o tree dir) p in
            let (rest, g, c) = tally_dirs_sound tree dirs u t' (ground arith) in
            ((a, rest), omega (arith, f, g), omega (arith, b, c))
      ]

  tally_dirs_complete :
      (tree : o.Tree) (dirs : List Str) (t : AuthoredTally)
      → AllText tree dirs
      → t.files + tree_files tree dirs ≤ authored_max_files
      → tally_dirs o tree dirs t ≡ ok (after t (tree_files tree dirs) (tree_bytes tree dirs))
  unfolding tally_dirs tree_files tree_bytes
  tally_dirs_complete tree [] t a k = ground arith
  tally_dirs_complete tree (dir ∷ dirs) t (a, rest) k =
      rw (tally_entries_complete dir t (dir_entries o tree dir) a (omega arith), tally_dirs)
        (tally_dirs_complete tree dirs _ rest (omega arith) ∙ ground arith)

  -- The tree of a commit that `main` may point at: `list.json` at the root, allowed paths only, and
  -- author's files that are text, at most 50 of them, of at most 1 MiB with their paths.
  pub record IsGoodTree (tree : o.Tree) : Type 0 where
    pub canon : o.has_path tree (codes "list.json") ≡ true
    pub leaves : All LeafAllowed (o.walk tree)
    pub text : AllText tree authored_dirs
    pub few : tree_files tree authored_dirs ≤ authored_max_files
    pub small : tree_bytes tree authored_dirs ≤ authored_max_bytes

  abbrev pub IsGoodTip : Oid → Type 0
  IsGoodTip tip = (tree : o.Tree) × (o.commit_tree tip ≡ ok tree) × IsGoodTree tree

  pub tree_check_sound : (tip : Oid) → tree_check o tip ≡ ok tt → IsGoodTip tip
  unfolding tree_check authored_check finish
  tree_check_sound tip h = elim (Result-cases (o.commit_tree tip)) [
    | inl (x, p) ↦ absurd (ground arith)
    | inr (tree, p) ↦ elim (Result-cases (first_foreign_path (o.walk tree))) [
      | inl (x, q) ↦ absurd (ground arith)
      | inr (foreign, q) ↦ elim (Result-cases (tally_dirs o tree authored_dirs empty_tally)) [
        | inl (x, r) ↦ absurd (ground arith)
        | inr (t, r) ↦
            let (a, f, b) = tally_dirs_sound tree authored_dirs empty_tally t r in
            (
              tree,
              p,
              record {
                canon = ground arith;
                leaves = first_foreign_path-none (o.walk tree) (ground arith);
                text = a;
                few = ground arith;
                small = ground arith;
              },
            )
      ]
    ]
  ]

  pub tree_check_complete : (tip : Oid) → IsGoodTip tip → tree_check o tip ≡ ok tt
  unfolding tree_check authored_check finish
  tree_check_complete tip (tree, p, good) = rw p (
      rw good.canon (
        rw (All-first_foreign_path (o.walk tree) good.leaves) (
          rw
            (tally_dirs_complete tree authored_dirs empty_tally good.text (omega (arith, good.few)))
            (ground (arith, good.few, good.small)))))
