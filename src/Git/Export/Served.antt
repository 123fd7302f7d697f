-- ===== src/Git/Export/Served.antt =====
-- What the tree rules accept, the export serves.
use setfork_core.Shared.{
  ℕ, ◌≤◌, ◌≡◌, refl, sym, ap, ◌∙◌, some, List, [], ◌∷◌, ◌++◌, Str, In, In-left, In-right, All,
  Result, ok, arith, length, length-append, ok_injective, Option-cases, inl, inr, subst,
}
use setfork_core.Git.Paths.{authored_dirs}
use setfork_core.Git.Authored.{authored_max_files}
use setfork_core.Git.Refs.{Oid}
use setfork_core.Git.Objects.{TreeEntry, Objects}
use setfork_core.Git.Update.{dir_entries, tree_check}
use setfork_core.Git.Update.Rules.{IsTextFile, AllText, tree_files, tree_check_sound}
use setfork_core.Git.Export.{
  AuthoredFile, file_at, entry_files, dir_files, tree_files_of, authored_files,
}

module _ (o : Objects) where
  -- An entry with a UTF-8 name is among the files, with its bytes and its mode.
  abbrev pub IsServed : List AuthoredFile → Str → TreeEntry → Type 0
  IsServed fs dir e =
      (name : Str)
      → e.name ≡ some name
      → (content : List ℕ) × (o.find_blob e.id ≡ ok content)
        × In (file_at dir name e.filemode content) fs

  -- The result of a part of the walk: files, no more than entries, with each entry among them.
  record Gives (dir : Str) (es : List TreeEntry) (m : Result Str (List AuthoredFile)) : Type 0 where
    files : List AuthoredFile
    result : m ≡ ok files
    few : length files ≤ length es
    served : (e : TreeEntry) → In e es → IsServed files dir e

  wider :
      (a b : List AuthoredFile) (dir : Str) (e : TreeEntry)
      → IsServed a dir e
      → IsServed (a ++ b) dir e
  wider a b dir e s name n = let (content, p, i) = s name n in (content, p, In-left _ a b i)

  later :
      (a b : List AuthoredFile) (dir : Str) (e : TreeEntry)
      → IsServed b dir e
      → IsServed (a ++ b) dir e
  later a b dir e s name n = let (content, p, i) = s name n in (content, p, In-right _ a b i)

  entry_files-Gives :
      (dir : Str) (e : TreeEntry)
      → IsTextFile o e
      → (fs : List AuthoredFile) × (entry_files o dir e ≡ ok fs)
        × (length fs ≤ 1)
        × IsServed fs dir e
  unfolding entry_files
  entry_files-Gives dir e (r, content, p, z) = elim (Option-cases e.name) [
    | inl n ↦ ([], rw (r, n) refl, omega arith, λ name m. absurd (ground arith))
    | inr (name, n) ↦ (
      file_at dir name e.filemode content ∷ [],
      rw (r, n, p) refl,
      omega arith,
      λ other m. (
        content,
        p,
        inl (
            let same : other ≡ name = ground arith in
            ap (λ x. file_at dir x e.filemode content) same),
      ),
    )
  ]

  dir_files-Gives :
      (dir : Str) (es : List TreeEntry) → All (IsTextFile o) es → Gives dir es (dir_files o dir es)
  unfolding dir_files
  dir_files-Gives dir [] a = record {
    files = [];
    result = refl;
    few = omega arith;
    served = λ e i. absurd i;
  }
  dir_files-Gives dir (e ∷ es) (a, b) =
      let (fs, p, l, s) = entry_files-Gives dir e a in
      let rest = dir_files-Gives dir es b in
      record {
        files = fs ++ rest.files;
        result = rw (p, rest.result) refl;
        few = omega (arith, length-append fs rest.files, rest.few);
        served = λ x i. elim i [
          | inl h ↦ wider fs rest.files dir x (subst (IsServed fs dir) (sym h) s)
          | inr j ↦ later fs rest.files dir x (rest.served x j)
        ];
      }

  tree_files_of-Gives :
      (tree : o.Tree) (dirs : List Str)
      → AllText o tree dirs
      → (fs : List AuthoredFile) × (tree_files_of o tree dirs ≡ ok fs)
        × (length fs ≤ tree_files o tree dirs)
        × ((dir : Str) (e : TreeEntry)
            → In dir dirs
            → In e (dir_entries o tree dir)
            → IsServed fs dir e)
  unfolding tree_files_of tree_files
  tree_files_of-Gives tree [] a = ([], refl, omega arith, λ dir e i j. absurd i)
  tree_files_of-Gives tree (d ∷ ds) (a, b) =
      let one = dir_files-Gives d (dir_entries o tree d) a in
      let (fs, p, l, s) = tree_files_of-Gives tree ds b in
      (
        one.files ++ fs,
        rw (one.result, p) refl,
        omega (arith, length-append one.files fs, one.few),
        λ dir e i j. elim i [
          | inl h ↦ wider one.files fs dir e (
              subst (λ x. IsServed one.files x e) (sym h)
                (one.served e (subst (λ x. In e (dir_entries o tree x)) h j)))
          | inr k ↦ later one.files fs dir e (s dir e k j)
        ],
      )

  -- A tree that the rules of `main` accept is exported: the reading of the author's files gives
  -- files, at most as many as a version may have, and each entry of the author's directories whose
  -- name is UTF-8 is one of them, with its bytes and its mode.
  pub authored_files-IsServed :
      (commit : Oid) (tree : o.Tree)
      → o.commit_tree commit ≡ ok tree
      → tree_check o commit ≡ ok tt
      → (fs : List AuthoredFile) × (authored_files o commit ≡ ok fs)
        × (length fs ≤ authored_max_files)
        × ((dir : Str) (e : TreeEntry)
            → In dir authored_dirs
            → In e (dir_entries o tree dir)
            → IsServed fs dir e)
  unfolding authored_files
  authored_files-IsServed commit tree p h =
      let (tree', p', good) = tree_check_sound o commit h in
      let same = ok_injective tree' tree (sym p' ∙ p) in
      let few = subst (λ x. tree_files o x authored_dirs ≤ authored_max_files) same good.few in
      let (fs, q, l, s) =
        tree_files_of-Gives tree authored_dirs
          (subst (λ x. AllText o x authored_dirs) same good.text) in
      (fs, rw (p, q) refl, omega (arith, l, few), s)
