-- ===== src/Git/Pushed/Laws.antt =====
-- What git documents of the calls of `pushed_texts`: `rev-list`, `rev-parse <commit>^@` and
-- `ls-tree -z`.
use setfork_core.Shared.{
  ◌≡◌, Bool, true, false, not, ◌&&◌, ◌||◌, some, List, [], ◌∷◌, ◌++◌, Str, codes, str_eq,
  strip_prefix, ends_with_char, contains_char, is_empty, is_some_and, any, In, Result, ok,
}
use setfork_core.Git.Pushed.{split_on, split_once, ended_lines}

-- A repository, by the names of commits and blobs: which commits a name reaches, the parents of a
-- commit, and the blobs of its tree with their paths.
pub record Repository : Type 1 where
  pub Reaches : Str → Str → Type 0
  pub IsParent : Str → Str → Type 0
  pub Holds : Str → Str → Str → Type 0

-- A path of `ls-tree`: a file by its name, or, behind a slash, what stands directly in a directory.
abbrev pub matches : Str → Str → Bool
matches path spec =
    str_eq path spec
    || (ends_with_char spec b'/'
        && is_some_and (strip_prefix path spec) (λ name. not (contains_char name b'/')))

-- `<mode> blob <object>\t<path>`
abbrev pub IsEntry : Str → Str → Str → Type 0
IsEntry e path oid =
    (meta : Str) × (mode : Str) × (more : List Str) × (split_once 9 e ≡ some (meta, path))
    × (split_on 32 meta ≡ mode ∷ codes "blob" ∷ oid ∷ more)

abbrev pub lines : Str → List Str
lines out = ended_lines (split_on 10 out)

pub record Documented (g : Repository) (sh_git : List Str → Result Str Str) : Type 0 where
  pub rev_list :
      (a c out : Str)
      → sh_git (codes "rev-list" ∷ a ∷ []) ≡ ok out
      → g.Reaches a c
      → In c (lines out) × (is_empty c ≡ false)
  pub rev_list_not :
      (a b c out : Str)
      → sh_git (codes "rev-list" ∷ a ∷ codes "--not" ∷ b ∷ []) ≡ ok out
      → g.Reaches a c
      → ¬ g.Reaches b c
      → In c (lines out) × (is_empty c ≡ false)
  pub rev_parse :
      (c p out : Str)
      → sh_git (codes "rev-parse" ∷ (c ++ codes "^@") ∷ []) ≡ ok out
      → In p (lines out)
      → is_empty p ≡ false
      → g.IsParent c p
  pub listed :
      (c path oid out : Str) (specs : List Str)
      → sh_git (codes "ls-tree" ∷ codes "-z" ∷ c ∷ codes "--" ∷ specs) ≡ ok out
      → g.Holds c path oid
      → any (matches path) specs ≡ true
      → (e : Str) × In e (split_on 0 out) × IsEntry e path oid
  pub only_listed :
      (c path oid out e : Str) (specs : List Str)
      → sh_git (codes "ls-tree" ∷ codes "-z" ∷ c ∷ codes "--" ∷ specs) ≡ ok out
      → In e (split_on 0 out)
      → IsEntry e path oid
      → g.Holds c path oid
