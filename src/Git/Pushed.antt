-- ===== src/Git/Pushed.antt =====
-- `pushed_texts` of git/project.rs with `tree_blobs` and `blob_text`: the texts that a push brings,
-- which the hook sends to the search for keys. `sh_git`, which runs the git process, is an
-- argument; it gives the output as text, as `from_utf8_lossy` reads it. NUL, TAB and the ends of
-- lines are ASCII, so the text splits where the bytes do. The names of commits are hexadecimal, so
-- their first eight bytes are eight characters.
mod Tests
pub mod Complete
pub mod Laws
pub mod Listing
pub mod Searched
use setfork_core.Shared.{
  ℕ, zero, suc, Bool, true, false, ◌&&◌, ◌||◌, ◌==◌, not, Option, none, some, List, [], ◌∷◌, ◌++◌,
  Str, codes, str_eq, is_empty, any, Result, ok, err, ◌>>=◌, if◌then◌else◌,
}
use setfork_core.Gate.Ask.{PushedText}

abbrev onto_first : ℕ → List Str → List Str
onto_first c [] = (c ∷ []) ∷ []
onto_first c (l ∷ ls) = (c ∷ l) ∷ ls

-- `split(sep)`
unfoldable pub split_on : ℕ → Str → List Str
split_on sep [] = [] ∷ []
split_on sep (c ∷ s) =
    let rest = split_on sep s in if c == sep then [] ∷ rest else onto_first c rest

abbrev behind : ℕ → Option (Str × Str) → Option (Str × Str)
behind c none = none
behind c (some (a, b)) = some (c ∷ a, b)

-- `split_once(sep)`
unfoldable pub split_once : ℕ → Str → Option (Str × Str)
split_once sep [] = none
split_once sep (c ∷ s) =
    let rest = split_once sep s in if c == sep then some ([], s) else behind c rest

unfoldable pub strip_return : Str → Str
strip_return [] = []
strip_return (c ∷ []) = if c == 13 then [] else c ∷ []
strip_return (c ∷ d ∷ s) = c ∷ strip_return (d ∷ s)

-- A return in front of the end of a line belongs to the end.
unfoldable pub ended_lines : List Str → List Str
unfolding strip_return
ended_lines [] = []
ended_lines (l ∷ []) = l ∷ []
ended_lines (l ∷ m ∷ ls) = strip_return l ∷ ended_lines (m ∷ ls)

unfoldable pub not_empty : List Str → List Str
not_empty [] = []
not_empty (l ∷ ls) = let rest = not_empty ls in if is_empty l then rest else l ∷ rest

-- `lines().filter(|l| !l.is_empty())`
unfoldable pub full_lines : Str → List Str
unfolding split_on ended_lines not_empty
full_lines s = not_empty (ended_lines (split_on 10 s))

-- An entry `<mode> <kind> <object>\t<path>` of a blob.
abbrev pub blob_of : List Str → Str → Option (Str × Str)
blob_of (mode ∷ kind ∷ oid ∷ more) path =
    if str_eq kind (codes "blob") then some (path, oid) else none
blob_of _ path = none

abbrev pub split_entry : Option (Str × Str) → Option (Str × Str)
unfolding split_on
split_entry none = none
split_entry (some (meta, path)) = blob_of (split_on 32 meta) path

abbrev pub with_entry : Option (Str × Str) → List (Str × Str) → List (Str × Str)
with_entry none rest = rest
with_entry (some e) rest = e ∷ rest

unfoldable pub blobs : List Str → List (Str × Str)
unfolding split_once split_on
blobs [] = []
blobs (e ∷ es) = with_entry (split_entry (split_once 9 e)) (blobs es)

abbrev pub specs : List Str
specs =
    codes "list.json"
    ∷ codes "README.md"
    ∷ codes "steps/"
    ∷ codes "scripts/"
    ∷ codes "references/"
    ∷ codes "assets/"
    ∷ []

abbrev pub contains : List Str → Str → Bool
contains oids oid = any (str_eq oid) oids

-- `tip.get(&path)`: the last entry of a path counts.
abbrev pub tip_object : List (Str × Str) → Str → Option Str
tip_object [] path = none
tip_object ((p, oid) ∷ es) path = elim (tip_object es path) [
  | some later ↦ some later
  | none ↦ if str_eq p path then some oid else none
]

abbrev same_object : Option Str → Str → Bool
same_object none oid = false
same_object (some o) oid = str_eq o oid

unfoldable pub take : ℕ → Str → Str
take zero s = []
take (suc n) [] = []
take (suc n) (c ∷ s) = c ∷ take n s

unfoldable pub label : List (Str × Str) → Str → Str → Str → Str
unfolding take
label tip commit path oid =
    if same_object (tip_object tip path) oid then path else path ++ codes "@" ++ take 8 commit

abbrev succeeds : Result Str Str → Bool
succeeds (ok out) = true
succeeds (err e) = false

abbrev pub Found : Type 0
Found = List PushedText × List Str

module _ (sh_git : List Str → Result Str Str) where
  unfoldable pub tree_blobs : Str → Result Str (List (Str × Str))
  unfolding blobs split_on not_empty
  tree_blobs commit = do
    listing ← sh_git (codes "ls-tree" ∷ codes "-z" ∷ commit ∷ codes "--" ∷ specs)
    ok (blobs (not_empty (split_on 0 listing)))

  unfoldable pub blob_text : Str → Result Str Str
  blob_text oid = sh_git (codes "cat-file" ∷ codes "blob" ∷ oid ∷ [])

  abbrev pub objects : List (Str × Str) → List Str
  objects [] = []
  objects ((path, oid) ∷ es) = oid ∷ objects es

  unfoldable pub inherited_from : List Str → Result Str (List Str)
  unfolding tree_blobs
  inherited_from [] = ok []
  inherited_from (p ∷ ps) = do es ← tree_blobs p; rest ← inherited_from ps; ok (objects es ++ rest)

  -- `inherited` of a commit
  unfoldable pub inherited : Str → Result Str (List Str)
  unfolding inherited_from full_lines
  inherited commit = do
    parents ← sh_git (codes "rev-parse" ∷ (commit ++ codes "^@") ∷ [])
    inherited_from (full_lines parents)

  -- The texts of the blobs of a commit, and `seen` behind them.
  unfoldable pub add_blobs :
      List (Str × Str) → Str → List Str → List (Str × Str) → List Str → Result Str Found
  unfolding blob_text label
  add_blobs tip commit old [] seen = ok ([], seen)
  add_blobs tip commit old ((path, oid) ∷ es) seen = elim (contains old oid || contains seen oid) [
    | true ↦ add_blobs tip commit old es seen
    | false ↦ do
      text ← blob_text oid
      (out, seen') ← add_blobs tip commit old es (oid ∷ seen)
      ok ((label tip commit path oid, text) ∷ out, seen')
  ]

  unfoldable pub add_commits : List (Str × Str) → List Str → List Str → Result Str (List PushedText)
  unfolding inherited tree_blobs add_blobs
  add_commits tip [] seen = ok []
  add_commits tip (c ∷ cs) seen = do
    old ← inherited c
    es ← tree_blobs c
    (out, seen') ← add_blobs tip c old es seen
    rest ← add_commits tip cs seen'
    ok (out ++ rest)

  -- `rev-list <commit> --not main`, or all of it where there is no main.
  unfoldable pub new_commits : Str → Result Str (List Str)
  unfolding full_lines
  new_commits commit = do
    listing ← sh_git (
        codes "rev-list"
        ∷ commit
        ∷ (if succeeds (
              sh_git
                (codes "rev-parse" ∷ codes "--verify" ∷ codes "-q" ∷ codes "refs/heads/main" ∷ []))
            then codes "--not" ∷ codes "refs/heads/main" ∷ []
            else []))
    ok (full_lines listing)

  abbrev pub pushed_from : Str → Result Str (List PushedText)
  unfolding tree_blobs new_commits add_commits
  pushed_from commit = do
    tip ← tree_blobs commit
    commits ← new_commits commit
    add_commits tip commits []

  unfoldable pub pushed_texts : Str → Result Str (List PushedText)
  pushed_texts commit = if is_empty commit then ok [] else pushed_from commit
