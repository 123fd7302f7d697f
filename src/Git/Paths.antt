-- ===== src/Git/Paths.antt =====
-- `tree_path_allowed` and `authored_path` of git/serialize.rs: the paths that a list's tree may
-- hold.
use mathlib.Core.List.{reverse, reverse-reverse, reverse-append}
use setfork_core.Shared.{
  ◌≡◌, ◌≢◌, ◌↔◌, ◌⊎◌, inl, inr, refl, sym, ap, ap₂, ◌∙◌, subst, Bool, true, false, not, ◌&&◌, ◌||◌,
  Option, none, some, List, [], ◌∷◌, ◌++◌, arith, Str, codes, str_eq, str_eq_iff, is_empty,
  strip_prefix, strip_prefix→eq, strip_prefix-append, contains_char, any, any→In, In→any, In,
  and_then, is_some_and, Option-cases, or_cases, str_eq→eq, str_eq_refl,
}

-- `AUTHORED_DIRS`
abbrev pub authored_dirs : List Str
authored_dirs = codes "scripts" ∷ codes "references" ∷ codes "assets" ∷ []

-- The test on the name behind the directory.
unfoldable pub name_ok : Str → Bool
name_ok name =
    not (is_empty name)
    && not (contains_char name b'/')
    && not (str_eq name (codes "."))
    && not (str_eq name (codes ".."))

unfoldable pub in_dir : Str → Str → Bool
in_dir path dir =
    is_some_and (and_then (strip_prefix path dir) (λ rest. strip_prefix rest (codes "/"))) name_ok

unfoldable pub authored_path : Str → Bool
unfolding in_dir
authored_path path = any (in_dir path) authored_dirs

-- `s.strip_suffix(p)`
abbrev reverse_opt : Option Str → Option Str
reverse_opt none = none
reverse_opt (some s) = some (reverse s)

unfoldable pub strip_suffix : Str → Str → Option Str
strip_suffix s p = reverse_opt (strip_prefix (reverse s) (reverse p))

stem_ok : Str → Bool
stem_ok stem = not (is_empty stem) && not (contains_char stem b'/')

unfoldable pub legacy_step : Str → Bool
unfolding stem_ok
legacy_step path =
    is_some_and
      (and_then (strip_prefix path (codes "steps/")) (λ name. strip_suffix name (codes ".md")))
      stem_ok

-- The files that the core writes itself.
abbrev pub root_files : List Str
root_files = codes "README.md" ∷ codes "list.json" ∷ codes ".gitattributes" ∷ []

unfoldable pub tree_path_allowed : Str → Bool
tree_path_allowed path =
    any (λ f. str_eq path f) root_files || (authored_path path || legacy_step path)

-- A file name: not empty, no directory in it, neither of the two dot names.
abbrev pub IsFileName : Str → Type 0
IsFileName name =
    (name ≢ []) × (contains_char name b'/' ≡ false) × (name ≢ codes ".") × (name ≢ codes "..")

name_ok_iff : (name : Str) → (name_ok name ≡ true) ↔ IsFileName name
unfolding name_ok
name_ok_iff name =
    ground (arith, str_eq_iff name (codes "."), str_eq_iff name (codes ".."), empty_iff name)
  where
    empty_iff : (s : Str) → (is_empty s ≡ true) ↔ (s ≡ [])
    empty_iff [] = (λ h. refl, λ h. refl)
    empty_iff (c ∷ s) = (λ h. cc, λ h. cc)

-- A path of an author's file in a directory.
abbrev pub IsIn : Str → Str → Type 0
IsIn dir path = (name : Str) × (path ≡ dir ++ (codes "/" ++ name)) × IsFileName name

in_dir-IsIn : (path dir : Str) → in_dir path dir ≡ true → IsIn dir path
unfolding in_dir
in_dir-IsIn path dir h = elim (Option-cases (strip_prefix path dir)) [
  | inl e ↦ absurd (ground arith)
  | inr (rest, e) ↦ elim (Option-cases (strip_prefix rest (codes "/"))) [
    | inl f ↦ absurd (ground arith)
    | inr (name, f) ↦ (
      name,
      strip_prefix→eq path dir e ∙ ap (λ r. dir ++ r) (strip_prefix→eq rest (codes "/") f),
      (name_ok_iff name).0 (ground arith),
    )
  ]
]

IsIn-in_dir : (path dir : Str) → IsIn dir path → in_dir path dir ≡ true
unfolding in_dir
IsIn-in_dir path dir (name, e, k) = rw e (
    rw (strip_prefix-append dir (codes "/" ++ name))
      (unfold strip_prefix in (name_ok_iff name).1 k))

-- A path is an author's file exactly when it is one file name directly in `scripts`, `references`
-- or `assets`: no nested directory, no dot name, nothing at the root.
pub authored_path_iff :
    (path : Str)
    → (authored_path path ≡ true) ↔ ((dir : Str) × In dir authored_dirs × IsIn dir path)
unfolding authored_path
authored_path_iff path = (
  λ h. let (dir, i, e) = any→In (in_dir path) authored_dirs h in (dir, i, in_dir-IsIn path dir e),
  λ (dir, i, k). In→any (in_dir path) dir authored_dirs i (IsIn-in_dir path dir k),
)

strip_suffix→eq : (s p : Str) {r : Str} → strip_suffix s p ≡ some r → s ≡ r ++ p
unfolding strip_suffix
strip_suffix→eq s p {r} h = elim (Option-cases (strip_prefix (reverse s) (reverse p))) [
  | inl e ↦ absurd (ground arith)
  | inr (q, e) ↦
      sym (reverse-reverse s)
      ∙ ap reverse (strip_prefix→eq (reverse s) (reverse p) e)
      ∙ reverse-append (reverse p) q
      ∙ ap₂ (λ a b. a ++ b) (ground arith) (reverse-reverse p)
]

strip_suffix-append : (r p : Str) → strip_suffix (r ++ p) p ≡ some r
unfolding strip_suffix
strip_suffix-append r p =
    rw (reverse-append r p)
      (rw (strip_prefix-append (reverse p) (reverse r)) (ap some (reverse-reverse r)))

-- A path of the old format, `steps/<stem>.md`.
abbrev pub IsLegacyStep : Str → Type 0
IsLegacyStep path =
    (stem : Str) × (path ≡ codes "steps/" ++ (stem ++ codes ".md"))
    × (stem ≢ [])
    × (contains_char stem b'/' ≡ false)

stem_ok_iff : (s : Str) → (stem_ok s ≡ true) ↔ ((s ≢ []) × (contains_char s b'/' ≡ false))
unfolding stem_ok
stem_ok_iff [] = (λ h. cc, λ (h, k). absurd (h refl))
stem_ok_iff (c ∷ s) = (λ h. (λ e. cc, ground arith), λ (h, k). ground arith)

legacy_step→IsLegacyStep : (path : Str) → legacy_step path ≡ true → IsLegacyStep path
unfolding legacy_step
legacy_step→IsLegacyStep path h = elim (Option-cases (strip_prefix path (codes "steps/"))) [
  | inl e ↦ absurd (ground arith)
  | inr (rest, e) ↦ elim (Option-cases (strip_suffix rest (codes ".md"))) [
    | inl f ↦ absurd (ground arith)
    | inr (stem, f) ↦
        let k = (stem_ok_iff stem).0 (ground arith) in
        (
          stem,
          strip_prefix→eq path (codes "steps/") e
              ∙ ap (λ r. codes "steps/" ++ r) (strip_suffix→eq rest (codes ".md") f),
          k.0,
          k.1,
        )
  ]
]

IsLegacyStep→legacy_step : (path : Str) → IsLegacyStep path → legacy_step path ≡ true
unfolding legacy_step
IsLegacyStep→legacy_step path (stem, e, n, k) = rw e (
    unfold strip_prefix in
    rw (strip_suffix-append stem (codes ".md")) ((stem_ok_iff stem).1 (n, k)))

-- The paths of a list's tree are the three files of a version, the author's files one level deep in
-- their three directories, and the step files of the old format; no other path is allowed.
pub tree_path_allowed_iff :
    (path : Str)
    → (tree_path_allowed path ≡ true) ↔ (
        In path root_files
        ⊎ ((dir : Str) × In dir authored_dirs × IsIn dir path)
        ⊎ IsLegacyStep path)
unfolding tree_path_allowed
tree_path_allowed_iff path = (
  λ h. elim (or_cases (any (λ f. str_eq path f) root_files) _ h) [
    | inl e ↦
        let (f, i, k) = any→In (λ f. str_eq path f) root_files e in
        inl (subst (λ p. In p root_files) (sym (str_eq→eq path f k)) i)
    | inr more ↦ elim (or_cases (authored_path path) _ more) [
      | inl e ↦ inr (inl ((authored_path_iff path).0 e))
      | inr e ↦ inr (inr (legacy_step→IsLegacyStep path e))
    ]
  ],
  λ h. elim h [
    | inl i ↦
        let root = In→any (λ f. str_eq path f) path root_files i (str_eq_refl path) in
        ground (arith, root)
    | inr more ↦ elim more [
      | inl a ↦ let e = (authored_path_iff path).1 a in ground (arith, e)
      | inr l ↦ let e = IsLegacyStep→legacy_step path l in ground (arith, e)
    ]
  ],
)
