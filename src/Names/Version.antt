-- ===== src/Names/Version.antt =====
-- `version_of_tag` and `max_tag_in` of git/bundle.rs, and `is_version_tag` of
-- services/git_core/names.rs.
use setfork_core.Shared.{
  ℕ, ◌≤◌, ◌≡◌, refl, ap, ◌∙◌, ◌⊎◌, All, unwrap_or, inl, inr, Bool, not, ◌||◌, Option, none, some,
  List, [], ◌∷◌, ◌++◌, arith, max, Str, codes, if◌then◌else◌, all, In, is_ascii_digit, is_empty,
  is_some, strip_prefix, Option-cases,
}
use native.Mathlib.Decide.{dec_le}
use setfork_core.Names.Decimal.{
  i32_max, parse_from, digits, parse_from-digits, digits-IsDigits, digits-ne-nil,
}

-- `!rest.bytes().all(is_ascii_digit)`: a byte of a longer sequence is no digit, as its code point.
unfoldable pub version_rest : Str → Option ℕ
version_rest rest =
    if is_empty rest || not (all is_ascii_digit rest) then none else parse_from 0 rest

unfoldable pub version_of_tag : Str → Option ℕ
unfolding version_rest
version_of_tag name = elim (strip_prefix name (codes "v")) [
  | none ↦ none
  | some rest ↦ version_rest rest
]

unfoldable pub is_version_tag : Str → Bool
is_version_tag name = is_some (version_of_tag name)

-- `format!("v{n}")`
abbrev pub tag_name : ℕ → Str
tag_name n = codes "v" ++ digits n

-- The loop of `max_tag_in` over the names that the repository lists.
abbrev max_with : ℕ → Option ℕ → ℕ
max_with acc none = acc
max_with acc (some n) = max acc n

unfoldable pub max_from : ℕ → List Str → ℕ
max_from acc [] = acc
max_from acc (name ∷ names) = max_from (max_with acc (version_of_tag name)) names

unfoldable pub max_tag_in : List Str → ℕ
unfolding max_from
max_tag_in names = max_from 0 names

version_rest-digits : (n : ℕ) → n ≤ i32_max → version_rest (digits n) ≡ some n
unfolding version_rest
version_rest-digits n h = ground (arith, parse_from-digits n h, digits-IsDigits n, digits-ne-nil n)

-- The name `v<n>` of a version's tag is read back as that version, for every number that an i32
-- holds, so the name is reserved.
pub version_of_tag-tag_name : (n : ℕ) → n ≤ i32_max → version_of_tag (tag_name n) ≡ some n
unfolding version_of_tag strip_prefix
version_of_tag-tag_name n h = version_rest-digits n h

max_from-bound : (acc : ℕ) (names : List Str) → acc ≤ max_from acc names
unfolding max_from
max_from-bound acc [] = omega arith
max_from-bound acc (name ∷ names) = elim (Option-cases (version_of_tag name)) [
  | inl e ↦ rw e (max_from-bound acc names)
  | inr (n, e) ↦ rw e (omega (arith, max_from-bound (max acc n) names))
]

-- The greatest version of a list: it stands there, or it is the value that the loop began with.
abbrev pub IsGreatest : ℕ → List Str → ℕ → Type 0
IsGreatest start names v =
    (v ≡ start) ⊎ ((name : Str) × In name names × (version_of_tag name ≡ some v))

IsGreatest-skip :
    (acc v : ℕ) (x : Str) (names : List Str) → IsGreatest acc names v → IsGreatest acc (x ∷ names) v
IsGreatest-skip acc v x names (inl e) = inl e
IsGreatest-skip acc v x names (inr (m, i, e)) = inr (m, inr i, e)

IsGreatest-take :
    (acc n v : ℕ) (x : Str) (names : List Str)
    → version_of_tag x ≡ some n
    → IsGreatest (max acc n) names v
    → IsGreatest acc (x ∷ names) v
IsGreatest-take acc n v x names e (inr (m, i, f)) = inr (m, inr i, f)
IsGreatest-take acc n v x names e (inl f) = elim (dec_le n acc) [
  | yes h ↦ inl (omega arith)
  | no h ↦ inr (x, inl refl, e ∙ ap some (omega arith))
]

max_from-IsGreatest : (acc : ℕ) (names : List Str) → IsGreatest acc names (max_from acc names)
unfolding max_from
max_from-IsGreatest acc [] = inl refl
max_from-IsGreatest acc (x ∷ names) = elim (Option-cases (version_of_tag x)) [
  | inl e ↦ rw e (IsGreatest-skip acc _ x names (max_from-IsGreatest acc names))
  | inr (n, e) ↦ rw e (IsGreatest-take acc n _ x names e (max_from-IsGreatest (max acc n) names))
]

-- No listed name stands for a version above `v`.
abbrev pub IsUpper : ℕ → List Str → Type 0
IsUpper v names = All (λ name. unwrap_or (version_of_tag name) 0 ≤ v) names

max_from-above :
    (acc : ℕ) (v : Option ℕ) (names : List Str) → unwrap_or v 0 ≤ max_from (max_with acc v) names
max_from-above acc none names = omega arith
max_from-above acc (some n) names = omega (arith, max_from-bound (max acc n) names)

max_from-IsUpper : (acc : ℕ) (names : List Str) → IsUpper (max_from acc names) names
unfolding max_from
max_from-IsUpper acc [] = tt
max_from-IsUpper acc (x ∷ names) = (
  max_from-above acc (version_of_tag x) names,
  max_from-IsUpper (max_with acc (version_of_tag x)) names,
)

-- `max_tag_in` is the greatest version that a listed name stands for, and 0 where no name stands
-- for one: no such version is above it, and it is 0 or the version of a listed name.
pub max_tag_in-IsGreatest :
    (names : List Str) → IsUpper (max_tag_in names) names × IsGreatest 0 names (max_tag_in names)
unfolding max_tag_in
max_tag_in-IsGreatest names = (max_from-IsUpper 0 names, max_from-IsGreatest 0 names)
