-- ===== src/Names/Bounds.antt =====
-- The names that `version_of_tag` takes for versions, and their numbers.
use setfork_core.Shared.{
  ℕ, ◌+◌, ◌-◌, ◌*◌, ◌≤◌, ◌≡◌, ◌↔◌, refl, ap, ◌∙◌, true, false, not, ◌||◌, some, [], ◌∷◌, ◌++◌,
  arith, Str, codes, all, is_ascii_digit, is_empty, strip_prefix, strip_prefix→eq,
  strip_prefix-append, Bool-cases, Option-cases, inl, inr, le→leb,
}
use setfork_core.Names.Decimal.{i32_max, parse_from}
use setfork_core.Names.Version.{version_of_tag, version_rest}

-- The number that decimal digits spell behind the digits of `acc`, however large.
pub value : ℕ → Str → ℕ
value acc [] = acc
value acc (c ∷ s) = value (acc * 10 + (c - 48)) s

value_grows : (acc : ℕ) (s : Str) → acc ≤ value acc s
unfolding value
value_grows acc [] = omega arith
value_grows acc (c ∷ s) = omega (arith, value_grows (acc * 10 + (c - 48)) s)

parse_from-value :
    (acc n : ℕ) (s : Str)
    → acc ≤ i32_max
    → parse_from acc s ≡ some n
    → (value acc s ≡ n) × (n ≤ i32_max)
unfolding parse_from value
parse_from-value acc n [] l h = (ground arith, ground arith)
parse_from-value acc n (c ∷ s) l h = ground (arith, parse_from-value (acc * 10 + (c - 48)) n s)

value-parse_from :
    (acc : ℕ) (s : Str) → value acc s ≤ i32_max → parse_from acc s ≡ some (value acc s)
unfolding parse_from value
value-parse_from acc [] h = refl
value-parse_from acc (c ∷ s) h =
    let small : acc * 10 + (c - 48) ≤ i32_max =
      omega (arith, value_grows (acc * 10 + (c - 48)) s, h) in
    rw (le→leb (acc * 10 + (c - 48)) i32_max small) (value-parse_from (acc * 10 + (c - 48)) s h)

-- `v` and decimal digits, one at least, that spell the number, which an i32 holds.
abbrev pub IsVersionName : Str → ℕ → Type 0
IsVersionName name n =
    (rest : Str) × (name ≡ codes "v" ++ rest)
    × (is_empty rest ≡ false)
    × (all is_ascii_digit rest ≡ true)
    × (value 0 rest ≡ n)
    × (n ≤ i32_max)

-- A name of a tag stands for a version exactly when it is `v` and decimal digits, one at least,
-- whose number is at most the greatest i32, and it stands for that number: no sign, no second `v`,
-- and no number that wraps around.
pub version_of_tag_iff :
    (name : Str) (n : ℕ) → (version_of_tag name ≡ some n) ↔ IsVersionName name n
unfolding version_of_tag version_rest strip_prefix
version_of_tag_iff name n = (
  λ h. elim (Option-cases (strip_prefix name (codes "v"))) [
    | inl e ↦ absurd (ground arith)
    | inr (rest, e) ↦ elim (Bool-cases (is_empty rest || not (all is_ascii_digit rest))) [
      | inl b ↦ absurd (ground arith)
      | inr b ↦
          let (v, l) = parse_from-value 0 n rest (omega arith) (ground arith) in
          (rest, strip_prefix→eq name (codes "v") e, ground arith, ground arith, v, l)
    ]
  ],
  λ (rest, e, a, b, v, l).
      let p : strip_prefix name (codes "v") ≡ some rest =
        ap (λ x. strip_prefix x (codes "v")) e ∙ strip_prefix-append (codes "v") rest in
      rw (p, a, b) (value-parse_from 0 rest (omega (arith, v, l)) ∙ ap some v),
)
