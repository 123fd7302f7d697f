-- ===== src/Canon/Readme/Collapse.antt =====
-- The `while` of `readme` ends, and no two blank lines in a row are left.
use setfork_core.Shared.{
  ℕ, zero, suc, ◌+◌, ◌-◌, ◌≤◌, ◌<◌, ◌≡◌, refl, ap, true, false, [], ◌∷◌, Str, codes, starts_with,
  contains_str, strip_prefix, strip_prefix→eq, length, length-append, arith, Option-cases, inl, inr,
}
use setfork_core.Canon.Readme.{replace_from, replace}
use setfork_core.Canon.Readme.Page.{collapse_fuel, collapse}

starts_with-le : (s p : Str) → starts_with s p ≡ true → length p ≤ length s
starts_with-le s p h = elim (Option-cases (strip_prefix s p)) [
  | inl e ↦ absurd (ground arith)
  | inr (t, e) ↦ omega (arith, length-append p t, ap length (strip_prefix→eq s p e))
]

-- A text replaced by a shorter one.
module _ (p r : Str) (shorter : length r < length p) where
  replace_from-le :
      (skip : ℕ) (s : Str) → skip ≤ length s → length (replace_from p r skip s) + skip ≤ length s
  unfolding replace_from
  replace_from-le skip [] h = omega arith
  replace_from-le (suc skip) (c ∷ s) h = omega (arith, replace_from-le skip s (omega arith))
  replace_from-le zero (c ∷ s) h = ground (
    arith,
    starts_with-le (c ∷ s) p,
    length-append r (replace_from p r (length p - 1) s),
    replace_from-le (length p - 1) s,
    replace_from-le zero s,
  )

  replace_from-lt : (s : Str) → contains_str s p ≡ true → length (replace_from p r 0 s) < length s
  unfolding replace_from contains_str
  replace_from-lt [] h = absurd (ground (arith, starts_with-le [] p))
  replace_from-lt (c ∷ s) h = ground (
    arith,
    starts_with-le (c ∷ s) p,
    length-append r (replace_from p r (length p - 1) s),
    replace_from-le (length p - 1) s,
    replace_from-lt s,
  )

replace-lt :
    (s : Str)
    → contains_str s (codes "\n\n\n") ≡ true
    → length (replace s (codes "\n\n\n") (codes "\n\n")) < length s
unfolding replace
replace-lt s h = replace_from-lt (codes "\n\n\n") (codes "\n\n") (omega arith) s h

collapse_fuel-clear :
    (fuel : ℕ) (s : Str)
    → length s ≤ fuel
    → contains_str (collapse_fuel fuel s) (codes "\n\n\n") ≡ false
unfolding collapse_fuel contains_str strip_prefix
collapse_fuel-clear zero [] h = refl
collapse_fuel-clear zero (c ∷ s) h = absurd (omega arith)
collapse_fuel-clear (suc fuel) s h =
    ground
      (arith, replace-lt s, collapse_fuel-clear fuel (replace s (codes "\n\n\n") (codes "\n\n")))

-- Any two amounts of fuel that are enough give the same text.
collapse_fuel_unique :
    (f g : ℕ) (s : Str) → length s ≤ f → length s ≤ g → collapse_fuel f s ≡ collapse_fuel g s
unfolding collapse_fuel contains_str strip_prefix
collapse_fuel_unique zero zero s h k = refl
collapse_fuel_unique zero (suc g) [] h k = refl
collapse_fuel_unique (suc f) zero [] h k = refl
collapse_fuel_unique zero (suc g) (c ∷ s) h k = absurd (omega arith)
collapse_fuel_unique (suc f) zero (c ∷ s) h k = absurd (omega arith)
collapse_fuel_unique (suc f) (suc g) s h k =
    ground
      (arith, replace-lt s, collapse_fuel_unique f g (replace s (codes "\n\n\n") (codes "\n\n")))

-- The loop that takes blank lines out ends with the fuel it is given: more fuel changes nothing,
-- and no two blank lines in a row are left.
pub collapse-Ends :
    (s : Str) (more : ℕ)
    → (collapse_fuel (length s + more) s ≡ collapse s)
      × (contains_str (collapse s) (codes "\n\n\n") ≡ false)
unfolding collapse
collapse-Ends s more = (
  collapse_fuel_unique (length s + more) (length s) s (omega arith) (omega arith),
  collapse_fuel-clear (length s) s (omega arith),
)
