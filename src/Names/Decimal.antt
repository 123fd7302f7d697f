-- ===== src/Names/Decimal.antt =====
-- Numbers in names: the formatting of a number by `{}` and the digits-only case of `parse::<i32>`.
use setfork_core.Shared.{
  ℕ, zero, suc, ◌+◌, ◌-◌, ◌*◌, ◌/◌, ◌%◌, ◌≤◌, ◌<◌, ◌≡◌, refl, true, false, Option, none, some, [],
  ◌∷◌, ◌++◌, arith, Str, ltb, leb, if◌then◌else◌, all, all-append, is_ascii_digit, is_empty,
}

abbrev pub i32_max : ℕ
i32_max = 2147483647

-- `parse::<i32>()` on text that holds digits only: the accumulator is checked at each digit.
unfoldable pub parse_from : ℕ → Str → Option ℕ
parse_from acc [] = some acc
parse_from acc (c ∷ s) =
    let next = acc * 10 + (c - 48) in
    let rest = parse_from next s in if leb next i32_max then rest else none

-- `format!("{n}")`: the last digit is written behind the others. The fuel bounds their number.
unfoldable pub digits_fuel : ℕ → ℕ → Str
digits_fuel zero n = []
digits_fuel (suc f) n =
    let others = digits_fuel f (n / 10) in
    if ltb n 10 then (48 + n) ∷ [] else others ++ ((48 + n % 10) ∷ [])

unfoldable pub digits : ℕ → Str
unfolding digits_fuel
digits n = digits_fuel (suc n) n

parse_from-append :
    (acc : ℕ) (s : Str) (c : ℕ) {m : ℕ}
    → parse_from acc s ≡ some m
    → m * 10 + (c - 48) ≤ i32_max
    → parse_from acc (s ++ c ∷ []) ≡ some (m * 10 + (c - 48))
unfolding parse_from
parse_from-append acc [] c h k = ground arith
parse_from-append acc (d ∷ s) c {m = m} h k =
    ground (arith, parse_from-append (acc * 10 + (d - 48)) s c {m = m})

parse_from-digits_fuel : (f n : ℕ) → n < f → n ≤ i32_max → parse_from 0 (digits_fuel f n) ≡ some n
unfolding parse_from digits_fuel
parse_from-digits_fuel zero n h k = elim h [ ]
parse_from-digits_fuel (suc f) n h k = ground (
  arith,
  parse_from-digits_fuel f (n / 10),
  parse_from-append 0 (digits_fuel f (n / 10)) (48 + n % 10) {m = n / 10},
)

pub parse_from-digits : (n : ℕ) → n ≤ i32_max → parse_from 0 (digits n) ≡ some n
unfolding digits
parse_from-digits n h = parse_from-digits_fuel (suc n) n (omega arith) h

digits_fuel-digits : (f n : ℕ) → all is_ascii_digit (digits_fuel f n) ≡ true
unfolding digits_fuel is_ascii_digit
digits_fuel-digits zero n = refl
digits_fuel-digits (suc f) n = ground (
  arith,
  digits_fuel-digits f (n / 10),
  all-append is_ascii_digit (digits_fuel f (n / 10)) ((48 + n % 10) ∷ []),
)

pub digits-IsDigits : (n : ℕ) → all is_ascii_digit (digits n) ≡ true
unfolding digits
digits-IsDigits n = digits_fuel-digits (suc n) n

append-ne-nil : (s : Str) (c : ℕ) → is_empty (s ++ c ∷ []) ≡ false
append-ne-nil [] c = refl
append-ne-nil (d ∷ s) c = refl

pub digits-ne-nil : (n : ℕ) → is_empty (digits n) ≡ false
unfolding digits digits_fuel
digits-ne-nil n = ground (arith, append-ne-nil (digits_fuel n (n / 10)) (48 + n % 10))
