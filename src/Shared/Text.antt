-- ===== src/Shared/Text.antt =====
-- Texts as lists of code points, with the operations of Rust's `str` that the program uses. A
-- literal is written by `codes`.
use Prim.Native.Nat.{ℕ, ◌+◌}
use Prim.Native.Char.{code}
use Prim.Native.String.{String}
use mathlib.Core.Path.{◌≡◌, refl}
use mathlib.Core.Logic.{◌↔◌}
use mathlib.Core.Bool.{Bool, true, false, ◌&&◌, ◌||◌}
use mathlib.Core.Option.{Option, none, some}
use mathlib.Core.List.{List, [], ◌∷◌, ◌++◌, reverse}
use native.Mathlib.Omega.{arith}
use setfork_core.Shared.Tests.{ltb, leb, ◌==◌, if◌then◌else◌, is_some}
use setfork_core.Shared.Lists.{any}

abbrev pub Str : Type 0
Str = List ℕ

abbrev pub codes : String → Str
codes String.[] = []
codes (String.◌∷◌ c s) = code c ∷ codes s

abbrev pub str_eq : Str → Str → Bool
str_eq [] [] = true
str_eq [] (d ∷ t) = false
str_eq (c ∷ s) [] = false
str_eq (c ∷ s) (d ∷ t) = c == d && str_eq s t

pub str_eq_refl : (s : Str) → str_eq s s ≡ true
str_eq_refl [] = refl
str_eq_refl (c ∷ s) = ground (arith, str_eq_refl s)

pub str_eq→eq : (s t : Str) → str_eq s t ≡ true → s ≡ t
str_eq→eq [] [] h = refl
str_eq→eq [] (d ∷ t) h = cc
str_eq→eq (c ∷ s) [] h = cc
str_eq→eq (c ∷ s) (d ∷ t) h = ground (arith, str_eq→eq s t)

pub eq→str_eq : (s t : Str) → s ≡ t → str_eq s t ≡ true
eq→str_eq s t e = rw e (str_eq_refl t)

pub str_eq_iff : (s t : Str) → (str_eq s t ≡ true) ↔ (s ≡ t)
str_eq_iff s t = (str_eq→eq s t, eq→str_eq s t)

-- `s.strip_prefix(p)`
unfoldable pub strip_prefix : Str → Str → Option Str
strip_prefix s [] = some s
strip_prefix [] (c ∷ p) = none
strip_prefix (d ∷ s) (c ∷ p) = let rest = strip_prefix s p in if d == c then rest else none

pub strip_prefix→eq : (s p : Str) {r : Str} → strip_prefix s p ≡ some r → s ≡ p ++ r
unfolding strip_prefix
strip_prefix→eq s [] h = cc
strip_prefix→eq [] (c ∷ p) h = cc
strip_prefix→eq (d ∷ s) (c ∷ p) {r = r} h = ground (arith, strip_prefix→eq s p {r = r})

pub strip_prefix-append : (p r : Str) → strip_prefix (p ++ r) p ≡ some r
unfolding strip_prefix
strip_prefix-append [] r = refl
strip_prefix-append (c ∷ p) r = ground (arith, strip_prefix-append p r)

-- `s.starts_with(p)`
abbrev pub starts_with : Str → Str → Bool
starts_with s p = is_some (strip_prefix s p)

-- `s.contains(c)` for a character, and `s.contains(p)` for a text.
abbrev pub contains_char : Str → ℕ → Bool
contains_char s c = any (λ d. d == c) s

unfoldable pub contains_str : Str → Str → Bool
contains_str [] p = starts_with [] p
contains_str (c ∷ s) p = starts_with (c ∷ s) p || contains_str s p

-- `s.ends_with(c)` for a character.
unfoldable pub ends_with_char : Str → ℕ → Bool
ends_with_char [] c = false
ends_with_char (d ∷ []) c = d == c
ends_with_char (d ∷ e ∷ s) c = ends_with_char (e ∷ s) c

-- `s.is_empty()`
abbrev pub is_empty : Str → Bool
is_empty [] = true
is_empty (c ∷ s) = false

-- `s.len()` counts the bytes of UTF-8.
abbrev pub utf8_len : ℕ → ℕ
utf8_len c = if ltb c 128 then 1 else if ltb c 2048 then 2 else if ltb c 65536 then 3 else 4

unfoldable pub byte_len : Str → ℕ
byte_len [] = 0
byte_len (c ∷ s) = utf8_len c + byte_len s

abbrev between : ℕ → ℕ → ℕ → Bool
between lo hi c = leb lo c && leb c hi

-- `char::is_whitespace`: Unicode White_Space.
unfoldable pub is_whitespace : ℕ → Bool
is_whitespace c =
    between 9 13 c
    || c == 32
    || c == 133
    || c == 160
    || c == 5760
    || between 8192 8202 c
    || c == 8232
    || c == 8233
    || c == 8239
    || c == 8287
    || c == 12288

-- `char::is_control`: the category Cc.
unfoldable pub is_control : ℕ → Bool
is_control c = leb c 31 || between 127 159 c

unfoldable pub is_ascii_digit : ℕ → Bool
is_ascii_digit c = between 48 57 c

unfoldable pub is_ascii_alphanumeric : ℕ → Bool
unfolding is_ascii_digit
is_ascii_alphanumeric c = is_ascii_digit c || between 65 90 c || between 97 122 c

-- `s.trim_start()`, `s.trim_end()` and `s.trim()`
unfoldable pub trim_start : Str → Str
trim_start [] = []
trim_start (c ∷ s) = let rest = trim_start s in if is_whitespace c then rest else c ∷ s

unfoldable pub trim : Str → Str
unfolding trim_start is_whitespace
trim s = reverse (trim_start (reverse (trim_start s)))

-- `path.rsplit('/').next()`: what stands behind the last slash.
unfoldable pub last_segment : Str → Str
last_segment [] = []
last_segment (c ∷ s) =
    let rest = last_segment s in
    if contains_char s b'/' then rest else if c == b'/' then s else c ∷ s
