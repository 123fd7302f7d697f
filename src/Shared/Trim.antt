-- ===== src/Shared/Trim.antt =====
-- What `trim` leaves of a text: it is empty just if the text is all white space, and it is trimmed.
use Prim.Native.Nat.{ℕ}
use mathlib.Core.Path.{◌≡◌, refl, ap, sym, ◌∙◌}
use mathlib.Core.Bool.{Bool, false, not, ◌||◌}
use mathlib.Core.List.{[], ◌∷◌, reverse, reverse_aux}
use native.Mathlib.Omega.{arith}
use setfork_core.Shared.Lists.{any}
use setfork_core.Shared.Text.{Str, is_empty, is_whitespace, trim_start, trim}

-- The text has a character that is no white space.
abbrev solid : Str → Bool
solid s = any (λ c. not (is_whitespace c)) s

solid-trim_start : (s : Str) → solid (trim_start s) ≡ solid s
unfolding trim_start
solid-trim_start [] = refl
solid-trim_start (c ∷ s) = ground (arith, solid-trim_start s)

solid-reverse_aux : (s t : Str) → solid (reverse_aux s t) ≡ (solid s || solid t)
solid-reverse_aux [] t = refl
solid-reverse_aux (c ∷ s) t = ground (arith, solid-reverse_aux s (c ∷ t))

solid-reverse : (s : Str) → solid (reverse s) ≡ solid s
solid-reverse s = ground (arith, solid-reverse_aux s [])

is_empty-trim_start : (s : Str) → is_empty (trim_start s) ≡ not (solid s)
unfolding trim_start
is_empty-trim_start [] = refl
is_empty-trim_start (c ∷ s) = ground (arith, is_empty-trim_start s)

is_empty-reverse_aux : (s : Str) (c : ℕ) (t : Str) → is_empty (reverse_aux s (c ∷ t)) ≡ false
is_empty-reverse_aux [] c t = refl
is_empty-reverse_aux (d ∷ s) c t = is_empty-reverse_aux s d (c ∷ t)

is_empty-reverse : (s : Str) → is_empty (reverse s) ≡ is_empty s
is_empty-reverse [] = refl
is_empty-reverse (c ∷ s) = is_empty-reverse_aux s c []

solid-trim : (s : Str) → solid (trim s) ≡ solid s
unfolding trim
solid-trim s =
    solid-reverse (trim_start (reverse (trim_start s)))
    ∙ solid-trim_start (reverse (trim_start s))
    ∙ solid-reverse (trim_start s)
    ∙ solid-trim_start s

is_empty-trim : (s : Str) → is_empty (trim s) ≡ not (solid s)
unfolding trim
is_empty-trim s =
    is_empty-reverse (trim_start (reverse (trim_start s)))
    ∙ is_empty-trim_start (reverse (trim_start s))
    ∙ ap not (solid-reverse (trim_start s) ∙ solid-trim_start s)

pub is_empty-trim-trim : (s : Str) → is_empty (trim (trim s)) ≡ is_empty (trim s)
is_empty-trim-trim s = is_empty-trim (trim s) ∙ ap not (solid-trim s) ∙ sym (is_empty-trim s)
