-- ===== src/Canon/Readme/Fence.antt =====
-- What stands in a block of code cannot close it.
use setfork_core.Shared.{
  ℕ, zero, suc, ◌+◌, ◌≤◌, ◌<◌, max, ◌≡◌, refl, true, false, List, [], ◌∷◌, ◌++◌, map, Str, ◌==◌,
  codes, starts_with, contains_str, strip_prefix, arith, Bool-cases, inl, inr, All, or_cases,
}
use setfork_core.Canon.Readme.{
  join, ticks_from, repeat, split_lines, onto_first, fence_of, code_block, normalized,
}

ticks_from-le : (run longest : ℕ) (s : Str) → longest ≤ ticks_from run longest s
unfolding ticks_from
ticks_from-le run longest [] = omega arith
ticks_from-le run longest (c ∷ s) =
    ground (arith, ticks_from-le (suc run) (max longest (suc run)) s, ticks_from-le 0 longest s)

ticks_from_monotone :
    (r r' m m' : ℕ) (s : Str) → r ≤ r' → m ≤ m' → ticks_from r m s ≤ ticks_from r' m' s
unfolding ticks_from
ticks_from_monotone r r' m m' [] h k = k
ticks_from_monotone r r' m m' (c ∷ s) h k = ground (
  arith,
  ticks_from_monotone (suc r) (suc r') (max m (suc r)) (max m' (suc r')) s,
  ticks_from_monotone 0 0 m m' s,
)

-- A text that starts with a run of backticks has one as long.
starts_with-ticks :
    (n r m : ℕ) (s : Str) → starts_with s (repeat b'`' n) ≡ true → r ≤ m → r + n ≤ ticks_from r m s
unfolding ticks_from strip_prefix
starts_with-ticks zero r m s h k = omega (arith, ticks_from-le r m s)
starts_with-ticks (suc n) r m [] h k = absurd (ground arith)
starts_with-ticks (suc n) r m (c ∷ s) h k =
    ground (arith, starts_with-ticks n (suc r) (max m (suc r)) s)

contains_str-ticks :
    (n : ℕ) (s : Str) → contains_str s (repeat b'`' n) ≡ true → n ≤ ticks_from 0 0 s
unfolding ticks_from contains_str
contains_str-ticks n [] h = omega (arith, starts_with-ticks n 0 0 [] h (omega arith))
contains_str-ticks n (c ∷ s) h =
    elim (or_cases (starts_with (c ∷ s) (repeat b'`' n)) (contains_str s (repeat b'`' n)) h) [
      | inl e ↦ omega (arith, starts_with-ticks n 0 0 (c ∷ s) e (omega arith))
      | inr e ↦ later (contains_str-ticks n s e)
    ]
  where
    later : n ≤ ticks_from 0 0 s → n ≤ ticks_from 0 0 (c ∷ s)
    later k = ground (arith, k, ticks_from_monotone 0 1 0 1 s)

-- Each line of a text has no longer run than the text.
abbrev TicksAtMost : ℕ → List Str → Type 0
TicksAtMost n ls = All (λ l. ticks_from 0 0 l ≤ n) ls

-- The first line, counted from a run that has begun, and the others.
abbrev FirstAtMost : ℕ → ℕ → ℕ → List Str → Type 0
FirstAtMost r m n [] = ⊥
FirstAtMost r m n (l ∷ ls) = (ticks_from r m l ≤ n) × TicksAtMost n ls

from_first : (r m n : ℕ) (ls : List Str) → FirstAtMost r m n ls → TicksAtMost n ls
from_first r m n [] h = absurd h
from_first r m n (l ∷ ls) (h, hs) =
    (omega (arith, ticks_from_monotone 0 r 0 m l (omega arith) (omega arith)), hs)

grown :
    (c r m r' m' n : ℕ) (ls : List Str)
    → ((l : Str) → ticks_from r m (c ∷ l) ≡ ticks_from r' m' l)
    → FirstAtMost r' m' n ls
    → FirstAtMost r m n (onto_first c ls)
grown c r m r' m' n [] e h = absurd h
grown c r m r' m' n (l ∷ ls) e (h, hs) = (rw (e l) h, hs)

split_lines-ticks : (r m : ℕ) (s : Str) → FirstAtMost r m (ticks_from r m s) (split_lines s)
unfolding split_lines ticks_from
split_lines-ticks r m [] = (omega arith, tt)
split_lines-ticks r m (c ∷ s) = elim (Bool-cases (c == b'`')) [
  | inl e ↦
      rw (ticks_from, e, split_lines, not_break e)
        (grown c r m (suc r) (max m (suc r)) _ (split_lines s) (λ l. tick_step l e)
          (split_lines-ticks (suc r) (max m (suc r)) s))
  | inr e ↦ elim (Bool-cases (c == 10)) [
    | inl f ↦
        rw (ticks_from, e, split_lines, f)
          (ticks_from-le 0 m s, from_first 0 m _ (split_lines s) (split_lines-ticks 0 m s))
    | inr f ↦
        rw (ticks_from, e, split_lines, f)
          (grown c r m 0 m _ (split_lines s) (λ l. other_step l e) (split_lines-ticks 0 m s))
  ]
]
  where
    not_break : (c == b'`') ≡ true → (c == 10) ≡ false
    not_break e = ground arith

    tick_step :
        (l : Str)
        → (c == b'`') ≡ true
        → ticks_from r m (c ∷ l) ≡ ticks_from (suc r) (max m (suc r)) l
    tick_step l e = ground arith

    other_step : (l : Str) → (c == b'`') ≡ false → ticks_from r m (c ∷ l) ≡ ticks_from 0 m l
    other_step l e = ground arith

ticks_from-spaces : (n : ℕ) (l : Str) → ticks_from 0 0 (repeat 32 n ++ l) ≡ ticks_from 0 0 l
unfolding ticks_from
ticks_from-spaces zero l = refl
ticks_from-spaces (suc n) l = ticks_from-spaces n l

repeat_less : (n : ℕ) (s : Str) → ticks_from 0 0 s < n → contains_str s (repeat b'`' n) ≡ false
repeat_less n s h = elim (Bool-cases (contains_str s (repeat b'`' n))) [
  | inl e ↦ absurd (omega (arith, contains_str-ticks n s e))
  | inr e ↦ e
]

-- The line does not hold the text.
abbrev pub IsWithout : Str → Str → Type 0
IsWithout fence l = contains_str l fence ≡ false

indented :
    (m n : ℕ) (ls : List Str)
    → TicksAtMost m ls
    → All (IsWithout (repeat b'`' (max m 2 + 1))) (map (λ l. repeat 32 n ++ l) ls)
indented m n [] t = tt
indented m n (l ∷ ls) (h, hs) = (
  repeat_less (max m 2 + 1) (repeat 32 n ++ l) (omega (arith, ticks_from-spaces n l)),
  indented m n ls hs,
)

break_first :
    (r m n : ℕ) (ls : List Str)
    → FirstAtMost r m n ls
    → join (codes "\n") ([] ∷ ls) ≡ 10 ∷ join (codes "\n") ls
unfolding join
break_first r m n [] h = absurd h
break_first r m n (l ∷ ls) h = refl

join-onto_first :
    (c : ℕ) (ls : List Str) → join (codes "\n") (onto_first c ls) ≡ c ∷ join (codes "\n") ls
unfolding join
join-onto_first c [] = refl
join-onto_first c (l ∷ []) = refl
join-onto_first c (l ∷ m ∷ ls) = refl

join-split_lines : (s : Str) → join (codes "\n") (split_lines s) ≡ s
unfolding join split_lines
join-split_lines [] = refl
join-split_lines (c ∷ s) = ground (
  arith,
  join-split_lines s,
  join-onto_first c (split_lines s),
  break_first 0 0 _ (split_lines s) (split_lines-ticks 0 0 s),
)

-- An opening line, lines that rejoin to the code and stand behind the indent, none of which holds
-- the fence, and the fence, of three backticks or more.
abbrev pub IsClosed : Str → Str → ℕ → Type 0
IsClosed code lang n =
    (m : ℕ) × (ls : List Str) × (3 ≤ m)
    × (code_block code (repeat 32 n) lang
        ≡ (repeat 32 n ++ repeat b'`' m ++ lang)
          ∷ (map (λ l. repeat 32 n ++ l) ls ++ ((repeat 32 n ++ repeat b'`' m) ∷ [])))
    × (join (codes "\n") ls ≡ normalized code)
    × All (IsWithout (repeat b'`' m)) (map (λ l. repeat 32 n ++ l) ls)

-- A block of code at an indent of spaces is an opening line, lines that are those of the code
-- behind the indent, none of which holds the fence, and the fence, which is of three backticks or
-- more: nothing in the code closes the block, and no line of it is lost.
pub code_block-IsClosed : (code lang : Str) (n : ℕ) → IsClosed code lang n
unfolding code_block fence_of
code_block-IsClosed code lang n =
    let most = ticks_from 0 0 (normalized code) in
    (
      max most 2 + 1,
      split_lines (normalized code),
      omega arith,
      refl,
      join-split_lines (normalized code),
      indented most n _ (from_first 0 0 most _ (split_lines-ticks 0 0 (normalized code))),
    )
