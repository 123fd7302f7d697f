-- ===== src/Gate/Portions.antt =====
-- `text_portions` of gate.rs: the texts of a push in portions of a bounded size.
use mathlib.Core.List.{flatten, append_assoc}
use setfork_core.Shared.{
  ℕ, ◌+◌, ◌≤◌, ◌<◌, ◌≡◌, ◌⊎◌, inl, inr, refl, Bool, true, false, ◌&&◌, List, [], ◌∷◌, ◌++◌, arith,
  ltb, if◌then◌else◌, byte_len, All, length, Bool-cases, and_parts, ltb→lt, ◌∙◌,
}
use setfork_core.Gate.Ask.{PushedText}

abbrev pub text_size : PushedText → ℕ
text_size (path, text) = byte_len path + byte_len text

pub portion_size : List PushedText → ℕ
portion_size [] = 0
portion_size (t ∷ ts) = text_size t + portion_size ts

abbrev has_any : List PushedText → Bool
has_any [] = false
has_any (t ∷ ts) = true

-- The loop: `part` is `texts[start..i]`, and `size` the variable of that name. Behind the loop the
-- last portion is pushed if it holds a text.
unfoldable pub portions_from : ℕ → List PushedText → ℕ → List PushedText → List (List PushedText)
portions_from max_bytes part size [] = if has_any part then part ∷ [] else []
portions_from max_bytes part size (t ∷ ts) =
    let n = text_size t in
    let cut = has_any part && ltb max_bytes (size + n) in
    let rest =
      portions_from max_bytes (if cut then t ∷ [] else part ++ t ∷ []) (if cut then n else size + n)
        ts in
    if cut then part ∷ rest else rest

unfoldable pub text_portions : List PushedText → ℕ → List (List PushedText)
unfolding portions_from
text_portions texts max_bytes = portions_from max_bytes [] 0 texts

-- A portion holds a text; it fits, or it is one text that is too large by itself.
abbrev pub IsPortion : ℕ → List PushedText → Type 0
IsPortion max_bytes p = (has_any p ≡ true) × ((portion_size p ≤ max_bytes) ⊎ (length p ≡ 1))

-- The first text of each next portion would not have fitted into the one in front of it.
abbrev pub IsFull : ℕ → List PushedText → List (List PushedText) → Type 0
IsFull max_bytes p [] = Unit
IsFull max_bytes p ([] ∷ ps) = ⊥
IsFull max_bytes p ((t ∷ q) ∷ ps) =
    (max_bytes < portion_size p + text_size t) × IsFull max_bytes (t ∷ q) ps

abbrev pub AreFull : ℕ → List (List PushedText) → Type 0
AreFull max_bytes [] = Unit
AreFull max_bytes (p ∷ ps) = IsFull max_bytes p ps

portion_size-append :
    (p q : List PushedText) → portion_size (p ++ q) ≡ portion_size p + portion_size q
unfolding portion_size
portion_size-append [] q = omega arith
portion_size-append (t ∷ p) q = omega (arith, portion_size-append p q)

has_any-concat : (p : List PushedText) (t : PushedText) → has_any (p ++ t ∷ []) ≡ true
has_any-concat [] t = refl
has_any-concat (u ∷ p) t = refl

flatten-portions_from :
    (max_bytes : ℕ) (part : List PushedText) (size : ℕ) (ts : List PushedText)
    → flatten (portions_from max_bytes part size ts) ≡ part ++ ts
unfolding portions_from flatten
flatten-portions_from m [] size [] = refl
flatten-portions_from m (u ∷ part) size [] = refl
flatten-portions_from m part size (t ∷ ts) =
    elim (Bool-cases (has_any part && ltb m (size + text_size t))) [
      | inl e ↦ rw e (rw (flatten-portions_from m (t ∷ []) (text_size t) ts))
      | inr e ↦ rw e (
          flatten-portions_from m (part ++ t ∷ []) (size + text_size t) ts
          ∙ append_assoc part (t ∷ []) ts)
    ]

-- What the loop keeps: `size` is that of the open portion, which fits or is one text.
abbrev IsOpen : ℕ → List PushedText → ℕ → Type 0
IsOpen max_bytes part size =
    (size ≡ portion_size part) × ((portion_size part ≤ max_bytes) ⊎ (length part ≡ 1))

IsOpen-one : (max_bytes : ℕ) (t : PushedText) → IsOpen max_bytes (t ∷ []) (text_size t)
unfolding portion_size
IsOpen-one m t = (omega arith, inr refl)

IsOpen-concat :
    (max_bytes : ℕ) (part : List PushedText) (size : ℕ) (t : PushedText)
    → IsOpen max_bytes part size
    → (has_any part && ltb max_bytes (size + text_size t)) ≡ false
    → IsOpen max_bytes (part ++ t ∷ []) (size + text_size t)
unfolding portion_size
IsOpen-concat m [] size t h e = (omega (arith, h.0), inr refl)
IsOpen-concat m (u ∷ part) size t h e = (
  omega (arith, h.0, portion_size-append (u ∷ part) (t ∷ [])),
  inl (ground (arith, portion_size-append (u ∷ part) (t ∷ []))),
)

portions_from-All :
    (max_bytes : ℕ) (part : List PushedText) (size : ℕ) (ts : List PushedText)
    → IsOpen max_bytes part size
    → All (IsPortion max_bytes) (portions_from max_bytes part size ts)
unfolding portions_from
portions_from-All m [] size [] h = tt
portions_from-All m (u ∷ part) size [] h = ((refl, h.1), tt)
portions_from-All m part size (t ∷ ts) h =
    elim (Bool-cases (has_any part && ltb m (size + text_size t))) [
      | inl e ↦ rw e (
        ((and_parts _ _ e).0, h.1),
        portions_from-All m (t ∷ []) (text_size t) ts (IsOpen-one m t),
      )
      | inr e ↦ rw e (
          portions_from-All m (part ++ t ∷ []) (size + text_size t) ts
            (IsOpen-concat m part size t h e))
    ]

-- A part that is open behind the closed portion `prev`, and that begins with `t`.
portions_from-IsFull :
    (max_bytes : ℕ) (prev part : List PushedText) (t : PushedText) (size : ℕ) (ts : List PushedText)
    → max_bytes < portion_size prev + text_size t
    → size ≡ portion_size (t ∷ part)
    → IsFull max_bytes prev (portions_from max_bytes (t ∷ part) size ts)
unfolding portions_from
portions_from-IsFull m prev part t size [] h e = (h, tt)
portions_from-IsFull m prev part t size (u ∷ ts) h e =
    elim (Bool-cases (ltb m (size + text_size u))) [
      | inl c ↦ rw c (
        h,
        portions_from-IsFull m (t ∷ part) [] u (text_size u) ts (omega (arith, ltb→lt _ _ c))
            (single_size u),
      )
      | inr c ↦ rw c (
          portions_from-IsFull m prev (part ++ u ∷ []) t (size + text_size u) ts h
            (concat_size t part u size e))
    ]
  where
    single_size : (u : PushedText) → text_size u ≡ portion_size (u ∷ [])
    single_size u = unfold portion_size in omega arith

    concat_size :
        (t : PushedText) (part : List PushedText) (u : PushedText) (size : ℕ)
        → size ≡ portion_size (t ∷ part)
        → size + text_size u ≡ portion_size (t ∷ (part ++ u ∷ []))
    concat_size t part u size e =
        omega (arith, portion_size-append (t ∷ part) (u ∷ []), single_size u)

portions_from-AreFull :
    (max_bytes : ℕ) (part : List PushedText) (size : ℕ) (ts : List PushedText)
    → size ≡ portion_size part
    → AreFull max_bytes (portions_from max_bytes part size ts)
unfolding portions_from
portions_from-AreFull m [] size [] e = tt
portions_from-AreFull m (t ∷ part) size [] e = tt
portions_from-AreFull m [] size (u ∷ ts) e =
    portions_from-AreFull m (u ∷ []) (size + text_size u) ts
      (unfold portion_size in omega (arith, e))
portions_from-AreFull m (t ∷ part) size (u ∷ ts) e =
    elim (Bool-cases (ltb m (size + text_size u))) [
      | inl c ↦ rw c (
          portions_from-IsFull m (t ∷ part) [] u (text_size u) ts (omega (arith, ltb→lt _ _ c))
            (unfold portion_size in omega arith))
      | inr c ↦ rw c (
          portions_from-AreFull m (t ∷ (part ++ u ∷ [])) (size + text_size u) ts
            (unfold portion_size in omega (arith, portion_size-append (t ∷ part) (u ∷ []))))
    ]

-- The portions put one behind the other are the texts of the push, in order; each portion holds a
-- text, and is at most `max_bytes` large or one text by itself; and none is closed early: the first
-- text of the next one would have made it larger than `max_bytes`.
pub text_portions_lem :
    (texts : List PushedText) (max_bytes : ℕ)
    → (flatten (text_portions texts max_bytes) ≡ texts)
      × All (IsPortion max_bytes) (text_portions texts max_bytes)
      × AreFull max_bytes (text_portions texts max_bytes)
unfolding text_portions portion_size
text_portions_lem texts m = (
  flatten-portions_from m [] 0 texts,
  portions_from-All m [] 0 texts (refl, inl (omega arith)),
  portions_from-AreFull m [] 0 texts refl,
)
