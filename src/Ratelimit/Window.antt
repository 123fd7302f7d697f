-- ===== src/Ratelimit/Window.antt =====
-- The window of one method: what `expire` drops and keeps, and how many instants lie in a span.
use mathlib.Core.List.{append_assoc}
use native.Mathlib.Decide.{dec_le}
use setfork_core.Shared.{
  sym, false, length-append, ◌%◌, ◌^◌, ◌↔◌, subst, ◌∙◌, ℕ, ◌+◌, ◌-◌, ◌≤◌, ◌<◌, ◌≡◌, refl, ap, ◌&&◌,
  List, [], ◌∷◌, ◌++◌, arith, ltb, leb, if◌then◌else◌, length, All, Bool-cases, inl, inr,
}
use setfork_core.Ratelimit.{window, expire, admit}

-- The instants of a list in the 60 s up to `t`, both ends included.
pub count_in : ℕ → List ℕ → ℕ
count_in t [] = 0
count_in t (x ∷ xs) = (if leb x t && leb t (x + window) then 1 else 0) + count_in t xs

pub count_in-append :
    (t : ℕ) (xs ys : List ℕ) → count_in t (xs ++ ys) ≡ count_in t xs + count_in t ys
unfolding count_in
count_in-append t [] ys = omega arith
count_in-append t (x ∷ xs) ys = omega (arith, count_in-append t xs ys)

pub count_in-le-length : (t : ℕ) (xs : List ℕ) → count_in t xs ≤ length xs
unfolding count_in
count_in-le-length t [] = omega arith
count_in-le-length t (x ∷ xs) = ground (arith, count_in-le-length t xs)

-- All instants of a list lie more than 60 s before `t`.
abbrev pub IsPast : ℕ → List ℕ → Type 0
IsPast t = All (λ x. x + window < t)

pub IsPast-mono : (t u : ℕ) (xs : List ℕ) → t ≤ u → IsPast t xs → IsPast u xs
IsPast-mono t u [] h p = tt
IsPast-mono t u (x ∷ xs) h (p, q) = (omega arith, IsPast-mono t u xs h q)

pub IsPast-append : (t : ℕ) (xs ys : List ℕ) → IsPast t xs → IsPast t ys → IsPast t (xs ++ ys)
IsPast-append t [] ys p q = q
IsPast-append t (x ∷ xs) ys (h, p) q = (h, IsPast-append t xs ys p q)

pub count_in-past : (t u : ℕ) (xs : List ℕ) → u ≤ t → IsPast u xs → count_in t xs ≡ 0
unfolding count_in
count_in-past t u [] h p = refl
count_in-past t u (x ∷ xs) h (p, q) = ground (arith, count_in-past t u xs h q)

-- The instants are in order, and none is after `t`.
abbrev pub IsOrdered : ℕ → List ℕ → Type 0
IsOrdered t [] = Unit
IsOrdered t (x ∷ xs) = All (λ y. x ≤ y) xs × (x ≤ t) × IsOrdered t xs

-- `expire` splits the window: the part that it drops is past.
pub expire-split :
    (now : ℕ) (q : List ℕ) → (old : List ℕ) × (q ≡ old ++ expire now q) × IsPast now old
unfolding expire
expire-split now [] = ([], refl, tt)
expire-split now (t ∷ q) = elim (Bool-cases (ltb window (now - t))) [
  | inl e ↦
      let (old, p, h) = expire-split now q in (t ∷ old, rw e (ap (λ r. t ∷ r) p), (ground arith, h))
  | inr e ↦ ([], rw e refl, tt)
]

pub IsOrdered-later : (t u : ℕ) (xs : List ℕ) → t ≤ u → IsOrdered t xs → IsOrdered u xs
IsOrdered-later t u [] h o = tt
IsOrdered-later t u (x ∷ xs) h (a, p, o) = (a, omega arith, IsOrdered-later t u xs h o)

IsOrdered-suffix : (t : ℕ) (xs ys : List ℕ) → IsOrdered t (xs ++ ys) → IsOrdered t ys
IsOrdered-suffix t [] ys o = o
IsOrdered-suffix t (x ∷ xs) ys (a, p, o) = IsOrdered-suffix t xs ys o

All-le-concat :
    (x t : ℕ) (xs : List ℕ) → x ≤ t → All (λ y. x ≤ y) xs → All (λ y. x ≤ y) (xs ++ t ∷ [])
All-le-concat x t [] h a = (h, tt)
All-le-concat x t (y ∷ xs) h (p, a) = (p, All-le-concat x t xs h a)

IsOrdered-concat : (t : ℕ) (xs : List ℕ) → IsOrdered t xs → IsOrdered t (xs ++ t ∷ [])
IsOrdered-concat t [] o = (tt, omega arith, tt)
IsOrdered-concat t (x ∷ xs) (a, p, o) = (All-le-concat x t xs p a, p, IsOrdered-concat t xs o)

count_in-fresh :
    (t x : ℕ) (xs : List ℕ)
    → t ≤ x + window
    → All (λ y. x ≤ y) xs
    → IsOrdered t xs
    → count_in t xs ≡ length xs
unfolding count_in
count_in-fresh t x [] h a o = refl
count_in-fresh t x (y ∷ xs) h (q, a) (b, p, o) = ground (arith, count_in-fresh t x xs h a o)

-- What `expire` keeps of an ordered window is all within the 60 s.
count_in-expire :
    (t : ℕ) (q : List ℕ) → IsOrdered t q → count_in t (expire t q) ≡ length (expire t q)
unfolding expire
count_in-expire t [] o = unfold count_in in refl
count_in-expire t (x ∷ q) (a, p, o) = elim (Bool-cases (ltb window (t - x))) [
  | inl e ↦ rw e (count_in-expire t q o)
  | inr e ↦ rw e (unfold count_in in ground (arith, count_in-fresh t x q (ground arith) a o))
]

-- The window `q` of a method with the limit `l`, at the instant `t`, where `h` are the instants at
-- which it let a call through: what the window has lost is past, and no 60 s hold more than `l`.
pub record Tracks (l t : ℕ) (h q : List ℕ) : Type 0 where
  pub old : List ℕ
  pub split : h ≡ old ++ q
  pub past : IsPast t old
  pub room : length q ≤ l
  pub ordered : IsOrdered t h
  pub bounded : (u : ℕ) → count_in u h ≤ l

module _ {l t : ℕ} {h q : List ℕ} (k : Tracks l t h q) where
  pub Tracks-later : (u : ℕ) → t ≤ u → Tracks l u h q
  Tracks-later u e = record {
    old = k.old;
    split = k.split;
    past = IsPast-mono t u k.old e k.past;
    room = k.room;
    ordered = IsOrdered-later t u h e k.ordered;
    bounded = k.bounded;
  }

  -- Nothing but the window counts: what it has lost is past.
  count_in-window : (u : ℕ) → t ≤ u → count_in u h ≡ count_in u q
  count_in-window u e =
      rw k.split (omega (arith, count_in-append u k.old q, count_in-past u t k.old e k.past))

  Tracks-expire : Tracks l t h (expire t q)
  Tracks-expire =
      let (lost, e, p) = expire-split t q in
      record {
        old = k.old ++ lost;
        split = k.split ∙ ap (λ r. k.old ++ r) e ∙ sym (append_assoc k.old lost (expire t q));
        past = IsPast-append t k.old lost k.past p;
        room = omega (arith, k.room, ap length e, length-append lost (expire t q));
        ordered = k.ordered;
        bounded = k.bounded;
      }

  Tracks-push : length q < l → Tracks l t (h ++ t ∷ []) (q ++ t ∷ [])
  Tracks-push r = record {
    old = k.old;
    split = ap (λ r. r ++ t ∷ []) k.split ∙ append_assoc k.old q (t ∷ []);
    past = k.past;
    room = omega (arith, r, length-append q (t ∷ []));
    ordered = IsOrdered-concat t h k.ordered;
    bounded = λ u. elim (dec_le t u) [
      | yes e ↦ omega (
        arith,
        r,
        count_in-append u h (t ∷ []),
        count_in-window u e,
        count_in-le-length u q,
        count_in-le-length u (t ∷ []),
      )
      | no e ↦ (unfold count_in in ground (arith, k.bounded u, count_in-append u h (t ∷ [])))
    ];
  }

-- A call at `t` moves the window on, and adds an instant if it is let through.
pub admit-Tracks :
    {l t : ℕ} {h q : List ℕ}
    → l < 2 ^ 32
    → Tracks l t h q
    → Tracks l t (if (admit l t q).0 then h ++ t ∷ [] else h) (admit l t q).1
unfolding admit
admit-Tracks {l} {t} {h} {q} fits k =
    let fresh = Tracks-expire k in
    elim (Bool-cases (leb l (length (expire t q) % 2 ^ 32))) [
      | inl e ↦ rw e fresh
      | inr e ↦ rw e (Tracks-push fresh (ground (arith, fresh.room)))
    ]

-- The call is refused exactly when the limit has been let through in the 60 s up to it.
pub admit-refuses_iff :
    {l t : ℕ} {h q : List ℕ}
    → l < 2 ^ 32
    → Tracks l t h q
    → ((admit l t q).0 ≡ false) ↔ (count_in t h ≡ l)
unfolding admit
admit-refuses_iff {l} {t} {h} {q} fits k =
    let fresh = Tracks-expire k in
    let whole = count_in-window fresh t (omega arith) in
    let all_fresh =
      count_in-expire t q (IsOrdered-suffix t k.old q (subst (IsOrdered t) k.split k.ordered)) in
    ground (arith, fresh.room, whole, all_fresh)

pub Tracks-empty : (l : ℕ) → Tracks l 0 [] []
unfolding count_in
Tracks-empty l = record {
  old = [];
  split = refl;
  past = tt;
  room = omega arith;
  ordered = tt;
  bounded = λ u. omega arith;
}
