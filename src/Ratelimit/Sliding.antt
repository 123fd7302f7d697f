-- ===== src/Ratelimit/Sliding.antt =====
-- What a client of the limiter sees, over any calls in the order of time.
use setfork_core.Shared.{
  ℕ, ◌≤◌, ◌<◌, ◌^◌, ◌≡◌, ◌↔◌, inl, inr, refl, sym, ◌∙◌, ◌≢◌, true, false, ◌&&◌, List, [], ◌∷◌, ◌++◌,
  arith, if◌then◌else◌, Str, str_eq, str_eq_refl, str_eq→eq, Bool-cases, Option, subst,
}
use mathlib.Core.List.{append_assoc, append-nil}
use setfork_core.Ratelimit.{
  State, Call, new, method, limit, admit, store, allow, counted, served, run,
}
use setfork_core.Ratelimit.Window.{
  count_in, Tracks, Tracks-empty, Tracks-later, admit-Tracks, admit-refuses_iff,
}

-- The calls are in the order of time, from `t` on.
abbrev pub IsTimed : ℕ → List Call → Type 0
IsTimed t [] = Unit
IsTimed t (c ∷ cs) = (t ≤ c.now) × IsTimed c.now cs

-- Both budgets are values of a `u32`.
abbrev pub FitsU32 : State → Type 0
FitsU32 s = (s.rpm < 2 ^ 32) × (s.rpm_heavy < 2 ^ 32)

FitsU32-limit : (s : State) (m : Str) → FitsU32 s → limit s m < 2 ^ 32
unfolding limit
FitsU32-limit s m f = ground arith

-- A call that is not counted passes, and changes nothing.
pub allow-uncounted : (s : State) (c : Call) → counted s c ≡ false → allow s c ≡ (true, s)
unfolding allow counted
allow-uncounted s c h = ground arith

allow-counted :
    (s : State) (c : Call)
    → counted s c ≡ true
    → allow s c ≡ store s (method c) (admit (limit s (method c)) c.now (s.windows (method c)))
unfolding allow counted
allow-counted s c h = ground arith

FitsU32-allow : (s : State) (c : Call) → FitsU32 s → FitsU32 (allow s c).1
unfolding allow
FitsU32-allow s c f = ground arith

limit-allow : (s : State) (c : Call) (m : Str) → limit (allow s c).1 m ≡ limit s m
unfolding limit
limit-allow s c m = elim (Bool-cases (counted s c)) [
  | inl e ↦ rw (allow-counted s c e) refl
  | inr e ↦ rw (allow-uncounted s c e) refl
]

-- The window of `m` tracks the calls of `m` that were let through.
abbrev TracksMethod : State → Str → ℕ → List ℕ → Type 0
TracksMethod s m t h = Tracks (limit s m) t h (s.windows m)

-- The instants behind one more call.
abbrev with_call : State → Str → Call → List ℕ → List ℕ
with_call s m c h =
    if counted s c && str_eq (method c) m && (allow s c).0 then h ++ c.now ∷ [] else h

allow-TracksMethod_self :
    (s : State) (c : Call) (h : List ℕ)
    → FitsU32 s
    → counted s c ≡ true
    → TracksMethod s (method c) c.now h
    → TracksMethod (allow s c).1 (method c) c.now (with_call s (method c) c h)
allow-TracksMethod_self s c h f e k = rw limit-allow (
    rw (e, allow-counted s c e)
      (rw (str_eq_refl (method c)) (admit-Tracks (FitsU32-limit s (method c) f) k)))

allow-TracksMethod_ne :
    (s : State) (c : Call) (m : Str) (h : List ℕ)
    → counted s c ≡ true
    → str_eq (method c) m ≡ false
    → TracksMethod s m c.now h
    → TracksMethod (allow s c).1 m c.now (with_call s m c h)
allow-TracksMethod_ne s c m h e other k =
    rw limit-allow (rw (e, other) (rw (allow-counted s c e) (rw other k)))

allow-TracksMethod :
    (s : State) (c : Call) (m : Str) (h : List ℕ)
    → FitsU32 s
    → TracksMethod s m c.now h
    → TracksMethod (allow s c).1 m c.now (with_call s m c h)
allow-TracksMethod s c m h f k = elim (Bool-cases (counted s c)) [
  | inl e ↦ elim (Bool-cases (str_eq (method c) m)) [
    | inl same ↦
        subst
          (λ n. TracksMethod s n c.now h → TracksMethod (allow s c).1 n c.now (with_call s n c h))
          (str_eq→eq (method c) m same) (allow-TracksMethod_self s c h f e) k
    | inr other ↦ allow-TracksMethod_ne s c m h e other k
  ]
  | inr e ↦ rw (e, allow-uncounted s c e) k
]

abbrev pub last_time : ℕ → List Call → ℕ
last_time t [] = t
last_time t (c ∷ cs) = last_time c.now cs

served-append :
    (s : State) (m : Str) (c : Call) (cs : List Call) (h : List ℕ)
    → with_call s m c h ++ served (allow s c).1 m cs ≡ h ++ served s m (c ∷ cs)
unfolding served
served-append s m c cs h = elim (Bool-cases (counted s c && str_eq (method c) m && (allow s c).0)) [
  | inl e ↦ rw e (append_assoc h (c.now ∷ []) (served (allow s c).1 m cs))
  | inr e ↦ rw e refl
]

run-TracksMethod :
    (s : State) (m : Str) (t : ℕ) (h : List ℕ) (cs : List Call)
    → FitsU32 s
    → IsTimed t cs
    → TracksMethod s m t h
    → TracksMethod (run s cs) m (last_time t cs) (h ++ served s m cs)
unfolding run served
run-TracksMethod s m t h [] f timed k = rw append-nil k
run-TracksMethod s m t h (c ∷ cs) f (e, timed) k =
    subst (TracksMethod (run s (c ∷ cs)) m (last_time c.now cs)) (served-append s m c cs h) (
      run-TracksMethod (allow s c).1 m c.now (with_call s m c h) cs (FitsU32-allow s c f) timed
        (allow-TracksMethod s c m h f (Tracks-later k c.now e)))

limit-run : (s : State) (cs : List Call) (m : Str) → limit (run s cs) m ≡ limit s m
unfolding run
limit-run s [] m = refl
limit-run s (c ∷ cs) m = limit-run (allow s c).1 cs m ∙ limit-allow s c m

FitsU32-run : (s : State) (cs : List Call) → FitsU32 s → FitsU32 (run s cs)
unfolding run
FitsU32-run s [] f = f
FitsU32-run s (c ∷ cs) f = FitsU32-run (allow s c).1 cs (FitsU32-allow s c f)

module _ (rpm rpm_heavy : ℕ) (token : Option Str) (cs : List Call) where
  new-TracksMethod :
      (m : Str)
      → FitsU32 (new rpm rpm_heavy token)
      → IsTimed 0 cs
      → TracksMethod
          (run (new rpm rpm_heavy token) cs)
          m
          (last_time 0 cs)
          (served (new rpm rpm_heavy token) m cs)
  new-TracksMethod m f timed = run-TracksMethod _ m 0 [] cs f timed (Tracks-empty _)

  -- Whatever the calls, in the order of time, no 60 seconds hold more counted calls of a method
  -- that are let through than the method's budget.
  pub served-le-limit :
      (m : Str) (u : ℕ)
      → FitsU32 (new rpm rpm_heavy token)
      → IsTimed 0 cs
      → count_in u (served (new rpm rpm_heavy token) m cs) ≤ limit (new rpm rpm_heavy token) m
  served-le-limit m u f timed =
      omega
        (arith, (new-TracksMethod m f timed).bounded u, limit-run (new rpm rpm_heavy token) cs m)

  -- After calls whose instants are in the order in which they passed the lock, a call that is not
  -- earlier than the last of them is refused exactly when it is counted and its method's whole
  -- budget was let through in the 60 seconds up to it. The budgets fit a u32.
  pub allow-refuses_iff :
      (c : Call)
      → FitsU32 (new rpm rpm_heavy token)
      → IsTimed 0 cs
      → last_time 0 cs ≤ c.now
      → ((allow (run (new rpm rpm_heavy token) cs) c).0 ≡ false) ↔ (
          (counted (run (new rpm rpm_heavy token) cs) c ≡ true)
          × (count_in c.now (served (new rpm rpm_heavy token) (method c) cs)
              ≡ limit (new rpm rpm_heavy token) (method c)))
  allow-refuses_iff c f timed later =
      let s = run (new rpm rpm_heavy token) cs in
      let k = Tracks-later (new-TracksMethod (method c) f timed) c.now later in
      let fits = FitsU32-limit s (method c) (FitsU32-run _ cs f) in
      let refuses = admit-refuses_iff fits k in
      let same = limit-run (new rpm rpm_heavy token) cs (method c) in
      (
        λ h. elim (Bool-cases (counted s c)) [
          | inl e ↦ (e, refuses.0 (rw (allow-counted s c e) at h) ∙ same)
          | inr e ↦ absurd (cc (h, allow-uncounted s c e))
        ],
        λ (e, n). rw (allow-counted s c e) (refuses.1 (n ∙ sym same)),
      )

-- A call leaves the windows of all methods but its own alone, so no method uses up the budget of
-- another.
pub allow-frame :
    (s : State) (c : Call) (m : Str) → m ≢ method c → (allow s c).1.windows m ≡ s.windows m
allow-frame s c m ne = elim (Bool-cases (counted s c)) [
  | inl e ↦ elim (Bool-cases (str_eq (method c) m)) [
    | inl same ↦ absurd (ne (sym (str_eq→eq (method c) m same)))
    | inr other ↦ rw (allow-counted s c e) (rw other)
  ]
  | inr e ↦ rw (allow-uncounted s c e) refl
]
