-- ===== src/Throttle/Coalesce.antt =====
-- What `coalesce` promises under every schedule: one worker for a key, no event lost, and no event
-- kept waiting by later ones.
use setfork_core.Shared.{
  ◌≤◌, ◌<◌, ◌≡◌, refl, ap, ◌∙◌, inl, inr, List, [], ◌∷◌, arith, length, is_some, not, ==_iff,
  Option-cases, sym, subst,
}
use setfork_core.Throttle.{Key, KeyState, idle, coalesce, Act, act, State, step, run}
use setfork_core.Throttle.Steps.{
  acts_of, act_all, run-acts_of, is_nil, shape-bound, IsWell, act-shape, act_all-IsWell, turns,
  act_all-Covered, act_all-turns, idle-not_waiting, call-waits,
}

-- The state that a schedule reaches from the start of the program.
abbrev pub reached : List (Key × Act) → State
reached xs = run xs (λ j. idle)

reached-IsWell : (xs : List (Key × Act)) (k : Key) → IsWell (reached xs k)
reached-IsWell xs k = rw (run-acts_of xs (λ j. idle) k) (act_all-IsWell (acts_of k xs) idle refl)

-- What a call and the schedule after it make of the key.
run-call :
    (xs : List (Key × Act)) (s : State) (k : Key)
    → run ((k, Act.call) ∷ xs) s k ≡ act_all (acts_of k xs) (coalesce (s k))
unfolding run act
run-call xs s k = run-acts_of xs (step (k, Act.call) s) k ∙ rw ((==_iff k k).1 refl) refl

coalesce-runs : (s : KeyState) → (coalesce s).runs ≡ s.runs
unfolding coalesce
coalesce-runs s = elim (Option-cases s.slot) [ inl e ↦ rw e refl | inr (b, e) ↦ rw e refl ]

coalesce-IsWell : (s : KeyState) → IsWell s → IsWell (coalesce s)
unfolding act
coalesce-IsWell s h = act-shape Act.call s.slot s.workers s.runs h

-- A schedule from the start of the program leaves every key with at most one worker, and with its
-- slot in the map exactly as long as it has one.
pub run-one_worker :
    (xs : List (Key × Act)) (k : Key)
    → (length (reached xs k).workers ≤ 1)
      × (is_some (reached xs k).slot ≡ not (is_nil (reached xs k).workers))
run-one_worker xs k = shape-bound (reached xs k).slot (reached xs k).workers (reached-IsWell xs k)

-- No event is lost: whatever the schedule before the call and after it, once no worker of the key
-- is left, a run has begun for the key after the call.
pub coalesce-not_lost :
    (xs ys : List (Key × Act)) (k : Key)
    → (run ((k, Act.call) ∷ ys) (reached xs) k).workers ≡ []
    → (reached xs k).runs < (run ((k, Act.call) ∷ ys) (reached xs) k).runs
coalesce-not_lost xs ys k e =
    let s = reached xs k in
    let well = reached-IsWell xs k in
    let eq = run-call ys (reached xs) k in
    let covered =
      act_all-Covered (acts_of k ys) (coalesce s) s.runs (coalesce-IsWell s well)
        (omega (arith, coalesce-runs s)) (inr (call-waits s.slot s.workers s.runs well)) in
    rw eq (elim covered [
      | inl l ↦ l
      | inr l ↦ absurd (idle-not_waiting _ _ (ap (λ t. t.workers) (sym eq) ∙ e) l)
    ])

-- No event waits longer than its worker takes for two steps: after a call a run begins for its key
-- as soon as the worker has had two turns, however many calls come in between.
pub coalesce-two_turns :
    (xs ys : List (Key × Act)) (k : Key)
    → 2 ≤ turns (acts_of k ys)
    → (reached xs k).runs < (run ((k, Act.call) ∷ ys) (reached xs) k).runs
coalesce-two_turns xs ys k t =
    let s = reached xs k in
    let well = reached-IsWell xs k in
    let waits = call-waits s.slot s.workers s.runs well in
    rw (run-call ys (reached xs) k) (
      subst (λ n. n < (act_all (acts_of k ys) (coalesce s)).runs) (coalesce-runs s)
        (act_all-turns (acts_of k ys) (coalesce s) (coalesce-IsWell s well) waits (omega arith)))
