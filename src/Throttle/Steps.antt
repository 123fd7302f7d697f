-- ===== src/Throttle/Steps.antt =====
-- The steps of `coalesce` and its workers on the state of one key.
use setfork_core.Shared.{
  ℕ, zero, suc, ◌+◌, ◌≤◌, ◌<◌, ◌≡◌, refl, ◌∙◌, ◌⊎◌, inl, inr, Bool, true, false, none, some, List,
  [], ◌∷◌, arith, ◌==◌, if◌then◌else◌, length, is_some, not, Bool-cases,
}
use setfork_core.Throttle.{
  Key, Slot, Phase, KeyState, coalesce, worker_step, advance, Act, act, State, step, run,
}

-- The steps that belong to a key.
unfoldable pub acts_of : Key → List (Key × Act) → List Act
acts_of k [] = []
acts_of k ((j, a) ∷ xs) = let rest = acts_of k xs in if k == j then a ∷ rest else rest

unfoldable pub act_all : List Act → KeyState → KeyState
act_all [] s = s
act_all (a ∷ xs) s = act_all xs (act a s)

-- A key sees its own steps only.
pub run-acts_of :
    (xs : List (Key × Act)) (s : State) (k : Key) → run xs s k ≡ act_all (acts_of k xs) (s k)
unfolding run acts_of act_all
run-acts_of [] s k = refl
run-acts_of ((j, a) ∷ xs) s k = elim (Bool-cases (k == j)) [
  | inl e ↦ run-acts_of xs (step (j, a) s) k ∙ rw e refl
  | inr e ↦ run-acts_of xs (step (j, a) s) k ∙ rw e refl
]

-- The slot is there where there is a worker, and there is never a second one.
abbrev pub shape : Slot → List Phase → Bool
shape none [] = true
shape none (p ∷ ws) = false
shape (some b) [] = false
shape (some b) (p ∷ []) = true
shape (some b) (p ∷ q ∷ ws) = false

abbrev pub is_nil : List Phase → Bool
is_nil [] = true
is_nil (p ∷ ws) = false

pub shape-bound :
    (slot : Slot) (ws : List Phase)
    → shape slot ws ≡ true
    → (length ws ≤ 1) × (is_some slot ≡ not (is_nil ws))
shape-bound none [] h = (omega arith, refl)
shape-bound none (p ∷ ws) h = absurd (ground arith)
shape-bound (some b) [] h = absurd (ground arith)
shape-bound (some b) (p ∷ []) h = (omega arith, refl)
shape-bound (some b) (p ∷ q ∷ ws) h = absurd (ground arith)

abbrev pub IsWell : KeyState → Type 0
IsWell s = shape s.slot s.workers ≡ true

abbrev pub at : Slot → List Phase → ℕ → KeyState
at slot workers runs = record { slot = slot; workers = workers; runs = runs }

pub act-shape :
    (a : Act) (slot : Slot) (ws : List Phase) (n : ℕ)
    → shape slot ws ≡ true
    → IsWell (act a (at slot ws n))
unfolding act coalesce advance worker_step
act-shape Act.call none [] n h = refl
act-shape Act.call none (p ∷ ws) n h = absurd (ground arith)
act-shape Act.call (some b) [] n h = absurd (ground arith)
act-shape Act.call (some b) (p ∷ []) n h = refl
act-shape Act.call (some b) (p ∷ q ∷ ws) n h = absurd (ground arith)
act-shape (Act.worker i) none [] n h = refl
act-shape (Act.worker i) none (p ∷ ws) n h = absurd (ground arith)
act-shape (Act.worker i) (some b) [] n h = absurd (ground arith)
act-shape (Act.worker zero) (some b) (Phase.sleeping ∷ []) n h = refl
act-shape (Act.worker zero) (some true) (Phase.running ∷ []) n h = refl
act-shape (Act.worker zero) (some false) (Phase.running ∷ []) n h = refl
act-shape (Act.worker (suc i)) (some b) (p ∷ []) n h = refl
act-shape (Act.worker i) (some b) (p ∷ q ∷ ws) n h = absurd (ground arith)

pub act_all-IsWell : (xs : List Act) (s : KeyState) → IsWell s → IsWell (act_all xs s)
unfolding act_all
act_all-IsWell [] s h = h
act_all-IsWell (a ∷ xs) s h = act_all-IsWell xs (act a s) (act-shape a s.slot s.workers s.runs h)

-- Runs are only ever added.
pub act-runs : (a : Act) (slot : Slot) (ws : List Phase) (n : ℕ) → n ≤ (act a (at slot ws n)).runs
unfolding act coalesce advance worker_step
act-runs Act.call none ws n = omega arith
act-runs Act.call (some b) ws n = omega arith
act-runs (Act.worker i) slot [] n = omega arith
act-runs (Act.worker zero) slot (Phase.sleeping ∷ ws) n = omega arith
act-runs (Act.worker zero) none (Phase.running ∷ ws) n = omega arith
act-runs (Act.worker zero) (some true) (Phase.running ∷ ws) n = omega arith
act-runs (Act.worker zero) (some false) (Phase.running ∷ ws) n = omega arith
act-runs (Act.worker (suc i)) slot (p ∷ ws) n = act-runs (Act.worker i) slot ws n

pub act_all-runs : (xs : List Act) (s : KeyState) → s.runs ≤ (act_all xs s).runs
unfolding act_all
act_all-runs [] s = omega arith
act_all-runs (a ∷ xs) s =
    omega (arith, act-runs a s.slot s.workers s.runs, act_all-runs xs (act a s))

-- In how many of its steps the worker begins a run that comes after what has been asked; 3 where no
-- event waits for one.
abbrev pub to_go : Slot → List Phase → ℕ
to_go slot (Phase.sleeping ∷ ws) = 1
to_go (some true) (Phase.running ∷ ws) = 2
to_go (some false) (Phase.running ∷ ws) = 3
to_go none (Phase.running ∷ ws) = 3
to_go slot [] = 3

-- The steps that the worker of a key gets.
abbrev pub steps_of : Act → ℕ
steps_of (Act.worker zero) = 1
steps_of (Act.worker (suc i)) = 0
steps_of Act.call = 0

unfoldable pub turns : List Act → ℕ
turns [] = 0
turns (a ∷ xs) = steps_of a + turns xs

-- One step of any task, where an event waits: the run begins, or it comes nearer by what the worker
-- did.
abbrev pub Nearer : Act → KeyState → KeyState → Type 0
Nearer a s t = (s.runs < t.runs) ⊎ ((to_go t.slot t.workers + steps_of a) ≤ to_go s.slot s.workers)

pub act-Nearer :
    (a : Act) (slot : Slot) (ws : List Phase) (n : ℕ)
    → shape slot ws ≡ true
    → to_go slot ws ≤ 2
    → Nearer a (at slot ws n) (act a (at slot ws n))
unfolding act coalesce advance worker_step
act-Nearer a none [] n h w = absurd (ground arith)
act-Nearer a none (p ∷ ws) n h w = absurd (ground arith)
act-Nearer a (some b) [] n h w = absurd (ground arith)
act-Nearer a (some b) (p ∷ q ∷ ws) n h w = absurd (ground arith)
act-Nearer a (some false) (Phase.running ∷ []) n h w = absurd (ground arith)
act-Nearer Act.call (some b) (Phase.sleeping ∷ []) n h w = inr (omega arith)
act-Nearer Act.call (some true) (Phase.running ∷ []) n h w = inr (omega arith)
act-Nearer (Act.worker zero) (some b) (Phase.sleeping ∷ []) n h w = inl (omega arith)
act-Nearer (Act.worker zero) (some true) (Phase.running ∷ []) n h w = inr (omega arith)
act-Nearer (Act.worker (suc i)) (some b) (Phase.sleeping ∷ []) n h w = inr (omega arith)
act-Nearer (Act.worker (suc i)) (some true) (Phase.running ∷ []) n h w = inr (omega arith)

-- An event that waits stays waiting until a run has begun after it.
abbrev pub Covered : ℕ → KeyState → Type 0
Covered n s = (n < s.runs) ⊎ (to_go s.slot s.workers ≤ 2)

pub act_all-Covered :
    (xs : List Act) (s : KeyState) (n : ℕ)
    → IsWell s
    → n ≤ s.runs
    → Covered n s
    → Covered n (act_all xs s)
unfolding act_all
act_all-Covered [] s n h m c = c
act_all-Covered (a ∷ xs) s n h m (inl l) = inl (omega (arith, act_all-runs (a ∷ xs) s))
act_all-Covered (a ∷ xs) s n h m (inr w) =
    act_all-Covered xs (act a s) n (act-shape a s.slot s.workers s.runs h)
      (omega (arith, act-runs a s.slot s.workers s.runs))
      (elim (act-Nearer a s.slot s.workers s.runs h w) [
        | inl l ↦ inl (omega arith)
        | inr l ↦ inr (omega arith)
      ])

pub to_go-positive : (slot : Slot) (ws : List Phase) → 1 ≤ to_go slot ws
to_go-positive slot (Phase.sleeping ∷ ws) = omega arith
to_go-positive (some true) (Phase.running ∷ ws) = omega arith
to_go-positive (some false) (Phase.running ∷ ws) = omega arith
to_go-positive none (Phase.running ∷ ws) = omega arith
to_go-positive slot [] = omega arith

pub act_all-turns :
    (xs : List Act) (s : KeyState)
    → IsWell s
    → to_go s.slot s.workers ≤ 2
    → to_go s.slot s.workers ≤ turns xs
    → s.runs < (act_all xs s).runs
unfolding act_all turns
act_all-turns [] s h w t = absurd (omega (arith, to_go-positive s.slot s.workers))
act_all-turns (a ∷ xs) s h w t = elim (act-Nearer a s.slot s.workers s.runs h w) [
  | inl l ↦ omega (arith, act_all-runs xs (act a s))
  | inr l ↦
      let m = act-runs a s.slot s.workers s.runs in
      let r =
        act_all-turns xs (act a s) (act-shape a s.slot s.workers s.runs h) (omega arith)
          (omega arith) in
      omega arith
]

pub idle-not_waiting : (slot : Slot) (ws : List Phase) → ws ≡ [] → to_go slot ws ≤ 2 → ⊥
idle-not_waiting slot [] e l = ground arith
idle-not_waiting slot (p ∷ ws) e l = ground arith

pub call-waits :
    (slot : Slot) (ws : List Phase) (n : ℕ)
    → shape slot ws ≡ true
    → to_go (coalesce (at slot ws n)).slot (coalesce (at slot ws n)).workers ≤ 2
unfolding coalesce
call-waits none [] n h = omega arith
call-waits none (p ∷ ws) n h = absurd (ground arith)
call-waits (some b) [] n h = absurd (ground arith)
call-waits (some b) (Phase.sleeping ∷ []) n h = omega arith
call-waits (some b) (Phase.running ∷ []) n h = omega arith
call-waits (some b) (p ∷ q ∷ ws) n h = absurd (ground arith)
