-- ===== src/Throttle.antt =====
-- `coalesce` of throttle.rs. The tasks share the map of slots under its lock, so a task's steps are
-- the parts between two awaits, each of them under the lock as a whole; a schedule is a list of
-- such steps, in any order. A `Uuid` is a number.
mod Tests
pub mod Steps
pub mod Coalesce
pub mod Gates
use setfork_core.Shared.{
  ℕ, zero, suc, Bool, true, false, Option, none, some, List, [], ◌∷◌, ◌==◌, if◌then◌else◌,
}

abbrev pub Key : Type 0
Key = ℕ

-- `slots().get(&key)`: a key that is there has a worker; the value says whether an event came since
-- the worker's last run began.
abbrev pub Slot : Type 0
Slot = Option Bool

-- Where a worker waits: in `sleep(window)`, or in `run().await`.
pub data Phase : Type 0 where
  sleeping running : Phase

-- What belongs to one key: its slot, its tasks, and how many times `run` has been called for it.
pub record KeyState : Type 0 where
  pub slot : Slot
  pub workers : List Phase
  pub runs : ℕ

abbrev pub idle : KeyState
idle = record { slot = none; workers = []; runs = 0 }

-- The part of `coalesce` under the lock, with the spawn that follows it.
unfoldable pub coalesce : KeyState → KeyState
coalesce s = elim s.slot [
  | none ↦ record { slot = some false; workers = Phase.sleeping ∷ s.workers; runs = s.runs }
  | some pending ↦ record { slot = some true; workers = s.workers; runs = s.runs }
]

-- What one step of a worker leaves: the slot, the worker unless its loop has ended, the runs.
pub record Step : Type 0 where
  pub slot : Slot
  pub worker : Option Phase
  pub runs : ℕ

-- After the sleep the flag is cleared and the run begins; after the run the worker goes on if the
-- flag is up, else it removes the key.
unfoldable pub worker_step : Phase → Slot → ℕ → Step
worker_step Phase.sleeping slot runs = record {
  slot = some false;
  worker = some Phase.running;
  runs = suc runs;
}
worker_step Phase.running (some true) runs = record {
  slot = some true;
  worker = some Phase.sleeping;
  runs = runs;
}
worker_step Phase.running (some false) runs = record { slot = none; worker = none; runs = runs }
worker_step Phase.running none runs = record { slot = none; worker = none; runs = runs }

abbrev back : Option Phase → List Phase → List Phase
back none ws = ws
back (some p) ws = p ∷ ws

-- One step of the worker at a place of the list; nothing where there is none.
unfoldable pub advance : ℕ → List Phase → Slot → ℕ → KeyState
unfolding worker_step
advance i [] slot runs = record { slot = slot; workers = []; runs = runs }
advance zero (p ∷ ws) slot runs =
    let s = worker_step p slot runs in
    record { slot = s.slot; workers = back s.worker ws; runs = s.runs }
advance (suc i) (p ∷ ws) slot runs =
    let s = advance i ws slot runs in
    record { slot = s.slot; workers = p ∷ s.workers; runs = s.runs }

-- A step of the program: a call of `coalesce`, or one of the workers going on.
pub data Act : Type 0 where
  call : Act
  worker : ℕ → Act

unfoldable pub act : Act → KeyState → KeyState
unfolding coalesce advance
act Act.call s = coalesce s
act (Act.worker i) s = advance i s.workers s.slot s.runs

abbrev pub State : Type 0
State = Key → KeyState

-- Each step touches the slot of its own key only.
abbrev pub step : Key × Act → State → State
step (k, a) s j = if j == k then act a (s j) else s j

unfoldable pub run : List (Key × Act) → State → State
unfolding act
run [] s = s
run (x ∷ xs) s = run xs (step x s)
