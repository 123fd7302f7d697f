-- ===== src/Throttle/Gates.antt =====
-- `serialized` and `GateCleanup` of throttle.rs, for one key. The map of locks is under its own
-- lock, so the steps of a task are: to take a clone of the lock of the key; to lock it; to end or
-- to be dropped, which gives the lock back; to drop the clone; and to clean up. A schedule is a
-- list of such steps of any tasks in any order. A lock is known by a number; a lock that was taken
-- out of the map stays with the tasks that hold a clone.
mod Tests
pub mod Exclusive
use setfork_core.Shared.{
  ℕ, zero, suc, Bool, true, false, not, ◌&&◌, Option, none, some, List, [], ◌∷◌, ◌==◌,
  if◌then◌else◌, any,
}

pub data Phase : Type 0 where
  waiting running ended cleaning : Phase

pub record Task : Type 0 where
  pub phase : Phase
  pub gate : ℕ

-- `gates().get(&key)`, the number of the next lock, and the tasks.
pub record Gates : Type 0 where
  pub entry : Option ℕ
  pub next : ℕ
  pub tasks : List Task

abbrev pub is_running : Phase → Bool
is_running Phase.running = true
is_running _ = false

abbrev pub has_clone : Phase → Bool
has_clone Phase.cleaning = false
has_clone _ = true

abbrev pub holds : ℕ → Task → Bool
holds g t = has_clone t.phase && t.gate == g

abbrev pub locks : ℕ → Task → Bool
locks g t = is_running t.phase && t.gate == g

-- `gates.entry(key).or_default()` and the clone of it.
unfoldable pub enter : Gates → Gates
enter s = elim s.entry [
  | some g ↦ record s { tasks = record { phase = Phase.waiting; gate = g } ∷ s.tasks }
  | none ↦ record {
    entry = some s.next;
    next = suc s.next;
    tasks = record { phase = Phase.waiting; gate = s.next } ∷ s.tasks;
  }
]

-- A task that waits locks its lock, if no task has it locked; a task that waits or runs ends; a
-- task that has ended drops its clone.
pub data Move : Type 0 where
  lock end drop : Move

unfoldable pub moved : Move → List Task → ℕ → Phase → Phase
moved Move.lock others g Phase.waiting =
    if any (locks g) others then Phase.waiting else Phase.running
moved Move.end others g Phase.waiting = Phase.ended
moved Move.end others g Phase.running = Phase.ended
moved Move.drop others g Phase.ended = Phase.cleaning
moved _ others g p = p

-- The move of the task at a place, as all tasks see it.
unfoldable pub move_at : Move → List Task → ℕ → List Task → List Task
unfolding moved
move_at m others i [] = []
move_at m others zero (t ∷ ts) =
    record { phase = moved m others t.gate t.phase; gate = t.gate } ∷ ts
move_at m others (suc i) (t ∷ ts) = t ∷ move_at m others i ts

-- The task at a place is gone, if it was cleaning up.
unfoldable pub without : ℕ → List Task → List Task
without i [] = []
without zero (t ∷ ts) = if has_clone t.phase then t ∷ ts else ts
without (suc i) (t ∷ ts) = t ∷ without i ts

-- `GateCleanup::drop`: a lock that only the map holds is taken out of it.
unfoldable pub swept : Option ℕ → List Task → Option ℕ
swept none ts = none
swept (some g) ts = if any (holds g) ts then some g else none

pub data Act : Type 0 where
  call : Act
  move : Move → ℕ → Act
  clean : ℕ → Act

abbrev pub is_cleaning_at : ℕ → List Task → Bool
is_cleaning_at i [] = false
is_cleaning_at zero (t ∷ ts) = not (has_clone t.phase)
is_cleaning_at (suc i) (t ∷ ts) = is_cleaning_at i ts

unfoldable pub act : Gates → Act → Gates
unfolding enter move_at without swept
act s Act.call = enter s
act s (Act.move m i) = record s { tasks = move_at m s.tasks i s.tasks }
act s (Act.clean i) =
    if is_cleaning_at i s.tasks
    then record s { entry = swept s.entry (without i s.tasks); tasks = without i s.tasks }
    else s

abbrev pub empty : Gates
empty = record { entry = none; next = 0; tasks = [] }

unfoldable pub run : Gates → List Act → Gates
unfolding act
run s [] = s
run s (a ∷ acts) = run (act s a) acts
