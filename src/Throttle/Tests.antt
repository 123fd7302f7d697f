-- ===== src/Throttle/Tests.antt =====
-- `coalesce` on concrete schedules.
use setfork_core.Shared.{◌≡◌, ◌≤◌, ◌<◌, refl, not, List, [], ◌∷◌, length, is_some}
use setfork_core.Throttle.{Key, Act, act, run, coalesce, advance, worker_step}
use setfork_core.Throttle.Steps.{is_nil}
use setfork_core.Throttle.Coalesce.{reached, run-one_worker, coalesce-not_lost}

-- A burst of three events on key 1, an event on key 2, and the end of the sleep of key 1.
abbrev burst : List (Key × Act)
burst = (1, Act.call) ∷ (1, Act.call) ∷ (2, Act.call) ∷ (1, Act.call) ∷ (1, Act.worker 0) ∷ []

burst_one_run : (reached burst 1).runs ≡ 1
unfolding run act coalesce advance worker_step
burst_one_run = refl

run-one_worker_example :
    (length (reached burst 1).workers ≤ 1)
    × (is_some (reached burst 1).slot ≡ not (is_nil (reached burst 1).workers))
run-one_worker_example = run-one_worker burst 1

-- The event comes during the run: the run ends, the worker sleeps, runs again and ends.
abbrev rest : List (Key × Act)
rest = (1, Act.worker 0) ∷ (2, Act.worker 0) ∷ (1, Act.worker 0) ∷ (1, Act.worker 0) ∷ []

coalesce-not_lost_example :
    (reached burst 1).runs < (run ((1, Act.call) ∷ rest) (reached burst) 1).runs
unfolding run act coalesce advance worker_step
coalesce-not_lost_example = coalesce-not_lost burst rest 1 refl
