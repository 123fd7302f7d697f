-- ===== src/Throttle/Gates/Tests.antt =====
-- `serialized` on a concrete schedule.
use setfork_core.Shared.{◌≡◌, refl, some, arith, List, [], ◌∷◌}
use setfork_core.Throttle.Gates.{
  Phase, Move, Act, enter, moved, move_at, without, swept, act, empty, run,
}
use setfork_core.Throttle.Gates.Exclusive.{IsSound, run-IsSound}

-- Two calls for the key; both try to lock, and the first of them is dropped while the other runs.
abbrev two_calls : List Act
two_calls =
    Act.call
    ∷ Act.call
    ∷ Act.move Move.lock 1
    ∷ Act.move Move.lock 0
    ∷ Act.move Move.end 0
    ∷ Act.move Move.drop 0
    ∷ Act.clean 0
    ∷ []

-- The lock stays in the map, since the other task holds it.
one_runs :
    run empty two_calls
    ≡ record { entry = some 0; next = 1; tasks = record { phase = Phase.running; gate = 0 } ∷ [] }
unfolding run act enter moved move_at without swept
one_runs = refl

run-IsSound_example : IsSound (run empty two_calls)
run-IsSound_example =
    run-IsSound empty two_calls (record { one = omega arith; clones = refl; kept = refl })
