-- ===== src/Throttle/Gates/Exclusive.antt =====
-- Under every schedule one task of the key runs at a time, and no lock stays in the map without a
-- task.
use setfork_core.Shared.{
  ℕ, zero, suc, ◌≤◌, ◌≡◌, refl, Bool, true, false, not, ◌&&◌, ◌||◌, Option, none, some, List, [],
  ◌∷◌, ◌==◌, if◌then◌else◌, any, all, arith, subst, Bool-cases, inl, inr, ==_iff,
}
use setfork_core.Throttle.Gates.{
  Phase, Task, Gates, is_running, has_clone, holds, locks, enter, Move, moved, move_at, without,
  swept, Act, is_cleaning_at, act, run,
}

-- How many tasks run.
abbrev pub runners : List Task → ℕ
runners [] = 0
runners (t ∷ ts) = let rest = runners ts in if is_running t.phase then suc rest else rest

abbrev pub is_entry : Option ℕ → ℕ → Bool
is_entry none g = false
is_entry (some e) g = e == g

-- A clone is one of the lock in the map.
abbrev pub settled : Option ℕ → Task → Bool
settled e t = not (has_clone t.phase) || is_entry e t.gate

abbrev pub used : Option ℕ → List Task → Bool
used none ts = true
used (some g) [] = false
used (some g) (t ∷ ts) = true

pub record IsSound (s : Gates) : Type 0 where
  pub one : runners s.tasks ≤ 1
  pub clones : all (settled s.entry) s.tasks ≡ true
  pub kept : used s.entry s.tasks ≡ true

-- With the clones settled, a lock that no task has locked means that no task runs.
idle_task :
    (g : ℕ) (p : Phase) (e : ℕ)
    → (not (has_clone p) || g == e) ≡ true
    → (is_running p && e == g) ≡ false
    → is_running p ≡ false
idle_task g Phase.waiting e h k = refl
idle_task g Phase.running e h k = ground arith
idle_task g Phase.ended e h k = refl
idle_task g Phase.cleaning e h k = refl

free-runners :
    (g : ℕ) (ts : List Task)
    → all (settled (some g)) ts ≡ true
    → any (locks g) ts ≡ false
    → runners ts ≡ 0
free-runners g [] h k = refl
free-runners g (t ∷ ts) h k = ground (arith, idle_task g t.phase t.gate, free-runners g ts)

moved-clone :
    (m : Move) (others : List Task) (g : ℕ) (p : Phase)
    → has_clone p ≡ false
    → has_clone (moved m others g p) ≡ false
unfolding moved
moved-clone Move.lock others g Phase.cleaning h = refl
moved-clone Move.end others g Phase.cleaning h = refl
moved-clone Move.drop others g Phase.cleaning h = refl
moved-clone _ others g Phase.waiting h = absurd (ground arith)
moved-clone _ others g Phase.running h = absurd (ground arith)
moved-clone _ others g Phase.ended h = absurd (ground arith)

moved-settled :
    (m : Move) (others : List Task) (e : Option ℕ) (g : ℕ) (p : Phase)
    → (not (has_clone p) || is_entry e g) ≡ true
    → (not (has_clone (moved m others g p)) || is_entry e g) ≡ true
moved-settled m others e g p h = ground (arith, moved-clone m others g p)

move_at-settled :
    (m : Move) (others : List Task) (e : Option ℕ) (i : ℕ) (ts : List Task)
    → all (settled e) ts ≡ true
    → all (settled e) (move_at m others i ts) ≡ true
unfolding move_at
move_at-settled m others e i [] h = refl
move_at-settled m others e zero (t ∷ ts) h = ground (arith, moved-settled m others e t.gate t.phase)
move_at-settled m others e (suc i) (t ∷ ts) h = ground (arith, move_at-settled m others e i ts)

-- A move that is no locking of a free lock starts no run.
moved-runs :
    (m : Move) (others : List Task) (g : ℕ) (p : Phase)
    → any (locks g) others ≡ true
    → is_running p ≡ false
    → is_running (moved m others g p) ≡ false
unfolding moved
moved-runs Move.lock others g Phase.waiting h k = rw h refl
moved-runs Move.lock others g Phase.running h k = k
moved-runs Move.lock others g Phase.ended h k = refl
moved-runs Move.lock others g Phase.cleaning h k = refl
moved-runs Move.end others g Phase.waiting h k = refl
moved-runs Move.end others g Phase.running h k = refl
moved-runs Move.end others g Phase.ended h k = refl
moved-runs Move.end others g Phase.cleaning h k = refl
moved-runs Move.drop others g Phase.waiting h k = refl
moved-runs Move.drop others g Phase.running h k = k
moved-runs Move.drop others g Phase.ended h k = refl
moved-runs Move.drop others g Phase.cleaning h k = refl

-- At most one run more, and none more where the lock of every clone is locked.
move_at-suc :
    (m : Move) (others : List Task) (i : ℕ) (ts : List Task)
    → runners (move_at m others i ts) ≤ suc (runners ts)
unfolding move_at
move_at-suc m others i [] = omega arith
move_at-suc m others zero (t ∷ ts) = ground arith
move_at-suc m others (suc i) (t ∷ ts) = ground (arith, move_at-suc m others i ts)

no_clone_runs : (p : Phase) → has_clone p ≡ false → is_running p ≡ false
no_clone_runs Phase.waiting h = absurd (ground arith)
no_clone_runs Phase.running h = absurd (ground arith)
no_clone_runs Phase.ended h = refl
no_clone_runs Phase.cleaning h = refl

step_runs :
    (m : Move) (others : List Task) (e g : ℕ) (p : Phase)
    → any (locks e) others ≡ true
    → (not (has_clone p) || e == g) ≡ true
    → is_running p ≡ false
    → is_running (moved m others g p) ≡ false
step_runs m others e g p h k r = elim (Bool-cases (e == g)) [
  | inl q ↦
      moved-runs m others g p (subst (λ x. any (locks x) others ≡ true) ((==_iff e g).0 q) h) r
  | inr q ↦ no_clone_runs (moved m others g p) (moved-clone m others g p (ground arith))
]

move_at-le :
    (m : Move) (others : List Task) (e i : ℕ) (ts : List Task)
    → any (locks e) others ≡ true
    → all (settled (some e)) ts ≡ true
    → runners (move_at m others i ts) ≤ runners ts
unfolding move_at
move_at-le m others e i [] h k = omega arith
move_at-le m others e zero (t ∷ ts) h k = ground (arith, step_runs m others e t.gate t.phase)
move_at-le m others e (suc i) (t ∷ ts) h k = ground (arith, move_at-le m others e i ts)

no_entry-runners : (ts : List Task) → all (settled none) ts ≡ true → runners ts ≡ 0
no_entry-runners [] h = refl
no_entry-runners (t ∷ ts) h = ground (arith, no_clone_runs t.phase, no_entry-runners ts)

move_at-one :
    (m : Move) (e : Option ℕ) (i : ℕ) (ts : List Task)
    → runners ts ≤ 1
    → all (settled e) ts ≡ true
    → runners (move_at m ts i ts) ≤ 1
move_at-one m none i ts o h =
    omega (arith, no_entry-runners (move_at m ts i ts) (move_at-settled m ts none i ts h))
move_at-one m (some g) i ts o h = elim (Bool-cases (any (locks g) ts)) [
  | inl q ↦ omega (arith, move_at-le m ts g i ts q h)
  | inr q ↦ omega (arith, free-runners g ts h q, move_at-suc m ts i ts)
]

move_at-used :
    (m : Move) (others : List Task) (e : Option ℕ) (i : ℕ) (ts : List Task)
    → used e ts ≡ true
    → used e (move_at m others i ts) ≡ true
unfolding move_at
move_at-used m others none i ts h = refl
move_at-used m others (some g) i [] h = h
move_at-used m others (some g) zero (t ∷ ts) h = refl
move_at-used m others (some g) (suc i) (t ∷ ts) h = refl

any_entry :
    (e : Option ℕ) (ts : List Task) → all (settled none) ts ≡ true → all (settled e) ts ≡ true
any_entry e [] h = refl
any_entry e (t ∷ ts) h = ground (arith, any_entry e ts)

without-settled :
    (e : Option ℕ) (i : ℕ) (ts : List Task)
    → all (settled e) ts ≡ true
    → all (settled e) (without i ts) ≡ true
unfolding without
without-settled e i [] h = refl
without-settled e zero (t ∷ ts) h = ground arith
without-settled e (suc i) (t ∷ ts) h = ground (arith, without-settled e i ts)

without-le : (i : ℕ) (ts : List Task) → runners (without i ts) ≤ runners ts
unfolding without
without-le i [] = omega arith
without-le zero (t ∷ ts) = ground arith
without-le (suc i) (t ∷ ts) = ground (arith, without-le i ts)

unheld :
    (g : ℕ) (ts : List Task)
    → all (settled (some g)) ts ≡ true
    → any (holds g) ts ≡ false
    → all (settled none) ts ≡ true
unheld g [] h k = refl
unheld g (t ∷ ts) h k = ground (arith, unheld g ts)

swept-settled :
    (e : Option ℕ) (ts : List Task)
    → all (settled e) ts ≡ true
    → all (settled (swept e ts)) ts ≡ true
unfolding swept
swept-settled none ts h = h
swept-settled (some g) ts h = elim (Bool-cases (any (holds g) ts)) [
  | inl q ↦ rw q h
  | inr q ↦ rw q (unheld g ts h q)
]

swept-used : (e : Option ℕ) (ts : List Task) → used (swept e ts) ts ≡ true
unfolding swept
swept-used none ts = refl
swept-used (some g) [] = refl
swept-used (some g) (t ∷ ts) = ground arith

entered_by :
    (e : Option ℕ) (n : ℕ) (ts : List Task)
    → IsSound (record { entry = e; next = n; tasks = ts })
    → IsSound (enter (record { entry = e; next = n; tasks = ts }))
unfolding enter
entered_by (some g) n ts i = record { one = i.one; clones = ground (arith, i.clones); kept = refl }
entered_by none n ts i = record {
  one = i.one;
  clones = ground (arith, any_entry (some n) ts i.clones);
  kept = refl;
}

entered : (s : Gates) → IsSound s → IsSound (enter s)
entered s i =
    entered_by s.entry s.next s.tasks (record { one = i.one; clones = i.clones; kept = i.kept })

act-IsSound : (s : Gates) (a : Act) → IsSound s → IsSound (act s a)
unfolding act
act-IsSound s Act.call i = entered s i
act-IsSound s (Act.move m n) i = record {
  one = move_at-one m s.entry n s.tasks i.one i.clones;
  clones = move_at-settled m s.tasks s.entry n s.tasks i.clones;
  kept = move_at-used m s.tasks s.entry n s.tasks i.kept;
}
act-IsSound s (Act.clean n) i = elim (Bool-cases (is_cleaning_at n s.tasks)) [
  | inl q ↦ rw q (record {
    one = omega (arith, without-le n s.tasks, i.one);
    clones = swept-settled s.entry (without n s.tasks) (without-settled s.entry n s.tasks i.clones);
    kept = swept-used s.entry (without n s.tasks);
  })
  | inr q ↦ rw q i
]

-- Under every schedule of the calls for a key, at most one task runs at a time, each clone is of
-- the lock in the map, so no two tasks go by different locks, and a lock is in the map only while
-- there is a task.
pub run-IsSound : (s : Gates) (acts : List Act) → IsSound s → IsSound (run s acts)
unfolding run
run-IsSound s [] i = i
run-IsSound s (a ∷ acts) i = run-IsSound (act s a) acts (act-IsSound s a i)
