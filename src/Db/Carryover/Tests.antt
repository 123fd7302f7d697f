-- ===== src/Db/Carryover/Tests.antt =====
-- The marks of a step on a concrete push.
use setfork_core.Shared.{
  ℕ, ◌≡◌, ◌≢◌, refl, true, false, Bool, Option, none, some, [], ◌∷◌, ◌++◌, arith, Str, codes, ok,
  str_eq, if◌then◌else◌, ◌==◌,
}
use setfork_core.Json.{empty_object}
use setfork_core.Db.Carryover.{
  CarryOver, no_marks, ProjStep, Kept, MarkRow, carry_of, mark_row, marks_from, current_marks, en,
}
use setfork_core.Db.Carryover.Marks.{current_marks-last}

abbrev uuid : Str → Option ℕ
uuid s = if str_eq s (codes "b-5") then some 5 else none

abbrev step : Option Bool → Option Str → ProjStep
step mark image = record {
  image_key = image;
  needs_human = mark;
  needs_human_ask = none;
  danger = mark;
  block_type = codes "";
  content = empty_object;
  block_id = some (codes "b-5");
  title = codes "wipe";
  desc = codes "";
  command = codes "rm";
  level = codes "optional";
  why = codes "";
  section = codes "";
  subtasks = [];
  refs = [];
}

abbrev dangerous : CarryOver
dangerous = record {
  needs_human = true;
  needs_human_ask = en (codes "sure?");
  image_key = some (codes "key");
  danger = true;
}

abbrev mild : MarkRow
mild = record {
  block_id = ok (some 5);
  needs_human = ok none;
  needs_human_ask = ok none;
  image_key = ok none;
  danger = ok (some false);
}

abbrev strict : MarkRow
strict = record {
  block_id = ok (some 5);
  needs_human = ok (some true);
  needs_human_ask = ok (some (en (codes "sure?")));
  image_key = ok (some (codes "key"));
  danger = ok (some true);
}

abbrev elsewhere : MarkRow
elsewhere = record mild { block_id = ok (some 6) }

abbrev kept : Kept
kept id = if str_eq (codes "x") (codes "y") then none else some dangerous

some_ne_none : {A : Type 0} (a : A) → some a ≢ none
some_ne_none a h = cc

six_ne_five : elsewhere.block_id ≢ ok (some 5)
six_ne_five h = ground arith

abbrev result : Kept
result j =
    if 6 == j
    then some no_marks
    else if 5 == j
    then some dangerous
    else if 5 == j
    then some no_marks
    else none

marks_read : current_marks ((mild ∷ []) ++ strict ∷ elsewhere ∷ []) ≡ ok result
unfolding current_marks marks_from mark_row carry_of
marks_read = refl

strict_read : carry_of strict ≡ ok dangerous
unfolding carry_of
strict_read = refl

current_marks-last_example : result 5 ≡ some dangerous
current_marks-last_example =
    current_marks-last (mild ∷ []) (elsewhere ∷ []) strict result 5 dangerous marks_read refl
      strict_read (six_ne_five, tt)
