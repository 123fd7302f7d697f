-- ===== src/Db/Rows/Tests.antt =====
-- A projected step through a row of the database.
use setfork_core.Shared.{◌++◌, ℕ, true, Option, none, some, [], ◌∷◌, Str, codes, length}
use setfork_core.Json.{Json}
use setfork_core.Db.Carryover.{ProjStep}

abbrev step : ProjStep
step = record {
  image_key = none;
  needs_human = some true;
  needs_human_ask = some (codes "ok?");
  danger = none;
  block_type = [];
  content = Json.null;
  block_id = some (codes "b1");
  title = codes " Install ";
  desc = [];
  command = codes "make ";
  level = codes "optional";
  why = [];
  section = codes "Setup";
  subtasks = codes "a" ∷ codes " " ∷ [];
  refs =
      record { label = codes " "; url = none } ∷ record { label = codes "docs "; url = none } ∷ [];
}

abbrev by_length : Str → Option ℕ
by_length s = some (length s)

abbrev id_text : ℕ → Str
id_text n = codes "b" ++ n ∷ []
