-- ===== src/Canon/Tests.antt =====
-- The canon, its strict reading, README.md and the projection on concrete lists.
use setfork_core.Shared.{
  ℕ, suc, ◌+◌, ◌≡◌, ◌↔◌, refl, true, false, none, some, [], ◌∷◌, codes, ok, pos, arith,
  contains_str, length,
}
use setfork_core.Json.{Json, Fields}
use setfork_core.Canon.Raw.{raw_list}
use setfork_core.Canon.Written.{SerStep, VersionData, list_fields, message_line}
use setfork_core.Canon.Readme.Fence.{IsClosed, code_block-IsClosed}
use setfork_core.Canon.Readme.Page.{collapse_fuel, collapse, readme, readme_from_canon}
use setfork_core.Canon.Readme.Collapse.{collapse-Ends}
use setfork_core.Canon.Readme.Rebuilt.{readme_from_canon-readme}
use setfork_core.Canon.Project.{Host, project_pushed_commit}
use setfork_core.Canon.Project.Published.{Adds, project_pushed_commit-Adds}

abbrev step : SerStep
step = record {
  n = pos 1;
  block_type = none;
  content = Json.null;
  block_id = some (codes "b1");
  title = codes "Install";
  desc = codes "d";
  command = codes "make";
  image_key = none;
  level = codes "required";
  needs_human = true;
  needs_human_ask = some (codes "ok?");
  danger = false;
  why = [];
  section = codes "Setup";
  subtasks = codes "a" ∷ [];
  refs = record { label = []; url = some (codes "https://x") } ∷ [];
}

abbrev note_block : SerStep
note_block = record step {
  n = pos 2;
  block_type = some (codes "text");
  content = Json.obj (Fields.field (codes "md") (Json.str (codes "words")) Fields.end);
  title = [];
}

abbrev one : VersionData
one = record {
  version = pos 1;
  note = codes "fix";
  ts = pos 0;
  title = codes "List";
  desc = [];
  tags = codes "t" ∷ [];
  ordered = true;
  kind = some (codes "recipe");
  skill_header = none;
  steps = step ∷ note_block ∷ [];
}

abbrev canon : Json
canon = Json.obj (list_fields (codes "schema") one)

readme_from_canon-readme_example : readme_from_canon raw_list canon ≡ some (readme one)
readme_from_canon-readme_example =
    readme_from_canon-readme raw_list canon (codes "schema") one
      (omega arith, (omega arith, (omega arith, tt))) refl

code_block-IsClosed_example : IsClosed (codes "echo\n```\n") (codes "sh") 3
code_block-IsClosed_example = code_block-IsClosed (codes "echo\n```\n") (codes "sh") 3

collapse-Ends_example :
    (collapse_fuel (length (codes "a\n\n\n\n\nb") + 2) (codes "a\n\n\n\n\nb")
      ≡ collapse (codes "a\n\n\n\n\nb"))
    × (contains_str (collapse (codes "a\n\n\n\n\nb")) (codes "\n\n\n") ≡ false)
collapse-Ends_example = collapse-Ends (codes "a\n\n\n\n\nb") 2

-- A host whose state is the number of versions, with the canon at the tip.
abbrev host : Host Json ℕ
host = record {
  read_tip = λ w. ok (some (record { tip = codes "c0"; raw = canon; subject = message_line one }));
  from_slice = raw_list;
  add_version = λ note steps w. (ok (suc w), suc w);
  update_meta = λ m w. (ok tt, w);
  tag_version = λ v tip w. (ok tt, w);
}

project_pushed_commit-Adds_example :
    ((project_pushed_commit host 3).0 ≡ ok (some 4)) ↔ Adds host 3 4
project_pushed_commit-Adds_example = project_pushed_commit-Adds host 3 4
