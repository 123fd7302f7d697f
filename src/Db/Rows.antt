-- ===== src/Db/Rows.antt =====
-- `ser_step_from_row` and `refs_from_json` of db/versions.rs, and `loc` of db/mod.rs: a row of the
-- table of steps as a step of the canon. `uuid_text` is the formatting of a `Uuid`, a number here.
pub mod Projected
mod Tests
use setfork_core.Shared.{
  ℕ, Bool, true, false, not, ◌&&◌, Option, none, some, List, [], ◌∷◌, Str, codes, is_empty,
  unwrap_or, and_then, if◌then◌else◌, ℤ,
}
use setfork_core.Json.{Json, Items, Fields, find, get, as_str}
use setfork_core.Blocks.{is_step_type}
use setfork_core.Canon.Written.{SerStep, StepRef, option_map}
use setfork_core.Db.Carryover.{StepRow, Level, keeps_ref}

abbrev pub first_text : Fields → Str
first_text Fields.end = []
first_text (Fields.field k (Json.str s) fs) = s
first_text (Fields.field k _ fs) = first_text fs

unfoldable pub loc : Json → Str
loc (Json.obj fs) = unwrap_or (and_then (find fs (codes "en")) as_str) (first_text fs)
loc _ = []

-- `Level::as_str`
abbrev pub level_text : Level → Str
level_text Level.required = codes "required"
level_text Level.recommended = codes "recommended"
level_text Level.optional = codes "optional"

unfoldable pub located_texts : Items → List Str
unfolding loc
located_texts Items.nil = []
located_texts (Items.cons v vs) =
    let rest = located_texts vs in if is_empty (loc v) then rest else loc v ∷ rest

abbrev pub ref_of : Json → StepRef
unfolding loc
ref_of x = record {
  label = unwrap_or (option_map loc (get x (codes "label"))) [];
  url = and_then (get x (codes "url")) as_str;
}

unfoldable pub refs_from_json : Items → List StepRef
unfolding keeps_ref ref_of
refs_from_json Items.nil = []
refs_from_json (Items.cons x xs) =
    let rest = refs_from_json xs in
    let r = ref_of x in if keeps_ref r.label r.url then r ∷ rest else rest

abbrev pub unless_step : Str → Option Str
unfolding is_step_type
unless_step t = if is_step_type t then none else some t

abbrev pub asked : Bool → Str → Option Str
asked needs_human ask = if not (is_empty ask) && needs_human then some ask else none

module _ (uuid_text : ℕ → Str) where
  unfoldable pub ser_step_from_row : ℤ → StepRow → SerStep
  unfolding located_texts refs_from_json is_step_type unless_step
  ser_step_from_row n r = record {
    n = n;
    block_type = unless_step r.block_type;
    content = if is_step_type r.block_type then Json.null else r.content;
    block_id = option_map uuid_text r.block_id;
    title = loc r.title;
    desc = loc r.desc;
    command = r.command;
    image_key = r.image_key;
    level = level_text r.level;
    needs_human = r.needs_human;
    needs_human_ask = asked r.needs_human (loc r.needs_human_ask);
    danger = r.danger;
    why = loc r.why;
    section = loc r.section;
    subtasks = located_texts r.subtasks;
    refs = refs_from_json r.refs;
  }
