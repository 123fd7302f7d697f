-- ===== src/Db/Carryover.antt =====
-- `proj_step_row` and `current_marks` of db/carryover.rs, `Level` and `loc_val` of db/mod.rs, and
-- `keeps_ref` of git/serialize.rs. A map is a function; the rows of the query come in its order,
-- and reading a column can fail. `parse_uuid` is `Uuid::parse_str(v).ok()`, a `Uuid` being a
-- number.
pub mod Marks
mod Tests
use setfork_core.Shared.{
  ℕ, Bool, true, false, not, ◌&&◌, ◌||◌, Option, none, some, List, [], ◌∷◌, ◌==◌, if◌then◌else◌,
  Str, codes, str_eq, is_empty, trim, unwrap_or, and_then, is_some_and, Result, ok, err, ◌>>=◌, map,
}
use setfork_core.Json.{Json, Items, Fields, empty_object}
use setfork_core.Blocks.{is_step_type, storage_type}

pub record CarryOver : Type 0 where
  pub needs_human : Bool
  pub needs_human_ask : Json
  pub image_key : Option Str
  pub danger : Bool

-- `CarryOver::default()`
abbrev pub no_marks : CarryOver
no_marks = record {
  needs_human = false;
  needs_human_ask = empty_object;
  image_key = none;
  danger = false;
}

pub record ProjRef : Type 0 where
  pub label : Str
  pub url : Option Str

pub record ProjStep : Type 0 where
  pub image_key : Option Str
  pub needs_human : Option Bool
  pub needs_human_ask : Option Str
  pub danger : Option Bool
  pub block_type : Str
  pub content : Json
  pub block_id : Option Str
  pub title : Str
  pub desc : Str
  pub command : Str
  pub level : Str
  pub why : Str
  pub section : Str
  pub subtasks : List Str
  pub refs : List ProjRef

pub data Level : Type 0 where
  required recommended optional : Level

-- `Level::parse`
unfoldable pub parse_level : Str → Level
parse_level s =
    if str_eq (trim s) (codes "recommended")
    then Level.recommended
    else if str_eq (trim s) (codes "optional")
    then Level.optional
    else Level.required

-- `{"en": s}`
abbrev pub en : Str → Json
en s = Json.obj (Fields.field (codes "en") (Json.str s) Fields.end)

unfoldable pub loc_val : Str → Json
loc_val s = if is_empty (trim s) then empty_object else en (trim s)

unfoldable pub keeps_ref : Str → Option Str → Bool
keeps_ref label url = not (is_empty (trim label)) || is_some_and url (λ u. not (is_empty (trim u)))

-- A row of the table of steps.
pub record StepRow : Type 0 where
  pub block_type : Str
  pub content : Json
  pub block_id : Option ℕ
  pub title : Json
  pub desc : Json
  pub command : Str
  pub image_key : Option Str
  pub level : Level
  pub why : Json
  pub section : Json
  pub subtasks : Items
  pub refs : Items
  pub needs_human : Bool
  pub needs_human_ask : Json
  pub danger : Bool

unfoldable pub subtask_items : List Str → Items
subtask_items [] = Items.nil
subtask_items (x ∷ xs) =
    let rest = subtask_items xs in if is_empty (trim x) then rest else Items.cons (en (trim x)) rest

abbrev pub url_fields : Option Str → Fields
url_fields none = Fields.end
url_fields (some u) =
    if is_empty (trim u)
    then Fields.end
    else Fields.field (codes "url") (Json.str (trim u)) Fields.end

abbrev pub ref_json : ProjRef → Json
ref_json r = Json.obj (
    Fields.field (codes "label")
      (if is_empty (trim r.label) then empty_object else en (trim r.label)) (url_fields r.url))

unfoldable pub ref_items : List ProjRef → Items
unfolding keeps_ref
ref_items [] = Items.nil
ref_items (r ∷ rs) =
    let rest = ref_items rs in
    if keeps_ref r.label r.url then Items.cons (ref_json r) rest else rest

abbrev pub Kept : Type 0
Kept = ℕ → Option CarryOver

-- The key of the file if it has the field, the empty one meaning none; else the key that is kept.
unfoldable pub image_of : Option Str → Option Str → Option Str
image_of none old = old
image_of (some k) old = if is_empty (trim k) then none else some (trim k)

abbrev question : Option Str → Json
question none = empty_object
question (some q) = loc_val q

unfoldable pub ask_of : Option Bool → Option Str → Json → Json
ask_of (some true) q old = question q
ask_of (some false) q old = empty_object
ask_of none q old = old

module _ (parse_uuid : Str → Option ℕ) where
  unfoldable pub carried : Option Str → Kept → CarryOver
  carried block_id keep = unwrap_or (and_then (and_then block_id parse_uuid) keep) no_marks

  unfoldable pub proj_step_row : ProjStep → Kept → StepRow
  unfolding carried image_of ask_of
  proj_step_row s keep =
      let carry = carried s.block_id keep in
      record {
        block_type = storage_type s.block_type;
        content = if is_step_type s.block_type then empty_object else s.content;
        block_id = and_then s.block_id parse_uuid;
        title = loc_val s.title;
        desc = loc_val s.desc;
        command = trim s.command;
        image_key = image_of s.image_key carry.image_key;
        level = parse_level s.level;
        why = loc_val s.why;
        section = loc_val s.section;
        subtasks = subtask_items s.subtasks;
        refs = ref_items s.refs;
        needs_human = unwrap_or s.needs_human carry.needs_human;
        needs_human_ask = ask_of s.needs_human s.needs_human_ask carry.needs_human_ask;
        danger = unwrap_or s.danger carry.danger;
      }

-- A row of the query, by what reading each column comes to.
pub record MarkRow : Type 0 where
  pub block_id : Result Str (Option ℕ)
  pub needs_human : Result Str (Option Bool)
  pub needs_human_ask : Result Str (Option Json)
  pub image_key : Result Str (Option Str)
  pub danger : Result Str (Option Bool)

unfoldable pub carry_of : MarkRow → Result Str CarryOver
carry_of r = do
  human ← r.needs_human
  ask ← r.needs_human_ask
  image ← r.image_key
  danger ← r.danger
  ok (record {
    needs_human = unwrap_or human false;
    needs_human_ask = unwrap_or ask empty_object;
    image_key = image;
    danger = unwrap_or danger false;
  })

abbrev pub insert : Kept → ℕ → CarryOver → Kept
insert m id c j = if id == j then some c else m j

unfoldable pub mark_row : Kept → MarkRow → Option ℕ → Result Str Kept
unfolding carry_of
mark_row out r none = ok out
mark_row out r (some id) = do c ← carry_of r; ok (insert out id c)

unfoldable pub marks_from : Kept → List MarkRow → Result Str Kept
unfolding mark_row
marks_from out [] = ok out
marks_from out (r ∷ rs) = do id ← r.block_id; out' ← mark_row out r id; marks_from out' rs

unfoldable pub current_marks : List MarkRow → Result Str Kept
unfolding marks_from
current_marks rows = marks_from (λ id. none) rows
