-- ===== src/Canon/Written.antt =====
-- A version as it is written: `SerStep`, `VersionData`, `is_step_block`, `skill_header_valid`,
-- `list_json` and `commit_message` of git/serialize.rs. `m.insert` puts a key behind those that
-- stand there already. The URL of the schema is the value of a variable, if that is not blank.
use setfork_core.Shared.{
  Bool, true, false, not, ◌&&◌, ◌||◌, Option, none, some, List, [], ◌∷◌, ◌++◌, map, Str, codes,
  str_eq, is_empty, trim, unwrap_or, and_then, starts_with, any, ℤ, pos, negsuc, suc, if◌then◌else◌,
}
use setfork_core.Json.{Json, Fields, find, as_str, opt_field, items}
use setfork_core.Blocks.{is_step_type}
use setfork_core.Names.Decimal.{digits}
use setfork_core.Canon.Steps.{non_blank}

pub record StepRef : Type 0 where
  pub label : Str
  pub url : Option Str

pub record SerStep : Type 0 where
  pub n : ℤ
  pub block_type : Option Str
  pub content : Json
  pub block_id : Option Str
  pub title : Str
  pub desc : Str
  pub command : Str
  pub image_key : Option Str
  pub level : Str
  pub needs_human : Bool
  pub needs_human_ask : Option Str
  pub danger : Bool
  pub why : Str
  pub section : Str
  pub subtasks : List Str
  pub refs : List StepRef

pub record VersionData : Type 0 where
  pub version : ℤ
  pub note : Str
  pub ts : ℤ
  pub title : Str
  pub desc : Str
  pub tags : List Str
  pub ordered : Bool
  pub kind : Option Str
  pub skill_header : Option Json
  pub steps : List SerStep

abbrev pub is_none_or {ℓ} : {A : Type ℓ} → Option A → (A → Bool) → Bool
is_none_or none p = true
is_none_or (some a) p = p a

unfoldable pub is_step_block : SerStep → Bool
unfolding is_step_type
is_step_block s = is_none_or s.block_type is_step_type

abbrev pub option_map {ℓ κ} : {A : Type ℓ} {B : Type κ} → (A → B) → Option A → Option B
option_map f none = none
option_map f (some a) = some (f a)

-- `is_valid_kind`
abbrev pub list_kinds : List Str
list_kinds =
    codes "procedure"
    ∷ codes "inventory"
    ∷ codes "checklist"
    ∷ codes "criteria"
    ∷ codes "options"
    ∷ codes "recipe"
    ∷ []

unfoldable pub is_valid_kind : Str → Bool
is_valid_kind s = any (str_eq s) list_kinds

-- `json!(n)` of an integer, and `json!` of a list of texts.
abbrev pub number : ℤ → Json
number (pos n) = Json.uint n
number (negsuc n) = Json.neg n

abbrev pub texts : List Str → Json
texts ss = Json.arr (items (map Json.str ss))

-- `skill_header_valid`
abbrev header_text : Option Json → Option Json
header_text o = option_map Json.str (non_blank (and_then o as_str))

unfoldable pub clean_metadata : Fields → Fields
clean_metadata Fields.end = Fields.end
clean_metadata (Fields.field k v fs) =
    let rest = clean_metadata fs in
    if starts_with k (codes "setfork-")
    then rest
    else opt_field k (option_map Json.str (as_str v)) rest

abbrev filled_object : Fields → Option Json
filled_object Fields.end = none
filled_object (Fields.field k v fs) = some (Json.obj (Fields.field k v fs))

abbrev pub header_metadata : Option Json → Option Json
unfolding clean_metadata
header_metadata (some (Json.obj fs)) = filled_object (clean_metadata fs)
header_metadata _ = none

unfoldable pub skill_header_of : Fields → Option Json
skill_header_of fs = filled_object (
    opt_field (codes "license") (header_text (find fs (codes "license"))) (
      opt_field (codes "compatibility") (header_text (find fs (codes "compatibility"))) (
        opt_field (codes "allowed-tools") (header_text (find fs (codes "allowed-tools"))) (
          opt_field (codes "heading") (header_text (find fs (codes "heading"))) (
            opt_field (codes "metadata") (header_metadata (find fs (codes "metadata")))
              Fields.end)))))

unfoldable pub skill_header_valid : Json → Option Json
unfolding skill_header_of
skill_header_valid (Json.obj fs) = skill_header_of fs
skill_header_valid _ = none

abbrev pub when : Bool → Json → Option Json
when true v = some v
when false v = none

unfoldable pub ref_value : StepRef → Json
ref_value r = Json.obj (
    opt_field (codes "label") (when (not (is_empty r.label)) (Json.str r.label))
      (opt_field (codes "url") (option_map Json.str r.url) Fields.end))

-- The key of the picture that is written.
unfoldable pub picture : SerStep → Option Str
picture s = elim s.image_key [
  | none ↦ none
  | some k ↦ if is_empty (trim k) then none else some (trim k)
]

unfoldable pub step_fields : SerStep → Fields
unfolding is_step_block picture ref_value
step_fields s =
    let no_step = not (is_step_block s) in
    Fields.field (codes "n") (number s.n) (
      opt_field (codes "blockId") (option_map Json.str s.block_id) (
        opt_field (codes "type") (when no_step (Json.str (unwrap_or s.block_type []))) (
          opt_field (codes "content") (when no_step s.content) (
            Fields.field (codes "title") (Json.str s.title) (
              Fields.field (codes "desc") (Json.str s.desc) (
                Fields.field (codes "command") (Json.str s.command) (
                  opt_field (codes "imageKey") (option_map Json.str (picture s)) (
                    Fields.field (codes "level") (Json.str s.level) (
                      opt_field (codes "needsHuman") (when s.needs_human (Json.bool true)) (
                        opt_field (codes "needsHumanAsk")
                          (if s.needs_human then option_map Json.str s.needs_human_ask else none)
                          (opt_field (codes "danger") (when s.danger (Json.bool true)) (
                            Fields.field (codes "why") (Json.str s.why) (
                              Fields.field (codes "section") (Json.str s.section) (
                                Fields.field (codes "subtasks") (texts s.subtasks) (
                                  Fields.field (codes "refs")
                                    (Json.arr (items (map ref_value s.refs)))
                                    Fields.end)))))))))))))))

unfoldable pub step_value : SerStep → Json
unfolding step_fields
step_value s = Json.obj (step_fields s)

unfoldable pub schema_url : Option Str → Str
schema_url variable =
    unwrap_or (non_blank variable) (codes "https://setfork.com/schema/list.v1.json")

unfoldable pub list_fields : Str → VersionData → Fields
unfolding skill_header_valid step_value
list_fields schema v = Fields.field (codes "$schema") (Json.str schema) (
    Fields.field (codes "title") (Json.str v.title) (
      Fields.field (codes "desc") (Json.str v.desc) (
        Fields.field (codes "tags") (texts v.tags) (
          Fields.field (codes "ordered") (Json.bool v.ordered) (
            opt_field (codes "kind") (option_map Json.str v.kind) (
              opt_field (codes "skillHeader") (and_then v.skill_header skill_header_valid) (
                Fields.field (codes "version") (number v.version) (
                  Fields.field (codes "steps") (Json.arr (items (map step_value v.steps)))
                    Fields.end))))))))

-- `print` is `serde_json::to_string_pretty`.
unfoldable pub list_json : (Json → Str) → Str → VersionData → Str
unfolding list_fields
list_json print schema v = print (Json.obj (list_fields schema v)) ++ codes "\n"

-- `{}` of an `i32`.
unfoldable pub decimal : ℤ → Str
unfolding digits
decimal (pos n) = digits n
decimal (negsuc n) = b'-' ∷ digits (suc n)

abbrev pub boilerplate : Str → Bool
boilerplate s = str_eq s (codes "initial") || str_eq s (codes "edit") || str_eq s (codes "seeded")

-- `msg` of `commit_message`.
unfoldable pub message_line : VersionData → Str
unfolding decimal
message_line v =
    if not (is_empty v.note) && not (boilerplate v.note)
    then (b'v' ∷ decimal v.version) ++ codes ": " ++ v.note
    else b'v' ∷ decimal v.version

unfoldable pub commit_message : VersionData → Str
unfolding message_line
commit_message v = message_line v ++ codes "\n"
