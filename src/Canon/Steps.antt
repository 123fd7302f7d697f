-- ===== src/Canon/Steps.antt =====
-- `parse_steps`, `parse_list_value`, `snapshot_from_data` and `block_commands` of git/project.rs.
use setfork_core.Shared.{
  Bool, true, not, ◌&&◌, Option, none, some, List, [], ◌∷◌, Str, is_empty, trim, unwrap_or,
  and_then, ok, err, ℤ, pos, if◌then◌else◌,
}
use setfork_core.Json.{Json}
use setfork_core.Blocks.{is_step_type}
use setfork_core.Db.Carryover.{ProjRef, ProjStep, keeps_ref}
use setfork_core.Canon.Raw.{RawRef, RawStep, RawList, Read, raw_list}

-- `.trim().is_empty()`
abbrev pub blank : Str → Bool
blank s = is_empty (trim s)

-- `.filter(|x| !x.trim().is_empty())`
abbrev pub non_blank : Option Str → Option Str
non_blank none = none
non_blank (some s) = if blank s then none else some s

unfoldable pub ref_kept : RawRef → Bool
unfolding keeps_ref
ref_kept r = keeps_ref (unwrap_or r.label []) r.url

abbrev pub proj_ref : RawRef → ProjRef
proj_ref r = record { label = unwrap_or r.label []; url = r.url }

unfoldable pub parse_refs : List RawRef → List ProjRef
unfolding ref_kept
parse_refs [] = []
parse_refs (r ∷ rs) = let rest = parse_refs rs in if ref_kept r then proj_ref r ∷ rest else rest

abbrev pub type_of : RawStep → Str
type_of s = unwrap_or s.block_type []

-- A step block without a title is left out.
unfoldable pub step_kept : RawStep → Bool
unfolding is_step_type
step_kept s = not (is_step_type (type_of s) && blank (unwrap_or s.title []))

unfoldable pub proj_step : RawStep → ProjStep
unfolding is_step_type parse_refs
proj_step s =
    let is_step = is_step_type (type_of s) in
    record {
      image_key = s.image_key;
      needs_human = s.needs_human;
      needs_human_ask = non_blank s.needs_human_ask;
      danger = s.danger;
      block_type = if is_step then [] else type_of s;
      content = if is_step then Json.null else unwrap_or s.content Json.null;
      block_id = non_blank s.block_id;
      title = unwrap_or s.title [];
      desc = unwrap_or s.desc [];
      command = unwrap_or s.command [];
      level = unwrap_or s.level [];
      why = unwrap_or s.why [];
      section = unwrap_or s.section [];
      subtasks = unwrap_or s.subtasks [];
      refs = parse_refs (unwrap_or s.refs []);
    }

unfoldable pub parse_steps : List RawStep → List ProjStep
unfolding step_kept proj_step
parse_steps [] = []
parse_steps (s ∷ ss) = let rest = parse_steps ss in if step_kept s then proj_step s ∷ rest else rest

pub record ListParts : Type 0 where
  pub title : Str
  pub desc : Str
  pub tags : List Str
  pub ordered : Bool
  pub version : ℤ
  pub steps : List ProjStep

unfoldable pub list_parts : RawList → ListParts
unfolding parse_steps
list_parts l = record {
  title = unwrap_or l.title [];
  desc = unwrap_or l.desc [];
  tags = unwrap_or l.tags [];
  ordered = unwrap_or l.ordered true;
  version = unwrap_or l.version (pos 0);
  steps = parse_steps (unwrap_or l.steps []);
}

abbrev pub parts_or_none : Read RawList → Option ListParts
parts_or_none (ok l) = some (list_parts l)
parts_or_none (err e) = none

unfoldable pub parse_list_value : Json → Option ListParts
unfolding raw_list list_parts
parse_list_value v = parts_or_none (raw_list v)

-- `from_slice` is `serde_json::from_slice` of a `Value`.
pub record BranchSnapshotData : Type 0 where
  pub tip : Str
  pub title : Str
  pub desc : Str
  pub tags : List Str
  pub ordered : Bool
  pub steps : List ProjStep

abbrev with_tip : Str → ListParts → BranchSnapshotData
with_tip tip p = record {
  tip = tip;
  title = p.title;
  desc = p.desc;
  tags = p.tags;
  ordered = p.ordered;
  steps = p.steps;
}

unfoldable pub snapshot_from_data :
    {Body : Type 0} → (Body → Option Json) → Str → Body → Option BranchSnapshotData
unfolding parse_list_value
snapshot_from_data from_slice tip raw =
    and_then (and_then (from_slice raw) parse_list_value) (λ p. some (with_tip tip p))

abbrev commands_of : List RawStep → List (Option Str)
commands_of [] = []
commands_of (s ∷ ss) = s.command ∷ commands_of ss

-- `from_list` is `serde_json::from_slice` of a `RawList`.
unfoldable pub block_commands :
    {Body : Type 0} → (Body → Read RawList) → Body → Option (List (Option Str))
block_commands from_list raw = elim (from_list raw) [
  | ok l ↦ some (commands_of (unwrap_or l.steps []))
  | err e ↦ none
]
