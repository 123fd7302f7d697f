-- ===== src/Canon/Readme/Page.antt =====
-- `readme` and `version_files` of git/serialize.rs, and `readme_from_canon` of git/project.rs. The
-- `while` that takes blank lines out is a recursion on fuel, and is given as much as the text is
-- long: each round shortens it. `from_list` is `serde_json::from_slice` of a `RawList`.
use mathlib.Core.List.{reverse}
use setfork_core.Shared.{
  ℕ, zero, suc, ◌+◌, Bool, true, false, not, ◌&&◌, Option, none, some, List, [], ◌∷◌, ◌++◌, map,
  Str, codes, str_eq, is_empty, trim_start, contains_str, length, unwrap_or, if◌then◌else◌, pos, ok,
  err,
}
use setfork_core.Json.{Json}
use setfork_core.Names.Decimal.{digits}
use setfork_core.Canon.Raw.{Read, RawRef, RawStep, RawList}
use setfork_core.Canon.Written.{StepRef, SerStep, VersionData, is_step_block, list_json, decimal}
use setfork_core.Canon.Readme.{replace, join, repeat, ref_item, code_block, block_lines}

abbrev any_of : List Str → Bool
any_of [] = false
any_of (t ∷ ts) = true

abbrev line_if : Bool → List Str → List Str
line_if b ls = if b then ls else []

unfoldable pub marker : Bool → ℕ → Str
unfolding digits
marker ordered num = if ordered then digits num ++ codes "." else codes "-"

unfoldable pub item_lines : Bool → ℕ → SerStep → List Str
unfolding marker replace code_block ref_item
item_lines ordered num s =
    let indent = repeat 32 (length (marker ordered num) + 1) in
    let lvl =
      if not (is_empty s.level) && not (str_eq s.level (codes "required"))
      then codes " _(" ++ s.level ++ codes ")_"
      else [] in
    ((marker ordered num ++ codes " **" ++ s.title ++ codes "**" ++ lvl) ∷ [])
    ++ line_if (not (is_empty s.desc)) ((indent ++ replace s.desc (codes "\n") (10 ∷ indent)) ∷ [])
    ++ line_if (not (is_empty s.command)) ([] ∷ code_block s.command indent (codes "sh"))
    ++ line_if (not (is_empty s.why)) ((indent ++ codes "> why: " ++ s.why) ∷ [])
    ++ map (λ st. indent ++ codes "- [ ] " ++ st) s.subtasks
    ++ map (λ r. indent ++ codes "- " ++ ref_item r) s.refs
    ++ ([] ∷ [])

-- `section` and `step_num` are the variables of the loop.
unfoldable pub step_lines : Bool → Str → ℕ → List SerStep → List Str
unfolding item_lines block_lines is_step_block
step_lines ordered section num [] = []
step_lines ordered section num (s ∷ ss) = elim (is_step_block s) [
  | false ↦
      block_lines (unwrap_or s.block_type []) s.content s.refs ++ step_lines ordered section num ss
  | true ↦ elim (not (is_empty s.section) && not (str_eq s.section section)) [
    | true ↦
        ([] ∷ (codes "## " ++ s.section) ∷ [] ∷ [])
        ++ item_lines ordered (suc num) s
        ++ step_lines ordered s.section (suc num) ss
    | false ↦ item_lines ordered (suc num) s ++ step_lines ordered section (suc num) ss
  ]
]

unfoldable pub step_count : List SerStep → ℕ
unfolding is_step_block
step_count [] = 0
step_count (s ∷ ss) = let rest = step_count ss in if is_step_block s then suc rest else rest

unfoldable pub page_lines : VersionData → List Str
unfolding step_lines step_count join decimal
page_lines v =
    let kind = if v.ordered then codes "Ordered list" else codes "Unordered set" in
    ((codes "# " ++ v.title) ∷ [] ∷ [])
    ++ line_if (not (is_empty v.desc)) (v.desc ∷ [] ∷ [])
    ++ line_if (any_of v.tags)
        (join (codes " ") (map (λ t. codes "`" ++ t ++ codes "`") v.tags) ∷ [] ∷ [])
    ++ ((codes "> "
          ++ kind
          ++ codes " · v"
          ++ decimal v.version
          ++ codes " · "
          ++ digits (step_count v.steps)
          ++ codes " items")
        ∷ []
        ∷ [])
    ++ step_lines v.ordered [] 0 v.steps
    ++ ([]
        ∷ codes "---"
        ∷ []
        ∷ codes
            "> Generated by SetFork — the canonical source is [list.json](./list.json). Edit list.json; manual changes to this file are overwritten on the next version."
        ∷ [])

-- `while out.contains("\n\n\n") { out = out.replace("\n\n\n", "\n\n") }`
unfoldable pub collapse_fuel : ℕ → Str → Str
unfolding replace
collapse_fuel zero s = s
collapse_fuel (suc fuel) s = elim (contains_str s (codes "\n\n\n")) [
  | true ↦ collapse_fuel fuel (replace s (codes "\n\n\n") (codes "\n\n"))
  | false ↦ s
]

unfoldable pub collapse : Str → Str
unfolding collapse_fuel
collapse s = collapse_fuel (length s) s

-- `s.trim_end()`
unfoldable pub trim_end : Str → Str
unfolding trim_start
trim_end s = reverse (trim_start (reverse s))

unfoldable pub readme : VersionData → Str
unfolding page_lines collapse trim_end
readme v = trim_end (collapse (join (codes "\n") (page_lines v))) ++ codes "\n"

unfoldable pub version_files : (Json → Str) → Str → VersionData → List (Str × Str)
unfolding readme list_json
version_files print schema v =
    (codes "README.md", readme v)
    ∷ (codes "list.json", list_json print schema v)
    ∷ (codes ".gitattributes", codes "README.md linguist-generated=true\n")
    ∷ []

abbrev pub ser_ref : RawRef → StepRef
ser_ref r = record { label = unwrap_or r.label []; url = r.url }

-- `idx` is the index of the step.
abbrev pub ser_step : ℕ → RawStep → SerStep
ser_step idx r = record {
  n = unwrap_or r.n (pos (idx + 1));
  block_type = r.block_type;
  content = unwrap_or r.content Json.null;
  block_id = r.block_id;
  title = unwrap_or r.title [];
  desc = unwrap_or r.desc [];
  command = unwrap_or r.command [];
  image_key = r.image_key;
  level = unwrap_or r.level [];
  needs_human = unwrap_or r.needs_human false;
  needs_human_ask = r.needs_human_ask;
  danger = unwrap_or r.danger false;
  why = unwrap_or r.why [];
  section = unwrap_or r.section [];
  subtasks = unwrap_or r.subtasks [];
  refs = map ser_ref (unwrap_or r.refs []);
}

abbrev pub ser_steps : ℕ → List RawStep → List SerStep
ser_steps idx [] = []
ser_steps idx (r ∷ rs) = ser_step idx r ∷ ser_steps (suc idx) rs

unfoldable pub version_of_raw : RawList → VersionData
version_of_raw l = record {
  version = unwrap_or l.version (pos 0);
  note = [];
  ts = pos 0;
  title = unwrap_or l.title [];
  desc = unwrap_or l.desc [];
  tags = unwrap_or l.tags [];
  ordered = unwrap_or l.ordered true;
  kind = l.kind;
  skill_header = l.skill_header;
  steps = ser_steps 0 (unwrap_or l.steps []);
}

abbrev pub readme_of : Read RawList → Option Str
unfolding readme version_of_raw
readme_of (ok l) = some (readme (version_of_raw l))
readme_of (err e) = none

unfoldable pub readme_from_canon : {Body : Type 0} → (Body → Read RawList) → Body → Option Str
readme_from_canon from_list raw = readme_of (from_list raw)
