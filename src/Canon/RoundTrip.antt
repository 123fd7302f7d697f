-- ===== src/Canon/RoundTrip.antt =====
-- What the projection reads of the canon that was written of a version.
use setfork_core.Shared.{
  ◌≡◌, refl, Bool, true, false, not, ◌&&◌, Option, none, some, List, [], ◌∷◌, map, Str, is_empty,
  unwrap_or, if◌then◌else◌, arith,
}
use setfork_core.Json.{Json}
use setfork_core.Blocks.{is_step_type}
use setfork_core.Canon.Steps.{
  blank, non_blank, type_of, proj_step, step_kept, parse_refs, ref_kept, parse_steps,
}
use setfork_core.Db.Carryover.{ProjRef, ProjStep, keeps_ref}
use setfork_core.Canon.Reading.{present, raw_of_ref, raw_of_step}
use setfork_core.Canon.Written.{StepRef, SerStep, is_step_block, is_none_or, picture}

-- The references that are no empty ones.
unfoldable pub refs_back : List StepRef → List ProjRef
refs_back [] = []
refs_back (r ∷ rs) =
    let rest = refs_back rs in
    if keeps_ref r.label r.url then record { label = r.label; url = r.url } ∷ rest else rest

-- What a step that was written is read as, by its fields.
unfoldable pub step_back : SerStep → ProjStep
unfolding refs_back
step_back s =
    let no_step = not (is_step_block s) in
    record {
      image_key = picture s;
      needs_human = if s.needs_human then some true else none;
      needs_human_ask = if s.needs_human then non_blank s.needs_human_ask else none;
      danger = if s.danger then some true else none;
      block_type = if no_step then unwrap_or s.block_type [] else [];
      content = if no_step then s.content else Json.null;
      block_id = non_blank s.block_id;
      title = s.title;
      desc = s.desc;
      command = s.command;
      level = s.level;
      why = s.why;
      section = s.section;
      subtasks = s.subtasks;
      refs = refs_back s.refs;
    }

-- The steps that have a title or are no steps.
unfoldable pub steps_back : List SerStep → List ProjStep
steps_back [] = []
steps_back (s ∷ ss) =
    let rest = steps_back ss in
    if is_step_block s && blank s.title then rest else step_back s ∷ rest

pub label_back : (l : Str) → unwrap_or (if is_empty l then none else some l) [] ≡ l
label_back [] = refl
label_back (c ∷ l) = refl

parse_refs-map : (rs : List StepRef) → parse_refs (map raw_of_ref rs) ≡ refs_back rs
unfolding parse_refs refs_back raw_of_ref ref_kept
parse_refs-map [] = refl
parse_refs-map (r ∷ rs) = rw (label_back r.label, parse_refs-map rs) refl

read_typed :
    (b : Bool) (t : Str)
    → is_step_type t ≡ b
    → is_step_type (unwrap_or (if not b then some t else none) []) ≡ b
unfolding is_step_type
read_typed true t h = refl
read_typed false t h = h

read_type :
    (o : Option Str)
    → is_step_type
        (unwrap_or (if not (is_none_or o is_step_type) then some (unwrap_or o []) else none) [])
      ≡ is_none_or o is_step_type
unfolding is_step_type
read_type none = refl
read_type (some t) = read_typed (is_step_type t) t refl

type-IsStep : (s : SerStep) → is_step_type (type_of (raw_of_step s)) ≡ is_step_block s
unfolding raw_of_step is_step_block
type-IsStep s = read_type s.block_type

pub value_back : (v : Json) → unwrap_or (present v) Json.null ≡ v
unfolding present
value_back Json.null = refl
value_back (Json.bool b) = refl
value_back (Json.uint n) = refl
value_back (Json.neg n) = refl
value_back (Json.number n) = refl
value_back (Json.str t) = refl
value_back (Json.arr vs) = refl
value_back (Json.obj fs) = refl

ask_back :
    (b : Bool) (o : Option Str)
    → non_blank (if b then o else none) ≡ (if b then non_blank o else none)
ask_back true o = refl
ask_back false o = refl

content_back :
    (b : Bool) (v : Json)
    → (if b then Json.null else unwrap_or (if not b then present v else none) Json.null)
      ≡ (if not b then v else Json.null)
content_back true v = refl
content_back false v = value_back v

type_back :
    (b : Bool) (o : Option Str)
    → (if b then [] else unwrap_or (if not b then some (unwrap_or o []) else none) [])
      ≡ (if not b then unwrap_or o [] else [])
type_back true o = refl
type_back false o = refl

proj_step-raw_of_step : (s : SerStep) → proj_step (raw_of_step s) ≡ step_back s
unfolding proj_step raw_of_step step_back
proj_step-raw_of_step s =
    rw
      (
        type-IsStep s,
        ask_back s.needs_human s.needs_human_ask,
        content_back (is_step_block s) s.content,
        type_back (is_step_block s) s.block_type,
        parse_refs-map s.refs,
      )
      refl

step_kept-raw_of_step :
    (s : SerStep) → step_kept (raw_of_step s) ≡ not (is_step_block s && blank s.title)
unfolding step_kept raw_of_step
step_kept-raw_of_step s = rw (type-IsStep s) refl

pub parse_steps-map : (ss : List SerStep) → parse_steps (map raw_of_step ss) ≡ steps_back ss
unfolding parse_steps steps_back
parse_steps-map [] = refl
parse_steps-map (s ∷ ss) =
    ground (arith, step_kept-raw_of_step s, proj_step-raw_of_step s, parse_steps-map ss)
