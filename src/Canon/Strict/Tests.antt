-- ===== src/Canon/Strict/Tests.antt =====
-- The strict reading of a concrete list, with a validator that asks for objects.
use setfork_core.Shared.{
  ◌≡◌, inl, refl, false, Option, none, some, List, [], ◌∷◌, Str, codes, Result, ok, err, arith,
  trim, trim_start, is_whitespace,
}
use setfork_core.Json.{Json, Items, Fields, find}
use setfork_core.Blocks.{is_step_type}
use setfork_core.Canon.Raw.{
  RawStep, RawList, raw_step_of, raw_step, raw_list_of, raw_list, read_items,
}
use setfork_core.Canon.Steps.{parse_list_value, list_parts}
use setfork_core.Canon.Strict.{
  ValidationError, SyntaxError, CanonIssue, parse_canon, complaints, silent_loss_issues, loss_from,
  loss_probe, loss_probe_of, probe_issues, ref_issues, schema_issues, unmasked, title_issue,
}
use setfork_core.Canon.Lossless.{whole_parts, parse_canon-whole}
use setfork_core.Canon.Losses.{IsManifest, HasObjects, AllObjects}
use setfork_core.Canon.Complaints.{IsWhole, parse_canon-IsWhole}

abbrev wrong : ValidationError
wrong = record { instance_path = codes "/steps/0"; any_of = false; message = codes "not an object" }

items_errors : Items → List ValidationError
items_errors Items.nil = []
items_errors (Items.cons (Json.obj fs) vs) = items_errors vs
items_errors (Items.cons _ vs) = wrong ∷ []

steps_errors : Option Json → List ValidationError
steps_errors (some (Json.arr vs)) = items_errors vs
steps_errors _ = []

errors : Json → List ValidationError
errors (Json.obj fs) = steps_errors (find fs (codes "steps"))
errors _ = wrong ∷ []

items_ask : (vs : Items) → items_errors vs ≡ [] → AllObjects vs
unfolding items_errors
items_ask Items.nil h = tt
items_ask (Items.cons (Json.obj fs) vs) h = items_ask vs h
items_ask (Items.cons _ vs) h = absurd (ground arith)

steps_ask : (o : Option Json) → steps_errors o ≡ [] → HasObjects o
unfolding steps_errors
steps_ask (some (Json.arr vs)) h = items_ask vs h
steps_ask _ h = tt

asks : (v : Json) → errors v ≡ [] → IsManifest v
unfolding errors
asks (Json.obj fs) h = steps_ask (find fs (codes "steps")) h
asks _ h = absurd (ground arith)

-- A list with one step, by its title.
abbrev list_of : Str → Json
list_of title = Json.obj (
    Fields.field (codes "steps")
      (Json.arr (
        Items.cons (Json.obj (Fields.field (codes "title") (Json.str title) Fields.end)) Items.nil))
      Fields.end)

abbrev from_str : Str → Result SyntaxError Json
from_str t = ok (list_of t)

abbrev raw_one : Str → RawStep
raw_one title = record {
  n = none;
  block_id = none;
  block_type = none;
  content = none;
  title = some title;
  desc = none;
  command = none;
  image_key = none;
  level = none;
  needs_human = none;
  needs_human_ask = none;
  danger = none;
  why = none;
  section = none;
  subtasks = none;
  refs = none;
}

abbrev raw_lone : Str → RawList
raw_lone title = record {
  title = none;
  desc = none;
  tags = none;
  ordered = none;
  kind = none;
  skill_header = none;
  version = none;
  steps = some (raw_one title ∷ []);
}

raw_list-list_of : raw_list (list_of (codes "a")) ≡ ok (raw_lone (codes "a"))
unfolding raw_list raw_list_of raw_step raw_step_of read_items
raw_list-list_of = refl

accepted : parse_canon from_str (some errors) (codes "a") ≡ ok (list_parts (raw_lone (codes "a")))
unfolding parse_canon complaints silent_loss_issues loss_from loss_probe loss_probe_of probe_issues
    ref_issues schema_issues unmasked errors steps_errors items_errors parse_list_value raw_list
    raw_list_of raw_step raw_step_of read_items is_step_type trim trim_start is_whitespace
accepted = refl

parse_canon-whole_example :
    (v : Json) × (l : RawList) × (from_str (codes "a") ≡ ok v)
    × (raw_list v ≡ ok l)
    × (errors v ≡ [])
    × (list_parts (raw_lone (codes "a")) ≡ whole_parts l)
parse_canon-whole_example =
    parse_canon-whole from_str errors (codes "a") (list_parts (raw_lone (codes "a"))) asks accepted

untitled : silent_loss_issues (list_of []) ≡ title_issue 0 ∷ []
unfolding silent_loss_issues loss_from loss_probe loss_probe_of probe_issues ref_issues is_step_type
    trim trim_start
untitled = refl

parse_canon-IsWhole_example :
    (issues : List CanonIssue) × (parse_canon from_str none [] ≡ err issues)
    × IsWhole (schema_issues none (list_of [])) (silent_loss_issues (list_of [])) issues
unfolding silent_loss_issues loss_from loss_probe loss_probe_of probe_issues ref_issues is_step_type
    trim trim_start schema_issues
parse_canon-IsWhole_example =
    parse_canon-IsWhole from_str none [] (list_of []) (title_issue 0) refl (inl refl)
