-- ===== src/Canon/Reading.antt =====
-- What the deserialization reads of the canon that was written of a version, key by key.
use setfork_core.Shared.{
  ◌≡◌, refl, ap, ◌∙◌, Bool, true, false, not, Option, none, some, List, [], ◌∷◌, map, Str, is_empty,
  unwrap_or, and_then, ok, ℤ, pos, negsuc, FitsI32, if◌then◌else◌, All, le→leb, arith,
}
use setfork_core.Json.{Json, find-opt_field, or_else, items}
use setfork_core.Canon.Raw.{
  Read, RawRef, RawStep, RawList, opt_of, read_str, read_i32, read_bool, read_value, read_list,
  read_items, raw_ref_of, raw_ref, raw_step_of, raw_step, raw_list_of, raw_list,
}
use setfork_core.Canon.Written.{
  StepRef, SerStep, VersionData, is_step_block, option_map, when, number, texts, ref_value, picture,
  step_fields, step_value, list_fields, skill_header_valid,
}

or_else-none : (o : Option Json) → or_else o none ≡ o
or_else-none none = refl
or_else-none (some v) = refl

opt_of-str : (o : Option Str) → opt_of read_str (option_map Json.str o) ≡ ok o
opt_of-str none = refl
opt_of-str (some s) = refl

opt_of-i32 : (z : ℤ) → FitsI32 z → opt_of read_i32 (some (number z)) ≡ ok (some z)
opt_of-i32 (pos n) h = rw (le→leb n 2147483647 h) refl
opt_of-i32 (negsuc n) h = rw (le→leb n 2147483647 h) refl

module _ {ℓ κ} {A : Type ℓ} {B : Type κ} (read : Json → Read B) (write : A → Json)
    (back : A → B) where
  read_items-map-All :
      {Good : A → Type 0}
      → ((a : A) → Good a → read (write a) ≡ ok (back a))
      → (xs : List A) → All Good xs
      → opt_of (read_list read) (some (Json.arr (items (map write xs)))) ≡ ok (some (map back xs))
  unfolding read_items
  read_items-map-All h xs g = rw (go h xs g) refl
    where
      go :
          {Good : A → Type 0}
          → ((a : A) → Good a → read (write a) ≡ ok (back a))
          → (xs : List A) → All Good xs
          → read_items read (items (map write xs)) ≡ ok (map back xs)
      go h [] g = refl
      go h (x ∷ xs) (g, gs) = rw (h x g, go h xs gs) refl

  read_items-map :
      ((a : A) → read (write a) ≡ ok (back a))
      → (xs : List A)
      → opt_of (read_list read) (some (Json.arr (items (map write xs)))) ≡ ok (some (map back xs))
  read_items-map h xs = read_items-map-All {Good = λ a. Unit} (λ a g. h a) xs (always xs)
    where
      always : (xs : List A) → All (λ a. Unit {0}) xs
      always [] = tt
      always (x ∷ xs) = (tt, always xs)

map_id : (ss : List Str) → map (λ s. s) ss ≡ ss
map_id [] = refl
map_id (s ∷ ss) = ap (λ t. s ∷ t) (map_id ss)

read_texts : (ss : List Str) → opt_of (read_list read_str) (some (texts ss)) ≡ ok (some ss)
read_texts ss =
    read_items-map read_str Json.str (λ s. s) (λ s. refl) ss ∙ ap (λ t. ok (some t)) (map_id ss)

opt_of-when :
    (b : Bool) (s : Str) → opt_of read_str (when b (Json.str s)) ≡ ok (if b then some s else none)
opt_of-when true s = refl
opt_of-when false s = refl

opt_of-true :
    (b : Bool) → opt_of read_bool (when b (Json.bool true)) ≡ ok (if b then some true else none)
opt_of-true true = refl
opt_of-true false = refl

opt_of-ask :
    (b : Bool) (o : Option Str)
    → opt_of read_str (if b then option_map Json.str o else none) ≡ ok (if b then o else none)
opt_of-ask true o = opt_of-str o
opt_of-ask false o = refl

-- A value of null reads as no value.
unfoldable pub present : Json → Option Json
present Json.null = none
present v = some v

read_present : (v : Json) → opt_of read_value (some v) ≡ ok (present v)
unfolding present
read_present Json.null = refl
read_present (Json.bool b) = refl
read_present (Json.uint n) = refl
read_present (Json.neg n) = refl
read_present (Json.number n) = refl
read_present (Json.str t) = refl
read_present (Json.arr vs) = refl
read_present (Json.obj fs) = refl

opt_of-value :
    (b : Bool) (v : Json) → opt_of read_value (when b v) ≡ ok (if b then present v else none)
opt_of-value true v = read_present v
opt_of-value false v = refl

opt_of-header : (o : Option Json) → opt_of read_value o ≡ ok (and_then o present)
opt_of-header none = refl
opt_of-header (some v) = read_present v

unfoldable pub raw_of_ref : StepRef → RawRef
raw_of_ref r = record { label = if is_empty r.label then none else some r.label; url = r.url }

raw_ref-ref_value : (r : StepRef) → raw_ref (ref_value r) ≡ ok (raw_of_ref r)
unfolding raw_ref raw_ref_of ref_value raw_of_ref
raw_ref-ref_value r = ground arith

unfoldable pub raw_of_step : SerStep → RawStep
raw_of_step s =
    let no_step = not (is_step_block s) in
    record {
      n = some s.n;
      block_id = s.block_id;
      block_type = if no_step then some (unwrap_or s.block_type []) else none;
      content = if no_step then present s.content else none;
      title = some s.title;
      desc = some s.desc;
      command = some s.command;
      image_key = picture s;
      level = some s.level;
      needs_human = if s.needs_human then some true else none;
      needs_human_ask = if s.needs_human then s.needs_human_ask else none;
      danger = if s.danger then some true else none;
      why = some s.why;
      section = some s.section;
      subtasks = some s.subtasks;
      refs = some (map raw_of_ref s.refs);
    }

read_refs :
    (rs : List StepRef)
    → opt_of (read_list raw_ref) (some (Json.arr (items (map ref_value rs))))
      ≡ ok (some (map raw_of_ref rs))
read_refs rs = read_items-map raw_ref ref_value raw_of_ref raw_ref-ref_value rs

raw_step-step_value : (s : SerStep) → FitsI32 s.n → raw_step (step_value s) ≡ ok (raw_of_step s)
unfolding raw_step raw_step_of step_value step_fields raw_of_step
raw_step-step_value s h = simp (
  find-opt_field,
  or_else-none,
  opt_of-i32 s.n h,
  opt_of-str,
  opt_of-when,
  opt_of-value,
  opt_of-ask,
  opt_of-true,
  read_texts,
  read_refs,
)

abbrev pub NumbersFit : VersionData → Type 0
NumbersFit v = FitsI32 v.version × All (λ s. FitsI32 s.n) v.steps

unfoldable pub raw_of_version : VersionData → RawList
unfolding raw_of_step
raw_of_version v = record {
  title = some v.title;
  desc = some v.desc;
  tags = some v.tags;
  ordered = some v.ordered;
  kind = v.kind;
  skill_header = and_then (and_then v.skill_header skill_header_valid) present;
  version = some v.version;
  steps = some (map raw_of_step v.steps);
}

pub raw_list-list_fields :
    (schema : Str) (v : VersionData)
    → NumbersFit v
    → raw_list (Json.obj (list_fields schema v)) ≡ ok (raw_of_version v)
unfolding list_fields raw_list raw_list_of raw_of_version
raw_list-list_fields schema v (h, hs) = simp (
  find-opt_field,
  or_else-none,
  opt_of-i32 v.version h,
  opt_of-str,
  opt_of-header (and_then v.skill_header skill_header_valid),
  read_texts,
  read_items-map-All raw_step step_value raw_of_step raw_step-step_value v.steps hs,
)
