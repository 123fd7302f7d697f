-- ===== src/Canon/Readme/Rebuilt.antt =====
-- The README.md built again of a canon.
use setfork_core.Shared.{
  ℕ, suc, ◌≡◌, refl, ap₂, Bool, true, false, not, ◌&&◌, Option, none, some, List, [], ◌∷◌, ◌++◌,
  map, Str, codes, str_eq, is_empty, unwrap_or, if◌then◌else◌, Bool-cases, inl, inr,
}
use setfork_core.Blocks.{is_step_type}
use setfork_core.Json.{Json}
use setfork_core.Canon.Raw.{Read, RawList, raw_list}
use setfork_core.Canon.Written.{
  StepRef, SerStep, VersionData, is_step_block, is_none_or, list_fields,
}
use setfork_core.Canon.Reading.{
  raw_of_ref, raw_of_step, NumbersFit, raw_of_version, raw_list-list_fields,
}
use setfork_core.Canon.RoundTrip.{label_back, value_back}
use setfork_core.Canon.Readme.{block_lines}
use setfork_core.Canon.Readme.Page.{
  step_lines, item_lines, step_count, page_lines, readme, ser_ref, ser_step, ser_steps,
  version_of_raw, readme_from_canon,
}

ser_ref-raw_of_ref : (r : StepRef) → ser_ref (raw_of_ref r) ≡ r
unfolding raw_of_ref
ser_ref-raw_of_ref r = rw (label_back r.label) refl

ser_refs : (rs : List StepRef) → map ser_ref (map raw_of_ref rs) ≡ rs
ser_refs [] = refl
ser_refs (r ∷ rs) = ap₂ (λ a b. a ∷ b) (ser_ref-raw_of_ref r) (ser_refs rs)

kept_type :
    (b : Bool) (t : Str)
    → is_step_type t ≡ b
    → is_none_or (if not b then some t else none) is_step_type ≡ b
kept_type true t h = refl
kept_type false t h = h

type_kept :
    (o : Option Str)
    → is_none_or
        (if not (is_none_or o is_step_type) then some (unwrap_or o []) else none)
        is_step_type
      ≡ is_none_or o is_step_type
type_kept none = refl
type_kept (some t) = kept_type (is_step_type t) t refl

back-IsStepBlock :
    (s : SerStep) (idx : ℕ) → is_step_block (ser_step idx (raw_of_step s)) ≡ is_step_block s
unfolding is_step_block raw_of_step
back-IsStepBlock s idx = type_kept s.block_type

item_lines-back :
    (ordered : Bool) (num idx : ℕ) (s : SerStep)
    → item_lines ordered num (ser_step idx (raw_of_step s)) ≡ item_lines ordered num s
unfolding item_lines raw_of_step
item_lines-back ordered num idx s = rw (ser_refs s.refs) refl

block_lines-back :
    (idx : ℕ) (s : SerStep)
    → is_step_block s ≡ false
    → block_lines
        (unwrap_or (ser_step idx (raw_of_step s)).block_type [])
        (ser_step idx (raw_of_step s)).content
        (ser_step idx (raw_of_step s)).refs
      ≡ block_lines (unwrap_or s.block_type []) s.content s.refs
unfolding raw_of_step
block_lines-back idx s h = rw (h, value_back s.content, ser_refs s.refs) refl

step_lines-back :
    (ordered : Bool) (section : Str) (num idx : ℕ) (ss : List SerStep)
    → step_lines ordered section num (ser_steps idx (map raw_of_step ss))
      ≡ step_lines ordered section num ss
unfolding step_lines raw_of_step
step_lines-back ordered section num idx [] = refl
step_lines-back ordered section num idx (s ∷ ss) = elim (Bool-cases (is_step_block s)) [
  | inr e ↦
      rw (step_lines, back-IsStepBlock s idx, e)
        (ap₂ (λ a b. a ++ b) (block_lines-back idx s e)
          (step_lines-back ordered section num (suc idx) ss))
  | inl e ↦ elim (Bool-cases (not (is_empty s.section) && not (str_eq s.section section))) [
    | inl f ↦
        rw (step_lines, back-IsStepBlock s idx, e, f)
          (ap₂ (λ a b. ([] ∷ (codes "## " ++ s.section) ∷ [] ∷ []) ++ a ++ b)
            (item_lines-back ordered (suc num) idx s)
            (step_lines-back ordered s.section (suc num) (suc idx) ss))
    | inr f ↦
        rw (step_lines, back-IsStepBlock s idx, e, f)
          (ap₂ (λ a b. a ++ b) (item_lines-back ordered (suc num) idx s)
            (step_lines-back ordered section (suc num) (suc idx) ss))
  ]
]

step_count-back :
    (idx : ℕ) (ss : List SerStep) → step_count (ser_steps idx (map raw_of_step ss)) ≡ step_count ss
unfolding step_count
step_count-back idx [] = refl
step_count-back idx (s ∷ ss) = rw (back-IsStepBlock s idx, step_count-back (suc idx) ss) refl

-- README.md that is built again of the canon written of a version is README.md of the version.
pub readme_from_canon-readme :
    {Body : Type 0} (from_list : Body → Read RawList) (raw : Body) (schema : Str) (v : VersionData)
    → NumbersFit v
    → from_list raw ≡ raw_list (Json.obj (list_fields schema v))
    → readme_from_canon from_list raw ≡ some (readme v)
unfolding readme_from_canon readme page_lines version_of_raw raw_of_version
readme_from_canon-readme from_list raw schema v h e =
    rw
      (
        e,
        raw_list-list_fields schema v h,
        step_lines-back v.ordered [] 0 0 v.steps,
        step_count-back 0 v.steps,
      )
      refl
