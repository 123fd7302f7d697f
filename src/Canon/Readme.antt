-- ===== src/Canon/Readme.antt =====
-- README.md: `ref_item`, `code_block` and the blocks of `readme` of git/serialize.rs. Its lines in
-- their order are in Page.antt.
pub mod Page
pub mod Fence
pub mod Collapse
pub mod Rebuilt
use setfork_core.Shared.{
  ℕ, zero, suc, ◌+◌, ◌-◌, max, Bool, true, false, not, ◌&&◌, Option, none, some, List, [], ◌∷◌,
  ◌++◌, map, Str, codes, str_eq, is_empty, trim, trim_start, starts_with, contains_str, length,
  unwrap_or, and_then, if◌then◌else◌, ◌==◌, ℤ, pos,
}
use setfork_core.Json.{Json, get, as_str}
use setfork_core.Names.Decimal.{digits}
use setfork_core.Canon.Steps.{blank}
use setfork_core.Canon.Written.{StepRef, SerStep, VersionData, is_step_block, list_json, decimal}

-- `s.replace(p, r)`: `skip` counts what is left of an occurrence that was replaced.
unfoldable pub replace_from : Str → Str → ℕ → Str → Str
replace_from p r skip [] = []
replace_from p r (suc skip) (c ∷ s) = replace_from p r skip s
replace_from p r zero (c ∷ s) = elim (starts_with (c ∷ s) p) [
  | true ↦ r ++ replace_from p r (length p - 1) s
  | false ↦ c ∷ replace_from p r zero s
]

abbrev pub replace : Str → Str → Str → Str
unfolding replace_from
replace s p r = replace_from p r 0 s

-- `s.split('\n')`
abbrev pub onto_first : ℕ → List Str → List Str
onto_first c [] = (c ∷ []) ∷ []
onto_first c (l ∷ ls) = (c ∷ l) ∷ ls

unfoldable pub split_lines : Str → List Str
split_lines [] = [] ∷ []
split_lines (c ∷ s) = let rest = split_lines s in if c == 10 then [] ∷ rest else onto_first c rest

-- `lines.join(sep)`
unfoldable pub join : Str → List Str → Str
join sep [] = []
join sep (l ∷ []) = l
join sep (l ∷ m ∷ ls) = l ++ sep ++ join sep (m ∷ ls)

abbrev pub repeat : ℕ → ℕ → Str
repeat c zero = []
repeat c (suc n) = c ∷ repeat c n

unfoldable pub ref_item : StepRef → Str
ref_item r = elim r.url [
  | some u ↦
      if blank r.label
      then codes "<" ++ u ++ codes ">"
      else codes "[" ++ r.label ++ codes "](" ++ u ++ codes ")"
  | none ↦ r.label
]

-- The longest run of backticks: `run` and `longest` are the two variables of the loop.
unfoldable pub ticks_from : ℕ → ℕ → Str → ℕ
ticks_from run longest [] = longest
ticks_from run longest (c ∷ s) = elim (c == b'`') [
  | true ↦ ticks_from (suc run) (max longest (suc run)) s
  | false ↦ ticks_from 0 longest s
]

unfoldable pub normalized : Str → Str
unfolding replace
normalized code = replace (replace code (codes "\r\n") (codes "\n")) (codes "\r") (codes "\n")

unfoldable pub fence_of : Str → Str
unfolding ticks_from
fence_of text = repeat b'`' (max (ticks_from 0 0 text) 2 + 1)

unfoldable pub code_block : Str → Str → Str → List Str
unfolding normalized split_lines fence_of
code_block code indent lang =
    let text = normalized code in
    (indent ++ fence_of text ++ lang)
    ∷ (map (λ l. indent ++ l) (split_lines text) ++ ((indent ++ fence_of text) ∷ []))

-- The lines of a block of text or of a picture.
abbrev str_at : Json → Str → Str
str_at v k = unwrap_or (and_then (get v k) as_str) []

unfoldable pub shown_refs : List StepRef → List Str
unfolding ref_item
shown_refs [] = []
shown_refs (r ∷ rs) =
    let rest = shown_refs rs in if is_empty (ref_item r) then rest else ref_item r ∷ rest

abbrev bullets : List Str → List Str
bullets = map (λ x. codes "- " ++ x)

abbrev text_refs : Bool → List Str → List Str
text_refs no_words [] = []
text_refs no_words (r ∷ rs) = (if no_words then [] ∷ [] else []) ++ bullets (r ∷ rs) ++ ([] ∷ [])

unfoldable pub text_lines : Json → List StepRef → List Str
unfolding shown_refs
text_lines content refs =
    let md = str_at content (codes "md") in
    (if is_empty md then [] else [] ∷ md ∷ [] ∷ []) ++ text_refs (is_empty md) (shown_refs refs)

unfoldable pub image_lines : Json → List Str
image_lines content =
    let r = str_at content (codes "ref") in
    if is_empty r
    then []
    else []
      ∷ (codes "![" ++ str_at content (codes "caption") ++ codes "](" ++ r ++ codes ")")
      ∷ []
      ∷ []

unfoldable pub block_lines : Str → Json → List StepRef → List Str
unfolding text_lines image_lines
block_lines block_type content refs =
    if str_eq block_type (codes "text")
    then text_lines content refs
    else if str_eq block_type (codes "image")
    then image_lines content
    else []
