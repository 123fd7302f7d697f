-- ===== src/Db/Rows/Projected.antt =====
-- The rows that a projection writes, read back as steps of the canon.
use setfork_core.Shared.{
  ℕ, Option, none, some, List, [], ◌∷◌, Str, is_empty, trim, unwrap_or, and_then, if◌then◌else◌, ℤ,
}
use setfork_core.Json.{Json}
use setfork_core.Blocks.{is_step_type}
use setfork_core.Canon.Written.{SerStep, StepRef, option_map}
use setfork_core.Db.Carryover.{
  ProjStep, ProjRef, Kept, keeps_ref, carried, image_of, ask_of, parse_level,
}
use setfork_core.Db.Rows.{loc, level_text, unless_step, asked}

-- The texts that are not blank, without the white space around them.
unfoldable pub trimmed_texts : List Str → List Str
trimmed_texts [] = []
trimmed_texts (x ∷ xs) =
    let rest = trimmed_texts xs in if is_empty (trim x) then rest else trim x ∷ rest

abbrev filled : Str → Option Str
filled [] = none
filled (c ∷ s) = some (c ∷ s)

abbrev trimmed_ref : ProjRef → StepRef
trimmed_ref r = record { label = trim r.label; url = and_then r.url (λ u. filled (trim u)) }

-- The references that are no empty ones, without the white space around the texts.
unfoldable pub trimmed_refs : List ProjRef → List StepRef
unfolding keeps_ref
trimmed_refs [] = []
trimmed_refs (r ∷ rs) =
    let rest = trimmed_refs rs in if keeps_ref r.label r.url then trimmed_ref r ∷ rest else rest

-- What a projected step is in the canon that is made of its row: the texts without the white space
-- around them, the blank subtasks and the empty references left out, a mark or a picture that the
-- file does not speak of as it was kept.
unfoldable pub stored_step : (Str → Option ℕ) → (ℕ → Str) → ℤ → ProjStep → Kept → SerStep
unfolding trimmed_texts trimmed_refs
stored_step parse_uuid uuid_text n s keep =
    let carry = carried parse_uuid s.block_id keep in
    let human = unwrap_or s.needs_human carry.needs_human in
    record {
      n = n;
      block_type = unless_step s.block_type;
      content = if is_step_type s.block_type then Json.null else s.content;
      block_id = option_map uuid_text (and_then s.block_id parse_uuid);
      title = trim s.title;
      desc = trim s.desc;
      command = trim s.command;
      image_key = image_of s.image_key carry.image_key;
      level = level_text (parse_level s.level);
      needs_human = human;
      needs_human_ask =
          asked human (loc (ask_of s.needs_human s.needs_human_ask carry.needs_human_ask));
      danger = unwrap_or s.danger carry.danger;
      why = trim s.why;
      section = trim s.section;
      subtasks = trimmed_texts s.subtasks;
      refs = trimmed_refs s.refs;
    }
