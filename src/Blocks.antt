-- ===== src/Blocks.antt =====
-- blocks.rs: what a step is, and the normal forms of a block's type and content.
use setfork_core.Shared.{
  ◌≡◌, Bool, false, ◌||◌, Option, none, some, arith, Str, codes, str_eq, is_empty, if◌then◌else◌,
  unwrap_or,
}
use setfork_core.Json.{Json, empty_object}

unfoldable pub is_step_type : Str → Bool
is_step_type t = is_empty t || str_eq t (codes "step")

unfoldable pub storage_type : Str → Str
unfolding is_step_type
storage_type t = if is_step_type t then codes "step" else t

unfoldable pub wire_type : Option Str → Str
unfolding is_step_type
wire_type none = codes ""
wire_type (some t) = if is_step_type t then codes "" else t

-- `parse` is `serde_json::from_str`.
unfoldable pub content_value : (Str → Option Json) → Str → Str → Json
unfolding is_step_type
content_value parse step_type content_json =
    if is_step_type step_type || is_empty content_json
    then empty_object
    else unwrap_or (parse content_json) empty_object

-- What the database stores for a type that came over the wire is sent back as the same wire form,
-- and storing that form again gives the stored type: the two normal forms of a type determine each
-- other.
pub wire_type-storage_type :
    (t : Str)
    → (wire_type (some (storage_type t)) ≡ wire_type (some t))
      × (storage_type (wire_type (some t)) ≡ storage_type t)
unfolding wire_type storage_type
wire_type-storage_type t = ground arith

-- Both normal forms keep whether the block is a step, and only a step has no content of its own:
-- the content of every other block is the parsed text wherever that parses.
pub content_value-step :
    (parse : Str → Option Json) (t c : Str) (v : Json)
    → parse c ≡ some v
    → is_empty c ≡ false
    → (is_step_type (storage_type t) ≡ is_step_type t)
      × (is_step_type (wire_type (some t)) ≡ is_step_type t)
      × (content_value parse (storage_type t) c ≡ (if is_step_type t then empty_object else v))
unfolding content_value storage_type wire_type
content_value-step parse t c v p e = ground arith
