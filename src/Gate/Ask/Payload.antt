-- ===== src/Gate/Ask/Payload.antt =====
-- The body of the question: what the application reads out of it.
use setfork_core.Shared.{
  ◌≡◌, refl, Option, none, some, is_some, List, [], ◌∷◌, Str, codes, and_then,
}
use setfork_core.Json.{Json, Items, get, as_str}
use setfork_core.Gate.Ask.{PushedText, Content, blocks_json, files_json, ask_payload}

-- A reader that knows the form of the body only: a command is a text or null, and a field that is
-- missing or of another form is refused.
read_command : Json → Option (Option Str)
read_command Json.null = some none
read_command (Json.str s) = some (some s)
read_command _ = none

pub read_commands : Items → Option (List (Option Str))
read_commands Items.nil = some []
read_commands (Items.cons b bs) =
    and_then (and_then (get b (codes "command")) read_command)
      λ c. and_then (read_commands bs) λ cs. some (c ∷ cs)

pub read_files : Items → Option (List PushedText)
read_files Items.nil = some []
read_files (Items.cons f fs) = and_then (and_then (get f (codes "path")) as_str) λ path.
    and_then (and_then (get f (codes "text")) as_str)
      λ text. and_then (read_files fs) λ rest. some ((path, text) ∷ rest)

abbrev as_items : Json → Option Items
as_items (Json.arr xs) = some xs
as_items _ = none

pub read_content : Json → Option Content
read_content v =
    and_then (and_then (and_then (get v (codes "blocks")) as_items) read_commands) λ cmds.
      and_then (and_then (and_then (get v (codes "files")) as_items) read_files)
        λ files. some (cmds, files)

read_commands-blocks_json : (cs : List (Option Str)) → read_commands (blocks_json cs) ≡ some cs
unfolding read_commands blocks_json read_command
read_commands-blocks_json [] = refl
read_commands-blocks_json (none ∷ cs) = rw (read_commands-blocks_json cs)
read_commands-blocks_json (some c ∷ cs) = rw (read_commands-blocks_json cs)

read_files-files_json : (fs : List PushedText) → read_files (files_json fs) ≡ some fs
unfolding read_files files_json
read_files-files_json [] = refl
read_files-files_json ((path, text) ∷ fs) = rw (read_files-files_json fs)

-- The question about a content carries it whole: every command at its own place, one that is
-- missing too, and every text. The question without a content has neither of the fields `blocks`
-- and `files`, not even empty ones. Both name the list by its owner and slug.
pub read_content-ask_payload :
    (owner slug : Str) (content : Option Content)
    → (read_content (ask_payload owner slug content) ≡ content)
      × (and_then (get (ask_payload owner slug content) (codes "owner")) as_str ≡ some owner)
      × (and_then (get (ask_payload owner slug content) (codes "slug")) as_str ≡ some slug)
      × (is_some (get (ask_payload owner slug content) (codes "blocks")) ≡ is_some content)
      × (is_some (get (ask_payload owner slug content) (codes "files")) ≡ is_some content)
unfolding read_content ask_payload
read_content-ask_payload owner slug none = (refl, refl, refl, refl, refl)
read_content-ask_payload owner slug (some (cmds, files)) =
    (rw (read_commands-blocks_json cmds) (rw (read_files-files_json files)), refl, refl, refl, refl)
