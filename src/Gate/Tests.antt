-- ===== src/Gate/Tests.antt =====
-- The gate on concrete addresses, answers and pushes.
use setfork_core.Shared.{◌≡◌, ◌↔◌, true, Option, none, some, List, [], ◌∷◌, Str, codes, All, ok}
use setfork_core.Json.{Json, Fields, get, as_str}
use setfork_core.Reason.{Code}
use setfork_core.Gate.Url.{parse_app_url, trim_end_slashes, trimmed, IsAppUrl, parse_app_url_iff}
use setfork_core.Gate.Ask.{Answer, World, request, ask_payload, ensure_writable_at, PushedText}
use setfork_core.Gate.Ask.FailClosed.{
  Permits, IsTransient, code_of, ensure_writable_at-open_iff, ensure_writable_at-unavailable_iff,
}
use setfork_core.Gate.Ask.Payload.{read_content, read_content-ask_payload}
use setfork_core.Gate.Portions.{text_portions, IsPortion, AreFull, text_portions_lem}
use mathlib.Core.List.{flatten}
use setfork_core.Shared.{and_then, is_some}

parse_app_url_iff_example :
    (parse_app_url (λ s. true) (some (codes " http://app:3000/ ")) ≡ ok (codes "http://app:3000"))
    ↔ ((codes "http://app:3000" ≡ trim_end_slashes (trimmed (some (codes " http://app:3000/ "))))
        × IsAppUrl (λ s. true) (codes "http://app:3000"))
parse_app_url_iff_example =
    parse_app_url_iff (λ s. true) (some (codes " http://app:3000/ ")) (codes "http://app:3000")

abbrev allow_json : Json
allow_json = Json.obj (Fields.field (codes "allow") (Json.bool true) Fields.end)

-- An application that allows every write, whose body is the parsed value itself.
abbrev open_world : World Json
open_world = record {
  from_slice = some;
  status_text = λ s. codes "OK";
  metadata = some;
  token = some (codes "secret");
  app = λ q. Answer.response 200 (ok allow_json);
}

-- An application behind a proxy that answers 502.
abbrev broken_world : World Json
broken_world = record {
  from_slice = some;
  status_text = λ s. codes "502 Bad Gateway";
  metadata = some;
  token = none;
  app = λ q. Answer.response 502 (ok allow_json);
}

abbrev base : Str
base = codes "http://app:3000"

ensure_writable_at-open_iff_example :
    (ensure_writable_at open_world base (codes "ada") (codes "list") ≡ ok tt)
    ↔ Permits open_world
        (open_world.app (request open_world base (codes "ada") (codes "list") none))
ensure_writable_at-open_iff_example =
    ensure_writable_at-open_iff open_world base (codes "ada") (codes "list")

abbrev files : List PushedText
files = (codes "scripts/run.sh", codes "echo") ∷ []

abbrev commands : List (Option Str)
commands = some (codes "ls") ∷ none ∷ []

ensure_writable_at-unavailable_iff_example :
    (code_of broken_world (ensure_writable_at broken_world base (codes "ada") (codes "list"))
      ≡ some Code.unavailable)
    ↔ IsTransient broken_world
        (broken_world.app (request broken_world base (codes "ada") (codes "list") none))
ensure_writable_at-unavailable_iff_example =
    ensure_writable_at-unavailable_iff broken_world base (codes "ada") (codes "list")

read_content-ask_payload_example :
    (read_content (ask_payload (codes "ada") (codes "list") (some (commands, files)))
      ≡ some (commands, files))
    × (and_then
          (get (ask_payload (codes "ada") (codes "list") (some (commands, files))) (codes "owner"))
          as_str
        ≡ some (codes "ada"))
    × (and_then
          (get (ask_payload (codes "ada") (codes "list") (some (commands, files))) (codes "slug"))
          as_str
        ≡ some (codes "list"))
    × (is_some
          (get (ask_payload (codes "ada") (codes "list") (some (commands, files))) (codes "blocks"))
        ≡ true)
    × (is_some
          (get (ask_payload (codes "ada") (codes "list") (some (commands, files))) (codes "files"))
        ≡ true)
read_content-ask_payload_example =
    read_content-ask_payload (codes "ada") (codes "list") (some (commands, files))

abbrev texts : List PushedText
texts = (codes "a", codes "12345") ∷ (codes "b", codes "1") ∷ (codes "c", codes "123456789") ∷ []

text_portions_lem_example :
    (flatten (text_portions texts 8) ≡ texts)
    × All (IsPortion 8) (text_portions texts 8)
    × AreFull 8 (text_portions texts 8)
text_portions_lem_example = text_portions_lem texts 8
