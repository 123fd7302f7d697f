-- ===== src/Gate/Ask.antt =====
-- `ask_payload`, `ask`, `ensure_writable`, `ensure_writable_at` and `ensure_content_allowed_at` of
-- gate.rs. The application is a function from the request to what the exchange came to; metrics and
-- logs are left out.
pub mod FailClosed
pub mod Payload
use setfork_core.Shared.{
  ℕ, ◌≡◌, refl, Bool, ◌&&◌, Option, none, some, List, [], ◌∷◌, ◌++◌, leb, Str, codes, str_eq,
  if◌then◌else◌, Result, ok, err,
}
use setfork_core.Json.{Json, Items, Fields}
use setfork_core.Reason.{Code, Reason, Status, plain, status}
use setfork_core.Gate.Verdict.{Verdict, DenyDetail, SecretDetail, parse_verdict}

-- A file of a commit: its path and its text.
abbrev pub PushedText : Type 0
PushedText = Str × Str

-- The commands of the blocks, and the texts.
abbrev pub Content : Type 0
Content = List (Option Str) × List PushedText

abbrev pub json_opt : Option Str → Json
json_opt none = Json.null
json_opt (some s) = Json.str s

unfoldable pub blocks_json : List (Option Str) → Items
blocks_json [] = Items.nil
blocks_json (c ∷ cs) =
    Items.cons (Json.obj (Fields.field (codes "command") (json_opt c) Fields.end)) (blocks_json cs)

unfoldable pub files_json : List PushedText → Items
files_json [] = Items.nil
files_json ((path, text) ∷ fs) =
    Items.cons
      (Json.obj (
        Fields.field (codes "path") (Json.str path)
          (Fields.field (codes "text") (Json.str text) Fields.end)))
      (files_json fs)

-- `body["blocks"] = …` and `body["files"] = …` add the fields behind those that are there.
abbrev content_fields : Option Content → Fields
content_fields none = Fields.end
content_fields (some (cmds, files)) =
    Fields.field (codes "blocks") (Json.arr (blocks_json cmds))
      (Fields.field (codes "files") (Json.arr (files_json files)) Fields.end)

unfoldable pub ask_payload : Str → Str → Option Content → Json
ask_payload owner slug content = Json.obj (
    Fields.field (codes "owner") (Json.str owner)
      (Fields.field (codes "slug") (Json.str slug) (content_fields content)))

-- The request that `ask` builds; the token of the channel stands in the header if it is not empty.
pub record Request : Type 0 where
  pub uri : Str
  pub authorization : Option Str
  pub payload : Json

-- What the exchange came to. The time limit is on the whole of it.
pub data Answer (Body : Type 0) : Type 0 where
  not_built no_response : Str → Answer Body
  timed_out : Answer Body
  response : ℕ → Result Str Body → Answer Body

abbrev pub is_success : ℕ → Bool
is_success s = leb 200 s && leb s 299

abbrev pub is_server_error : ℕ → Bool
is_server_error s = leb 500 s && leb s 599

-- Where the answers come from: the JSON parser, the text of a status code, the parser of metadata
-- values, the application.
pub record World (Body : Type 0) : Type 0 where
  pub from_slice : Body → Option Json
  pub status_text : ℕ → Str
  pub metadata : Str → Option Str
  pub token : Option Str
  pub app : Request → Answer Body

module _ {Body : Type 0} (w : World Body) where
  pub body_verdict : Result Str Body → Verdict
  body_verdict (ok b) = parse_verdict w.from_slice b
  body_verdict (err e) = Verdict.unreachable (codes "verdict body could not be read: " ++ e)

  unfoldable pub answer_verdict : Answer Body → Verdict
  unfolding body_verdict
  answer_verdict (Answer.not_built e) = Verdict.local (codes "request could not be built: " ++ e)
  answer_verdict (Answer.no_response e) = Verdict.unreachable (codes "app is unreachable: " ++ e)
  answer_verdict Answer.timed_out = Verdict.unreachable (codes "app did not answer within 5s")
  answer_verdict (Answer.response s body) =
      if is_success s
      then body_verdict body
      else if is_server_error s
      then Verdict.unreachable (codes "app answered " ++ w.status_text s)
      else Verdict.malformed
          (codes "app answered " ++ (w.status_text s ++ codes ", so the question went unanswered"))

  abbrev bearer : Option Str → Option Str
  bearer none = none
  bearer (some []) = none
  bearer (some (c ∷ t)) = some (codes "Bearer " ++ (c ∷ t))

  abbrev pub request : Str → Str → Str → Option Content → Request
  request base owner slug content = record {
    uri = base ++ codes "/api/internal/write-allowed";
    authorization = bearer w.token;
    payload = ask_payload owner slug content;
  }

  unfoldable pub ask : Str → Str → Str → Option Content → Verdict
  unfolding answer_verdict
  ask base owner slug content = answer_verdict (w.app (request base owner slug content))

  abbrev denied_status : Str → Status
  denied_status reason =
      if str_eq reason (codes "not-found")
      then status w.metadata Code.not_found Reason.not_found (codes "list not found")
      else if str_eq reason (codes "frozen")
      then status w.metadata Code.failed_precondition Reason.frozen (codes "list is frozen")
      else if str_eq reason (codes "archived")
      then status w.metadata Code.failed_precondition Reason.archived (codes "list is archived")
      else plain Code.failed_precondition reason

  unfoldable pub writable_result : Verdict → Result Status (Unit {0})
  unfolding status
  writable_result Verdict.allow = ok tt
  writable_result (Verdict.secret d) = err (plain Code.failed_precondition (codes "secret"))
  writable_result (Verdict.deny reason d) = err (denied_status reason)
  writable_result (Verdict.unreachable why) = err (
      status w.metadata Code.unavailable Reason.gate_unavailable
        (codes "write precondition check unavailable"))
  writable_result (Verdict.malformed why) = err (
      status w.metadata Code.failed_precondition Reason.gate_malformed
        (codes "write precondition verdict not understood"))
  writable_result (Verdict.local why) = err (
      status w.metadata Code.internal Reason.gate_unavailable
        (codes "write precondition request could not be built"))

  unfoldable pub ensure_writable_at : Str → Str → Str → Result Status (Unit {0})
  unfolding writable_result ask
  ensure_writable_at base owner slug = writable_result (ask base owner slug none)

  -- `app_url()` is `None` only where the server was started without one, in insecure mode.
  unfoldable pub ensure_writable : Option Str → Str → Str → Result Status (Unit {0})
  unfolding ensure_writable_at
  ensure_writable none owner slug = ok tt
  ensure_writable (some base) owner slug = ensure_writable_at base owner slug

pub data ContentRefusal : Type 0 where
  destructive : DenyDetail → ContentRefusal
  secret : SecretDetail → ContentRefusal
  denied unavailable not_understood not_asked : Str → ContentRefusal

unfoldable pub content_result : Verdict → Result ContentRefusal (Unit {0})
content_result Verdict.allow = ok tt
content_result (Verdict.secret d) = err (ContentRefusal.secret d)
content_result (Verdict.deny reason (some d)) =
    if str_eq reason (codes "destructive")
    then err (ContentRefusal.destructive d)
    else err (ContentRefusal.denied reason)
content_result (Verdict.deny reason none) = err (ContentRefusal.denied reason)
content_result (Verdict.unreachable why) = err (ContentRefusal.unavailable why)
content_result (Verdict.malformed why) = err (ContentRefusal.not_understood why)
content_result (Verdict.local why) = err (ContentRefusal.not_asked why)

unfoldable pub ensure_content_allowed_at :
    {Body : Type 0} (w : World Body) (base owner slug : Str)
    → List (Option Str)
    → List PushedText
    → Result ContentRefusal (Unit {0})
unfolding content_result ask
ensure_content_allowed_at w base owner slug commands files =
    content_result (ask w base owner slug (some (commands, files)))
