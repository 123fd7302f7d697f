-- ===== src/Reason.antt =====
-- reason.rs: the machine-readable reason of a refusal, beside the code of a status.
pub mod Format
use setfork_core.Shared.{◌≡◌, refl, ap, Option, none, some, List, [], ◌∷◌, Str, codes}

-- The status codes of tonic that the program answers with.
pub data Code : Type 0 where
  invalid_argument not_found already_exists failed_precondition aborted unavailable : Code
  internal resource_exhausted unauthenticated : Code

pub data Reason : Type 0 where
  bad_name exists not_found protected conflict nothing_to_merge stale foreign_path : Reason
  missing_list_json repo_too_large frozen archived gate_unavailable gate_malformed : Reason
  reserved_tag_name out_of_sync authored_invalid : Reason

abbrev pub as_str : Reason → Str
as_str Reason.bad_name = codes "BAD_NAME"
as_str Reason.exists = codes "EXISTS"
as_str Reason.not_found = codes "NOT_FOUND"
as_str Reason.protected = codes "PROTECTED"
as_str Reason.conflict = codes "CONFLICT"
as_str Reason.nothing_to_merge = codes "NOTHING_TO_MERGE"
as_str Reason.stale = codes "STALE"
as_str Reason.foreign_path = codes "FOREIGN_PATH"
as_str Reason.missing_list_json = codes "MISSING_LIST_JSON"
as_str Reason.repo_too_large = codes "REPO_TOO_LARGE"
as_str Reason.frozen = codes "FROZEN"
as_str Reason.archived = codes "ARCHIVED"
as_str Reason.gate_unavailable = codes "GATE_UNAVAILABLE"
as_str Reason.gate_malformed = codes "GATE_MALFORMED"
as_str Reason.reserved_tag_name = codes "RESERVED_TAG_NAME"
as_str Reason.out_of_sync = codes "OUT_OF_SYNC"
as_str Reason.authored_invalid = codes "AUTHORED_INVALID"

-- `Reason::ALL`
abbrev pub all_reasons : List Reason
all_reasons =
    Reason.bad_name ∷ Reason.exists ∷ Reason.not_found ∷ Reason.protected ∷ Reason.conflict
    ∷ Reason.nothing_to_merge ∷ Reason.stale ∷ Reason.foreign_path ∷ Reason.missing_list_json
    ∷ Reason.repo_too_large ∷ Reason.frozen ∷ Reason.archived ∷ Reason.gate_unavailable
    ∷ Reason.gate_malformed ∷ Reason.reserved_tag_name ∷ Reason.out_of_sync
    ∷ Reason.authored_invalid ∷ []

-- A tonic status, with the value of its trailer `sf-reason`.
pub record Status : Type 0 where
  pub code : Code
  pub message : Str
  pub reason : Option Str

-- A status with no trailer, as by `Status::failed_precondition(message)`.
abbrev pub plain : Code → Str → Status
plain code message = record { code = code; message = message; reason = none }

-- `parse` is the parser of a metadata value; a text that it refuses gives a status with no trailer.
unfoldable pub status : (Str → Option Str) → Code → Reason → Str → Status
status parse code reason message = record {
  code = code;
  message = message;
  reason = parse (as_str reason);
}
