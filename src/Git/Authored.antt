-- ===== src/Git/Authored.antt =====
-- The author's files in git/update.rs: `AuthoredTally`, `input_name_ok`, `authored_input_violation`
-- and the errors of a move of `main`. Byte counts are exact: a message is far below 2^64 bytes.
pub mod Accepted
use setfork_core.Shared.{
  ℕ, ◌+◌, ◌*◌, Bool, true, false, not, ◌&&◌, ◌||◌, Option, none, some, List, [], ◌∷◌, ltb, leb,
  ◌==◌, if◌then◌else◌, any, length, Str, codes, str_eq, starts_with, byte_len, is_control,
  last_segment, Result, ok, err, ◌>>=◌, ◌>>◌,
}
use setfork_core.Git.Paths.{authored_path}

-- `MainUpdateError`
pub data MainUpdateError : Type 0 where
  missing_list_json non_fast_forward stale : MainUpdateError
  foreign_path authored_not_file authored_binary : Str → MainUpdateError
  authored_duplicate authored_executable git : Str → MainUpdateError
  authored_too_many authored_too_large : ℕ → MainUpdateError

abbrev pub authored_max_files : ℕ
authored_max_files = 50

abbrev pub authored_max_bytes : ℕ
authored_max_bytes = 1024 * 1024

abbrev pub authored_name_max_bytes : ℕ
authored_name_max_bytes = 100

pub record AuthoredTally : Type 0 where
  pub files : ℕ
  pub bytes : ℕ

abbrev pub empty_tally : AuthoredTally
empty_tally = record { files = 0; bytes = 0 }

abbrev pub contains_nul : List ℕ → Bool
contains_nul content = any (λ b. b == 0) content

unfoldable pub add : AuthoredTally → Str → List ℕ → Result MainUpdateError AuthoredTally
add t path content =
    if contains_nul content
    then err (authored_binary path)
    else (let files = t.files + 1 in
        if ltb authored_max_files files
        then err (authored_too_many files)
        else ok (record { files = files; bytes = t.bytes + (length content + byte_len path) }))

unfoldable pub finish : AuthoredTally → Option MainUpdateError
finish t =
    if ltb authored_max_files t.files
    then some (authored_too_many t.files)
    else if ltb authored_max_bytes t.bytes
    then some (authored_too_large t.bytes)
    else none

pub record AuthoredInput : Type 0 where
  pub path : Str
  pub content : List ℕ
  pub executable : Bool

-- A control character, the backslash, or a mark of the direction of text.
unfoldable pub deceptive : ℕ → Bool
deceptive c =
    is_control c
    || c == 92
    || c == 0x200e
    || c == 0x200f
    || (leb 0x202a c && leb c 0x202e)
    || (leb 0x2066 c && leb c 0x2069)

unfoldable pub input_name_ok : Str → Bool
input_name_ok path =
    let name = last_segment path in
    leb (byte_len name) authored_name_max_bytes
    && not (starts_with name (codes "."))
    && not (any deceptive name)

abbrev seen_before : List Str → Str → Bool
seen_before seen path = any (λ p. str_eq path p) seen

abbrev guard : Bool → MainUpdateError → Result MainUpdateError (Unit {0})
guard true e = ok tt
guard false e = err e

-- One round of the loop.
unfoldable pub check_file :
    List Str → AuthoredTally → AuthoredInput → Result MainUpdateError AuthoredTally
check_file seen t f = do
  guard (authored_path f.path && input_name_ok f.path) (foreign_path f.path)
  guard (not (f.executable && not (starts_with f.path (codes "scripts/"))))
      (authored_executable f.path)
  guard (not (seen_before seen f.path)) (authored_duplicate f.path)
  add t f.path f.content

unfoldable pub violation_from :
    List Str → AuthoredTally → List AuthoredInput → Option MainUpdateError
violation_from seen t [] = finish t
violation_from seen t (f ∷ fs) = elim (check_file seen t f) [
  | err e ↦ some e
  | ok t' ↦ violation_from (f.path ∷ seen) t' fs
]

unfoldable pub authored_input_violation : List AuthoredInput → Option MainUpdateError
unfolding violation_from
authored_input_violation files = violation_from [] empty_tally files
