-- ===== src/Canon/Strict.antt =====
-- git/canon.rs: the strict reading of the text of an editor. Parameters are `from_str`, which is
-- `serde_json::from_str`, and `validator`, the compiled schema with the errors it finds in a value.
mod Tests
use setfork_core.Shared.{
  ℕ, suc, ◌%◌, ◌^◌, ◌≡◌, Bool, true, false, not, ◌&&◌, Option, none, some, List, [], ◌∷◌, ◌++◌, map,
  Str, codes, str_eq, unwrap_or, Result, ok, err, ◌>>=◌, any, if◌then◌else◌, and_then,
}
use setfork_core.Json.{Json, Items, Fields, find, get}
use setfork_core.Blocks.{is_step_type}
use setfork_core.Db.Carryover.{keeps_ref}
use setfork_core.Names.Decimal.{digits}
use setfork_core.Canon.Raw.{Read, RawRef, raw_ref, as_struct, opt_of, read_str, read_list}
use setfork_core.Canon.Steps.{blank, ListParts, parse_list_value}

pub data IssueCode : Type 0 where
  syntax schema step_title_required ref_empty : IssueCode

-- `IssueCode::as_str`
abbrev pub code_text : IssueCode → Str
code_text IssueCode.syntax = codes "syntax"
code_text IssueCode.schema = codes "schema"
code_text IssueCode.step_title_required = codes "step_title_required"
code_text IssueCode.ref_empty = codes "ref_empty"

abbrev pub is_ref_empty : IssueCode → Bool
is_ref_empty IssueCode.ref_empty = true
is_ref_empty _ = false

pub record CanonIssue : Type 0 where
  pub path : Str
  pub code : IssueCode
  pub message : Str
  pub line : ℕ
  pub column : ℕ

-- An issue that has no place in the text.
abbrev pub at_path : Str → IssueCode → Str → CanonIssue
at_path path code message = record {
  path = path;
  code = code;
  message = message;
  line = 0;
  column = 0;
}

-- `RefProbe` has the fields of `RawRef` and the same derived deserialization.
pub record LossProbe : Type 0 where
  pub block_type : Option Str
  pub title : Option Str
  pub refs : Option (List RawRef)

unfoldable pub loss_probe_of : Fields → Read LossProbe
loss_probe_of fs = do
  block_type ← opt_of read_str (find fs (codes "type"))
  title ← opt_of read_str (find fs (codes "title"))
  refs ← opt_of (read_list raw_ref) (find fs (codes "refs"))
  ok (record { block_type = block_type; title = title; refs = refs })

unfoldable pub loss_probe : Json → Read LossProbe
unfolding loss_probe_of
loss_probe v = do
  fs ← as_struct (codes "type" ∷ codes "title" ∷ codes "refs" ∷ []) v
  loss_probe_of fs

-- `/steps/{i}/title` and `/steps/{i}/refs/{k}`
abbrev pub step_path : ℕ → Str
unfolding digits
step_path i = codes "/steps/" ++ digits i

abbrev pub title_issue : ℕ → CanonIssue
title_issue i =
    at_path (step_path i ++ codes "/title") IssueCode.step_title_required
      (codes "a step block requires a non-empty title")

abbrev pub ref_issue : ℕ → ℕ → CanonIssue
unfolding digits
ref_issue i k =
    at_path (step_path i ++ codes "/refs/" ++ digits k) IssueCode.ref_empty
      (codes "a reference requires a url or a label")

unfoldable pub ref_issues : ℕ → ℕ → List RawRef → List CanonIssue
unfolding keeps_ref
ref_issues i k [] = []
ref_issues i k (r ∷ rs) =
    let rest = ref_issues i (suc k) rs in
    if keeps_ref (unwrap_or r.label []) r.url then rest else ref_issue i k ∷ rest

unfoldable pub probe_issues : ℕ → LossProbe → List CanonIssue
unfolding ref_issues is_step_type
probe_issues i p =
    let of_refs = ref_issues i 0 (unwrap_or p.refs []) in
    if is_step_type (unwrap_or p.block_type []) && blank (unwrap_or p.title [])
    then title_issue i ∷ of_refs
    else of_refs

abbrev pub raw_issues : ℕ → Read LossProbe → List CanonIssue
unfolding probe_issues
raw_issues i (ok p) = probe_issues i p
raw_issues i (err e) = []

unfoldable pub loss_from : ℕ → Items → List CanonIssue
unfolding loss_probe
loss_from i Items.nil = []
loss_from i (Items.cons v vs) = raw_issues i (loss_probe v) ++ loss_from (suc i) vs

abbrev pub items_issues : Option Json → List CanonIssue
unfolding loss_from
items_issues (some (Json.arr vs)) = loss_from 0 vs
items_issues _ = []

unfoldable pub silent_loss_issues : Json → List CanonIssue
silent_loss_issues v = items_issues (get v (codes "steps"))

-- What the validator tells of an error: the path of the instance, whether the rule is `anyOf`, and
-- the message.
pub record ValidationError : Type 0 where
  pub instance_path : Str
  pub any_of : Bool
  pub message : Str

abbrev pub schema_issue : ValidationError → CanonIssue × Bool
schema_issue e = (at_path e.instance_path IssueCode.schema e.message, e.any_of)

-- `none` is a schema that does not compile.
unfoldable pub schema_issues :
    Option (Json → List ValidationError) → Json → List (CanonIssue × Bool)
schema_issues none v = []
schema_issues (some iter_errors) v = map schema_issue (iter_errors v)

abbrev pub empty_ref : List CanonIssue → Str → Bool
empty_ref loss p = any (λ l. is_ref_empty l.code && str_eq p l.path) loss

unfoldable pub unmasked : List CanonIssue → List (CanonIssue × Bool) → List CanonIssue
unmasked loss [] = []
unmasked loss ((s, any_of) ∷ ss) =
    let rest = unmasked loss ss in if any_of && empty_ref loss s.path then rest else s ∷ rest

-- Every complaint about a value that was parsed.
unfoldable pub complaints : Option (Json → List ValidationError) → Json → List CanonIssue
unfolding unmasked silent_loss_issues schema_issues
complaints validator v =
    let loss = silent_loss_issues v in unmasked loss (schema_issues validator v) ++ loss

pub record SyntaxError : Type 0 where
  pub message : Str
  pub line : ℕ
  pub column : ℕ

-- `as u32`
abbrev pub as_u32 : ℕ → ℕ
as_u32 n = n % 2 ^ 32

abbrev pub syntax_issue : SyntaxError → CanonIssue
syntax_issue e = record {
  path = [];
  code = IssueCode.syntax;
  message = e.message;
  line = as_u32 e.line;
  column = as_u32 e.column;
}

abbrev pub parts_or_issue : Option ListParts → Result (List CanonIssue) ListParts
parts_or_issue (some p) = ok p
parts_or_issue none =
    err (at_path [] IssueCode.schema (codes "list.json does not match the manifest shape") ∷ [])

abbrev pub judged : List CanonIssue → Json → Result (List CanonIssue) ListParts
unfolding parse_list_value
judged [] v = parts_or_issue (parse_list_value v)
judged (i ∷ is) v = err (i ∷ is)

abbrev pub on_parsed :
    (Json → Result (List CanonIssue) ListParts)
    → Result SyntaxError Json
    → Result (List CanonIssue) ListParts
on_parsed go (ok v) = go v
on_parsed go (err e) = err (syntax_issue e ∷ [])

unfoldable pub parse_canon :
    (Str → Result SyntaxError Json)
    → Option (Json → List ValidationError)
    → Str
    → Result (List CanonIssue) ListParts
unfolding complaints
parse_canon from_str validator text =
    on_parsed (λ v. judged (complaints validator v) v) (from_str text)
