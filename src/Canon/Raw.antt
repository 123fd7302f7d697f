-- ===== src/Canon/Raw.antt =====
-- `RawRef`, `RawStep` and `RawList` of git/project.rs with their derived deserialization: on an
-- object a key that is missing or null is `None`, a key that is not named is passed over, and a
-- value of another type is an error; an array stands for the object with the fields in their order.
use setfork_core.Shared.{
  Bool, Option, none, some, List, [], ◌∷◌, Str, codes, Result, ok, err, ◌>>=◌, ℤ, pos, negsuc,
  fits_i32, if◌then◌else◌,
}
use setfork_core.Json.{Json, Items, Fields, find}

-- An error of the deserialization, whose text nobody reads.
abbrev pub Read {ℓ} : Type ℓ → Type ℓ
Read A = Result (Unit {0}) A

pub record RawRef : Type 0 where
  pub label : Option Str
  pub url : Option Str

pub record RawStep : Type 0 where
  pub n : Option ℤ
  pub block_id : Option Str
  pub block_type : Option Str
  pub content : Option Json
  pub title : Option Str
  pub desc : Option Str
  pub command : Option Str
  pub image_key : Option Str
  pub level : Option Str
  pub needs_human : Option Bool
  pub needs_human_ask : Option Str
  pub danger : Option Bool
  pub why : Option Str
  pub section : Option Str
  pub subtasks : Option (List Str)
  pub refs : Option (List RawRef)

pub record RawList : Type 0 where
  pub title : Option Str
  pub desc : Option Str
  pub tags : Option (List Str)
  pub ordered : Option Bool
  pub kind : Option Str
  pub skill_header : Option Json
  pub version : Option ℤ
  pub steps : Option (List RawStep)

-- The elements of an array under the names of the fields, if there are as many.
unfoldable pub named : List Str → Items → Read Fields
named [] Items.nil = ok Fields.end
named [] (Items.cons v vs) = err tt
named (k ∷ ks) Items.nil = err tt
named (k ∷ ks) (Items.cons v vs) = do rest ← named ks vs; ok (Fields.field k v rest)

abbrev pub as_struct : List Str → Json → Read Fields
as_struct ks (Json.obj fs) = ok fs
as_struct ks (Json.arr vs) = named ks vs
as_struct ks _ = err tt

abbrev pub some_of {ℓ} : {A : Type ℓ} → Read A → Read (Option A)
some_of (ok a) = ok (some a)
some_of (err e) = err e

abbrev pub opt_of {ℓ} : {A : Type ℓ} → (Json → Read A) → Option Json → Read (Option A)
opt_of read none = ok none
opt_of read (some Json.null) = ok none
opt_of read (some v) = some_of (read v)

abbrev pub read_value : Json → Read Json
read_value v = ok v

abbrev pub read_str : Json → Read Str
read_str (Json.str s) = ok s
read_str _ = err tt

abbrev pub read_bool : Json → Read Bool
read_bool (Json.bool b) = ok b
read_bool _ = err tt

abbrev fitting : ℤ → Read ℤ
fitting z = if fits_i32 z then ok z else err tt

abbrev pub read_i32 : Json → Read ℤ
read_i32 (Json.uint n) = fitting (pos n)
read_i32 (Json.neg n) = fitting (negsuc n)
read_i32 _ = err tt

unfoldable pub read_items {ℓ} : {A : Type ℓ} → (Json → Read A) → Items → Read (List A)
read_items read Items.nil = ok []
read_items read (Items.cons v vs) = do a ← read v; rest ← read_items read vs; ok (a ∷ rest)

abbrev pub read_list {ℓ} : {A : Type ℓ} → (Json → Read A) → Json → Read (List A)
read_list read (Json.arr vs) = read_items read vs
read_list read _ = err tt

abbrev ref_names : List Str
ref_names = codes "label" ∷ codes "url" ∷ []

unfoldable pub raw_ref_of : Fields → Read RawRef
raw_ref_of fs = do
  label ← opt_of read_str (find fs (codes "label"))
  url ← opt_of read_str (find fs (codes "url"))
  ok (record { label = label; url = url })

unfoldable pub raw_ref : Json → Read RawRef
raw_ref v = do fs ← as_struct ref_names v; raw_ref_of fs

abbrev step_names : List Str
step_names =
    codes "n"
    ∷ codes "blockId"
    ∷ codes "type"
    ∷ codes "content"
    ∷ codes "title"
    ∷ codes "desc"
    ∷ codes "command"
    ∷ codes "imageKey"
    ∷ codes "level"
    ∷ codes "needsHuman"
    ∷ codes "needsHumanAsk"
    ∷ codes "danger"
    ∷ codes "why"
    ∷ codes "section"
    ∷ codes "subtasks"
    ∷ codes "refs"
    ∷ []

unfoldable pub raw_step_of : Fields → Read RawStep
raw_step_of fs = do
  n ← opt_of read_i32 (find fs (codes "n"))
  block_id ← opt_of read_str (find fs (codes "blockId"))
  block_type ← opt_of read_str (find fs (codes "type"))
  content ← opt_of read_value (find fs (codes "content"))
  title ← opt_of read_str (find fs (codes "title"))
  desc ← opt_of read_str (find fs (codes "desc"))
  command ← opt_of read_str (find fs (codes "command"))
  image_key ← opt_of read_str (find fs (codes "imageKey"))
  level ← opt_of read_str (find fs (codes "level"))
  needs_human ← opt_of read_bool (find fs (codes "needsHuman"))
  needs_human_ask ← opt_of read_str (find fs (codes "needsHumanAsk"))
  danger ← opt_of read_bool (find fs (codes "danger"))
  why ← opt_of read_str (find fs (codes "why"))
  section ← opt_of read_str (find fs (codes "section"))
  subtasks ← opt_of (read_list read_str) (find fs (codes "subtasks"))
  refs ← opt_of (read_list raw_ref) (find fs (codes "refs"))
  ok (record {
    n = n;
    block_id = block_id;
    block_type = block_type;
    content = content;
    title = title;
    desc = desc;
    command = command;
    image_key = image_key;
    level = level;
    needs_human = needs_human;
    needs_human_ask = needs_human_ask;
    danger = danger;
    why = why;
    section = section;
    subtasks = subtasks;
    refs = refs;
  })

unfoldable pub raw_step : Json → Read RawStep
raw_step v = do fs ← as_struct step_names v; raw_step_of fs

abbrev list_names : List Str
list_names =
    codes "title"
    ∷ codes "desc"
    ∷ codes "tags"
    ∷ codes "ordered"
    ∷ codes "kind"
    ∷ codes "skillHeader"
    ∷ codes "version"
    ∷ codes "steps"
    ∷ []

unfoldable pub raw_list_of : Fields → Read RawList
raw_list_of fs = do
  title ← opt_of read_str (find fs (codes "title"))
  desc ← opt_of read_str (find fs (codes "desc"))
  tags ← opt_of (read_list read_str) (find fs (codes "tags"))
  ordered ← opt_of read_bool (find fs (codes "ordered"))
  kind ← opt_of read_str (find fs (codes "kind"))
  skill_header ← opt_of read_value (find fs (codes "skillHeader"))
  version ← opt_of read_i32 (find fs (codes "version"))
  steps ← opt_of (read_list raw_step) (find fs (codes "steps"))
  ok (record {
    title = title;
    desc = desc;
    tags = tags;
    ordered = ordered;
    kind = kind;
    skill_header = skill_header;
    version = version;
    steps = steps;
  })

unfoldable pub raw_list : Json → Read RawList
raw_list v = do fs ← as_struct list_names v; raw_list_of fs
