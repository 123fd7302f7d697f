-- ===== src/Canon/Project.antt =====
-- `project_pushed_commit` of git/project.rs with `strip_v_prefix`. The state is a parameter; so are
-- what reads the tip of main, `serde_json::from_slice` of a `RawList`, and the writers of the
-- version, of the data of the list and of the tag. A `join` is the failure of a task on another
-- thread.
pub mod Note
pub mod Published
use setfork_core.Shared.{
  ℕ, zero, suc, Bool, true, false, ◌&&◌, Option, none, some, List, [], ◌∷◌, Str, codes, is_some_and,
  is_ascii_digit, if◌then◌else◌, ◌==◌, Result, ok, err,
}
use setfork_core.Json.{Json}
use setfork_core.Db.Carryover.{ProjStep}
use setfork_core.Canon.Raw.{Read, RawStep, RawList}
use setfork_core.Canon.Steps.{blank, parse_steps}

unfoldable pub skip_digits : Str → Str
unfolding is_ascii_digit
skip_digits [] = []
skip_digits (c ∷ s) = let rest = skip_digits s in if is_ascii_digit c then rest else c ∷ s

unfoldable pub skip_spaces : Str → Str
skip_spaces [] = []
skip_spaces (c ∷ s) = let rest = skip_spaces s in if c == 32 then rest else c ∷ s

abbrev pub after_colon : Str → Str → Str
unfolding skip_spaces
after_colon whole [] = whole
after_colon whole (c ∷ s) = if c == b':' then skip_spaces s else whole

abbrev pub starts_with_digit : Str → Bool
unfolding is_ascii_digit
starts_with_digit [] = false
starts_with_digit (c ∷ s) = is_ascii_digit c

-- The bytes that are compared are ASCII, and no byte of a longer sequence is.
unfoldable pub strip_v_prefix : Str → Str
unfolding skip_digits
strip_v_prefix [] = []
strip_v_prefix (c ∷ s) =
    if c == b'v' && starts_with_digit s then after_colon (c ∷ s) (skip_digits s) else c ∷ s

-- `chars().take(n)`
abbrev pub take {ℓ} : {A : Type ℓ} → ℕ → List A → List A
take zero xs = []
take (suc n) [] = []
take (suc n) (x ∷ xs) = x ∷ take n xs

unfoldable pub note_of : Str → Str
unfolding strip_v_prefix
note_of subject =
    let stripped = take 200 (strip_v_prefix subject) in
    if blank stripped then codes "pushed via git" else stripped

pub record PushedMeta : Type 0 where
  pub title : Option Str
  pub desc : Option Str
  pub tags : Option (List Str)
  pub ordered : Option Bool
  pub kind : Option Str
  pub skill_header : Option Json

abbrev pub meta_of : RawList → PushedMeta
meta_of l = record {
  title = l.title;
  desc = l.desc;
  tags = l.tags;
  ordered = l.ordered;
  kind = l.kind;
  skill_header = l.skill_header;
}

pub data ProjectError : Type 0 where
  db join : Str → ProjectError

-- What `read_tip` gives of a repository: the commit, `list.json` and the subject.
pub record TipData (Body : Type 0) : Type 0 where
  pub tip : Str
  pub raw : Body
  pub subject : Str

pub record Host (Body World : Type 0) : Type 0 where
  pub read_tip : World → Result ProjectError (Option (TipData Body))
  pub from_slice : Body → Read RawList
  pub add_version : Str → List ProjStep → World → Result ProjectError ℕ × World
  pub update_meta : PushedMeta → World → Result ProjectError (Unit {0}) × World
  pub tag_version : ℕ → Str → World → Result ProjectError (Unit {0}) × World

module _ {Body World : Type 0} (h : Host Body World) where
  abbrev pub Exec : Type 0
  Exec = Result ProjectError (Option ℕ) × World

  -- A failure of the tag, or of the data of the list, is logged.
  abbrev logged : ℕ → Result ProjectError (Unit {0}) × World → Exec
  logged ver (r, w) = (ok (some ver), w)

  abbrev tagged : ℕ → Str → Result ProjectError (Unit {0}) × World → Exec
  tagged ver tip (r, w) = logged ver (h.tag_version ver tip w)

  abbrev pub versioned : RawList → Str → Result ProjectError ℕ × World → Exec
  versioned l tip (err e, w) = (err e, w)
  versioned l tip (ok ver, w) = tagged ver tip (h.update_meta (meta_of l) w)

  abbrev pub with_steps : RawList → TipData Body → Option (List RawStep) → World → Exec
  unfolding parse_steps note_of
  with_steps l t none w = (ok none, w)
  with_steps l t (some steps) w =
      versioned l t.tip (h.add_version (note_of t.subject) (parse_steps steps) w)

  abbrev pub with_list : TipData Body → Read RawList → World → Exec
  with_list t (err e) w = (ok none, w)
  with_list t (ok l) w = with_steps l t l.steps w

  abbrev pub with_tip : Result ProjectError (Option (TipData Body)) → World → Exec
  with_tip (err e) w = (err e, w)
  with_tip (ok none) w = (ok none, w)
  with_tip (ok (some t)) w = with_list t (h.from_slice t.raw) w

  unfoldable pub project_pushed_commit : World → Exec
  project_pushed_commit w = with_tip (h.read_tip w) w
