-- ===== src/Db/Carryover/Marks.antt =====
-- What a push keeps of the marks of a step: the file decides where it says something, the last step
-- of the current version with the same block where it says nothing.
use setfork_core.Shared.{
  ℕ, ◌≡◌, ◌≢◌, refl, sym, ap, ◌∙◌, Bool, true, false, Option, none, some, List, [], ◌∷◌, ◌++◌, ◌==◌,
  arith, Str, unwrap_or, ok, bind-ok, ok_injective, Bool-cases, All, inl, inr, ==_iff,
}
use setfork_core.Json.{Json}
use setfork_core.Db.Carryover.{
  CarryOver, ProjStep, Kept, carried, image_of, ask_of, proj_step_row, MarkRow, carry_of, insert,
  mark_row, marks_from, current_marks,
}

-- The file has a word on each of the three marks.
abbrev pub SpeaksOfMarks : ProjStep → Type 0
SpeaksOfMarks s = (s.image_key ≢ none) × (s.needs_human ≢ none) × (s.danger ≢ none)

image_of-spoken : (k a b : Option Str) → k ≢ none → image_of k a ≡ image_of k b
unfolding image_of
image_of-spoken none a b h = absurd (h refl)
image_of-spoken (some k) a b h = refl

ask_of-spoken :
    (m : Option Bool) (q : Option Str) (a b : Json) → m ≢ none → ask_of m q a ≡ ask_of m q b
unfolding ask_of
ask_of-spoken none q a b h = absurd (h refl)
ask_of-spoken (some true) q a b h = refl
ask_of-spoken (some false) q a b h = refl

unwrap_or-spoken : (m : Option Bool) (a b : Bool) → m ≢ none → unwrap_or m a ≡ unwrap_or m b
unwrap_or-spoken none a b h = absurd (h refl)
unwrap_or-spoken (some x) a b h = refl

-- A row no longer names the block `id`.
abbrev pub IsOther : ℕ → MarkRow → Type 0
IsOther id r = r.block_id ≢ ok (some id)

module _ (parse_uuid : Str → Option ℕ) where
  -- Where the file has a word on each mark, the row that the push writes is the same whatever the
  -- marks of the current version are.
  pub proj_step_row-SpeaksOfMarks :
      (s : ProjStep) (keep keep' : Kept)
      → SpeaksOfMarks s
      → proj_step_row parse_uuid s keep ≡ proj_step_row parse_uuid s keep'
  unfolding proj_step_row
  proj_step_row-SpeaksOfMarks s keep keep' (k, h, d) =
      let old = carried parse_uuid s.block_id keep in
      let new = carried parse_uuid s.block_id keep' in
      rw (image_of-spoken s.image_key old.image_key new.image_key k) (
        rw (ask_of-spoken s.needs_human s.needs_human_ask old.needs_human_ask new.needs_human_ask h)
          (rw (unwrap_or-spoken s.needs_human old.needs_human new.needs_human h)
            (rw (unwrap_or-spoken s.danger old.danger new.danger d) refl)))

mark_row-other :
    (out out' : Kept) (r : MarkRow) (b : Option ℕ) (id : ℕ)
    → b ≢ some id
    → mark_row out r b ≡ ok out'
    → out' id ≡ out id
unfolding mark_row
mark_row-other out out' r none id n h = ap (λ m. m id) (sym (ok_injective out out' h))
mark_row-other out out' r (some j) id n h =
    let (c, e, k) = bind-ok (carry_of r) _ out' h in
    let apart : (j == id) ≡ false = elim (Bool-cases (j == id)) [
      | inl q ↦ absurd (n (ap some ((==_iff j id).0 q)))
      | inr q ↦ q
    ] in
    ap (λ m. m id) (sym (ok_injective (insert out j c) out' k)) ∙ rw apart refl

marks_from-other :
    (rows : List MarkRow) (out res : Kept) (id : ℕ)
    → All (IsOther id) rows
    → marks_from out rows ≡ ok res
    → res id ≡ out id
unfolding marks_from
marks_from-other [] out res id o h = ap (λ m. m id) (sym (ok_injective out res h))
marks_from-other (r ∷ rs) out res id (n, o) h =
    let (b, e, h1) = bind-ok r.block_id _ res h in
    let (out', e', h2) = bind-ok (mark_row out r b) _ res h1 in
    marks_from-other rs out' res id o h2 ∙ mark_row-other out out' r b id (λ q. n (e ∙ ap ok q)) e'

mark_row-own :
    (out out' : Kept) (r : MarkRow) (b : Option ℕ) (id : ℕ) (c : CarryOver)
    → b ≡ some id
    → carry_of r ≡ ok c
    → mark_row out r b ≡ ok out'
    → out' id ≡ some c
unfolding mark_row
mark_row-own out out' r none id c q k h = absurd (ground arith)
mark_row-own out out' r (some j) id c q k h =
    let (c', e, f) = bind-ok (carry_of r) _ out' h in
    let same : (j == id) ≡ true = (==_iff j id).1 (ground arith) in
    ap (λ m. m id) (sym (ok_injective (insert out j c') out' f))
    ∙ rw same (ap some (ok_injective c' c (sym e ∙ k)))

marks_from-last :
    (pre post : List MarkRow) (r : MarkRow) (out res : Kept) (id : ℕ) (c : CarryOver)
    → marks_from out (pre ++ r ∷ post) ≡ ok res
    → r.block_id ≡ ok (some id)
    → carry_of r ≡ ok c
    → All (IsOther id) post
    → res id ≡ some c
unfolding marks_from
marks_from-last (p ∷ pre) post r out res id c h e k o =
    let (b, e1, h1) = bind-ok p.block_id _ res h in
    let (out', e2, h2) = bind-ok (mark_row out p b) _ res h1 in
    marks_from-last pre post r out' res id c h2 e k o
marks_from-last [] post r out res id c h e k o =
    let (b, e1, h1) = bind-ok r.block_id _ res h in
    let (out', e2, h2) = bind-ok (mark_row out r b) _ res h1 in
    let q : some id ≡ b = ok_injective (some id) b (sym e ∙ e1) in
    marks_from-other post out' res id o h2 ∙ mark_row-own out out' r b id c (sym q) k e2

-- The map of the current version gives a block the marks of the last step, in the order of the
-- list, that has the block's id: an earlier step with the same id has no say.
pub current_marks-last :
    (pre post : List MarkRow) (r : MarkRow) (res : Kept) (id : ℕ) (c : CarryOver)
    → current_marks (pre ++ r ∷ post) ≡ ok res
    → r.block_id ≡ ok (some id)
    → carry_of r ≡ ok c
    → All (IsOther id) post
    → res id ≡ some c
unfolding current_marks
current_marks-last pre post r res id c h e k o =
    marks_from-last pre post r (λ j. none) res id c h e k o
