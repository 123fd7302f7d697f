-- ===== src/Canon/Lossless.antt =====
-- What the strict reading accepts is projected whole.
use setfork_core.Shared.{
  subst, sym, ok_injective, ◌∙◌, ◌≡◌, refl, ap, true, Option, none, some, List, [], ◌∷◌, ◌++◌, map,
  Str, unwrap_or, Result, ok, err, all, arith, and_parts,
}
use setfork_core.Json.{Json}
use setfork_core.Db.Carryover.{ProjStep}
use setfork_core.Canon.Raw.{Read, RawRef, RawStep, RawList, raw_list}
use setfork_core.Canon.Steps.{
  parts_or_none, proj_ref, proj_step, ref_kept, step_kept, parse_refs, parse_steps, ListParts,
  list_parts, parse_list_value,
}
use setfork_core.Canon.Strict.{
  on_parsed, judged, parts_or_issue, CanonIssue, silent_loss_issues, ValidationError, schema_issue,
  schema_issues, unmasked, complaints, SyntaxError, parse_canon,
}
use setfork_core.Canon.Losses.{is_nil, step_whole, IsManifest, silent_loss_issues-nil}

refs_whole : (rs : List RawRef) → all ref_kept rs ≡ true → parse_refs rs ≡ map proj_ref rs
unfolding parse_refs
refs_whole [] h = refl
refs_whole (r ∷ rs) h = ground (arith, refs_whole rs)

-- Every step of the list with every one of its references.
abbrev pub whole_step : RawStep → ProjStep
whole_step s = record (proj_step s) { refs = map proj_ref (unwrap_or s.refs []) }

steps_whole : (ss : List RawStep) → all step_whole ss ≡ true → parse_steps ss ≡ map whole_step ss
unfolding parse_steps proj_step
steps_whole [] h = refl
steps_whole (s ∷ ss) h =
    let (w, ws) = and_parts (step_whole s) (all step_whole ss) h in
    let (k, rs) = and_parts (step_kept s) (all ref_kept (unwrap_or s.refs [])) w in
    rw (k, steps_whole ss ws, refs_whole (unwrap_or s.refs []) rs) refl

-- The parts with every step of the list and every reference of a step.
abbrev pub whole_parts : RawList → ListParts
whole_parts l = record (list_parts l) { steps = map whole_step (unwrap_or l.steps []) }

unmasked_all : (ss : List ValidationError) → unmasked [] (map schema_issue ss) ≡ [] → ss ≡ []
unfolding unmasked
unmasked_all [] h = refl
unmasked_all (s ∷ ss) h = absurd (ground arith)

judged-ok :
    (is : List CanonIssue) (v : Json) (parts : ListParts)
    → judged is v ≡ ok parts
    → (is ≡ []) × (parse_list_value v ≡ some parts)
unfolding parse_list_value
judged-ok [] v parts h = (refl, go (parse_list_value v) h)
  where
    go : (o : Option ListParts) → parts_or_issue o ≡ ok parts → o ≡ some parts
    go (some p) h = ap some (ok_injective p parts h)
    go none h = absurd (ground arith)
judged-ok (i ∷ is) v parts h = absurd (ground arith)

nil_parts : {A : Type 0} (xs ys : List A) → xs ++ ys ≡ [] → (xs ≡ []) × (ys ≡ [])
nil_parts [] ys h = (refl, h)
nil_parts (x ∷ xs) ys h = absurd (ground arith)

complaints-nil :
    (iter_errors : Json → List ValidationError) (v : Json)
    → complaints (some iter_errors) v ≡ []
    → (iter_errors v ≡ []) × (silent_loss_issues v ≡ [])
unfolding complaints schema_issues
complaints-nil iter_errors v h =
    let (u, e) =
      nil_parts (unmasked (silent_loss_issues v) (map schema_issue (iter_errors v)))
        (silent_loss_issues v) h in
    (
      unmasked_all (iter_errors v)
          (subst (λ loss. unmasked loss (map schema_issue (iter_errors v)) ≡ []) e u),
      e,
    )

parse_list_value-ok :
    (v : Json) (parts : ListParts)
    → parse_list_value v ≡ some parts
    → (l : RawList) × (raw_list v ≡ ok l) × (list_parts l ≡ parts)
unfolding parse_list_value
parse_list_value-ok v parts h = go (raw_list v) h
  where
    go :
        (r : Read RawList)
        → parts_or_none r ≡ some parts
        → (l : RawList) × (r ≡ ok l) × (list_parts l ≡ parts)
    go (ok l) h = (l, refl, ap (λ o. unwrap_or o (list_parts l)) h)
    go (err e) h = absurd (ground arith)

on_parsed-ok :
    (go : Json → Result (List CanonIssue) ListParts) (r : Result SyntaxError Json)
    (parts : ListParts)
    → on_parsed go r ≡ ok parts
    → (v : Json) × (r ≡ ok v) × (go v ≡ ok parts)
on_parsed-ok go (ok v) parts h = (v, refl, h)
on_parsed-ok go (err e) parts h = absurd (ground arith)

-- What the strict reading accepts, with a schema that asks for objects, is a value without an error
-- of the schema, and the parts are all of the list: no step and no reference is left out.
pub parse_canon-whole :
    (from_str : Str → Result SyntaxError Json) (iter_errors : Json → List ValidationError)
    (text : Str) (parts : ListParts)
    → ((v : Json) → iter_errors v ≡ [] → IsManifest v)
    → parse_canon from_str (some iter_errors) text ≡ ok parts
    → (v : Json) × (l : RawList) × (from_str text ≡ ok v)
      × (raw_list v ≡ ok l)
      × (iter_errors v ≡ [])
      × (parts ≡ whole_parts l)
unfolding parse_canon list_parts
parse_canon-whole from_str iter_errors text parts asks h =
    let (v, e, j) = on_parsed-ok _ (from_str text) parts h in
    let (cs, f) = judged-ok _ v parts j in
    let (errors, loss) = complaints-nil iter_errors v cs in
    let (l, g, parted) = parse_list_value-ok v parts f in
    let whole = sym (silent_loss_issues-nil v l (asks v errors) g) ∙ ap is_nil loss in
    (
      v,
      l,
      e,
      g,
      errors,
      sym parted
          ∙ ap (λ ss. record (list_parts l) { steps = ss })
              (steps_whole (unwrap_or l.steps []) whole),
    )
