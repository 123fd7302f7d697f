-- ===== src/Canon/Losses.antt =====
-- The strict reading complains just of the steps and the references that the projection would leave
-- out.
use setfork_core.Shared.{
  from_ok, ok_injective, ◌∙◌, ap₂, ℕ, suc, ◌≡◌, refl, ap, Bool, true, false, ◌&&◌, Option, none,
  some, List, [], ◌∷◌, ◌++◌, Str, codes, unwrap_or, ok, err, all, bind-ok, arith,
}
use setfork_core.Json.{Json, Items, Fields, find}
use setfork_core.Canon.Raw.{
  some_of, Read, RawRef, RawStep, RawList, raw_ref, opt_of, read_str, read_list, read_i32,
  read_value, read_bool, read_items, raw_step, raw_step_of, raw_list, raw_list_of,
}
use setfork_core.Canon.Steps.{ref_kept, step_kept}
use setfork_core.Canon.Strict.{
  CanonIssue, LossProbe, loss_probe_of, loss_probe, ref_issues, probe_issues, raw_issues, loss_from,
  items_issues, silent_loss_issues,
}

abbrev pub is_nil {ℓ} : {A : Type ℓ} → List A → Bool
is_nil [] = true
is_nil (x ∷ xs) = false

-- The step is projected, and so is each of its references.
abbrev pub step_whole : RawStep → Bool
step_whole s = step_kept s && all ref_kept (unwrap_or s.refs [])

abbrev probe : RawStep → LossProbe
probe s = record { block_type = s.block_type; title = s.title; refs = s.refs }

ref_issues-nil : (i k : ℕ) (rs : List RawRef) → is_nil (ref_issues i k rs) ≡ all ref_kept rs
unfolding ref_issues ref_kept
ref_issues-nil i k [] = refl
ref_issues-nil i k (r ∷ rs) = ground (arith, ref_issues-nil i (suc k) rs)

probe_issues-nil : (i : ℕ) (s : RawStep) → is_nil (probe_issues i (probe s)) ≡ step_whole s
unfolding probe_issues step_kept
probe_issues-nil i s = ground (arith, ref_issues-nil i 0 (unwrap_or s.refs []))

loss_probe_of-ok :
    (fs : Fields) {block_type title : Option Str} {refs : Option (List RawRef)}
    → opt_of read_str (find fs (codes "type")) ≡ ok block_type
    → opt_of read_str (find fs (codes "title")) ≡ ok title
    → opt_of (read_list raw_ref) (find fs (codes "refs")) ≡ ok refs
    → loss_probe_of fs ≡ ok (record { block_type = block_type; title = title; refs = refs })
unfolding loss_probe_of
loss_probe_of-ok fs e f g = rw (e, f, g) refl

loss_probe_of-raw_step_of :
    (fs : Fields) (s : RawStep) → raw_step_of fs ≡ ok s → loss_probe_of fs ≡ ok (probe s)
unfolding raw_step_of loss_probe_of
loss_probe_of-raw_step_of fs s h = from_ok (opt_of read_i32 (find fs (codes "n"))) _ s h λ v0 e h0.
    from_ok (opt_of read_str (find fs (codes "blockId"))) _ s h0 λ v1 e h1.
      from_ok (opt_of read_str (find fs (codes "type"))) _ s h1 λ v2 e_ty h2.
        from_ok (opt_of read_value (find fs (codes "content"))) _ s h2 λ v3 e h3.
          from_ok (opt_of read_str (find fs (codes "title"))) _ s h3 λ v4 e_ti h4.
            from_ok (opt_of read_str (find fs (codes "desc"))) _ s h4 λ v5 e h5.
              from_ok (opt_of read_str (find fs (codes "command"))) _ s h5 λ v6 e h6.
                from_ok (opt_of read_str (find fs (codes "imageKey"))) _ s h6 λ v7 e h7.
                  from_ok (opt_of read_str (find fs (codes "level"))) _ s h7 λ v8 e h8.
                    from_ok (opt_of read_bool (find fs (codes "needsHuman"))) _ s h8 λ v9 e h9.
                      from_ok (opt_of read_str (find fs (codes "needsHumanAsk"))) _ s h9
                        λ v10 e h10.
                          from_ok (opt_of read_bool (find fs (codes "danger"))) _ s h10 λ v11 e h11.
                            from_ok (opt_of read_str (find fs (codes "why"))) _ s h11 λ v12 e h12.
                              from_ok (opt_of read_str (find fs (codes "section"))) _ s h12
                                λ v13 e h13.
                                  from_ok (opt_of (read_list read_str) (find fs (codes "subtasks")))
                                    _ s h13
                                    λ v14 e h14.
                                      from_ok (opt_of (read_list raw_ref) (find fs (codes "refs")))
                                        _ s h14
                                        λ v15 e_re h15.
                                          loss_probe_of-ok fs e_ty e_ti e_re
                                          ∙ ap (λ r. ok (probe r)) (ok_injective _ s h15)

-- The fields and the elements of arrays that the manifest has.
abbrev pub AllObjects : Items → Type 0
AllObjects Items.nil = Unit
AllObjects (Items.cons (Json.obj fs) vs) = AllObjects vs
AllObjects (Items.cons _ vs) = ⊥

abbrev pub HasObjects : Option Json → Type 0
HasObjects (some (Json.arr vs)) = AllObjects vs
HasObjects _ = Unit

-- An object whose steps are objects.
abbrev pub IsManifest : Json → Type 0
IsManifest (Json.obj fs) = HasObjects (find fs (codes "steps"))
IsManifest _ = ⊥

is_nil-append : (xs ys : List CanonIssue) → is_nil (xs ++ ys) ≡ (is_nil xs && is_nil ys)
is_nil-append [] ys = refl
is_nil-append (x ∷ xs) ys = refl

raw_issues-nil :
    (i : ℕ) (fs : Fields) (s : RawStep)
    → raw_step_of fs ≡ ok s
    → is_nil (raw_issues i (loss_probe (Json.obj fs))) ≡ step_whole s
unfolding loss_probe probe_issues
raw_issues-nil i fs s h = rw (loss_probe_of-raw_step_of fs s h) (probe_issues-nil i s)

loss_from-nil :
    (i : ℕ) (vs : Items) (ss : List RawStep)
    → AllObjects vs
    → read_items raw_step vs ≡ ok ss
    → is_nil (loss_from i vs) ≡ all step_whole ss
unfolding loss_from read_items raw_step
loss_from-nil i Items.nil ss o h = ap (all step_whole) (ok_injective _ ss h)
loss_from-nil i (Items.cons (Json.obj fs) vs) ss o h =
    let (s, e, h1) = bind-ok (raw_step_of fs) _ ss h in
    let (rest, f, h2) = bind-ok (read_items raw_step vs) _ ss h1 in
    is_nil-append _ _
    ∙ ap₂ (λ a b. a && b) (raw_issues-nil i fs s e) (loss_from-nil (suc i) vs rest o f)
    ∙ ap (all step_whole) (ok_injective _ ss h2)
loss_from-nil i (Items.cons _ vs) ss o h = absurd o

no_steps :
    (ss : Option (List RawStep))
    → Path (Read (Option (List RawStep))) (ok none) (ok ss)
    → true ≡ all step_whole (unwrap_or ss [])
no_steps ss h = ap (λ t. all step_whole (unwrap_or t [])) (ok_injective none ss h)

some_of-ok :
    {A : Type 0} (r : Read A) (o : Option A)
    → some_of r ≡ ok o
    → (a : A) × (r ≡ ok a) × (some a ≡ o)
some_of-ok (ok a) o h = (a, refl, ok_injective _ o h)
some_of-ok (err e) o h = absurd (ground arith)

items_issues-nil :
    (o : Option Json) (ss : Option (List RawStep))
    → HasObjects o
    → opt_of (read_list raw_step) o ≡ ok ss
    → is_nil (items_issues o) ≡ all step_whole (unwrap_or ss [])
unfolding loss_from
items_issues-nil none ss g h = no_steps ss h
items_issues-nil (some Json.null) ss g h = no_steps ss h
items_issues-nil (some (Json.arr vs)) ss g h =
    let (rs, e, f) = some_of-ok (read_items raw_step vs) ss h in
    loss_from-nil 0 vs rs g e ∙ ap (λ t. all step_whole (unwrap_or t [])) f
items_issues-nil (some _) ss g h = absurd (ground arith)

-- On a value whose steps are objects, and which the projection can read, the complaints are none
-- just if the projection keeps every step and every reference.
pub silent_loss_issues-nil :
    (v : Json) (l : RawList)
    → IsManifest v
    → raw_list v ≡ ok l
    → is_nil (silent_loss_issues v) ≡ all step_whole (unwrap_or l.steps [])
unfolding silent_loss_issues raw_list raw_list_of
silent_loss_issues-nil (Json.obj fs) l g h =
    from_ok (opt_of read_str (find fs (codes "title"))) _ l h λ v1 e1 h1.
      from_ok (opt_of read_str (find fs (codes "desc"))) _ l h1 λ v2 e2 h2.
        from_ok (opt_of (read_list read_str) (find fs (codes "tags"))) _ l h2 λ v3 e3 h3.
          from_ok (opt_of read_bool (find fs (codes "ordered"))) _ l h3 λ v4 e4 h4.
            from_ok (opt_of read_str (find fs (codes "kind"))) _ l h4 λ v5 e5 h5.
              from_ok (opt_of read_value (find fs (codes "skillHeader"))) _ l h5 λ v6 e6 h6.
                from_ok (opt_of read_i32 (find fs (codes "version"))) _ l h6 λ v7 e7 h7.
                  from_ok (opt_of (read_list raw_step) (find fs (codes "steps"))) _ l h7
                    λ steps e h8.
                      items_issues-nil (find fs (codes "steps")) steps g e
                      ∙ ap (λ r. all step_whole (unwrap_or r.steps [])) (ok_injective _ l h8)
silent_loss_issues-nil _ l g h = absurd g
