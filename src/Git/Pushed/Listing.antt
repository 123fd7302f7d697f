-- ===== src/Git/Pushed/Listing.antt =====
-- What is read of the listings of git.
use setfork_core.Shared.{
  ◌≡◌, refl, sym, ap, ap₂, ◌∙◌, inl, inr, false, Option, none, some, List, [], ◌∷◌, Str, codes,
  str_eq, is_empty, In, arith, Bool-cases, Option-cases, subst, str_eq→eq, unwrap_or,
}
use setfork_core.Git.Pushed.{
  split_on, split_once, not_empty, blobs, blob_of, split_entry, with_entry,
}
use setfork_core.Git.Pushed.Laws.{IsEntry}

pub not_empty-In : (l : Str) (ls : List Str) → In l ls → is_empty l ≡ false → In l (not_empty ls)
unfolding not_empty
not_empty-In l [] i e = absurd i
not_empty-In l (m ∷ ls) (inl q) e = let f = subst (λ x. is_empty x ≡ false) q e in rw f (inl q)
not_empty-In l (m ∷ ls) (inr i) e = elim (Bool-cases (is_empty m)) [
  | inl f ↦ rw f (not_empty-In l ls i e)
  | inr f ↦ rw f (inr (not_empty-In l ls i e))
]

pub In-not_empty : (l : Str) (ls : List Str) → In l (not_empty ls) → In l ls × (is_empty l ≡ false)
unfolding not_empty
In-not_empty l [] i = absurd i
In-not_empty l (m ∷ ls) i = elim (Bool-cases (is_empty m)) [
  | inl f ↦ let (j, e) = In-not_empty l ls (rw f at i) in (inr j, e)
  | inr f ↦ elim (rw f at i) [
    | inl q ↦ (inl q, subst (λ x. is_empty x ≡ false) (sym q) f)
    | inr j ↦ let (k, e) = In-not_empty l ls j in (inr k, e)
  ]
]

pub entry_filled : (e path oid : Str) → IsEntry e path oid → is_empty e ≡ false
unfolding split_once
entry_filled [] path oid (meta, mode, more, p, q) = absurd (ground arith)
entry_filled (c ∷ e) path oid k = refl

-- An entry of a blob is read as the blob, and nothing else is.
pub entry_read :
    (e path oid : Str) → IsEntry e path oid → split_entry (split_once 9 e) ≡ some (path, oid)
unfolding split_entry
entry_read e path oid (meta, mode, more, p, q) = rw p (rw q refl)

blob_only :
    (ws : List Str) (p path oid : Str)
    → blob_of ws p ≡ some (path, oid)
    → (mode : Str) × (more : List Str) × (ws ≡ mode ∷ codes "blob" ∷ oid ∷ more) × (p ≡ path)
blob_only [] p path oid h = absurd (ground arith)
blob_only (a ∷ []) p path oid h = absurd (ground arith)
blob_only (a ∷ b ∷ []) p path oid h = absurd (ground arith)
blob_only (a ∷ b ∷ c ∷ more) p path oid h = elim (Bool-cases (str_eq b (codes "blob"))) [
  | inl e ↦
      let f : ◌≡◌ {A = Option (Str × Str)} (some (p, c)) (some (path, oid)) = rw e at h in
      (
        a,
        more,
        ap₂ (λ x y. a ∷ x ∷ y ∷ more) (str_eq→eq b (codes "blob") e)
            (ap (λ o. (unwrap_or {A = Str × Str} o ([], [])).1) f),
        ap (λ o. (unwrap_or {A = Str × Str} o ([], [])).0) f,
      )
  | inr e ↦ absurd (ground arith)
]

read_entry :
    (e path oid : Str) → split_entry (split_once 9 e) ≡ some (path, oid) → IsEntry e path oid
unfolding split_entry
read_entry e path oid h = elim (Option-cases (split_once 9 e)) [
  | inl q ↦ absurd (ground arith)
  | inr (r, q) ↦
      let (mode, more, f, g) = blob_only (split_on 32 r.0) r.1 path oid (rw q at h) in
      (r.0, mode, more, q ∙ ap (λ x. some (r.0, x)) g, f)
]

pub blobs-In :
    (es : List Str) (e path oid : Str) → In e es → IsEntry e path oid → In (path, oid) (blobs es)
unfolding blobs
blobs-In [] e path oid i k = absurd i
blobs-In (d ∷ es) e path oid (inl q) k =
    rw (entry_read d path oid (subst (λ x. IsEntry x path oid) q k)) (inl refl)
blobs-In (d ∷ es) e path oid (inr i) k =
    behind (split_entry (split_once 9 d)) (blobs-In es e path oid i k)
  where
    behind :
        (o : Option (Str × Str))
        → In (path, oid) (blobs es)
        → In (path, oid) (with_entry o (blobs es))
    behind none j = j
    behind (some x) j = inr j

pub In-blobs :
    (es : List Str) (path oid : Str)
    → In (path, oid) (blobs es)
    → (e : Str) × In e es × IsEntry e path oid
unfolding blobs
In-blobs [] path oid i = absurd i
In-blobs (d ∷ es) path oid i =
    go (split_entry (split_once 9 d)) refl i (λ j. In-blobs es path oid j)
  where
    go :
        (o : Option (Str × Str))
        → split_entry (split_once 9 d) ≡ o
        → In (path, oid) (with_entry o (blobs es))
        → (In (path, oid) (blobs es) → (e : Str) × In e es × IsEntry e path oid)
        → (e : Str) × In e (d ∷ es) × IsEntry e path oid
    go none h j again = let (e, k, f) = again j in (e, inr k, f)
    go (some x) h (inl q) again = (d, inl refl, read_entry d path oid (h ∙ ap some (sym q)))
    go (some x) h (inr j) again = let (e, k, f) = again j in (e, inr k, f)
