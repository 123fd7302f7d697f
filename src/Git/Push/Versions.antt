-- ===== src/Git/Push/Versions.antt =====
-- When a push makes a version, and what it leaves of the magic refs.
use setfork_core.Shared.{
  ◌≡◌, ◌≢◌, refl, sym, ap, ◌∙◌, Bool, true, false, Option, none, some, List, [], ◌∷◌, arith, Str,
  is_empty, starts_with, Result, ok, err, ok_injective, Bool-cases, Result-cases, inl, inr, ◌⊎◌,
  subst, strip_prefix,
}
use setfork_core.Gate.Ask.{World}
use setfork_core.Git.Refs.{Oid, RefError, RefDb, main_ref}
use setfork_core.Git.Magic.{MagicPush, Snapshot, magic_prefix, snapshot, take_magic_pushes}
use setfork_core.Git.Magic.Moves.{take_magic_pushes-Keeps, take_magic_pushes-clears}
use setfork_core.Git.Branches.{Disk}
use setfork_core.Git.Push.{
  Host, PushRequest, PushResponse, moved, answered, received, or_empty, actor_of, push_checks,
  receive_pack, choose_actor,
}

module _ {Body : Type 0} (w : World Body) (app_url : Option Str) (disk : Disk) (d : RefDb)
    (h : Host w app_url disk d) where
  -- A response with a version comes with a `main` that points elsewhere than before.
  abbrev pub HasMoved : d.Repo → PushResponse → d.Repo → Type 0
  HasMoved r p r' =
      (p.new_version ≡ 0)
      ⊎ ((tip : Oid) × (d.find r' main_ref ≡ some tip) × (d.find r main_ref ≢ some tip))

  moved-tip :
      (before now : Option Oid)
      → moved w app_url disk d before now ≡ true
      → (tip : Oid) × (now ≡ some tip) × (before ≢ some tip)
  moved-tip before none e = absurd (ground arith)
  moved-tip none (some tip) e = (tip, refl, λ q. ground arith)
  moved-tip (some a) (some tip) e = (tip, refl, λ q. ground arith)

  answered-HasMoved :
      (r s : d.Repo) (pack : Str) (out : Result RefError (List MagicPush) × d.Repo)
      → d.find out.1 main_ref ≡ d.find s main_ref
      → (p : PushResponse)
      → (answered w app_url disk d h pack
          (moved w app_url disk d (d.find r main_ref) (d.find s main_ref))
          out).0
        ≡ ok p
      → HasMoved r p out.1
  answered-HasMoved r s pack (err e, t) k p q = absurd (ground arith)
  answered-HasMoved r s pack (ok magic, t) k p q =
      elim (Bool-cases (moved w app_url disk d (d.find r main_ref) (d.find s main_ref))) [
        | inl m ↦
            let (tip, e, n) = moved-tip (d.find r main_ref) (d.find s main_ref) m in
            inr (tip, k ∙ e, n)
        | inr m ↦ inl (sym (ap (λ x. x.new_version) (ok_injective _ p q)) ∙ rw m refl)
      ]

  answered-state :
      (r s : d.Repo) (pack : Str) (out : Result RefError (List MagicPush) × d.Repo)
      → out.1
        ≡ (answered w app_url disk d h pack
            (moved w app_url disk d (d.find r main_ref) (d.find s main_ref))
            out).1
  answered-state r s pack (err e, t) = refl
  answered-state r s pack (ok magic, t) = refl

  received-HasMoved :
      (q : PushRequest) (before : Snapshot) (r : d.Repo) (got : Result Str Str × d.Repo)
      (p : PushResponse)
      → (received w app_url disk d h
          (actor_of w app_url disk d h q)
          before
          (d.find r main_ref)
          got).0
        ≡ ok p
      → HasMoved r p
          (received w app_url disk d h
            (actor_of w app_url disk d h q)
            before
            (d.find r main_ref)
            got).1
  unfolding strip_prefix
  received-HasMoved q before r (err e, s) p k = absurd (ground arith)
  received-HasMoved q before r (ok pack, s) p k =
      let actor = actor_of w app_url disk d h q in
      let out = take_magic_pushes d actor before s in
      let kept = take_magic_pushes-Keeps d actor before s in
      subst (HasMoved r p) (answered-state r s pack out)
        (answered-HasMoved r s pack out (kept.outside main_ref refl refl) p k)

  -- A push that succeeds makes a version only if it has moved `main`: a response with a version
  -- other than 0 leaves `main` at a tip that is not where it was before the push, magic pushes or
  -- not.
  pub receive_pack-HasMoved :
      (q : PushRequest) (r : d.Repo) (p : PushResponse)
      → (receive_pack w app_url disk d h q r).0 ≡ ok p
      → HasMoved r p (receive_pack w app_url disk d h q r).1
  unfolding receive_pack
  receive_pack-HasMoved q r = elim (Result-cases (push_checks w app_url disk d h q.repo)) [
    | inl (e, c) ↦ rw c (λ p k. absurd (ground arith))
    | inr (u, c) ↦ rw c (received-HasMoved q (or_empty w app_url disk d h (snapshot d r)) r _)
  ]

  answered-clears :
      (pack k : Str) (move : Bool) (out : Result RefError (List MagicPush) × d.Repo)
      → ((ms : List MagicPush) → out.0 ≡ ok ms → d.find out.1 k ≡ none)
      → (p : PushResponse) → (answered w app_url disk d h pack move out).0 ≡ ok p
      → d.find (answered w app_url disk d h pack move out).1 k ≡ none
  answered-clears pack k move (err e, t) c p q = absurd (ground arith)
  answered-clears pack k move (ok magic, t) c p q = c magic refl

  received-clears :
      (q : PushRequest) (before : Snapshot) (now : Option Oid) (got : Result Str Str × d.Repo)
      (k : Str)
      → is_empty (actor_of w app_url disk d h q) ≡ false
      → starts_with k magic_prefix ≡ true
      → (p : PushResponse)
      → (received w app_url disk d h (actor_of w app_url disk d h q) before now got).0 ≡ ok p
      → d.find (received w app_url disk d h (actor_of w app_url disk d h q) before now got).1 k
        ≡ none
  received-clears q before now (err e, s) k a m = λ p e'. absurd (ground arith)
  received-clears q before now (ok pack, s) k a m =
      let actor = actor_of w app_url disk d h q in
      answered-clears pack k (moved w app_url disk d now (d.find s main_ref))
        (take_magic_pushes d actor before s)
        (λ ms e. take_magic_pushes-clears d actor before s ms k a e m)

  -- A push with a known author that succeeds leaves no magic ref in the repository.
  pub receive_pack-clears :
      (q : PushRequest) (r : d.Repo) (k : Str)
      → is_empty (actor_of w app_url disk d h q) ≡ false
      → starts_with k magic_prefix ≡ true
      → (p : PushResponse) → (receive_pack w app_url disk d h q r).0 ≡ ok p
      → d.find (receive_pack w app_url disk d h q r).1 k ≡ none
  unfolding receive_pack
  receive_pack-clears q r k a m = elim (Result-cases (push_checks w app_url disk d h q.repo)) [
    | inl (e, c) ↦ rw c (λ p k. absurd (ground arith))
    | inr (u, c) ↦
        rw c (
          received-clears q (or_empty w app_url disk d h (snapshot d r)) (d.find r main_ref) _ k a
            m)
  ]

  choose_actor-handle :
      (id role a b : Str) → is_empty role ≡ false → choose_actor id role a ≡ choose_actor id role b
  unfolding choose_actor
  choose_actor-handle [] [] a b n = absurd (ground arith)
  choose_actor-handle [] (c ∷ role) a b n = refl
  choose_actor-handle (c ∷ id) role a b n = refl

  -- Where the client sends a role, the nickname has no part in the push: any other nickname gives
  -- the same answer and the same repository, so no branch is ever named by a nickname that can
  -- change.
  pub receive_pack-handle :
      (q : PushRequest) (handle : Str) (r : d.Repo)
      → is_empty q.actor_role ≡ false
      → receive_pack w app_url disk d h (record q { actor_handle = handle }) r
        ≡ receive_pack w app_url disk d h q r
  unfolding receive_pack
  receive_pack-handle q handle r n =
      rw (choose_actor-handle q.actor_id q.actor_role handle q.actor_handle n) refl
