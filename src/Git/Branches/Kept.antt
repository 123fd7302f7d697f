-- ===== src/Git/Branches/Kept.antt =====
-- What the calls on branches and tags leave alone, whatever they come to.
use setfork_core.Shared.{
  ℕ, ◌≡◌, ◌≤◌, refl, ap, ◌∙◌, Bool, true, false, not, Option, none, some, ◌++◌, arith, Str, codes,
  str_eq, str_eq→eq, is_some, Result, ok, err, Bool-cases, bind-ok, inl, inr,
}
use setfork_core.Names.Branch.{
  valid_branch, valid_tag, author_branch, valid_branch-ne-author_branch,
}
use setfork_core.Names.Decimal.{i32_max}
use setfork_core.Names.Version.{is_version_tag, tag_name, version_of_tag-tag_name}
use setfork_core.Reason.{Status}
use setfork_core.Gate.Ask.{World, ensure_writable}
use setfork_core.Git.Refs.{Oid, zero_oid, RefError, RefDb, main_ref}
use setfork_core.Git.Magic.{head}
use setfork_core.Git.Branches.{
  Disk, Exec, after, created, create_branch_in, create_branch, create_branch_checks, done,
  delete_branch_in, delete_branch, delete_branch_checks, create_tag_in, create_tag,
  create_tag_checks, tag_ref, mirrored, guard, not_internal, base_name, required,
}

pub guard-ok : (b : Bool) (s : Status) → guard b s ≡ ok tt → b ≡ true
guard-ok true s h = refl
guard-ok false s h = absurd (ground arith)

not-true : (b : Bool) → not b ≡ true → b ≡ false
not-true b h = ground arith

-- No reference of a proposal is the reference of a name that the calls accept.
proposal-apart :
    (name actor base : Str)
    → valid_branch name ≡ true
    → str_eq (head name) (head (author_branch actor base)) ≡ false
proposal-apart name actor base v = elim (Bool-cases (str_eq name (author_branch actor base))) [
  | inl q ↦ absurd (
      valid_branch-ne-author_branch name actor base v (str_eq→eq name (author_branch actor base) q))
  | inr q ↦ q
]

-- No tag of a version is the tag of a name that is free.
version-apart :
    (name : Str) (n : ℕ)
    → n ≤ i32_max
    → is_version_tag name ≡ false
    → str_eq (tag_ref name) (tag_ref (tag_name n)) ≡ false
unfolding is_version_tag
version-apart name n l v = elim (Bool-cases (str_eq name (tag_name n))) [
  | inl q ↦
      let e = ap is_some (version_of_tag-tag_name n l) in
      let f = ap is_version_tag (str_eq→eq name (tag_name n) q) in absurd (cc (v, e, f))
  | inr q ↦ q
]

module _ {Body : Type 0} (w : World Body) (app_url : Option Str) (disk : Disk) (d : RefDb) where
  -- The early returns keep what the state had and the rest of the call keeps.
  after-keeps :
      (P : d.Repo → Type 0) (g : Result Status (Unit {0})) (r : d.Repo) (x : Exec w app_url disk d)
      → P r
      → (g ≡ ok tt → P x.1)
      → P (after w app_url disk d g r x).1
  after-keeps P (ok tt) r x a b = b refl
  after-keeps P (err e) r x a b = a

  done-keeps :
      (P : d.Repo → Type 0) (id : Oid) (r : d.Repo) (m : Result RefError d.Repo)
      → P r
      → ((r' : d.Repo) → m ≡ ok r' → P r')
      → P (done w app_url disk d id r m).1
  done-keeps P id r (ok r') a b = b r' refl
  done-keeps P id r (err e) a b = a

  created-keeps :
      (P : d.Repo → Type 0) (id : Oid) (r : d.Repo) (m : Result RefError d.Repo)
      → P r
      → ((r' : d.Repo) → m ≡ ok r' → P r')
      → P (created w app_url disk d id r m).1
  created-keeps P id r (ok r') a b = b r' refl
  created-keeps P id r (err (RefError.exists e)) a b = a
  created-keeps P id r (err (RefError.modified e)) a b = a
  created-keeps P id r (err (RefError.other e)) a b = a

  mirrored-keeps :
      (P : d.Repo → Type 0) (again : Result Status (Unit {0})) (x : Exec w app_url disk d)
      → P x.1
      → P (mirrored w app_url disk d again x).1
  mirrored-keeps P again (ok id, r) a = a
  mirrored-keeps P again (err e, r) a = a

  create_branch_in-keeps :
      (name : Str) (base : Option Oid) (r : d.Repo) (k : Str) (id : Oid)
      → d.find r k ≡ some id
      → d.find (create_branch_in w app_url disk d name base r).1 k ≡ some id
  unfolding create_branch_in
  create_branch_in-keeps name none r k id e = e
  create_branch_in-keeps name (some base) r k id e =
      after-keeps (λ s. d.find s k ≡ some id) (not_internal (disk.find_commit base)) r
        (created w app_url disk d base r (d.create r (head name) base)) e
        (λ g.
          created-keeps (λ s. d.find s k ≡ some id) base r (d.create r (head name) base) e
            (λ r' h.
              let (free, moved) = d.find-create r r' (head name) base h in
              moved k ∙ elim (Bool-cases (str_eq (head name) k)) [
                | inl q ↦ absurd (cc (free, e, str_eq→eq (head name) k q))
                | inr q ↦ rw q e
              ]))

  -- `create_branch` moves and deletes nothing: whatever it comes to, each reference that the
  -- repository had points where it pointed.
  pub create_branch-keeps :
      (repo : Option (Str × Str)) (name from : Str) (r : d.Repo) (k : Str) (id : Oid)
      → d.find r k ≡ some id
      → d.find (create_branch w app_url disk d repo name from r).1 k ≡ some id
  unfolding create_branch
  create_branch-keeps repo name from r k id e =
      let tip = d.find r (head (base_name w app_url disk d from)) in
      after-keeps (λ s. d.find s k ≡ some id) (create_branch_checks w app_url disk d repo name from)
        r (create_branch_in w app_url disk d name tip r) e
        (λ g. create_branch_in-keeps name tip r k id e)

  delete_branch_in-frame :
      (name : Str) (tip : Option Oid) (r : d.Repo) (k : Str)
      → str_eq (head name) k ≡ false
      → d.find (delete_branch_in w app_url disk d name tip r).1 k ≡ d.find r k
  unfolding delete_branch_in
  delete_branch_in-frame name none r k e = refl
  delete_branch_in-frame name (some id) r k e =
      done-keeps (λ s. d.find s k ≡ d.find r k) zero_oid r (d.delete r (head name)) refl
        (λ r' h. d.find-delete r r' (head name) h k ∙ rw e refl)

  delete_branch-allowed :
      (repo : Option (Str × Str)) (name : Str)
      → delete_branch_checks w app_url disk d repo name ≡ ok tt
      → (valid_branch name ≡ true) × (str_eq name (codes "main") ≡ false)
  unfolding delete_branch_checks
  delete_branch-allowed repo name h =
      let (list, a, h1) = bind-ok (required repo) _ tt h in
      let (u, b, h2) = bind-ok (ensure_writable w app_url list.0 list.1) _ tt h1 in
      let (v, valid, h3) = bind-ok (guard (valid_branch name) _) _ tt h2 in
      let (v', free, h4) = bind-ok (guard (not (str_eq name (codes "main"))) _) _ tt h3 in
      (guard-ok _ _ valid, not-true _ (guard-ok _ _ free))

  delete_branch-frame :
      (repo : Option (Str × Str)) (name : Str) (r : d.Repo) (k : Str)
      → (valid_branch name ≡ true
          → str_eq name (codes "main") ≡ false
          → str_eq (head name) k ≡ false)
      → d.find (delete_branch w app_url disk d repo name r).1 k ≡ d.find r k
  unfolding delete_branch
  delete_branch-frame repo name r k apart =
      let tip = d.find r (head name) in
      after-keeps (λ s. d.find s k ≡ d.find r k) (delete_branch_checks w app_url disk d repo name) r
        (delete_branch_in w app_url disk d name tip r) refl
        (λ g.
          let (v, m) = delete_branch-allowed repo name g in
          delete_branch_in-frame name tip r k (apart v m))

  -- `delete_branch`, whatever it comes to, changes neither `main` nor the branch of an author's
  -- proposal.
  pub delete_branch-keeps :
      (repo : Option (Str × Str)) (name actor base : Str) (r : d.Repo)
      → (d.find (delete_branch w app_url disk d repo name r).1 main_ref ≡ d.find r main_ref)
        × (d.find (delete_branch w app_url disk d repo name r).1 (head (author_branch actor base))
            ≡ d.find r (head (author_branch actor base)))
  delete_branch-keeps repo name actor base r = (
    delete_branch-frame repo name r main_ref (λ v m. m),
    delete_branch-frame repo name r (head (author_branch actor base))
        (λ v m. proposal-apart name actor base v),
  )

  create_tag_in-frame :
      (name : Str) (tip : Option Oid) (r : d.Repo) (k : Str)
      → str_eq (tag_ref name) k ≡ false
      → d.find (create_tag_in w app_url disk d name tip r).1 k ≡ d.find r k
  unfolding create_tag_in
  create_tag_in-frame name none r k e = refl
  create_tag_in-frame name (some id) r k e =
      after-keeps (λ s. d.find s k ≡ d.find r k) (not_internal (disk.find_object id)) r _ refl
        (λ g.
          done-keeps (λ s. d.find s k ≡ d.find r k) id r (d.set r (tag_ref name) id) refl
            (λ r' h. d.find-set r r' (tag_ref name) id h k ∙ rw e refl))

  create_tag-allowed :
      (repo : Option (Str × Str)) (name : Str)
      → create_tag_checks w app_url disk d repo name ≡ ok tt
      → is_version_tag name ≡ false
  unfolding create_tag_checks
  create_tag-allowed repo name h =
      let (list, a, h1) = bind-ok (required repo) _ tt h in
      let (u, b, h2) = bind-ok (ensure_writable w app_url list.0 list.1) _ tt h1 in
      let (v, valid, h3) = bind-ok (guard (valid_tag name) _) _ tt h2 in
      let (v', free, h4) = bind-ok (guard (not (is_version_tag name)) _) _ tt h3 in
      not-true _ (guard-ok _ _ free)

  create_tag-frame :
      (repo : Option (Str × Str)) (name version : Str) (again : Result Status (Unit {0}))
      (r : d.Repo) (k : Str)
      → (is_version_tag name ≡ false → str_eq (tag_ref name) k ≡ false)
      → d.find (create_tag w app_url disk d repo name version again r).1 k ≡ d.find r k
  unfolding create_tag
  create_tag-frame repo name version again r k apart =
      let tip = d.find r (tag_ref (codes "v" ++ version)) in
      let x = create_tag_in w app_url disk d name tip r in
      let checks = create_tag_checks w app_url disk d repo name in
      mirrored-keeps (λ s. d.find s k ≡ d.find r k) again (after w app_url disk d checks r x)
        (after-keeps (λ s. d.find s k ≡ d.find r k) checks r x refl
          (λ g. create_tag_in-frame name tip r k (apart (create_tag-allowed repo name g))))

  -- `create_tag`, whatever it comes to, leaves the tag `v<n>` of every version where it was, for
  -- every number that an i32 holds.
  pub create_tag-keeps_versions :
      (repo : Option (Str × Str)) (name version : Str) (again : Result Status (Unit {0}))
      (r : d.Repo) (n : ℕ)
      → n ≤ i32_max
      → d.find (create_tag w app_url disk d repo name version again r).1 (tag_ref (tag_name n))
        ≡ d.find r (tag_ref (tag_name n))
  create_tag-keeps_versions repo name version again r n l =
      create_tag-frame repo name version again r (tag_ref (tag_name n)) (version-apart name n l)
