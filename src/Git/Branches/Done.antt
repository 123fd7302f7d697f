-- ===== src/Git/Branches/Done.antt =====
-- What a call on a branch or a tag has done when it answers without an error.
use setfork_core.Shared.{
  ◌≡◌, refl, ◌∙◌, subst, Option, none, some, ◌++◌, arith, Str, codes, str_eq_refl, Result, ok, err,
}
use setfork_core.Reason.{Status}
use setfork_core.Gate.Ask.{World}
use setfork_core.Git.Refs.{Oid, RefError, RefDb}
use setfork_core.Git.Magic.{head}
use setfork_core.Git.Branches.{
  Disk, Exec, after, created, create_branch_in, create_branch, create_branch_checks, done,
  create_tag_in, create_tag, create_tag_checks, tag_ref, mirrored, not_internal, base_name,
}

module _ {Body : Type 0} (w : World Body) (app_url : Option Str) (disk : Disk) (d : RefDb) where
  -- What a state of success says, however the call came to it.
  abbrev Ends : (Oid → d.Repo → Type 0) → Exec w app_url disk d → Type 0
  Ends P x = (id : Oid) → x.0 ≡ ok id → P id x.1

  after-Ends :
      (P : Oid → d.Repo → Type 0) (g : Result Status (Unit {0})) (r : d.Repo)
      (x : Exec w app_url disk d)
      → Ends P x
      → Ends P (after w app_url disk d g r x)
  after-Ends P (ok tt) r x a = a
  after-Ends P (err e) r x a = λ id h. absurd (ground arith)

  done-Ends :
      (P : Oid → d.Repo → Type 0) (id : Oid) (r : d.Repo) (m : Result RefError d.Repo)
      → ((r' : d.Repo) → m ≡ ok r' → P id r')
      → Ends P (done w app_url disk d id r m)
  done-Ends P id r (ok r') a = λ i h. subst (λ n. P n r') {x = id} (ground arith) (a r' refl)
  done-Ends P id r (err e) a = λ i h. absurd (ground arith)

  created-Ends :
      (P : Oid → d.Repo → Type 0) (id : Oid) (r : d.Repo) (m : Result RefError d.Repo)
      → ((r' : d.Repo) → m ≡ ok r' → P id r')
      → Ends P (created w app_url disk d id r m)
  created-Ends P id r (ok r') a = λ i h. subst (λ n. P n r') {x = id} (ground arith) (a r' refl)
  created-Ends P id r (err (RefError.exists e)) a = λ i h. absurd (ground arith)
  created-Ends P id r (err (RefError.modified e)) a = λ i h. absurd (ground arith)
  created-Ends P id r (err (RefError.other e)) a = λ i h. absurd (ground arith)

  mirrored-Ends :
      (P : Oid → d.Repo → Type 0) (again : Result Status (Unit {0})) (x : Exec w app_url disk d)
      → Ends P x
      → Ends P (mirrored w app_url disk d again x)
  mirrored-Ends P (ok u) (ok id, r) a = a
  mirrored-Ends P (err e) (ok id, r) a = λ i h. absurd (ground arith)
  mirrored-Ends P again (err e, r) a = λ i h. absurd (ground arith)

  -- A branch was made at the tip of its base.
  abbrev pub IsMade : d.Repo → Str → Str → Oid → d.Repo → Type 0
  IsMade r name from tip r' =
      (d.find r (head (base_name w app_url disk d from)) ≡ some tip)
      × (d.find r (head name) ≡ none)
      × (d.find r' (head name) ≡ some tip)

  create_branch_in-Ends :
      (name from : Str) (r : d.Repo) (base : Option Oid)
      → d.find r (head (base_name w app_url disk d from)) ≡ base
      → Ends (IsMade r name from) (create_branch_in w app_url disk d name base r)
  unfolding create_branch_in
  create_branch_in-Ends name from r none e = λ id h. absurd (ground arith)
  create_branch_in-Ends name from r (some base) e =
      let P = IsMade r name from in
      let m = d.create r (head name) base in
      after-Ends P (not_internal (disk.find_commit base)) r (created w app_url disk d base r m) (
        created-Ends P base r m (λ r' h.
          let (free, moved) = d.find-create r r' (head name) base h in
          (e, free, moved (head name) ∙ rw (str_eq_refl (head name)) refl)))

  -- Where `create_branch` answers with a tip, the base pointed at it, the branch did not exist, and
  -- now it points there.
  pub create_branch-IsMade :
      (repo : Option (Str × Str)) (name from : Str) (r : d.Repo) (tip : Oid)
      → (create_branch w app_url disk d repo name from r).0 ≡ ok tip
      → IsMade r name from tip (create_branch w app_url disk d repo name from r).1
  unfolding create_branch
  create_branch-IsMade repo name from r =
      let base = d.find r (head (base_name w app_url disk d from)) in
      after-Ends (IsMade r name from) (create_branch_checks w app_url disk d repo name from) r
        (create_branch_in w app_url disk d name base r)
        (create_branch_in-Ends name from r base refl)

  -- A tag was put where the tag of a version points.
  abbrev pub IsTagged : d.Repo → Str → Str → Oid → d.Repo → Type 0
  IsTagged r name version target r' =
      (d.find r (tag_ref (codes "v" ++ version)) ≡ some target)
      × (d.find r' (tag_ref name) ≡ some target)

  create_tag_in-Ends :
      (name version : Str) (r : d.Repo) (tip : Option Oid)
      → d.find r (tag_ref (codes "v" ++ version)) ≡ tip
      → Ends (IsTagged r name version) (create_tag_in w app_url disk d name tip r)
  unfolding create_tag_in
  create_tag_in-Ends name version r none e = λ id h. absurd (ground arith)
  create_tag_in-Ends name version r (some target) e =
      let P = IsTagged r name version in
      let m = d.set r (tag_ref name) target in
      after-Ends P (not_internal (disk.find_object target)) r (done w app_url disk d target r m) (
        done-Ends P target r m (λ r' h. (
          e,
          d.find-set r r' (tag_ref name) target h (tag_ref name)
              ∙ rw (str_eq_refl (tag_ref name)) refl,
        )))

  -- Where `create_tag` answers with an object, the tag of the version pointed at it, and now the
  -- new tag points there too.
  pub create_tag-IsTagged :
      (repo : Option (Str × Str)) (name version : Str) (again : Result Status (Unit {0}))
      (r : d.Repo) (target : Oid)
      → (create_tag w app_url disk d repo name version again r).0 ≡ ok target
      → IsTagged r name version target (create_tag w app_url disk d repo name version again r).1
  unfolding create_tag
  create_tag-IsTagged repo name version again r =
      let tip = d.find r (tag_ref (codes "v" ++ version)) in
      let P = IsTagged r name version in
      let x = create_tag_in w app_url disk d name tip r in
      let checks = create_tag_checks w app_url disk d repo name in
      mirrored-Ends P again (after w app_url disk d checks r x)
        (after-Ends P checks r x (create_tag_in-Ends name version r tip refl))
