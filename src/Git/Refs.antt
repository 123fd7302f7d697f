-- ===== src/Git/Refs.antt =====
-- What the program uses of libgit2's references, with the documented effect of each call. An object
-- id is the number that its 20 bytes spell; `Oid::ZERO_SHA1`, 0, stands for no reference. A call
-- that fails changes nothing.
pub mod Listed
use setfork_core.Shared.{
  ℕ, ◌≡◌, true, Option, none, some, List, Str, codes, str_eq, starts_with, if◌then◌else◌, In,
  Result, ok, unwrap_or,
}

abbrev pub Oid : Type 0
Oid = ℕ

abbrev pub zero_oid : Oid
zero_oid = 0

-- The codes `Modified`, `Exists` and the others, each with the text of the error.
pub data RefError : Type 0 where
  modified exists other : Str → RefError

abbrev pub error_text : RefError → Str
error_text (modified e) = e
error_text (exists e) = e
error_text (other e) = e

pub record RefDb : Type 1 where
  pub Repo : Type 0
  -- `refname_to_id(name).ok()`
  pub find : Repo → Str → Option Oid
  -- `reference_matching(name, id, true, expected, …)`
  pub matching : Repo → Str → Oid → Oid → Result RefError Repo
  -- `reference(name, id, true, …)`, also for `tag_lightweight(…, true)`
  pub set : Repo → Str → Oid → Result RefError Repo
  -- `branch(name, commit, false)`: the reference must not exist.
  pub create : Repo → Str → Oid → Result RefError Repo
  -- `find_reference(name)?.delete()`
  pub delete : Repo → Str → Result RefError Repo
  -- the names of `references_glob("<prefix>*")`
  pub glob : Repo → Str → Result RefError (List Str)
  pub find-matching :
      (r r' : Repo) (name : Str) (id expected : Oid)
      → matching r name id expected ≡ ok r'
      → (unwrap_or (find r name) zero_oid ≡ expected)
        × ((k : Str) → find r' k ≡ (if str_eq name k then some id else find r k))
  pub find-set :
      (r r' : Repo) (name : Str) (id : Oid)
      → set r name id ≡ ok r'
      → (k : Str) → find r' k ≡ (if str_eq name k then some id else find r k)
  pub find-create :
      (r r' : Repo) (name : Str) (id : Oid)
      → create r name id ≡ ok r'
      → (find r name ≡ none)
        × ((k : Str) → find r' k ≡ (if str_eq name k then some id else find r k))
  pub find-delete :
      (r r' : Repo) (name : Str)
      → delete r name ≡ ok r'
      → (k : Str) → find r' k ≡ (if str_eq name k then none else find r k)
  pub glob-names :
      (r : Repo) (prefix : Str) (names : List Str)
      → glob r prefix ≡ ok names
      → (k : Str)
      → (In k names → starts_with k prefix ≡ true)
        × (starts_with k prefix ≡ true → (id : Oid) → find r k ≡ some id → In k names)

-- `MAIN_REF`
abbrev pub main_ref : Str
main_ref = codes "refs/heads/main"
