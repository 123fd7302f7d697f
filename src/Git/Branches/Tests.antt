-- ===== src/Git/Branches/Tests.antt =====
-- The calls on branches and tags on a concrete repository.
use setfork_core.Shared.{
  ◌≡◌, refl, true, Option, none, some, [], ◌∷◌, arith, Str, codes, ok, strip_prefix,
  is_ascii_alphanumeric, is_ascii_digit, contains_str, is_whitespace, is_control, ends_with_char,
}
use setfork_core.Json.{Json, Fields}
use setfork_core.Names.Branch.{valid_branch, valid_tag, author_branch}
use setfork_core.Names.Version.{tag_name, version_of_tag, is_version_tag}
use setfork_core.Gate.Verdict.{parse_verdict}
use setfork_core.Gate.Ask.{
  World, Answer, ensure_writable, ensure_writable_at, ask, answer_verdict, writable_result,
}
use setfork_core.Git.Refs.{main_ref}
use setfork_core.Git.Refs.Listed.{Refs, listed}
use setfork_core.Git.Magic.{head}
use setfork_core.Git.Branches.{
  Disk, tag_ref, ensure, create_branch, create_branch_checks, create_branch_in, delete_branch,
  create_tag, create_tag_checks, create_tag_in,
}
use setfork_core.Git.Branches.Kept.{delete_branch-keeps, create_tag-keeps_versions}

abbrev world : World Json
world = record {
  from_slice = some;
  status_text = λ s. codes "OK";
  metadata = some;
  token = none;
  app = λ q.
      Answer.response 200
        (ok (Json.obj (Fields.field (codes "allow") (Json.bool true) Fields.end)));
}

abbrev disk : Disk
disk = record {
  ensure_repo = λ owner slug. ok true;
  open_bare = ok tt;
  find_commit = λ id. ok tt;
  find_object = λ id. ok tt;
}

abbrev app : Option Str
app = some (codes "http://app:3000")

abbrev list : Option (Str × Str)
list = some (codes "ada", codes "list")

abbrev repo : Refs
repo =
    (codes "refs/heads/main", 7)
    ∷ (codes "refs/heads/u/bob/main", 8)
    ∷ (codes "refs/tags/v2", 7)
    ∷ []

create_branch_made : (create_branch world app disk listed list (codes "topic") [] repo).0 ≡ ok 7
unfolding create_branch create_branch_checks create_branch_in ensure ensure_writable
    ensure_writable_at ask answer_verdict writable_result parse_verdict valid_branch
    is_ascii_alphanumeric is_ascii_digit contains_str strip_prefix
create_branch_made = refl

delete_branch-keeps_example :
    (listed.find (delete_branch world app disk listed list (codes "main") repo).1 main_ref
      ≡ listed.find repo main_ref)
    × (listed.find
          (delete_branch world app disk listed list (codes "main") repo).1
          (head (author_branch (codes "bob") (codes "main")))
        ≡ listed.find repo (head (author_branch (codes "bob") (codes "main"))))
delete_branch-keeps_example =
    delete_branch-keeps world app disk listed list (codes "main") (codes "bob") (codes "main") repo

create_tag_made :
    (create_tag world app disk listed list (codes "stable") (codes "2") (ok tt) repo).0 ≡ ok 7
unfolding create_tag create_tag_checks create_tag_in ensure ensure_writable ensure_writable_at ask
    answer_verdict writable_result parse_verdict valid_tag is_version_tag version_of_tag
    is_whitespace is_control ends_with_char contains_str strip_prefix
create_tag_made = refl

create_tag-keeps_versions_example :
    listed.find
      (create_tag world app disk listed list (codes "v2") (codes "2") (ok tt) repo).1
      (tag_ref (tag_name 2))
    ≡ listed.find repo (tag_ref (tag_name 2))
create_tag-keeps_versions_example =
    create_tag-keeps_versions world app disk listed list (codes "v2") (codes "2") (ok tt) repo 2
      (omega arith)
