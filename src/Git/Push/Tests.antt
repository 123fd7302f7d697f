-- ===== src/Git/Push/Tests.antt =====
-- A push on a concrete repository.
use setfork_core.Shared.{
  ◌≡◌, refl, true, Option, none, some, [], ◌∷◌, Str, codes, ok, err, strip_prefix, if◌then◌else◌,
  ◌==◌,
}
use setfork_core.Json.{Json, Fields}
use setfork_core.Names.Branch.{author_branch}
use setfork_core.Gate.Verdict.{parse_verdict}
use setfork_core.Gate.Ask.{
  World, Answer, ensure_writable, ensure_writable_at, ask, answer_verdict, writable_result,
}
use setfork_core.Git.Refs.{main_ref}
use setfork_core.Git.Refs.Listed.{Refs, listed}
use setfork_core.Git.Magic.{
  snapshot, tips_of, claim, take_resolved, take_one, take_names, take_magic_pushes,
}
use setfork_core.Git.Branches.{Disk, ensure}
use setfork_core.Git.Push.{
  Host, PushRequest, PushResponse, receive_pack, push_checks, choose_actor, ensure_repo_under_limit,
  project_main_or_log,
}
use setfork_core.Git.Push.Versions.{HasMoved, receive_pack-HasMoved, receive_pack-clears}

abbrev world : World Json
world = record {
  from_slice = some;
  status_text = λ s. codes "OK";
  metadata = some;
  token = none;
  app = λ q.
      Answer.response 200
        (ok (Json.obj (Fields.field (codes "allow") (Json.bool true) Fields.end)));
}

abbrev disk : Disk
disk = record {
  ensure_repo = λ owner slug. ok true;
  open_bare = ok tt;
  find_commit = λ id. ok tt;
  find_object = λ id. ok tt;
}

abbrev app : Option Str
app = some (codes "http://app:3000")

abbrev repo : Refs
repo = (main_ref, 1) ∷ []

-- Git takes a new tip of `main` and a magic ref; the first projection fails, the second makes
-- version 4.
abbrev host : Host world app disk listed
host = record {
  repo_guard = ok tt;
  install_hook = ok tt;
  repo_size = 10;
  repo_limit = 20;
  receive = λ body protocol lang env r.
      (ok (codes "unpack ok"), (main_ref, 2) ∷ (codes "refs/for/main", 3) ∷ []);
  project = λ r n. if n == 0 then err (codes "busy") else ok (some 4);
}

abbrev push : PushRequest
push = record {
  repo = some (codes "ada", codes "list");
  body = codes "PACK";
  git_protocol = [];
  lang = [];
  actor_handle = codes "nick";
  actor_id = codes "ada";
  actor_role = codes "owner";
}

abbrev answer : PushResponse
answer = record {
  pack = codes "unpack ok";
  new_version = 4;
  magic = record { base = codes "main"; branch = codes "u/ada/main"; tip = 3 } ∷ [];
}

push_answered : (receive_pack world app disk listed host push repo).0 ≡ ok answer
unfolding receive_pack push_checks choose_actor ensure_repo_under_limit project_main_or_log ensure
    ensure_writable ensure_writable_at ask answer_verdict writable_result parse_verdict snapshot
    tips_of take_magic_pushes take_names take_one take_resolved claim author_branch strip_prefix
push_answered = refl

receive_pack-HasMoved_example :
    HasMoved world app disk listed host repo answer
      (receive_pack world app disk listed host push repo).1
receive_pack-HasMoved_example =
    receive_pack-HasMoved world app disk listed host push repo answer push_answered

receive_pack-clears_example :
    listed.find (receive_pack world app disk listed host push repo).1 (codes "refs/for/main") ≡ none
unfolding choose_actor strip_prefix
receive_pack-clears_example =
    receive_pack-clears world app disk listed host push repo (codes "refs/for/main") refl refl
      answer push_answered
