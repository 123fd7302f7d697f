-- ===== src/Git/Magic/Tests.antt =====
-- A magic push on a concrete repository.
use setfork_core.Shared.{◌≡◌, refl, List, [], ◌∷◌, All, Str, codes, ok, strip_prefix}
use setfork_core.Names.Branch.{author_branch}
use setfork_core.Git.Refs.Listed.{Refs, listed}
use setfork_core.Git.Magic.{
  MagicPush, Snapshot, claim, take_resolved, take_one, take_names, take_magic_pushes,
}
use setfork_core.Git.Magic.Moves.{Keeps, take_magic_pushes-Keeps}
use setfork_core.Git.Magic.Claims.{IsAsked, take_magic_pushes-IsAsked}

-- A stale magic ref, which was there before, and a new one.
abbrev pushed_refs : Refs
pushed_refs =
    (codes "refs/heads/main", 1) ∷ (codes "refs/for/old", 2) ∷ (codes "refs/for/main", 3) ∷ []

abbrev seen : Snapshot
seen = (codes "refs/for/old", 2) ∷ []

abbrev ada : Str
ada = codes "ada"

abbrev claimed_one : List MagicPush
claimed_one = record { base = codes "main"; branch = codes "u/ada/main"; tip = 3 } ∷ []

take_claims_one : (take_magic_pushes listed ada seen pushed_refs).0 ≡ ok claimed_one
unfolding take_magic_pushes take_names take_one take_resolved claim author_branch strip_prefix
take_claims_one = refl

take_magic_pushes-Keeps_example :
    Keeps listed ada pushed_refs (take_magic_pushes listed ada seen pushed_refs).1
take_magic_pushes-Keeps_example = take_magic_pushes-Keeps listed ada seen pushed_refs

take_magic_pushes-IsAsked_example : All (IsAsked listed ada seen pushed_refs) claimed_one
take_magic_pushes-IsAsked_example =
    take_magic_pushes-IsAsked listed ada seen pushed_refs claimed_one take_claims_one
