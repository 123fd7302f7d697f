-- ===== src/Names/Branch.antt =====
-- `valid_branch` and `valid_tag` of services/git_core/names.rs, and `author_branch` of
-- git/magic.rs.
use setfork_core.Shared.{
  ℕ, ◌≡◌, ◌≢◌, Bool, true, not, ◌&&◌, ◌||◌, ◌++◌, arith, ◌==◌, Str, codes, all, any, is_empty,
  starts_with, contains_str, ends_with_char, is_whitespace, is_control, is_ascii_alphanumeric,
  is_ascii_digit,
}

branch_char : ℕ → Bool
branch_char c = is_ascii_alphanumeric c || c == b'-' || c == b'_' || c == b'.'

unfoldable pub valid_branch : Str → Bool
unfolding branch_char
valid_branch name =
    not (is_empty name)
    && not (starts_with name (codes "-"))
    && all branch_char name
    && not (contains_str name (codes ".."))

-- The characters that a refspec reserves; 92 is the backslash.
refspec_char : ℕ → Bool
refspec_char c =
    c == b'~'
    || c == b'^'
    || c == b':'
    || c == b'?'
    || c == b'*'
    || c == b'['
    || c == b']'
    || c == 92

tag_char : ℕ → Bool
unfolding refspec_char
tag_char c = is_whitespace c || is_control c || refspec_char c

unfoldable pub valid_tag : Str → Bool
unfolding tag_char
valid_tag name =
    not (is_empty name)
    && not (starts_with name (codes "-"))
    && not (starts_with name (codes "/"))
    && not (ends_with_char name b'/')
    && not (ends_with_char name b'.')
    && not (contains_str name (codes ".."))
    && not (contains_str name (codes "//"))
    && not (contains_str name (codes "@{"))
    && not (any tag_char name)

-- `format!("u/{actor_id}/{base}")`
unfoldable pub author_branch : Str → Str → Str
author_branch actor base = codes "u/" ++ (actor ++ (codes "/" ++ base))

-- A name that the RPCs accept for a branch is never the branch of an author's proposal, whoever the
-- author and whatever the base.
pub valid_branch-ne-author_branch :
    (name actor base : Str) → valid_branch name ≡ true → name ≢ author_branch actor base
unfolding valid_branch author_branch is_ascii_alphanumeric is_ascii_digit
valid_branch-ne-author_branch name actor base h e = ground arith
