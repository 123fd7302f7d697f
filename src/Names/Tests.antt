-- ===== src/Names/Tests.antt =====
-- The names of branches and tags on concrete texts.
use setfork_core.Shared.{
  ◌≡◌, refl, false, true, none, some, List, [], ◌∷◌, arith, Str, codes, strip_prefix,
  is_ascii_alphanumeric, is_ascii_digit, contains_str, is_whitespace, is_control, ends_with_char,
}
use setfork_core.Names.Branch.{valid_branch, valid_tag}
use setfork_core.Names.Decimal.{parse_from}
use setfork_core.Shared.{◌↔◌}
use setfork_core.Names.Bounds.{IsVersionName, version_of_tag_iff}
use setfork_core.Names.Version.{
  version_of_tag, tag_name, max_tag_in, IsUpper, IsGreatest, version_of_tag-tag_name,
  max_tag_in-IsGreatest,
}

valid_branch_dots : valid_branch (codes "release.1") ≡ true
unfolding valid_branch is_ascii_alphanumeric is_ascii_digit strip_prefix contains_str
valid_branch_dots = refl

valid_branch_double_dot : valid_branch (codes "a..b") ≡ false
unfolding valid_branch is_ascii_alphanumeric is_ascii_digit strip_prefix contains_str
valid_branch_double_dot = refl

valid_tag_space : valid_tag (codes "release 1") ≡ false
unfolding valid_tag is_whitespace is_control contains_str strip_prefix ends_with_char
valid_tag_space = refl

version_of_tag_zeros : version_of_tag (codes "v007") ≡ some 7
unfolding version_of_tag strip_prefix is_ascii_digit parse_from
version_of_tag_zeros = refl

version_of_tag_word : version_of_tag (codes "v1.0") ≡ none
unfolding version_of_tag strip_prefix is_ascii_digit parse_from
version_of_tag_word = refl

version_of_tag_too_large : version_of_tag (codes "v2147483648") ≡ none
unfolding version_of_tag strip_prefix is_ascii_digit parse_from
version_of_tag_too_large = refl

version_of_tag-tag_name_example : version_of_tag (tag_name 12) ≡ some 12
version_of_tag-tag_name_example = version_of_tag-tag_name 12 (omega arith)

abbrev tags : List Str
tags = codes "v3" ∷ codes "stable" ∷ codes "v12" ∷ codes "v1.0" ∷ []

max_tag_in-IsGreatest_example : IsUpper (max_tag_in tags) tags × IsGreatest 0 tags (max_tag_in tags)
max_tag_in-IsGreatest_example = max_tag_in-IsGreatest tags

version_of_tag_iff_example :
    (version_of_tag (codes "v007") ≡ some 7) ↔ IsVersionName (codes "v007") 7
version_of_tag_iff_example = version_of_tag_iff (codes "v007") 7
