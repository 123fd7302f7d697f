-- ===== src/Reason/Format.antt =====
-- The values on the wire: their form, and that they tell the reasons apart.
use setfork_core.Shared.{
  ℕ, ◌≤◌, ◌≡◌, refl, Bool, true, false, ◌&&◌, ◌||◌, Option, none, some, List, [], ◌∷◌, arith, ◌==◌,
  leb, Str, codes, str_eq, if◌then◌else◌, all, length, is_empty, starts_with, strip_prefix,
  and_then, ends_with_char,
}
use setfork_core.Reason.{Reason, Code, as_str, all_reasons, status}

-- The reader of a trailer: the first reason with that value.
pub reason_of : List Reason → Str → Option Reason
reason_of [] s = none
reason_of (r ∷ rs) s = if str_eq (as_str r) s then some r else reason_of rs s

reason_of-as_str : (r : Reason) → reason_of all_reasons (as_str r) ≡ some r
unfolding reason_of
reason_of-as_str Reason.bad_name = refl
reason_of-as_str _ = refl

-- Visible ASCII, which a metadata value may hold.
abbrev pub visible : ℕ → Bool
visible c = leb 32 c && leb c 126

as_str-visible : (r : Reason) → all visible (as_str r) ≡ true
as_str-visible Reason.bad_name = refl
as_str-visible _ = refl

abbrev upper_snake : ℕ → Bool
upper_snake c = (leb 65 c && leb c 90) || (leb 48 c && leb c 57) || c == b'_'

-- UPPER_SNAKE_CASE of AIP-193: 1 to 63 characters, none but capitals, digits and underscores, no
-- underscore at either end and no digit in front.
abbrev pub FollowsAip193 : Str → Type 0
FollowsAip193 s =
    (is_empty s ≡ false)
    × (length s ≤ 63)
    × (all upper_snake s ≡ true)
    × (starts_with s (codes "_") ≡ false)
    × (ends_with_char s b'_' ≡ false)

-- Every reason is listed in `ALL` under a value of its own that follows AIP-193: reading the value
-- back among all reasons finds the reason.
pub as_str-FollowsAip193 :
    (r : Reason) → FollowsAip193 (as_str r) × (reason_of all_reasons (as_str r) ≡ some r)
unfolding strip_prefix ends_with_char reason_of
as_str-FollowsAip193 Reason.bad_name = ((refl, omega arith, refl, refl, refl), refl)
as_str-FollowsAip193 _ = ((refl, omega arith, refl, refl, refl), refl)

-- Where the metadata parser keeps visible ASCII as it is, the reason of every status can be read
-- back from its trailer, whatever the code and the message.
pub reason_of-status :
    (parse : Str → Option Str) (c : Code) (r : Reason) (m : Str)
    → ((t : Str) → all visible t ≡ true → parse t ≡ some t)
    → and_then (status parse c r m).reason (reason_of all_reasons) ≡ some r
unfolding status
reason_of-status parse c r m keeps = rw (keeps (as_str r) (as_str-visible r)) (reason_of-as_str r)
