-- ===== src/Canon/Project/Note.antt =====
-- The note of a version through the message of its commit.
use mathlib.Core.List.{reverse, reverse_aux, append_assoc}
use setfork_core.Shared.{
  ℕ, zero, suc, ◌≤◌, ◌≡◌, refl, ap, ◌∙◌, ap₂, sym, subst, true, false, ◌&&◌, [], ◌∷◌, ◌++◌, Str,
  codes, is_empty, all, if◌then◌else◌, ◌==◌, is_ascii_digit, is_whitespace, trim, trim_start,
  length, arith, pos, and_parts,
}
use setfork_core.Names.Decimal.{digits, digits-IsDigits, digits-ne-nil}
use setfork_core.Canon.Steps.{blank}
use setfork_core.Canon.Written.{VersionData, message_line, boilerplate, decimal}
use setfork_core.Canon.Project.{
  skip_digits, skip_spaces, after_colon, strip_v_prefix, starts_with_digit, take, note_of,
}

take-length : (n : ℕ) (s : Str) → length s ≤ n → take n s ≡ s
take-length zero [] h = refl
take-length zero (c ∷ s) h = absurd (omega arith)
take-length (suc n) [] h = refl
take-length (suc n) (c ∷ s) h = ap (λ t. c ∷ t) (take-length n s (omega arith))

skip_digits-append :
    (ds : Str) (t : Str) → all is_ascii_digit ds ≡ true → skip_digits (ds ++ b':' ∷ t) ≡ b':' ∷ t
unfolding skip_digits is_ascii_digit
skip_digits-append [] t h = refl
skip_digits-append (d ∷ ds) t h = ground (arith, skip_digits-append ds t)

starts_with_digit-append :
    (ds t : Str)
    → all is_ascii_digit ds ≡ true
    → is_empty ds ≡ false
    → starts_with_digit (ds ++ t) ≡ true
unfolding is_ascii_digit
starts_with_digit-append [] t h k = absurd (ground arith)
starts_with_digit-append (d ∷ ds) t h k = (and_parts _ _ h).0

kept_start :
    (x : ℕ) (r : Str) → is_empty (trim_start r) ≡ false → is_empty (trim_start (x ∷ r)) ≡ false
unfolding trim_start
kept_start x r h = ground arith

kept_starts :
    (xs r : Str)
    → is_empty (trim_start r) ≡ false
    → is_empty (trim_start (reverse_aux xs r)) ≡ false
kept_starts [] r h = h
kept_starts (x ∷ xs) r h = kept_starts xs (x ∷ r) (kept_start x r h)

reverse_aux_nonempty : (xs r : Str) → is_empty r ≡ false → is_empty (reverse_aux xs r) ≡ false
reverse_aux_nonempty [] r h = h
reverse_aux_nonempty (x ∷ xs) r h = reverse_aux_nonempty xs (x ∷ r) refl

reverse-nonempty : (xs : Str) → is_empty xs ≡ false → is_empty (reverse xs) ≡ false
reverse-nonempty [] h = absurd (ground arith)
reverse-nonempty (x ∷ xs) h = reverse_aux_nonempty xs (x ∷ []) refl

solid_start : (c : ℕ) (s : Str) → is_whitespace c ≡ false → trim_start (c ∷ s) ≡ c ∷ s
unfolding trim_start
solid_start c s h = ground arith

not_blank : (c : ℕ) (s : Str) → is_whitespace c ≡ false → blank (c ∷ s) ≡ false
unfolding trim
not_blank c s h = rw (solid_start c s h) (
    reverse-nonempty (trim_start (reverse (c ∷ s)))
      (kept_starts s (c ∷ []) (rw (solid_start c [] h) refl)))

strip_v_prefix-shape :
    (s t : Str)
    → starts_with_digit s ≡ true
    → skip_digits s ≡ b':' ∷ t
    → strip_v_prefix (b'v' ∷ s) ≡ skip_spaces t
unfolding strip_v_prefix skip_spaces after_colon
strip_v_prefix-shape s t h e =
    ap₂ (λ b r. if b'v' == b'v' && b then after_colon (b'v' ∷ s) r else b'v' ∷ s) h e

strip_v_prefix-worded :
    (n : ℕ) (note : Str)
    → strip_v_prefix (b'v' ∷ (digits n ++ (codes ": " ++ note))) ≡ skip_spaces note
unfolding skip_spaces
strip_v_prefix-worded n note =
    strip_v_prefix-shape (digits n ++ (codes ": " ++ note)) (32 ∷ note)
      (starts_with_digit-append (digits n) (codes ": " ++ note) (digits-IsDigits n)
        (digits-ne-nil n))
      (skip_digits-append (digits n) (32 ∷ note) (digits-IsDigits n))

skip_spaces-solid : (c : ℕ) (s : Str) → is_whitespace c ≡ false → skip_spaces (c ∷ s) ≡ c ∷ s
unfolding skip_spaces is_whitespace
skip_spaces-solid c s h = ground arith

note_of-stripped :
    (subject : Str) (c : ℕ) (s : Str)
    → strip_v_prefix subject ≡ c ∷ s
    → is_whitespace c ≡ false
    → length (c ∷ s) ≤ 200
    → note_of subject ≡ c ∷ s
unfolding note_of
note_of-stripped subject c s h hw hl = rw (h, take-length 200 (c ∷ s) hl, not_blank c s hw) refl

message_line-worded :
    (v : VersionData) (n c : ℕ) (s : Str)
    → v.version ≡ pos n
    → v.note ≡ c ∷ s
    → boilerplate v.note ≡ false
    → message_line v ≡ b'v' ∷ (digits n ++ (codes ": " ++ (c ∷ s)))
unfolding message_line decimal
message_line-worded v n c s hv hn hb =
    rw (hb, hn, hv) (ap (λ t. b'v' ∷ t) (append_assoc (digits n) (codes ": ") (c ∷ s)))

-- A note of a web edit that is no standard one, of at most 200 characters that begin with no white
-- space, comes back from the message of the commit as it was.
pub note_of-message_line :
    (v : VersionData) (n c : ℕ) (s : Str)
    → v.version ≡ pos n
    → v.note ≡ c ∷ s
    → is_whitespace c ≡ false
    → boilerplate v.note ≡ false
    → length v.note ≤ 200
    → note_of (message_line v) ≡ v.note
note_of-message_line v n c s hv hn hw hb hl =
    note_of-stripped (message_line v) c s
      (ap strip_v_prefix (message_line-worded v n c s hv hn hb)
        ∙ strip_v_prefix-worded n (c ∷ s)
        ∙ skip_spaces-solid c s hw)
      hw (subst (λ x. length x ≤ 200) hn hl)
    ∙ sym hn
