-- ===== src/Git/Authored/Accepted.antt =====
-- Which sets of files a write may bring.
use setfork_core.Shared.{
  ℕ, ◌+◌, ◌≤◌, ◌≡◌, ◌↔◌, inl, inr, refl, true, false, none, List, [], ◌∷◌, arith, All, In, length,
  any→In, In→any, Str, codes, str_eq, str_eq_refl, str_eq→eq, starts_with, byte_len, ok, Bool-cases,
  Result-cases, map, subst, sym,
}
use setfork_core.Git.Paths.{authored_path}
use setfork_core.Git.Authored.{
  AuthoredTally, AuthoredInput, empty_tally, authored_max_files, authored_max_bytes, contains_nul,
  add, finish, input_name_ok, seen_before, check_file, violation_from, authored_input_violation,
}

-- A file by itself: at an author's path, under an honest name, text only, and executable only among
-- the scripts.
abbrev pub IsAcceptable : AuthoredInput → Type 0
IsAcceptable f =
    (authored_path f.path ≡ true)
    × (input_name_ok f.path ≡ true)
    × (contains_nul f.content ≡ false)
    × (f.executable ≡ true → starts_with f.path (codes "scripts/") ≡ true)

-- The bytes of the contents and of the paths.
pub total_bytes : List AuthoredInput → ℕ
total_bytes [] = 0
total_bytes (f ∷ fs) = length f.content + byte_len f.path + total_bytes fs

abbrev pub NoRepeats : List Str → Type 0
NoRepeats [] = Unit
NoRepeats (p ∷ ps) = (¬ In p ps) × NoRepeats ps

pub record IsAccepted (files : List AuthoredInput) : Type 0 where
  pub each : All IsAcceptable files
  pub distinct : NoRepeats (map (λ f. f.path) files)
  pub few : length files ≤ authored_max_files
  pub small : total_bytes files ≤ authored_max_bytes

-- No path of the files stands among those that the loop has seen.
abbrev Unseen : List Str → List AuthoredInput → Type 0
Unseen seen [] = Unit
Unseen seen (f ∷ fs) = (seen_before seen f.path ≡ false) × Unseen (f.path ∷ seen) fs

abbrev added : AuthoredTally → AuthoredInput → AuthoredTally
added t f = record { files = t.files + 1; bytes = t.bytes + (length f.content + byte_len f.path) }

check_file_sound :
    (seen : List Str) (t t' : AuthoredTally) (f : AuthoredInput)
    → check_file seen t f ≡ ok t'
    → IsAcceptable f × (seen_before seen f.path ≡ false) × (t' ≡ added t f)
unfolding check_file add
check_file_sound seen t t' f h = ground arith

check_file_complete :
    (seen : List Str) (t : AuthoredTally) (f : AuthoredInput)
    → IsAcceptable f
    → seen_before seen f.path ≡ false
    → t.files + 1 ≤ authored_max_files
    → check_file seen t f ≡ ok (added t f)
unfolding check_file add
check_file_complete seen t f a u k = ground arith

-- The tally that the loop ends with is within the limits.
abbrev Fits : AuthoredTally → List AuthoredInput → Type 0
Fits t fs =
    (t.files + length fs ≤ authored_max_files) × (t.bytes + total_bytes fs ≤ authored_max_bytes)

violation_from_sound :
    (seen : List Str) (t : AuthoredTally) (fs : List AuthoredInput)
    → violation_from seen t fs ≡ none
    → All IsAcceptable fs × Unseen seen fs × Fits t fs
unfolding violation_from finish total_bytes
violation_from_sound seen t [] h = (tt, tt, (ground arith, ground arith))
violation_from_sound seen t (f ∷ fs) h = elim (Result-cases (check_file seen t f)) [
  | inl (e, p) ↦ absurd (ground arith)
  | inr (t', p) ↦
      let (a, u, k) = check_file_sound seen t t' f p in
      let (rest_a, us, fits) = violation_from_sound (f.path ∷ seen) t' fs (ground arith) in
      ((a, rest_a), (u, us), (ground arith, ground arith))
]

violation_from_complete :
    (seen : List Str) (t : AuthoredTally) (fs : List AuthoredInput)
    → All IsAcceptable fs
    → Unseen seen fs
    → Fits t fs
    → violation_from seen t fs ≡ none
unfolding violation_from finish total_bytes
violation_from_complete seen t [] a u k = ground arith
violation_from_complete seen t (f ∷ fs) (a, rest_a) (u, us) k =
    rw (check_file_complete seen t f a u (omega arith), violation_from)
      (violation_from_complete (f.path ∷ seen) (added t f) fs rest_a us (omega arith, omega arith))

seen_before-In : (seen : List Str) (p : Str) → seen_before seen p ≡ false → ¬ In p seen
seen_before-In seen p h i = cc (h, In→any (λ q. str_eq p q) p seen i (str_eq_refl p))

In-seen_before : (seen : List Str) (p : Str) → ¬ In p seen → seen_before seen p ≡ false
In-seen_before seen p h = elim (Bool-cases (seen_before seen p)) [
  | inl e ↦
      let (q, i, k) = any→In (λ q. str_eq p q) seen e in
      absurd (h (subst (λ r. In r seen) (sym (str_eq→eq p q k)) i))
  | inr e ↦ e
]

abbrev paths : List AuthoredInput → List Str
paths = map (λ f. f.path)

-- The paths of the files are apart from those seen and from one another.
Unseen→ :
    (seen : List Str) (fs : List AuthoredInput)
    → Unseen seen fs
    → ((p : Str) → In p (paths fs) → ¬ In p seen) × NoRepeats (paths fs)
Unseen→ seen [] u = (λ p i. absurd i, tt)
Unseen→ seen (f ∷ fs) (u, us) =
    let (apart, distinct) = Unseen→ (f.path ∷ seen) fs us in
    (
      λ p i. elim i [
        | inl e ↦ λ j. seen_before-In seen f.path u (subst (λ q. In q seen) e j)
        | inr k ↦ λ j. apart p k (inr j)
      ],
      (λ i. apart f.path i (inl refl), distinct),
    )

→Unseen :
    (seen : List Str) (fs : List AuthoredInput)
    → ((p : Str) → In p (paths fs) → ¬ In p seen)
    → NoRepeats (paths fs)
    → Unseen seen fs
→Unseen seen [] apart d = tt
→Unseen seen (f ∷ fs) apart (n, d) = (
  In-seen_before seen f.path (apart f.path (inl refl)),
  →Unseen (f.path ∷ seen) fs
      (λ p i j. elim j [ inl e ↦ n (subst (λ q. In q (paths fs)) e i) | inr k ↦ apart p (inr i) k ])
      d,
)

-- A set of files that a write brings is accepted exactly when every file is at an author's path
-- under an honest name, holds text only and is executable only in `scripts`, no path stands twice,
-- and there are at most 50 files of at most 1 MiB together, the paths counted in.
pub authored_input_violation_iff :
    (files : List AuthoredInput) → (authored_input_violation files ≡ none) ↔ IsAccepted files
unfolding authored_input_violation
authored_input_violation_iff files = (
  λ h.
      let (a, u, k) = violation_from_sound [] empty_tally files h in
      record {
        each = a;
        distinct = (Unseen→ [] files u).1;
        few = omega (arith, k.0);
        small = omega (arith, k.1);
      },
  λ k.
      violation_from_complete [] empty_tally files k.each (→Unseen [] files (λ p i j. j) k.distinct)
        (omega (arith, k.few), omega (arith, k.small)),
)
