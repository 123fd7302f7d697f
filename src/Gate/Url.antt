-- ===== src/Gate/Url.antt =====
-- `parse_app_url` of gate.rs.
use mathlib.Core.List.{reverse}
use setfork_core.Shared.{
  ◌≡◌, ◌↔◌, sym, refl, Bool, true, false, not, Option, none, some, [], ◌∷◌, arith, ◌==◌,
  if◌then◌else◌, Str, codes, is_empty, starts_with, strip_prefix, trim, Result, ok, err,
  strip_prefix→eq, subst,
}

pub data BadAppUrl : Type 0 where
  missing : BadAppUrl
  not_absolute tls_unsupported : Str → BadAppUrl

-- `s.trim_end_matches('/')`
drop_slashes : Str → Str
drop_slashes [] = []
drop_slashes (c ∷ s) = let rest = drop_slashes s in if c == b'/' then rest else c ∷ s

unfoldable pub trim_end_slashes : Str → Str
unfolding drop_slashes
trim_end_slashes s = reverse (drop_slashes (reverse s))

-- `rest.split('/').next()`: what stands in front of the first slash.
unfoldable pub before_slash : Str → Str
before_slash [] = []
before_slash (c ∷ s) = let rest = before_slash s in if c == b'/' then [] else c ∷ rest

-- The part behind `http://`; `is_uri` is `url.parse::<hyper::Uri>().is_ok()`.
check_host : (Str → Bool) → Str → Option Str → Result BadAppUrl Str
check_host is_uri url none = err (not_absolute url)
check_host is_uri url (some rest) =
    if is_empty (before_slash rest)
    then err (not_absolute url)
    else if not (is_uri url)
    then err (not_absolute url)
    else ok url

check_url : (Str → Bool) → Str → Result BadAppUrl Str
unfolding check_host
check_url is_uri url =
    if starts_with url (codes "https://")
    then err (tls_unsupported url)
    else check_host is_uri url (strip_prefix url (codes "http://"))

parse_trimmed : (Str → Bool) → Str → Result BadAppUrl Str
unfolding check_url
parse_trimmed is_uri s = if is_empty s then err missing else check_url is_uri (trim_end_slashes s)

abbrev pub trimmed : Option Str → Str
trimmed none = []
trimmed (some s) = trim s

unfoldable pub parse_app_url : (Str → Bool) → Option Str → Result BadAppUrl Str
unfolding parse_trimmed
parse_app_url is_uri raw = parse_trimmed is_uri (trimmed raw)

-- An address that the core can call: `http://`, a host, and text that the URI parser takes.
abbrev pub IsAppUrl : (Str → Bool) → Str → Type 0
IsAppUrl is_uri url =
    (rest : Str) × (strip_prefix url (codes "http://") ≡ some rest)
    × (is_empty (before_slash rest) ≡ false)
    × (is_uri url ≡ true)

module _ (is_uri : Str → Bool) where
  check_host_sound :
      (url u : Str) (o : Option Str)
      → check_host is_uri url o ≡ ok u
      → (url ≡ u)
        × (rest : Str) × (o ≡ some rest)
        × (is_empty (before_slash rest) ≡ false)
        × (is_uri url ≡ true)
  unfolding check_host
  check_host_sound url u none h = cc
  check_host_sound url u (some rest) h = (ground arith, rest, refl, ground arith, ground arith)

  check_url_sound : (url u : Str) → check_url is_uri url ≡ ok u → (url ≡ u) × IsAppUrl is_uri u
  unfolding check_url
  check_url_sound url u h =
      let found = check_host_sound url u (strip_prefix url (codes "http://")) (ground arith) in
      (found.0, subst (IsAppUrl is_uri) found.0 (found.1, found.2, found.3, found.4))

  check_url_complete : (url : Str) → IsAppUrl is_uri url → check_url is_uri url ≡ ok url
  unfolding check_url strip_prefix
  check_url_complete url (rest, p, q, r) =
      rw (strip_prefix→eq url (codes "http://") p) (ground arith)

  trimmed_not_empty :
      (s url : Str) → IsAppUrl is_uri url → url ≡ trim_end_slashes s → is_empty s ≡ false
  unfolding trim_end_slashes strip_prefix
  trimmed_not_empty [] url a e = ground arith
  trimmed_not_empty (c ∷ s) url a e = refl

  -- An address is accepted exactly when it is what is left of the given text without the white
  -- space at its ends and the slashes behind it, is `http://` with a host behind it, and is a URI.
  pub parse_app_url_iff :
      (raw : Option Str) (url : Str)
      → (parse_app_url is_uri raw ≡ ok url)
        ↔ ((url ≡ trim_end_slashes (trimmed raw)) × IsAppUrl is_uri url)
  unfolding parse_app_url
  parse_app_url_iff raw url = (
    λ h.
        let found = check_url_sound (trim_end_slashes (trimmed raw)) url (ground arith) in
        (sym found.0, found.1),
    λ (e, a).
        let whole = check_url_complete url a in
        ground (arith, trimmed_not_empty (trimmed raw) url a e),
  )
