-- ===== src/Gate/Verdict.antt =====
-- `parse_verdict` of gate.rs, and the verdicts.
use setfork_core.Shared.{
  ℕ, ◌%◌, ◌^◌, ◌≡◌, ◌↔◌, refl, Bool, true, false, Option, none, some, [], arith, Str, codes, str_eq,
  is_empty, if◌then◌else◌, unwrap_or, and_then, Option-cases, inl, inr,
}
use setfork_core.Json.{Json, get, as_bool, as_str, as_u64}

pub record DenyDetail : Type 0 where
  pub step : ℕ
  pub rule : Str
  pub fragment : Str
  pub path : Option Str

pub record SecretDetail : Type 0 where
  pub path : Str
  pub step : ℕ
  pub line : ℕ
  pub rule : Str
  pub provider : Str
  pub fragment : Str

pub data Verdict : Type 0 where
  allow : Verdict
  deny : Str → Option DenyDetail → Verdict
  secret : SecretDetail → Verdict
  unreachable malformed local : Str → Verdict

-- `v.get(k).and_then(as_str).unwrap_or("")` and `… as_u64).unwrap_or(0) as u32`
abbrev pub text : Json → Str → Str
text v k = unwrap_or (and_then (get v k) as_str) []

abbrev pub num : Json → Str → ℕ
num v k = unwrap_or (and_then (get v k) as_u64) 0 % 2 ^ 32

-- `.filter(|p| !p.is_empty())`
abbrev non_empty : Option Str → Option Str
non_empty none = none
non_empty (some p) = if is_empty p then none else some p

abbrev pub secret_detail : Json → SecretDetail
secret_detail v = record {
  path = text v (codes "path");
  step = num v (codes "step");
  line = num v (codes "line");
  rule = text v (codes "rule");
  provider = text v (codes "provider");
  fragment = text v (codes "fragment");
}

abbrev pub deny_detail : Json → DenyDetail
deny_detail v = record {
  step = num v (codes "step");
  rule = text v (codes "rule");
  fragment = text v (codes "fragment");
  path = non_empty (and_then (get v (codes "path")) as_str);
}

-- The branch of a refusal, by its reason.
abbrev pub refusal : Json → Str → Verdict
refusal v reason =
    if str_eq reason (codes "secret")
    then secret (secret_detail v)
    else deny reason (if str_eq reason (codes "destructive") then some (deny_detail v) else none)

abbrev pub reason_or_denied : Json → Str
reason_or_denied v = unwrap_or (and_then (get v (codes "reason")) as_str) (codes "denied")

verdict_of : Json → Option Bool → Verdict
verdict_of v none = malformed (codes "verdict has no 'allow' field")
verdict_of v (some true) = allow
verdict_of v (some false) = refusal v (reason_or_denied v)

-- `from_slice` is `serde_json::from_slice` on the body's bytes.
unfoldable pub parse_verdict : {Body : Type 0} → (Body → Option Json) → Body → Verdict
unfolding verdict_of
parse_verdict from_slice body = elim (from_slice body) [
  | none ↦ malformed (codes "verdict did not parse as JSON")
  | some v ↦ verdict_of v (and_then (get v (codes "allow")) as_bool)
]

verdict_of-allow : (v : Json) (o : Option Bool) → verdict_of v o ≡ allow → o ≡ some true
unfolding verdict_of
verdict_of-allow v none h = cc
verdict_of-allow v (some true) h = refl
verdict_of-allow v (some false) h = ground arith

as_bool-true : (o : Option Json) → and_then o as_bool ≡ some true → o ≡ some (Json.bool true)
as_bool-true none h = cc
as_bool-true (some v) h = ground arith

-- An answer opens a write exactly when it is a JSON object whose field `allow` is the Boolean true.
pub parse_verdict-allow_iff :
    {Body : Type 0} (from_slice : Body → Option Json) (body : Body)
    → (parse_verdict from_slice body ≡ allow)
      ↔ ((v : Json) × (from_slice body ≡ some v) × (get v (codes "allow") ≡ some (Json.bool true)))
unfolding parse_verdict
parse_verdict-allow_iff from_slice body = (
  λ h. elim (Option-cases (from_slice body)) [
    | inl e ↦ absurd (ground arith)
    | inr (v, e) ↦
        (v, e, as_bool-true (get v (codes "allow")) (verdict_of-allow v _ (ground arith)))
  ],
  λ (v, e, f). ground arith,
)
