-- ===== src/Gate/Ask/FailClosed.antt =====
-- The gate opens only on an explicit permission, and asks for a retry only where a retry can help.
use setfork_core.Shared.{
  ℕ, ◌≡◌, ◌≢◌, ◌↔◌, ◌⊎◌, inl, inr, refl, true, Option, none, some, arith, Str, codes, Result, ok,
  err, Bool-cases, List,
}
use setfork_core.Json.{Json, get}
use setfork_core.Reason.{Code, Status}
use setfork_core.Gate.Verdict.{Verdict, parse_verdict, parse_verdict-allow_iff, DenyDetail}
use setfork_core.Gate.Ask.{
  Answer, World, request, is_success, is_server_error, body_verdict, answer_verdict,
  writable_result, ensure_writable_at, content_result, ensure_content_allowed_at, PushedText,
}

module _ {Body : Type 0} (w : World Body) where
  -- A complete answer of the class 2xx, whose body is a JSON object with `allow` true.
  abbrev pub Permits : Answer Body → Type 0
  Permits a =
      (s : ℕ) × (b : Body) × (v : Json) × (a ≡ Answer.response s (ok b))
      × (is_success s ≡ true)
      × (w.from_slice b ≡ some v)
      × (get v (codes "allow") ≡ some (Json.bool true))

  body-Permits :
      (s : ℕ) (r : Result Str Body)
      → is_success s ≡ true
      → body_verdict w r ≡ Verdict.allow
      → Permits (Answer.response s r)
  unfolding body_verdict
  body-Permits s (ok b) success h =
      let (v, e, f) = (parse_verdict-allow_iff w.from_slice b).0 h in (s, b, v, refl, success, e, f)
  body-Permits s (err e) success h = cc

  answer_verdict-allow : (a : Answer Body) → answer_verdict w a ≡ Verdict.allow → Permits a
  unfolding answer_verdict
  answer_verdict-allow (Answer.response s r) h = elim (Bool-cases (is_success s)) [
    | inl e ↦ body-Permits s r e (ground arith)
    | inr e ↦ absurd (ground arith)
  ]
  answer_verdict-allow (Answer.not_built e) h = cc
  answer_verdict-allow (Answer.no_response e) h = cc
  answer_verdict-allow Answer.timed_out h = cc

  Permits-allow : (a : Answer Body) → Permits a → answer_verdict w a ≡ Verdict.allow
  unfolding answer_verdict body_verdict
  Permits-allow a (s, b, v, e, success, f, g) =
      let allowed = (parse_verdict-allow_iff w.from_slice b).1 (v, f, g) in rw e (ground arith)

  writable_result-ok : (v : Verdict) → writable_result w v ≡ ok tt → v ≡ Verdict.allow
  unfolding writable_result
  writable_result-ok Verdict.allow h = refl
  writable_result-ok _ h = cc

  content_result-ok : (v : Verdict) → content_result v ≡ ok tt → v ≡ Verdict.allow
  unfolding content_result
  content_result-ok Verdict.allow h = refl
  content_result-ok (Verdict.deny reason (some d)) h = ground arith
  content_result-ok (Verdict.deny reason none) h = cc
  content_result-ok _ h = cc

  -- The precondition lets a write through exactly when the application answered the question in
  -- time, completely, with a status 2xx and a JSON object whose field `allow` is true. Whatever
  -- else the exchange comes to, the write is refused.
  pub ensure_writable_at-open_iff :
      (base owner slug : Str)
      → (ensure_writable_at w base owner slug ≡ ok tt)
        ↔ Permits (w.app (request w base owner slug none))
  unfolding ensure_writable_at
  ensure_writable_at-open_iff base owner slug = (
    λ h. answer_verdict-allow _ (writable_result-ok _ h),
    λ p. rw (Permits-allow (w.app (request w base owner slug none)) p),
  )

  -- So it is with the question about the content of a push.
  pub ensure_content_allowed_at-open_iff :
      (base owner slug : Str) (commands : List (Option Str)) (files : List PushedText)
      → (ensure_content_allowed_at w base owner slug commands files ≡ ok tt)
        ↔ Permits (w.app (request w base owner slug (some (commands, files))))
  unfolding ensure_content_allowed_at
  ensure_content_allowed_at-open_iff base owner slug commands files = (
    λ h. answer_verdict-allow _ (content_result-ok _ h),
    λ p. rw (Permits-allow (w.app (request w base owner slug (some (commands, files)))) p),
  )

  -- A failure of the transport: no response, a time-out, a status 5xx, a body that broke off.
  abbrev pub IsTransient : Answer Body → Type 0
  IsTransient (Answer.not_built e) = ⊥
  IsTransient (Answer.no_response e) = Unit
  IsTransient Answer.timed_out = Unit
  IsTransient (Answer.response s (ok b)) = is_server_error s ≡ true
  IsTransient (Answer.response s (err e)) = (is_success s ≡ true) ⊎ (is_server_error s ≡ true)

  -- The code of a refusal.
  abbrev pub code_of : Result Status (Unit {0}) → Option Code
  code_of (ok u) = none
  code_of (err s) = some s.code

  IsTransient-unavailable :
      (a : Answer Body)
      → IsTransient a
      → code_of (writable_result w (answer_verdict w a)) ≡ some Code.unavailable
  unfolding answer_verdict body_verdict writable_result
  IsTransient-unavailable (Answer.not_built e) t = absurd t
  IsTransient-unavailable (Answer.no_response e) t = refl
  IsTransient-unavailable Answer.timed_out t = refl
  IsTransient-unavailable (Answer.response s (ok b)) t = ground arith
  IsTransient-unavailable (Answer.response s (err e)) t = ground arith

  deny-not_unavailable :
      (reason : Str) (d : Option DenyDetail)
      → code_of (writable_result w (Verdict.deny reason d)) ≢ some Code.unavailable
  unfolding writable_result
  deny-not_unavailable reason d h = ground arith

  parsed-not_unavailable :
      (b : Body)
      → code_of (writable_result w (parse_verdict w.from_slice b)) ≢ some Code.unavailable
  unfolding parse_verdict writable_result
  parsed-not_unavailable b h = ground arith

  unavailable-IsTransient :
      (a : Answer Body)
      → code_of (writable_result w (answer_verdict w a)) ≡ some Code.unavailable
      → IsTransient a
  unfolding answer_verdict body_verdict writable_result
  unavailable-IsTransient (Answer.not_built e) h = absurd (ground arith)
  unavailable-IsTransient (Answer.no_response e) h = tt
  unavailable-IsTransient Answer.timed_out h = tt
  unavailable-IsTransient (Answer.response s (ok b)) h = ground (arith, parsed-not_unavailable b)
  unavailable-IsTransient (Answer.response s (err e)) h = ground arith

  -- A refusal asks the client to retry, by the code Unavailable, exactly when the exchange failed
  -- in transport: no response, the time limit, a status 5xx, or a body that could not be read.
  pub ensure_writable_at-unavailable_iff :
      (base owner slug : Str)
      → (code_of (ensure_writable_at w base owner slug) ≡ some Code.unavailable)
        ↔ IsTransient (w.app (request w base owner slug none))
  unfolding ensure_writable_at
  ensure_writable_at-unavailable_iff base owner slug =
      (unavailable-IsTransient _, IsTransient-unavailable _)
