-- ===== src/Ratelimit/Tests.antt =====
-- The limiter on a concrete run.
use setfork_core.Shared.{
  ℕ, ◌≡◌, ◌↔◌, ◌≤◌, refl, true, false, none, List, [], ◌∷◌, arith, codes, last_segment,
  strip_prefix,
}
use setfork_core.Ratelimit.{
  Call, new, allow, counted, limit, method, served, run, admit, expire, exempt, is_heavy,
}
use setfork_core.Ratelimit.Window.{count_in}
use setfork_core.Ratelimit.Sliding.{served-le-limit, allow-refuses_iff}

abbrev call_at : ℕ → Call
call_at t = record { now = t; path = codes "/setfork.GitCore/Create"; auth = none }

-- Three calls of a heavy method under a budget of two.
abbrev calls : List Call
calls = call_at 5 ∷ call_at 7 ∷ call_at 9 ∷ []

served_two : served (new 600 2 none) (codes "Create") calls ≡ 5 ∷ 7 ∷ []
unfolding served allow counted admit expire exempt limit is_heavy last_segment strip_prefix
served_two = refl

served-le-limit_example :
    count_in 9 (served (new 600 2 none) (codes "Create") calls)
    ≤ limit (new 600 2 none) (codes "Create")
served-le-limit_example =
    served-le-limit 600 2 none calls (codes "Create") 9 (omega arith, omega arith)
      (omega arith, (omega arith, (omega arith, tt)))

allow-refuses_iff_example : ((allow (run (new 600 2 none) calls) (call_at 11)).0 ≡ false) ↔ (
    (counted (run (new 600 2 none) calls) (call_at 11) ≡ true)
    × (count_in 11 (served (new 600 2 none) (method (call_at 11)) calls)
        ≡ limit (new 600 2 none) (method (call_at 11))))
allow-refuses_iff_example =
    allow-refuses_iff 600 2 none calls (call_at 11) (omega arith, omega arith)
      (omega arith, (omega arith, (omega arith, tt))) (omega arith)
