-- ===== src/Ratelimit.antt =====
-- ratelimit.rs: a sliding window of 60 s for each RPC method. An instant is a number of
-- nanoseconds; a method with no entry in the map has an empty window, as `entry(..).or_default()`
-- makes it. The mutex makes each call of `allow` one step.
pub mod Window
pub mod Sliding
mod Tests
use setfork_core.Shared.{
  ℕ, ◌-◌, ◌%◌, ◌^◌, Bool, true, false, not, ◌&&◌, ◌||◌, Option, none, some, List, [], ◌∷◌, ◌++◌,
  ltb, leb, ◌==◌, if◌then◌else◌, length, any, Str, codes, str_eq, starts_with, last_segment,
}

-- `WINDOW`, 60 seconds.
abbrev pub window : ℕ
window = 60_000_000_000

-- `HEAVY`
abbrev pub heavy : List Str
heavy =
    codes "ReceivePack"
    ∷ codes "CreateBundle"
    ∷ codes "MergeBranch"
    ∷ codes "MergeResolved"
    ∷ codes "MirrorPush"
    ∷ codes "CreateBranch"
    ∷ codes "DeleteBranch"
    ∷ codes "Create"
    ∷ codes "AddVersion"
    ∷ []

pub record State : Type 0 where
  pub rpm : ℕ
  pub rpm_heavy : ℕ
  pub expected_auth : Option Str
  pub windows : Str → List ℕ

-- `RateLimitLayer::new`
abbrev bearer : Option Str → Option Str
bearer none = none
bearer (some t) = some (codes "Bearer " ++ t)

abbrev pub new : ℕ → ℕ → Option Str → State
new rpm rpm_heavy token = record {
  rpm = rpm;
  rpm_heavy = rpm_heavy;
  expected_auth = bearer token;
  windows = λ m. [];
}

-- One call: the instant, the path and the header of the request.
pub record Call : Type 0 where
  pub now : ℕ
  pub path : Str
  pub auth : Option Str

unfoldable pub exempt : Str → Bool
exempt path = starts_with path (codes "/grpc.health") || starts_with path (codes "/grpc.reflection")

-- `auth != Some(expected)` for a channel that expects a token.
abbrev foreign : Option Str → Option Str → Bool
foreign none auth = false
foreign (some e) none = true
foreign (some e) (some a) = not (str_eq a e)

abbrev pub method : Call → Str
method c = last_segment c.path

unfoldable pub is_heavy : Str → Bool
is_heavy m = any (λ h. str_eq h m) heavy

unfoldable pub limit : State → Str → ℕ
limit s m = if is_heavy m then s.rpm_heavy else s.rpm

-- The loop that drops the old front of the window.
unfoldable pub expire : ℕ → List ℕ → List ℕ
expire now [] = []
expire now (t ∷ q) = let rest = expire now q in if ltb window (now - t) then rest else t ∷ q

abbrev pub put : (Str → List ℕ) → Str → List ℕ → Str → List ℕ
put w m q k = if str_eq m k then q else w k

-- The part under the mutex, on the window of one method: its length is compared as a `u32`.
unfoldable pub admit : ℕ → ℕ → List ℕ → Bool × List ℕ
admit l now q =
    let fresh = expire now q in
    if leb l (length fresh % 2 ^ 32) then (false, fresh) else (true, fresh ++ now ∷ [])

abbrev store : State → Str → Bool × List ℕ → Bool × State
store s m (passed, q) = (passed, record s { windows = put s.windows m q })

unfoldable pub allow : State → Call → Bool × State
allow s c =
    if exempt c.path
    then (true, s)
    else if foreign s.expected_auth c.auth
    then (true, s)
    else if limit s (method c) == 0
    then (true, s)
    else store s (method c) (admit (limit s (method c)) c.now (s.windows (method c)))

-- A call that the limiter counts: not exempt, with the token of the channel, of a limited method.
unfoldable pub counted : State → Call → Bool
counted s c =
    not (exempt c.path) && not (foreign s.expected_auth c.auth) && not (limit s (method c) == 0)

-- The calls of `m` that were counted and let through, by their instants, oldest first; and the
-- state behind the calls.
unfoldable pub served : State → Str → List Call → List ℕ
served s m [] = []
served s m (c ∷ cs) =
    let rest = served (allow s c).1 m cs in
    if counted s c && str_eq (method c) m && (allow s c).0 then c.now ∷ rest else rest

unfoldable pub run : State → List Call → State
run s [] = s
run s (c ∷ cs) = run (allow s c).1 cs
