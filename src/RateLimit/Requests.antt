-- ===== src/RateLimit/Requests.antt =====
-- The middleware for HTTP requests (`RateLimitMiddleware.dispatch` of app/api/middleware.py).
use Prim.Native.Char.{code}
use Prim.Native.String.{[] as []ₛ, ◌∷◌ as ◌∷ₛ◌, ◌++◌}
use mathlib.Core.Option
use game_backend.Base.{
  ℕ, ◌+◌, ◌*◌, ◌<◌, ◌≡◌, ◌↔◌, String, Bool, true, false, ◌&&◌, ◌||◌, Option, none, some, arith, pos,
  ◌-ℤ◌, leb, ◌==◌, str_eq, lookup, if◌then◌else◌,
}
use game_backend.Env.{Env, ticks_per_sec}
use game_backend.Env.Laws.{RedisLaws, above}
use game_backend.RateLimit.{rate_key, check_rate_limit}
use game_backend.RateLimit.Window.{recent, check_rate_limit_iff}

-- `lower()`, on the code of a character of a header: Latin-1 outside ASCII has no letter that
-- turns into an ASCII one.
abbrev pub lower_code : ℕ → ℕ
lower_code n = if leb 65 n && leb n 90 then n + 32 else n

-- `s.lower() == t`
unfoldable pub is_lower_of : String → String → Bool
is_lower_of []ₛ []ₛ = true
is_lower_of []ₛ (d ∷ₛ t) = false
is_lower_of (c ∷ₛ s) []ₛ = false
is_lower_of (c ∷ₛ s) (d ∷ₛ t) = (lower_code (code c) == code d) && is_lower_of s t

-- What the middleware reads of a request.
pub record Request : Type 0 where
  pub upgrade : Option String
  pub path : String
  pub client_host : Option String

-- The next handler's answer, or the status 429.
pub data Verdict : Type 0 where
  passed limited : Verdict

-- The requests that are not counted.
unfoldable pub is_exempt : Request → Bool
is_exempt r =
    is_lower_of (Option.get_or r.upgrade "") "websocket"
    || str_eq r.path "/health"
    || str_eq r.path "/docs"
    || str_eq r.path "/openapi.json"

abbrev pub client_of : Request → String
client_of r = "rest:" ++ Option.get_or r.client_host "unknown"

module _ {S F : Type 0} (env : Env S F) where
  -- At a time, and for the name that the limiter gives a request. Without a Redis pool yet,
  -- `get_redis` raises a `RuntimeError`, and the request is passed on.
  unfoldable pub dispatch : Request → ℕ → String → Option S → Verdict × Option S
  dispatch r now name none = (passed, none)
  dispatch r now name (some s) = if is_exempt r then (passed, some s) else (
    if (check_rate_limit env (client_of r) env.settings.rate_limit_rest_requests_per_min 60 now name
          s).0
        then passed
        else limited,
    some
        (check_rate_limit env (client_of r) env.settings.rate_limit_rest_requests_per_min 60 now
          name s).1,
  )

module _ {S F : Type 0} (env : Env S F) (laws : RedisLaws env.redis) where
  -- With Redis connected, the middleware answers a request whose name is not yet in the client's
  -- window with the status 429 exactly if the request is not exempt and at least as many requests
  -- as the limit stand in that window of a minute before it; for a Redis that keeps its laws.
  pub dispatch_iff :
      (r : Request) (now : ℕ) (name : String) (s : S)
      → lookup name (
          above (pos now -ℤ pos (60 * ticks_per_sec)) (env.redis.zrange (rate_key (client_of r)) s))
        ≡ none
      → ((dispatch env r now name (some s)).0 ≡ limited) ↔ (
          (is_exempt r ≡ false)
          × ¬ (
              recent env laws (client_of r) 60 now s
              < env.settings.rate_limit_rest_requests_per_min))
  unfolding dispatch
  dispatch_iff r now name s fresh = ground (
    arith,
    check_rate_limit_iff env laws (client_of r) env.settings.rate_limit_rest_requests_per_min 60 now
        name s fresh,
  )
