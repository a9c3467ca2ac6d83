-- ===== src/RateLimit.antt =====
-- The sliding-window rate limiter (`check_rate_limit` and `check_ws_rate_limit` of
-- app/api/middleware.py). Scores are times in ticks, as the clock gives them.
pub mod Window
pub mod Requests
use Prim.Native.String.{◌++◌}
use game_backend.Base.{ℕ, ◌*◌, ◌+◌, String, Bool, pos, ◌-ℤ◌, leb}
use game_backend.Env.{Env, ticks_per_sec}

abbrev pub rate_key : String → String
rate_key identifier = "rl:" ++ identifier

module _ {S F : Type 0} (env : Env S F) where
  open env use {redis}

  -- The key after the pipeline's first three commands, at a time and for a request's name.
  unfoldable pub count_request : String → ℕ → ℕ → String → S → S
  count_request key window_seconds now request s =
      redis.zadd key request (pos now)
        (redis.zremrangebyscore key (pos now -ℤ pos (window_seconds * ticks_per_sec)) s)

  unfoldable pub check_rate_limit : String → ℕ → ℕ → ℕ → String → S → Bool × S
  check_rate_limit identifier max_requests window_seconds now request s =
      let key = rate_key identifier in
      let s' = count_request key window_seconds now request s in
      (leb (redis.zcard key s') max_requests, redis.expire key (window_seconds + 1) s')

  unfoldable pub check_ws_rate_limit : String → ℕ → ℕ → String → S → Bool × S
  check_ws_rate_limit player_id max_per_sec now request s =
      check_rate_limit ("ws:" ++ player_id) max_per_sec 1 now request s
