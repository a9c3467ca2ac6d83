-- ===== src/RateLimit/Window.antt =====
-- What the rate limiter lets through (`check_rate_limit` of app/api/middleware.py).
use game_backend.Base.{
  ℕ, ◌+◌, ◌*◌, ◌<◌, ◌≡◌, ◌↔◌, String, true, none, arith, pos, ◌-ℤ◌, length, lookup,
}
use game_backend.Env.{Env, ticks_per_sec}
use game_backend.Env.Laws.{RedisLaws, above}
use game_backend.RateLimit.{rate_key, count_request, check_rate_limit}

module _ {S F : Type 0} (env : Env S F) (laws : RedisLaws env.redis) where
  open env use {redis}

  -- The requests of the window that a request at `now` meets, itself not among them.
  abbrev pub recent : String → ℕ → ℕ → S → ℕ
  recent identifier window_seconds now s = length (
      above (pos now -ℤ pos (window_seconds * ticks_per_sec))
        (redis.zrange (rate_key identifier) s))

  counted :
      (identifier : String) (window_seconds now : ℕ) (request : String) (s : S)
      → lookup request (
          above
            (pos now -ℤ pos (window_seconds * ticks_per_sec))
            (redis.zrange (rate_key identifier) s))
        ≡ none
      → redis.zcard
          (rate_key identifier)
          (count_request env (rate_key identifier) window_seconds now request s)
        ≡ recent identifier window_seconds now s + 1
  unfolding count_request
  counted identifier window_seconds now request s fresh =
      let key = rate_key identifier in
      let hi = pos now -ℤ pos (window_seconds * ticks_per_sec) in
      ground (
        arith,
        fresh,
        laws.zcard-zadd key request (pos now) (redis.zremrangebyscore key hi s),
        laws.zcard_lem key (redis.zremrangebyscore key hi s),
        laws.zrange-zremrangebyscore key hi s,
      )

  -- A request whose name is not yet in the window is let through exactly if fewer requests than
  -- the limit stand in the window before it, for a Redis that keeps its laws.
  pub check_rate_limit_iff :
      (identifier : String) (max_requests window_seconds now : ℕ) (request : String) (s : S)
      → lookup request (
          above
            (pos now -ℤ pos (window_seconds * ticks_per_sec))
            (redis.zrange (rate_key identifier) s))
        ≡ none
      → ((check_rate_limit env identifier max_requests window_seconds now request s).0 ≡ true)
        ↔ (recent identifier window_seconds now s < max_requests)
  unfolding check_rate_limit
  check_rate_limit_iff identifier max_requests window_seconds now request s fresh =
      ground (arith, counted identifier window_seconds now request s fresh)
