-- ===== src/Matchmaking/Ends.antt =====
-- The inner loop of `_matching_loop` (app/core/matchmaking.py) ends: every round that finds a pair
-- takes two players out of the queue.
use game_backend.Base.{
  List, ℕ, ◌+◌, ◌≤◌, ◌<◌, ◌≡◌, Bool, true, false, Option, none, some, length, Result, Error, ok,
  raise, ◌⊎◌,
}
use game_backend.Constants.{matchmaking_queue}
use game_backend.Env.{Env}
use game_backend.Env.Laws.{RedisLaws}
use game_backend.World.{World}
use game_backend.Matchmaking.{Candidate, acceptable, candidates, Pair}
use game_backend.Matchmaking.Pairs.{Picks}
use game_backend.Matchmaking.Passes.{queue_of}

module _ {S F : Type 0} (env : Env S F) (laws : RedisLaws env.redis) where
  -- How a round ended, and the queue that it left.
  abbrev Tried : World S → Result (Option Pair) → World S → Type 0
  Tried w (raise e) w' = Unit
  Tried w (ok none) w' = Unit
  Tried w (ok (some m)) w' = length (queue_of env w') + 2 ≤ length (queue_of env w)

  -- The queue has no pair for the script at a time: fewer than two players, or none that accept
  -- each other.
  abbrev pub NoPair : ℕ → S → Type 0
  NoPair now s =
      (length (env.redis.zrange matchmaking_queue s) < 2)
      ⊎ ((cs : List Candidate) × (candidates env now (env.redis.zrange matchmaking_queue s) s
            ≡ ok cs)
          × ((a b : Candidate) → Picks a b cs → acceptable a b ≡ false))

  -- How a pass ends: with an exception; or it is over after a round, before which `n` were left,
  -- that found the script missing, or that left no pair in the queue.
  abbrev pub Ended : ℕ → (ℕ → Bool) → Result Bool × World S → Type 0
  Ended n loaded x =
      ((x.0 ≡ ok true)
        × (((k : ℕ) × (k < n) × (loaded k ≡ false)) ⊎ ((i : ℕ) × NoPair (env.now i) x.1.store)))
      ⊎ ((e : Error) × (x.0 ≡ raise e))
