-- ===== src/Env.antt =====
-- What lies outside the repository, as one interface: Redis commands over an abstract store, the
-- outcome of each send on a WebSocket, the readings of the clock, `orjson`, floats, and the
-- settings of app/config.py. The n-th query of a run is answered by the n-th answer, so every
-- behaviour of the outside is some value of this record. A Redis command that fails because the
-- server cannot be reached is not modelled. Times are counted in ticks.
pub mod Laws
use game_backend.Base.{ℕ, String, Bool, Option, List, ℤ, Dict}
use game_backend.Constants.{GameStatus}
use game_backend.Board.{Board}
use game_backend.Schemas.{Response}
use game_backend.Game.{Move}
use game_backend.Elo.{Floats}

-- The clock's unit.
abbrev pub ticks_per_sec : ℕ
ticks_per_sec = 1000000

-- The commands, on keys of one type each. A missing hash or sorted set reads as an empty one. The
-- natural numbers are times to live in seconds; the score of `zremrangebyscore` is the greatest
-- that it removes.
pub record RedisOps (S : Type 0) : Type 0 where
  pub get : String → S → Option String
  pub set : String → String → ℕ → S → S
  pub delete : String → S → S
  pub has_key : String → S → Bool
  pub expire : String → ℕ → S → S
  pub hgetall : String → S → Dict String
  pub hset : String → Dict String → S → S
  pub hdel : String → List String → S → S
  pub zadd : String → String → ℤ → S → S
  pub zremrangebyscore : String → ℤ → S → S
  pub zrem : String → List String → S → S
  pub zrange : String → S → List (String × ℤ)
  pub zrank : String → String → S → Option ℕ
  pub zcard : String → S → ℕ

-- How `wait_for(send_json(...), timeout)` ends: sent, timed out, or with an exception.
pub data SendOutcome : Type 0 where
  sent timed_out failed : SendOutcome

-- `RedisGameState` of app/models/redis_models.py.
pub record RedisGameState : Type 0 where
  pub room_id : String
  pub turn_number : ℕ
  pub current_player_id : String
  pub board : Board
  pub scores : Dict ℕ
  pub action_history : List Move
  pub status : GameStatus
  pub winner_id : Option String
  pub snapshot_time : ℕ

-- The fields of `Settings` that the modelled code reads.
pub record Settings : Type 0 where
  pub instance_id : String
  pub app_env : String
  pub elo_tolerance_base : ℕ
  pub elo_tolerance_expansion_per_sec : ℕ
  pub elo_tolerance_max : ℕ
  pub session_ttl_sec : ℕ
  pub reconnect_grace_period_sec : ℕ
  pub instance_heartbeat_ttl_sec : ℕ
  pub rate_limit_ws_messages_per_sec : ℕ
  pub rate_limit_rest_requests_per_min : ℕ

-- `Orjson` and the conversions of numbers to and from text that a Redis value goes through.
pub record Texts : Type 0 where
  pub dumps_state : RedisGameState → String
  pub loads_state : String → Option RedisGameState
  pub dumps_ids : List String → String
  pub loads_ids : String → Option (List String)
  pub time_text : ℕ → String
  pub text_time : String → Option ℕ
  pub int_text : ℤ → String
  pub text_int : String → Option ℤ

-- `request_id` is the text that names a request to the rate limiter, which holds the address of a
-- Python object.
pub record Env (S F : Type 0) : Type 0 where
  pub redis : RedisOps S
  pub floats : Floats F
  pub settings : Settings
  pub texts : Texts
  pub now : ℕ → ℕ
  pub request_id : ℕ → String
  pub send_json : ℕ → String → Response → SendOutcome
  pub is_open : ℕ → String → Bool
