-- ===== src/Gateway/Health.antt =====
-- The health endpoint (`health_check` of app/api/rest_routes.py) and the counts that it reports.
use game_backend.Base.{
  ℕ, ◌+◌, ◌≡◌, ◌∙◌, ap, sym, ℤ, String, Option, none, some, length, if◌then◌else◌,
}
use game_backend.Constants.{matchmaking_queue}
use game_backend.Env.{Env}
use game_backend.Connections.{ConnectionManager}
use game_backend.Env.Laws.{RedisLaws}
use game_backend.World.{World}
use game_backend.World.Frames.{tell-Talks}
use game_backend.Matchmaking.{enqueue_player, is_queued}

-- `active_connection_count`
abbrev pub active_connection_count : ConnectionManager → ℕ
active_connection_count m = length m.connections

pub data Health : Type 0 where
  healthy : String → ℕ → ℕ → ℕ → String → Health
  starting : String → Health

module _ {S F : Type 0} (env : Env S F) where
  open env use {redis, settings}

  -- `active_game_count`
  abbrev pub active_game_count : World S → ℕ
  active_game_count w = length w.games

  -- `get_queue_size`
  unfoldable pub get_queue_size : World S → ℕ
  get_queue_size w = redis.zcard matchmaking_queue w.store

  -- Without dependencies yet, their getters raise a `RuntimeError`.
  unfoldable pub health_check : Option (World S) → Health
  health_check none = starting settings.instance_id
  health_check (some w) =
      healthy settings.instance_id (active_connection_count w.hub.manager) (active_game_count w)
        (get_queue_size w) settings.app_env

  get_queue_size-enqueue_player :
      (laws : RedisLaws redis) (pid : String) (elo : ℤ) (w : World S)
      → get_queue_size (enqueue_player env pid elo w)
        ≡ (if is_queued env pid w.store then get_queue_size w else get_queue_size w + 1)
  unfolding get_queue_size enqueue_player
  get_queue_size-enqueue_player laws pid elo w =
      ap (redis.zcard matchmaking_queue) (tell-Talks env pid _ _).store
      ∙ laws.zcard_lem matchmaking_queue _
      ∙ ap length (laws.zrange-hset matchmaking_queue _ _ _)
      ∙ sym (laws.zcard_lem matchmaking_queue _)
      ∙ laws.zcard-zadd matchmaking_queue pid elo w.store
