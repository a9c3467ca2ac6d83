-- ===== src/World.antt =====
-- The state of one instance, and the engine's helpers that every handler uses: sends with the
-- fallback to Pub/Sub, error replies and snapshots (app/core/game_engine.py, and the envelope
-- `PubSubMessage` of app/models/redis_models.py). A handler runs from one end to the other; what
-- the code does after a sleep is a task of its own, and an event of its own later.
pub mod Frames
use game_backend.Base.{
  ℕ, ◌+◌, String, none, some, List, [], ◌∷◌, ◌++◌, ℤ, Dict, lookup, keys, Result, ok, raise, Action,
  last_items, if◌then◌else◌,
}
use game_backend.Constants.{channel_player, room_state_key}
use game_backend.Schemas.{ErrorCode, Response, error}
use game_backend.Game.{ActiveGame, current_player_id}
use game_backend.Env.{Env, RedisGameState}
use game_backend.Connections.{Hub, send_personal}

pub record PubSubMessage : Type 0 where
  pub event : String
  pub room_id : String
  pub sender_instance_id : String
  pub payload : Response
  pub timestamp : ℕ

-- What waits in the event loop: the grace period of a player, the storing of a result, and the
-- end of a clean-up.
pub data Task : Type 0 where
  disconnect_timer : String → String → Task
  persist_result : ActiveGame → Dict (ℤ × ℤ) → Task
  delete_keys : String → List String → Task

pub record World (S : Type 0) : Type 0 where
  pub hub : Hub
  pub games : Dict ActiveGame
  pub store : S
  pub published : List (String × PubSubMessage)
  pub tasks : List Task

-- `to_redis_state`, at a time.
unfoldable pub to_redis_state : ActiveGame → ℕ → Result RedisGameState
to_redis_state g now = elim (current_player_id g) [
  | raise e ↦ raise e
  | ok pid ↦ ok (record {
    room_id = g.room_id;
    turn_number = g.turn_number;
    current_player_id = pid;
    board = g.board;
    scores = g.scores;
    action_history = last_items 20 g.action_history;
    status = g.status;
    winner_id = g.winner_id;
    snapshot_time = now;
  })
]

module _ {S F : Type 0} (env : Env S F) where
  -- The clock's next answer, and the question counted.
  unfoldable pub time : Action (World S) ℕ
  time w =
      (ok (env.now w.hub.queries), record w { hub = record w.hub { queries = w.hub.queries + 1 } })

  -- `send_personal`, whose answer is not looked at.
  unfoldable pub tell : String → Response → World S → World S
  tell pid msg w = record w { hub = (send_personal env pid msg w.hub).1 }

  unfoldable pub send_error : String → ErrorCode → World S → World S
  send_error pid code w = tell pid (error code) w

  -- `publish_to_player`; the envelope reads the clock.
  unfoldable pub publish_to_player : String → String → String → Response → World S → World S
  publish_to_player pid event room_id msg w = record w {
    hub = record w.hub { queries = w.hub.queries + 1 };
    published =
        w.published
        ++ (
          channel_player pid,
          record {
            event = event;
            room_id = room_id;
            sender_instance_id = env.settings.instance_id;
            payload = msg;
            timestamp = env.now w.hub.queries;
          },
        )
          ∷ [];
  }

  -- A send to a player, who may be on another instance.
  unfoldable pub send_or_publish : String → String → String → Response → World S → World S
  send_or_publish pid event room_id msg w =
      let r = send_personal env pid msg w.hub in
      let w' = record w { hub = r.1 } in
      if r.0 then w' else publish_to_player pid event room_id msg w'

  -- `_save_snapshot`
  unfoldable pub save_snapshot : String → Action (World S) (Unit {0})
  save_snapshot room_id w = elim (lookup room_id w.games) [
    | none ↦ (ok tt, w)
    | some g ↦ elim (to_redis_state g (env.now w.hub.queries)) [
      | raise e ↦ (raise e, w)
      | ok state ↦ (
        ok tt,
        record w {
          hub = record w.hub { queries = w.hub.queries + 1 };
          store = env.redis.set (room_state_key room_id) (env.texts.dumps_state state) 3600 w.store;
        },
      )
    ]
  ]

  -- One round of `_snapshot_loop`, and the last one of `stop`.
  unfoldable pub save_all : List String → Action (World S) (Unit {0})
  save_all [] w = (ok tt, w)
  save_all (room_id ∷ rooms) w = elim (save_snapshot room_id w).0 [
    | raise e ↦ (raise e, (save_snapshot room_id w).1)
    | ok _ ↦ save_all rooms (save_snapshot room_id w).1
  ]

  -- `GameEngine.stop`, once the loop of snapshots is cancelled.
  unfoldable pub stop : Action (World S) (Unit {0})
  stop w = save_all (keys w.games) w
