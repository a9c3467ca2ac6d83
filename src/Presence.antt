-- ===== src/Presence.antt =====
-- Disconnects, the grace period, reconnects and recovery: `handle_player_disconnect`,
-- `_disconnect_timer`, `handle_player_reconnect` and `restore_game_from_snapshot` of
-- app/core/game_engine.py, with `RedisRoom` of app/models/redis_models.py.
pub mod Frames
pub mod Games
pub mod Invariant
pub mod Reachable
pub mod Recovery
pub mod Shutdown
use game_backend.Base.{
  ℕ, String, Bool, true, false, ◌&&◌, Option, none, some, List, [], ◌∷◌, ◌++◌, str_eq, mem, add,
  discard, Dict, lookup, insert, key_error, value_error, ok, raise, Action, pure, lift, or_raise,
  modify, ◌>>=◌, ◌>>◌, if◌then◌else◌,
}
use game_backend.Constants.{GameStatus, room_key, room_state_key}
use game_backend.Schemas.{Response, player_disconnected, player_reconnected, game_state_update}
use game_backend.Game.{ActiveGame, current_player_id, to_client_state}
use game_backend.Env.{Env, RedisGameState}
use game_backend.Sessions.{or_none, time_of, get_text}
use game_backend.Connections.{close_all}
use game_backend.World.{World, Task, time, tell, stop}
use game_backend.Play.{in_progress?, handle_game_over, join_player}

pub record RedisRoom : Type 0 where
  pub room_id : String
  pub owner_instance_id : String
  pub player_ids : List String
  pub status : String
  pub created_at : ℕ
  pub match_id : Option String

-- The first player who is not `pid`.
unfoldable pub other_player : String → List String → Option String
other_player pid [] = none
other_player pid (p ∷ ps) = if str_eq p pid then other_player pid ps else some p

abbrev paused? : GameStatus → Bool
paused? GameStatus.paused = true
paused? _ = false

abbrev no_one : List String → Bool
no_one [] = true
no_one (p ∷ ps) = false

-- The player is back; the game goes on when nobody is away.
unfoldable pub come_back : String → ActiveGame → ActiveGame
come_back pid g =
    let away = discard pid g.disconnected_players in
    record g {
      disconnected_players = away;
      status = if paused? g.status && no_one away then GameStatus.in_progress else g.status;
    }

-- The player forfeits to the other one.
unfoldable pub forfeit : String → ActiveGame → ActiveGame
forfeit pid g = record g {
  winner_id = elim (other_player pid g.player_ids) [ none ↦ g.winner_id | some p ↦ some p ];
  status = GameStatus.finished;
}

module _ {S F : Type 0} (env : Env S F) where
  -- A notice to every player but one.
  unfoldable pub tell_others : String → Response → List String → World S → World S
  tell_others pid msg [] w = w
  tell_others pid msg (p ∷ ps) w =
      tell_others pid msg ps (if str_eq p pid then w else tell env p msg w)

  -- The game pauses, the others are told, and the grace period starts.
  unfoldable pub pause_game : String → String → ActiveGame → World S → World S
  pause_game room_id pid g w =
      let g' : ActiveGame = record g {
        disconnected_players = add pid g.disconnected_players;
        status = GameStatus.paused;
      } in
      let w' =
        tell_others pid (player_disconnected pid env.settings.reconnect_grace_period_sec)
          g'.player_ids (record w { games = insert room_id g' w.games }) in
      record w' { tasks = w'.tasks ++ Task.disconnect_timer room_id pid ∷ [] }

  unfoldable pub handle_player_disconnect : String → String → World S → World S
  handle_player_disconnect room_id pid w = elim (lookup room_id w.games) [
    | none ↦ w
    | some g ↦ if in_progress? g.status then pause_game room_id pid g w else w
  ]

  -- `_disconnect_timer` after its sleep.
  unfoldable pub forfeit_in_room : String → String → ActiveGame → Action (World S) (Unit {0})
  forfeit_in_room room_id pid g w =
      let g' = forfeit pid g in
      handle_game_over env g' (record w { games = insert room_id g' w.games })

  unfoldable pub disconnect_timer_fires : String → String → Action (World S) (Unit {0})
  disconnect_timer_fires room_id pid w = elim (lookup room_id w.games) [
    | none ↦ (ok tt, w)
    | some g ↦
        if mem pid g.disconnected_players then forfeit_in_room room_id pid g w else (ok tt, w)
  ]

  unfoldable pub welcome_back : String → String → ActiveGame → Action (World S) (Unit {0})
  welcome_back room_id pid g = do
    modify
        (λ w. record w { hub = record w.hub { manager = join_player room_id pid w.hub.manager } })
    state ← lift (to_client_state g)
    now ← time env
    modify (
        tell env pid (
          game_state_update (record {
            room_id = room_id;
            state = state;
            last_action = none;
            your_turn = str_eq pid state.current_player_id;
            turn_number = g.turn_number;
            server_timestamp = now;
          })))
    modify (tell_others pid (player_reconnected pid) g.player_ids)

  unfoldable pub handle_player_reconnect : String → String → Action (World S) (Unit {0})
  handle_player_reconnect room_id pid w = elim (lookup room_id w.games) [
    | none ↦ (ok tt, w)
    | some g ↦
        let g' = come_back pid g in
        welcome_back room_id pid g' (record w { games = insert room_id g' w.games })
  ]

  -- `RedisRoom.from_dict`
  unfoldable pub room_from_dict : Dict String → Action (World S) RedisRoom
  room_from_dict d = do
    room_id ← or_raise (lookup "room_id" d) key_error
    owner ← or_raise (lookup "owner_instance_id" d) key_error
    ids ← or_raise (env.texts.loads_ids (get_text "player_ids" "[]" d)) value_error
    created_at ← lift (time_of env.texts "created_at" d)
    pure (record {
      room_id = room_id;
      owner_instance_id = owner;
      player_ids = ids;
      status = get_text "status" "open" d;
      created_at = created_at;
      match_id = or_none (get_text "match_id" "" d);
    })

  -- A game from its snapshot and its room. What the snapshot lacks, and what the code leaves to
  -- the defaults of `ActiveGame`, starts anew.
  unfoldable pub restored : String → RedisRoom → RedisGameState → ℕ → ℕ → ActiveGame
  restored room_id room state started last = record {
    room_id = room_id;
    match_id = none;
    player_ids = room.player_ids;
    player_elos = [];
    current_player_idx = 0;
    board = state.board;
    scores = state.scores;
    turn_number = state.turn_number;
    status = state.status;
    winner_id = state.winner_id;
    action_history = state.action_history;
    started_at = started;
    last_action_time = last;
    disconnected_players = [];
  }

  unfoldable pub restore_from :
      String → RedisGameState → Dict String → Action (World S) (Option ActiveGame)
  restore_from room_id state [] = pure none
  restore_from room_id state (f ∷ fs) = do
    room ← room_from_dict (f ∷ fs)
    started ← time env
    last ← time env
    let g = restored room_id room state started last
    modify (λ w. record w { games = insert room_id g w.games })
    pure (some g)

  unfoldable pub restore_game_from_snapshot : String → Action (World S) (Option ActiveGame)
  restore_game_from_snapshot room_id w = elim (env.redis.get (room_state_key room_id) w.store) [
    | none ↦ (ok none, w)
    | some raw ↦ elim (env.texts.loads_state raw) [
      | none ↦ (raise value_error, w)
      | some state ↦ restore_from room_id state (env.redis.hgetall (room_key room_id) w.store) w
    ]
  ]

  -- `shutdown_dependencies` of app/dependencies.py; the stops of matchmaking and of Pub/Sub cancel
  -- their loops and touch nothing else of the instance.
  unfoldable pub shutdown_dependencies : Action (World S) (Unit {0})
  shutdown_dependencies = stop env >> modify (λ w. record w { hub = close_all env w.hub })
