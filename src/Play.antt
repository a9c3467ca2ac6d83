-- ===== src/Play.antt =====
-- The life of a game on one instance: `create_game`, `process_action`, `_broadcast_state_update`,
-- `_handle_game_over` and `_cleanup_game` of app/core/game_engine.py.
pub mod Frames
pub mod Endings
pub mod Completion
pub mod Rounds
use mathlib.Core.Option
use game_backend.Base.{
  ℕ, suc, ◌+◌, String, Bool, true, false, not, Option, none, some, List, [], ◌∷◌, ◌++◌, ℤ, pos,
  ◌==◌, str_eq, Dict, lookup, insert, erase, Action, pure, lift, modify, ◌>>=◌, ◌>>◌, Json, str,
  if◌then◌else◌,
}
use game_backend.Constants.{
  GameStatus, PlayerConnectionState, room_key, room_state_key, player_room_key,
}
use game_backend.Schemas.{
  ErrorCode, GameResult, win, loss, draw, game_started, game_state_update, game_over,
}
use game_backend.Board.{empty_board}
use game_backend.Game.{
  ActiveGame, current_player_id, to_client_state, apply_place_action, finish_turn,
}
use game_backend.Elo.{calculate_elo_changes, rating}
use game_backend.Env.{Env}
use game_backend.Connections.{ConnectionManager, get_connection_by_player, join_room, leave_room}
use game_backend.Sessions.{set_player_room, update_session_state}
use game_backend.World.{World, Task, time, send_error, send_or_publish, save_snapshot}

-- `{pid: 0 for pid in player_ids}`
unfoldable pub no_scores : List String → Dict ℕ → Dict ℕ
no_scores [] d = d
no_scores (pid ∷ pids) d = no_scores pids (insert pid 0 d)

unfoldable pub new_game : String → List String → Dict ℤ → ℕ → ℕ → ActiveGame
new_game room_id player_ids player_elos started last = record {
  room_id = room_id;
  match_id = none;
  player_ids = player_ids;
  player_elos = player_elos;
  current_player_idx = 0;
  board = empty_board;
  scores = no_scores player_ids [];
  turn_number = 0;
  status = GameStatus.in_progress;
  winner_id = none;
  action_history = [];
  started_at = started;
  last_action_time = last;
  disconnected_players = [];
}

-- `conn = get_connection_by_player(pid); if conn: join_room(conn.connection_id, room_id)`
unfoldable pub join_player : String → String → ConnectionManager → ConnectionManager
join_player room_id pid m = elim (get_connection_by_player pid m) [
  | none ↦ m
  | some info ↦ join_room info.connection_id room_id m
]

unfoldable pub leave_players : List String → ConnectionManager → ConnectionManager
leave_players [] m = m
leave_players (pid ∷ pids) m = elim (get_connection_by_player pid m) [
  | none ↦ leave_players pids m
  | some info ↦ leave_players pids (leave_room info.connection_id m)
]

-- The `result` of a finished game for a player.
unfoldable pub result_for : String → Option String → GameResult
result_for pid none = draw
result_for pid (some winner) = if str_eq pid winner then win else loss

abbrev is_place : Json → Bool
is_place (str s) = str_eq s "place"
is_place _ = false

-- `game.status == GameStatus.IN_PROGRESS`
abbrev pub in_progress? : GameStatus → Bool
in_progress? GameStatus.in_progress = true
in_progress? _ = false

module _ {S F : Type 0} (env : Env S F) where
  -- The loop that joins the players to the room.
  unfoldable pub join_players : String → List String → World S → World S
  join_players room_id [] w = w
  join_players room_id (pid ∷ pids) w = join_players room_id pids (record w {
    hub = record w.hub {
      manager = join_player room_id pid w.hub.manager;
      queries = w.hub.queries + 1;
    };
    store =
        update_session_state env pid PlayerConnectionState.in_game (some room_id)
          (env.now w.hub.queries) (set_player_room env pid room_id w.store);
  })

  -- The loop that announces the start, from the player with index `i` on.
  unfoldable pub announce : ActiveGame → ℕ → List String → Action (World S) (Unit {0})
  announce g i [] = pure tt
  announce g i (pid ∷ pids) = do
    state ← lift (to_client_state g)
    modify (
        send_or_publish env pid "game_started" g.room_id (
          game_started (record {
            room_id = g.room_id;
            initial_state = state;
            your_turn = i == g.current_player_idx;
          })))
    announce g (suc i) pids

  unfoldable pub create_game : String → List String → Dict ℤ → Action (World S) ActiveGame
  create_game room_id player_ids player_elos = do
    started ← time env
    last ← time env
    let g = new_game room_id player_ids player_elos started last
    modify (λ w. record w { games = insert room_id g w.games })
    modify (join_players room_id player_ids)
    announce g 0 player_ids
    save_snapshot env room_id
    pure g

  -- The loop of `_broadcast_state_update`.
  unfoldable pub broadcast_state_update :
      ActiveGame → Json → Json → List String → Action (World S) (Unit {0})
  broadcast_state_update g action payload [] = pure tt
  broadcast_state_update g action payload (pid ∷ pids) = do
    state ← lift (to_client_state g)
    now ← time env
    modify (
        send_or_publish env pid "state_update" g.room_id (
          game_state_update (record {
            room_id = g.room_id;
            state = state;
            last_action = some (action, payload);
            your_turn = str_eq pid state.current_player_id;
            turn_number = g.turn_number;
            server_timestamp = now;
          })))
    broadcast_state_update g action payload pids

  -- `elo_changes.get(pid, (game.player_elos.get(pid, 1000), 0))`, of which the delta is sent.
  abbrev delta_for : String → ActiveGame → ℤ
  delta_for pid g =
      (Option.get_or (lookup pid (calculate_elo_changes env.floats g))
        (rating env.floats pid g, pos 0)).1

  -- The loop of `_handle_game_over` over the players.
  unfoldable pub announce_result : ActiveGame → List String → Action (World S) (Unit {0})
  announce_result g [] = pure tt
  announce_result g (pid ∷ pids) = do
    state ← lift (to_client_state g)
    modify (
        send_or_publish env pid "game_over" g.room_id (
          game_over (record {
            room_id = g.room_id;
            winner_id = g.winner_id;
            result = result_for pid g.winner_id;
            elo_delta = delta_for pid g;
            final_state = state;
          })))
    announce_result g pids

  -- `_cleanup_game` up to its sleep; the rest is a task.
  unfoldable pub cleanup_game : String → World S → World S
  cleanup_game room_id w = elim (lookup room_id w.games) [
    | none ↦ w
    | some g ↦ record w {
      games = erase room_id w.games;
      hub = record w.hub { manager = leave_players g.player_ids w.hub.manager };
      tasks = w.tasks ++ Task.delete_keys room_id g.player_ids ∷ [];
    }
  ]

  unfoldable pub delete_player_rooms : List String → S → S
  delete_player_rooms [] s = s
  delete_player_rooms (pid ∷ pids) s =
      delete_player_rooms pids (env.redis.delete (player_room_key pid) s)

  -- `_cleanup_game` after its sleep.
  unfoldable pub finish_cleanup : String → List String → S → S
  finish_cleanup room_id pids s =
      delete_player_rooms pids
        (env.redis.delete (room_state_key room_id) (env.redis.delete (room_key room_id) s))

  unfoldable pub handle_game_over : ActiveGame → Action (World S) (Unit {0})
  handle_game_over g = do
    announce_result g g.player_ids
    modify (λ w. record w {
      tasks = w.tasks ++ Task.persist_result g (calculate_elo_changes env.floats g) ∷ [];
    })
    save_snapshot env g.room_id
    modify (cleanup_game g.room_id)

  -- The end of `process_action`, after an accepted placement that left the game `g`.
  unfoldable pub complete_action :
      String → String → Json → Json → ActiveGame → Action (World S) Bool
  complete_action room_id pid action payload g = do
    now ← time env
    later ← time env
    let (over, g') = finish_turn pid action payload now later g
    modify (λ w. record w { games = insert room_id g' w.games })
    broadcast_state_update g' action payload g'.player_ids
    if over then handle_game_over g' else pure tt
    pure true

  -- An error to the player, and `return False`.
  abbrev refuse : String → ErrorCode → Action (World S) Bool
  refuse pid code = modify (send_error env pid code) >> pure false

  -- The placement on the game of the room; what it wrote stays written if it raised.
  unfoldable pub place_in_room :
      String → String → Json → ActiveGame → Action (World S) (Option ErrorCode)
  place_in_room room_id pid payload g w =
      let (r, g') = apply_place_action pid payload g in
      (r, record w { games = insert room_id g' w.games })

  unfoldable pub after_place :
      String → String → Json → Json → ActiveGame → Option ErrorCode → Action (World S) Bool
  after_place room_id pid action payload g (some code) = refuse pid code
  after_place room_id pid action payload g none = complete_action room_id pid action payload g

  unfoldable pub act_on : String → String → Json → Json → ActiveGame → Action (World S) Bool
  act_on room_id pid action payload g =
      if not (in_progress? g.status) then refuse pid ErrorCode.game_not_active else do
        current ← lift (current_player_id g)
        if not (str_eq pid current)
            then refuse pid ErrorCode.not_your_turn
            else if not (is_place action)
            then refuse pid ErrorCode.unknown_action
            else place_in_room room_id pid payload g
              >>= after_place room_id pid action payload (apply_place_action pid payload g).1

  -- `process_action`; the sequence number is not looked at.
  unfoldable pub process_action : String → String → Json → Json → Action (World S) Bool
  process_action room_id pid action payload w = elim (lookup room_id w.games) [
    | none ↦ refuse pid ErrorCode.game_not_found w
    | some g ↦ act_on room_id pid action payload g w
  ]
