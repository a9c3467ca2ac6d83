-- ===== src/Schemas.antt =====
-- The messages that the server sends (app/models/schemas.py), and the codes of its errors. The
-- texts for humans inside them, and their `timestamp`, are left out.
use game_backend.Base.{ℕ, ℤ, String, Bool, Option, List, Dict, Json}
use game_backend.Constants.{GameStatus}
use game_backend.Board.{Board}

pub data ErrorCode : Type 0 where
  auth_failed rate_limited invalid_json missing_type not_in_game unknown_type : ErrorCode
  game_not_found game_not_active not_your_turn unknown_action : ErrorCode
  missing_coords out_of_bounds cell_occupied : ErrorCode

-- What `to_client_state` of `ActiveGame` returns.
pub record ClientState : Type 0 where
  pub board : Board
  pub scores : Dict ℕ
  pub turn_number : ℕ
  pub current_player_id : String
  pub status : GameStatus
  pub winner_id : Option String
  pub player_ids : List String

-- The `result` of a finished game for one player.
pub data GameResult : Type 0 where
  win loss draw : GameResult

pub record MatchFound : Type 0 where
  pub room_id : String
  pub opponent_id : String
  pub opponent_username : String
  pub opponent_elo : ℤ
  pub your_color : String

pub record GameStarted : Type 0 where
  pub room_id : String
  pub initial_state : ClientState
  pub your_turn : Bool

pub record StateUpdate : Type 0 where
  pub room_id : String
  pub state : ClientState
  pub last_action : Option (Json × Json)
  pub your_turn : Bool
  pub turn_number : ℕ
  pub server_timestamp : ℕ

pub record GameOver : Type 0 where
  pub room_id : String
  pub winner_id : Option String
  pub result : GameResult
  pub elo_delta : ℤ
  pub final_state : ClientState

-- One constructor for each class of server message.
pub data Response : Type 0 where
  connected : String → String → Response
  matchmaking_queued : Option ℕ → ℕ → Response
  match_found : MatchFound → Response
  match_cancelled : Response
  game_started : GameStarted → Response
  game_state_update : StateUpdate → Response
  game_over : GameOver → Response
  heartbeat_pong : ℕ → Response
  player_disconnected : String → ℕ → Response
  player_reconnected : String → Response
  error : ErrorCode → Response
