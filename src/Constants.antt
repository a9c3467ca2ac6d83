-- ===== src/Constants.antt =====
-- Constants and enumerations (app/utils/constants.py).
pub mod Keys
use Prim.Native.String.{◌++◌}
use game_backend.Base.{ℕ, String}

pub data GameStatus : Type 0 where
  waiting in_progress paused finished abandoned : GameStatus

pub data RoomStatus : Type 0 where
  available full in_game closed : RoomStatus

pub data PlayerConnectionState : Type 0 where
  connected disconnected reconnecting in_matchmaking in_game : PlayerConnectionState

-- The texts that the members of `PlayerConnectionState` are.
unfoldable pub state_text : PlayerConnectionState → String
state_text PlayerConnectionState.connected = "connected"
state_text PlayerConnectionState.disconnected = "disconnected"
state_text PlayerConnectionState.reconnecting = "reconnecting"
state_text PlayerConnectionState.in_matchmaking = "in_matchmaking"
state_text PlayerConnectionState.in_game = "in_game"

-- The texts that the members of `RoomStatus` are.
unfoldable pub room_text : RoomStatus → String
room_text RoomStatus.available = "open"
room_text RoomStatus.full = "full"
room_text RoomStatus.in_game = "in_game"
room_text RoomStatus.closed = "closed"

-- The class methods of `RedisKey`.
unfoldable pub session_key : String → String
session_key player_id = "sess:" ++ player_id

unfoldable pub room_key : String → String
room_key room_id = "room:" ++ room_id

unfoldable pub room_state_key : String → String
room_state_key room_id = "room:" ++ (room_id ++ ":state")

unfoldable pub player_room_key : String → String
player_room_key player_id = "player:" ++ (player_id ++ ":room")

unfoldable pub instance_heartbeat_key : String → String
instance_heartbeat_key instance_id = "inst:" ++ (instance_id ++ ":heartbeat")

unfoldable pub channel_player : String → String
channel_player player_id = "ch:player:" ++ player_id

unfoldable pub channel_room : String → String
channel_room room_id = "ch:room:" ++ room_id

abbrev pub matchmaking_queue : String
matchmaking_queue = "mm:queue"

abbrev pub matchmaking_timestamps : String
matchmaking_timestamps = "mm:timestamps"

abbrev pub board_size : ℕ
board_size = 10

abbrev pub max_turns : ℕ
max_turns = 100
