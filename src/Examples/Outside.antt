-- ===== src/Examples/Outside.antt =====
-- An outside in which every send succeeds and the clock counts, and a game, an empty instance and
-- an instance with two players to try the handlers on.
use game_backend.Base.{
  ℕ, ◌≢◌, String, true, none, some, [], ◌∷◌, arith, ℤ, pos, str_eq, ◌==◌, str_eq_iff, Json, int,
  obj, field, end, if◌then◌else◌,
}
use game_backend.Game.{ActiveGame}
use game_backend.Env.{Env, SendOutcome, Settings, Texts}
use game_backend.Connections.{Hub, empty_manager}
use game_backend.World.{World}
use game_backend.Play.{new_game}
use game_backend.Examples.Store.{Store, redis}
use game_backend.Examples.Numbers.{whole}

abbrev settings : Settings
settings = record {
  instance_id = "one";
  app_env = "development";
  elo_tolerance_base = 100;
  elo_tolerance_expansion_per_sec = 10;
  elo_tolerance_max = 500;
  session_ttl_sec = 3600;
  reconnect_grace_period_sec = 15;
  instance_heartbeat_ttl_sec = 15;
  rate_limit_ws_messages_per_sec = 10;
  rate_limit_rest_requests_per_min = 1;
}

abbrev texts : Texts
texts = record {
  dumps_state = λ x. x.room_id;
  loads_state = λ t. none;
  dumps_ids = λ ids. "[]";
  loads_ids = λ t. none;
  time_text = λ n. if n == 0 then "0" else "1";
  text_time = λ t. if str_eq t "0" then some 0 else none;
  int_text = λ n. "1000";
  text_int = λ t. if str_eq t "1000" then some (pos 1000) else none;
}

abbrev pub outside : Env Store ℤ
outside = record {
  redis = redis;
  floats = whole;
  settings = settings;
  texts = texts;
  now = λ n. n;
  request_id = λ n. "request";
  send_json = λ n c msg. SendOutcome.sent;
  is_open = λ n c. true;
}

abbrev pub empty_store : Store
empty_store = record { texts = λ k. none; hashes = λ k. []; zsets = λ k. ([], tt) }

abbrev pub empty_hub : Hub
empty_hub = record { manager = empty_manager; queries = 0; wire = [] }

abbrev pub empty_world : World Store
empty_world = record {
  hub = empty_hub;
  games = [];
  store = empty_store;
  published = [];
  tasks = [];
}

abbrev pub ann : String
ann = "ann"

abbrev pub bob : String
bob = "bob"

abbrev pub room : String
room = "r"

abbrev pub place : ℕ → ℕ → Json
place x y = obj (field "x" (int (pos x)) (field "y" (int (pos y)) end))

abbrev pub two_players : ActiveGame
two_players = new_game room (ann ∷ bob ∷ []) ((ann, pos 1200) ∷ (bob, pos 1000) ∷ []) 0 1

pub ann≢bob : ann ≢ bob
unfolding str_eq
ann≢bob e = ground (arith, e, str_eq_iff ann bob)

pub room_named : room ≢ ""
unfolding str_eq
room_named e = ground (arith, e, str_eq_iff room "")
