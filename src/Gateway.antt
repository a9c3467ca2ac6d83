-- ===== src/Gateway.antt =====
-- The WebSocket endpoint (app/api/ws_routes.py): what one connection does to an instance, from the
-- message texts that it receives. A connection here has passed the token's check, which Gateway/Entry
-- has. `orjson.loads` is outside: a message is the value that it gave, or none.
pub mod Messages
pub mod Visits
pub mod Server
pub mod Entry
pub mod Health
use mathlib.Core.Option
use game_backend.Base.{
  ℕ, zero, ◌+◌, String, Bool, true, false, not, Option, none, some, pos, str_eq, is_named,
  attribute_error, Result, ok, Action, pure, fail, modify, ◌>>=◌, ◌>>◌, Json, null, bool, int, str,
  arr, obj, nil, Fields, end, get_field, if◌then◌else◌,
}
use game_backend.Constants.{PlayerConnectionState, state_text}
use game_backend.Schemas.{ErrorCode, connected, heartbeat_pong}
use game_backend.Env.{Env}
use game_backend.Connections.{connect, disconnect}
use game_backend.Sessions.{
  RedisSession, get_session, create_session, attempt_reconnect, update_session_state,
  update_activity, mark_disconnected, get_player_room,
}
use game_backend.RateLimit.{check_ws_rate_limit}
use game_backend.World.{World, tell, send_error}
use game_backend.Play.{process_action}
use game_backend.Presence.{handle_player_disconnect, handle_player_reconnect}
use game_backend.Matchmaking.{enqueue_player, dequeue_player}

-- `if not value`, of a JSON value. A float is only known by its floor here, and counts as true.
unfoldable pub is_falsy : Json → Bool
is_falsy null = true
is_falsy (bool b) = not b
is_falsy (int (pos zero)) = true
is_falsy (str s) = not (is_named s)
is_falsy (arr nil) = true
is_falsy (obj end) = true
is_falsy _ = false

-- `msg_type == tag`
abbrev pub is_tag : Json → String → Bool
is_tag (str s) tag = str_eq s tag
is_tag _ tag = false

-- `session.room_id`, where it is there and not empty.
abbrev pub room_of : Option RedisSession → Option String
room_of none = none
room_of (some x) = elim x.room_id [ none ↦ none | some r ↦ if is_named r then some r else none ]

abbrev pub in_room :
    {S : Type 0} → Option String → (String → Action S (Unit {0})) → Action S (Unit {0})
in_room none f = pure tt
in_room (some r) f = f r

module _ {S F : Type 0} (env : Env S F) where
  -- A call of the session manager that reads the clock once. The question is counted also where
  -- the call returns before it asks.
  abbrev pub on_store : (ℕ → S → S) → World S → World S
  on_store f w = record w {
    hub = record w.hub { queries = w.hub.queries + 1 };
    store = f (env.now w.hub.queries) w.store;
  }

  abbrev pub state_stored : String → PlayerConnectionState → World S → World S
  state_stored pid state = on_store (update_session_state env pid state none)

  abbrev pub ask_store : {A : Type 0} → (ℕ → S → Result A × S) → Action (World S) A
  ask_store f w =
      let r = f (env.now w.hub.queries) w.store in
      (r.0, record w { hub = record w.hub { queries = w.hub.queries + 1 }; store = r.1 })

  -- `get_session`, which reads no clock.
  abbrev session_of : String → Action (World S) (Option RedisSession)
  session_of pid w = (get_session env pid w.store, w)

  -- The endpoint's third step on a session in the state disconnected.
  unfoldable pub resume : String → String → Action (World S) (Unit {0})
  resume pid c = do
    session ← ask_store (attempt_reconnect env pid c)
    in_room (room_of session) (λ r. handle_player_reconnect env r pid)

  -- A new session, with the default rating and name; it reads the clock twice.
  unfoldable pub start_session : String → String → World S → World S
  start_session pid c w = record w {
    hub = record w.hub { queries = w.hub.queries + 2 };
    store =
        (create_session env pid c (pos 1000) "" (env.now w.hub.queries)
          (env.now (w.hub.queries + 1)) w.store).1;
  }

  abbrev pub is_away : Option RedisSession → Bool
  is_away none = false
  is_away (some x) = str_eq x.state (state_text PlayerConnectionState.disconnected)

  -- The steps 2 to 4 of `websocket_endpoint`, for a player and a new connection.
  unfoldable pub open_connection : String → String → Action (World S) (Unit {0})
  open_connection pid c = do
    modify (λ w. record w { hub = connect env pid c w.hub })
    existing ← session_of pid
    if is_away existing then resume pid c else modify (start_session pid c)
    modify (tell env pid (connected pid c))

  -- The branches of `_route_message`.
  unfoldable pub find_match : String → Action (World S) (Unit {0})
  find_match pid = do
    session ← session_of pid
    modify (state_stored pid PlayerConnectionState.in_matchmaking)
    modify (enqueue_player env pid (elim session [ none ↦ pos 1000 | some x ↦ x.elo_rating ]))

  unfoldable pub cancel_match : String → World S → World S
  cancel_match pid w = state_stored pid PlayerConnectionState.connected (dequeue_player env pid w).1

  unfoldable pub game_action : String → Fields → Action (World S) (Unit {0})
  game_action pid fs w = elim (get_player_room env pid w.store) [
    | none ↦ (ok tt, send_error env pid ErrorCode.not_in_game w)
    | some room_id ↦
        (process_action env room_id pid (Option.get_or (get_field "action" fs) (str ""))
              (Option.get_or (get_field "data" fs) (obj end))
            >> pure tt)
          w
  ]

  unfoldable pub heartbeat : String → World S → World S
  heartbeat pid w =
      tell env pid (heartbeat_pong (env.now w.hub.queries))
        (record w { hub = record w.hub { queries = w.hub.queries + 1 } })

  unfoldable pub route_message : String → Json → Fields → Action (World S) (Unit {0})
  route_message pid msg_type fs =
      if is_tag msg_type "find_match"
      then find_match pid
      else if is_tag msg_type "cancel_match"
      then modify (cancel_match pid)
      else if is_tag msg_type "game_action"
      then game_action pid fs
      else if is_tag msg_type "heartbeat_ping"
      then modify (heartbeat pid)
      else modify (send_error env pid ErrorCode.unknown_type)

  -- A message that is an object. An absent type and a falsy one are the same to the code.
  unfoldable pub on_object : String → Fields → Action (World S) (Unit {0})
  on_object pid fs =
      let msg_type = Option.get_or (get_field "type" fs) null in
      if is_falsy msg_type
      then modify (send_error env pid ErrorCode.missing_type)
      else modify (on_store (update_activity env pid)) >> route_message pid msg_type fs

  -- A value that is no object has no method `get`.
  unfoldable pub on_value : String → Option Json → Action (World S) (Unit {0})
  on_value pid none = modify (send_error env pid ErrorCode.invalid_json)
  on_value pid (some (obj fs)) = on_object pid fs
  on_value pid (some v) = fail attribute_error

  -- The rate limiter reads the clock and names the request.
  unfoldable pub allow : String → World S → Bool × World S
  allow pid w =
      let r =
        check_ws_rate_limit env pid env.settings.rate_limit_ws_messages_per_sec
          (env.now w.hub.queries) (env.request_id w.hub.queries) w.store in
      (r.0, record w { hub = record w.hub { queries = w.hub.queries + 1 }; store = r.1 })

  -- One round of the message loop.
  unfoldable pub on_message : String → Option Json → Action (World S) (Unit {0})
  on_message pid message w =
      if (allow pid w).0
      then on_value pid message (allow pid w).1
      else (ok tt, send_error env pid ErrorCode.rate_limited (allow pid w).1)

  -- `_handle_disconnect`
  unfoldable pub handle_disconnect : String → String → Action (World S) (Unit {0})
  handle_disconnect pid c = do
    modify (λ w. record w { hub = record w.hub { manager = (disconnect c w.hub.manager).1 } })
    modify (λ w. (dequeue_player env pid w).1)
    session ← ask_store (mark_disconnected env pid)
    in_room (room_of session) (λ r. modify (handle_player_disconnect env r pid))
