-- ===== src/Connections.antt =====
-- The connection manager of one instance (app/core/ws_manager.py).
pub mod Consistency
pub mod Rooms
pub mod Traffic
pub mod View
pub mod Refinement
pub mod Closing
use mathlib.Core.Option
use game_backend.Base.{
  ℕ, ◌+◌, String, Bool, true, false, ◌&&◌, Option, none, some, List, [], ◌∷◌, ◌++◌, map, str_eq,
  is_named, Dict, lookup, insert, erase, contains, add, discard, if◌then◌else◌,
}
use game_backend.Schemas.{Response}
use game_backend.Env.{Env, SendOutcome, sent, timed_out, failed}

-- A connection's WebSocket is known by the connection's identifier.
pub record ConnectionInfo : Type 0 where
  pub player_id : String
  pub connection_id : String
  pub room_id : Option String
  pub connected_at : ℕ
  pub last_activity : ℕ
  pub message_count : ℕ

pub record ConnectionManager : Type 0 where
  pub connections : Dict ConnectionInfo
  pub player_connections : Dict String
  pub room_members : Dict (List String)

-- What the instance has done on its sockets.
pub data WireEvent : Type 0 where
  accepted : String → WireEvent
  delivered : String → Response → WireEvent
  closed : String → String → WireEvent

-- The manager, the number of queries put to the outside so far, and what went over the wire.
pub record Hub : Type 0 where
  pub manager : ConnectionManager
  pub queries : ℕ
  pub wire : List WireEvent

abbrev pub empty_manager : ConnectionManager
empty_manager = record { connections = []; player_connections = []; room_members = [] }

abbrev pub members : String → ConnectionManager → List String
members r m = Option.get_or (lookup r m.room_members) []

-- `discard` from a room's set, and `del` of a set that is empty then; no room is no change.
unfoldable pub remove_member : String → String → Dict (List String) → Dict (List String)
remove_member r c rooms = elim (lookup r rooms) [
  | none ↦ rooms
  | some cs ↦ elim (discard c cs) [ [] ↦ erase r rooms | x ∷ xs ↦ insert r (x ∷ xs) rooms ]
]

-- The room of a connection, if the text is not empty.
abbrev pub named_room : ConnectionInfo → Option String
named_room info = elim info.room_id [ none ↦ none | some r ↦ if is_named r then some r else none ]

-- The player's entry goes only if it names this connection.
unfoldable pub forget_player : String → String → Dict String → Dict String
forget_player p c players = elim (lookup p players) [
  | none ↦ players
  | some d ↦ if str_eq d c then erase p players else players
]

unfoldable pub disconnect : String → ConnectionManager → Option ConnectionInfo × ConnectionManager
disconnect c m = elim (lookup c m.connections) [
  | none ↦ (none, m)
  | some info ↦ (
    some info,
    record {
      connections = erase c m.connections;
      player_connections = forget_player info.player_id c m.player_connections;
      room_members = elim (named_room info) [
        | none ↦ m.room_members
        | some r ↦ remove_member r c m.room_members
      ];
    },
  )
]

unfoldable pub leave_room : String → ConnectionManager → ConnectionManager
leave_room c m = elim (lookup c m.connections) [
  | none ↦ m
  | some info ↦ elim info.room_id [
    | none ↦ m
    | some r ↦ record m {
      connections = insert c (record info { room_id = none }) m.connections;
      room_members = remove_member r c m.room_members;
    }
  ]
]

-- `if info.room_id and info.room_id != room_id: self.leave_room(connection_id)`
unfoldable pub leave_other_room :
    String → String → ConnectionInfo → ConnectionManager → ConnectionManager
leave_other_room c r info m = elim (named_room info) [
  | none ↦ m
  | some old ↦ if str_eq old r then m else leave_room c m
]

unfoldable pub join_room : String → String → ConnectionManager → ConnectionManager
join_room c r m = elim (lookup c m.connections) [
  | none ↦ m
  | some info ↦
      let m' = leave_other_room c r info m in
      record m' {
        connections = insert c (record info { room_id = some r }) m'.connections;
        room_members = insert r (add c (members r m')) m'.room_members;
      }
]

unfoldable pub get_connection_by_player : String → ConnectionManager → Option ConnectionInfo
get_connection_by_player p m = elim (lookup p m.player_connections) [
  | none ↦ none
  | some c ↦ if is_named c then lookup c m.connections else none
]

abbrev pub is_player_connected : String → ConnectionManager → Bool
is_player_connected p m = contains p m.player_connections

-- The players of the connections in a room.
unfoldable pub player_ids_of : List String → ConnectionManager → List String
player_ids_of [] m = []
player_ids_of (c ∷ cs) m = elim (lookup c m.connections) [
  | none ↦ player_ids_of cs m
  | some info ↦ info.player_id ∷ player_ids_of cs m
]

abbrev pub get_room_member_ids : String → ConnectionManager → List String
get_room_member_ids r m = player_ids_of (members r m) m

abbrev is_excluded : ConnectionInfo → Option String → Bool
is_excluded info none = false
is_excluded info (some p) = str_eq info.player_id p

module _ {S F : Type 0} (env : Env S F) where
  -- The close itself can fail, and that is ignored.
  unfoldable pub force_close : String → String → Hub → Hub
  force_close c reason h =
      let closing = contains c h.manager.connections && env.is_open h.queries c in
      record {
        manager = (disconnect c h.manager).1;
        queries = h.queries + 1;
        wire = if closing then h.wire ++ WireEvent.closed c reason ∷ [] else h.wire;
      }

  -- The three ends of a send on a connection that is there.
  unfoldable pub after_send : SendOutcome → String → ConnectionInfo → Response → Hub → Bool × Hub
  after_send sent c info msg h = (
    true,
    record {
      manager = record h.manager {
        connections =
            insert c
              (record info {
                last_activity = env.now h.queries;
                message_count = info.message_count + 1;
              })
              h.manager.connections;
      };
      queries = h.queries + 1;
      wire = h.wire ++ WireEvent.delivered c msg ∷ [];
    },
  )
  after_send timed_out c info msg h = (false, force_close c "slow_consumer" h)
  after_send failed c info msg h =
      (false, record h { manager = (disconnect c h.manager).1; queries = h.queries + 1 })

  unfoldable pub send_to_connection : String → Response → Hub → Bool × Hub
  send_to_connection c msg h = elim (lookup c h.manager.connections) [
    | none ↦ (false, h)
    | some info ↦
        after_send (env.send_json h.queries c msg) c info msg (record h { queries = h.queries + 1 })
  ]

  unfoldable pub send_personal : String → Response → Hub → Bool × Hub
  send_personal p msg h = elim (lookup p h.manager.player_connections) [
    | none ↦ (false, h)
    | some c ↦ send_to_connection c msg h
  ]

  -- The eviction of a connection that the player still has.
  unfoldable pub evict : String → Hub → Hub
  evict p h = elim (lookup p h.manager.player_connections) [
    | none ↦ h
    | some c ↦
        if is_named c && contains c h.manager.connections
        then force_close c "duplicate_connection" h
        else h
  ]

  unfoldable pub register : String → String → Hub → Hub
  register p c h = record {
    manager = record h.manager {
      connections =
          insert c
            (record {
              player_id = p;
              connection_id = c;
              room_id = none;
              connected_at = env.now h.queries;
              last_activity = env.now (h.queries + 1);
              message_count = 0;
            })
            h.manager.connections;
      player_connections = insert p c h.manager.player_connections;
    };
    queries = h.queries + 2;
    wire = h.wire ++ WireEvent.accepted c ∷ [];
  }

  unfoldable pub connect : String → String → Hub → Hub
  connect p c h = register p c (evict p h)

  -- The loop of `broadcast_to_room` over a snapshot of the members; the sends, which the code
  -- gathers, run in order.
  unfoldable pub broadcast_to : List String → Response → Option String → Hub → ℕ × Hub
  broadcast_to [] msg excluded h = (0, h)
  broadcast_to (c ∷ cs) msg excluded h = elim (lookup c h.manager.connections) [
    | none ↦ broadcast_to cs msg excluded h
    | some info ↦
        let skip = broadcast_to cs msg excluded h in
        let step = send_to_connection c msg h in
        let rest = broadcast_to cs msg excluded step.1 in
        if is_excluded info excluded then skip else ((if step.0 then 1 else 0) + rest.0, rest.1)
  ]

  unfoldable pub broadcast_to_room : String → Response → Option String → Hub → ℕ × Hub
  broadcast_to_room r msg excluded h = broadcast_to (members r h.manager) msg excluded h

  -- `close_all`
  unfoldable pub close_each : List String → Hub → Hub
  close_each [] h = h
  close_each (c ∷ cs) h = close_each cs (force_close c "server_shutdown" h)

  unfoldable pub close_all : Hub → Hub
  close_all h = close_each (map (λ e. e.0) h.manager.connections) h
