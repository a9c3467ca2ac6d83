-- ===== src/Examples/Sockets.antt =====
-- Runs of the theorems on the connection manager.
use game_backend.Connections.View.{view, connects, disconnects, joins, leaves}
use game_backend.Connections.Refinement.{all_made, all_specified, all_made-Implements, Implements}
use game_backend.Base.{
  ◌≡◌, ◌≢◌, refl, String, none, some, [], ◌∷◌, arith, str_eq, str_eq_iff, lookup, insert, erase,
  is_named, mem,
}
use game_backend.Schemas.{match_cancelled}
use game_backend.Connections.{
  ConnectionInfo, Hub, members, disconnect, join_room, evict, force_close, forget_player, register,
  connect, broadcast_to,
}
use game_backend.Connections.Consistency.{IsConsistent}
use game_backend.Connections.Rooms.{mem-join_room}
use game_backend.Connections.Traffic.{broadcast_to-IsConsistent, connect-IsConsistent, connect_only}
use game_backend.Examples.Outside.{outside, empty_hub, ann, bob, room, room_named}

empty_hub-IsConsistent : IsConsistent empty_hub.manager
unfolding lookup mem
empty_hub-IsConsistent = record {
  indexed = λ c i e. absurd (ground (arith, e));
  backed = λ p c e. absurd (ground (arith, e));
  seated = λ c r i e k. absurd (ground (arith, e));
  occupied = λ c r e. absurd (ground (arith, e));
  named = λ i e. absurd (ground (arith, e));
}

abbrev first : String
first = "c1"

abbrev second : String
second = "c2"

first_named : first ≢ ""
unfolding str_eq
first_named e = ground (arith, e, str_eq_iff first "")

second_named : second ≢ ""
unfolding str_eq
second_named e = ground (arith, e, str_eq_iff second "")

abbrev one_hub : Hub
one_hub = connect outside ann first empty_hub

one_hub-IsConsistent : IsConsistent one_hub.manager
one_hub-IsConsistent =
    connect-IsConsistent outside ann first empty_hub empty_hub-IsConsistent (unfold lookup in refl)
      first_named

second_new : lookup second one_hub.manager.connections ≡ none
unfolding connect register evict lookup insert str_eq
second_new = refl

connect-IsConsistent_example : IsConsistent (connect outside ann second one_hub).manager
connect-IsConsistent_example =
    connect-IsConsistent outside ann second one_hub one_hub-IsConsistent second_new second_named

abbrev ann_info : ConnectionInfo
ann_info = record {
  player_id = ann;
  connection_id = second;
  room_id = none;
  connected_at = 3;
  last_activity = 4;
  message_count = 0;
}

abbrev first_info : ConnectionInfo
first_info = record {
  player_id = ann;
  connection_id = first;
  room_id = none;
  connected_at = 0;
  last_activity = 1;
  message_count = 0;
}

first_found : lookup first one_hub.manager.connections ≡ some first_info
unfolding connect register evict lookup insert str_eq
first_found = refl

ann_info_found :
    lookup second (connect outside ann second one_hub).manager.connections ≡ some ann_info
unfolding connect register evict force_close forget_player erase is_named lookup insert str_eq
    disconnect
ann_info_found = refl

connect_only_example : second ≡ second
connect_only_example =
    connect_only outside ann second second ann_info one_hub one_hub-IsConsistent second_new
      second_named ann_info_found refl

mem-join_room_example :
    mem first (members room (join_room first room one_hub.manager)) ≡ str_eq room room
mem-join_room_example =
    mem-join_room one_hub.manager one_hub-IsConsistent first first_info room room first_found
      room_named

broadcast_to-IsConsistent_example :
    IsConsistent
      (broadcast_to outside (first ∷ second ∷ []) match_cancelled (some bob) one_hub).1.manager
broadcast_to-IsConsistent_example =
    broadcast_to-IsConsistent outside (first ∷ second ∷ []) match_cancelled (some bob) one_hub
      one_hub-IsConsistent

all_made-Implements_example :
    Implements
      (all_made outside
        (connects ann first ∷ joins first room ∷ leaves first ∷ disconnects first ∷ [])
        empty_hub).manager
      (all_specified outside
        (connects ann first ∷ joins first room ∷ leaves first ∷ disconnects first ∷ [])
        (view empty_hub.manager))
all_made-Implements_example =
    all_made-Implements outside
      (connects ann first ∷ joins first room ∷ leaves first ∷ disconnects first ∷ []) empty_hub
      empty_hub-IsConsistent ((unfold lookup in refl, first_named), (room_named, (tt, (tt, tt))))
