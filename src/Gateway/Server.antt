-- ===== src/Gateway/Server.antt =====
-- Every state that a server instance reaches through its endpoint, its matchmaking loop and its
-- timers (app/api/ws_routes.py, app/core/matchmaking.py and app/core/game_engine.py).
use game_backend.Base.{◌≡◌, ◌≢◌, String, Bool, Option, none, List, lookup, Json}
use game_backend.Env.{Env}
use game_backend.Env.Laws.{RedisLaws}
use game_backend.World.{World, PubSubMessage}
use game_backend.Play.{finish_cleanup}
use game_backend.Presence.{disconnect_timer_fires}
use game_backend.Presence.Invariant.{IsSound, disconnect_timer_fires-IsSound}
use game_backend.Matchmaking.{match_round}
use game_backend.Matchmaking.Rounds.{match_round-IsSound}
use game_backend.PubSub.{Registry, Handler, on_published}
use game_backend.PubSub.Delivery.{on_published-IsSound}
use game_backend.Gateway.{open_connection, on_message, handle_disconnect}
use game_backend.Gateway.Messages.{on_message-IsSound}
use game_backend.Gateway.Visits.{open_connection-IsSound, handle_disconnect-IsSound}

module _ {S F : Type 0} (env : Env S F) where
  -- What can happen to a server. A new connection has a new identifier; identifiers that the server
  -- makes are not empty.
  pub data Event (w : World S) : World S → Type 0 where
    opens :
        (pid c : String)
        → lookup c w.hub.manager.connections ≡ none
        → c ≢ ""
        → Event w (open_connection env pid c w).1
    receives : (pid : String) (message : Option Json) → Event w (on_message env pid message w).1
    closes : (pid c : String) → Event w (handle_disconnect env pid c w).1
    matches :
        (loaded : Bool) (room_id : String) (coin : Bool)
        → room_id ≢ ""
        → Event w (match_round env loaded room_id coin w).1
    expires : (room_id pid : String) → Event w (disconnect_timer_fires env room_id pid w).1
    hears :
        (channel : String) (message : PubSubMessage) (r : Registry Handler)
        → Event w (on_published env channel message r w).1
    cleans :
        (room_id : String) (pids : List String)
        → Event w (record w { store = finish_cleanup env room_id pids w.store })

  pub data Serves (w : World S) : World S → Type 0 where
    begun : Serves w w
    after : {u v : World S} → Serves w u → Event u v → Serves w v

  module _ (laws : RedisLaws env.redis) where
    Event-IsSound : {u v : World S} → Event u v → IsSound u → IsSound v
    Event-IsSound {u} (opens pid c fresh named) s =
        open_connection-IsSound env pid c u fresh named s
    Event-IsSound {u} (receives pid message) s = on_message-IsSound env pid message u s
    Event-IsSound {u} (closes pid c) s = handle_disconnect-IsSound env pid c u s
    Event-IsSound {u} (matches loaded room_id coin named) s =
        match_round-IsSound env laws loaded room_id coin u named s
    Event-IsSound {u} (expires room_id pid) s = disconnect_timer_fires-IsSound env room_id pid u s
    Event-IsSound {u} (hears channel message r) s = on_published-IsSound env channel message r u s
    Event-IsSound (cleans room_id pids) s = record { games = s.games; registries = s.registries }

    -- From a sound instance, every sequence of events of a server (clients that connect under a
    -- new identifier, messages of any content from any player, messages from other instances,
    -- connections that close, rounds of matchmaking, grace periods that end, clean-ups) reaches
    -- only sound instances, whatever the sockets, the clock and the store answer, for a Redis
    -- that keeps its laws: each game held for a room is valid, has an empty cell left and is in
    -- progress with nobody recorded as disconnected or paused with one player recorded, and the
    -- connection registries agree.
    pub Serves-IsSound : {u v : World S} → IsSound u → Serves u v → IsSound v
    Serves-IsSound s begun = s
    Serves-IsSound s (after r e) = Event-IsSound e (Serves-IsSound s r)
