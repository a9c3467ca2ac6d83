-- ===== src/Examples/Services.antt =====
-- Runs of the theorems on the endpoint, the matchmaking round and the rate limiter.
use game_backend.RateLimit.Requests.{Request, limited, is_exempt, client_of}
use game_backend.RateLimit.Requests
use game_backend.RateLimit.Requests.{dispatch_iff}
use game_backend.Base.{
  ◌∷◌, ◌++◌, [], ◌<◌, ◌≡◌, ◌≢◌, ◌↔◌, refl, String, true, false, Option, none, some, arith, str_eq,
  str_eq_iff, lookup, Json, str, obj, field, end,
}
use game_backend.Env.Laws.{above}
use game_backend.Schemas.{match_cancelled}
use game_backend.World.{World, PubSubMessage}
use game_backend.PubSub.{Registry, Handler, matching, dispatch}
use game_backend.PubSub.Dispatch.{dispatch_again}
use game_backend.RateLimit.{check_rate_limit}
use game_backend.RateLimit.Window.{recent, check_rate_limit_iff}
use game_backend.Presence.Invariant.{IsSound}
use game_backend.Matchmaking.{match_round}
use game_backend.Gateway.{open_connection, on_message, handle_disconnect}
use game_backend.Gateway.Visits.{open_connection-IsSound}
use game_backend.Gateway.Server.{opens, receives, closes, matches, begun, after, Serves-IsSound}
use game_backend.Examples.Store.{Store, redis-laws}
use game_backend.Examples.Outside.{outside, empty_store, empty_world, ann, room, room_named}
use game_backend.Examples.Runs.{empty_world-IsSound}

abbrev first : String
first = "c1"

first_named : first ≢ ""
unfolding str_eq
first_named e = ground (arith, e, str_eq_iff first "")

first_new : lookup first empty_world.hub.manager.connections ≡ none
unfolding lookup
first_new = refl

abbrev opened : World Store
opened = (open_connection outside ann first empty_world).1

opened-IsSound : IsSound opened
opened-IsSound =
    open_connection-IsSound outside ann first empty_world first_new first_named empty_world-IsSound

abbrev searching : Option Json
searching = some (obj (field "type" (str "find_match") end))

Serves-IsSound_example :
    IsSound
      (handle_disconnect outside ann first
        (match_round outside true room true (on_message outside ann searching opened).1).1).1
Serves-IsSound_example = Serves-IsSound outside redis-laws empty_world-IsSound (
    after
      (after (after (after begun (opens ann first first_new first_named)) (receives ann searching))
        (matches true room true room_named))
      (closes ann first))

check_rate_limit_iff_example :
    ((check_rate_limit outside "ws:ann" 10 1 7 "request" empty_store).0 ≡ true)
    ↔ (recent outside redis-laws "ws:ann" 1 7 empty_store < 10)
unfolding above lookup
check_rate_limit_iff_example =
    check_rate_limit_iff outside redis-laws "ws:ann" 10 1 7 "request" empty_store refl

abbrev envelope : PubSubMessage
envelope = record {
  event = "match_found";
  room_id = room;
  sender_instance_id = "two";
  payload = match_cancelled;
  timestamp = 3;
}

abbrev registry : Registry Handler
registry = record {
  handlers = ("ch:room:r", Handler.room_message ∷ []) ∷ [];
  pattern_handlers =
      ("ch:player:*", Handler.player_message ∷ []) ∷ ("ch:room:*", Handler.room_message ∷ []) ∷ [];
}

dispatch_again_example :
    (dispatch "ch:room:r" (dispatch "ch:room:r" registry).1).0
    ≡ (dispatch "ch:room:r" registry).0 ++ matching "ch:room:r" registry.pattern_handlers
unfolding lookup str_eq
dispatch_again_example = dispatch_again "ch:room:r" registry (Handler.room_message ∷ []) refl

abbrev polled : Request
polled = record { upgrade = none; path = "/api/health"; client_host = some "10.0.0.1" }

dispatch_iff_example :
    ((Requests.dispatch outside polled 7 "request" (some empty_store)).0 ≡ limited) ↔ (
      (is_exempt polled ≡ false)
      × ¬ (recent outside redis-laws (client_of polled) 60 7 empty_store < 1))
unfolding above lookup
dispatch_iff_example = dispatch_iff outside redis-laws polled 7 "request" empty_store refl
