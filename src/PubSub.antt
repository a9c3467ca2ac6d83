-- ===== src/PubSub.antt =====
-- Messages between instances: the handler registries and the dispatch of
-- app/core/redis_pubsub.py, and the two handlers of app/dependencies.py. Redis delivers a message
-- as an event of its own; what `orjson` cannot read never gets here.
pub mod Dispatch
pub mod Delivery
use mathlib.Core.Option
use Prim.Native.String.{len, slice, find}
use text.Mathlib.Text.{find?, starts_with}
use game_backend.Base.{
  ℕ, ◌+◌, String, Option, none, some, List, [], ◌∷◌, ◌++◌, str_eq, Dict, lookup, insert,
  if◌then◌else◌,
}
use game_backend.Env.{Env}
use game_backend.Connections.{is_player_connected, broadcast_to_room}
use game_backend.World.{World, PubSubMessage, tell}

pub record Registry (H : Type 0) : Type 0 where
  pub handlers : Dict (List H)
  pub pattern_handlers : Dict (List H)

-- `pattern.split("*")[0]`: without a star, `find` answers a place past the end.
unfoldable pub prefix_of : String → String
prefix_of pattern = slice pattern 0 (find pattern "*")

module _ {H : Type 0} where
  abbrev pub registered : String → Dict (List H) → List H
  registered key d = Option.get_or (lookup key d) []

  -- The handlers of the patterns whose prefix the channel has.
  unfoldable pub matching : String → Dict (List H) → List H
  matching channel [] = []
  matching channel ((pattern, hs) ∷ d) =
      if starts_with channel (prefix_of pattern)
      then hs ++ matching channel d
      else matching channel d

  unfoldable pub register_handler : String → H → Registry H → Registry H
  register_handler channel h r = record r {
    handlers = insert channel (registered channel r.handlers ++ h ∷ []) r.handlers;
  }

  unfoldable pub register_pattern_handler : String → H → Registry H → Registry H
  register_pattern_handler pattern h r = record r {
    pattern_handlers =
        insert pattern (registered pattern r.pattern_handlers ++ h ∷ []) r.pattern_handlers;
  }

  -- The handlers that `_dispatch` calls, and the registries after it: `extend` writes to the list
  -- that `get` found, and to a new one where it found none.
  unfoldable pub dispatch : String → Registry H → List H × Registry H
  dispatch channel r =
      let called = registered channel r.handlers ++ matching channel r.pattern_handlers in
      elim (lookup channel r.handlers) [
        | none ↦ (called, r)
        | some hs ↦ (called, record r { handlers = insert channel called r.handlers })
      ]

-- `channel.split(":")[2]`, where there are three parts.
abbrev rest_after : String → ℕ → String
rest_after s i = slice s (i + 1) (len s)

abbrev first_part : String → String
first_part s = elim (find? s ":") [ none ↦ s | some i ↦ slice s 0 i ]

unfoldable pub third_part : String → Option String
third_part s = elim (find? s ":") [
  | none ↦ none
  | some i ↦ elim (find? (rest_after s i) ":") [
    | none ↦ none
    | some j ↦ some (first_part (rest_after (rest_after s i) j))
  ]
]

-- The handlers that app/dependencies.py registers.
pub data Handler : Type 0 where
  player_message room_message : Handler

module _ {S F : Type 0} (env : Env S F) where
  unfoldable pub handle_player_message : String → PubSubMessage → World S → World S
  handle_player_message channel message w = elim (third_part channel) [
    | none ↦ w
    | some pid ↦ if is_player_connected pid w.hub.manager then tell env pid message.payload w else w
  ]

  unfoldable pub handle_room_message : String → PubSubMessage → World S → World S
  handle_room_message channel message w = elim (third_part channel) [
    | none ↦ w
    | some room_id ↦ record w { hub = (broadcast_to_room env room_id message.payload none w.hub).1 }
  ]

  abbrev pub run_handler : Handler → String → PubSubMessage → World S → World S
  run_handler Handler.player_message = handle_player_message
  run_handler Handler.room_message = handle_room_message

  unfoldable pub run_handlers : List Handler → String → PubSubMessage → World S → World S
  run_handlers [] channel message w = w
  run_handlers (h ∷ hs) channel message w =
      run_handlers hs channel message (run_handler h channel message w)

  -- A message that the listener got: one of this instance is skipped.
  unfoldable pub on_published :
      String → PubSubMessage → Registry Handler → World S → Registry Handler × World S
  on_published channel message r w =
      if str_eq message.sender_instance_id env.settings.instance_id
      then (r, w)
      else ((dispatch channel r).1, run_handlers (dispatch channel r).0 channel message w)
