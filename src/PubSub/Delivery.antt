-- ===== src/PubSub/Delivery.antt =====
-- What messages from other instances do to a sound instance (app/core/redis_pubsub.py and
-- app/dependencies.py).
use game_backend.Base.{
  sym, subst, inl, inr, String, none, List, [], ◌∷◌, str_eq, Option-cases, Bool-cases,
}
use game_backend.Env.{Env}
use game_backend.Connections.{is_player_connected, broadcast_to_room, members}
use game_backend.Connections.Traffic.{broadcast_to-IsConsistent}
use game_backend.World.{World, PubSubMessage}
use game_backend.World.Frames.{tell-Talks}
use game_backend.Presence.Invariant.{AllPlayable, IsSound}
use game_backend.PubSub.{
  Registry, Handler, third_part, dispatch, handle_player_message, handle_room_message, run_handlers,
  on_published,
}

module _ {S F : Type 0} (env : Env S F) (channel : String) (message : PubSubMessage) where
  handle_player_message-IsSound :
      (w : World S) → IsSound w → IsSound (handle_player_message env channel message w)
  unfolding handle_player_message
  handle_player_message-IsSound w s = elim (Option-cases (third_part channel)) [
    | inl short ↦ rw (short, handle_player_message) s
    | inr (pid, named) ↦ elim (Bool-cases (is_player_connected pid w.hub.manager)) [
      | inr away ↦ rw (named, handle_player_message) (rw away s)
      | inl here ↦
          rw (named, handle_player_message)
            (rw here (
              let t = tell-Talks env pid message.payload w in
              record {
                games = subst AllPlayable (sym t.games) s.games;
                registries = t.consistent s.registries;
              }))
    ]
  ]

  handle_room_message-IsSound :
      (w : World S) → IsSound w → IsSound (handle_room_message env channel message w)
  unfolding handle_room_message broadcast_to_room
  handle_room_message-IsSound w s = elim (Option-cases (third_part channel)) [
    | inl short ↦ rw (short, handle_room_message) s
    | inr (room_id, named) ↦
        rw (named, handle_room_message)
          (record {
            games = s.games;
            registries =
                broadcast_to-IsConsistent env (members room_id w.hub.manager) message.payload none
                  w.hub s.registries;
          })
  ]

  run_handlers-IsSound :
      (hs : List Handler) (w : World S)
      → IsSound w
      → IsSound (run_handlers env hs channel message w)
  unfolding run_handlers
  run_handlers-IsSound [] w s = s
  run_handlers-IsSound (Handler.player_message ∷ hs) w s =
      run_handlers-IsSound hs _ (handle_player_message-IsSound w s)
  run_handlers-IsSound (Handler.room_message ∷ hs) w s =
      run_handlers-IsSound hs _ (handle_room_message-IsSound w s)

  -- A message from another instance, on any channel and with any registries of handlers, keeps an
  -- instance sound.
  pub on_published-IsSound :
      (r : Registry Handler) (w : World S)
      → IsSound w
      → IsSound (on_published env channel message r w).1
  unfolding on_published
  on_published-IsSound r w s =
      elim (Bool-cases (str_eq message.sender_instance_id env.settings.instance_id)) [
        | inl own ↦ rw (own, on_published) s
        | inr foreign ↦ rw (foreign, on_published) (run_handlers-IsSound (dispatch channel r).0 w s)
      ]
