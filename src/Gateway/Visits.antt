-- ===== src/Gateway/Visits.antt =====
-- Connections that open and close at the endpoint (app/api/ws_routes.py).
use game_backend.Base.{
  ◌≡◌, ◌≢◌, refl, subst, inl, inr, String, Option, none, some, arith, is_named_iff, lookup, Action,
  modify, Option-cases, Bool-cases, Result-cases,
}
use game_backend.Schemas.{connected}
use game_backend.Env.{Env}
use game_backend.Connections.{connect, disconnect}
use game_backend.Connections.Consistency.{disconnect-IsConsistent}
use game_backend.Connections.Traffic.{connect-IsConsistent}
use game_backend.Sessions.{RedisSession, get_session, attempt_reconnect, mark_disconnected}
use game_backend.World.{World, tell}
use game_backend.Presence.{handle_player_disconnect, handle_player_reconnect}
use game_backend.Presence.Invariant.{
  IsSound, handle_player_disconnect-IsSound, handle_player_reconnect-IsSound,
}
use game_backend.Matchmaking.{dequeue_player}
use game_backend.Gateway.{
  room_of, resume, start_session, open_connection, ask_store, in_room, is_away, handle_disconnect,
}
use game_backend.Gateway.Messages.{stored-IsSound, tell-IsSound, dequeue_player-IsSound}

room_of_named : (x : Option RedisSession) (r : String) → room_of x ≡ some r → r ≢ ""
room_of_named none r h = absurd (ground (arith, h))
room_of_named (some x) r h = elim (Option-cases x.room_id) [
  | inl out ↦ absurd (ground (arith, h, out))
  | inr (q, inside) ↦ ground (arith, h, inside, is_named_iff q, is_named_iff r)
]

module _ {S F : Type 0} (env : Env S F) where
  -- What follows the read of a session's room.
  in_room-IsSound :
      (f : String → Action (World S) (Unit {0})) (x : Option RedisSession) (w : World S)
      → ((r : String) → r ≢ "" → IsSound (f r w).1)
      → IsSound w
      → IsSound (in_room (room_of x) f w).1
  in_room-IsSound f x w inside s = read (room_of x) refl
    where
      read : (o : Option String) → room_of x ≡ o → IsSound (in_room o f w).1
      read none e = s
      read (some r) e = inside r (room_of_named x r e)

  -- The clean-up of a closed connection keeps an instance sound, for any player and connection.
  pub handle_disconnect-IsSound :
      (pid c : String) (w : World S) → IsSound w → IsSound (handle_disconnect env pid c w).1
  handle_disconnect-IsSound pid c w s =
      let w1 : World S = record w {
        hub = record w.hub { manager = (disconnect c w.hub.manager).1 };
      } in
      let s1 : IsSound w1 = record {
        games = s.games;
        registries = disconnect-IsConsistent w.hub.manager s.registries c;
      } in
      let w2 : World S = (dequeue_player env pid w1).1 in
      let s2 = dequeue_player-IsSound env pid w1 s1 in
      let marked = ask_store env (mark_disconnected env pid) w2 in
      let s3 : IsSound marked.1 = stored-IsSound w2 _ _ s2 in
      elim (Result-cases marked.0) [
        | inl (e, bad) ↦
            subst IsSound {x = marked.1} (unfold handle_disconnect in ground (arith, bad)) s3
        | inr (x, good) ↦
            subst IsSound
              {x = (in_room (room_of x) (λ r. modify (handle_player_disconnect env r pid))
                marked.1).1}
              (unfold handle_disconnect in ground (arith, good))
              (in_room-IsSound _ x marked.1
                (λ r named. handle_player_disconnect-IsSound env r pid marked.1 s3) s3)
      ]

  resume-IsSound : (pid c : String) (w : World S) → IsSound w → IsSound (resume env pid c w).1
  resume-IsSound pid c w s =
      let asked = ask_store env (attempt_reconnect env pid c) w in
      let s1 : IsSound asked.1 = stored-IsSound w _ _ s in
      elim (Result-cases asked.0) [
        | inl (e, bad) ↦ subst IsSound {x = asked.1} (unfold resume in ground (arith, bad)) s1
        | inr (x, good) ↦
            subst IsSound
              {x = (in_room (room_of x) (λ r. handle_player_reconnect env r pid) asked.1).1}
              (unfold resume in ground (arith, good))
              (in_room-IsSound _ x asked.1
                (λ r named. handle_player_reconnect-IsSound env r pid asked.1 named s1) s1)
      ]

  start_session-IsSound :
      (pid c : String) (w : World S) → IsSound w → IsSound (start_session env pid c w)
  unfolding start_session
  start_session-IsSound pid c w s = stored-IsSound w _ _ s

  -- A client that connects under a new, non-empty identifier leaves a sound instance sound,
  -- whether its session is new, resumed or broken.
  pub open_connection-IsSound :
      (pid c : String) (w : World S)
      → lookup c w.hub.manager.connections ≡ none
      → c ≢ ""
      → IsSound w
      → IsSound (open_connection env pid c w).1
  open_connection-IsSound pid c w fresh named s =
      let w1 : World S = record w { hub = connect env pid c w.hub } in
      let s1 : IsSound w1 = record {
        games = s.games;
        registries = connect-IsConsistent env pid c w.hub s.registries fresh named;
      } in
      let back = resume env pid c w1 in
      elim (Result-cases (get_session env pid w.store)) [
        | inl (e, bad) ↦ subst IsSound {x = w1} (unfold open_connection in ground (arith, bad)) s1
        | inr (x, good) ↦ elim (Bool-cases (is_away env x)) [
          | inr new ↦
              subst IsSound {x = tell env pid (connected pid c) (start_session env pid c w1)}
                (unfold open_connection in ground (arith, good, new))
                (tell-IsSound env pid _ _ (start_session-IsSound pid c w1 s1))
          | inl away ↦ elim (Result-cases back.0) [
            | inl (e, bad) ↦
                subst IsSound {x = back.1}
                  (unfold open_connection in ground (arith, good, away, bad))
                  (resume-IsSound pid c w1 s1)
            | inr (u, resumed) ↦
                subst IsSound {x = tell env pid (connected pid c) back.1}
                  (unfold open_connection in ground (arith, good, away, resumed))
                  (tell-IsSound env pid _ _ (resume-IsSound pid c w1 s1))
          ]
        ]
      ]
