-- ===== src/Connections/Traffic.antt =====
-- Sends, evictions and new connections (`connect`, `send_personal`, `broadcast_to_room` and
-- `close_all` of app/core/ws_manager.py) keep the registries in agreement.
use game_backend.Base.{
  ℕ, ◌+◌, ◌≡◌, inl, inr, String, true, Option, none, some, List, [], ◌∷◌, arith, str_eq, str_eq_iff,
  str_eq_refl, is_named, is_named_iff, lookup, insert, lookup-insert, Bool-cases, Option-cases,
  if◌then◌else◌,
}
use game_backend.Schemas.{Response}
use game_backend.Env.{Env, SendOutcome, sent, timed_out, failed}
use game_backend.Connections.{register, connect}
use game_backend.Base.{◌≢◌, lookup-insert_self}
use game_backend.Connections.{
  ConnectionInfo, ConnectionManager, Hub, force_close, after_send, send_to_connection,
  send_personal, evict, broadcast_to, is_excluded,
}
use game_backend.Connections.Consistency.{
  IsConsistent, disconnect-IsConsistent, disconnect_connections, disconnect_players,
}

-- Only times and counts of a connection change.
touch-IsConsistent :
    (m : ConnectionManager) (c : String) (i : ConnectionInfo) (last count : ℕ)
    → IsConsistent m
    → lookup c m.connections ≡ some i
    → IsConsistent (record m {
      connections =
          insert c (record i { last_activity = last; message_count = count }) m.connections;
    })
touch-IsConsistent m c i last count v h =
    let i' : ConnectionInfo = record i { last_activity = last; message_count = count } in
    let touched = λ (d : String). lookup-insert c d i' m.connections in
    record {
      indexed = λ d j e. ground (arith, touched d, str_eq_iff d c, v.indexed c i h, v.indexed d j);
      backed = λ p d e.
          let (j, found, owner) = v.backed p d e in
          (
            if str_eq d c then i' else j,
            ground (arith, found, h, touched d, str_eq_iff d c),
            ground (arith, found, h, owner, str_eq_iff d c),
          );
      seated = λ d s j e room.
          ground (arith, touched d, str_eq_iff d c, v.seated c s i h, v.seated d s j);
      occupied = λ d s e.
          let (j, found, room) = v.occupied d s e in
          (
            if str_eq d c then i' else j,
            ground (arith, found, h, touched d, str_eq_iff d c),
            ground (arith, found, h, room, str_eq_iff d c),
          );
      named = λ j e. ground (arith, e, touched "", str_eq_iff "" c, h, v.named j, v.named i);
    }

module _ {S F : Type 0} (env : Env S F) where
  force_close-IsConsistent :
      (c reason : String) (h : Hub)
      → IsConsistent h.manager
      → IsConsistent (force_close env c reason h).manager
  unfolding force_close
  force_close-IsConsistent c reason h v = disconnect-IsConsistent h.manager v c

  after_send-IsConsistent :
      (o : SendOutcome) (c : String) (i : ConnectionInfo) (msg : Response) (h : Hub)
      → IsConsistent h.manager
      → lookup c h.manager.connections ≡ some i
      → IsConsistent (after_send env o c i msg h).1.manager
  unfolding after_send
  after_send-IsConsistent sent c i msg h v e = touch-IsConsistent h.manager c i _ _ v e
  after_send-IsConsistent timed_out c i msg h v e = force_close-IsConsistent c "slow_consumer" h v
  after_send-IsConsistent failed c i msg h v e = disconnect-IsConsistent h.manager v c

  send_to_connection-IsConsistent :
      (c : String) (msg : Response) (h : Hub)
      → IsConsistent h.manager
      → IsConsistent (send_to_connection env c msg h).1.manager
  unfolding send_to_connection
  send_to_connection-IsConsistent c msg h v = elim (Option-cases (lookup c h.manager.connections)) [
    | inl absent ↦ rw (absent, send_to_connection) v
    | inr (i, e) ↦
        rw (e, send_to_connection)
          (after_send-IsConsistent _ c i msg (record h { queries = h.queries + 1 }) v e)
  ]

  -- However a send ends, the registries still agree.
  pub send_personal-IsConsistent :
      (p : String) (msg : Response) (h : Hub)
      → IsConsistent h.manager
      → IsConsistent (send_personal env p msg h).1.manager
  unfolding send_personal
  send_personal-IsConsistent p msg h v =
      elim (Option-cases (lookup p h.manager.player_connections)) [
        | inl absent ↦ rw (absent, send_personal) v
        | inr (c, e) ↦ rw (e, send_personal) (send_to_connection-IsConsistent c msg h v)
      ]

  -- If the registries agree, they agree after a broadcast to any list of connections, though
  -- those that were slow or broken were dropped on the way.
  pub broadcast_to-IsConsistent :
      (cs : List String) (msg : Response) (excluded : Option String) (h : Hub)
      → IsConsistent h.manager
      → IsConsistent (broadcast_to env cs msg excluded h).1.manager
  unfolding broadcast_to
  broadcast_to-IsConsistent [] msg excluded h v = v
  broadcast_to-IsConsistent (c ∷ cs) msg excluded h v =
      elim (Option-cases (lookup c h.manager.connections)) [
        | inl absent ↦ rw (absent, broadcast_to) (broadcast_to-IsConsistent cs msg excluded h v)
        | inr (i, e) ↦ elim (Bool-cases (is_excluded i excluded)) [
          | inl skip ↦
              rw (e, broadcast_to) (rw (skip) (broadcast_to-IsConsistent cs msg excluded h v))
          | inr send ↦
              rw (e, broadcast_to)
                (rw (send) (
                  broadcast_to-IsConsistent cs msg excluded (send_to_connection env c msg h).1
                    (send_to_connection-IsConsistent c msg h v)))
        ]
      ]

  -- After the eviction the player has no connection.
  pub evict-IsConsistent :
      (p : String) (h : Hub)
      → IsConsistent h.manager
      → IsConsistent (evict env p h).manager
        × (lookup p (evict env p h).manager.player_connections ≡ none)
        × ((c : String)
            → lookup c h.manager.connections ≡ none
            → lookup c (evict env p h).manager.connections ≡ none)
  unfolding evict force_close
  evict-IsConsistent p h v = elim (Option-cases (lookup p h.manager.player_connections)) [
    | inl absent ↦ rw (absent, evict) (v, absent, λ c e. e)
    | inr (c, e) ↦
        let (i, found, owner) = v.backed p c e in
        let n : is_named c ≡ true =
          (is_named_iff c).1 (λ blank. v.named i (ground (arith, blank, found))) in
        rw (e, evict)
          (rw (n, found)
            (
              disconnect-IsConsistent h.manager v c,
              ground (arith, owner, str_eq_refl p, disconnect_players h.manager v c i found p),
              λ d fresh. ground (arith, fresh, disconnect_connections h.manager v c i found d),
            ))
  ]

  register-IsConsistent :
      (p c : String) (h : Hub)
      → IsConsistent h.manager
      → lookup p h.manager.player_connections ≡ none
      → lookup c h.manager.connections ≡ none
      → c ≢ ""
      → IsConsistent (register env p c h).manager
  unfolding register
  register-IsConsistent p c h v absent fresh c_named =
      let new : ConnectionInfo = record {
        player_id = p;
        connection_id = c;
        room_id = none;
        connected_at = env.now h.queries;
        last_activity = env.now (h.queries + 1);
        message_count = 0;
      } in
      let conns = λ (d : String). lookup-insert c d new h.manager.connections in
      let players = λ (q : String). lookup-insert p q c h.manager.player_connections in
      record {
        indexed = λ d j e. ground (
          arith,
          conns d,
          players j.player_id,
          str_eq_iff d c,
          str_eq_iff j.player_id p,
          v.indexed d j,
        );
        backed = λ q d e. elim (Bool-cases (str_eq q p)) [
          | inl here ↦ (
            new,
            ground (arith, here, e, players q, conns d, str_eq_iff d c),
            ground (arith, here, str_eq_iff q p),
          )
          | inr away ↦
              let (j, found, owner) = v.backed q d (ground (arith, away, e, players q)) in
              (j, ground (arith, found, fresh, conns d, str_eq_iff d c), owner)
        ];
        seated = λ d r j e room. ground (arith, conns d, str_eq_iff d c, v.seated d r j);
        occupied = λ d r e.
            let (j, found, room) = v.occupied d r e in
            (j, ground (arith, found, fresh, conns d, str_eq_iff d c), room);
        named = λ j e. ground (arith, e, conns "", str_eq_iff "" c, c_named, v.named j);
      }

  -- If the registries agree, then after a connection with a new, non-empty identifier they agree
  -- again, also where the player's old connection was evicted for it.
  pub connect-IsConsistent :
      (p c : String) (h : Hub)
      → IsConsistent h.manager
      → lookup c h.manager.connections ≡ none
      → c ≢ ""
      → IsConsistent (connect env p c h).manager
  unfolding connect
  connect-IsConsistent p c h v fresh c_named =
      let (v', absent, kept) = evict-IsConsistent p h v in
      register-IsConsistent p c (evict env p h) v' absent (kept c fresh) c_named

  connected_player :
      (p c : String) (h : Hub) → lookup p (connect env p c h).manager.player_connections ≡ some c
  unfolding connect register
  connected_player p c h = lookup-insert_self p c (evict env p h).manager.player_connections

  -- If the registries agree, then after a connection with a new, non-empty identifier, every
  -- registered connection of that player is the new one.
  pub connect_only :
      (p c d : String) (i : ConnectionInfo) (h : Hub)
      → IsConsistent h.manager
      → lookup c h.manager.connections ≡ none
      → c ≢ ""
      → lookup d (connect env p c h).manager.connections ≡ some i
      → i.player_id ≡ p
      → d ≡ c
  connect_only p c d i h v fresh c_named found owner =
      let v' = connect-IsConsistent p c h v fresh c_named in
      ground (arith, owner, v'.indexed d i found, connected_player p c h)
