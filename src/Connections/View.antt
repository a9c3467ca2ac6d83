-- ===== src/Connections/View.antt =====
-- The connection manager seen from outside (app/core/ws_manager.py): where each player sits. The
-- three registries implement one map from players to a connection and its room.
use game_backend.Base.{
  ◌≡◌, ◌≢◌, refl, ◌∙◌, ap, sym, inl, inr, String, true, false, Option, none, some, arith, lookup,
  lookup-insert, lookup-insert_self, lookup-insert_ne, ◌+◌, str_eq, str_eq_iff, is_named,
  is_named_iff, Bool-cases, Option-cases, if◌then◌else◌,
}
use game_backend.Env.{Env}
use game_backend.Connections.{
  ConnectionInfo, ConnectionManager, Hub, connect, disconnect, join_room, leave_room, evict,
  register, force_close,
}
use game_backend.Connections.Consistency.{IsConsistent, disconnect_connections, disconnect_players}
use game_backend.Connections.Rooms.{
  join_connections, join_players_same, leave_connections, leave_players_same,
}
use game_backend.Connections.Traffic.{evict-IsConsistent}

-- A player's connection and the room that it is in.
abbrev pub Seat : Type 0
Seat = String × Option String

abbrev pub seat_at : String → Option ConnectionInfo → Option Seat
seat_at c none = none
seat_at c (some i) = some (c, i.room_id)

abbrev pub seat_of : Option String → ConnectionManager → Option Seat
seat_of none m = none
seat_of (some c) m = seat_at c (lookup c m.connections)

abbrev pub view : ConnectionManager → String → Option Seat
view m p = seat_of (lookup p m.player_connections) m

-- The calls that change the manager.
pub data Call : Type 0 where
  connects : String → String → Call
  disconnects : String → Call
  joins : String → String → Call
  leaves : String → Call

-- Their specification: a player takes a seat, and the others keep theirs; a connection's player
-- loses the seat, or changes its room.
abbrev pub reseat : String → (String → Option Seat) → Option Seat → Option Seat
reseat c f none = none
reseat c f (some (d, r)) = if str_eq d c then f d else some (d, r)

abbrev pub specified : Call → (String → Option Seat) → String → Option Seat
specified (connects p c) f q = if str_eq q p then some (c, none) else f q
specified (disconnects c) f q = reseat c (λ d. none) (f q)
specified (joins c r) f q = reseat c (λ d. some (d, some r)) (f q)
specified (leaves c) f q = reseat c (λ d. some (d, none)) (f q)

module _ (m : ConnectionManager) (v : IsConsistent m) (c : String) where
  -- An unknown connection is nobody's seat.
  reseat_absent :
      lookup c m.connections ≡ none
      → (f : String → Option Seat) (q : String) → reseat c f (view m q) ≡ view m q
  reseat_absent absent f q = elim (Option-cases (lookup q m.player_connections)) [
    | inl out ↦ rw out refl
    | inr (d, seated) ↦
        let (j, hj, own) = v.backed q d seated in
        rw (seated, hj) (ground (arith, hj, absent, str_eq_iff d c))
  ]

  -- A connection without a room has none to leave.
  reseat_out :
      (i : ConnectionInfo)
      → lookup c m.connections ≡ some i
      → i.room_id ≡ none
      → (q : String) → reseat c (λ d. some (d, none)) (view m q) ≡ view m q
  reseat_out i h out q = elim (Option-cases (lookup q m.player_connections)) [
    | inl free ↦ rw free refl
    | inr (d, seated) ↦
        let (j, hj, own) = v.backed q d seated in
        rw (seated, hj) (ground (arith, hj, h, out, str_eq_iff d c))
  ]

  pub disconnect-view :
      (q : String) → view (disconnect c m).1 q ≡ specified (disconnects c) (view m) q
  unfolding disconnect
  disconnect-view q = elim (Option-cases (lookup c m.connections)) [
    | inl absent ↦ rw (absent, disconnect) (sym (reseat_absent absent (λ d. none) q))
    | inr (i, h) ↦ elim (Option-cases (lookup q m.player_connections)) [
      | inl out ↦ ground (arith, out, disconnect_players m v c i h q)
      | inr (d, seated) ↦
          let (j, hj, own) = v.backed q d seated in
          ground (
            arith,
            seated,
            hj,
            own,
            h,
            disconnect_players m v c i h q,
            disconnect_connections m v c i h d,
            str_eq_iff d c,
            str_eq_iff q i.player_id,
            (v.indexed c i h).0,
          )
    ]
  ]

  pub join_room-view :
      (r : String)
      → r ≢ ""
      → (q : String) → view (join_room c r m) q ≡ specified (joins c r) (view m) q
  unfolding join_room
  join_room-view r named q = elim (Option-cases (lookup c m.connections)) [
    | inl absent ↦ rw (absent, join_room) (sym (reseat_absent absent (λ d. some (d, some r)) q))
    | inr (i, h) ↦ elim (Option-cases (lookup q m.player_connections)) [
      | inl out ↦ rw (join_players_same m v c i h r named, out) refl
      | inr (d, seated) ↦
          let (j, hj, own) = v.backed q d seated in
          rw (join_players_same m v c i h r named, seated, join_connections m v c i h r named d, hj)
            (ground (arith, str_eq_iff d c))
    ]
  ]

  pub leave_room-view : (q : String) → view (leave_room c m) q ≡ specified (leaves c) (view m) q
  unfolding leave_room
  leave_room-view q = elim (Option-cases (lookup c m.connections)) [
    | inl absent ↦ rw (absent, leave_room) (sym (reseat_absent absent (λ d. some (d, none)) q))
    | inr (i, h) ↦ elim (Option-cases i.room_id) [
      | inl out ↦ rw (h, leave_room) (rw out (sym (reseat_out i h out q)))
      | inr (r0, inside) ↦ elim (Option-cases (lookup q m.player_connections)) [
        | inl out ↦ rw (leave_players_same m v c i h r0 inside, out) refl
        | inr (d, seated) ↦
            let (j, hj, own) = v.backed q d seated in
            rw
              (
                leave_players_same m v c i h r0 inside,
                seated,
                leave_connections m v c i h r0 inside d,
                hj,
              )
              (ground (arith, str_eq_iff d c))
      ]
    ]
  ]

  -- Another player's seat is at another connection.
  kept :
      (i : ConnectionInfo)
      → lookup c m.connections ≡ some i
      → (q : String) → q ≢ i.player_id
      → reseat c (λ d. none) (view m q) ≡ view m q
  kept i h q away = elim (Option-cases (lookup q m.player_connections)) [
    | inl free ↦ rw free refl
    | inr (d, seated) ↦
        let (j, hj, own) = v.backed q d seated in
        rw (seated, hj) (ground (arith, hj, h, own, away, str_eq_iff d c))
  ]

module _ {S F : Type 0} (env : Env S F) where
  -- The entry of a new connection.
  abbrev fresh_info : String → String → Hub → ConnectionInfo
  fresh_info p c h = record {
    player_id = p;
    connection_id = c;
    room_id = none;
    connected_at = env.now h.queries;
    last_activity = env.now (h.queries + 1);
    message_count = 0;
  }

  unless :
      (q p : String) (a x y : Option Seat)
      → (str_eq q p ≡ false → x ≡ y)
      → (if str_eq q p then a else x) ≡ (if str_eq q p then a else y)
  unless q p a x y h = elim (Bool-cases (str_eq q p)) [ inl e ↦ rw e refl | inr e ↦ rw e (h e) ]

  -- An eviction leaves the other players their seats.
  evict-view :
      (p : String) (h : Hub)
      → IsConsistent h.manager
      → (q : String) → str_eq q p ≡ false
      → view (evict env p h).manager q ≡ view h.manager q
  unfolding evict force_close
  evict-view p h v q away = elim (Option-cases (lookup p h.manager.player_connections)) [
    | inl absent ↦ rw (absent, evict) refl
    | inr (c, e) ↦
        let (i, found, owner) = v.backed p c e in
        let n : is_named c ≡ true =
          (is_named_iff c).1 (λ blank. v.named i (ground (arith, blank, found))) in
        rw (e, evict)
          (rw (n, found)
            (disconnect-view h.manager v c q
              ∙ kept h.manager v c i found q
                  (λ same. ground (arith, same, owner, away, str_eq_iff q p))))
  ]

  register-view :
      (p c : String) (h : Hub)
      → IsConsistent h.manager
      → lookup c h.manager.connections ≡ none
      → (q : String)
      → view (register env p c h).manager q
        ≡ (if str_eq q p then some (c, none) else view h.manager q)
  unfolding register
  register-view p c h v fresh q = elim (Bool-cases (str_eq q p)) [
    | inl same ↦
        rw (lookup-insert p q c h.manager.player_connections, same)
          (rw (lookup-insert_self c (fresh_info p c h) h.manager.connections) refl)
    | inr other ↦ elim (Option-cases (lookup q h.manager.player_connections)) [
      | inl out ↦ rw (lookup-insert p q c h.manager.player_connections, other, out) refl
      | inr (d, seated) ↦
          let (j, hj, own) = v.backed q d seated in
          rw (lookup-insert p q c h.manager.player_connections, other, seated)
            (ap (seat_at d) (
              lookup-insert_ne c d (fresh_info p c h) h.manager.connections
                (λ e. ground (arith, e, hj, fresh))))
    ]
  ]

  pub connect-view :
      (p c : String) (h : Hub)
      → IsConsistent h.manager
      → lookup c h.manager.connections ≡ none
      → c ≢ ""
      → (q : String)
      → view (connect env p c h).manager q ≡ specified (connects p c) (view h.manager) q
  unfolding connect
  connect-view p c h v fresh named q =
      let (v', absent, kept) = evict-IsConsistent env p h v in
      register-view p c (evict env p h) v' (kept c fresh) q
      ∙ unless q p (some (c, none)) _ _ (λ away. evict-view p h v q away)
