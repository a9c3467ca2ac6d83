-- ===== src/Connections/Refinement.antt =====
-- The three registries of app/core/ws_manager.py implement one map from players to seats.
use game_backend.Base.{
  ◌≡◌, ◌≢◌, refl, ◌∙◌, ap, subst, ◌↔◌, true, some, mem, Option-cases, inl, inr, String, Option,
  none, List, [], ◌∷◌, lookup,
}
use game_backend.Env.{Env}
use game_backend.Connections.{
  ConnectionInfo, ConnectionManager, members, Hub, connect, disconnect, join_room, leave_room,
}
use game_backend.Connections.Consistency.{IsConsistent, disconnect-IsConsistent}
use game_backend.Connections.Rooms.{join_room-IsConsistent, leave_room-IsConsistent}
use game_backend.Connections.Traffic.{connect-IsConsistent}
use game_backend.Connections.View.{
  Seat, view, Call, connects, disconnects, joins, leaves, specified, connect-view, disconnect-view,
  join_room-view, leave_room-view,
}

-- What the three registries are for a map from players to seats: the second one has each player's
-- connection, the first one the connections that are seats, each with its player and its room, and
-- the third one, for each room, the connections of the seats in it.
pub record Implements (m : ConnectionManager) (f : String → Option Seat) : Type 0 where
  pub players :
      (p c : String)
      → (lookup p m.player_connections ≡ some c) ↔ ((r : Option String) × (f p ≡ some (c, r)))
  pub connections :
      (p c : String) (r : Option String)
      → ((i : ConnectionInfo) × (lookup c m.connections ≡ some i)
          × (i.player_id ≡ p)
          × (i.room_id ≡ r))
        ↔ (f p ≡ some (c, r))
  pub rooms :
      (c r : String) → (mem c (members r m) ≡ true) ↔ ((p : String) × (f p ≡ some (c, some r)))

some_inj : {A : Type 0} {a b : A} → some a ≡ some b → a ≡ b
some_inj e = cc

-- A seat, read off the first two registries.
seat_backed :
    {m : ConnectionManager} (v : IsConsistent m) (p c : String) (r : Option String)
    → view m p ≡ some (c, r)
    → (i : ConnectionInfo) × (lookup p m.player_connections ≡ some c)
      × (lookup c m.connections ≡ some i)
      × (i.player_id ≡ p)
      × (i.room_id ≡ r)
seat_backed {m} v p c r e = elim (Option-cases (lookup p m.player_connections)) [
  | inl out ↦ absurd (cc (rw out at e))
  | inr (d, seated) ↦
      let (i, held, own) = v.backed p d seated in
      let same = some_inj (rw (seated, held) at e) in
      let at : d ≡ c = ap (λ x. x.0) same in
      (
        i,
        subst (λ y. lookup p m.player_connections ≡ some y) at seated,
        subst (λ y. lookup y m.connections ≡ some i) at held,
        own,
        ap (λ x. x.1) same,
      )
]

backed_seat :
    {m : ConnectionManager} (v : IsConsistent m) (c : String) (i : ConnectionInfo)
    → lookup c m.connections ≡ some i
    → view m i.player_id ≡ some (c, i.room_id)
backed_seat {m} v c i held = rw ((v.indexed c i held).0, held) refl

view-Implements : {m : ConnectionManager} → IsConsistent m → Implements m (view m)
view-Implements {m} v = record {
  players = λ p c. (
    (λ seated.
        let (i, held, own) = v.backed p c seated in
        (i.room_id, subst (λ q. view m q ≡ some (c, i.room_id)) own (backed_seat v c i held))),
    (λ x. (seat_backed v p c x.0 x.1).1),
  );
  connections = λ p c r. (
    (λ x.
        subst (λ q. view m q ≡ some (c, r)) x.2
          (subst (λ y. view m x.0.player_id ≡ some (c, y)) x.3 (backed_seat v c x.0 x.1))),
    (λ e. let s = seat_backed v p c r e in (s.0, s.2, s.3, s.4)),
  );
  rooms = λ c r. (
    (λ h.
        let (i, held, room) = v.occupied c r h in
        (i.player_id, subst (λ y. view m i.player_id ≡ some (c, y)) room (backed_seat v c i held))),
    (λ x. let s = seat_backed v x.0 c (some r) x.1 in (v.seated c r s.0 s.2 s.4).0),
  );
}

module _ {S F : Type 0} (env : Env S F) where
  -- The calls, as the code makes them.
  abbrev pub made : Call → Hub → Hub
  made (connects p c) h = connect env p c h
  made (disconnects c) h = record h { manager = (disconnect c h.manager).1 }
  made (joins c r) h = record h { manager = join_room c r h.manager }
  made (leaves c) h = record h { manager = leave_room c h.manager }

  -- A new connection has a new identifier; no identifier is empty.
  abbrev pub IsAllowed : Call → Hub → Type 0
  IsAllowed (connects p c) h = (lookup c h.manager.connections ≡ none) × (c ≢ "")
  IsAllowed (disconnects c) h = Unit
  IsAllowed (joins c r) h = r ≢ ""
  IsAllowed (leaves c) h = Unit

  made-view :
      (x : Call) (h : Hub)
      → IsConsistent h.manager
      → IsAllowed x h
      → view (made x h).manager ≡ specified x (view h.manager)
  made-view (connects p c) h v a = λ i q. connect-view env p c h v a.0 a.1 q i
  made-view (disconnects c) h v a = λ i q. disconnect-view h.manager v c q i
  made-view (joins c r) h v a = λ i q. join_room-view h.manager v c r a q i
  made-view (leaves c) h v a = λ i q. leave_room-view h.manager v c q i

  made-IsConsistent :
      (x : Call) (h : Hub)
      → IsConsistent h.manager
      → IsAllowed x h
      → IsConsistent (made x h).manager
  made-IsConsistent (connects p c) h v a = connect-IsConsistent env p c h v a.0 a.1
  made-IsConsistent (disconnects c) h v a = disconnect-IsConsistent h.manager v c
  made-IsConsistent (joins c r) h v a = join_room-IsConsistent h.manager v c r a
  made-IsConsistent (leaves c) h v a = leave_room-IsConsistent h.manager v c

  abbrev pub all_made : List Call → Hub → Hub
  all_made [] h = h
  all_made (x ∷ xs) h = all_made xs (made x h)

  abbrev pub AreAllowed : List Call → Hub → Type 0
  AreAllowed [] h = Unit
  AreAllowed (x ∷ xs) h = IsAllowed x h × AreAllowed xs (made x h)

  abbrev pub all_specified : List Call → (String → Option Seat) → String → Option Seat
  all_specified [] f = f
  all_specified (x ∷ xs) f = all_specified xs (specified x f)

  all_made-view :
      (xs : List Call) (h : Hub)
      → IsConsistent h.manager
      → AreAllowed xs h
      → IsConsistent (all_made xs h).manager
        × (view (all_made xs h).manager ≡ all_specified xs (view h.manager))
  all_made-view [] h v a = (v, refl)
  all_made-view (x ∷ xs) h v a =
      let (v', e) = all_made-view xs (made x h) (made-IsConsistent x h v a.0) a.1 in
      (v', e ∙ ap (all_specified xs) (made-view x h v a.0))

  -- The three registries of the connection manager implement one map from players to seats, a
  -- seat being a connection and the room that it is in, or no room. After any sequence of
  -- connections under new and non-empty identifiers, disconnections, and rooms with a name joined
  -- and left, on registries that agree, they implement the map after the specified changes: a
  -- connection takes the player's seat, a disconnection empties the seat of that connection
  -- alone, and a room is changed at that seat alone. A player is registered with a connection
  -- exactly if it is the player's seat; a connection is registered with its player and room
  -- exactly if it is a seat of that player in that room; and it is a member of a room exactly if
  -- it is some player's seat in that room.
  pub all_made-Implements :
      (xs : List Call) (h : Hub)
      → IsConsistent h.manager
      → AreAllowed xs h
      → Implements (all_made xs h).manager (all_specified xs (view h.manager))
  all_made-Implements xs h v a =
      let (v', e) = all_made-view xs h v a in
      subst (Implements (all_made xs h).manager) e (view-Implements v')
