-- ===== src/Connections/Rooms.antt =====
-- Rooms of the connection manager (`join_room` and `leave_room` of app/core/ws_manager.py).
use game_backend.Base.{
  ◌≡◌, ◌≢◌, inl, inr, String, false, not, ◌&&◌, none, some, arith, str_eq, str_eq_iff, str_eq_refl,
  is_named_iff, lookup, mem, add, lookup-insert, mem-add, Bool-cases, Option-cases, if◌then◌else◌,
}
use game_backend.Connections.{
  ConnectionInfo, ConnectionManager, members, leave_room, leave_other_room, join_room,
}
use game_backend.Connections.Consistency.{room_set, mem-remove_member, IsConsistent, elsewhere}

module _ (m : ConnectionManager) (v : IsConsistent m) (c : String) where
  module _ (i : ConnectionInfo) (h : lookup c m.connections ≡ some i) (r : String)
      (r_named : r ≢ "") where
    -- The manager after the connection left another room.
    leave_other_connections :
        (d : String)
        → d ≢ c
        → lookup d (leave_other_room c r i m).connections ≡ lookup d m.connections
    unfolding leave_other_room leave_room
    leave_other_connections d away = elim (Option-cases i.room_id) [
      | inl out ↦ ground (arith, h, out)
      | inr (r0, inside) ↦ ground (
        arith,
        h,
        inside,
        str_eq_iff d c,
        lookup-insert c d (record i { room_id = none }) m.connections,
      )
    ]

    leave_other_players : (leave_other_room c r i m).player_connections ≡ m.player_connections
    unfolding leave_other_room leave_room
    leave_other_players = elim (Option-cases i.room_id) [
      | inl out ↦ ground (arith, h, out)
      | inr (r0, inside) ↦ ground (arith, h, inside)
    ]

    leave_other_rooms :
        (d s : String)
        → mem d (room_set s (leave_other_room c r i m).room_members)
          ≡ (if str_eq d c && not (str_eq s r) then false else mem d (room_set s m.room_members))
    unfolding leave_other_room leave_room
    leave_other_rooms d s = elim (Option-cases i.room_id) [
      | inl out ↦ ground (arith, h, out, str_eq_iff d c, elsewhere m v c i s h)
      | inr (r0, inside) ↦ ground (
        arith,
        h,
        inside,
        (is_named_iff r0).1 (v.seated c r0 i h inside).1,
        str_eq_iff d c,
        str_eq_iff s r,
        str_eq_iff s r0,
        str_eq_iff r0 r,
        mem-remove_member r0 c s d m.room_members,
        elsewhere m v c i s h,
      )
    ]

    -- The manager after `join_room`.
    pub join_connections :
        (d : String)
        → lookup d (join_room c r m).connections
          ≡ (if str_eq d c then some (record i { room_id = some r }) else lookup d m.connections)
    unfolding join_room
    join_connections d = ground (
      arith,
      h,
      str_eq_iff d c,
      lookup-insert c d (record i { room_id = some r }) (leave_other_room c r i m).connections,
      leave_other_connections d,
    )

    pub join_players_same : (join_room c r m).player_connections ≡ m.player_connections
    unfolding join_room
    join_players_same = rw (h, join_room) leave_other_players

    join_rooms :
        (d s : String)
        → mem d (room_set s (join_room c r m).room_members)
          ≡ (if str_eq d c then str_eq s r else mem d (room_set s m.room_members))
    unfolding join_room
    join_rooms d s =
        let m' = leave_other_room c r i m in
        ground (
          arith,
          h,
          str_eq_iff s r,
          str_eq_iff d c,
          lookup-insert r s (add c (members r m')) m'.room_members,
          mem-add c d (members r m'),
          leave_other_rooms d s,
          leave_other_rooms d r,
        )

    join_present : IsConsistent (join_room c r m)
    join_present = record {
      indexed = λ d j e. ground (
        arith,
        join_connections d,
        join_players_same,
        v.indexed c i h,
        v.indexed d j,
        str_eq_iff d c,
      );
      backed = λ p d e.
          let (j, found, owner) = v.backed p d (ground (arith, e, join_players_same)) in
          (
            if str_eq d c then record i { room_id = some r } else j,
            ground (arith, found, h, join_connections d, str_eq_iff d c),
            ground (arith, found, h, owner, str_eq_iff d c),
          );
      seated = λ d s j e room. ground (
        arith,
        join_connections d,
        join_rooms d s,
        str_eq_iff d c,
        str_eq_iff s r,
        v.seated d s j,
      );
      occupied = λ d s e. elim (Bool-cases (str_eq d c)) [
        | inl here ↦ (
          record i { room_id = some r },
          ground (arith, here, join_connections d),
          ground (arith, here, e, join_rooms d s, str_eq_iff s r),
        )
        | inr away ↦
            let (j, found, room) = v.occupied d s (ground (arith, away, e, join_rooms d s)) in
            (j, ground (arith, away, found, join_connections d), room)
      ];
      named =
          λ j e. ground (arith, e, join_connections "", str_eq_iff "" c, h, v.named j, v.named i);
    }

  -- If the registries agree, they agree after a connection, known or not, has joined a room with
  -- a name, whatever room it was in.
  pub join_room-IsConsistent : (r : String) → r ≢ "" → IsConsistent (join_room c r m)
  unfolding join_room
  join_room-IsConsistent r r_named = elim (Option-cases (lookup c m.connections)) [
    | inl absent ↦ rw (absent, join_room) v
    | inr (i, h) ↦ join_present i h r r_named
  ]

  -- If the registries agree, then after a known connection has joined a room with a name, it is a
  -- member of that room and of no other.
  pub mem-join_room :
      (i : ConnectionInfo) (r s : String)
      → lookup c m.connections ≡ some i
      → r ≢ ""
      → mem c (members s (join_room c r m)) ≡ str_eq s r
  mem-join_room i r s h r_named = ground (arith, join_rooms i h r r_named c s, str_eq_refl c)

  module _ (i : ConnectionInfo) (h : lookup c m.connections ≡ some i) (r0 : String)
      (inside : i.room_id ≡ some r0) where
    pub leave_connections :
        (d : String)
        → lookup d (leave_room c m).connections
          ≡ (if str_eq d c then some (record i { room_id = none }) else lookup d m.connections)
    unfolding leave_room
    leave_connections d =
        ground (arith, h, inside, lookup-insert c d (record i { room_id = none }) m.connections)

    leave_rooms :
        (d s : String)
        → mem d (room_set s (leave_room c m).room_members)
          ≡ (if str_eq d c then false else mem d (room_set s m.room_members))
    unfolding leave_room
    leave_rooms d s = ground (
      arith,
      h,
      inside,
      str_eq_iff d c,
      str_eq_iff s r0,
      mem-remove_member r0 c s d m.room_members,
      elsewhere m v c i s h,
    )

    pub leave_players_same : (leave_room c m).player_connections ≡ m.player_connections
    unfolding leave_room
    leave_players_same = ground (arith, h, inside)

    leave_present : IsConsistent (leave_room c m)
    leave_present = record {
      indexed = λ d j e. ground (
        arith,
        leave_connections d,
        leave_players_same,
        v.indexed c i h,
        v.indexed d j,
        str_eq_iff d c,
      );
      backed = λ p d e.
          let (j, found, owner) = v.backed p d (ground (arith, e, leave_players_same)) in
          (
            if str_eq d c then record i { room_id = none } else j,
            ground (arith, found, h, leave_connections d, str_eq_iff d c),
            ground (arith, found, h, owner, str_eq_iff d c),
          );
      seated = λ d s j e room.
          ground (arith, leave_connections d, leave_rooms d s, str_eq_iff d c, v.seated d s j);
      occupied = λ d s e.
          let (j, found, room) = v.occupied d s (ground (arith, e, leave_rooms d s)) in
          (j, ground (arith, e, found, leave_rooms d s, leave_connections d), room);
      named =
          λ j e. ground (arith, e, leave_connections "", str_eq_iff "" c, h, v.named j, v.named i);
    }

  -- If the registries agree, they agree after a connection, known or not, has left its room.
  pub leave_room-IsConsistent : IsConsistent (leave_room c m)
  unfolding leave_room
  leave_room-IsConsistent = elim (Option-cases (lookup c m.connections)) [
    | inl absent ↦ rw (absent, leave_room) v
    | inr (i, h) ↦ elim (Option-cases i.room_id) [
      | inl out ↦ rw (h, leave_room) (rw out v)
      | inr (r0, inside) ↦ leave_present i h r0 inside
    ]
  ]
