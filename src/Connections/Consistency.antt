-- ===== src/Connections/Consistency.antt =====
-- The three registries of the connection manager (app/core/ws_manager.py) agree: the invariant,
-- and the operations of one connection that keep it.
use mathlib.Core.Option
use game_backend.Base.{
  ◌≡◌, refl, ◌≢◌, inl, inr, String, true, false, ◌&&◌, none, some, List, [], ◌∷◌, arith, str_eq,
  str_eq_iff, str_eq_refl, is_named_iff, Dict, lookup, insert, erase, mem, discard, lookup-insert,
  lookup-erase, mem-discard, Bool-cases, Option-cases, if◌then◌else◌,
}
use game_backend.Connections.{
  ConnectionInfo, ConnectionManager, remove_member, forget_player, disconnect,
}

abbrev pub room_set : String → Dict (List String) → List String
room_set r rooms = Option.get_or (lookup r rooms) []

-- `discard` with the `del` of an empty set takes one member out of one room.
pub mem-remove_member :
    (r c s d : String) (rooms : Dict (List String))
    → mem d (room_set s (remove_member r c rooms))
      ≡ (if str_eq s r && str_eq d c then false else mem d (room_set s rooms))
unfolding remove_member
mem-remove_member r c s d rooms = elim (Option-cases (lookup r rooms)) [
  | inl absent ↦ ground (arith, absent, str_eq_iff s r, mem_nil d)
  | inr (cs, e) ↦ mem_removed cs e (discard c cs) refl
]
  where
    mem_nil : (j : String) → mem j [] ≡ false
    mem_nil j = unfold mem in refl

    mem_removed :
        (cs : List String)
        → lookup r rooms ≡ some cs
        → (left : List String) → discard c cs ≡ left
        → mem d (
            room_set s (elim (lookup r rooms) [
              | none ↦ rooms
              | some ds ↦ elim (discard c ds) [
                | [] ↦ erase r rooms
                | x ∷ xs ↦ insert r (x ∷ xs) rooms
              ]
            ]))
          ≡ (if str_eq s r && str_eq d c then false else mem d (room_set s rooms))
    mem_removed cs e [] left = ground (
      arith,
      e,
      left,
      str_eq_iff s r,
      str_eq_iff d c,
      lookup-erase r s rooms,
      mem-discard c d cs,
      mem_nil d,
    )
    mem_removed cs e (x ∷ xs) left = ground (
      arith,
      e,
      left,
      str_eq_iff s r,
      str_eq_iff d c,
      lookup-insert r s (x ∷ xs) rooms,
      mem-discard c d cs,
    )

pub lookup-forget_player :
    (p c j : String) (players : Dict String)
    → lookup p players ≡ some c
    → lookup j (forget_player p c players) ≡ (if str_eq j p then none else lookup j players)
unfolding forget_player
lookup-forget_player p c j players h = ground (arith, h, str_eq_refl c, lookup-erase p j players)

pub record IsConsistent (m : ConnectionManager) : Type 0 where
  -- A connection is its player's only one.
  pub indexed :
      (c : String) (i : ConnectionInfo)
      → lookup c m.connections ≡ some i
      → (lookup i.player_id m.player_connections ≡ some c) × (i.connection_id ≡ c)
  pub backed :
      (p c : String)
      → lookup p m.player_connections ≡ some c
      → (i : ConnectionInfo) × (lookup c m.connections ≡ some i) × (i.player_id ≡ p)
  -- A connection is in the set of its room and in no other.
  pub seated :
      (c r : String) (i : ConnectionInfo)
      → lookup c m.connections ≡ some i
      → i.room_id ≡ some r
      → (mem c (room_set r m.room_members) ≡ true) × (r ≢ "")
  pub occupied :
      (c r : String)
      → mem c (room_set r m.room_members) ≡ true
      → (i : ConnectionInfo) × (lookup c m.connections ≡ some i) × (i.room_id ≡ some r)
  pub named : (i : ConnectionInfo) → lookup "" m.connections ≢ some i

module _ (m : ConnectionManager) (v : IsConsistent m) (c : String) where
  -- A connection is in no room's set but its own.
  pub elsewhere :
      (i : ConnectionInfo) (r : String)
      → lookup c m.connections ≡ some i
      → i.room_id ≢ some r
      → mem c (room_set r m.room_members) ≡ false
  elsewhere i r h away = elim (Bool-cases (mem c (room_set r m.room_members))) [
    | inl there ↦
        let (j, found, room) = v.occupied c r there in
        absurd (away (ground (arith, h, found, room)))
    | inr absent ↦ absent
  ]

  module _ (i : ConnectionInfo) (h : lookup c m.connections ≡ some i) where
    pub disconnect_connections :
        (d : String)
        → lookup d (disconnect c m).1.connections
          ≡ (if str_eq d c then none else lookup d m.connections)
    unfolding disconnect
    disconnect_connections d = rw (h, disconnect) (lookup-erase c d m.connections)

    pub disconnect_players :
        (p : String)
        → lookup p (disconnect c m).1.player_connections
          ≡ (if str_eq p i.player_id then none else lookup p m.player_connections)
    unfolding disconnect
    disconnect_players p =
        rw (h, disconnect)
          (lookup-forget_player i.player_id c p m.player_connections (v.indexed c i h).0)

    pub disconnect_rooms :
        (d r : String)
        → mem d (room_set r (disconnect c m).1.room_members)
          ≡ (if str_eq d c then false else mem d (room_set r m.room_members))
    unfolding disconnect
    disconnect_rooms d r = elim (Option-cases i.room_id) [
      | inl out ↦ ground (arith, h, out, str_eq_iff d c, elsewhere i r h)
      | inr (r0, inside) ↦ ground (
        arith,
        h,
        inside,
        (is_named_iff r0).1 (v.seated c r0 i h inside).1,
        str_eq_iff d c,
        str_eq_iff r r0,
        mem-remove_member r0 c r d m.room_members,
        elsewhere i r h,
      )
    ]

    disconnect_present : IsConsistent (disconnect c m).1
    disconnect_present = record {
      indexed = λ d j e. ground (
        arith,
        disconnect_connections d,
        disconnect_players j.player_id,
        v.indexed c i h,
        v.indexed d j,
        str_eq_iff d c,
        str_eq_iff j.player_id i.player_id,
      );
      backed = λ p d e.
          let (j, found, owner) = v.backed p d (ground (arith, e, disconnect_players p)) in
          (
            j,
            ground (
              arith,
              e,
              found,
              owner,
              h,
              disconnect_players p,
              disconnect_connections d,
              str_eq_iff d c,
              str_eq_iff p i.player_id,
            ),
            owner,
          );
      seated = λ d r j e s.
          ground
            (arith, disconnect_connections d, disconnect_rooms d r, str_eq_iff d c, v.seated d r j);
      occupied = λ d r e.
          let (j, found, room) = v.occupied d r (ground (arith, e, disconnect_rooms d r)) in
          (j, ground (arith, e, found, disconnect_rooms d r, disconnect_connections d), room);
      named = λ j e. v.named j (ground (arith, e, disconnect_connections ""));
    }

  -- `disconnect` keeps the three registries in agreement, for a known connection and for an
  -- unknown one.
  pub disconnect-IsConsistent : IsConsistent (disconnect c m).1
  unfolding disconnect
  disconnect-IsConsistent = elim (Option-cases (lookup c m.connections)) [
    | inl absent ↦ rw (absent, disconnect) v
    | inr (i, h) ↦ disconnect_present i h
  ]
