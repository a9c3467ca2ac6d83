-- ===== src/Sessions/Reads.antt =====
-- Sessions that are written and read again (`create_session`, `get_session`, `mark_disconnected` and
-- `attempt_reconnect` of app/core/session_manager.py).
use mathlib.Core.Option
use game_backend.Base.{
  ℕ, ◌≡◌, refl, ◌∙◌, inl, inr, String, some, [], ◌∷◌, arith, ℤ, str_eq, Dict, lookup, or_else, ok,
  Option-cases, Result-cases,
}
use game_backend.Env.{Texts}
use game_backend.Sessions.{RedisSession, or_none, get_text, to_dict, elo_of, time_of, from_dict}

module _ (texts : Texts) where
  -- A hash that holds a session, and perhaps other fields.
  pub record Holds (x : RedisSession) (d : Dict String) : Type 0 where
    pub player : lookup "player_id" d ≡ some x.player_id
    pub instance_field : lookup "instance_id" d ≡ some x.instance_id
    pub connection : lookup "connection_id" d ≡ some x.connection_id
    pub room : or_none (get_text "room_id" "" d) ≡ x.room_id
    pub state : get_text "state" "connected" d ≡ x.state
    pub elo : elo_of texts d ≡ ok x.elo_rating
    pub username : get_text "username" "" d ≡ x.username
    pub connected : time_of texts "connected_at" d ≡ ok x.connected_at
    pub active : time_of texts "last_activity" d ≡ ok x.last_activity

  pub from_dict_of : (x : RedisSession) (d : Dict String) → Holds x d → from_dict texts d ≡ ok x
  unfolding from_dict
  from_dict_of x d h =
      rw
        (
          h.player, h.instance_field, h.connection, h.elo, h.connected, h.active, h.room, h.state,
          h.username,
        )
        refl

  pub from_dict-Holds : (x : RedisSession) (d : Dict String) → from_dict texts d ≡ ok x → Holds x d
  unfolding from_dict
  from_dict-Holds x d h = elim (Option-cases (lookup "player_id" d)) [
    | inl gone ↦ absurd (ground (arith, h, gone))
    | inr (p, ep) ↦ elim (Option-cases (lookup "instance_id" d)) [
      | inl gone ↦ absurd (ground (arith, h, ep, gone))
      | inr (i, ei) ↦ elim (Option-cases (lookup "connection_id" d)) [
        | inl gone ↦ absurd (ground (arith, h, ep, ei, gone))
        | inr (c, ec) ↦ elim (Result-cases (elo_of texts d)) [
          | inl (e, bad) ↦ absurd (ground (arith, h, ep, ei, ec, bad))
          | inr (n, en) ↦ elim (Result-cases (time_of texts "connected_at" d)) [
            | inl (e, bad) ↦ absurd (ground (arith, h, ep, ei, ec, en, bad))
            | inr (t, et) ↦ elim (Result-cases (time_of texts "last_activity" d)) [
              | inl (e, bad) ↦ absurd (ground (arith, h, ep, ei, ec, en, et, bad))
              | inr (l, el) ↦ record {
                player = ground (arith, h, ep, ei, ec, en, et, el);
                instance_field = ground (arith, h, ep, ei, ec, en, et, el);
                connection = ground (arith, h, ep, ei, ec, en, et, el);
                room = ground (arith, h, ep, ei, ec, en, et, el);
                state = ground (arith, h, ep, ei, ec, en, et, el);
                elo = ground (arith, h, ep, ei, ec, en, et, el);
                username = ground (arith, h, ep, ei, ec, en, et, el);
                connected = ground (arith, h, ep, ei, ec, en, et, el);
                active = ground (arith, h, ep, ei, ec, en, et, el);
              }
            ]
          ]
        ]
      ]
    ]
  ]

  elo_of-same :
      (d d' : Dict String)
      → lookup "elo_rating" d' ≡ lookup "elo_rating" d
      → elo_of texts d' ≡ elo_of texts d
  unfolding elo_of
  elo_of-same d d' e = rw (e, elo_of) refl

  time_of-same :
      (f : String) (d d' : Dict String)
      → lookup f d' ≡ lookup f d
      → time_of texts f d' ≡ time_of texts f d
  unfolding time_of
  time_of-same f d d' e = rw (e, time_of) refl

  time_of_text :
      (f t : String) (n : ℕ) (d : Dict String)
      → lookup f d ≡ some t
      → texts.text_time t ≡ some n
      → time_of texts f d ≡ ok n
  unfolding time_of
  time_of_text f t n d e k = rw (e, time_of) (rw k refl)

  elo_of_text :
      (t : String) (n : ℤ) (d : Dict String)
      → lookup "elo_rating" d ≡ some t
      → texts.text_int t ≡ some n
      → elo_of texts d ≡ ok n
  unfolding elo_of
  elo_of_text t n d e k = rw (e, elo_of) (rw k refl)

  -- The hash after a write of these fields.
  module _ (d d' : Dict String) where
    abbrev Written : Dict String → Type 0
    Written m = (f : String) → lookup f d' ≡ or_else (lookup f m) (lookup f d)

    -- The fields that `mark_disconnected` writes.
    pub Holds-marked :
        (x : RedisSession) (st t : String) (now : ℕ)
        → texts.text_time t ≡ some now
        → Written (("state", st) ∷ ("last_activity", t) ∷ [])
        → Holds x d
        → Holds (record x { state = st; last_activity = now }) d'
    unfolding lookup str_eq
    Holds-marked x st t now clock e h = record {
      player = e _ ∙ h.player;
      instance_field = e _ ∙ h.instance_field;
      connection = e _ ∙ h.connection;
      room = rw (e "room_id") (h.room);
      state = rw (e "state") refl;
      elo = elo_of-same d d' (e _) ∙ h.elo;
      username = rw (e "username") (h.username);
      connected = time_of-same "connected_at" d d' (e _) ∙ h.connected;
      active = time_of_text "last_activity" t now d' (e _) clock;
    }

    -- The fields that `attempt_reconnect` writes.
    pub Holds-claimed :
        (x : RedisSession) (i c st t : String) (now : ℕ)
        → texts.text_time t ≡ some now
        → Written
            (("instance_id", i) ∷ ("connection_id", c) ∷ ("state", st) ∷ ("last_activity", t) ∷ [])
        → Holds x d
        → Holds
            (record x { instance_id = i; connection_id = c; state = st; last_activity = now })
            d'
    unfolding lookup str_eq
    Holds-claimed x i c st t now clock e h = record {
      player = e _ ∙ h.player;
      instance_field = e _;
      connection = e _;
      room = rw (e "room_id") (h.room);
      state = rw (e "state") refl;
      elo = elo_of-same d d' (e _) ∙ h.elo;
      username = rw (e "username") (h.username);
      connected = time_of-same "connected_at" d d' (e _) ∙ h.connected;
      active = time_of_text "last_activity" t now d' (e _) clock;
    }

    -- All fields, which `create_session` writes over what was there.
    pub Holds-created :
        (x : RedisSession)
        → texts.text_int (texts.int_text x.elo_rating) ≡ some x.elo_rating
        → texts.text_time (texts.time_text x.connected_at) ≡ some x.connected_at
        → texts.text_time (texts.time_text x.last_activity) ≡ some x.last_activity
        → or_none (Option.get_or x.room_id "") ≡ x.room_id
        → Written (to_dict texts x)
        → Holds x d'
    unfolding lookup str_eq to_dict
    Holds-created x elo_text start_text last_text room e = record {
      player = e _;
      instance_field = e _;
      connection = e _;
      room = rw (e "room_id") room;
      state = rw (e "state") refl;
      elo = elo_of_text _ _ d' (e _) elo_text;
      username = rw (e "username") refl;
      connected = time_of_text "connected_at" _ _ d' (e _) start_text;
      active = time_of_text "last_activity" _ _ d' (e _) last_text;
    }
