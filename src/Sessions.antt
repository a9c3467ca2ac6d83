-- ===== src/Sessions.antt =====
-- Player sessions in Redis: `RedisSession` of app/models/redis_models.py and the session manager
-- (app/core/session_manager.py). A method takes the reading of the clock and the store.
pub mod Reads
pub mod Reconnects
use mathlib.Core.Option
use game_backend.Base.{
  ℕ, String, Bool, Option, none, some, [], ◌∷◌, ℤ, pos, str_eq, is_named, Dict, lookup, Error,
  key_error, value_error, Result, ok, raise, if◌then◌else◌,
}
use game_backend.Constants.{
  PlayerConnectionState, state_text, session_key, player_room_key, instance_heartbeat_key,
}
use game_backend.Env.{Env, Texts}

pub record RedisSession : Type 0 where
  pub player_id : String
  pub instance_id : String
  pub connection_id : String
  pub room_id : Option String
  pub state : String
  pub elo_rating : ℤ
  pub username : String
  pub connected_at : ℕ
  pub last_activity : ℕ

infixl 5 ◌>>=◌
abbrev ◌>>=◌ {ℓ κ} : {A : Type ℓ} {B : Type κ} → Result A → (A → Result B) → Result B
ok a >>= f = f a
raise e >>= f = raise e

abbrev found {ℓ} : {A : Type ℓ} → Option A → Error → Result A
found none e = raise e
found (some a) e = ok a

-- `text or None`
abbrev pub or_none : String → Option String
or_none s = if is_named s then some s else none

-- `data.get(key)`, with a default for an absent key.
abbrev pub get_text : String → String → Dict String → String
get_text key default d = Option.get_or (lookup key d) default

module _ (texts : Texts) where
  unfoldable pub to_dict : RedisSession → Dict String
  to_dict s =
      ("player_id", s.player_id)
      ∷ ("instance_id", s.instance_id)
      ∷ ("connection_id", s.connection_id)
      ∷ ("room_id", Option.get_or s.room_id "")
      ∷ ("state", s.state)
      ∷ ("elo_rating", texts.int_text s.elo_rating)
      ∷ ("username", s.username)
      ∷ ("connected_at", texts.time_text s.connected_at)
      ∷ ("last_activity", texts.time_text s.last_activity)
      ∷ []

  -- `int(data.get("elo_rating", 1000))` and `float(data.get(key, 0))`
  unfoldable pub elo_of : Dict String → Result ℤ
  elo_of d = elim (lookup "elo_rating" d) [
    | none ↦ ok (pos 1000)
    | some t ↦ found (texts.text_int t) value_error
  ]

  unfoldable pub time_of : String → Dict String → Result ℕ
  time_of key d = elim (lookup key d) [
    | none ↦ ok 0
    | some t ↦ found (texts.text_time t) value_error
  ]

  unfoldable pub from_dict : Dict String → Result RedisSession
  from_dict d = do
    player_id ← found (lookup "player_id" d) key_error
    instance_id ← found (lookup "instance_id" d) key_error
    connection_id ← found (lookup "connection_id" d) key_error
    elo_rating ← elo_of d
    connected_at ← time_of "connected_at" d
    last_activity ← time_of "last_activity" d
    ok (record {
      player_id = player_id;
      instance_id = instance_id;
      connection_id = connection_id;
      room_id = or_none (get_text "room_id" "" d);
      state = get_text "state" "connected" d;
      elo_rating = elo_rating;
      username = get_text "username" "" d;
      connected_at = connected_at;
      last_activity = last_activity;
    })

module _ {S F : Type 0} (env : Env S F) where
  open env use {redis, settings, texts}

  unfoldable pub get_session : String → S → Result (Option RedisSession)
  get_session player_id s = elim (redis.hgetall (session_key player_id) s) [
    | [] ↦ ok none
    | f ∷ fs ↦ do session ← from_dict texts (f ∷ fs); ok (some session)
  ]

  unfoldable pub new_session : String → String → ℤ → String → ℕ → ℕ → RedisSession
  new_session player_id connection_id elo_rating username connected_at last_activity = record {
    player_id = player_id;
    instance_id = settings.instance_id;
    connection_id = connection_id;
    room_id = none;
    state = "connected";
    elo_rating = elo_rating;
    username = username;
    connected_at = connected_at;
    last_activity = last_activity;
  }

  -- `create_session`; the two fields that default to the time are readings of the clock.
  unfoldable pub create_session : String → String → ℤ → String → ℕ → ℕ → S → RedisSession × S
  create_session player_id connection_id elo_rating username connected_at last_activity s =
      let session =
        new_session player_id connection_id elo_rating username connected_at last_activity in
      let key = session_key player_id in
      (
        session,
        redis.expire key settings.session_ttl_sec (redis.hset key (to_dict texts session) s),
      )

  abbrev room_update : Option String → Dict String
  room_update none = []
  room_update (some r) = ("room_id", r) ∷ []

  unfoldable pub update_session_state : String → PlayerConnectionState → Option String → ℕ → S → S
  update_session_state player_id state room now s =
      redis.hset (session_key player_id)
        (("state", state_text state) ∷ ("last_activity", texts.time_text now) ∷ room_update room) s

  unfoldable pub update_activity : String → ℕ → S → S
  update_activity player_id now s =
      redis.expire (session_key player_id) settings.session_ttl_sec
        (redis.hset (session_key player_id) (("last_activity", texts.time_text now) ∷ []) s)

  unfoldable pub delete_session : String → S → S
  delete_session player_id s = redis.delete (session_key player_id) s

  -- The session as it was before the call.
  unfoldable pub mark_disconnected : String → ℕ → S → Result (Option RedisSession) × S
  mark_disconnected player_id now s = elim (get_session player_id s) [
    | raise e ↦ (raise e, s)
    | ok none ↦ (ok none, s)
    | ok (some session) ↦ (
      ok (some session),
      redis.expire (session_key player_id) settings.reconnect_grace_period_sec (
          redis.hset (session_key player_id)
            (("state", state_text PlayerConnectionState.disconnected)
              ∷ ("last_activity", texts.time_text now)
              ∷ [])
            s),
    )
  ]

  -- The claim of a session by this instance.
  unfoldable pub claim_session : String → String → ℕ → S → S
  claim_session player_id connection_id now s =
      redis.expire (session_key player_id) settings.session_ttl_sec (
        redis.hset (session_key player_id)
          (("instance_id", settings.instance_id)
            ∷ ("connection_id", connection_id)
            ∷ ("state", state_text PlayerConnectionState.connected)
            ∷ ("last_activity", texts.time_text now)
            ∷ [])
          s)

  unfoldable pub attempt_reconnect : String → String → ℕ → S → Result (Option RedisSession) × S
  attempt_reconnect player_id connection_id now s = elim (get_session player_id s) [
    | raise e ↦ (raise e, s)
    | ok none ↦ (ok none, s)
    | ok (some session) ↦
        if str_eq session.state (state_text PlayerConnectionState.disconnected)
        then (
          ok (
              some (record session {
                instance_id = settings.instance_id;
                connection_id = connection_id;
                state = state_text PlayerConnectionState.connected;
              })),
          claim_session player_id connection_id now s,
        )
        else (ok none, s)
  ]

  unfoldable pub set_player_room : String → String → S → S
  set_player_room player_id room_id s =
      redis.set (player_room_key player_id) room_id settings.session_ttl_sec s

  -- `result.decode() if result else None`: an empty value counts as none.
  unfoldable pub get_player_room : String → S → Option String
  get_player_room player_id s = elim (redis.get (player_room_key player_id) s) [
    | none ↦ none
    | some r ↦ or_none r
  ]

  unfoldable pub clear_player_room : String → S → S
  clear_player_room player_id s = redis.delete (player_room_key player_id) s

  unfoldable pub register_instance_heartbeat : ℕ → S → S
  register_instance_heartbeat now s =
      redis.set (instance_heartbeat_key settings.instance_id) (texts.time_text now)
        settings.instance_heartbeat_ttl_sec s

  unfoldable pub is_instance_alive : String → S → Bool
  is_instance_alive instance_id s = redis.has_key (instance_heartbeat_key instance_id) s
