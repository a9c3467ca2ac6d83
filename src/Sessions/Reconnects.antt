-- ===== src/Sessions/Reconnects.antt =====
-- The life of a session in Redis (`create_session`, `get_session`, `mark_disconnected` and
-- `attempt_reconnect` of app/core/session_manager.py): what is written is read again, and only a
-- disconnected session can be claimed.
use game_backend.Base.{
  ℤ, ℕ, ◌≡◌, refl, ◌∙◌, ap, inl, inr, String, none, some, [], ◌∷◌, arith, str_eq, str_eq_refl,
  is_named, Dict, lookup, or_else, lookup-update, IsUnique, ok, Result-cases,
}
use game_backend.Constants.{state_text, session_key}
use game_backend.Env.{Env}
use game_backend.Env.Laws.{RedisLaws}
use game_backend.Sessions.{
  RedisSession, to_dict, from_dict, get_session, new_session, create_session, mark_disconnected,
  claim_session, attempt_reconnect,
}
use game_backend.Sessions.Reads.{
  Holds, from_dict_of, from_dict-Holds, Holds-marked, Holds-claimed, Holds-created,
}

module _ {S F : Type 0} (env : Env S F) where
  open env use {redis, settings, texts}

  get_session_of :
      (player_id : String) (x : RedisSession) (s : S)
      → Holds texts x (redis.hgetall (session_key player_id) s)
      → get_session env player_id s ≡ ok (some x)
  unfolding get_session
  get_session_of player_id x s h = read (redis.hgetall (session_key player_id) s) refl h
    where
      read :
          (d : Dict String)
          → redis.hgetall (session_key player_id) s ≡ d
          → Holds texts x d
          → get_session env player_id s ≡ ok (some x)
      read [] e h = absurd (unfold lookup in ground (arith, h.player))
      read (f ∷ fs) e h = rw (e, get_session) (rw (from_dict_of texts x (f ∷ fs) h) refl)

  get_session-Holds :
      (player_id : String) (x : RedisSession) (s : S)
      → get_session env player_id s ≡ ok (some x)
      → Holds texts x (redis.hgetall (session_key player_id) s)
  get_session-Holds player_id x s h = read (redis.hgetall (session_key player_id) s) refl
    where
      read : (d : Dict String) → redis.hgetall (session_key player_id) s ≡ d → Holds texts x d
      read [] e = absurd (unfold get_session in ground (arith, h, e))
      read (f ∷ fs) e = elim (Result-cases (from_dict texts (f ∷ fs))) [
        | inl (er, bad) ↦ absurd (unfold get_session in ground (arith, h, e, bad))
        | inr (y, good) ↦
            from_dict-Holds texts x (f ∷ fs)
              (good ∙ (unfold get_session in ground (arith, h, e, good)))
      ]

  abbrev pub claimed : RedisSession → String → ℕ → RedisSession
  claimed x connection_id last = record x {
    instance_id = settings.instance_id;
    connection_id = connection_id;
    state = "connected";
    last_activity = last;
  }

  module _ (laws : RedisLaws redis) (player_id : String) where
    -- What a read of the key finds after a write of some fields and a new time to live.
    written :
        (m : Dict String) (ttl : ℕ) (s : S)
        → IsUnique m
        → (f : String)
        → lookup f (
            redis.hgetall
              (session_key player_id)
              (redis.expire (session_key player_id) ttl (redis.hset (session_key player_id) m s)))
          ≡ or_else (lookup f m) (lookup f (redis.hgetall (session_key player_id) s))
    written m ttl s u f =
        ap (lookup f) (
          laws.hgetall-expire (session_key player_id) (session_key player_id) ttl
            (redis.hset (session_key player_id) m s))
        ∙ laws.hgetall-hset (session_key player_id) (session_key player_id) f m s
        ∙ ground (
          arith,
          str_eq_refl (session_key player_id),
          lookup-update f (redis.hgetall (session_key player_id) s) m u,
        )

    -- Whatever the store held before, `get_session` after `create_session` reads a session with
    -- the given player, connection, rating and name, this instance, no room, the state connected
    -- and the times at which it was created, for a Redis that keeps its laws and a rating and
    -- times that survive the way through text.
    pub get_session-create_session :
        (connection_id : String) (elo_rating : ℤ) (username : String) (start last : ℕ) (s : S)
        → texts.text_int (texts.int_text elo_rating) ≡ some elo_rating
        → texts.text_time (texts.time_text start) ≡ some start
        → texts.text_time (texts.time_text last) ≡ some last
        → get_session env player_id
            (create_session env player_id connection_id elo_rating username start last s).1
          ≡ ok (
              some (record {
                player_id = player_id;
                instance_id = settings.instance_id;
                connection_id = connection_id;
                room_id = none;
                state = "connected";
                elo_rating = elo_rating;
                username = username;
                connected_at = start;
                last_activity = last;
              }))
    unfolding create_session new_session to_dict lookup str_eq is_named
    get_session-create_session connection_id elo_rating username start last s elo_text start_text
          last_text =
        let x = new_session env player_id connection_id elo_rating username start last in
        get_session_of player_id x _ (
          Holds-created texts (redis.hgetall (session_key player_id) s) _ x elo_text start_text
            last_text refl
            (written (to_dict texts x) settings.session_ttl_sec s
              (refl, (refl, (refl, (refl, (refl, (refl, (refl, (refl, (refl, tt)))))))))))

    mark_disconnected-Holds :
        (x : RedisSession) (now : ℕ) (s : S)
        → texts.text_time (texts.time_text now) ≡ some now
        → get_session env player_id s ≡ ok (some x)
        → Holds texts
            (record x { state = "disconnected"; last_activity = now })
            (redis.hgetall (session_key player_id) (mark_disconnected env player_id now s).1)
    unfolding mark_disconnected lookup str_eq state_text
    mark_disconnected-Holds x now s clock found =
        rw (found, mark_disconnected)
          (Holds-marked texts (redis.hgetall (session_key player_id) s) _ x "disconnected"
            (texts.time_text now) now clock
            (written (("state", "disconnected") ∷ ("last_activity", texts.time_text now) ∷ [])
              settings.reconnect_grace_period_sec s (refl, (refl, tt)))
            (get_session-Holds player_id x s found))

    -- A session in the state disconnected is claimed.
    attempt_reconnect_claims :
        (x : RedisSession) (connection_id : String) (now : ℕ) (s : S)
        → get_session env player_id s ≡ ok (some x)
        → x.state ≡ "disconnected"
        → attempt_reconnect env player_id connection_id now s ≡ (
          ok (some (claimed x connection_id x.last_activity)),
          claim_session env player_id connection_id now s,
        )
    unfolding attempt_reconnect str_eq state_text
    attempt_reconnect_claims x connection_id now s found away =
        rw (found, attempt_reconnect) (rw away refl)

    claim_session-Holds :
        (x : RedisSession) (connection_id : String) (now : ℕ) (s : S)
        → texts.text_time (texts.time_text now) ≡ some now
        → get_session env player_id s ≡ ok (some x)
        → Holds texts (claimed x connection_id now) (
            redis.hgetall (session_key player_id) (claim_session env player_id connection_id now s))
    unfolding claim_session lookup str_eq state_text
    claim_session-Holds x connection_id now s clock found =
        Holds-claimed texts (redis.hgetall (session_key player_id) s) _ x settings.instance_id
          connection_id "connected" (texts.time_text now) now clock
          (written
            (("instance_id", settings.instance_id)
              ∷ ("connection_id", connection_id)
              ∷ ("state", "connected")
              ∷ ("last_activity", texts.time_text now)
              ∷ [])
            settings.session_ttl_sec s (refl, (refl, (refl, (refl, tt)))))
          (get_session-Holds player_id x s found)

    -- A session that can be read, marked as disconnected and then claimed by a new connection, is
    -- returned with this instance, the new connection and the state connected, and is read back
    -- the same but for the time of its last activity, for a Redis that keeps its laws and times
    -- that survive the way through text.
    pub attempt_reconnect-mark_disconnected :
        (x : RedisSession) (connection_id : String) (left back : ℕ) (s : S)
        → texts.text_time (texts.time_text left) ≡ some left
        → texts.text_time (texts.time_text back) ≡ some back
        → get_session env player_id s ≡ ok (some x)
        → ((attempt_reconnect env player_id connection_id back
              (mark_disconnected env player_id left s).1).0
            ≡ ok (some (claimed x connection_id left)))
          × (get_session env player_id
                (attempt_reconnect env player_id connection_id back
                  (mark_disconnected env player_id left s).1).1
              ≡ ok (some (claimed x connection_id back)))
    attempt_reconnect-mark_disconnected x connection_id left back s left_text back_text found =
        let y : RedisSession = record x { state = "disconnected"; last_activity = left } in
        let s1 : S = (mark_disconnected env player_id left s).1 in
        let away : get_session env player_id s1 ≡ ok (some y) =
          get_session_of player_id y s1 (mark_disconnected-Holds x left s left_text found) in
        let claim = attempt_reconnect_claims y connection_id back s1 away refl in
        (
          ap (λ r. r.0) claim,
          ap (λ r. get_session env player_id r.1) claim
              ∙ get_session_of player_id (claimed y connection_id back) _
                  (claim_session-Holds y connection_id back s1 back_text away),
        )

    -- After a disconnected session was claimed, a second attempt to claim it is refused and
    -- changes nothing, for a Redis that keeps its laws and times that survive the way through
    -- text.
    pub attempt_reconnect_once :
        (x : RedisSession) (first second : String) (now later : ℕ) (s : S)
        → texts.text_time (texts.time_text now) ≡ some now
        → get_session env player_id s ≡ ok (some x)
        → x.state ≡ "disconnected"
        → attempt_reconnect env player_id second later
            (attempt_reconnect env player_id first now s).1
          ≡ (ok none, (attempt_reconnect env player_id first now s).1)
    unfolding attempt_reconnect str_eq state_text
    attempt_reconnect_once x first second now later s clock found away =
        let s1 : S = claim_session env player_id first now s in
        let again : get_session env player_id s1 ≡ ok (some (claimed x first now)) =
          get_session_of player_id (claimed x first now) s1
            (claim_session-Holds x first now s clock found) in
        rw (attempt_reconnect_claims x first now s found away) (rw (again, attempt_reconnect) refl)
