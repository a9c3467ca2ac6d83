-- ===== src/Examples/Visits.antt =====
-- Runs of the theorems on sessions.
use game_backend.Base.{◌≡◌, refl, none, some, pos, str_eq, is_named, lookup, insert, update, ok}
use game_backend.Constants.{state_text, session_key}
use game_backend.Sessions.{
  RedisSession, to_dict, elo_of, time_of, from_dict, get_session, new_session, create_session,
  mark_disconnected, attempt_reconnect,
}
use game_backend.Sessions.Reconnects.{
  claimed, get_session-create_session, attempt_reconnect-mark_disconnected, attempt_reconnect_once,
}
use game_backend.Examples.Store.{Store, redis-laws}
use game_backend.Examples.Outside.{outside, empty_store, ann}

abbrev visited : Store
visited = (create_session outside ann "c1" (pos 1000) "Ann" 0 0 empty_store).1

abbrev visitor : RedisSession
visitor = (create_session outside ann "c1" (pos 1000) "Ann" 0 0 empty_store).0

abbrev gone : RedisSession
gone = record visitor { state = "disconnected"; last_activity = 0 }

zero_text : outside.texts.text_time (outside.texts.time_text 0) ≡ some 0
unfolding str_eq
zero_text = refl

elo_text : outside.texts.text_int (outside.texts.int_text (pos 1000)) ≡ some (pos 1000)
unfolding str_eq
elo_text = refl

visitor_found : get_session outside ann visited ≡ ok (some visitor)
unfolding create_session new_session
visitor_found =
    get_session-create_session outside redis-laws ann "c1" (pos 1000) "Ann" 0 0 empty_store elo_text
      zero_text zero_text

gone_found : get_session outside ann (mark_disconnected outside ann 0 visited).1 ≡ ok (some gone)
unfolding mark_disconnected get_session create_session new_session from_dict elo_of time_of to_dict
    insert update lookup str_eq is_named state_text session_key
gone_found = refl

get_session-create_session_example :
    get_session outside ann (create_session outside ann "c2" (pos 1000) "Anna" 0 0 visited).1
    ≡ ok (
        some (record {
          player_id = ann;
          instance_id = "one";
          connection_id = "c2";
          room_id = none;
          state = "connected";
          elo_rating = pos 1000;
          username = "Anna";
          connected_at = 0;
          last_activity = 0;
        }))
get_session-create_session_example =
    get_session-create_session outside redis-laws ann "c2" (pos 1000) "Anna" 0 0 visited elo_text
      zero_text zero_text

attempt_reconnect-mark_disconnected_example :
    ((attempt_reconnect outside ann "c2" 0 (mark_disconnected outside ann 0 visited).1).0
      ≡ ok (some (claimed outside visitor "c2" 0)))
    × (get_session outside ann
          (attempt_reconnect outside ann "c2" 0 (mark_disconnected outside ann 0 visited).1).1
        ≡ ok (some (claimed outside visitor "c2" 0)))
attempt_reconnect-mark_disconnected_example =
    attempt_reconnect-mark_disconnected outside redis-laws ann visitor "c2" 0 0 visited zero_text
      zero_text visitor_found

attempt_reconnect_once_example :
    attempt_reconnect outside ann "c3" 0
      (attempt_reconnect outside ann "c2" 0 (mark_disconnected outside ann 0 visited).1).1
    ≡ (
      ok none,
      (attempt_reconnect outside ann "c2" 0 (mark_disconnected outside ann 0 visited).1).1,
    )
attempt_reconnect_once_example =
    attempt_reconnect_once outside redis-laws ann gone "c2" "c3" 0 0
      (mark_disconnected outside ann 0 visited).1 zero_text gone_found refl
