-- ===== src/Gateway/Messages.antt =====
-- The message loop of the endpoint and the routing of a message (app/api/ws_routes.py).
use mathlib.Core.Option
use game_backend.Constants.{PlayerConnectionState}
use game_backend.Base.{
  ℕ, sym, subst, inl, inr, String, Bool, true, false, Option, none, some, arith, ℤ, pos, modify,
  ◌>>◌, Option-cases, Bool-cases, Result-cases, Json, null, str, obj, Fields, end, get_field,
  if◌then◌else◌,
}
use game_backend.Schemas.{ErrorCode, Response, error}
use game_backend.Env.{Env}
use game_backend.Sessions.{get_session, get_player_room, update_activity}
use game_backend.World.{World, tell, send_error}
use game_backend.World.Frames.{Talks, tell-Talks}
use game_backend.Play.{process_action}
use game_backend.Presence.Invariant.{AllPlayable, IsSound, process_action-IsSound}
use game_backend.Matchmaking.{enqueue_player, dequeue_player, is_queued}
use game_backend.Gateway.{
  state_stored, is_falsy, is_tag, find_match, cancel_match, game_action, heartbeat, route_message,
  on_object, on_value, allow, on_store, on_message,
}

pub Talks-IsSound : {S : Type 0} {w w' : World S} → Talks w w' → IsSound w → IsSound w'
Talks-IsSound t s = record {
  games = subst AllPlayable (sym t.games) s.games;
  registries = t.consistent s.registries;
}

-- A change of the store and of the count of questions.
pub stored-IsSound :
    {S : Type 0} (w : World S) (store : S) (queries : ℕ)
    → IsSound w
    → IsSound (record w { hub = record w.hub { queries = queries }; store = store })
stored-IsSound w store queries s = record { games = s.games; registries = s.registries }

module _ {S F : Type 0} (env : Env S F) where
  pub tell-IsSound :
      (pid : String) (msg : Response) (w : World S) → IsSound w → IsSound (tell env pid msg w)
  tell-IsSound pid msg w s = Talks-IsSound (tell-Talks env pid msg w) s

  send_error-IsSound :
      (pid : String) (code : ErrorCode) (w : World S)
      → IsSound w
      → IsSound (send_error env pid code w)
  unfolding send_error
  send_error-IsSound pid code w s = tell-IsSound pid (error code) w s

  pub dequeue_player-IsSound :
      (pid : String) (w : World S) → IsSound w → IsSound (dequeue_player env pid w).1
  unfolding dequeue_player
  dequeue_player-IsSound pid w s = elim (Bool-cases (is_queued env pid w.store)) [
    | inl there ↦
        rw (there, dequeue_player) (tell-IsSound pid _ _ (stored-IsSound w _ w.hub.queries s))
    | inr absent ↦ rw (absent, dequeue_player) (stored-IsSound w _ w.hub.queries s)
  ]

  enqueue_player-IsSound :
      (pid : String) (elo : ℤ) (w : World S) → IsSound w → IsSound (enqueue_player env pid elo w)
  unfolding enqueue_player
  enqueue_player-IsSound pid elo w s = tell-IsSound pid _ _ (stored-IsSound w _ _ s)

  find_match-IsSound : (pid : String) (w : World S) → IsSound w → IsSound (find_match env pid w).1
  find_match-IsSound pid w s = elim (Result-cases (get_session env pid w.store)) [
    | inl (e, bad) ↦ subst IsSound {x = w} (unfold find_match in ground (arith, bad)) s
    | inr (x, good) ↦
        subst IsSound
          {x = enqueue_player env pid (elim x [ none ↦ pos 1000 | some y ↦ y.elo_rating ])
            (state_stored env pid PlayerConnectionState.in_matchmaking w)}
          (unfold find_match in ground (arith, good))
          (enqueue_player-IsSound pid _ _ (stored-IsSound w _ _ s))
  ]

  cancel_match-IsSound : (pid : String) (w : World S) → IsSound w → IsSound (cancel_match env pid w)
  unfolding cancel_match
  cancel_match-IsSound pid w s =
      stored-IsSound (dequeue_player env pid w).1 _ _ (dequeue_player-IsSound pid w s)

  game_action-IsSound :
      (pid : String) (fs : Fields) (w : World S) → IsSound w → IsSound (game_action env pid fs w).1
  unfolding game_action
  game_action-IsSound pid fs w s = elim (Option-cases (get_player_room env pid w.store)) [
    | inl out ↦ rw (out, game_action) (send_error-IsSound pid _ w s)
    | inr (r, inside) ↦
        subst IsSound
          {x = (process_action env r pid (Option.get_or (get_field "action" fs) (str ""))
            (Option.get_or (get_field "data" fs) (obj end)) w).1}
          (ground (
            arith,
            inside,
            Result-cases
                (process_action env r pid (Option.get_or (get_field "action" fs) (str ""))
                  (Option.get_or (get_field "data" fs) (obj end)) w).0,
          ))
          (process_action-IsSound env r pid _ _ w s)
  ]

  route_message-IsSound :
      (pid : String) (msg_type : Json) (fs : Fields) (w : World S)
      → IsSound w
      → IsSound (route_message env pid msg_type fs w).1
  unfolding route_message heartbeat
  route_message-IsSound pid msg_type fs w s =
      branch (is_tag msg_type "find_match") (is_tag msg_type "cancel_match")
        (is_tag msg_type "game_action") (is_tag msg_type "heartbeat_ping")
    where
      branch :
          (find cancel act ping : Bool)
          → IsSound
              ((if find
                  then find_match env pid
                  else if cancel
                  then modify (cancel_match env pid)
                  else if act
                  then game_action env pid fs
                  else if ping
                  then modify (heartbeat env pid)
                  else modify (send_error env pid ErrorCode.unknown_type))
                w).1
      branch true cancel act ping = find_match-IsSound pid w s
      branch false true act ping = cancel_match-IsSound pid w s
      branch false false true ping = game_action-IsSound pid fs w s
      branch false false false true =
          unfold heartbeat in tell-IsSound pid _ _ (stored-IsSound w w.store _ s)
      branch false false false false = send_error-IsSound pid ErrorCode.unknown_type w s

  on_value-IsSound :
      (pid : String) (message : Option Json) (w : World S)
      → IsSound w
      → IsSound (on_value env pid message w).1
  unfolding on_value on_object
  on_value-IsSound pid none w s = send_error-IsSound pid ErrorCode.invalid_json w s
  on_value-IsSound pid (some (obj fs)) w s =
      branch (is_falsy (Option.get_or (get_field "type" fs) null))
    where
      branch :
          (falsy : Bool)
          → IsSound
              ((if falsy
                  then modify (send_error env pid ErrorCode.missing_type)
                  else modify (on_store env (update_activity env pid))
                    >> route_message env pid (Option.get_or (get_field "type" fs) null) fs)
                w).1
      branch true = send_error-IsSound pid ErrorCode.missing_type w s
      branch false = route_message-IsSound pid _ fs _ (stored-IsSound w _ _ s)
  on_value-IsSound pid (some _) w s = s

  -- One round of the message loop keeps an instance sound, whatever value the message is, or if
  -- it is no JSON.
  pub on_message-IsSound :
      (pid : String) (message : Option Json) (w : World S)
      → IsSound w
      → IsSound (on_message env pid message w).1
  unfolding on_message allow
  on_message-IsSound pid message w s = elim (Bool-cases (allow env pid w).0) [
    | inl calm ↦ rw (calm, on_message) (on_value-IsSound pid message _ (stored-IsSound w _ _ s))
    | inr fast ↦
        rw (fast, on_message)
          (send_error-IsSound pid ErrorCode.rate_limited _ (stored-IsSound w _ _ s))
  ]
