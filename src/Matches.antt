-- ===== src/Matches.antt =====
-- The matches' queries: `MatchRepository` of app/persistence/repositories.py, and the engine's
-- `_persist_result` (app/core/game_engine.py), which stores a finished game.
pub mod Kept
pub mod Recorded
pub mod Atomic
pub mod Created
pub mod Whole
pub mod Stored
pub mod Storing
pub mod Storable
pub mod Promise
use mathlib.Core.Option
use game_backend.Base.{
  ℕ, String, Bool, true, not, ◌&&◌, ◌||◌, Option, none, some, List, [], ◌∷◌, ◌++◌, ℤ, pos, ◌-ℤ◌,
  ◌==◌, str_eq, is_named, length, take, replicate, lookup, Dict, value_error, integrity_error,
  data_error, Result, ok, raise, Action, pure, lift, modify, if◌then◌else◌,
}
use game_backend.Schemas.{ClientState}
use game_backend.Game.{ActiveGame, to_client_state}
use game_backend.Database.{
  ◌>>=◌, ◌>>◌, Uuid, Match, MatchParticipant, Tables, Session, Outside, fits_integer, where_rows,
  update_rows, has_player, has_match, insert_match, insert_participant, now, new_uuid, commit,
  open_session,
}
use game_backend.Players.{order_by_desc, update_elo}

-- The joined rows of the matches and a player's participations.
unfoldable pub join_participants : Uuid → List MatchParticipant → List Match → List Match
join_participants u mps [] = []
join_participants u mps (m ∷ ms) =
    replicate (length (where_rows (λ mp. mp.match_id == m.id && mp.player_id == u) mps)) m
    ++ join_participants u mps ms

-- `get_player_match_history`
unfoldable pub get_player_match_history : Uuid → ℕ → Action Session (List Match)
get_player_match_history u limit s = (
  ok (
      take limit (
        order_by_desc (λ m. pos m.created_at)
          (join_participants u s.rows.participants s.rows.matches))),
  s,
)

-- A match that starts, with the columns' defaults.
abbrev pub new_match : Uuid → String → ℕ → ℕ → Match
new_match u room_id started time = record {
  id = u;
  room_id = room_id;
  status = "in_progress";
  winner_id = none;
  total_turns = 0;
  duration_seconds = none;
  final_state = none;
  created_at = time;
  started_at = some started;
  ended_at = none;
}

abbrev pub new_participant : Uuid → Uuid → Uuid → ℤ → MatchParticipant
new_participant u match_id player_id elo_before = record {
  id = u;
  match_id = match_id;
  player_id = player_id;
  result = none;
  elo_before = elo_before;
  elo_after = none;
  elo_delta = none;
}

-- What `record_result` writes of a match.
pub record Outcome : Type 0 where
  pub winner_id : Option String
  pub final_state : ClientState
  pub total_turns : ℕ
  pub duration_seconds : ℤ

abbrev pub outcome : ActiveGame → ClientState → ℤ → Outcome
outcome g state duration = record {
  winner_id = g.winner_id;
  final_state = state;
  total_turns = g.turn_number;
  duration_seconds = duration;
}

-- The result that `record_result` stores for a player.
unfoldable pub result_text : Option String → String → String
result_text none pid = "draw"
result_text (some w) pid = if str_eq pid w then "win" else "loss"

abbrev pub finish_match : Option Uuid → Outcome → ℕ → Match → Match
finish_match winner o at m = record m {
  status = "finished";
  winner_id = winner;
  total_turns = o.total_turns;
  duration_seconds = some o.duration_seconds;
  ended_at = some at;
  final_state = some o.final_state;
}

abbrev pub finish_participant : String → ℤ → ℤ → MatchParticipant → MatchParticipant
finish_participant result new_elo delta mp = record mp {
  result = some result;
  elo_after = some new_elo;
  elo_delta = some delta;
}

module _ (out : Outside) where
  -- `uuid.UUID(text)`
  abbrev pub uuid_of : String → Result Uuid
  uuid_of text = elim (out.parse_uuid text) [ none ↦ raise value_error | some u ↦ ok u ]

  -- `uuid.UUID(winner_id) if winner_id else None`
  unfoldable pub winner_uuid : Option String → Result (Option Uuid)
  winner_uuid none = ok none
  winner_uuid (some w) =
      if is_named w
      then elim (out.parse_uuid w) [ none ↦ raise value_error | some u ↦ ok (some u) ]
      else ok none

  -- The loop of `create_match` over the players, flushed.
  unfoldable pub add_participants : Uuid → Dict ℤ → List String → Action Session (Unit {0})
  add_participants match_id elos [] = pure tt
  add_participants match_id elos (pid ∷ pids) = do
    player_id ← lift (uuid_of pid)
    u ← new_uuid out
    insert_participant
        (new_participant u match_id player_id (Option.get_or (lookup pid elos) (pos 1000)))
    add_participants match_id elos pids

  -- `create_match`
  unfoldable pub create_match : String → List String → Dict ℤ → Action Session Match
  create_match room_id player_ids player_elos = do
    started ← now out
    u ← new_uuid out
    time ← now out
    insert_match (new_match u room_id started time)
    add_participants u player_elos player_ids
    pure (new_match u room_id started time)

  abbrev pub known_winner : Option Uuid → Tables → Bool
  known_winner none t = true
  known_winner (some w) t = has_player w t

  -- The update of the match in `record_result`.
  unfoldable pub set_match : Uuid → Option Uuid → Outcome → ℕ → Action Session (Unit {0})
  set_match match_id winner o at s =
      if fits_integer (pos o.total_turns)
      then if known_winner winner s.rows || not (has_match match_id s.rows)
        then (
          ok tt,
          record s {
            rows = record s.rows {
              matches =
                  update_rows (λ m. m.id == match_id) (finish_match winner o at) s.rows.matches;
            };
          },
        )
        else (raise integrity_error, s)
      else (raise data_error, s)

  -- The update of a participant in `record_result`.
  unfoldable pub set_participant : Uuid → Uuid → String → ℤ → ℤ → Action Session (Unit {0})
  set_participant match_id player_id result new_elo delta s =
      if fits_integer new_elo && fits_integer delta
      then (
        ok tt,
        record s {
          rows = record s.rows {
            participants =
                update_rows (λ mp. mp.match_id == match_id && mp.player_id == player_id)
                  (finish_participant result new_elo delta) s.rows.participants;
          };
        },
      )
      else (raise data_error, s)

  -- The loop of `record_result` over the rating changes.
  unfoldable pub record_changes : Uuid → Option String → Dict (ℤ × ℤ) → Action Session (Unit {0})
  record_changes match_id winner_id [] = pure tt
  record_changes match_id winner_id ((pid, (new_elo, delta)) ∷ changes) = do
    player_id ← lift (uuid_of pid)
    set_participant match_id player_id (result_text winner_id pid) new_elo delta
    update_elo out player_id new_elo (result_text winner_id pid)
    record_changes match_id winner_id changes

  -- `record_result`
  unfoldable pub record_result : Uuid → Outcome → Dict (ℤ × ℤ) → Action Session (Unit {0})
  record_result match_id o changes = do
    at ← now out
    winner ← lift (winner_uuid o.winner_id)
    set_match match_id winner o at
    record_changes match_id o.winner_id changes

  -- The body of `_persist_result`, up to its commit.
  unfoldable pub store_result : ActiveGame → Dict (ℤ × ℤ) → Action Session (Unit {0})
  store_result g changes = do
    m ← create_match g.room_id g.player_ids g.player_elos
    state ← lift (to_client_state g)
    at ← now out
    record_result m.id (outcome g state (pos at -ℤ pos g.started_at)) changes

  -- `_persist_result`: what is stored after it, whatever it raised.
  unfoldable pub persist_result : ActiveGame → Dict (ℤ × ℤ) → Tables → ℕ → Tables
  persist_result g changes t n =
      ((store_result g changes >> modify commit) (open_session t n)).1.saved
