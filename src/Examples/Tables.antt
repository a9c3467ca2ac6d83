-- ===== src/Examples/Tables.antt =====
-- Runs of the theorems on stored results.
use game_backend.Base.{
  ◌≡◌, ◌⊎◌, refl, none, some, [], ◌∷◌, arith, ℤ, pos, negsuc, Dict, lookup, insert, str_eq,
  is_named, if◌then◌else◌, ◌==◌, ◌+◌,
}
use game_backend.Game.{ActiveGame, to_client_state, current_player_id}
use game_backend.Play.{new_game, no_scores}
use game_backend.Database.{Outside, Tables, fits_integer, fits_varchar}
use game_backend.Database.Soundness.{IsSound}
use game_backend.Players.{new_player}
use game_backend.Matches.{persist_result, winner_uuid}
use game_backend.Matches.Whole.{IsRecorded}
use game_backend.Matches.Stored.{persist_result_atomic}
use game_backend.Matches.Storable.{IsStorable}
use game_backend.Matches.Promise.{persist_result-IsRecorded}
use game_backend.Examples.Outside.{ann, bob, two_players}

abbrev pub database : Outside
database = record {
  now = λ n. n;
  uuid4 = λ n. n + 100;
  parse_uuid = λ t. if str_eq t ann then some 1 else if str_eq t bob then some 2 else none;
  uuid_text = λ u. if u == 1 then ann else bob;
}

abbrev pub two_rows : Tables
two_rows = record {
  players = new_player 1 ann "ann@x" "h" 0 ∷ new_player 2 bob "bob@x" "h" 0 ∷ [];
  matches = [];
  participants = [];
}

pub two_rows-IsSound : IsSound two_rows
unfolding str_eq
two_rows-IsSound = record {
  players = (refl, (refl, tt));
  matches = tt;
  participants = tt;
  links = tt;
  balanced = (refl, (refl, tt));
}

-- Ann has won.
abbrev won : ActiveGame
won = record two_players { winner_id = some ann }

abbrev changes : Dict (ℤ × ℤ)
changes = (ann, (pos 1208, pos 8)) ∷ (bob, (pos 992, negsuc 7)) ∷ []

storable : IsStorable database won changes two_rows 0
unfolding str_eq lookup fits_integer fits_varchar winner_uuid is_named to_client_state
    current_player_id new_game no_scores insert
storable = record {
  p1 = ann;
  p2 = bob;
  u1 = 1;
  u2 = 2;
  distinct = omega arith;
  players = refl;
  id1 = refl;
  id2 = refl;
  known1 = refl;
  known2 = refl;
  room_id = refl;
  elo1 = refl;
  elo2 = refl;
  state = _;
  state_of = refl;
  turns = refl;
  winner = some 1;
  winner_of = refl;
  known_win = refl;
  good = (((1, refl), refl, refl), (((2, refl), refl, refl), tt));
  room = ((omega arith, refl), ((omega arith, refl), tt));
  new_match = refl;
  new_row1 = refl;
  new_row2 = refl;
  new_rows = omega arith;
}

persist_result-IsRecorded_example :
    IsRecorded database won changes two_rows (persist_result database won changes two_rows 0)
persist_result-IsRecorded_example =
    persist_result-IsRecorded database won changes two_rows 0 two_rows-IsSound storable

persist_result_atomic_example :
    (persist_result database won changes two_rows 0 ≡ two_rows)
    ⊎ IsRecorded database won changes two_rows (persist_result database won changes two_rows 0)
persist_result_atomic_example =
    persist_result_atomic database won changes two_rows 0 two_rows-IsSound
