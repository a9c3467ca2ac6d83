-- ===== src/Examples/Rules.antt =====
-- Runs of the theorems on the rules of one game.
use game_backend.Base.{
  ok, ℕ, int, pos, field, end, obj, get_field, ◌<◌, ◌≡◌, ◌⊎◌, ◌↔◌, refl, ap, inl, true, none, some,
  [], ◌∷◌, ◌++◌, arith, replicate, lookup, insert, str_eq, str,
}
use game_backend.Constants.{board_size}
use game_backend.Board.{cell?, Board}
use game_backend.Board.Counting.{count_cells, count_row}
use game_backend.Game.{
  coordinate, current_player_id, ActiveGame, apply_place_action, check_game_over, winner_of,
  finish_turn,
}
use game_backend.Game.Placement.{Places, apply_place_action-Places}
use game_backend.Game.Moves.{place_action_iff, move_exists}
use game_backend.Game.Turns.{IsValid, check_game_over_iff, winner_of_lem, played}
use game_backend.Game.Endings.{TurnEnds, finish_turn-TurnEnds}
use game_backend.Play.{new_game, no_scores}
use game_backend.Examples.Outside.{ann, bob, place, two_players, ann≢bob}

pub two_players-IsValid : IsValid ann bob two_players
unfolding new_game no_scores insert lookup str_eq count_cells count_row
two_players-IsValid = record {
  players = refl;
  distinct = ann≢bob;
  turn = omega arith;
  tallied = record {
    grid = record { rows = refl; columns = omega arith; owners = omega arith };
    first = refl;
    second = refl;
  };
  progress = omega arith;
}

abbrev full_board : Board
full_board = replicate 6 (replicate 10 1) ++ replicate 4 (replicate 10 2)

-- The last placement has just filled the board.
abbrev last_round : ActiveGame
last_round = record two_players {
  board = full_board;
  scores = (ann, 60) ∷ (bob, 40) ∷ [];
  turn_number = 30;
}

abbrev after_turn : ActiveGame
after_turn = played ann bob ann (str "place") (place 9 9) 5 6 last_round

after_turn-IsValid : IsValid ann bob after_turn
unfolding new_game lookup str_eq count_cells count_row
after_turn-IsValid = record {
  players = refl;
  distinct = ann≢bob;
  turn = omega arith;
  tallied = record {
    grid = record { rows = refl; columns = omega arith; owners = omega arith };
    first = refl;
    second = refl;
  };
  progress = omega arith;
}

apply_place_action-Places_example :
    Places ann bob 1 two_players (apply_place_action ann (place 3 4) two_players)
unfolding new_game
apply_place_action-Places_example =
    apply_place_action-Places ann bob ann≢bob ann 1 (inl (refl, refl)) two_players refl
      two_players-IsValid.tallied (place 3 4)

check_game_over_iff_example :
    ((check_game_over after_turn).0 ≡ true) ↔ (count_cells 0 after_turn.board ≡ 0)
check_game_over_iff_example = check_game_over_iff ann bob after_turn after_turn-IsValid

winner_of_lem_example :
    ((winner_of ann bob after_turn ≡ some ann)
      × (count_cells 2 after_turn.board < count_cells 1 after_turn.board))
    ⊎ ((winner_of ann bob after_turn ≡ some bob)
        × (count_cells 1 after_turn.board < count_cells 2 after_turn.board))
    ⊎ ((winner_of ann bob after_turn ≡ none)
        × (count_cells 1 after_turn.board ≡ count_cells 2 after_turn.board))
winner_of_lem_example = winner_of_lem ann bob after_turn after_turn-IsValid

placed : (apply_place_action ann (place 3 4) two_players).0 ≡ ok none
unfolding new_game coordinate get_field str_eq cell?
placed =
    (place_action_iff ann bob ann≢bob ann 1 (inl (refl, refl)) two_players refl
        two_players-IsValid.tallied (field "x" (int (pos 3)) (field "y" (int (pos 4)) end)) 3 4 refl
        refl (omega arith) (omega arith)).1
      refl

finish_turn-TurnEnds_example : TurnEnds ann bob ann two_players (
    finish_turn ann
      (str "place")
      (place 3 4)
      5
      6
      (apply_place_action ann (place 3 4) two_players).1)
unfolding current_player_id new_game
finish_turn-TurnEnds_example =
    finish_turn-TurnEnds ann bob ann (str "place") (place 3 4) 5 6 two_players
      (apply_place_action ann (place 3 4) two_players).1 two_players-IsValid refl
      (ap (λ r. (r, (apply_place_action ann (place 3 4) two_players).1)) placed)

place_action_iff_example :
    ((apply_place_action ann (place 9 9) last_round).0 ≡ ok none)
    ↔ (cell? last_round.board 9 9 ≡ some 0)
unfolding new_game coordinate get_field str_eq
place_action_iff_example =
    place_action_iff ann bob ann≢bob ann 1 (inl (refl, refl)) last_round refl
      after_turn-IsValid.tallied (field "x" (int (pos 9)) (field "y" (int (pos 9)) end)) 9 9 refl
      refl (omega arith) (omega arith)

move_exists_example :
    (x y : ℕ) × (x < board_size)
    × (y < board_size)
    × ((apply_place_action ann
          (obj (field "x" (int (pos x)) (field "y" (int (pos y)) end)))
          two_players).0
        ≡ ok none)
unfolding new_game count_cells count_row
move_exists_example =
    move_exists ann bob ann≢bob ann 1 (inl (refl, refl)) two_players refl
      two_players-IsValid.tallied (omega arith)
