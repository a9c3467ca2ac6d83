-- ===== src/Game.antt =====
-- A live game and its rules: `ActiveGame` and the methods of `GameEngine` that touch nothing but
-- one game (app/core/game_engine.py). A method returns the game beside its result, or raises.
pub mod Claims
pub mod Placement
pub mod Turns
pub mod Endings
pub mod Moves
use mathlib.Core.Option
use game_backend.Base.{
  ℕ, suc, ◌+◌, ◌%◌, String, Bool, true, false, not, ◌&&◌, ◌||◌, Option, none, some, List, [], ◌∷◌,
  ◌++◌, ℤ, pos, negsuc, pos_part, ◌+ℤ◌, ltb_ℤ, leb_ℤ, ltb, leb, ◌==◌, if◌then◌else◌, length,
  get_elem?, str_eq, Dict, lookup, insert, type_error, attribute_error, index_error, value_error,
  key_error, Result, ok, raise, Action, pure, fail, gets, lift, or_raise, ◌>>=◌, ◌>>◌, modify, Json,
  null, bool, int, real, obj, Fields, get_field,
}
use game_backend.Constants.{GameStatus, board_size, max_turns}
use game_backend.Board.{Board, cell?, set_cell, has_empty}
use game_backend.Schemas.{ErrorCode, ClientState}

-- An entry of `action_history`.
pub record Move : Type 0 where
  pub player_id : String
  pub action : Json
  pub payload : Json
  pub turn : ℕ
  pub timestamp : ℕ

pub record ActiveGame : Type 0 where
  pub room_id : String
  pub match_id : Option String
  pub player_ids : List String
  pub player_elos : Dict ℤ
  pub current_player_idx : ℕ
  pub board : Board
  pub scores : Dict ℕ
  pub turn_number : ℕ
  pub status : GameStatus
  pub winner_id : Option String
  pub action_history : List Move
  pub started_at : ℕ
  pub last_action_time : ℕ
  pub disconnected_players : List String

-- `self.player_ids[self.current_player_idx]`
unfoldable pub current_player_id : ActiveGame → Result String
current_player_id g = elim (get_elem? g.player_ids g.current_player_idx) [
  | none ↦ raise index_error
  | some pid ↦ ok pid
]

unfoldable pub to_client_state : ActiveGame → Result ClientState
to_client_state g = elim (current_player_id g) [
  | raise e ↦ raise e
  | ok pid ↦ ok (record {
    board = g.board;
    scores = g.scores;
    turn_number = g.turn_number;
    current_player_id = pid;
    status = g.status;
    winner_id = g.winner_id;
    player_ids = g.player_ids;
  })
]

-- `0 <= v < BOARD_SIZE`; a `bool` is an `int` in Python.
abbrev on_board : ℤ → Bool
on_board n = leb_ℤ (pos 0) n && ltb_ℤ n (pos board_size)

unfoldable pub in_range : Json → Result Bool
in_range (int n) = ok (on_board n)
in_range (real n) = ok (on_board n)
in_range (bool b) = ok true
in_range v = raise type_error

-- The index that a value that passed `in_range` is: a float is none.
unfoldable pub as_index : Json → Result ℕ
as_index (int n) = ok (pos_part n)
as_index (bool b) = ok (if b then 1 else 0)
as_index v = raise type_error

-- `player_ids.index(pid)`; `none` is a `ValueError`
unfoldable pub index_of : String → List String → Option ℕ
index_of pid [] = none
index_of pid (p ∷ ps) = if str_eq pid p then some 0 else Option.map suc (index_of pid ps)

-- `game.scores[player_id] += 1`
unfoldable pub add_score : String → Action ActiveGame (Unit {0})
add_score pid g = elim (lookup pid g.scores) [
  | none ↦ (raise key_error, g)
  | some n ↦ (ok tt, record g { scores = insert pid (n + 1) g.scores })
]

-- The claim of one adjacent cell: its coordinates may lie off the board.
unfoldable pub claim_at : ℕ → String → ℕ → ℕ → Action ActiveGame (Unit {0})
claim_at num pid x y g = elim (cell? g.board y x) [
  | none ↦ (raise index_error, g)
  | some c ↦
      if c == 0 then add_score pid (record g { board = set_cell g.board y x num }) else (ok tt, g)
]

unfoldable pub claim_cell : ℕ → String → ℤ → ℤ → Action ActiveGame (Unit {0})
claim_cell num pid nx ny g =
    if on_board nx && on_board ny
    then claim_at num pid (pos_part nx) (pos_part ny) g
    else (ok tt, g)

abbrev pub offsets : List (ℤ × ℤ)
offsets = (negsuc 0, pos 0) ∷ (pos 1, pos 0) ∷ (pos 0, negsuc 0) ∷ (pos 0, pos 1) ∷ []

-- The loop over the adjacent cells.
unfoldable pub claim_adjacent : ℕ → String → ℤ → ℤ → List (ℤ × ℤ) → Action ActiveGame (Unit {0})
claim_adjacent num pid x y [] = pure tt
claim_adjacent num pid x y ((dx, dy) ∷ ds) = do
  claim_cell num pid (x +ℤ dx) (y +ℤ dy)
  claim_adjacent num pid x y ds

abbrev score_of : String → ActiveGame → ℕ
score_of pid g = Option.get_or (lookup pid g.scores) 0

-- The placement itself, on an empty cell. `none` stands for `return True`.
unfoldable pub place_piece : String → ℕ → ℕ → Action ActiveGame (Option ErrorCode)
place_piece pid x y = do
  ps ← gets (λ g. g.player_ids)
  i ← or_raise (index_of pid ps) value_error
  modify (λ g. record g {
    board = set_cell g.board y x (i + 1);
    scores = insert pid (score_of pid g + 1) g.scores;
  })
  claim_adjacent (i + 1) pid (pos x) (pos y) offsets
  pure none

-- `if game.board[y][x] != 0`, for values that passed `in_range`.
unfoldable pub place_on : String → Json → Json → Action ActiveGame (Option ErrorCode)
place_on pid vx vy = do
  y ← lift (as_index vy)
  x ← lift (as_index vx)
  b ← gets (λ g. g.board)
  c ← or_raise (cell? b y x) index_error
  if c == 0 then place_piece pid x y else pure (some ErrorCode.cell_occupied)

-- The comparisons go from left to right and stop at the first that fails.
unfoldable pub both_in_range : Json → Json → Result Bool
both_in_range vx vy = elim (in_range vx) [
  | raise e ↦ raise e
  | ok false ↦ ok false
  | ok true ↦ in_range vy
]

-- A coordinate of the action's data: absent and `null` are the same to the code.
unfoldable pub coordinate : String → Fields → Option Json
coordinate k fs = elim (get_field k fs) [ none ↦ none | some null ↦ none | some v ↦ some v ]

unfoldable pub place_at : String → Option Json → Option Json → Action ActiveGame (Option ErrorCode)
place_at pid (some vx) (some vy) = do
  inside ← lift (both_in_range vx vy)
  if inside then place_on pid vx vy else pure (some ErrorCode.out_of_bounds)
place_at pid _ _ = pure (some ErrorCode.missing_coords)

-- `_apply_place_action`: `none` where it returns `True`, and otherwise the error that it sends
-- before it returns `False`. Data that is no `dict` has no method `get`.
unfoldable pub apply_place_action : String → Json → Action ActiveGame (Option ErrorCode)
apply_place_action pid (obj fs) = place_at pid (coordinate "x" fs) (coordinate "y" fs)
apply_place_action pid v = fail attribute_error

-- The comparison of the two scores; a draw has no winner.
unfoldable pub winner_of : String → String → ActiveGame → Option String
winner_of p1 p2 g =
    if ltb (score_of p2 g) (score_of p1 g)
    then some p1
    else if ltb (score_of p1 g) (score_of p2 g)
    then some p2
    else none

-- `_determine_winner`, on `game.player_ids`
unfoldable pub determine_winner : List String → ActiveGame → ActiveGame
determine_winner (p1 ∷ p2 ∷ _) g = record g { winner_id = winner_of p1 p2 g }
determine_winner _ g = g

-- `_check_game_over`: whether the game is over, and the game.
unfoldable pub check_game_over : ActiveGame → Bool × ActiveGame
check_game_over g =
    if leb max_turns g.turn_number || not (has_empty g.board)
    then (true, determine_winner g.player_ids (record g { status = GameStatus.finished }))
    else (false, g)

-- `(current_player_idx + 1) % len(player_ids)`
unfoldable pub advance_turn : ActiveGame → ActiveGame
advance_turn g = record g { current_player_idx = (g.current_player_idx + 1) % length g.player_ids }

-- The end of `process_action` that touches only the game: it records the action, counts the turn,
-- and passes the turn on unless the game is over. The first result is whether it is.
unfoldable pub finish_turn : String → Json → Json → ℕ → ℕ → ActiveGame → Bool × ActiveGame
finish_turn pid action payload now later g =
    let move : Move = record {
      player_id = pid;
      action = action;
      payload = payload;
      turn = g.turn_number;
      timestamp = now;
    } in
    let g' : ActiveGame = record g {
      action_history = g.action_history ++ move ∷ [];
      last_action_time = later;
      turn_number = g.turn_number + 1;
    } in
    let (over, g'') = check_game_over g' in if over then (true, g'') else (false, advance_turn g'')
