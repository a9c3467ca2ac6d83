-- ===== src/Board.antt =====
-- The board of a game: a list of rows of cells, 0 for an empty cell and the number of its owner
-- otherwise (the `board` of `ActiveGame` in app/core/game_engine.py, and its reads and writes).
pub mod Cells
pub mod Counting
use game_backend.Base.{
  ℕ, Bool, ◌||◌, Option, none, some, List, [], ◌∷◌, get_elem?, set, replicate, ◌==◌,
}
use game_backend.Constants.{board_size}

abbrev pub Board : Type 0
Board = List (List ℕ)

-- `[[0] * BOARD_SIZE for _ in range(BOARD_SIZE)]`
abbrev pub empty_board : Board
empty_board = replicate board_size (replicate board_size 0)

-- `board[y][x]`; `none` is an `IndexError`
unfoldable pub cell? : Board → ℕ → ℕ → Option ℕ
cell? b y x = elim (get_elem? b y) [ none ↦ none | some row ↦ get_elem? row x ]

-- `board[y][x] = v`, where the cell is there
unfoldable pub set_cell : Board → ℕ → ℕ → ℕ → Board
set_cell b y x v = elim (get_elem? b y) [ none ↦ b | some row ↦ set b y (set row x v) ]

-- Whether a row, or a board, holds a 0: the `any` of `_check_game_over`.
unfoldable pub row_has_empty : List ℕ → Bool
row_has_empty [] = Bool.false
row_has_empty (c ∷ row) = c == 0 || row_has_empty row

unfoldable pub has_empty : Board → Bool
has_empty [] = Bool.false
has_empty (row ∷ b) = row_has_empty row || has_empty b
