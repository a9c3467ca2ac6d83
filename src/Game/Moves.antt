-- ===== src/Game/Moves.antt =====
-- Which placements are accepted (`_apply_place_action` of app/core/game_engine.py), and that there is
-- one as long as the board is not full.
use game_backend.Base.{
  ℕ, suc, ◌<◌, ◌≡◌, refl, ◌≢◌, inl, inr, String, none, some, List, [], ◌∷◌, arith, int, pos, ◌==◌,
  length, get_elem?, lt-length_of_get_elem?, All-get_elem?, if◌then◌else◌, Bool-cases, Option-cases,
  ◌↔◌, ◌∙◌, ok, Fields, field, end, obj, str_eq, get_field,
}
use game_backend.Constants.{board_size}
use game_backend.Schemas.{ErrorCode}
use game_backend.Board.{Board, cell?}
use game_backend.Board.Counting.{count_row, count_cells}
use game_backend.Board.Cells.{IsGrid, cell?_of_lt}
use game_backend.Game.{
  ActiveGame, coordinate, in_range, both_in_range, as_index, place_piece, place_on, place_at,
  apply_place_action,
}
use game_backend.Game.Claims.{Owner, IsTallied}
use game_backend.Game.Placement.{place_piece_done}

row_with_empty : (row : List ℕ) → 0 < count_row 0 row → (x : ℕ) × (get_elem? row x ≡ some 0)
unfolding count_row
row_with_empty [] h = absurd (omega (arith, h))
row_with_empty (c ∷ row) h = elim (Bool-cases (c == 0)) [
  | inl empty ↦ (0, ground (arith, empty))
  | inr taken ↦ let (x, e) = row_with_empty row (ground (arith, h, taken)) in (suc x, e)
]

empty_cell : (b : Board) → 0 < count_cells 0 b → (y x : ℕ) × (cell? b y x ≡ some 0)
unfolding count_cells cell?
empty_cell [] h = absurd (omega (arith, h))
empty_cell (row ∷ b) h = elim (Bool-cases (count_row 0 row == 0)) [
  | inl full ↦ let (y, x, e) = empty_cell b (ground (arith, h, full)) in (suc y, x, e)
  | inr space ↦ let (x, e) = row_with_empty row (ground (arith, space)) in (0, x, e)
]

cell?_bounds :
    (b : Board) (y x c : ℕ) → IsGrid b → cell? b y x ≡ some c → (y < board_size) × (x < board_size)
unfolding cell?
cell?_bounds b y x c grid e = elim (Option-cases (get_elem? b y)) [
  | inl off ↦ absurd (ground (arith, e, off))
  | inr (row, found) ↦
      let width : length row ≡ board_size =
        All-get_elem? (λ r. length r ≡ board_size) b y grid.columns found in
      (
        omega (arith, grid.rows, lt-length_of_get_elem? b y found),
        omega (arith, width, lt-length_of_get_elem? row x {v = c} (ground (arith, e, found))),
      )
]

module _ (p q : String) (distinct : p ≢ q) (pid : String) (num : ℕ) (owner : Owner p q pid num)
    (g : ActiveGame) (players : g.player_ids ≡ p ∷ q ∷ [])
    (tallied : IsTallied p q g.board g.scores) where
  place_on_reads :
      (x y c : ℕ)
      → cell? g.board y x ≡ some c
      → place_on pid (int (pos x)) (int (pos y)) g
        ≡ (if c == 0 then place_piece pid x y g else (ok (some ErrorCode.cell_occupied), g))
  unfolding place_on as_index
  place_on_reads x y c e = ground (arith, e)

  on_board_reads :
      (fs : Fields) (x y : ℕ)
      → coordinate "x" fs ≡ some (int (pos x))
      → coordinate "y" fs ≡ some (int (pos y))
      → x < board_size
      → y < board_size
      → apply_place_action pid (obj fs) g ≡ place_on pid (int (pos x)) (int (pos y)) g
  unfolding apply_place_action place_at both_in_range in_range
  on_board_reads fs x y ex ey hx hy = ground (arith, ex, ey, hx, hy)

  -- For one of the two players of a game whose scores are the numbers of cells owned, a placement
  -- at integer coordinates on the board is accepted exactly if the cell is empty.
  pub place_action_iff :
      (fs : Fields) (x y : ℕ)
      → coordinate "x" fs ≡ some (int (pos x))
      → coordinate "y" fs ≡ some (int (pos y))
      → x < board_size
      → y < board_size
      → ((apply_place_action pid (obj fs) g).0 ≡ ok none) ↔ (cell? g.board y x ≡ some 0)
  place_action_iff fs x y ex ey hx hy =
      let (c, read) = cell?_of_lt g.board y x tallied.grid hy hx in
      let e = on_board_reads fs x y ex ey hx hy ∙ place_on_reads x y c read in
      elim (Bool-cases (c == 0)) [
        | inl empty ↦
            let free : cell? g.board y x ≡ some 0 = ground (arith, read, empty) in
            let (g', done) =
              place_piece_done p q distinct pid num owner g players tallied x y free in
            (λ h. free, λ h. ground (arith, e, empty, done))
        | inr taken ↦ (
          λ h. absurd (ground (arith, e, taken, h)),
          λ h. absurd (ground (arith, read, taken, h)),
        )
      ]

  -- As long as the board of such a game has an empty cell, there are coordinates on the board at
  -- which the placement of either player is accepted.
  pub move_exists :
      0 < count_cells 0 g.board
      → (x y : ℕ) × (x < board_size)
        × (y < board_size)
        × ((apply_place_action pid
              (obj (field "x" (int (pos x)) (field "y" (int (pos y)) end)))
              g).0
            ≡ ok none)
  unfolding coordinate get_field str_eq
  move_exists space =
      let (y, x, free) = empty_cell g.board space in
      let bounds = cell?_bounds g.board y x 0 tallied.grid free in
      (
        x,
        y,
        bounds.1,
        bounds.0,
        (place_action_iff (field "x" (int (pos x)) (field "y" (int (pos y)) end)) x y refl refl
              bounds.1 bounds.0).1
            free,
      )
