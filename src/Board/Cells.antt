-- ===== src/Board/Cells.antt =====
-- Reads after writes on a board, and the shape of a board.
use game_backend.Base.{
  ℕ, ◌≤◌, ◌<◌, ◌≡◌, refl, ◌≢◌, ◌⊎◌, inl, inr, some, arith, length, get_elem?, set, All, All-set,
  All-get_elem?, length-set, get_elem?-set_self, get_elem?-set_ne, get_elem?_of_lt,
  lt-length_of_get_elem?, Option-cases,
}
use game_backend.Constants.{board_size}
use game_backend.Board.{Board, cell?, set_cell, empty_board}

-- A board of the right size whose cells are empty or owned by player 1 or 2.
pub record IsGrid (b : Board) : Type 0 where
  pub rows : length b ≡ board_size
  pub columns : All (λ row. length row ≡ board_size) b
  pub owners : All (All (λ c. c ≤ 2)) b

pub empty_board-IsGrid : IsGrid empty_board
empty_board-IsGrid = record { rows = refl; columns = omega arith; owners = omega arith }

-- Every cell inside the bounds can be read.
pub cell?_of_lt :
    (b : Board) (y x : ℕ)
    → IsGrid b
    → y < board_size
    → x < board_size
    → (c : ℕ) × (cell? b y x ≡ some c)
unfolding cell?
cell?_of_lt b y x g hy hx =
    let (row, e) = get_elem?_of_lt b y (omega (arith, g.rows)) in
    let width : length row ≡ board_size =
      All-get_elem? (λ r. length r ≡ board_size) b y g.columns e in
    let (c, read) = get_elem?_of_lt row x (omega (arith, width)) in (c, ground (arith, e, read))

-- A write changes the cell that it names and no other.
pub cell?-set_cell_self :
    (b : Board) (y x v : ℕ) {c : ℕ} → cell? b y x ≡ some c → cell? (set_cell b y x v) y x ≡ some v
unfolding cell? set_cell
cell?-set_cell_self b y x v {c} h = elim (Option-cases (get_elem? b y)) [
  | inl absent ↦ ground arith
  | inr (row, e) ↦ ground (
    arith,
    e,
    get_elem?-set_self b y (set row x v) (lt-length_of_get_elem? b y e),
    get_elem?-set_self row x v,
    lt-length_of_get_elem? row x {v = c},
  )
]

pub cell?-set_cell_ne :
    (b : Board) (y x j i v : ℕ) → (y ≢ j) ⊎ (x ≢ i) → cell? (set_cell b y x v) j i ≡ cell? b j i
unfolding cell? set_cell
cell?-set_cell_ne b y x j i v h = elim (Option-cases (get_elem? b y)) [
  | inl absent ↦ ground arith
  | inr (row, e) ↦ elim h [
    | inl other_row ↦ ground (arith, e, get_elem?-set_ne b y j (set row x v) other_row)
    | inr other_column ↦ ground (
      arith,
      e,
      get_elem?-set_self b y (set row x v) (lt-length_of_get_elem? b y e),
      get_elem?-set_ne b y j (set row x v),
      get_elem?-set_ne row x i v other_column,
    )
  ]
]

-- A write of an owner keeps the shape.
pub set_cell-IsGrid : (b : Board) (y x v : ℕ) → IsGrid b → v ≤ 2 → IsGrid (set_cell b y x v)
unfolding set_cell
set_cell-IsGrid b y x v g h = elim (Option-cases (get_elem? b y)) [
  | inl absent ↦ ground (arith, absent, g)
  | inr (row, e) ↦
      let width : length row ≡ board_size =
        All-get_elem? (λ r. length r ≡ board_size) b y g.columns e in
      let owned : All (λ c. c ≤ 2) row = All-get_elem? (All (λ c. c ≤ 2)) b y g.owners e in
      rw (e, set_cell)
        (record {
          rows = omega (arith, g.rows, length-set {0} b y (set row x v));
          columns =
              All-set (λ r. length r ≡ board_size) b y (set row x v) g.columns
                (omega (arith, width, length-set {0} row x v));
          owners =
              All-set (All (λ c. c ≤ 2)) b y (set row x v) g.owners
                (All-set (λ c. c ≤ 2) row x v owned h);
        })
]
