-- ===== src/Board/Counting.antt =====
-- How many cells of a board hold a value, and what a write does to that number.
use game_backend.Base.{
  ℕ, zero, suc, ◌+◌, ◌*◌, ◌≤◌, ◌<◌, ◌≡◌, refl, true, false, some, List, [], ◌∷◌, arith, length,
  get_elem?, set, All, ◌==◌, if◌then◌else◌, Option-cases, inl, inr,
}
use game_backend.Board.{Board, cell?, set_cell, row_has_empty, has_empty}

unfoldable pub count_row : ℕ → List ℕ → ℕ
count_row v [] = 0
count_row v (c ∷ row) = (if c == v then 1 else 0) + count_row v row

unfoldable pub count_cells : ℕ → Board → ℕ
count_cells v [] = 0
count_cells v (row ∷ b) = count_row v row + count_cells v b

count_row-set :
    (v : ℕ) (row : List ℕ) (x w : ℕ) {c : ℕ}
    → get_elem? row x ≡ some c
    → count_row v (set row x w) + (if c == v then 1 else 0)
      ≡ count_row v row + (if w == v then 1 else 0)
unfolding count_row
count_row-set v [] x w h = cc
count_row-set v (d ∷ row) zero w h = ground arith
count_row-set v (d ∷ row) (suc x) w h = ground (arith, count_row-set v row x w h)

count_cells-set :
    (v : ℕ) (b : Board) (y : ℕ) (new : List ℕ) {row : List ℕ}
    → get_elem? b y ≡ some row
    → count_cells v (set b y new) + count_row v row ≡ count_cells v b + count_row v new
unfolding count_cells
count_cells-set v [] y new h = cc
count_cells-set v (d ∷ b) zero new h = ground arith
count_cells-set v (d ∷ b) (suc y) new h = ground (arith, count_cells-set v b y new h)

-- A write of `w` over a cell that held `c` moves one cell from the count of `c` to that of `w`.
pub count_cells-set_cell :
    (v : ℕ) (b : Board) (y x w : ℕ) {c : ℕ}
    → cell? b y x ≡ some c
    → count_cells v (set_cell b y x w) + (if c == v then 1 else 0)
      ≡ count_cells v b + (if w == v then 1 else 0)
unfolding cell? set_cell
count_cells-set_cell v b y x w {c} h = elim (Option-cases (get_elem? b y)) [
  | inl absent ↦ ground arith
  | inr (row, e) ↦
      ground (arith, e, count_cells-set v b y (set row x w) e, count_row-set v row x w {c = c})
]

-- A board that has an empty cell is one whose count of zeros is not zero.
count_row-zero : (row : List ℕ) → row_has_empty row ≡ false → count_row 0 row ≡ 0
unfolding row_has_empty count_row
count_row-zero [] h = refl
count_row-zero (c ∷ row) h = ground (arith, count_row-zero row)

count_row_pos : (row : List ℕ) → row_has_empty row ≡ true → 0 < count_row 0 row
unfolding row_has_empty count_row
count_row_pos [] h = cc
count_row_pos (c ∷ row) h = ground (arith, count_row_pos row)

pub count_cells-zero : (b : Board) → has_empty b ≡ false → count_cells 0 b ≡ 0
unfolding has_empty count_cells
count_cells-zero [] h = refl
count_cells-zero (row ∷ b) h = ground (arith, count_row-zero row, count_cells-zero b)

pub count_cells_pos : (b : Board) → has_empty b ≡ true → 0 < count_cells 0 b
unfolding has_empty count_cells
count_cells_pos [] h = cc
count_cells_pos (row ∷ b) h = ground (arith, count_row_pos row, count_cells_pos b)

-- On a board whose cells are 0, 1 and 2 each cell is counted once.
count_row_total :
    (row : List ℕ)
    → All (λ c. c ≤ 2) row
    → count_row 0 row + count_row 1 row + count_row 2 row ≡ length row
unfolding count_row
count_row_total [] h = refl
count_row_total (c ∷ row) h = ground (arith, count_row_total row h.1)

pub count_cells_total :
    (n : ℕ) (b : Board)
    → All (λ row. length row ≡ n) b
    → All (All (λ c. c ≤ 2)) b
    → count_cells 0 b + count_cells 1 b + count_cells 2 b ≡ length b * n
unfolding count_cells
count_cells_total n [] h k = omega arith
count_cells_total n (row ∷ b) h k =
    grind (arith, count_row_total row k.0, count_cells_total n b h.1 k.1)
