-- ===== src/Game/Claims.antt =====
-- The claims of a placement (`_apply_place_action` in app/core/game_engine.py): the scores stay
-- equal to the cells that the players own, and owned cells stay as they are.
use game_backend.Base.{
  ℕ, suc, ◌+◌, ◌≤◌, ◌<◌, ◌≡◌, refl, ◌≢◌, ◌⊎◌, inl, inr, String, ◌&&◌, some, List, [], ◌∷◌, arith, ℤ,
  pos_part, ◌+ℤ◌, ◌==◌, length, Bool-cases, lookup, insert, lookup-insert_self, lookup-insert_ne,
  Result, ok, Action, ◌>>=◌,
}
use game_backend.Constants.{board_size}
use game_backend.Board.{Board, cell?, set_cell}
use game_backend.Board.Counting.{count_cells, count_cells-set_cell}
use game_backend.Board.Cells.{IsGrid, cell?_of_lt, cell?-set_cell_ne, set_cell-IsGrid}
use game_backend.Game.{ActiveGame, on_board, add_score, claim_at, claim_cell, claim_adjacent}

-- Which number a player's cells have.
abbrev pub Owner : String → String → String → ℕ → Type 0
Owner p q pid num = ((pid ≡ p) × (num ≡ 1)) ⊎ ((pid ≡ q) × (num ≡ 2))

-- The board of two players, and their scores.
pub record IsTallied (p q : String) (board : Board) (scores : List (String × ℕ)) : Type 0 where
  pub grid : IsGrid board
  pub first : lookup p scores ≡ some (count_cells 1 board)
  pub second : lookup q scores ≡ some (count_cells 2 board)

-- What a claim of player `num` may do to a board: take up to `most` empty cells.
pub record Extends (num most : ℕ) (b b' : Board) : Type 0 where
  pub kept : (y x c : ℕ) → cell? b y x ≡ some (suc c) → cell? b' y x ≡ some (suc c)
  pub moved : count_cells 0 b' + count_cells num b' ≡ count_cells 0 b + count_cells num b
  pub shrinks : count_cells 0 b' ≤ count_cells 0 b
  pub bounded : count_cells 0 b ≤ count_cells 0 b' + most

Extends-refl : (num : ℕ) (b : Board) → Extends num 0 b b
Extends-refl num b = record {
  kept = λ y x c h. h;
  moved = refl;
  shrinks = omega arith;
  bounded = omega arith;
}

pub Extends-trans :
    {num m n k : ℕ} {b c d : Board}
    → Extends num m b c
    → Extends num n c d
    → m + n ≤ k
    → Extends num k b d
Extends-trans e f h = record {
  kept = λ y x c r. f.kept y x c (e.kept y x c r);
  moved = omega (arith, e.moved, f.moved);
  shrinks = omega (arith, e.shrinks, f.shrinks);
  bounded = omega (arith, e.bounded, f.bounded);
}

-- What a part of a placement has done to a game: it did not raise, it changed the board and the
-- scores alone, and these still agree.
pub record IsClaim {A : Type 0} (p q : String) (num most : ℕ) (g : ActiveGame) (a : A)
    (r : Result A × ActiveGame) : Type 0 where
  pub done : r.0 ≡ ok a
  pub same : r.1 ≡ record g { board = r.1.board; scores = r.1.scores }
  pub tallied : IsTallied p q r.1.board r.1.scores
  pub extends : Extends num most g.board r.1.board

IsClaim-bind :
    {A B : Type 0} (p q : String) (num m n most : ℕ) (g : ActiveGame) (a : A) (b : B)
    (f : Action ActiveGame A) (k : A → Action ActiveGame B)
    → IsClaim p q num m g a (f g)
    → IsClaim p q num n (f g).1 b (k a (f g).1)
    → m + n ≤ most
    → IsClaim p q num most g b ((f >>= k) g)
IsClaim-bind p q num m n most g a b f k c d h =
    rw (c.done, ◌>>=◌)
      (record {
        done = d.done;
        same = ground (arith, c.same, d.same);
        tallied = d.tallied;
        extends = Extends-trans c.extends d.extends h;
      })

kept-set_cell :
    (b : Board) (y x v j i c : ℕ)
    → cell? b y x ≡ some 0
    → cell? b j i ≡ some (suc c)
    → cell? (set_cell b y x v) j i ≡ some (suc c)
kept-set_cell b y x v j i c empty owned = elim (Bool-cases ((y == j) && (x == i))) [
  | inl here ↦ ground arith
  | inr away ↦ ground (arith, cell?-set_cell_ne b y x j i v)
]

pub set_cell-Extends :
    (b : Board) (y x num : ℕ)
    → (num ≡ 1) ⊎ (num ≡ 2)
    → cell? b y x ≡ some 0
    → Extends num 1 b (set_cell b y x num)
set_cell-Extends b y x num h e = record {
  kept = λ j i c r. kept-set_cell b y x num j i c e r;
  moved =
      ground (arith, h, count_cells-set_cell 0 b y x num e, count_cells-set_cell num b y x num e);
  shrinks = ground (arith, h, count_cells-set_cell 0 b y x num e);
  bounded = ground (arith, h, count_cells-set_cell 0 b y x num e);
}

module _ (p q : String) (distinct : p ≢ q) (pid : String) (num : ℕ)
    (owner : Owner p q pid num) where
  -- The new owner's score is one more, and the other's is not touched.
  pub set_cell-IsTallied :
      (b : Board) (scores : List (String × ℕ)) (y x n : ℕ)
      → IsTallied p q b scores
      → cell? b y x ≡ some 0
      → lookup pid scores ≡ some n
      → IsTallied p q (set_cell b y x num) (insert pid (n + 1) scores)
  set_cell-IsTallied b scores y x n t e s = record {
    grid = set_cell-IsGrid b y x num t.grid (ground (arith, owner));
    first = ground (
      arith,
      owner,
      t.first,
      count_cells-set_cell 1 b y x num e,
      lookup-insert_self p (n + 1) scores,
      lookup-insert_ne q p (n + 1) scores,
    );
    second = ground (
      arith,
      owner,
      t.second,
      count_cells-set_cell 2 b y x num e,
      lookup-insert_self q (n + 1) scores,
      lookup-insert_ne p q (n + 1) scores,
    );
  }

  pub score_known :
      (b : Board) (scores : List (String × ℕ))
      → IsTallied p q b scores
      → (n : ℕ) × (lookup pid scores ≡ some n)
  score_known b scores t = elim owner [
    | inl o ↦ (count_cells 1 b, ground (arith, o.0, t.first))
    | inr o ↦ (count_cells 2 b, ground (arith, o.0, t.second))
  ]

  claim_at-IsClaim :
      (x y : ℕ) (g : ActiveGame)
      → IsTallied p q g.board g.scores
      → y < board_size
      → x < board_size
      → IsClaim p q num 1 g tt (claim_at num pid x y g)
  unfolding claim_at add_score
  claim_at-IsClaim x y g t hy hx =
      let (c, read) = cell?_of_lt g.board y x t.grid hy hx in
      let (n, score) = score_known g.board g.scores t in
      elim (Bool-cases (c == 0)) [
        | inl empty ↦
            let e : cell? g.board y x ≡ some 0 = ground arith in
            rw (e, claim_at, score, add_score)
              (record {
                done = refl;
                same = refl;
                tallied = set_cell-IsTallied g.board g.scores y x n t e score;
                extends = set_cell-Extends g.board y x num (ground (arith, owner)) e;
              })
        | inr taken ↦
            rw (read, claim_at, taken)
              (record {
                done = refl;
                same = refl;
                tallied = t;
                extends =
                    Extends-trans (Extends-refl num g.board) (Extends-refl num g.board)
                      (omega arith);
              })
      ]

  nothing_claimed :
      (g : ActiveGame) → IsTallied p q g.board g.scores → IsClaim p q num 0 g tt (ok tt, g)
  nothing_claimed g t = record {
    done = refl;
    same = refl;
    tallied = t;
    extends = Extends-refl num g.board;
  }

  claim_cell-IsClaim :
      (nx ny : ℤ) (g : ActiveGame)
      → IsTallied p q g.board g.scores
      → IsClaim p q num 1 g tt (claim_cell num pid nx ny g)
  unfolding claim_cell
  claim_cell-IsClaim nx ny g t = elim (Bool-cases (on_board nx && on_board ny)) [
    | inl inside ↦
        rw inside (claim_at-IsClaim (pos_part nx) (pos_part ny) g t (ground arith) (ground arith))
    | inr outside ↦ rw outside (record {
      done = refl;
      same = refl;
      tallied = t;
      extends = Extends-trans (Extends-refl num g.board) (Extends-refl num g.board) (omega arith);
    })
  ]

  pub claim_adjacent-IsClaim :
      (x y : ℤ) (ds : List (ℤ × ℤ)) (g : ActiveGame)
      → IsTallied p q g.board g.scores
      → IsClaim p q num (length ds) g tt (claim_adjacent num pid x y ds g)
  unfolding claim_adjacent
  claim_adjacent-IsClaim x y [] g t = nothing_claimed g t
  claim_adjacent-IsClaim x y ((dx, dy) ∷ ds) g t =
      let c = claim_cell-IsClaim (x +ℤ dx) (y +ℤ dy) g t in
      IsClaim-bind p q num 1 (length ds) (suc (length ds)) g tt tt
        (claim_cell num pid (x +ℤ dx) (y +ℤ dy)) (λ _. claim_adjacent num pid x y ds) c
        (claim_adjacent-IsClaim x y ds (claim_cell num pid (x +ℤ dx) (y +ℤ dy) g).1 c.tallied)
        (omega arith)
