-- ===== src/Game/Placement.antt =====
-- `_apply_place_action` of app/core/game_engine.py as a whole: what an accepted placement does, and
-- that a refused one does nothing.
use game_backend.Base.{
  ℕ, ◌+◌, ◌<◌, ◌≡◌, refl, ◌≢◌, ◌⊎◌, inl, inr, String, Option, none, some, [], ◌∷◌, arith, pos, ◌==◌,
  Bool-cases, Option-cases, Result-cases, insert, str_eq_iff, Result, ok, raise, Json, obj,
}
use game_backend.Schemas.{ErrorCode}
use game_backend.Board.{cell?, set_cell}
use game_backend.Board.Counting.{count_cells, count_cells-set_cell}
use game_backend.Game.{
  ActiveGame, index_of, offsets, score_of, claim_adjacent, place_piece, place_on, place_at,
  apply_place_action, as_index,
}
use game_backend.Game.Claims.{
  Owner, IsTallied, Extends, Extends-trans, set_cell-Extends, set_cell-IsTallied, score_known,
  claim_adjacent-IsClaim,
}

-- An accepted placement of player `num`: it changes the board and the scores alone, takes at
-- least one empty cell and at most five, and leaves every owned cell to its owner.
pub record IsPlacement (p q : String) (num : ℕ) (g g' : ActiveGame) : Type 0 where
  pub same : g' ≡ record g { board = g'.board; scores = g'.scores }
  pub tallied : IsTallied p q g'.board g'.scores
  pub extends : Extends num 5 g.board g'.board
  pub taken : count_cells 0 g'.board < count_cells 0 g.board

-- How a call that tried to place ended: an error that it sent, or an exception, changes nothing.
abbrev pub Places :
    String → String → ℕ → ActiveGame → Result (Option ErrorCode) × ActiveGame → Type 0
Places p q num g (ok none, g') = IsPlacement p q num g g'
Places p q num g (ok (some code), g') = g' ≡ g
Places p q num g (raise e, g') = g' ≡ g

-- The game when the piece lies, before the claims.
abbrev start : ℕ → String → ℕ → ℕ → ActiveGame → ActiveGame
start num pid x y g = record g {
  board = set_cell g.board y x num;
  scores = insert pid (score_of pid g + 1) g.scores;
}

module _ (p q : String) (distinct : p ≢ q) (pid : String) (num : ℕ) (owner : Owner p q pid num)
    (g : ActiveGame) (players : g.player_ids ≡ p ∷ q ∷ [])
    (tallied : IsTallied p q g.board g.scores) where
  index_of_owner : (i : ℕ) × (index_of pid g.player_ids ≡ some i) × (i + 1 ≡ num)
  unfolding index_of
  index_of_owner = elim owner [
    | inl o ↦ (0, ground (arith, players, str_eq_iff pid p), omega (arith, o.1))
    | inr o ↦ (1, ground (arith, players, str_eq_iff pid p, str_eq_iff pid q), omega (arith, o.1))
  ]

  place_piece_run :
      (x y : ℕ) {g' : ActiveGame}
      → claim_adjacent num pid (pos x) (pos y) offsets (start num pid x y g) ≡ (ok tt, g')
      → place_piece pid x y g ≡ (ok none, g')
  unfolding place_piece
  place_piece_run x y h =
      let (i, found, number) = index_of_owner in ground (arith, found, number, h)

  owned_number : (num ≡ 1) ⊎ (num ≡ 2)
  owned_number = ground (arith, owner)

  place_piece-Places :
      (x y : ℕ) → cell? g.board y x ≡ some 0 → Places p q num g (place_piece pid x y g)
  place_piece-Places x y empty =
      let (n, score) = score_known p q distinct pid num owner g.board g.scores tallied in
      let g1 : ActiveGame = start num pid x y g in
      let t1 : IsTallied p q g1.board g1.scores = rw (score) (
        set_cell-IsTallied p q distinct pid num owner g.board g.scores y x n tallied empty score) in
      let c = claim_adjacent-IsClaim p q distinct pid num owner (pos x) (pos y) offsets g1 t1 in
      let after : ActiveGame = (claim_adjacent num pid (pos x) (pos y) offsets g1).1 in
      rw (place_piece_run x y {g' = after} (ground (arith, c.done))) (record {
        same = ground (arith, c.same);
        tallied = c.tallied;
        extends =
            Extends-trans (set_cell-Extends g.board y x num owned_number empty) c.extends
              (omega arith);
        taken =
            ground (
              arith,
              owned_number,
              c.extends.shrinks,
              count_cells-set_cell 0 g.board y x num empty,
            );
      })

  -- A piece on an empty cell is never refused.
  pub place_piece_done :
      (x y : ℕ)
      → cell? g.board y x ≡ some 0
      → (g' : ActiveGame) × (place_piece pid x y g ≡ (ok none, g'))
  place_piece_done x y empty =
      let (n, score) = score_known p q distinct pid num owner g.board g.scores tallied in
      let g1 : ActiveGame = start num pid x y g in
      let t1 : IsTallied p q g1.board g1.scores = rw (score) (
        set_cell-IsTallied p q distinct pid num owner g.board g.scores y x n tallied empty score) in
      let c = claim_adjacent-IsClaim p q distinct pid num owner (pos x) (pos y) offsets g1 t1 in
      let after : ActiveGame = (claim_adjacent num pid (pos x) (pos y) offsets g1).1 in
      (after, place_piece_run x y {g' = after} (ground (arith, c.done)))

  place_on-Places : (vx vy : Json) → Places p q num g (place_on pid vx vy g)
  unfolding place_on
  place_on-Places vx vy = elim (Result-cases (as_index vy)) [
    | inl (e, no_index) ↦ ground (arith, no_index)
    | inr (y, ey) ↦ elim (Result-cases (as_index vx)) [
      | inl (e, no_index) ↦ ground (arith, ey, no_index)
      | inr (x, ex) ↦ elim (Option-cases (cell? g.board y x)) [
        | inl off ↦ ground (arith, ey, ex, off)
        | inr (c, read) ↦ elim (Bool-cases (c == 0)) [
          | inl empty ↦ ground (arith, ey, ex, read, empty, place_piece-Places x y (ground arith))
          | inr taken ↦ ground (arith, ey, ex, read, taken)
        ]
      ]
    ]
  ]

  place_at-Places : (vx vy : Option Json) → Places p q num g (place_at pid vx vy g)
  unfolding place_at
  place_at-Places (some vx) (some vy) = ground (arith, place_on-Places vx vy)
  place_at-Places _ _ = refl

  -- Whatever data a client sends, `_apply_place_action` for one of the two players of a game
  -- whose scores are the numbers of cells owned either accepts the placement, and then it changes
  -- the board and the scores alone, the scores are again the numbers of cells owned, one to five
  -- empty cells are taken and every owned cell keeps its owner; or it reports an error or raises,
  -- and then the game is unchanged.
  pub apply_place_action-Places : (v : Json) → Places p q num g (apply_place_action pid v g)
  unfolding apply_place_action
  apply_place_action-Places (obj fs) = place_at-Places _ _
  apply_place_action-Places _ = refl
