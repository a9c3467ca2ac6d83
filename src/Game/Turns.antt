-- ===== src/Game/Turns.antt =====
-- The end of a turn (`_check_game_over`, `_determine_winner` and the end of `process_action` in
-- app/core/game_engine.py): the invariant of a game, when a game is over, and who has won.
use game_backend.Base.{
  ℕ, suc, ◌+◌, ◌≤◌, ◌<◌, ◌≡◌, refl, ◌≢◌, ◌↔◌, ◌⊎◌, inl, inr, String, true, false, none, some, [],
  ◌∷◌, arith, ◌==◌, Bool-cases, Json, ok, ◌%◌, leb, ◌||◌, not, ◌++◌,
}
use game_backend.Constants.{GameStatus, max_turns}
use game_backend.Board.{has_empty}
use game_backend.Board.Counting.{count_cells, count_cells_pos, count_cells-zero}
use game_backend.Game.{
  ActiveGame, current_player_id, winner_of, determine_winner, check_game_over, advance_turn,
  finish_turn,
}
use game_backend.Game.Claims.{Owner, IsTallied}
use game_backend.Game.Placement.{IsPlacement}

-- A game of two players whose scores are the cells they own, and in which every turn so far took
-- at least one of the hundred cells.
pub record IsValid (p q : String) (g : ActiveGame) : Type 0 where
  pub players : g.player_ids ≡ p ∷ q ∷ []
  pub distinct : p ≢ q
  pub turn : g.current_player_idx < 2
  pub tallied : IsTallied p q g.board g.scores
  pub progress : g.turn_number + count_cells 0 g.board ≤ 100

module _ (p q : String) (g : ActiveGame) (v : IsValid p q g) where
  -- The player whose turn it is, and the number of that player's cells.
  pub current-Owner :
      (pid : String) × (current_player_id g ≡ ok pid) × Owner p q pid (suc g.current_player_idx)
  unfolding current_player_id
  current-Owner = elim (Bool-cases (g.current_player_idx == 0)) [
    | inl first ↦
        let e : g.current_player_idx ≡ 0 = ground arith in
        (p, rw (e, v.players), inl (refl, omega arith))
    | inr second ↦
        let e : g.current_player_idx ≡ 1 = omega (arith, v.turn, second_turn second) in
        (q, rw (e, v.players), inr (refl, omega arith))
  ]
    where
      second_turn : (g.current_player_idx == 0) ≡ false → g.current_player_idx ≢ 0
      second_turn h = ground arith

  -- A valid game is over exactly when its board is full: the limit on the number of turns never
  -- ends a game before.
  pub check_game_over_iff : ((check_game_over g).0 ≡ true) ↔ (count_cells 0 g.board ≡ 0)
  unfolding check_game_over
  check_game_over_iff = (
    λ over. ground (arith, v.progress, count_cells-zero g.board),
    λ full. ground (arith, count_cells_pos g.board),
  )

  -- In a valid game the winner is the player who owns more cells of the board, and there is none
  -- exactly when both own as many.
  pub winner_of_lem :
      ((winner_of p q g ≡ some p) × (count_cells 2 g.board < count_cells 1 g.board))
      ⊎ ((winner_of p q g ≡ some q) × (count_cells 1 g.board < count_cells 2 g.board))
      ⊎ ((winner_of p q g ≡ none) × (count_cells 1 g.board ≡ count_cells 2 g.board))
  unfolding winner_of
  winner_of_lem = ground (arith, v.tallied.first, v.tallied.second)

  -- A finished game differs in its status and its winner; any other game is as it was.
  pub check_game_over_lem :
      ((check_game_over g
          ≡ (true, record g { status = GameStatus.finished; winner_id = winner_of p q g }))
        × (count_cells 0 g.board ≡ 0))
      ⊎ ((check_game_over g ≡ (false, g)) × (0 < count_cells 0 g.board))
  unfolding check_game_over determine_winner winner_of
  check_game_over_lem = elim (Bool-cases (leb max_turns g.turn_number || not (has_empty g.board))) [
    | inl over ↦ inl (rw (over, v.players), check_game_over_iff.0 (rw over))
    | inr more ↦ inr (rw more, ground (arith, count_cells_pos g.board))
  ]

module _ (p q pid : String) (action payload : Json) (now later : ℕ) (g : ActiveGame) where
  abbrev pub played : ActiveGame
  played = record g {
    action_history =
        g.action_history
        ++ record {
          player_id = pid;
          action = action;
          payload = payload;
          turn = g.turn_number;
          timestamp = now;
        }
          ∷ [];
    last_action_time = later;
    turn_number = g.turn_number + 1;
  }

  -- In a game that is valid with the turn counted, the turn ends in one of two ways.
  pub finish_turn_lem :
      IsValid p q played
      → ((finish_turn pid action payload now later g ≡ (
        true,
        record played { status = GameStatus.finished; winner_id = winner_of p q played },
      ))
          × (count_cells 0 g.board ≡ 0))
        ⊎ ((finish_turn pid action payload now later g
              ≡ (false, record played { current_player_idx = (g.current_player_idx + 1) % 2 }))
            × (0 < count_cells 0 g.board))
  unfolding finish_turn advance_turn
  finish_turn_lem v = elim (check_game_over_lem p q played v) [
    | inl over ↦ inl (rw over.0, over.1)
    | inr more ↦ inr (rw (more.0, v.players), more.1)
  ]

  pub played-IsValid :
      (before : ActiveGame) (num : ℕ)
      → IsValid p q before
      → IsPlacement p q num before g
      → IsValid p q played
  played-IsValid before num v m = record {
    players = ground (arith, m.same, v.players);
    distinct = v.distinct;
    turn = ground (arith, m.same, v.turn);
    tallied = m.tallied;
    progress = ground (arith, m.same, m.taken, v.progress);
  }
