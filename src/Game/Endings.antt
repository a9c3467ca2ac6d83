-- ===== src/Game/Endings.antt =====
-- A turn from its placement to its end (`_apply_place_action`, the end of `process_action` and
-- `_check_game_over` in app/core/game_engine.py).
use game_backend.Base.{
  ℕ, suc, ◌+◌, ◌<◌, ◌≡◌, refl, sym, subst, ◌⊎◌, inl, inr, String, Bool, true, false, none, some, [],
  ◌∷◌, arith, Json, ok, ◌%◌,
}
use game_backend.Constants.{GameStatus}
use game_backend.Board.Counting.{count_cells}
use game_backend.Game.{ActiveGame, current_player_id, apply_place_action, finish_turn}
use game_backend.Game.Claims.{Owner}
use game_backend.Game.Placement.{Places, IsPlacement, apply_place_action-Places}
use game_backend.Game.Turns.{
  IsValid, current-Owner, played, played-IsValid, finish_turn_lem, winner_of_lem,
}

-- The winner owns more cells of the board, and there is none if both own as many.
abbrev pub IsWon : String → String → ActiveGame → Type 0
IsWon p q g =
    ((g.winner_id ≡ some p) × (count_cells 2 g.board < count_cells 1 g.board))
    ⊎ ((g.winner_id ≡ some q) × (count_cells 1 g.board < count_cells 2 g.board))
    ⊎ ((g.winner_id ≡ none) × (count_cells 1 g.board ≡ count_cells 2 g.board))

-- What a turn of a player makes of a game: whether it is over, and the game after it.
pub record TurnEnds (p q pid : String) (g : ActiveGame) (r : Bool × ActiveGame) : Type 0 where
  pub valid : IsValid p q r.1
  pub counted : r.1.turn_number ≡ g.turn_number + 1
  pub taken : count_cells 0 r.1.board < count_cells 0 g.board
  pub ends :
      ((r.0 ≡ true)
        × (count_cells 0 r.1.board ≡ 0)
        × (r.1.status ≡ GameStatus.finished)
        × IsWon p q r.1)
      ⊎ ((r.0 ≡ false)
          × (0 < count_cells 0 r.1.board)
          × (r.1.status ≡ g.status)
          × (r.1.winner_id ≡ g.winner_id)
          × (((pid ≡ p) × (current_player_id r.1 ≡ ok q))
              ⊎ ((pid ≡ q) × (current_player_id r.1 ≡ ok p))))

-- The turn passes to the other player.
passed_on :
    (p q pid : String) (g : ActiveGame) (i : ℕ)
    → g.player_ids ≡ p ∷ q ∷ []
    → Owner p q pid (suc i)
    → ((pid ≡ p) × (current_player_id (record g { current_player_idx = (i + 1) % 2 }) ≡ ok q))
      ⊎ ((pid ≡ q) × (current_player_id (record g { current_player_idx = (i + 1) % 2 }) ≡ ok p))
unfolding current_player_id
passed_on p q pid g i players (inl (first, one)) =
    let e : i ≡ 0 = omega (arith, one) in inl (first, rw (e, players) refl)
passed_on p q pid g i players (inr (second, two)) =
    let e : i ≡ 1 = omega (arith, two) in inr (second, rw (e, players) refl)

-- A turn of a valid game, from the accepted placement of the player whose turn it is to its end:
-- the game is valid again, one more turn is counted and fewer cells are empty. If the board is
-- full, the game is over and finished, and its winner owns more cells of the board, or nobody has
-- won and both own as many. Otherwise the game is not over, its status and winner are as before,
-- and the other player is to move.
pub finish_turn-TurnEnds :
    (p q pid : String) (action payload : Json) (now later : ℕ) (g g' : ActiveGame)
    → IsValid p q g
    → current_player_id g ≡ ok pid
    → apply_place_action pid payload g ≡ (ok none, g')
    → TurnEnds p q pid g (finish_turn pid action payload now later g')
finish_turn-TurnEnds p q pid action payload now later g g' v current placed =
    let (pid', current', owner') = current-Owner p q g v in
    let owner : Owner p q pid (suc g.current_player_idx) =
      ground (arith, owner', current, current') in
    let m : IsPlacement p q (suc g.current_player_idx) g g' =
      subst (Places p q (suc g.current_player_idx) g) placed (
        apply_place_action-Places p q v.distinct pid (suc g.current_player_idx) owner g v.players
          v.tallied payload) in
    let v1 = played-IsValid p q pid action payload now later g' g (suc g.current_player_idx) v m in
    elim (finish_turn_lem p q pid action payload now later g' v1) [
      | inl over ↦ subst (TurnEnds p q pid g) (sym over.0) (record {
        valid = record {
          players = v1.players;
          distinct = v1.distinct;
          turn = v1.turn;
          tallied = v1.tallied;
          progress = v1.progress;
        };
        counted = ground (arith, m.same);
        taken = ground (arith, m.taken);
        ends = inl (refl, over.1, refl, winner_of_lem p q _ v1);
      })
      | inr more ↦ subst (TurnEnds p q pid g) (sym more.0) (record {
        valid = record {
          players = v1.players;
          distinct = v1.distinct;
          turn = omega arith;
          tallied = v1.tallied;
          progress = v1.progress;
        };
        counted = ground (arith, m.same);
        taken = ground (arith, m.taken);
        ends = inr (
          refl,
          more.1,
          ground (arith, m.same),
          ground (arith, m.same),
          passed_on p q pid (played p q pid action payload now later g') g'.current_player_idx
              v1.players (ground (arith, owner, m.same)),
        );
      })
    ]
