-- ===== src/Presence/Games.antt =====
-- What the handlers of app/core/game_engine.py do to one game: the invariant of the games that an
-- instance holds.
use game_backend.Base.{
  ℕ, suc, ◌+◌, ◌%◌, ◌<◌, ◌≡◌, refl, ◌≢◌, ◌⊎◌, inl, inr, String, true, false, none, List, [], ◌∷◌,
  arith, str_eq, mem, add, discard, insert, lookup-insert_self, lookup-insert_ne, subst, Dict, ℤ,
  Json, ok, Bool-cases,
}
use game_backend.Constants.{GameStatus}
use game_backend.Board.Counting.{count_row, count_cells}
use game_backend.Board.Cells.{empty_board-IsGrid}
use game_backend.Game.{ActiveGame, current_player_id, apply_place_action, finish_turn}
use game_backend.Game.Claims.{Owner}
use game_backend.Game.Placement.{IsPlacement, Places, apply_place_action-Places}
use game_backend.Game.Turns.{IsValid, current-Owner, played, played-IsValid, finish_turn_lem}
use game_backend.Play.{in_progress?, no_scores, new_game}
use game_backend.Presence.{come_back}

-- In progress with nobody recorded as disconnected, or paused with one player recorded. A player
-- who drops while the game is paused for the other is not recorded.
abbrev pub IsAttended : GameStatus → List String → Type 0
IsAttended status away =
    ((status ≡ GameStatus.in_progress) × (away ≡ []))
    ⊎ ((status ≡ GameStatus.paused) × ((x : String) × (away ≡ x ∷ [])))

-- A game that an instance holds for a room: valid, with an empty cell left, and attended.
pub record IsPlayable (room : String) (g : ActiveGame) : Type 0 where
  pub first : String
  pub second : String
  pub valid : IsValid first second g
  pub named : g.room_id ≡ room
  pub space : 0 < count_cells 0 g.board
  pub attended : IsAttended g.status g.disconnected_players

-- A new game of two players is playable.
pub new_game-IsPlayable :
    (room p q : String) (elos : Dict ℤ) (started last : ℕ)
    → p ≢ q
    → IsPlayable room (new_game room (p ∷ q ∷ []) elos started last)
unfolding new_game no_scores count_cells count_row
new_game-IsPlayable room p q elos started last distinct = record {
  first = p;
  second = q;
  valid = record {
    players = refl;
    distinct = distinct;
    turn = omega arith;
    tallied = record {
      grid = empty_board-IsGrid;
      first = ground (
        arith,
        lookup-insert_ne {V = ℕ} q p 0 (insert p 0 []),
        lookup-insert_self {V = ℕ} p 0 [],
      );
      second = lookup-insert_self {V = ℕ} q 0 (insert p 0 []);
    };
    progress = omega arith;
  };
  named = refl;
  space = omega arith;
  attended = inl (refl, refl);
}

-- A player who leaves a game in progress pauses it.
pub pause-IsPlayable :
    (room pid : String) (g : ActiveGame)
    → IsPlayable room g
    → in_progress? g.status ≡ true
    → IsPlayable room (record g {
      disconnected_players = add pid g.disconnected_players;
      status = GameStatus.paused;
    })
unfolding add mem
pause-IsPlayable room pid g v playing = record {
  first = v.first;
  second = v.second;
  valid = record {
    players = v.valid.players;
    distinct = v.valid.distinct;
    turn = v.valid.turn;
    tallied = v.valid.tallied;
    progress = v.valid.progress;
  };
  named = v.named;
  space = v.space;
  attended = inr (refl, (pid, ground (arith, v.attended)));
}

-- A player who comes back resumes the game if it was this one who was away.
pub come_back-IsPlayable :
    (room pid : String) (g : ActiveGame) → IsPlayable room g → IsPlayable room (come_back pid g)
unfolding come_back
come_back-IsPlayable room pid g v = record {
  first = v.first;
  second = v.second;
  valid = record {
    players = v.valid.players;
    distinct = v.valid.distinct;
    turn = v.valid.turn;
    tallied = v.valid.tallied;
    progress = v.valid.progress;
  };
  named = v.named;
  space = v.space;
  attended = attended_after v.attended;
}
  where
    attended_after :
        IsAttended g.status g.disconnected_players
        → IsAttended (come_back pid g).status (come_back pid g).disconnected_players
    attended_after (inl (playing, here)) = inl (unfold discard in ground (arith, playing, here))
    attended_after (inr (paused, (x, away))) = elim (Bool-cases (str_eq pid x)) [
      | inl same ↦ inl (unfold discard in ground (arith, same, paused, away))
      | inr other ↦ inr (
        unfold discard in ground (arith, other, paused, away),
        (x, unfold discard in ground (arith, other, paused, away)),
      )
    ]

IsPlacement-of :
    (p q pid : String) (g g' : ActiveGame) (payload : Json)
    → IsValid p q g
    → Owner p q pid (suc g.current_player_idx)
    → apply_place_action pid payload g ≡ (ok none, g')
    → IsPlacement p q (suc g.current_player_idx) g g'
IsPlacement-of p q pid g g' payload v owner placed =
    subst (Places p q (suc g.current_player_idx) g) placed (
      apply_place_action-Places p q v.distinct pid (suc g.current_player_idx) owner g v.players
        v.tallied payload)

-- A turn that does not end the game leaves a playable one.
pub turn-IsPlayable :
    (room pid : String) (action payload : Json) (now later : ℕ) (g g' next : ActiveGame)
    → IsPlayable room g
    → current_player_id g ≡ ok pid
    → apply_place_action pid payload g ≡ (ok none, g')
    → finish_turn pid action payload now later g' ≡ (false, next)
    → IsPlayable room next
turn-IsPlayable room pid action payload now later g g' next v current placed ends =
    let p = v.first in
    let q = v.second in
    let (pid', current', owner) = current-Owner p q g v.valid in
    let m =
      IsPlacement-of p q pid g g' payload v.valid (ground (arith, owner, current, current'))
        placed in
    let v1 =
      played-IsValid p q pid action payload now later g' g (suc g.current_player_idx) v.valid m in
    elim (finish_turn_lem p q pid action payload now later g' v1) [
      | inl over ↦ absurd (ground (arith, ends, over.0))
      | inr more ↦
          subst (IsPlayable room)
            {x = record (played p q pid action payload now later g') {
              current_player_idx = (g'.current_player_idx + 1) % 2;
            }}
            (ground (arith, ends, more.0))
            (record {
              first = p;
              second = q;
              valid = record {
                players = v1.players;
                distinct = v1.distinct;
                turn = omega arith;
                tallied = v1.tallied;
                progress = v1.progress;
              };
              named = ground (arith, m.same, v.named);
              space = more.1;
              attended = ground (arith, m.same, v.attended);
            })
    ]
