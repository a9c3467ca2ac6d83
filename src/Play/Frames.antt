-- ===== src/Play/Frames.antt =====
-- The announcements of app/core/game_engine.py to the players of a game: they do not raise, and
-- they leave the games, the store and the tasks alone.
use game_backend.Base.{ℕ, suc, ◌≡◌, refl, String, List, [], ◌∷◌, Result, ok, Json}
use game_backend.Schemas.{ClientState}
use game_backend.Game.{ActiveGame, to_client_state}
use game_backend.Game.Turns.{IsValid, current-Owner}
use game_backend.Env.{Env}
use game_backend.World.{World, time}
use game_backend.World.Frames.{Talks, Talks-refl, Talks-trans, time-Talks, send_or_publish-Talks}
use game_backend.Play.{announce, broadcast_state_update, announce_result}

-- A call that ends well and has only talked.
pub record IsTalk {S A : Type 0} (w : World S) (a : A) (r : Result A × World S) : Type 0 where
  pub done : r.0 ≡ ok a
  pub talks : Talks w r.1

IsTalk-after :
    {S A : Type 0} {v w : World S} {a : A} {r : Result A × World S}
    → Talks v w
    → IsTalk w a r
    → IsTalk v a r
IsTalk-after t k = record { done = k.done; talks = Talks-trans t k.talks }

pub to_client_state_ok :
    (p q : String) (g : ActiveGame)
    → IsValid p q g
    → (state : ClientState) × (to_client_state g ≡ ok state)
unfolding to_client_state
to_client_state_ok p q g v =
    let (pid, current, owner) = current-Owner p q g v in
    (
      record {
        board = g.board;
        scores = g.scores;
        turn_number = g.turn_number;
        current_player_id = pid;
        status = g.status;
        winner_id = g.winner_id;
        player_ids = g.player_ids;
      },
      rw (current, to_client_state),
    )

module _ {S F : Type 0} (env : Env S F) (g : ActiveGame) (state : ClientState)
    (known : to_client_state g ≡ ok state) where
  pub announce-IsTalk :
      (i : ℕ) (pids : List String) (w : World S) → IsTalk w tt (announce env g i pids w)
  unfolding announce
  announce-IsTalk i [] w = record { done = refl; talks = Talks-refl w }
  announce-IsTalk i (pid ∷ pids) w =
      rw (known, announce)
        (IsTalk-after (send_or_publish-Talks env pid _ _ _ w) (announce-IsTalk (suc i) pids _))

  pub broadcast_state_update-IsTalk :
      (action payload : Json) (pids : List String) (w : World S)
      → IsTalk w tt (broadcast_state_update env g action payload pids w)
  unfolding broadcast_state_update time
  broadcast_state_update-IsTalk action payload [] w = record { done = refl; talks = Talks-refl w }
  broadcast_state_update-IsTalk action payload (pid ∷ pids) w =
      rw (known, broadcast_state_update)
        (IsTalk-after (Talks-trans (time-Talks env w) (send_or_publish-Talks env pid _ _ _ _))
          (broadcast_state_update-IsTalk action payload pids _))

  pub announce_result-IsTalk :
      (pids : List String) (w : World S) → IsTalk w tt (announce_result env g pids w)
  unfolding announce_result
  announce_result-IsTalk [] w = record { done = refl; talks = Talks-refl w }
  announce_result-IsTalk (pid ∷ pids) w =
      rw (known, announce_result)
        (IsTalk-after (send_or_publish-Talks env pid _ _ _ w) (announce_result-IsTalk pids _))
