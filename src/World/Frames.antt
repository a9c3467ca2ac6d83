-- ===== src/World/Frames.antt =====
-- What the sends of the engine (app/core/game_engine.py) leave alone: the games, the store and the
-- tasks, whatever the sockets do.
use game_backend.Base.{◌≡◌, refl, ◌∙◌, inl, inr, String, true, false, Bool-cases}
use game_backend.Schemas.{Response}
use game_backend.Env.{Env}
use game_backend.Connections.{send_personal}
use game_backend.Connections.Consistency.{IsConsistent}
use game_backend.Connections.Traffic.{send_personal-IsConsistent}
use game_backend.World.{World, time, tell, publish_to_player, send_or_publish}

-- From `w` to `w'` the instance only talked: it sent, published and read the clock.
pub record Talks {S : Type 0} (w w' : World S) : Type 0 where
  pub games : w'.games ≡ w.games
  pub store : w'.store ≡ w.store
  pub tasks : w'.tasks ≡ w.tasks
  pub consistent : IsConsistent w.hub.manager → IsConsistent w'.hub.manager

pub Talks-refl : {S : Type 0} (w : World S) → Talks w w
Talks-refl w = record { games = refl; store = refl; tasks = refl; consistent = λ v. v }

pub Talks-trans : {S : Type 0} {u v w : World S} → Talks u v → Talks v w → Talks u w
Talks-trans a b = record {
  games = b.games ∙ a.games;
  store = b.store ∙ a.store;
  tasks = b.tasks ∙ a.tasks;
  consistent = λ h. b.consistent (a.consistent h);
}

module _ {S F : Type 0} (env : Env S F) where
  pub time-Talks : (w : World S) → Talks w (time env w).1
  unfolding time
  time-Talks w = record { games = refl; store = refl; tasks = refl; consistent = λ v. v }

  pub tell-Talks : (pid : String) (msg : Response) (w : World S) → Talks w (tell env pid msg w)
  unfolding tell
  tell-Talks pid msg w = record {
    games = refl;
    store = refl;
    tasks = refl;
    consistent = send_personal-IsConsistent env pid msg w.hub;
  }

  pub send_or_publish-Talks :
      (pid event room_id : String) (msg : Response) (w : World S)
      → Talks w (send_or_publish env pid event room_id msg w)
  unfolding send_or_publish publish_to_player
  send_or_publish-Talks pid event room_id msg w =
      elim (Bool-cases (send_personal env pid msg w.hub).0) [
        | inl sent ↦ rw (sent, send_or_publish) (told sent)
        | inr absent ↦ rw (absent, send_or_publish) (published absent)
      ]
    where
      told :
          (send_personal env pid msg w.hub).0 ≡ true
          → Talks w (record w { hub = (send_personal env pid msg w.hub).1 })
      told e = record {
        games = refl;
        store = refl;
        tasks = refl;
        consistent = send_personal-IsConsistent env pid msg w.hub;
      }

      published :
          (send_personal env pid msg w.hub).0 ≡ false
          → Talks w (
              publish_to_player env pid event room_id msg
                (record w { hub = (send_personal env pid msg w.hub).1 }))
      published e = record {
        games = refl;
        store = refl;
        tasks = refl;
        consistent = send_personal-IsConsistent env pid msg w.hub;
      }
