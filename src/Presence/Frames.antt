-- ===== src/Presence/Frames.antt =====
-- What the handlers of disconnects and reconnects (app/core/game_engine.py) do beside the games.
use game_backend.Base.{
  ◌≡◌, refl, ◌≢◌, inl, inr, String, List, [], ◌∷◌, ok, str_eq, Option-cases, Bool-cases,
}
use game_backend.Schemas.{Response, ClientState}
use game_backend.Game.{ActiveGame, to_client_state}
use game_backend.Env.{Env}
use game_backend.Connections.{ConnectionManager, get_connection_by_player}
use game_backend.Connections.Consistency.{IsConsistent}
use game_backend.Connections.Rooms.{join_room-IsConsistent}
use game_backend.World.{World, time, tell}
use game_backend.World.Frames.{Talks, Talks-refl, Talks-trans, tell-Talks, time-Talks}
use game_backend.Play.{join_player, join_players}
use game_backend.Presence.{tell_others, welcome_back}

pub join_player-IsConsistent :
    (room pid : String) (m : ConnectionManager)
    → room ≢ ""
    → IsConsistent m
    → IsConsistent (join_player room pid m)
unfolding join_player
join_player-IsConsistent room pid m named v = elim (Option-cases (get_connection_by_player pid m)) [
  | inl absent ↦ rw (absent, join_player) v
  | inr (info, e) ↦ rw (e, join_player) (join_room-IsConsistent m v info.connection_id room named)
]

module _ {S F : Type 0} (env : Env S F) where
  pub tell_others-Talks :
      (pid : String) (msg : Response) (ps : List String) (w : World S)
      → Talks w (tell_others env pid msg ps w)
  unfolding tell_others
  tell_others-Talks pid msg [] w = Talks-refl w
  tell_others-Talks pid msg (p ∷ ps) w = elim (Bool-cases (str_eq p pid)) [
    | inl same ↦ rw same (tell_others-Talks pid msg ps w)
    | inr other ↦
        rw other
          (Talks-trans (tell-Talks env p msg w) (tell_others-Talks pid msg ps (tell env p msg w)))
  ]

  -- Joining touches the room sets and the sessions, and no game.
  pub record Joins (w w' : World S) : Type 0 where
    pub games : w'.games ≡ w.games
    pub tasks : w'.tasks ≡ w.tasks
    pub consistent : IsConsistent w.hub.manager → IsConsistent w'.hub.manager

  pub join_players-Joins :
      (room : String) (pids : List String) (w : World S)
      → room ≢ ""
      → Joins w (join_players env room pids w)
  unfolding join_players
  join_players-Joins room [] w named = record { games = refl; tasks = refl; consistent = λ v. v }
  join_players-Joins room (pid ∷ pids) w named =
      let j = join_players-Joins room pids _ named in
      record {
        games = j.games;
        tasks = j.tasks;
        consistent = λ v. j.consistent (join_player-IsConsistent room pid w.hub.manager named v);
      }

  pub welcome_back-Joins :
      (room pid : String) (g : ActiveGame) (state : ClientState) (w : World S)
      → to_client_state g ≡ ok state
      → room ≢ ""
      → ((welcome_back env room pid g w).0 ≡ ok tt) × Joins w (welcome_back env room pid g w).1
  unfolding welcome_back time
  welcome_back-Joins room pid g state w known named =
      rw (known, welcome_back)
        (
          refl,
          let joined : World S = record w {
            hub = record w.hub { manager = join_player room pid w.hub.manager };
          } in
              let t =
                Talks-trans (time-Talks env joined)
                  (Talks-trans (tell-Talks env pid _ _) (tell_others-Talks pid _ g.player_ids _)) in
              record {
                games = t.games;
                tasks = t.tasks;
                consistent =
                    λ v. t.consistent (join_player-IsConsistent room pid w.hub.manager named v);
              },
        )
