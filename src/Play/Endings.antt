-- ===== src/Play/Endings.antt =====
-- The end of a game (`_handle_game_over` and `_cleanup_game` of app/core/game_engine.py): the game
-- leaves the instance, and its result and the clean-up of its keys are left as tasks.
use game_backend.Base.{
  ℕ, ◌≡◌, refl, inl, inr, String, some, List, [], ◌∷◌, ◌++◌, arith, Result, ok, raise, lookup,
  erase, Option-cases,
}
use mathlib.Core.List.{append_assoc}
use game_backend.Constants.{room_state_key}
use game_backend.Game.{ActiveGame}
use game_backend.Game.Turns.{IsValid, current-Owner}
use game_backend.Elo.{calculate_elo_changes}
use game_backend.Env.{Env, RedisGameState}
use game_backend.Connections.{ConnectionManager, get_connection_by_player, leave_room}
use game_backend.Connections.Consistency.{IsConsistent}
use game_backend.Connections.Rooms.{leave_room-IsConsistent}
use game_backend.World.{World, Task, to_redis_state, save_snapshot}
use game_backend.Play.{leave_players, announce_result, cleanup_game, handle_game_over}
use game_backend.Play.Frames.{to_client_state_ok, announce_result-IsTalk}

leave_players-IsConsistent :
    (pids : List String) (m : ConnectionManager)
    → IsConsistent m
    → IsConsistent (leave_players pids m)
unfolding leave_players
leave_players-IsConsistent [] m v = v
leave_players-IsConsistent (pid ∷ pids) m v = elim (Option-cases (get_connection_by_player pid m)) [
  | inl absent ↦ rw (absent, leave_players) (leave_players-IsConsistent pids m v)
  | inr (info, e) ↦
      rw (e, leave_players)
        (leave_players-IsConsistent pids (leave_room info.connection_id m)
          (leave_room-IsConsistent m v info.connection_id))
]

pub to_redis_state_ok :
    (p q : String) (g : ActiveGame) (now : ℕ)
    → IsValid p q g
    → (state : RedisGameState) × (to_redis_state g now ≡ ok state)
to_redis_state_ok p q g now v = state_of (to_redis_state g now) refl
  where
    state_of :
        (r : Result RedisGameState)
        → to_redis_state g now ≡ r
        → (state : RedisGameState) × (to_redis_state g now ≡ ok state)
    state_of (ok state) e = (state, e)
    state_of (raise e') e =
        let (pid, current, owner) = current-Owner p q g v in
        absurd (unfold to_redis_state in ground (arith, current, e))

module _ {S F : Type 0} (env : Env S F) where
  -- A snapshot of a valid game is stored, and nothing else happens.
  pub record IsSaved (room_id : String) (w : World S) (r : Result (Unit {0}) × World S)
      : Type 0 where
    pub done : r.0 ≡ ok tt
    pub state : RedisGameState
    pub store :
        r.1.store
        ≡ env.redis.set (room_state_key room_id) (env.texts.dumps_state state) 3600 w.store
    pub games : r.1.games ≡ w.games
    pub tasks : r.1.tasks ≡ w.tasks
    pub manager : r.1.hub.manager ≡ w.hub.manager

  -- For a room whose game is valid, `_save_snapshot` returns without an exception and stores some
  -- snapshot under the room's state key for an hour; the games, the tasks and the connections are
  -- untouched.
  pub save_snapshot-IsSaved :
      (room_id p q : String) (g : ActiveGame) (w : World S)
      → IsValid p q g
      → lookup room_id w.games ≡ some g
      → IsSaved room_id w (save_snapshot env room_id w)
  unfolding save_snapshot
  save_snapshot-IsSaved room_id p q g w v found =
      let (state, e) = to_redis_state_ok p q g (env.now w.hub.queries) v in
      rw (found, save_snapshot)
        (rw e (record {
          done = refl;
          state = state;
          store = refl;
          games = refl;
          tasks = refl;
          manager = refl;
        }))

  -- The two tasks that a finished game leaves.
  abbrev pub last_tasks : ActiveGame → List Task
  last_tasks g =
      Task.persist_result g (calculate_elo_changes env.floats g)
      ∷ Task.delete_keys g.room_id g.player_ids
      ∷ []

  pub record IsOver (g : ActiveGame) (w : World S) (r : Result (Unit {0}) × World S) : Type 0 where
    pub done : r.0 ≡ ok tt
    pub games : r.1.games ≡ erase g.room_id w.games
    pub tasks : r.1.tasks ≡ w.tasks ++ last_tasks g
    pub consistent : IsConsistent w.hub.manager → IsConsistent r.1.hub.manager

  cleanup_game_lem :
      (room_id : String) (g : ActiveGame) (w : World S)
      → lookup room_id w.games ≡ some g
      → cleanup_game env room_id w ≡ record w {
        games = erase room_id w.games;
        hub = record w.hub { manager = leave_players g.player_ids w.hub.manager };
        tasks = w.tasks ++ Task.delete_keys room_id g.player_ids ∷ [];
      }
  unfolding cleanup_game
  cleanup_game_lem room_id g w found = rw (found, cleanup_game)

  abbrev stored : ActiveGame → World S → World S
  stored g w = record w {
    tasks = w.tasks ++ Task.persist_result g (calculate_elo_changes env.floats g) ∷ [];
  }

  handle_game_over_run :
      (g : ActiveGame) (w w1 w2 : World S)
      → announce_result env g g.player_ids w ≡ (ok tt, w1)
      → save_snapshot env g.room_id (stored g w1) ≡ (ok tt, w2)
      → handle_game_over env g w ≡ (ok tt, cleanup_game env g.room_id w2)
  unfolding handle_game_over
  handle_game_over_run g w w1 w2 h k = ground (arith, h, k)

  -- For a valid game that the instance holds, `_handle_game_over` returns without an exception,
  -- the game leaves the instance, the storing of its result with the rating changes and the
  -- clean-up of its keys are left as tasks, and the connection registries still agree if they
  -- did.
  pub handle_game_over-IsOver :
      (p q : String) (g : ActiveGame) (w : World S)
      → IsValid p q g
      → lookup g.room_id w.games ≡ some g
      → IsOver g w (handle_game_over env g w)
  handle_game_over-IsOver p q g w v found =
      let (state, known) = to_client_state_ok p q g v in
      let a = announce_result-IsTalk env g state known g.player_ids w in
      let w1 : World S = (announce_result env g g.player_ids w).1 in
      let s = save_snapshot-IsSaved g.room_id p q g (stored g w1) v (rw (a.talks.games) found) in
      let w2 : World S = (save_snapshot env g.room_id (stored g w1)).1 in
      let here : lookup g.room_id w2.games ≡ some g = rw (s.games, a.talks.games) found in
      rw (handle_game_over_run g w w1 w2 (ground (arith, a.done)) (ground (arith, s.done))) (
        rw (cleanup_game_lem g.room_id g w2 here) (record {
          done = refl;
          games = ground (arith, s.games, a.talks.games);
          tasks = rw (s.tasks, a.talks.tasks) (append_two w.tasks _ _);
          consistent = λ c.
              leave_players-IsConsistent g.player_ids w2.hub.manager
                (rw s.manager (a.talks.consistent c));
        }))
    where
      append_two : (l : List Task) (x y : Task) → (l ++ x ∷ []) ++ y ∷ [] ≡ l ++ x ∷ y ∷ []
      append_two l x y = append_assoc l (x ∷ []) (y ∷ [])
