-- ===== src/Play/Completion.antt =====
-- The ends of `process_action` of app/core/game_engine.py, and what follows an accepted placement of
-- a valid game.
use game_backend.Base.{
  ℕ, ◌+◌, ◌≡◌, ◌∙◌, ap, refl, ◌≢◌, inl, inr, String, Bool, true, false, none, some, ◌++◌, arith,
  Result, ok, lookup, insert, erase, lookup-insert_self, insert-insert, erase-insert, Json,
  if◌then◌else◌,
}
use mathlib.Core.Path.{ap₂}
use game_backend.Game.{ActiveGame, current_player_id, apply_place_action, finish_turn}
use game_backend.Game.Placement.{IsPlacement}
use game_backend.Game.Turns.{IsValid, played-IsValid, finish_turn_lem}
use game_backend.Env.{Env}
use game_backend.Connections.Consistency.{IsConsistent}
use game_backend.World.{World, time}
use game_backend.World.Frames.{Talks}
use game_backend.Play.{in_progress?, broadcast_state_update, handle_game_over, complete_action}
use game_backend.Play.Frames.{to_client_state_ok, broadcast_state_update-IsTalk}
use game_backend.Play.Endings.{last_tasks, handle_game_over-IsOver}

module _ {S F : Type 0} (env : Env S F) (room pid : String) (action payload : Json) where
  -- What a call that was accepted has done, from the game `g` of the room in `w`: the placement
  -- left `g'` and the end of the turn left `next`.
  pub record IsMove (w : World S) (g g' next : ActiveGame) (over : Bool) : Type 0 where
    pub present : lookup room w.games ≡ some g
    pub playing : in_progress? g.status ≡ true
    pub current : current_player_id g ≡ ok pid
    pub placed : apply_place_action pid payload g ≡ (ok none, g')
    pub now : ℕ
    pub later : ℕ
    pub ends : finish_turn pid action payload now later g' ≡ (over, next)

  -- The three ends of `process_action`.
  pub data IsAction (w : World S) (r : Result Bool × World S) : Type 0 where
    refused : r.0 ≢ ok true → Talks w r.1 → IsAction w r
    moved :
        (g g' next : ActiveGame)
        → IsMove w g g' next false
        → r.0 ≡ ok true
        → r.1.games ≡ insert room next w.games
        → r.1.store ≡ w.store
        → r.1.tasks ≡ w.tasks
        → (IsConsistent w.hub.manager → IsConsistent r.1.hub.manager)
        → IsAction w r
    ended :
        (g g' next : ActiveGame)
        → IsMove w g g' next true
        → r.0 ≡ ok true
        → r.1.games ≡ erase room w.games
        → r.1.tasks ≡ w.tasks ++ last_tasks env next
        → (IsConsistent w.hub.manager → IsConsistent r.1.hub.manager)
        → IsAction w r

  -- The world when the new game is written, two readings of the clock later.
  abbrev entered : ActiveGame → World S → World S
  entered g w = record w {
    hub = record w.hub { queries = w.hub.queries + 1 + 1 };
    games = insert room g w.games;
  }

  complete_action_run :
      (g next : ActiveGame) (over : Bool) (w w2 w3 : World S)
      → finish_turn pid action payload (env.now w.hub.queries) (env.now (w.hub.queries + 1)) g
        ≡ (over, next)
      → broadcast_state_update env next action payload next.player_ids (entered next w)
        ≡ (ok tt, w2)
      → (if over then handle_game_over env next w2 else (ok tt, w2)) ≡ (ok tt, w3)
      → complete_action env room pid action payload g w ≡ (ok true, w3)
  unfolding complete_action time
  complete_action_run g next true w w2 w3 h1 h2 h3 = ground (arith, h1, h2, h3)
  complete_action_run g next false w w2 w3 h1 h2 h3 = ground (arith, h1, h2, h3)

  module _ (p q : String) (num : ℕ) (g g' : ActiveGame) (w : World S) (v : IsValid p q g)
      (here : g.room_id ≡ room) (m : IsPlacement p q num g g')
      (present : lookup room w.games ≡ some g) (playing : in_progress? g.status ≡ true)
      (current : current_player_id g ≡ ok pid)
      (placed : apply_place_action pid payload g ≡ (ok none, g')) where
    abbrev written : World S
    written = record w { games = insert room g' w.games }

    IsMove-of :
        (next : ActiveGame) (over : Bool) (now later : ℕ)
        → finish_turn pid action payload now later g' ≡ (over, next)
        → IsMove w g g' next over
    IsMove-of next over now later e = record {
      present = present;
      playing = playing;
      current = current;
      placed = placed;
      now = now;
      later = later;
      ends = e;
    }

    complete_moved :
        (next : ActiveGame)
        → IsValid p q next
        → finish_turn pid action payload (env.now w.hub.queries) (env.now (w.hub.queries + 1)) g'
          ≡ (false, next)
        → IsAction w (complete_action env room pid action payload g' written)
    complete_moved next v' e =
        let (state, known) = to_client_state_ok p q next v' in
        let b =
          broadcast_state_update-IsTalk env next state known action payload next.player_ids
            (entered next written) in
        let w2 : World S =
          (broadcast_state_update env next action payload next.player_ids
            (entered next written)).1 in
        rw (complete_action_run g' next false written w2 w2 e (ground (arith, b.done)) refl) (
          moved g g' next (IsMove-of next false _ _ e) refl
            (b.talks.games ∙ insert-insert room next g' w.games) b.talks.store b.talks.tasks
            b.talks.consistent)

    complete_ended :
        (next : ActiveGame)
        → IsValid p q next
        → next.room_id ≡ room
        → finish_turn pid action payload (env.now w.hub.queries) (env.now (w.hub.queries + 1)) g'
          ≡ (true, next)
        → IsAction w (complete_action env room pid action payload g' written)
    complete_ended next v' named e =
        let (state, known) = to_client_state_ok p q next v' in
        let b =
          broadcast_state_update-IsTalk env next state known action payload next.player_ids
            (entered next written) in
        let w2 : World S =
          (broadcast_state_update env next action payload next.player_ids
            (entered next written)).1 in
        let found : lookup next.room_id w2.games ≡ some next =
          ap₂ lookup named b.talks.games ∙ lookup-insert_self room next _ in
        let o = handle_game_over-IsOver env p q next w2 v' found in
        let w3 : World S = (handle_game_over env next w2).1 in
        rw
          (complete_action_run g' next true written w2 w3 e (ground (arith, b.done))
            (ground (arith, o.done)))
          (ended g g' next (IsMove-of next true _ _ e) refl
            (o.games
              ∙ ap₂ erase named b.talks.games
              ∙ erase-insert room next _
              ∙ erase-insert room g' w.games)
            (o.tasks ∙ ap (λ l. l ++ last_tasks env next) b.talks.tasks)
            (λ c. o.consistent (b.talks.consistent c)))

    pub complete_action-IsAction :
        IsAction w (complete_action env room pid action payload g' written)
    complete_action-IsAction =
        let now : ℕ = env.now w.hub.queries in
        let later : ℕ = env.now (w.hub.queries + 1) in
        let v1 = played-IsValid p q pid action payload now later g' g num v m in
        elim (finish_turn_lem p q pid action payload now later g' v1) [
          | inl over ↦
              complete_ended _
                (record {
                  players = v1.players;
                  distinct = v1.distinct;
                  turn = v1.turn;
                  tallied = v1.tallied;
                  progress = v1.progress;
                })
                (ground (arith, m.same, here)) over.0
          | inr more ↦
              complete_moved _
                (record {
                  players = v1.players;
                  distinct = v1.distinct;
                  turn = omega arith;
                  tallied = v1.tallied;
                  progress = v1.progress;
                })
                more.0
        ]
