-- ===== src/Play/Rounds.antt =====
-- `process_action` of app/core/game_engine.py as a whole, on an instance whose games are valid:
-- what it does to the games, the store and the tasks, whatever the sockets do.
use game_backend.Base.{
  ℕ, suc, ◌≡◌, ◌∙◌, ap, sym, subst, refl, inl, inr, String, true, Option, none, some, arith, Result,
  ok, raise, ◌>>=◌, str_eq, str_eq_iff, lookup, insert, insert_same, Option-cases, Bool-cases, Json,
}
use game_backend.Schemas.{ErrorCode}
use game_backend.Game.{ActiveGame, current_player_id, apply_place_action}
use game_backend.Game.Placement.{Places, apply_place_action-Places}
use game_backend.Game.Turns.{IsValid, current-Owner}
use game_backend.Env.{Env}
use game_backend.World.{World, send_error}
use game_backend.World.Frames.{Talks-refl, tell-Talks}
use game_backend.Play.{
  in_progress?, is_place, refuse, place_in_room, after_place, act_on, process_action,
}
use game_backend.Play.Completion.{IsAction, refused, complete_action-IsAction}

module _ {S F : Type 0} (env : Env S F) (room pid : String) (action payload : Json) where
  module _ (p q : String) (w : World S) where
    -- An error goes out to the player, and nothing else happens.
    refuse-IsAction :
        (code : ErrorCode) → IsAction env room pid action payload w (refuse env pid code w)
    unfolding send_error
    refuse-IsAction code = refused (λ e. cc) (tell-Talks env pid _ w)

    module _ (g : ActiveGame) (v : IsValid p q g) (here : g.room_id ≡ room)
        (present : lookup room w.games ≡ some g) where
      same_games : insert room g w.games ≡ w.games
      same_games = insert_same room g w.games present

      written_back : (g' : ActiveGame) → g' ≡ g → insert room g' w.games ≡ w.games
      written_back g' e = ap (λ x. insert room x w.games) e ∙ same_games

      -- The placement ran: it was accepted, or the error is reported, or the exception goes up.
      place-IsAction :
          (num : ℕ)
          → in_progress? g.status ≡ true
          → current_player_id g ≡ ok pid
          → (r : Result (Option ErrorCode) × ActiveGame) → apply_place_action pid payload g ≡ r
          → Places p q num g r
          → IsAction env room pid action payload w (
              (place_in_room env room pid payload g
                  >>= after_place env room pid action payload (apply_place_action pid payload g).1)
                w)
      unfolding place_in_room after_place
      place-IsAction num playing current (ok none, g') e m =
          rw (e, place_in_room)
            (complete_action-IsAction env room pid action payload p q num g g' w v here m present
              playing current e)
      place-IsAction num playing current (ok (some code), g') e m =
          rw (e, place_in_room)
            (subst
              (λ gs.
                IsAction env room pid action payload w
                  (refuse env pid code (record w { games = gs })))
              (sym (written_back g' m)) (refuse-IsAction code))
      place-IsAction num playing current (raise err, g') e m =
          rw (e, place_in_room)
            (subst
              (λ gs. IsAction env room pid action payload w (raise err, record w { games = gs }))
              (sym (written_back g' m)) (refused (λ h. cc) (Talks-refl w)))

      act_on-IsAction :
          IsAction env room pid action payload w (act_on env room pid action payload g w)
      unfolding act_on
      act_on-IsAction =
          let (current, known, owner) = current-Owner p q g v in
          elim (Bool-cases (in_progress? g.status)) [
            | inl playing ↦ elim (Bool-cases (str_eq pid current)) [
              | inl mine ↦ elim (Bool-cases (is_place action)) [
                | inl place ↦
                    let same : pid ≡ current = (str_eq_iff pid current).0 mine in
                    rw (playing, act_on)
                      (rw known (
                        rw mine (
                          rw place (
                            place-IsAction (suc g.current_player_idx) playing
                              (ground (arith, known, same)) _ refl
                              (apply_place_action-Places p q v.distinct pid
                                (suc g.current_player_idx) (ground (arith, owner, same)) g v.players
                                v.tallied payload)))))
                | inr other ↦
                    rw (playing, act_on)
                      (rw known (rw mine (rw other (refuse-IsAction ErrorCode.unknown_action))))
              ]
              | inr theirs ↦
                  rw (playing, act_on)
                    (rw known (rw theirs (refuse-IsAction ErrorCode.not_your_turn)))
            ]
            | inr stopped ↦ rw (stopped, act_on) (refuse-IsAction ErrorCode.game_not_active)
          ]

  -- Where the room's game is valid, `process_action` ends in one of three ways. It does not
  -- answer `True`, and then the games, the store and the tasks are untouched. Or it answers
  -- `True`: the room has a game in progress, the caller is its current player, the placement was
  -- accepted and the turn ended; the room's game is then the one after the turn and the store and
  -- the tasks are untouched. Or the turn also ended the game: the game is gone and the storing of
  -- its result and the clean-up of its keys are left as tasks.
  pub process_action-IsAction :
      (w : World S)
      → ((g : ActiveGame)
          → lookup room w.games ≡ some g
          → (g.room_id ≡ room) × ((p : String) × ((q : String) × IsValid p q g)))
      → IsAction env room pid action payload w (process_action env room pid action payload w)
  unfolding process_action
  process_action-IsAction w valid = elim (Option-cases (lookup room w.games)) [
    | inl absent ↦ rw (absent, process_action) (refuse-IsAction pid pid w ErrorCode.game_not_found)
    | inr (g, present) ↦
        let (here, (p, (q, v))) = valid g present in
        rw (present, process_action) (act_on-IsAction p q w g v here present)
  ]
