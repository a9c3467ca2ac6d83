-- ===== src/Presence/Invariant.antt =====
-- Every state that an instance reaches (app/core/game_engine.py and app/core/ws_manager.py): an
-- event is a call of a handler, the end of a sleep, or a client that connects or drops.
use game_backend.Base.{
  ◌≡◌, ◌∙◌, sym, subst, ap, erase-insert, ◌≢◌, inl, inr, String, some, arith, str_eq, str_eq_iff,
  lookup, insert, erase, lookup-insert, lookup-erase, lookup-insert_self, mem, Dict, Json,
  Option-cases, Bool-cases,
}
use game_backend.Game.{ActiveGame}
use game_backend.Game.Turns.{IsValid}
use game_backend.Env.{Env}
use game_backend.Connections.Consistency.{IsConsistent}
use game_backend.World.{World}
use game_backend.Play.{in_progress?, process_action}
use game_backend.Play.Frames.{to_client_state_ok}
use game_backend.Play.Endings.{handle_game_over-IsOver}
use game_backend.Play.Completion.{refused, moved, ended}
use game_backend.Play.Rounds.{process_action-IsAction}
use game_backend.Presence.{
  come_back, forfeit, pause_game, handle_player_disconnect, forfeit_in_room, disconnect_timer_fires,
  handle_player_reconnect,
}
use game_backend.Presence.Frames.{tell_others-Talks, welcome_back-Joins}
use game_backend.Presence.Games.{
  IsPlayable, pause-IsPlayable, come_back-IsPlayable, turn-IsPlayable,
}

abbrev pub AllPlayable : Dict ActiveGame → Type 0
AllPlayable games =
    (room : String) (g : ActiveGame) → lookup room games ≡ some g → IsPlayable room g

pub AllPlayable-insert :
    (room : String) (g : ActiveGame) (games : Dict ActiveGame)
    → IsPlayable room g
    → AllPlayable games
    → AllPlayable (insert room g games)
AllPlayable-insert room g games v all r h e = elim (Bool-cases (str_eq r room)) [
  | inl here ↦
      subst (λ x. IsPlayable x h) (sym ((str_eq_iff r room).0 here))
        (subst (IsPlayable room) (ground (arith, here, e, lookup-insert room r g games)) v)
  | inr away ↦ all r h (ground (arith, away, e, lookup-insert room r g games))
]

AllPlayable-erase :
    (room : String) (games : Dict ActiveGame) → AllPlayable games → AllPlayable (erase room games)
AllPlayable-erase room games all r h e = all r h (ground (arith, e, lookup-erase room r games))

-- What holds of an instance between two events.
pub record IsSound {S : Type 0} (w : World S) : Type 0 where
  pub games : AllPlayable w.games
  pub registries : IsConsistent w.hub.manager

module _ {S F : Type 0} (env : Env S F) where
  -- `process_action` keeps an instance sound, whatever the message.
  pub process_action-IsSound :
      (room pid : String) (action payload : Json) (w : World S)
      → IsSound w
      → IsSound (process_action env room pid action payload w).1
  process_action-IsSound room pid action payload w v =
      elim (process_action-IsAction env room pid action payload w
        (λ g e. let x = v.games room g e in (x.named, (x.first, (x.second, x.valid))))) [
          | refused fails t ↦ record {
            games = subst AllPlayable (sym t.games) v.games;
            registries = t.consistent v.registries;
          }
          | moved g g' next m done games store tasks consistent ↦ record {
            games = subst AllPlayable (sym games) (
                AllPlayable-insert room next w.games
                  (turn-IsPlayable room pid action payload m.now m.later g g' next
                    (v.games room g m.present) m.current m.placed m.ends)
                  v.games);
            registries = consistent v.registries;
          }
          | ended g g' next m done games tasks consistent ↦ record {
            games = subst AllPlayable (sym games) (AllPlayable-erase room w.games v.games);
            registries = consistent v.registries;
          }
        ]

  -- `handle_player_disconnect` keeps an instance sound, for any room and player.
  pub handle_player_disconnect-IsSound :
      (room pid : String) (w : World S)
      → IsSound w
      → IsSound (handle_player_disconnect env room pid w)
  unfolding handle_player_disconnect pause_game
  handle_player_disconnect-IsSound room pid w v = elim (Option-cases (lookup room w.games)) [
    | inl absent ↦ rw (absent, handle_player_disconnect) v
    | inr (g, present) ↦ elim (Bool-cases (in_progress? g.status)) [
      | inl playing ↦
          rw (present, handle_player_disconnect)
            (rw playing (
              let t = tell_others-Talks env pid _ g.player_ids _ in
              record {
                games = subst AllPlayable (sym t.games) (
                    AllPlayable-insert room _ w.games
                      (pause-IsPlayable room pid g (v.games room g present) playing) v.games);
                registries = t.consistent v.registries;
              }))
      | inr stopped ↦ rw (present, handle_player_disconnect) (rw stopped v)
    ]
  ]

  -- The game that a player forfeits is valid for the end of the game.
  forfeit-IsValid :
      (p q pid : String) (g : ActiveGame) → IsValid p q g → IsValid p q (forfeit pid g)
  unfolding forfeit
  forfeit-IsValid p q pid g v = record {
    players = v.players;
    distinct = v.distinct;
    turn = v.turn;
    tallied = v.tallied;
    progress = v.progress;
  }

  -- The end of a grace period keeps an instance sound, for any room and player: a game that is
  -- forfeited leaves the instance.
  pub disconnect_timer_fires-IsSound :
      (room pid : String) (w : World S)
      → IsSound w
      → IsSound (disconnect_timer_fires env room pid w).1
  unfolding disconnect_timer_fires forfeit_in_room forfeit
  disconnect_timer_fires-IsSound room pid w v = elim (Option-cases (lookup room w.games)) [
    | inl absent ↦ rw (absent, disconnect_timer_fires) v
    | inr (g, present) ↦ elim (Bool-cases (mem pid g.disconnected_players)) [
      | inl away ↦
          rw (present, disconnect_timer_fires)
            (rw away (
              let x = v.games room g present in
              let g' : ActiveGame = forfeit pid g in
              let w' : World S = record w { games = insert room g' w.games } in
              let found : lookup g'.room_id w'.games ≡ some g' =
                ap (λ r. lookup r w'.games) x.named ∙ lookup-insert_self room g' w.games in
              let o =
                handle_game_over-IsOver env x.first x.second g' w'
                  (forfeit-IsValid x.first x.second pid g x.valid) found in
              record {
                games =
                    subst AllPlayable
                      (sym (
                        o.games
                        ∙ ap (λ r. erase r w'.games) x.named
                        ∙ erase-insert room g' w.games))
                      (AllPlayable-erase room w.games v.games);
                registries = o.consistent v.registries;
              }))
      | inr there ↦ rw (present, disconnect_timer_fires) (rw there v)
    ]
  ]

  -- `handle_player_reconnect` keeps an instance sound, for any player and any room with a name.
  pub handle_player_reconnect-IsSound :
      (room pid : String) (w : World S)
      → room ≢ ""
      → IsSound w
      → IsSound (handle_player_reconnect env room pid w).1
  unfolding handle_player_reconnect
  handle_player_reconnect-IsSound room pid w named v = elim (Option-cases (lookup room w.games)) [
    | inl absent ↦ rw (absent, handle_player_reconnect) v
    | inr (g, present) ↦
        let x = come_back-IsPlayable room pid g (v.games room g present) in
        let g' : ActiveGame = come_back pid g in
        let w' : World S = record w { games = insert room g' w.games } in
        let (state, known) = to_client_state_ok x.first x.second g' x.valid in
        let j = welcome_back-Joins env room pid g' state w' known named in
        rw (present, handle_player_reconnect)
          (record {
            games =
                subst AllPlayable (sym j.1.games) (AllPlayable-insert room g' w.games x v.games);
            registries = j.1.consistent v.registries;
          })
  ]
