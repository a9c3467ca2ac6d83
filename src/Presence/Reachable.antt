-- ===== src/Presence/Reachable.antt =====
-- Every state that an instance reaches (app/core/game_engine.py and app/core/ws_manager.py): an
-- event is a call of a handler, the end of a sleep, or a client that connects or drops. The
-- restoring of snapshots, which no code calls, is not among the events.
use game_backend.Base.{
  ◌+◌, ◌≡◌, ◌∙◌, refl, sym, subst, ap, ◌≢◌, String, none, some, List, [], ◌∷◌, arith, ok, lookup,
  insert, lookup-insert_self, Dict, ℤ, Json,
}
use game_backend.Game.{ActiveGame}
use game_backend.Env.{Env}
use game_backend.Connections.{connect, disconnect}
use game_backend.Connections.Consistency.{IsConsistent, disconnect-IsConsistent}
use game_backend.Connections.Traffic.{connect-IsConsistent}
use game_backend.World.{World, time, save_snapshot}
use game_backend.Play.{
  new_game, announce, join_players, create_game, finish_cleanup, process_action,
}
use game_backend.Play.Frames.{to_client_state_ok, announce-IsTalk}
use game_backend.Play.Endings.{save_snapshot-IsSaved}
use game_backend.Presence.{
  handle_player_disconnect, disconnect_timer_fires, handle_player_reconnect,
}
use game_backend.Presence.Frames.{join_players-Joins}
use game_backend.Presence.Games.{new_game-IsPlayable}
use game_backend.Presence.Invariant.{
  AllPlayable, AllPlayable-insert, IsSound, process_action-IsSound,
  handle_player_disconnect-IsSound, disconnect_timer_fires-IsSound, handle_player_reconnect-IsSound,
}

module _ {S F : Type 0} (env : Env S F) where
  module _ (room p q : String) (elos : Dict ℤ) (w : World S) where
    abbrev created : ActiveGame
    created = new_game room (p ∷ q ∷ []) elos (env.now w.hub.queries) (env.now (w.hub.queries + 1))

    -- The world when both players have joined.
    abbrev gathered : World S
    gathered = join_players env room (p ∷ q ∷ []) (record w {
      hub = record w.hub { queries = w.hub.queries + 1 + 1 };
      games = insert room created w.games;
    })

    create_game_run :
        (w2 w3 : World S)
        → announce env created 0 (p ∷ q ∷ []) gathered ≡ (ok tt, w2)
        → save_snapshot env room w2 ≡ (ok tt, w3)
        → create_game env room (p ∷ q ∷ []) elos w ≡ (ok created, w3)
    unfolding create_game time
    create_game_run w2 w3 h k = ground (arith, h, k)

    -- On a sound instance, `create_game` for two different players and a room with a name returns
    -- the new game without an exception, the room holds that game and every other room what it
    -- held, and the instance stays sound.
    pub create_game-IsSound :
        p ≢ q
        → room ≢ ""
        → IsSound w
        → (create_game env room (p ∷ q ∷ []) elos w).0 ≡ ok created
          × IsSound (create_game env room (p ∷ q ∷ []) elos w).1
          × ((create_game env room (p ∷ q ∷ []) elos w).1.games ≡ insert room created w.games)
    create_game-IsSound distinct named v =
        let x =
          new_game-IsPlayable room p q elos (env.now w.hub.queries) (env.now (w.hub.queries + 1))
            distinct in
        let (state, known) = to_client_state_ok x.first x.second created x.valid in
        let j = join_players-Joins env room (p ∷ q ∷ []) _ named in
        let a = announce-IsTalk env created state known 0 (p ∷ q ∷ []) gathered in
        let w2 : World S = (announce env created 0 (p ∷ q ∷ []) gathered).1 in
        let games2 : w2.games ≡ insert room created w.games = a.talks.games ∙ j.games in
        let present : lookup room w2.games ≡ some created =
          ap (lookup room) games2 ∙ lookup-insert_self room created w.games in
        let s = save_snapshot-IsSaved env room x.first x.second created w2 x.valid present in
        let w3 : World S = (save_snapshot env room w2).1 in
        rw (create_game_run w2 w3 (ground (arith, a.done)) (ground (arith, s.done))) (
          refl,
          record {
            games =
                subst AllPlayable (sym (s.games ∙ games2))
                  (AllPlayable-insert room created w.games x v.games);
            registries =
                subst IsConsistent (sym s.manager) (a.talks.consistent (j.consistent v.registries));
          },
          s.games ∙ games2,
        )

  -- What can happen to an instance. A new connection has a new identifier; no identifier is empty.
  pub data Step (w : World S) : World S → Type 0 where
    creates :
        (room p q : String) (elos : Dict ℤ)
        → p ≢ q
        → room ≢ ""
        → Step w (create_game env room (p ∷ q ∷ []) elos w).1
    acts :
        (room pid : String) (action payload : Json)
        → Step w (process_action env room pid action payload w).1
    leaves : (room pid : String) → Step w (handle_player_disconnect env room pid w)
    times_out : (room pid : String) → Step w (disconnect_timer_fires env room pid w).1
    returns : (room pid : String) → room ≢ "" → Step w (handle_player_reconnect env room pid w).1
    clears :
        (room : String) (pids : List String)
        → Step w (record w { store = finish_cleanup env room pids w.store })
    connects :
        (pid c : String)
        → lookup c w.hub.manager.connections ≡ none
        → c ≢ ""
        → Step w (record w { hub = connect env pid c w.hub })
    drops :
        (c : String)
        → Step w (record w { hub = record w.hub { manager = (disconnect c w.hub.manager).1 } })

  pub data Reach (w : World S) : World S → Type 0 where
    here : Reach w w
    next : {u v : World S} → Reach w u → Step u v → Reach w v

  pub Step-IsSound : {u v : World S} → Step u v → IsSound u → IsSound v
  Step-IsSound {u} (creates room p q elos d n) s = (create_game-IsSound room p q elos u d n s).1
  Step-IsSound {u} (acts room pid action payload) s =
      process_action-IsSound env room pid action payload u s
  Step-IsSound {u} (leaves room pid) s = handle_player_disconnect-IsSound env room pid u s
  Step-IsSound {u} (times_out room pid) s = disconnect_timer_fires-IsSound env room pid u s
  Step-IsSound {u} (returns room pid n) s = handle_player_reconnect-IsSound env room pid u n s
  Step-IsSound (clears room pids) s = record { games = s.games; registries = s.registries }
  Step-IsSound {u} (connects pid c fresh n) s = record {
    games = s.games;
    registries = connect-IsConsistent env pid c u.hub s.registries fresh n;
  }
  Step-IsSound {u} (drops c) s = record {
    games = s.games;
    registries = disconnect-IsConsistent u.hub.manager s.registries c;
  }

  -- From a sound instance, every sequence of events (games created for two different players,
  -- actions of any player with any data, players who leave, time out or return, clean-ups,
  -- clients that connect under a new identifier or drop) reaches only sound instances, whatever
  -- the sockets do: each game held for a room is valid, has an empty cell left and is in progress
  -- with nobody recorded as disconnected or paused with one player recorded, and the connection
  -- registries agree.
  pub Reach-IsSound : {u v : World S} → IsSound u → Reach u v → IsSound v
  Reach-IsSound s here = s
  Reach-IsSound s (next r st) = Step-IsSound st (Reach-IsSound s r)
