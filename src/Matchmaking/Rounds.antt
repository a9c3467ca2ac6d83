-- ===== src/Matchmaking/Rounds.antt =====
-- A round of matchmaking (`_try_match` and `_create_match` of app/core/matchmaking.py) on a sound
-- instance.
use game_backend.Base.{
  ◌+◌, ◌≡◌, ◌≢◌, refl, subst, String, Bool, true, false, Option, none, some, arith, Result, ok,
  raise, Result-cases, if◌then◌else◌,
}
use game_backend.Env.{Env}
use game_backend.Env.Laws.{RedisLaws}
use game_backend.Connections.Traffic.{send_personal-IsConsistent}
use game_backend.World.{World, publish_to_player}
use game_backend.Presence.Invariant.{IsSound}
use game_backend.Presence.Reachable.{create_game-IsSound}
use game_backend.Matchmaking.{
  Pair, run_script, try_match, notify_pair, register_room, create_match, match_round,
}
use game_backend.Matchmaking.Pops.{Ran, run_script-Ran}

module _ {S F : Type 0} (env : Env S F) where
  publish_to_player-IsSound :
      (pid event room_id : String) (w : World S) (told : Bool)
      → IsSound w
      → (m : _) → IsSound (if told then w else publish_to_player env pid event room_id m w)
  unfolding publish_to_player
  publish_to_player-IsSound pid event room_id w true s m = s
  publish_to_player-IsSound pid event room_id w false s m = record {
    games = s.games;
    registries = s.registries;
  }

  notify_pair-IsSound :
      (room_id : String) (m : Pair) (coin : Bool) (w : World S)
      → IsSound w
      → IsSound (notify_pair env room_id m coin w)
  unfolding notify_pair
  notify_pair-IsSound room_id m coin w s =
      publish_to_player-IsSound m.player_b "match_found" room_id _ _
        (publish_to_player-IsSound m.player_a "match_found" room_id _ _
          (record {
            games = s.games;
            registries =
                send_personal-IsConsistent env m.player_b _ _
                  (send_personal-IsConsistent env m.player_a _ w.hub s.registries);
          })
          _)
        _

  create_match-IsSound :
      (room_id : String) (coin : Bool) (m : Pair) (w : World S)
      → m.player_a ≢ m.player_b
      → room_id ≢ ""
      → IsSound w
      → IsSound (create_match env room_id coin m w).1
  unfolding create_match register_room
  create_match-IsSound room_id coin m w distinct named s =
      (create_game-IsSound env room_id m.player_a m.player_b _ _ distinct named (
        notify_pair-IsSound room_id m coin _
          (record { games = s.games; registries = s.registries }))).1

  -- A round of matchmaking keeps an instance sound, whether the script is loaded, finds a pair,
  -- finds none or stops; for a Redis that keeps its laws and a new room's identifier that is not
  -- empty.
  pub match_round-IsSound :
      (laws : RedisLaws env.redis) (loaded : Bool) (room_id : String) (coin : Bool) (w : World S)
      → room_id ≢ ""
      → IsSound w
      → IsSound (match_round env loaded room_id coin w).1
  match_round-IsSound laws false room_id coin w named s = unfold match_round try_match in s
  match_round-IsSound laws true room_id coin w named s =
      round (run_script env (env.now w.hub.queries) w.store).0 refl
        (run_script-Ran env laws (env.now w.hub.queries) w.store)
    where
      ran : World S
      ran = record w {
        hub = record w.hub { queries = w.hub.queries + 1 };
        store = (run_script env (env.now w.hub.queries) w.store).1;
      }

      ran-IsSound : IsSound ran
      ran-IsSound = record { games = s.games; registries = s.registries }

      round :
          (r : Result (Option Pair))
          → (run_script env (env.now w.hub.queries) w.store).0 ≡ r
          → Ran env w.store r (run_script env (env.now w.hub.queries) w.store).1
          → IsSound (match_round env true room_id coin w).1
      round (raise x) e found =
          subst IsSound {x = ran} (unfold match_round try_match in ground (arith, e)) ran-IsSound
      round (ok none) e found =
          subst IsSound {x = ran} (unfold match_round try_match in ground (arith, e)) ran-IsSound
      round (ok (some m)) e found =
          subst IsSound {x = (create_match env room_id coin m ran).1}
            (unfold match_round try_match in
              ground (arith, e, Result-cases (create_match env room_id coin m ran).0))
            (create_match-IsSound room_id coin m ran found.0 named ran-IsSound)
