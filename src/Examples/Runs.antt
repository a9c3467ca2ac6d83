-- ===== src/Examples/Runs.antt =====
-- Runs of the theorems on an instance and its games.
use game_backend.Base.{
  ◌≡◌, some, [], ◌∷◌, arith, ℤ, pos, Dict, lookup, mem, lookup-insert_self, insert, ok, str,
}
use game_backend.World.{World}
use game_backend.Presence.{shutdown_dependencies}
use game_backend.Presence.Shutdown.{IsShutDown, shutdown_dependencies-IsShutDown}
use game_backend.Play.{new_game, handle_game_over, create_game, process_action}
use game_backend.Play.Endings.{IsOver, handle_game_over-IsOver}
use game_backend.Play.Completion.{IsAction}
use game_backend.Play.Rounds.{process_action-IsAction}
use game_backend.Presence.Games.{IsPlayable, new_game-IsPlayable}
use game_backend.Presence.Invariant.{IsSound}
use game_backend.Presence.Reachable.{create_game-IsSound}
use game_backend.Examples.Store.{Store, redis-laws}
use game_backend.Examples.Rules.{two_players-IsValid}
use game_backend.Examples.Outside.{
  outside, empty_world, ann, bob, room, place, two_players, ann≢bob, room_named,
}

pub empty_world-IsSound : IsSound empty_world
unfolding lookup mem
empty_world-IsSound = record {
  games = λ r g e. absurd (ground (arith, e));
  registries = record {
    indexed = λ c i e. absurd (ground (arith, e));
    backed = λ p c e. absurd (ground (arith, e));
    seated = λ c r i e k. absurd (ground (arith, e));
    occupied = λ c r e. absurd (ground (arith, e));
    named = λ i e. absurd (ground (arith, e));
  };
}

two_players-IsPlayable : IsPlayable room two_players
two_players-IsPlayable = new_game-IsPlayable room ann bob _ 0 1 ann≢bob

abbrev elos : Dict ℤ
elos = (ann, pos 1200) ∷ (bob, pos 1000) ∷ []

abbrev started : World Store
started = (create_game outside room (ann ∷ bob ∷ []) elos empty_world).1

started-IsSound : IsSound started
started-IsSound =
    (create_game-IsSound outside room ann bob elos empty_world ann≢bob room_named
      empty_world-IsSound).1

abbrev moved : World Store
moved = (process_action outside room ann (str "place") (place 3 4) started).1

create_game-IsSound_example :
    ((create_game outside room (ann ∷ bob ∷ []) elos empty_world).0
      ≡ ok (new_game room (ann ∷ bob ∷ []) elos 0 1))
    × IsSound (create_game outside room (ann ∷ bob ∷ []) elos empty_world).1
    × ((create_game outside room (ann ∷ bob ∷ []) elos empty_world).1.games
        ≡ insert room (new_game room (ann ∷ bob ∷ []) elos 0 1) empty_world.games)
create_game-IsSound_example =
    create_game-IsSound outside room ann bob elos empty_world ann≢bob room_named empty_world-IsSound

-- The instance of the runs below: one game, and nobody connected.
abbrev alone : World Store
alone = record empty_world { games = insert room two_players [] }

alone_present : lookup room alone.games ≡ some two_players
alone_present = lookup-insert_self room two_players []

process_action-IsAction_example :
    IsAction outside room ann
      (str "place")
      (place 3 4)
      started
      (process_action outside room ann (str "place") (place 3 4) started)
process_action-IsAction_example =
    process_action-IsAction outside room ann (str "place") (place 3 4) started
      (λ g e. let x = started-IsSound.games room g e in (x.named, (x.first, (x.second, x.valid))))

handle_game_over-IsOver_example :
    IsOver outside two_players alone (handle_game_over outside two_players alone)
unfolding new_game
handle_game_over-IsOver_example =
    handle_game_over-IsOver outside ann bob two_players alone two_players-IsValid alone_present

shutdown_dependencies-IsShutDown_example :
    IsShutDown outside redis-laws started (shutdown_dependencies outside started)
shutdown_dependencies-IsShutDown_example =
    shutdown_dependencies-IsShutDown outside redis-laws started started-IsSound
