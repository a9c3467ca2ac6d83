-- ===== src/Examples/Queues.antt =====
-- Runs of the theorems on the matchmaking script.
use game_backend.Base.{
  lookup, if◌then◌else◌, str_eq, ◌≡◌, refl, inl, true, false, none, some, [], ◌∷◌, pos, ◌-ℤ◌, ◌*ℤ◌,
}
use game_backend.Constants.{matchmaking_queue}
use game_backend.Matchmaking.{Candidate, distance, acceptable, first_match, find_pair, run_script}
use game_backend.World.{World}
use game_backend.Matchmaking.{enqueue_player, dequeue_player}
use game_backend.Matchmaking.Queue.{dequeue_player-enqueue_player}
use game_backend.Matchmaking.Pairs.{Picks, find_pair_sound, find_pair_complete}
use game_backend.Matchmaking.Pops.{Ran, run_script-Ran}
use game_backend.Examples.Store.{Store, redis, redis-laws}
use game_backend.Examples.Outside.{outside, empty_store, empty_world, ann, bob}

abbrev candidate_ann : Candidate
candidate_ann = record { pid = ann; elo = pos 1200; tolerance = pos 100000000 }

abbrev candidate_bob : Candidate
candidate_bob = record { pid = bob; elo = pos 1150; tolerance = pos 100000000 }

abbrev candidate_eve : Candidate
candidate_eve = record { pid = "eve"; elo = pos 2000; tolerance = pos 100000000 }

bob_found :
    find_pair (candidate_eve ∷ candidate_ann ∷ candidate_bob ∷ [])
    ≡ some (candidate_ann, candidate_bob)
unfolding find_pair first_match acceptable distance ◌-ℤ◌ ◌*ℤ◌
bob_found = refl

nobody_found : find_pair (candidate_eve ∷ candidate_ann ∷ []) ≡ none
unfolding find_pair first_match acceptable distance ◌-ℤ◌ ◌*ℤ◌
nobody_found = refl

find_pair_sound_example :
    Picks candidate_ann candidate_bob (candidate_eve ∷ candidate_ann ∷ candidate_bob ∷ [])
    × (acceptable candidate_ann candidate_bob ≡ true)
find_pair_sound_example =
    find_pair_sound candidate_ann candidate_bob (candidate_eve ∷ candidate_ann ∷ candidate_bob ∷ [])
      bob_found

find_pair_complete_example : acceptable candidate_eve candidate_ann ≡ false
find_pair_complete_example =
    find_pair_complete candidate_eve candidate_ann (candidate_eve ∷ candidate_ann ∷ []) nobody_found
      (inl (refl, inl refl))

abbrev queued : Store
queued =
    redis.zadd matchmaking_queue bob (pos 1150)
      (redis.zadd matchmaking_queue ann (pos 1200) empty_store)

run_script-Ran_example :
    Ran outside queued (run_script outside 7 queued).0 (run_script outside 7 queued).1
run_script-Ran_example = run_script-Ran outside redis-laws 7 queued

abbrev waiting : World Store
waiting = record empty_world { store = queued }

dequeue_player-enqueue_player_example :
    ((dequeue_player outside ann (enqueue_player outside ann (pos 1200) waiting)).0 ≡ true)
    × (lookup bob (
          redis.zrange matchmaking_queue
            (dequeue_player outside ann (enqueue_player outside ann (pos 1200) waiting)).1.store)
        ≡ (if str_eq bob ann
            then none
            else lookup bob (redis.zrange matchmaking_queue waiting.store)))
dequeue_player-enqueue_player_example =
    dequeue_player-enqueue_player outside redis-laws ann bob (pos 1200) waiting
