-- ===== src/Examples/Recovery.antt =====
-- A run of the theorem on snapshots.
use game_backend.Base.{
  ◌≡◌, refl, some, none, [], ◌∷◌, ℤ, lookup, insert, str_eq, lookup-insert_self, ok,
}
use game_backend.Game.{ActiveGame, current_player_id}
use game_backend.Play.{new_game}
use game_backend.Env.{Env, RedisGameState}
use game_backend.World.{World, to_redis_state, save_snapshot}
use game_backend.Matchmaking.{room_to_dict}
use game_backend.Presence.{RedisRoom, restore_game_from_snapshot}
use game_backend.Presence.Recovery.{IsRecovered, restore_game_from_snapshot-save_snapshot}
use game_backend.Examples.Store.{Store, redis-laws}
use game_backend.Examples.Outside.{outside, empty_store, empty_world, ann, bob, room, two_players}

abbrev saved : RedisGameState
saved = record {
  room_id = room;
  turn_number = two_players.turn_number;
  current_player_id = ann;
  board = two_players.board;
  scores = two_players.scores;
  action_history = [];
  status = two_players.status;
  winner_id = two_players.winner_id;
  snapshot_time = 0;
}

-- An `orjson` that reads this snapshot and this list of players.
abbrev reader : Env Store ℤ
reader = record outside {
  texts = record outside.texts {
    loads_state = λ t. some saved;
    loads_ids = λ t. some (ann ∷ bob ∷ []);
  };
}

abbrev full_room : RedisRoom
full_room = record {
  room_id = room;
  owner_instance_id = "one";
  player_ids = ann ∷ bob ∷ [];
  status = "full";
  created_at = 0;
  match_id = none;
}

abbrev holder : World Store
holder = record empty_world {
  games = insert room two_players [];
  store = record empty_store { hashes = λ k. room_to_dict reader full_room };
}

-- Another instance that shares the store.
abbrev heir : World Store
heir = record empty_world { store = (save_snapshot reader room holder).1.store }

restore_game_from_snapshot-save_snapshot_example :
    (r : ActiveGame) × ((restore_game_from_snapshot reader room heir).0 ≡ ok (some r))
    × (lookup room (restore_game_from_snapshot reader room heir).1.games ≡ some r)
    × IsRecovered two_players full_room r
unfolding to_redis_state current_player_id new_game lookup insert str_eq
restore_game_from_snapshot-save_snapshot_example =
    restore_game_from_snapshot-save_snapshot reader redis-laws room two_players full_room saved
      holder heir (lookup-insert_self room two_players []) refl refl refl refl refl refl
