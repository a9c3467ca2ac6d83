-- ===== src/Matchmaking.antt =====
-- Matchmaking (app/core/matchmaking.py, and its Lua script, which scripts/lua/matchmaking_pop.lua
-- repeats). Times are in ticks, a million to the second, and tolerances are scaled by as much, so
-- that no rounding is left. Redis runs the script in one piece.
pub mod Pairs
pub mod Pops
pub mod Rounds
pub mod Queue
pub mod Passes
pub mod Ends
use mathlib.Core.Option
use game_backend.Base.{
  ◌>>◌, pure, ℕ, ◌*◌, String, Bool, true, false, ◌&&◌, Option, none, some, List, [], ◌∷◌, ℤ, pos,
  ◌+ℤ◌, ◌-ℤ◌, ◌*ℤ◌, leb_ℤ, ltb_ℤ, ltb, leb, ◌==◌, length, Dict, lookup, insert, contains, ◌+◌,
  runtime_error, Result, ok, raise, Action, if◌then◌else◌,
}
use game_backend.Constants.{
  RoomStatus, room_text, room_key, matchmaking_queue, matchmaking_timestamps,
}
use game_backend.Schemas.{Response, match_found, match_cancelled, matchmaking_queued}
use game_backend.Game.{ActiveGame}
use game_backend.Env.{Env, ticks_per_sec}
use game_backend.Connections.{send_personal}
use game_backend.Presence.{RedisRoom}
use game_backend.World.{World, tell, publish_to_player}
use game_backend.Play.{create_game}

-- An entry of the script's list of players.
pub record Candidate : Type 0 where
  pub pid : String
  pub elo : ℤ
  pub tolerance : ℤ

-- `math.min`
unfoldable pub min_ℤ : ℤ → ℤ → ℤ
min_ℤ a b = if leb_ℤ a b then a else b

-- `math.abs(a - b)`
unfoldable pub distance : ℤ → ℤ → ℤ
distance a b = let d = a -ℤ b in if ltb_ℤ d (pos 0) then pos 0 -ℤ d else d

-- Both players must accept the difference.
unfoldable pub acceptable : Candidate → Candidate → Bool
acceptable a b =
    let d = distance a.elo b.elo *ℤ pos ticks_per_sec in leb_ℤ d a.tolerance && leb_ℤ d b.tolerance

-- The inner loop.
unfoldable pub first_match : Candidate → List Candidate → Option Candidate
first_match a [] = none
first_match a (b ∷ bs) = if acceptable a b then some b else first_match a bs

-- The outer loop: the first valid pair wins.
unfoldable pub find_pair : List Candidate → Option (Candidate × Candidate)
find_pair [] = none
find_pair (a ∷ bs) =
    let rest = find_pair bs in elim (first_match a bs) [ some b ↦ some (a, b) | none ↦ rest ]

-- The four parts of the script's answer, as `_try_match` decodes them.
pub record Pair : Type 0 where
  pub player_a : String
  pub elo_a : ℤ
  pub player_b : String
  pub elo_b : ℤ

-- `_estimate_wait`
unfoldable pub estimate_wait : ℕ → ℕ
estimate_wait queue_size = if leb 2 queue_size then 5 else if queue_size == 1 then 15 else 30

module _ {S F : Type 0} (env : Env S F) where
  open env use {redis, settings, texts}

  -- `math.min(base + wait * expansion, max)`, for a player who joined at `joined`.
  unfoldable pub tolerance_at : ℕ → ℕ → ℤ
  tolerance_at now joined =
      min_ℤ
        (pos (settings.elo_tolerance_base * ticks_per_sec)
          +ℤ (pos now -ℤ pos joined) *ℤ pos settings.elo_tolerance_expansion_per_sec)
        (pos (settings.elo_tolerance_max * ticks_per_sec))

  -- `tonumber(HGET ... or current_time)`; a text that is no number stops the script.
  unfoldable pub join_time : ℕ → String → S → Result ℕ
  join_time now pid s = elim (lookup pid (redis.hgetall matchmaking_timestamps s)) [
    | none ↦ ok now
    | some t ↦ elim (texts.text_time t) [ none ↦ raise runtime_error | some n ↦ ok n ]
  ]

  unfoldable pub candidates : ℕ → List (String × ℤ) → S → Result (List Candidate)
  candidates now [] s = ok []
  candidates now ((pid, elo) ∷ members) s = elim (join_time now pid s) [
    | raise e ↦ raise e
    | ok joined ↦ elim (candidates now members s) [
      | raise e ↦ raise e
      | ok cs ↦ ok (record { pid = pid; elo = elo; tolerance = tolerance_at now joined } ∷ cs)
    ]
  ]

  -- Both players leave the queue and the timestamps.
  unfoldable pub pop_pair : String → String → S → S
  pop_pair a b s =
      redis.hdel matchmaking_timestamps (a ∷ b ∷ []) (redis.zrem matchmaking_queue (a ∷ b ∷ []) s)

  unfoldable pub pop_found : Option (Candidate × Candidate) → S → Option Pair × S
  pop_found none s = (none, s)
  pop_found (some (a, b)) s = (
    some (record { player_a = a.pid; elo_a = a.elo; player_b = b.pid; elo_b = b.elo }),
    pop_pair a.pid b.pid s,
  )

  -- The script.
  unfoldable pub run_script : ℕ → S → Result (Option Pair) × S
  run_script now s =
      let members = redis.zrange matchmaking_queue s in
      if ltb (length members) 2 then (ok none, s) else elim (candidates now members s) [
        | raise e ↦ (raise e, s)
        | ok cs ↦ (ok (pop_found (find_pair cs) s).0, (pop_found (find_pair cs) s).1)
      ]

  -- `_try_match`; Redis may have dropped the script, which is loaded again then.
  unfoldable pub try_match : Bool → Action (World S) (Option Pair)
  try_match false w = (ok none, w)
  try_match true w =
      let r = run_script (env.now w.hub.queries) w.store in
      (r.0, record w { hub = record w.hub { queries = w.hub.queries + 1 }; store = r.1 })

  unfoldable pub enqueue_player : String → ℤ → World S → World S
  enqueue_player pid elo w =
      let s =
        redis.hset matchmaking_timestamps ((pid, texts.time_text (env.now w.hub.queries)) ∷ [])
          (redis.zadd matchmaking_queue pid elo w.store) in
      tell env pid
        (matchmaking_queued (redis.zrank matchmaking_queue pid s)
          (estimate_wait (redis.zcard matchmaking_queue s)))
        (record w { hub = record w.hub { queries = w.hub.queries + 1 }; store = s })

  -- Whether the player was in the queue, which is what `ZREM` counts.
  abbrev pub is_queued : String → S → Bool
  is_queued pid s = contains pid (redis.zrange matchmaking_queue s)

  unfoldable pub dequeue_player : String → World S → Bool × World S
  dequeue_player pid w =
      let s =
        redis.hdel matchmaking_timestamps (pid ∷ [])
          (redis.zrem matchmaking_queue (pid ∷ []) w.store) in
      let w' = record w { store = s } in
      if is_queued pid w.store then (true, tell env pid match_cancelled w') else (false, w')

  -- `RedisRoom.to_dict`
  unfoldable pub room_to_dict : RedisRoom → Dict String
  room_to_dict room =
      ("room_id", room.room_id)
      ∷ ("owner_instance_id", room.owner_instance_id)
      ∷ ("player_ids", texts.dumps_ids room.player_ids)
      ∷ ("status", room.status)
      ∷ ("created_at", texts.time_text room.created_at)
      ∷ ("match_id", Option.get_or room.match_id "")
      ∷ []

  abbrev found_message : String → String → ℤ → String → Response
  found_message room_id opponent elo color = match_found (record {
    room_id = room_id;
    opponent_id = opponent;
    opponent_username = opponent;
    opponent_elo = elo;
    your_color = color;
  })

  -- The two notices: both players are tried here before any is told through Pub/Sub.
  unfoldable pub notify_pair : String → Pair → Bool → World S → World S
  notify_pair room_id m coin w =
      let color_a = if coin then "player_1" else "player_2" in
      let color_b = if coin then "player_2" else "player_1" in
      let msg_a = found_message room_id m.player_b m.elo_b color_a in
      let msg_b = found_message room_id m.player_a m.elo_a color_b in
      let sent_a = send_personal env m.player_a msg_a w.hub in
      let sent_b = send_personal env m.player_b msg_b sent_a.1 in
      let w' = record w { hub = sent_b.1 } in
      let w'' =
        if sent_a.0 then w' else publish_to_player env m.player_a "match_found" room_id msg_a w' in
      if sent_b.0 then w'' else publish_to_player env m.player_b "match_found" room_id msg_b w''

  -- The room's record in Redis.
  unfoldable pub register_room : String → Pair → World S → World S
  register_room room_id m w = record w {
    hub = record w.hub { queries = w.hub.queries + 1 };
    store =
        redis.hset (room_key room_id)
          (room_to_dict (record {
            room_id = room_id;
            owner_instance_id = settings.instance_id;
            player_ids = m.player_a ∷ m.player_b ∷ [];
            status = room_text RoomStatus.full;
            created_at = env.now w.hub.queries;
            match_id = none;
          }))
          w.store;
  }

  -- `_create_match`, with the new room's identifier and the throw of the coin.
  unfoldable pub create_match : String → Bool → Pair → Action (World S) ActiveGame
  create_match room_id coin m w =
      create_game env room_id (m.player_a ∷ m.player_b ∷ [])
        (insert m.player_b m.elo_b (insert m.player_a m.elo_a []))
        (notify_pair room_id m coin (register_room room_id m w))

  -- One round of the inner loop of `_matching_loop`.
  unfoldable pub match_round : Bool → String → Bool → Action (World S) (Unit {0})
  match_round loaded room_id coin w = elim (try_match loaded w).0 [
    | raise e ↦ (raise e, (try_match loaded w).1)
    | ok none ↦ (ok tt, (try_match loaded w).1)
    | ok (some m) ↦ (create_match room_id coin m >> pure tt) (try_match loaded w).1
  ]
