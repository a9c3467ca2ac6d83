-- ===== src/Presence/Recovery.antt =====
-- A game comes back from its snapshot (`_save_snapshot` and `restore_game_from_snapshot` of
-- app/core/game_engine.py), on this instance or on another one that shares the store.
use mathlib.Core.Option
use game_backend.Base.{
  ℕ, ◌+◌, ◌≡◌, refl, ◌∙◌, sym, subst, inl, inr, String, Option, some, [], ◌∷◌, arith, str_eq,
  str_eq_refl, Dict, lookup, insert, lookup-insert_self, last_items, Result, Result-cases, ok,
  Action, pure, modify, ◌>>=◌, ◌>>◌,
}
use game_backend.Constants.{room_key, room_state_key}
use game_backend.Constants.Keys.{room_key≢room_state_key}
use game_backend.Game.{ActiveGame, current_player_id}
use game_backend.Env.{Env, RedisGameState}
use game_backend.Env.Laws.{RedisLaws}
use game_backend.Sessions.{time_of, or_none}
use game_backend.World.{World, time, to_redis_state, save_snapshot}
use game_backend.Matchmaking.{room_to_dict}
use game_backend.Presence.{
  RedisRoom, room_from_dict, restored, restore_from, restore_game_from_snapshot,
}

-- What a snapshot keeps of a game, and what starts anew.
pub record IsRecovered (g : ActiveGame) (room : RedisRoom) (r : ActiveGame) : Type 0 where
  pub players : r.player_ids ≡ room.player_ids
  pub board : r.board ≡ g.board
  pub scores : r.scores ≡ g.scores
  pub turn_number : r.turn_number ≡ g.turn_number
  pub status : r.status ≡ g.status
  pub winner : r.winner_id ≡ g.winner_id
  pub history : r.action_history ≡ last_items 20 g.action_history
  pub first_to_move : r.current_player_idx ≡ 0
  pub everybody_there : r.disconnected_players ≡ []

ok_inj : {A : Type 0} {a b : A} → ok a ≡ ok b → a ≡ b
ok_inj e = cc

-- What a snapshot has of a game.
pub record IsSnapshot (g : ActiveGame) (state : RedisGameState) : Type 0 where
  pub board : state.board ≡ g.board
  pub scores : state.scores ≡ g.scores
  pub turn_number : state.turn_number ≡ g.turn_number
  pub status : state.status ≡ g.status
  pub winner : state.winner_id ≡ g.winner_id
  pub history : state.action_history ≡ last_items 20 g.action_history

pub to_redis_state-IsSnapshot :
    (g : ActiveGame) (now : ℕ) (state : RedisGameState)
    → to_redis_state g now ≡ ok state
    → IsSnapshot g state
unfolding to_redis_state
to_redis_state-IsSnapshot g now state e = elim (Result-cases (current_player_id g)) [
  | inl (x, r) ↦ absurd (cc (rw (r, to_redis_state) at e))
  | inr (pid, r) ↦ subst (IsSnapshot g) (ok_inj (rw (r, to_redis_state) at e)) (record {
    board = refl;
    scores = refl;
    turn_number = refl;
    status = refl;
    winner = refl;
    history = refl;
  })
]

module _ {S F : Type 0} (env : Env S F) where
  room_from_dict-room_to_dict :
      (x : RedisRoom) (w : World S)
      → env.texts.loads_ids (env.texts.dumps_ids x.player_ids) ≡ some x.player_ids
      → env.texts.text_time (env.texts.time_text x.created_at) ≡ some x.created_at
      → room_from_dict env (room_to_dict env x) w
        ≡ (ok (record x { match_id = or_none (Option.get_or x.match_id "") }), w)
  unfolding room_from_dict room_to_dict time_of lookup str_eq
  room_from_dict-room_to_dict x w ids at = rw (ids, at) refl

  -- `restore_from`, once the room is read.
  abbrev after_room : String → RedisGameState → RedisRoom → Action (World S) (Option ActiveGame)
  after_room room_id state room = do
    started ← time env
    last ← time env
    let g = restored env room_id room state started last
    modify (λ w. record w { games = insert room_id g w.games })
    pure (some g)

  restore_from_run :
      (room_id : String) (state : RedisGameState) (f : String × String) (fs : Dict String)
      (x : RedisRoom) (v : World S)
      → room_from_dict env (f ∷ fs) v ≡ (ok x, v)
      → (r : ActiveGame) × ((restore_from env room_id state (f ∷ fs) v).0 ≡ ok (some r))
        × (lookup room_id (restore_from env room_id state (f ∷ fs) v).1.games ≡ some r)
        × ((g : ActiveGame) → IsSnapshot g state → IsRecovered g x r)
  unfolding restore_from restored time
  restore_from_run room_id state f fs x v e =
      let r = restored env room_id x state (env.now v.hub.queries) (env.now (v.hub.queries + 1)) in
      let Q = λ (y : Result (Option ActiveGame) × World S).
        (y.0 ≡ ok (some r)) × (lookup room_id y.1.games ≡ some r) in
      let (done, there) =
        subst
          (λ (y : Result RedisRoom × World S).
            Q (((λ (_ : World S). y) >>= after_room room_id state) v))
          (sym e) (refl, lookup-insert_self room_id r v.games) in
      (
        r,
        done,
        there,
        λ g h. record {
          players = refl;
          board = h.board;
          scores = h.scores;
          turn_number = h.turn_number;
          status = h.status;
          winner = h.winner;
          history = h.history;
          first_to_move = refl;
          everybody_there = refl;
        },
      )

  -- The room's record keeps its players.
  again :
      (g : ActiveGame) (x : RedisRoom) (r : ActiveGame)
      → IsRecovered g (record x { match_id = or_none (Option.get_or x.match_id "") }) r
      → IsRecovered g x r
  again g x r h = record {
    players = h.players;
    board = h.board;
    scores = h.scores;
    turn_number = h.turn_number;
    status = h.status;
    winner = h.winner;
    history = h.history;
    first_to_move = h.first_to_move;
    everybody_there = h.everybody_there;
  }

  -- Where an instance holds a game whose current player is there, and the store has the room's
  -- record, then after `_save_snapshot` any instance on the same store restores the room: it
  -- returns the game, holds it, and it has the board, the scores, the turn number, the status,
  -- the winner and the last 20 moves of the game that was saved, and the record's players; the
  -- first player is to move and nobody is recorded as away. For a Redis that keeps its laws, and
  -- a snapshot, a list of players and a time that survive the way through text.
  pub restore_game_from_snapshot-save_snapshot :
      (laws : RedisLaws env.redis) (room_id : String) (g : ActiveGame) (x : RedisRoom)
      (state : RedisGameState) (w v : World S)
      → lookup room_id w.games ≡ some g
      → to_redis_state g (env.now w.hub.queries) ≡ ok state
      → env.redis.hgetall (room_key room_id) w.store ≡ room_to_dict env x
      → v.store ≡ (save_snapshot env room_id w).1.store
      → env.texts.loads_state (env.texts.dumps_state state) ≡ some state
      → env.texts.loads_ids (env.texts.dumps_ids x.player_ids) ≡ some x.player_ids
      → env.texts.text_time (env.texts.time_text x.created_at) ≡ some x.created_at
      → (r : ActiveGame) × ((restore_game_from_snapshot env room_id v).0 ≡ ok (some r))
        × (lookup room_id (restore_game_from_snapshot env room_id v).1.games ≡ some r)
        × IsRecovered g x r
  unfolding save_snapshot restore_game_from_snapshot room_to_dict
  restore_game_from_snapshot-save_snapshot laws room_id g x state w v held taken room shared back
        ids at =
      let s = env.redis.set (room_state_key room_id) (env.texts.dumps_state state) 3600 w.store in
      let same : v.store ≡ s = shared ∙ rw (held, save_snapshot) (rw taken refl) in
      let read : env.redis.get (room_state_key room_id) v.store
          ≡ some (env.texts.dumps_state state) =
        rw same (
          ground (
            arith,
            laws.get-set (room_state_key room_id) (room_state_key room_id)
                (env.texts.dumps_state state) 3600 w.store,
            str_eq_refl (room_state_key room_id),
          )) in
      let known : env.redis.hgetall (room_key room_id) v.store ≡ room_to_dict env x = rw same (
        laws.hgetall-set (room_key room_id) (room_state_key room_id) (env.texts.dumps_state state)
          3600 w.store (room_key≢room_state_key room_id)
        ∙ room) in
      let (r, done, there, kept) =
        restore_from_run room_id state _ _ _ v (room_from_dict-room_to_dict x v ids at) in
      rw (read, back, known, restore_game_from_snapshot)
        (
          r,
          done,
          there,
          again g x r (kept g (to_redis_state-IsSnapshot g (env.now w.hub.queries) state taken)),
        )
