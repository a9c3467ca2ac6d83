-- ===== src/Matchmaking/Passes.antt =====
-- The inner loop of `_matching_loop` (app/core/matchmaking.py): it matches until no pair is left,
-- and it ends. Nobody joins the queue meanwhile: a pass is run from one end to the other.
use Prim.Native.String.{◌++◌ as ◌++ₛ◌}
use text.Mathlib.Text.{starts_with}
use text.Mathlib.TextPositions.{starts_with-append}
use game_backend.Base.{
  ℕ, zero, suc, ◌+◌, ◌≤◌, ◌<◌, ◌≡◌, ◌≢◌, refl, ◌∙◌, ap, String, Bool, true, false, none, some, List,
  [], ◌∷◌, arith, ℤ, length, Dict, lookup, erase, str_eq, Result, ok, raise, Result-cases,
  Option-cases, Bool-cases, inl, inr, Action, pure, ◌>>◌,
}
use game_backend.Constants.{matchmaking_queue, player_room_key, room_state_key}
use game_backend.Game.{ActiveGame, to_client_state}
use game_backend.Env.{Env}
use game_backend.Env.Laws.{RedisLaws}
use game_backend.Sessions.{set_player_room, update_session_state}
use game_backend.World.{World, to_redis_state, save_snapshot, time}
use game_backend.World.Frames.{send_or_publish-Talks}
use game_backend.Play.{join_players, announce, create_game, new_game}
use game_backend.Matchmaking.{try_match, create_match}

no_prefix : (k p s : String) → starts_with k p ≡ false → k ≢ p ++ₛ s
no_prefix k p s h e = ground (arith, h, ap (λ x. starts_with x p) e, starts_with-append p s)

queue_no_player : (pid : String) → matchmaking_queue ≢ player_room_key pid
unfolding player_room_key
queue_no_player pid = no_prefix matchmaking_queue "player:" (pid ++ₛ ":room") refl

queue_no_room : (room : String) → matchmaking_queue ≢ room_state_key room
unfolding room_state_key
queue_no_room room = no_prefix matchmaking_queue "room:" (room ++ₛ ":state") refl

length-erase_le : (p : String) (d : Dict ℤ) → length (erase p d) ≤ length d
unfolding erase
length-erase_le p [] = omega arith
length-erase_le p ((q, x) ∷ d) = ground (arith, length-erase_le p d)

pub length-erase :
    (p : String) (e : ℤ) (d : Dict ℤ) → lookup p d ≡ some e → length (erase p d) < length d
unfolding lookup erase
length-erase p e [] h = cc
length-erase p e ((q, x) ∷ d) h = elim (Bool-cases (str_eq p q)) [
  | inl b ↦ rw b (omega (arith, length-erase_le p d))
  | inr b ↦ rw b (omega (arith, length-erase p e d (rw b at h)))
]

module _ {S F : Type 0} (env : Env S F) where
  -- The queue of an instance's store.
  abbrev pub queue_of : World S → Dict ℤ
  queue_of w = env.redis.zrange matchmaking_queue w.store

  -- On fuel, for the rounds that it makes: whether the script is loaded, the new room's
  -- identifier and the throw of the coin. The answer is whether the loop has ended.
  unfoldable pub match_pass : ℕ → (ℕ → Bool) → (ℕ → String) → (ℕ → Bool) → Action (World S) Bool
  match_pass zero loaded ids coins w = (ok false, w)
  match_pass (suc n) loaded ids coins w = elim (try_match env (loaded n) w).0 [
    | raise e ↦ (raise e, (try_match env (loaded n) w).1)
    | ok none ↦ (ok true, (try_match env (loaded n) w).1)
    | ok (some m) ↦
        (create_match env (ids n) (coins n) m >> match_pass n loaded ids coins)
          (try_match env (loaded n) w).1
  ]

  module _ (laws : RedisLaws env.redis) where
    join_players-queue :
        (room : String) (pids : List String) (w : World S)
        → queue_of (join_players env room pids w) ≡ queue_of w
    unfolding join_players update_session_state set_player_room
    join_players-queue room [] w = refl
    join_players-queue room (pid ∷ pids) w =
        join_players-queue room pids _
        ∙ laws.zrange-hset _ _ _ _
        ∙ laws.zrange-set _ _ _ _ _ (queue_no_player pid)

    announce-queue :
        (g : ActiveGame) (i : ℕ) (pids : List String) (w : World S)
        → queue_of (announce env g i pids w).1 ≡ queue_of w
    unfolding announce
    announce-queue g i [] w = refl
    announce-queue g i (pid ∷ pids) w = elim (Result-cases (to_client_state g)) [
      | inl (e, r) ↦ rw (r, announce) refl
      | inr (state, r) ↦
          rw (r, announce)
            (announce-queue g (suc i) pids _
              ∙ ap (env.redis.zrange matchmaking_queue)
                  (send_or_publish-Talks env pid "game_started" g.room_id _ w).store)
    ]

    save_snapshot-queue :
        (room : String) (w : World S) → queue_of (save_snapshot env room w).1 ≡ queue_of w
    unfolding save_snapshot
    save_snapshot-queue room w = elim (Option-cases (lookup room w.games)) [
      | inl e ↦ rw (e, save_snapshot) refl
      | inr (g, e) ↦ elim (Result-cases (to_redis_state g (env.now w.hub.queries))) [
        | inl (x, r) ↦ rw (e, r, save_snapshot) refl
        | inr (state, r) ↦ rw (e, r, save_snapshot) (laws.zrange-set _ _ _ _ _ (queue_no_room room))
      ]
    ]

    -- The rest of `create_game`, from what the announcements did.
    abbrev after_announce :
        String → ActiveGame → Result (Unit {0}) × World S → Result ActiveGame × World S
    after_announce room g x = ((λ _. x) >> (save_snapshot env room >> pure g)) x.1

    after_announce-queue :
        (room : String) (g : ActiveGame) (r : Result (Unit {0})) (w : World S)
        → queue_of (after_announce room g (r, w)).1 ≡ queue_of w
    after_announce-queue room g (raise e) w = refl
    after_announce-queue room g (ok x) w =
        kept (save_snapshot env room w).0 (save_snapshot env room w).1 ∙ save_snapshot-queue room w
      where
        kept :
            (r : Result (Unit {0})) (w' : World S)
            → queue_of (((λ _. (r, w')) >> pure g) w).1 ≡ queue_of w'
        kept (raise e) w' = refl
        kept (ok x) w' = refl

    pub create_game-queue :
        (room : String) (pids : List String) (elos : Dict ℤ) (w : World S)
        → queue_of (create_game env room pids elos w).1 ≡ queue_of w
    unfolding create_game time
    create_game-queue room pids elos w =
        let g = new_game room pids elos (env.now w.hub.queries) (env.now (w.hub.queries + 1)) in
        after_announce-queue room g _ _ ∙ announce-queue g 0 pids _ ∙ join_players-queue room pids _
