-- ===== src/Matchmaking/Queue.antt =====
-- The matchmaking queue (`enqueue_player` and `dequeue_player` of app/core/matchmaking.py).
use game_backend.Base.{
  ◌≡◌, ◌∙◌, ap, inl, inr, String, true, Option, none, some, arith, ℤ, str_eq, str_eq_refl, lookup,
  erase, lookup-erase, Bool-cases, if◌then◌else◌,
}
use game_backend.Constants.{matchmaking_queue}
use game_backend.Env.{Env}
use game_backend.Env.Laws.{RedisLaws}
use game_backend.World.{World}
use game_backend.World.Frames.{tell-Talks}
use game_backend.Matchmaking.{enqueue_player, dequeue_player, is_queued}

module _ {S F : Type 0} (env : Env S F) (laws : RedisLaws env.redis) where
  -- The rating that a queued player is queued with.
  abbrev queued : String → World S → Option ℤ
  queued pid w = lookup pid (env.redis.zrange matchmaking_queue w.store)

  enqueue_player_lem :
      (pid q : String) (elo : ℤ) (w : World S)
      → queued q (enqueue_player env pid elo w) ≡ (if str_eq q pid then some elo else queued q w)
  unfolding enqueue_player
  enqueue_player_lem pid q elo w =
      ap (λ s. lookup q (env.redis.zrange matchmaking_queue s)) (tell-Talks env pid _ _).store
      ∙ ap (lookup q) (laws.zrange-hset matchmaking_queue _ _ _)
      ∙ laws.zrange-zadd matchmaking_queue pid q elo w.store

  dequeue_player_store :
      (pid : String) (w : World S)
      → env.redis.zrange matchmaking_queue (dequeue_player env pid w).1.store
        ≡ erase pid (env.redis.zrange matchmaking_queue w.store)
  unfolding dequeue_player
  dequeue_player_store pid w = elim (Bool-cases (is_queued env pid w.store)) [
    | inl there ↦
        rw (there, dequeue_player)
          (ap (env.redis.zrange matchmaking_queue) (tell-Talks env pid _ _).store
            ∙ laws.zrange-hdel matchmaking_queue _ _ _
            ∙ laws.zrange-zrem_one matchmaking_queue pid w.store)
    | inr absent ↦
        rw (absent, dequeue_player)
          (laws.zrange-hdel matchmaking_queue _ _ _
            ∙ laws.zrange-zrem_one matchmaking_queue pid w.store)
  ]

  dequeue_player_answer :
      (pid : String) (w : World S) → (dequeue_player env pid w).0 ≡ is_queued env pid w.store
  unfolding dequeue_player
  dequeue_player_answer pid w = ground arith

  -- A player who is queued and then taken out is answered `True`, is not in the queue afterwards,
  -- and every other player is in it with the same rating as before, for a Redis that keeps its
  -- laws.
  pub dequeue_player-enqueue_player :
      (pid q : String) (elo : ℤ) (w : World S)
      → ((dequeue_player env pid (enqueue_player env pid elo w)).0 ≡ true)
        × (queued q (dequeue_player env pid (enqueue_player env pid elo w)).1
            ≡ (if str_eq q pid then none else queued q w))
  dequeue_player-enqueue_player pid q elo w =
      let w1 : World S = enqueue_player env pid elo w in
      (
        dequeue_player_answer pid w1
            ∙ ground (arith, enqueue_player_lem pid pid elo w, str_eq_refl pid),
        ap (lookup q) (dequeue_player_store pid w1)
            ∙ ground (
              arith,
              enqueue_player_lem pid q elo w,
              lookup-erase {V = ℤ} pid q (env.redis.zrange matchmaking_queue w1.store),
            ),
      )
