-- ===== src/Presence/Shutdown.antt =====
-- The end of an instance (`GameEngine.stop` of app/core/game_engine.py, which saves as each round
-- of `_snapshot_loop` does, and `shutdown_dependencies` of app/dependencies.py).
use game_backend.Base.{
  ◌≡◌, refl, ◌∙◌, sym, subst, ◌⊎◌, inl, inr, Bool-cases, Option-cases, String, true, false, none,
  some, List, [], ◌∷◌, arith, str_eq, str_eq_iff, str_eq_refl, mem, keys, mem-keys, lookup, modify,
  ◌>>◌, Result, ok,
}
use game_backend.Constants.{room_state_key}
use game_backend.Constants.Keys.{room_state_key_inj}
use game_backend.Game.{ActiveGame}
use game_backend.Env.{Env, RedisGameState}
use game_backend.Env.Laws.{RedisLaws}
use game_backend.World.{World, save_snapshot, save_all, stop}
use game_backend.Play.Endings.{to_redis_state_ok}
use game_backend.Presence.Recovery.{IsSnapshot, to_redis_state-IsSnapshot}
use game_backend.Connections.{is_player_connected, close_all}
use game_backend.Connections.Consistency.{IsConsistent}
use game_backend.Connections.Closing.{close_all_lem}
use game_backend.Presence.{shutdown_dependencies}
use game_backend.Presence.Invariant.{AllPlayable, IsSound}

module _ {S F : Type 0} (env : Env S F) (laws : RedisLaws env.redis) where
  -- The store has a snapshot of the room's game.
  abbrev pub IsSaved : String → ActiveGame → S → Type 0
  IsSaved room_id g s =
      (state : RedisGameState) × IsSnapshot g state
      × (env.redis.get (room_state_key room_id) s ≡ some (env.texts.dumps_state state))

  -- A snapshot of one room leaves the other rooms' snapshots.
  IsSaved-other :
      (room_id j : String) (h : ActiveGame) (text : String) (s : S)
      → str_eq j room_id ≡ false
      → IsSaved j h s
      → IsSaved j h (env.redis.set (room_state_key room_id) text 3600 s)
  IsSaved-other room_id j h text s apart (state, snap, r) = (
    state,
    snap,
    ground (
      arith,
      laws.get-set (room_state_key j) (room_state_key room_id) text 3600 s,
      apart,
      r,
      str_eq_iff (room_state_key j) (room_state_key room_id),
      str_eq_iff j room_id,
      room_state_key_inj j room_id,
    ),
  )

  -- What a round has done: it returns, the games stay, and the rooms' games are saved with those
  -- that were.
  abbrev Saves : List String → World S → Result (Unit {0}) × World S → Type 0
  Saves rooms w r =
      (r.0 ≡ ok tt)
      × (r.1.games ≡ w.games)
      × (r.1.hub.manager ≡ w.hub.manager)
      × ((j : String) (h : ActiveGame)
          → lookup j w.games ≡ some h
          → (mem j rooms ≡ true) ⊎ IsSaved j h w.store
          → IsSaved j h r.1.store)

  save_one :
      (room_id : String) (w : World S)
      → AllPlayable w.games
      → Saves (room_id ∷ []) w (save_snapshot env room_id w)
  unfolding save_snapshot mem
  save_one room_id w v = elim (Option-cases (lookup room_id w.games)) [
    | inl absent ↦
        rw (absent, save_snapshot)
          (
            refl,
            refl,
            refl,
            λ j h k x. elim x [
              | inl m ↦ absurd (
                  cc (
                    subst (λ y. lookup y w.games ≡ some h)
                        ((str_eq_iff j room_id).0 (ground (arith, m))) k,
                    absent,
                  ))
              | inr y ↦ y
            ],
          )
    | inr (g, held) ↦
        let p = v room_id g held in
        let (state, e) = to_redis_state_ok p.first p.second g (env.now w.hub.queries) p.valid in
        let text = env.texts.dumps_state state in
        let s = env.redis.set (room_state_key room_id) text 3600 w.store in
        let here : IsSaved room_id g s = (
          state,
          to_redis_state-IsSnapshot g (env.now w.hub.queries) state e,
          ground (
            arith,
            laws.get-set (room_state_key room_id) (room_state_key room_id) text 3600 w.store,
            str_eq_refl (room_state_key room_id),
          ),
        ) in
        rw (held, save_snapshot)
          (rw e (
            refl,
            refl,
            refl,
            λ j h k x. elim (Bool-cases (str_eq j room_id)) [
              | inl same ↦
                  let q = (str_eq_iff j room_id).0 same in
                  let known = subst (λ y. lookup y w.games ≡ some h) q k in
                  subst (λ y. IsSaved y h s) (sym q)
                    (subst (λ y. IsSaved room_id y s) (cc (held, known)) here)
              | inr apart ↦ elim x [
                | inl m ↦ absurd (ground (arith, m, apart))
                | inr y ↦ IsSaved-other room_id j h text w.store apart y
              ]
            ],
          ))
  ]

  save_all-Saves :
      (rooms : List String) (w : World S)
      → AllPlayable w.games
      → Saves rooms w (save_all env rooms w)
  unfolding save_all mem
  save_all-Saves [] w v = (refl, refl, refl, λ j h k x. elim x [ inl m ↦ cc | inr y ↦ y ])
  save_all-Saves (room_id ∷ rooms) w v =
      let (done, games, kept, saved) = save_one room_id w v in
      let w' : World S = (save_snapshot env room_id w).1 in
      let (done', games', kept', saved') =
        save_all-Saves rooms w' (subst AllPlayable (sym games) v) in
      rw (done, save_all)
        (
          done',
          games' ∙ games,
          kept' ∙ kept,
          λ j h k x. saved' j h (rw games k) (elim x [
            | inl m ↦ elim (Bool-cases (str_eq j room_id)) [
              | inl same ↦ inr (saved j h k (inl (ground (arith, same))))
              | inr apart ↦ inl (ground (arith, m, apart))
            ]
            | inr y ↦ inr (saved j h k (inr y))
          ]),
        )

  -- What an instance is after its end.
  abbrev pub IsShutDown : World S → Result (Unit {0}) × World S → Type 0
  IsShutDown w r =
      (r.0 ≡ ok tt)
      × IsSound r.1
      × ((room_id : String) (g : ActiveGame)
          → lookup room_id w.games ≡ some g
          → IsSaved room_id g r.1.store)
      × ((c : String) → lookup c r.1.hub.manager.connections ≡ none)
      × ((pid : String) → is_player_connected pid r.1.hub.manager ≡ false)

  -- On a sound instance, `shutdown_dependencies` returns without an exception. Every room that
  -- had a game then has a snapshot of that game in the store, with its board, scores, turn
  -- number, status, winner and last 20 moves; no connection is registered and no player is
  -- connected; and the instance is sound. For a Redis that keeps its laws.
  pub shutdown_dependencies-IsShutDown :
      (w : World S) → IsSound w → IsShutDown w (shutdown_dependencies env w)
  unfolding shutdown_dependencies stop
  shutdown_dependencies-IsShutDown w v =
      let (done, games, kept, saved) = save_all-Saves (keys w.games) w v.games in
      let w' : World S = (stop env w).1 in
      let (closed, gone, nobody) =
        close_all_lem env w'.hub (subst IsConsistent (sym kept) v.registries) in
      subst
        (λ (x : Result (Unit {0})).
          IsShutDown w (
            ((λ (_ : World S). (x, w')) >> modify (λ u. record u { hub = close_all env u.hub })) w))
        (sym done)
        (
          refl,
          record { games = subst AllPlayable (sym games) v.games; registries = closed },
          (λ room_id g held. saved room_id g held (inl (mem-keys room_id g w.games held))),
          gone,
          nobody,
        )
