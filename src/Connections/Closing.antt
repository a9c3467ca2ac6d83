-- ===== src/Connections/Closing.antt =====
-- `close_all` of app/core/ws_manager.py leaves no connection.
use game_backend.Base.{
  ◌≡◌, refl, ◌∙◌, inl, inr, String, true, false, none, some, List, [], ◌∷◌, arith, str_eq,
  str_eq_iff, lookup-erase, mem, map, Dict, lookup, Option-cases, if◌then◌else◌,
}
use game_backend.Env.{Env}
use game_backend.Connections.{
  ConnectionInfo, ConnectionManager, Hub, disconnect, force_close, close_each, close_all,
  is_player_connected,
}
use game_backend.Connections.Consistency.{IsConsistent, disconnect-IsConsistent}

lookup-disconnect :
    (m : ConnectionManager) (d c : String)
    → lookup c (disconnect d m).1.connections
      ≡ (if str_eq c d then none else lookup c m.connections)
unfolding disconnect
lookup-disconnect m d c = elim (Option-cases (lookup d m.connections)) [
  | inl out ↦ rw (out, disconnect) (ground (arith, out, str_eq_iff c d))
  | inr (i, e) ↦ rw (e, disconnect) (lookup-erase d c m.connections)
]

module _ {S F : Type 0} (env : Env S F) where
  close_each_lem :
      (cs : List String) (h : Hub)
      → IsConsistent h.manager
      → IsConsistent (close_each env cs h).manager
        × ((c : String)
            → lookup c (close_each env cs h).manager.connections
              ≡ (if mem c cs then none else lookup c h.manager.connections))
  unfolding close_each force_close mem
  close_each_lem [] h v = (v, λ c. refl)
  close_each_lem (d ∷ cs) h v =
      let h' = force_close env d "server_shutdown" h in
      let (v', closed) = close_each_lem cs h' (disconnect-IsConsistent h.manager v d) in
      (v', λ c. ground (arith, closed c, lookup-disconnect h.manager d c))

  mem-map :
      (c : String) (i : ConnectionInfo) (d : Dict ConnectionInfo)
      → lookup c d ≡ some i
      → mem c (map (λ e. e.0) d) ≡ true
  unfolding lookup mem
  mem-map c i [] h = cc
  mem-map c i ((e, j) ∷ d) h = ground (arith, h, mem-map c i d)

  -- After it nobody is connected, and the registries still agree.
  pub close_all_lem :
      (h : Hub)
      → IsConsistent h.manager
      → IsConsistent (close_all env h).manager
        × ((c : String) → lookup c (close_all env h).manager.connections ≡ none)
        × ((pid : String) → is_player_connected pid (close_all env h).manager ≡ false)
  unfolding close_all
  close_all_lem h v =
      let (v', closed) = close_each_lem (map (λ e. e.0) h.manager.connections) h v in
      let gone : (c : String) → lookup c (close_all env h).manager.connections ≡ none = λ c.
        closed c ∙ elim (Option-cases (lookup c h.manager.connections)) [
          | inl out ↦ ground (arith, out)
          | inr (i, e) ↦ ground (arith, mem-map c i h.manager.connections e)
        ] in
      (
        v',
        gone,
        λ pid. elim (Option-cases (lookup pid (close_all env h).manager.player_connections)) [
          | inl out ↦ rw out refl
          | inr (c, e) ↦ let (i, held, own) = v'.backed pid c e in absurd (cc (gone c, held))
        ],
      )
