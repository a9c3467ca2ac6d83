-- ===== src/Matches/Kept.antt =====
-- The storing of a result keeps the tables sound (`MatchRepository` of
-- app/persistence/repositories.py and `_persist_result` of app/core/game_engine.py).
use game_backend.Base.{
  ℕ, refl, inl, inr, String, Option, none, some, List, [], ◌∷◌, ℤ, pos, arith, Dict, Bool-cases,
  ◌&&◌, ◌||◌, not, ◌==◌, Result, lift,
}
use game_backend.Game.{ActiveGame, to_client_state}
use game_backend.Database.{Uuid, Outside, fits_integer, has_match, now, new_uuid}
use game_backend.Database.Soundness.{
  Keeps, Keeps->>=, Keeps->>, insert_match-Keeps, insert_participant-Keeps, update_matches-IsSound,
  update_participants-IsSound,
}
use game_backend.Players.Kept.{now-Keeps, new_uuid-Keeps, update_elo-Keeps, IsResult}
use game_backend.Matches.{
  Outcome, result_text, uuid_of, winner_uuid, add_participants, create_match, new_match,
  known_winner, set_match, set_participant, record_changes, record_result, finish_match,
  finish_participant, store_result,
}

lift-Keeps : {A : Type 0} (r : Result A) → Keeps (lift r)
lift-Keeps r s h = h

pub result_text-IsResult : (w : Option String) (pid : String) → IsResult (result_text w pid)
unfolding result_text
result_text-IsResult none pid = inr (inr refl)
result_text-IsResult (some w) pid = ground arith

set_match-Keeps :
    (out : Outside) (u : Uuid) (w : Option Uuid) (o : Outcome) (at : ℕ)
    → Keeps (set_match out u w o at)
unfolding set_match
set_match-Keeps out u w o at s h = elim (Bool-cases (fits_integer (pos o.total_turns))) [
  | inr e ↦ rw e h
  | inl e ↦ elim (Bool-cases (known_winner out w s.rows || not (has_match u s.rows))) [
    | inr d ↦ rw (e, d) h
    | inl d ↦
        rw (e, d)
          (update_matches-IsSound (λ m. m.id == u) (finish_match w o at) s.rows (λ x. refl) h)
  ]
]

set_participant-Keeps :
    (out : Outside) (u i : Uuid) (r : String) (e d : ℤ) → Keeps (set_participant out u i r e d)
unfolding set_participant
set_participant-Keeps out u i r e d s h = elim (Bool-cases (fits_integer e && fits_integer d)) [
  | inr x ↦ rw x h
  | inl x ↦ rw x (
      update_participants-IsSound (λ mp. mp.match_id == u && mp.player_id == i)
        (finish_participant r e d) s.rows (λ y. refl) (λ y. refl) (λ y. refl) h)
]

module _ (out : Outside) where
  add_participants-Keeps :
      (u : Uuid) (elos : Dict ℤ) (pids : List String) → Keeps (add_participants out u elos pids)
  unfolding add_participants
  add_participants-Keeps u elos [] = λ s h. h
  add_participants-Keeps u elos (pid ∷ pids) =
      Keeps->>= (lift (uuid_of out pid)) _ (lift-Keeps (uuid_of out pid)) (λ player_id.
        Keeps->>= (new_uuid out) _ (new_uuid-Keeps out)
          (λ i. Keeps->> _ _ (insert_participant-Keeps _) (add_participants-Keeps u elos pids)))

  create_match-Keeps :
      (room_id : String) (pids : List String) (elos : Dict ℤ)
      → Keeps (create_match out room_id pids elos)
  unfolding create_match
  create_match-Keeps room_id pids elos = Keeps->>= (now out) _ (now-Keeps out) (λ started.
      Keeps->>= (new_uuid out) _ (new_uuid-Keeps out) (λ u.
        Keeps->>= (now out) _ (now-Keeps out) (λ time.
          Keeps->> _ _ (insert_match-Keeps (new_match u room_id started time))
            (Keeps->> _ _ (add_participants-Keeps u elos pids) (λ s h. h)))))

  record_changes-Keeps :
      (u : Uuid) (w : Option String) (changes : Dict (ℤ × ℤ))
      → Keeps (record_changes out u w changes)
  unfolding record_changes
  record_changes-Keeps u w [] = λ s h. h
  record_changes-Keeps u w ((pid, (e, d)) ∷ changes) =
      Keeps->>= (lift (uuid_of out pid)) _ (lift-Keeps (uuid_of out pid)) (λ i.
        Keeps->> _ _ (set_participant-Keeps out u i (result_text w pid) e d) (
          Keeps->> _ _ (update_elo-Keeps out i e (result_text w pid) (result_text-IsResult w pid))
            (record_changes-Keeps u w changes)))

  record_result-Keeps :
      (u : Uuid) (o : Outcome) (changes : Dict (ℤ × ℤ)) → Keeps (record_result out u o changes)
  unfolding record_result
  record_result-Keeps u o changes = Keeps->>= (now out) _ (now-Keeps out) (λ at.
      Keeps->>= (lift (winner_uuid out o.winner_id)) _ (lift-Keeps (winner_uuid out o.winner_id))
        (λ w.
          Keeps->> _ _ (set_match-Keeps out u w o at) (record_changes-Keeps u o.winner_id changes)))

  pub store_result-Keeps :
      (g : ActiveGame) (changes : Dict (ℤ × ℤ)) → Keeps (store_result out g changes)
  unfolding store_result
  store_result-Keeps g changes =
      Keeps->>= _ _ (create_match-Keeps g.room_id g.player_ids g.player_elos) (λ m.
        Keeps->>= (lift (to_client_state g)) _ (lift-Keeps (to_client_state g)) (λ state.
          Keeps->>= (now out) _ (now-Keeps out) (λ at. record_result-Keeps m.id _ changes)))
