-- ===== src/Matches/Stored.antt =====
-- What `_persist_result` of app/core/game_engine.py leaves, whether it fails or not: nothing is
-- stored before its one commit.
use game_backend.Base.{
  ℕ, ◌≡◌, ◌∙◌, ap, sym, subst, Error, ◌⊎◌, inl, inr, String, Option, List, [], ◌∷◌, ℤ, arith, Dict,
  Result-cases, ok, raise, Result, lift, modify, refl,
}
use game_backend.Game.{ActiveGame, to_client_state}
use game_backend.Database.{◌>>=◌, Uuid, Tables, Outside, now, commit, open_session}
use game_backend.Database.Soundness.{IsSound}
use game_backend.Database.Transactions.{
  Leaves, Leaves->>=, Leaves->>, >>=_run, >>=_fail, insert_match-Leaves, insert_participant-Leaves,
  now-Leaves, new_uuid-Leaves,
}
use game_backend.Players.{update_elo}
use game_backend.Matches.{
  Outcome, result_text, uuid_of, winner_uuid, add_participants, create_match, set_match,
  set_participant, record_changes, record_result, store_result, persist_result,
}
use game_backend.Matches.Kept.{store_result-Keeps}
use game_backend.Matches.Whole.{IsRecorded, store_result_ok}

lift-Leaves : {A : Type 0} (r : Result A) → Leaves (lift r)
lift-Leaves r s = refl

module _ (out : Outside) where
  set_match-Leaves :
      (u : Uuid) (w : Option Uuid) (o : Outcome) (at : ℕ) → Leaves (set_match out u w o at)
  unfolding set_match
  set_match-Leaves u w o at s = ground arith

  set_participant-Leaves :
      (u i : Uuid) (r : String) (e d : ℤ) → Leaves (set_participant out u i r e d)
  unfolding set_participant
  set_participant-Leaves u i r e d s = ground arith

  update_elo-Leaves : (i : Uuid) (e : ℤ) (r : String) → Leaves (update_elo out i e r)
  unfolding update_elo now ◌>>=◌
  update_elo-Leaves i e r s = ground arith

  add_participants-Leaves :
      (u : Uuid) (elos : Dict ℤ) (pids : List String) → Leaves (add_participants out u elos pids)
  unfolding add_participants
  add_participants-Leaves u elos [] = λ s. refl
  add_participants-Leaves u elos (pid ∷ pids) =
      Leaves->>= _ _ (lift-Leaves (uuid_of out pid)) (λ player_id.
        Leaves->>= _ _ (new_uuid-Leaves out)
          (λ i. Leaves->> _ _ (insert_participant-Leaves _) (add_participants-Leaves u elos pids)))

  create_match-Leaves :
      (room_id : String) (pids : List String) (elos : Dict ℤ)
      → Leaves (create_match out room_id pids elos)
  unfolding create_match
  create_match-Leaves room_id pids elos = Leaves->>= _ _ (now-Leaves out) (λ started.
      Leaves->>= _ _ (new_uuid-Leaves out) (λ u. Leaves->>= _ _ (now-Leaves out) (λ time.
        Leaves->> _ _ (insert_match-Leaves _)
          (Leaves->> _ _ (add_participants-Leaves u elos pids) (λ s. refl)))))

  record_changes-Leaves :
      (u : Uuid) (w : Option String) (changes : Dict (ℤ × ℤ))
      → Leaves (record_changes out u w changes)
  unfolding record_changes
  record_changes-Leaves u w [] = λ s. refl
  record_changes-Leaves u w ((pid, (e, d)) ∷ changes) =
      Leaves->>= _ _ (lift-Leaves (uuid_of out pid)) (λ i.
        Leaves->> _ _ (set_participant-Leaves u i (result_text w pid) e d) (
          Leaves->> _ _ (update_elo-Leaves i e (result_text w pid))
            (record_changes-Leaves u w changes)))

  record_result-Leaves :
      (u : Uuid) (o : Outcome) (changes : Dict (ℤ × ℤ)) → Leaves (record_result out u o changes)
  unfolding record_result
  record_result-Leaves u o changes = Leaves->>= _ _ (now-Leaves out) (λ at.
      Leaves->>= _ _ (lift-Leaves (winner_uuid out o.winner_id)) (λ w.
        Leaves->> _ _ (set_match-Leaves u w o at) (record_changes-Leaves u o.winner_id changes)))

  store_result-Leaves :
      (g : ActiveGame) (changes : Dict (ℤ × ℤ)) → Leaves (store_result out g changes)
  unfolding store_result
  store_result-Leaves g changes =
      Leaves->>= _ _ (create_match-Leaves g.room_id g.player_ids g.player_elos) (λ m.
        Leaves->>= _ _ (lift-Leaves (to_client_state g))
          (λ state. Leaves->>= _ _ (now-Leaves out) (λ at. record_result-Leaves m.id _ changes)))

  persist_result_failed :
      (g : ActiveGame) (changes : Dict (ℤ × ℤ)) (t : Tables) (n : ℕ) (e : Error)
      → (store_result out g changes (open_session t n)).0 ≡ raise e
      → persist_result out g changes t n ≡ t
  unfolding persist_result
  persist_result_failed g changes t n e r =
      ap (λ x. x.1.saved)
        (>>=_fail (store_result out g changes) (λ _. modify commit) (open_session t n) e r)
      ∙ store_result-Leaves g changes (open_session t n)

  pub persist_result_done :
      (g : ActiveGame) (changes : Dict (ℤ × ℤ)) (t : Tables) (n : ℕ)
      → (store_result out g changes (open_session t n)).0 ≡ ok tt
      → persist_result out g changes t n ≡ (store_result out g changes (open_session t n)).1.rows
  unfolding persist_result commit
  persist_result_done g changes t n r =
      ap (λ x. x.1.saved)
        (>>=_run (store_result out g changes) (λ _. modify commit) (open_session t n) tt r)

  pub persist_result-IsSound :
      (g : ActiveGame) (changes : Dict (ℤ × ℤ)) (t : Tables) (n : ℕ)
      → IsSound t
      → IsSound (persist_result out g changes t n)
  persist_result-IsSound g changes t n h =
      elim (Result-cases (store_result out g changes (open_session t n)).0) [
        | inl (e, r) ↦ rw (persist_result_failed g changes t n e r) h
        | inr (a, r) ↦
            rw (persist_result_done g changes t n r)
              (store_result-Keeps out g changes (open_session t n) h)
      ]

  -- Whatever the game, its rating changes and the outside, `_persist_result` on sound tables
  -- either leaves them as they were, or has stored the whole result: the finished match, a
  -- participant for each player with the rating before the game and with the result, the new
  -- rating and the change that the rating changes have for the player, and every player's new
  -- rating and counters.
  pub persist_result_atomic :
      (g : ActiveGame) (changes : Dict (ℤ × ℤ)) (t : Tables) (n : ℕ)
      → IsSound t
      → (persist_result out g changes t n ≡ t)
        ⊎ IsRecorded out g changes t (persist_result out g changes t n)
  persist_result_atomic g changes t n h =
      elim (Result-cases (store_result out g changes (open_session t n)).0) [
        | inl (e, r) ↦ inl (persist_result_failed g changes t n e r)
        | inr (a, r) ↦ inr (
            subst (IsRecorded out g changes t) (sym (persist_result_done g changes t n r))
              (store_result_ok out g changes (open_session t n) h r))
      ]
