-- ===== src/Matches/Whole.antt =====
-- A result is stored as a whole or not at all (`_persist_result` of app/core/game_engine.py).
use game_backend.Base.{
  ℕ, ◌||◌, not, ◌≡◌, refl, ◌∙◌, sym, ap, subst, inl, inr, false, Option, some, List, [], ◌∷◌, ◌++◌,
  map, String, ℤ, pos, ◌-ℤ◌, arith, Dict, Bool-cases, All, ◌==◌, ==_iff, ok, lift,
}
use game_backend.Schemas.{ClientState}
use game_backend.Game.{ActiveGame, to_client_state}
use game_backend.Database.{
  ◌>>◌, Uuid, Match, MatchParticipant, Session, Tables, Outside, any_row, update_rows, fits_integer,
  has_match, now,
}
use game_backend.Database.Rows.{on_row}
use game_backend.Database.Soundness.{IsSound, IsLinked}
use game_backend.Database.Transactions.{>>=_inv}
use game_backend.Matches.{
  Outcome, outcome, winner_uuid, create_match, known_winner, set_match, record_changes,
  record_result, finish_match, store_result,
}
use game_backend.Matches.Recorded.{
  standing, standing_after, player_row, RowsFor, row_after, Changed,
}
use game_backend.Matches.Atomic.{record_changes_ok}
use game_backend.Matches.Created.{Created, create_match_ok}

-- What a stored result is: a finished match of the room with the winner that the game names, one
-- participant for each player with the rating before the game and the result, rating and change
-- after it, and the players' new standings. What was there before stays.
pub record IsRecorded (out : Outside) (g : ActiveGame) (changes : Dict (ℤ × ℤ)) (t t' : Tables)
    : Type 0 where
  pub finished : Match
  pub fresh : has_match finished.id t ≡ false
  pub matches : t'.matches ≡ t.matches ++ finished ∷ []
  pub room_id : finished.room_id ≡ g.room_id
  pub status : finished.status ≡ "finished"
  pub winner : winner_uuid out g.winner_id ≡ ok finished.winner_id
  pub turns : finished.total_turns ≡ g.turn_number
  pub duration : (at : ℕ) × (finished.duration_seconds ≡ some (pos at -ℤ pos g.started_at))
  pub ended : (at : ℕ) × (finished.ended_at ≡ some at)
  pub state : ClientState
  pub state_of : to_client_state g ≡ ok state
  pub final_state : finished.final_state ≡ some state
  pub rows : List MatchParticipant
  pub rows_for : RowsFor out finished.id g.player_elos g.player_ids rows
  pub participants :
      t'.participants ≡ t.participants ++ map (row_after out g.winner_id changes) rows
  pub standings :
      (j : Uuid)
      → on_row standing (player_row j t')
        ≡ on_row (standing_after out g.winner_id j changes) (on_row standing (player_row j t))

module _ (out : Outside) where
  set_match_ok :
      (u : Uuid) (w : Option Uuid) (o : Outcome) (at : ℕ) (s : Session)
      → (set_match out u w o at s).0 ≡ ok tt
      → (set_match out u w o at s).1 ≡ record s {
        rows = record s.rows {
          matches = update_rows (λ m. m.id == u) (finish_match w o at) s.rows.matches;
        };
      }
  unfolding set_match
  set_match_ok u w o at s h = elim (Bool-cases (fits_integer (pos o.total_turns))) [
    | inr e ↦ absurd (ground (arith, h, e))
    | inl e ↦ elim (Bool-cases (known_winner out w s.rows || not (has_match u s.rows))) [
      | inr d ↦ absurd (ground (arith, h, e, d))
      | inl d ↦ rw (e, d) refl
    ]
  ]

  update_rows_new :
      (f : Match → Match) (ms : List Match) (m : Match)
      → any_row (λ x. x.id == m.id) ms ≡ false
      → update_rows (λ x. x.id == m.id) f (ms ++ m ∷ []) ≡ ms ++ f m ∷ []
  update_rows_new f [] m h = ground (arith, ==_iff m.id m.id)
  update_rows_new f (x ∷ ms) m h = ground (arith, h, update_rows_new f ms m (ground (arith, h)))

  -- Sound tables have no participant of a match that is not there.
  pub unlinked :
      (u : Uuid) (t : Tables) (mps : List MatchParticipant)
      → has_match u t ≡ false
      → All (IsLinked t) mps
      → any_row (λ mp. mp.match_id == u) mps ≡ false
  unlinked u t [] h l = refl
  unlinked u t (mp ∷ mps) h l = elim (Bool-cases (mp.match_id == u)) [
    | inl e ↦ absurd (
        ground
          (arith, h, l.0, subst (λ i. has_match i t ≡ false) (sym ((==_iff mp.match_id u).0 e)) h))
    | inr e ↦ rw e (unlinked u t mps h l.1)
  ]

  RowsFor-match :
      (u : Uuid) (elos : Dict ℤ) (pids : List String) (mps : List MatchParticipant)
      → RowsFor out u elos pids mps
      → All (λ mp. mp.match_id ≡ u) mps
  RowsFor-match u elos [] [] h = tt
  RowsFor-match u elos [] (mp ∷ mps) h = absurd h
  RowsFor-match u elos (pid ∷ pids) [] h = absurd h
  RowsFor-match u elos (pid ∷ pids) (mp ∷ mps) h = (h.0.0, RowsFor-match u elos pids mps h.1)

  -- The rest of `record_result`, once the winner's text is read.
  finished_ok :
      (g : ActiveGame) (changes : Dict (ℤ × ℤ)) (t : Tables) (m : Match) (w : Option Uuid)
      (state : ClientState) (ended at : ℕ) (s : Session)
      → IsSound t
      → Created out g.room_id g.player_elos g.player_ids t m s.rows
      → winner_uuid out g.winner_id ≡ ok w
      → to_client_state g ≡ ok state
      → ((set_match out m.id w (outcome g state (pos ended -ℤ pos g.started_at)) at
            >> record_changes out m.id g.winner_id changes)
          s).0
        ≡ ok tt
      → IsRecorded out g changes t
          ((set_match out m.id w (outcome g state (pos ended -ℤ pos g.started_at)) at
              >> record_changes out m.id g.winner_id changes)
            s).1.rows
  finished_ok g changes t m w state ended at s sound c hw hs h =
      let o = outcome g state (pos ended -ℤ pos g.started_at) in
      let (_, p1, h1, e1) = >>=_inv (set_match out m.id w o at) _ s h in
      let s1 = (set_match out m.id w o at s).1 in
      let s2 = (record_changes out m.id g.winner_id changes s1).1 in
      let done =
        subst (λ x. Changed out m.id g.winner_id changes x.rows s2.rows)
          (set_match_ok m.id w o at s p1) (record_changes_ok out m.id g.winner_id changes s1 h1) in
      subst (λ (x : Session). IsRecorded out g changes t x.rows) (sym e1)
        (record {
          finished = finish_match w o at m;
          fresh = c.fresh;
          matches =
              done.matches
              ∙ ap (update_rows (λ x. x.id == m.id) (finish_match w o at)) c.matches
              ∙ update_rows_new (finish_match w o at) t.matches m c.fresh;
          room_id = c.room_id;
          status = refl;
          winner = hw;
          turns = refl;
          duration = (ended, refl);
          ended = (at, refl);
          state = state;
          state_of = hs;
          final_state = refl;
          participants =
              done.parts t.participants c.rows (unlinked m.id t t.participants c.fresh sound.links)
                (RowsFor-match m.id g.player_elos g.player_ids c.rows c.rows_for) c.parts;
          rows = c.rows;
          rows_for = c.rows_for;
          standings = λ j.
              done.standings j
              ∙ ap
                  (λ ps.
                    on_row (standing_after out g.winner_id j changes)
                      (on_row standing (player_row j (record t { players = ps }))))
                  c.players;
        })

  pub store_result_ok :
      (g : ActiveGame) (changes : Dict (ℤ × ℤ)) (s : Session)
      → IsSound s.rows
      → (store_result out g changes s).0 ≡ ok tt
      → IsRecorded out g changes s.rows (store_result out g changes s).1.rows
  unfolding store_result record_result now
  store_result_ok g changes s sound h =
      let (m, p1, h1, e1) = >>=_inv (create_match out g.room_id g.player_ids g.player_elos) _ s h in
      let s1 = (create_match out g.room_id g.player_ids g.player_elos s).1 in
      let (state, p2, h2, e2) = >>=_inv (lift (to_client_state g)) _ s1 h1 in
      let (at, p3, h3, e3) = >>=_inv (now out) _ s1 h2 in
      let s2 = (now out s1).1 in
      let (at', p4, h4, e4) = >>=_inv (now out) _ s2 h3 in
      let s3 = (now out s2).1 in
      let (w, p5, h5, e5) = >>=_inv (lift (winner_uuid out g.winner_id)) _ s3 h4 in
      subst (λ (x : Session). IsRecorded out g changes s.rows x.rows) (sym (e1 ∙ e2 ∙ e3 ∙ e4 ∙ e5))
        (finished_ok g changes s.rows m w state at at' s3 sound
          (create_match_ok out g.room_id g.player_ids g.player_elos s m p1) p5 p2 h5)
