-- ===== src/Matches/Promise.antt =====
-- A game of two known players is stored (`_persist_result` of app/core/game_engine.py): the calls
-- of its session return.
use game_backend.Base.{
  ℕ, ◌+◌, ◌≡◌, refl, ◌∙◌, ap, sym, subst, true, Option, none, some, ℤ, pos, ◌-ℤ◌, Dict, length, All,
  ◌==◌, ok, lift,
}
use game_backend.Game.{ActiveGame, to_client_state}
use game_backend.Database.{
  ◌>>=◌, Uuid, Session, Tables, Outside, any_row, fits_integer, now, open_session,
}
use game_backend.Database.Soundness.{IsSound}
use game_backend.Database.Transactions.{>>=_run}
use game_backend.Matches.{
  Outcome, outcome, winner_uuid, known_winner, create_match, set_match, record_result, store_result,
  persist_result,
}
use game_backend.Matches.Storing.{HasRoom, record_changes_run}
use game_backend.Matches.Whole.{IsRecorded, store_result_ok}
use game_backend.Matches.Stored.{persist_result_done}
use game_backend.Matches.Storable.{IsStorable, match_of, after_create, created}

module _ (out : Outside) where
  set_match_run :
      (u : Uuid) (w : Option Uuid) (o : Outcome) (at : ℕ) (s : Session)
      → fits_integer (pos o.total_turns) ≡ true
      → known_winner out w s.rows ≡ true
      → ((set_match out u w o at s).0 ≡ ok tt)
        × ((set_match out u w o at s).1.rows.players ≡ s.rows.players)
  unfolding set_match
  set_match_run u w o at s f k = rw (f, k) (refl, refl)

  known_after :
      (w : Option Uuid) (t u : Tables)
      → u.players ≡ t.players
      → known_winner out w t ≡ true
      → known_winner out w u ≡ true
  known_after none t u e h = refl
  known_after (some w) t u e h = subst (λ ps. any_row (λ p. p.id == w) ps ≡ true) (sym e) h

  store_result_run :
      (g : ActiveGame) (changes : Dict (ℤ × ℤ)) (t : Tables) (n : ℕ)
      → IsSound t
      → IsStorable out g changes t n
      → (store_result out g changes (open_session t n)).0 ≡ ok tt
  unfolding store_result record_result now
  store_result_run g changes t n sound x =
      let m = match_of out g n in
      let s6 = after_create out g t n x.p1 x.p2 x.u1 x.u2 in
      let s7 = record s6 { queries = s6.queries + 1 } in
      let s8 = record s6 { queries = s6.queries + 1 + 1 } in
      let o = outcome g x.state (pos (out.now s6.queries) -ℤ pos g.started_at) in
      let at = out.now s7.queries in
      let c =
        ap (λ ps. create_match out g.room_id ps g.player_elos (open_session t n)) x.players
        ∙ created out g changes t n sound x in
      let q =
        set_match_run m.id x.winner o at s8 x.turns
          (known_after x.winner t s8.rows refl x.known_win) in
      let s9 = (set_match out m.id x.winner o at s8).1 in
      ap (λ y. y.0)
        (>>=_run (create_match out g.room_id g.player_ids g.player_elos) _ (open_session t n) m
            (ap (λ y. y.0) c)
          ∙ ap
              (λ y.
                (lift (to_client_state g) >>= (λ state. now out >>= (λ at.
                    record_result out m.id (outcome g state (pos at -ℤ pos g.started_at)) changes)))
                  y.1)
              c
          ∙ >>=_run (lift (to_client_state g)) _ s6 x.state x.state_of
          ∙ >>=_run (now out) _ s6 (out.now s6.queries) refl
          ∙ >>=_run (now out) _ s7 at refl
          ∙ >>=_run (lift (winner_uuid out g.winner_id)) _ s8 x.winner x.winner_of
          ∙ >>=_run (set_match out m.id x.winner o at) _ s8 tt q.0)
      ∙ record_changes_run out m.id g.winner_id changes s9 x.good
          (subst (All (HasRoom (length changes))) (sym q.1) x.room)

  -- `_persist_result` stores the result of every game that sound tables can take: a game of two
  -- different players whose rows are there, with identifiers that are UUIDs, a room's name,
  -- ratings and a number of turns that fit their columns, rating changes that name UUIDs and fit,
  -- a winner whose row is there or none, room in every player's counters, and new keys. The
  -- matches and participants from before stay, and there is one more match, finished, with the
  -- game's room, winner, number of turns and final state, a duration from the game's start and an
  -- end. After the participants from before there is one for each player, in order, with this
  -- match, the player's identifier and the rating before the game, and with the result, the new
  -- rating and the change that the rating changes have for the player. Every player's rating and
  -- counters are those after the changes.
  pub persist_result-IsRecorded :
      (g : ActiveGame) (changes : Dict (ℤ × ℤ)) (t : Tables) (n : ℕ)
      → IsSound t
      → IsStorable out g changes t n
      → IsRecorded out g changes t (persist_result out g changes t n)
  persist_result-IsRecorded g changes t n sound x =
      let r = store_result_run g changes t n sound x in
      subst (IsRecorded out g changes t) (sym (persist_result_done out g changes t n r))
        (store_result_ok out g changes (open_session t n) sound r)
