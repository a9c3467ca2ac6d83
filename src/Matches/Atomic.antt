-- ===== src/Matches/Atomic.antt =====
-- A result is stored as a whole or not at all (`_persist_result` of app/core/game_engine.py).
use game_backend.Base.{
  ℕ, ◌&&◌, ◌≡◌, refl, ◌∙◌, sym, ap, subst, inl, inr, String, Option, none, some, List, [], ◌∷◌,
  ◌++◌, map, All, ℤ, arith, Dict, Option-cases, ◌==◌, ok, if◌then◌else◌, lift,
}
use game_backend.Database.{MatchParticipant, Uuid, Session, Tables, Outside, update_rows}
use game_backend.Database.Rows.{on_row}
use game_backend.Database.Transactions.{>>=_inv}
use game_backend.Players.{update_elo, credit}
use game_backend.Matches.{result_text, uuid_of, set_participant, record_changes, finish_participant}
use game_backend.Matches.Recorded.{
  standing, standing_after, after_game, player_row, Changed, update_elo_ok, set_participant_ok,
  row_after, row_of_game, update_rows_game, standing-update_rows, on_row-on_row, on_row_same,
}

map-map :
    {A B C : Type 0} (g : B → C) (f : A → B) (k : A → C) (xs : List A)
    → ((a : A) → g (f a) ≡ k a)
    → map g (map f xs) ≡ map k xs
map-map g f k [] h = refl
map-map g f k (x ∷ xs) h = ground (arith, h x, map-map g f k xs h)

map_same : {A : Type 0} (f : A → A) (xs : List A) → ((a : A) → f a ≡ a) → xs ≡ map f xs
map_same f [] h = refl
map_same f (x ∷ xs) h = ground (arith, h x, map_same f xs h)

row_of_game_match :
    (w : Option String) (pid : String) (e d : ℤ) (mp : MatchParticipant)
    → (row_of_game w pid e d mp).match_id ≡ mp.match_id
row_of_game_match none pid e d mp = refl
row_of_game_match (some x) pid e d mp = refl

-- A row stays in its match.
All-step :
    (u i : Uuid) (w : Option String) (pid : String) (e d : ℤ) (ps : List MatchParticipant)
    → All (λ mp. mp.match_id ≡ u) ps
    → All
        (λ mp. mp.match_id ≡ u)
        (map (λ mp. if mp.player_id == i then row_of_game w pid e d mp else mp) ps)
All-step u i w pid e d [] h = tt
All-step u i w pid e d (mp ∷ ps) h =
    (ground (arith, h.0, row_of_game_match w pid e d mp), All-step u i w pid e d ps h.1)

module _ (out : Outside) where
  pub uuid_of_ok : (pid : String) (i : Uuid) → uuid_of out pid ≡ ok i → out.parse_uuid pid ≡ some i
  uuid_of_ok pid i h = elim (Option-cases (out.parse_uuid pid)) [
    | inl e ↦ absurd (ground (arith, h, e))
    | inr (j, e) ↦ ground (arith, h, e)
  ]

  Changed-cons :
      (u i : Uuid) (w : Option String) (pid : String) (e d : ℤ) (time : ℕ) (changes : Dict (ℤ × ℤ))
      (t t' : Tables)
      → out.parse_uuid pid ≡ some i
      → Changed out u w changes
          (record t {
            players = update_rows (λ p. p.id == i) (credit e (result_text w pid) time) t.players;
            participants =
                update_rows
                  (λ mp. mp.match_id == u && mp.player_id == i)
                  (finish_participant (result_text w pid) e d)
                  t.participants;
          })
          t'
      → Changed out u w ((pid, (e, d)) ∷ changes) t t'
  unfolding standing_after row_after
  Changed-cons u i w pid e d time changes t t' h c = record {
    matches = c.matches;
    standings = λ j.
        c.standings j
        ∙ ap (on_row (standing_after out w j changes))
            (standing-update_rows w pid e time i j t.players)
        ∙ on_row-on_row (standing_after out w j changes)
            (λ st. if j == i then after_game w pid e st else st)
            (standing_after out w j ((pid, (e, d)) ∷ changes)) (on_row standing (player_row j t))
            (λ st. rw h refl);
    parts = λ base ps b m eq.
        let step =
          λ (mp : MatchParticipant). if mp.player_id == i then row_of_game w pid e d mp else mp in
        c.parts base (map step ps) b (All-step u i w pid e d ps m) (
          ap
            (update_rows (λ mp. mp.match_id == u && mp.player_id == i)
              (finish_participant (result_text w pid) e d))
            eq
          ∙ update_rows_game w pid u i e d base ps b m)
        ∙ ap (λ xs. base ++ xs)
            (map-map (row_after out w changes) step (row_after out w ((pid, (e, d)) ∷ changes)) ps
              (λ mp. rw h refl));
  }

  pub record_changes_ok :
      (u : Uuid) (w : Option String) (changes : Dict (ℤ × ℤ)) (s : Session)
      → (record_changes out u w changes s).0 ≡ ok tt
      → Changed out u w changes s.rows (record_changes out u w changes s).1.rows
  unfolding record_changes standing_after row_after
  record_changes_ok u w [] s h = record {
    matches = refl;
    standings = λ j.
        on_row_same (standing_after out w j []) (on_row standing (player_row j s.rows))
          (λ st. refl);
    parts = λ base ps b m eq.
        eq ∙ ap (λ xs. base ++ xs) (map_same (row_after out w []) ps (λ mp. refl));
  }
  record_changes_ok u w ((pid, (e, d)) ∷ changes) s h =
      let (i, p1, h1, e1) = >>=_inv (lift (uuid_of out pid)) _ s h in
      let r = result_text w pid in
      let (_, p2, h2, e2) = >>=_inv (set_participant out u i r e d) _ s h1 in
      let s1 = (set_participant out u i r e d s).1 in
      let (_, p3, h3, e3) = >>=_inv (update_elo out i e r) _ s1 h2 in
      let s2 = (update_elo out i e r s1).1 in
      let s3 = (record_changes out u w changes s2).1 in
      let f = λ (t : Tables). record t {
        participants =
            update_rows (λ mp. mp.match_id == u && mp.player_id == i) (finish_participant r e d)
              t.participants;
      } in
      let g = λ (t : Tables) (n : ℕ). record t {
        players = update_rows (λ p. p.id == i) (credit e r n) t.players;
      } in
      let eq1 = set_participant_ok out u i r e d s p2 in
      let eq2 = update_elo_ok out i e r s1 p3 in
      Changed-cons u i w pid e d (out.now s.queries) changes s.rows
        (record_changes out u w ((pid, (e, d)) ∷ changes) s).1.rows (uuid_of_ok pid i p1)
        (subst (λ x. Changed out u w changes (g (f s.rows) (out.now s.queries)) x)
          (sym (ap (λ x. x.rows) (e1 ∙ e2 ∙ e3)))
          (subst (λ x. Changed out u w changes x s3.rows)
            (eq2 ∙ ap (λ x. g x.rows (out.now x.queries)) eq1)
            (record_changes_ok u w changes s2 h3)))
