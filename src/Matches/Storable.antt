-- ===== src/Matches/Storable.antt =====
-- A game that the tables can take, and the rows that are made for it (`create_match` of
-- app/persistence/repositories.py).
use mathlib.Core.Option
use game_backend.Base.{
  ℕ, ◌+◌, ◌≡◌, ◌≢◌, refl, ◌∙◌, ap, String, true, false, Option, some, List, [], ◌∷◌, ◌++◌, ℤ, pos,
  arith, Dict, lookup, length, All, ◌==◌, ==_iff, ok, lift, pure,
}
use game_backend.Schemas.{ClientState}
use game_backend.Game.{ActiveGame, to_client_state}
use game_backend.Database.{
  ◌>>◌, Uuid, Match, MatchParticipant, Session, Tables, Outside, any_row, fits_integer,
  fits_varchar, has_match, has_player, same_participant, now, new_uuid, insert_match,
  insert_participant, open_session,
}
use game_backend.Database.Rows.{any_row-append}
use game_backend.Database.Soundness.{IsSound}
use game_backend.Database.Transactions.{>>=_run}
use game_backend.Matches.{
  uuid_of, winner_uuid, known_winner, add_participants, create_match, new_match, new_participant,
}
use game_backend.Matches.Storing.{HasRoom, IsGood}
use game_backend.Matches.Whole.{unlinked}

insert_match_run :
    (m : Match) (s : Session)
    → fits_varchar 64 m.room_id ≡ true
    → has_match m.id s.rows ≡ false
    → insert_match m s
      ≡ (ok tt, record s { rows = record s.rows { matches = s.rows.matches ++ m ∷ [] } })
unfolding insert_match
insert_match_run m s f h = rw (f, h) refl

insert_participant_run :
    (mp : MatchParticipant) (s : Session)
    → fits_integer mp.elo_before ≡ true
    → has_match mp.match_id s.rows ≡ true
    → has_player mp.player_id s.rows ≡ true
    → any_row (λ q. same_participant q mp) s.rows.participants ≡ false
    → insert_participant mp s
      ≡ (ok tt, record s { rows = record s.rows { participants = s.rows.participants ++ mp ∷ [] } })
unfolding insert_participant
insert_participant_run mp s f h p q = rw (f, h, p, q) refl

-- No row has the new key or is about the match.
apart :
    (mp : MatchParticipant) (qs : List MatchParticipant)
    → any_row (λ q. q.id == mp.id) qs ≡ false
    → any_row (λ q. q.match_id == mp.match_id) qs ≡ false
    → any_row (λ q. same_participant q mp) qs ≡ false
apart mp [] h g = refl
apart mp (q ∷ qs) h g = ground (arith, h, g, apart mp qs (ground (arith, h)) (ground (arith, g)))

there_now :
    (m : Match) (t : Tables) → has_match m.id (record t { matches = t.matches ++ m ∷ [] }) ≡ true
there_now m t =
    ground (arith, any_row-append (λ y. y.id == m.id) t.matches (m ∷ []), ==_iff m.id m.id)

-- The second row is about another player than the first.
apart_both :
    (a b : MatchParticipant) (qs : List MatchParticipant)
    → a.id ≢ b.id
    → a.player_id ≢ b.player_id
    → any_row (λ q. q.id == b.id) qs ≡ false
    → any_row (λ q. q.match_id == b.match_id) qs ≡ false
    → any_row (λ q. same_participant q b) (qs ++ a ∷ []) ≡ false
apart_both a b qs i j h g = ground (
  arith,
  any_row-append (λ q. same_participant q b) qs (a ∷ []),
  apart b qs h g,
  ==_iff a.id b.id,
  ==_iff a.player_id b.player_id,
  i,
  j,
)

-- A game that the tables can take: of two known players, with texts and numbers that fit the
-- columns, room in the counters, and new keys.
pub record IsStorable (out : Outside) (g : ActiveGame) (changes : Dict (ℤ × ℤ)) (t : Tables) (n : ℕ)
    : Type 0 where
  pub p1 : String
  pub p2 : String
  pub u1 : Uuid
  pub u2 : Uuid
  pub distinct : u1 ≢ u2
  pub players : g.player_ids ≡ p1 ∷ p2 ∷ []
  pub id1 : out.parse_uuid p1 ≡ some u1
  pub id2 : out.parse_uuid p2 ≡ some u2
  pub known1 : has_player u1 t ≡ true
  pub known2 : has_player u2 t ≡ true
  pub room_id : fits_varchar 64 g.room_id ≡ true
  pub elo1 : fits_integer (Option.get_or (lookup p1 g.player_elos) (pos 1000)) ≡ true
  pub elo2 : fits_integer (Option.get_or (lookup p2 g.player_elos) (pos 1000)) ≡ true
  pub state : ClientState
  pub state_of : to_client_state g ≡ ok state
  pub turns : fits_integer (pos g.turn_number) ≡ true
  pub winner : Option Uuid
  pub winner_of : winner_uuid out g.winner_id ≡ ok winner
  pub known_win : known_winner out winner t ≡ true
  pub good : All (IsGood out) changes
  pub room : All (HasRoom (length changes)) t.players
  pub new_match : has_match (out.uuid4 (n + 1)) t ≡ false
  pub new_row1 : any_row (λ q. q.id == out.uuid4 (n + 1 + 1 + 1)) t.participants ≡ false
  pub new_row2 : any_row (λ q. q.id == out.uuid4 (n + 1 + 1 + 1 + 1)) t.participants ≡ false
  pub new_rows : out.uuid4 (n + 1 + 1 + 1) ≢ out.uuid4 (n + 1 + 1 + 1 + 1)

module _ (out : Outside) where
  add_participant_run :
      (u i : Uuid) (elos : Dict ℤ) (pid : String) (pids : List String) (s : Session)
      → out.parse_uuid pid ≡ some i
      → (let mp =
            new_participant
              (out.uuid4 s.queries)
              u
              i
              (Option.get_or (lookup pid elos) (pos 1000)) in
          insert_participant mp (record s { queries = s.queries + 1 }) ≡ (
            ok tt,
            record s {
              rows = record s.rows { participants = s.rows.participants ++ mp ∷ [] };
              queries = s.queries + 1;
            },
          ))
      → add_participants out u elos (pid ∷ pids) s
        ≡ add_participants out u elos pids (record s {
          rows = record s.rows {
            participants =
                s.rows.participants
                ++ new_participant
                    (out.uuid4 s.queries)
                    u
                    i
                    (Option.get_or (lookup pid elos) (pos 1000))
                  ∷ [];
          };
          queries = s.queries + 1;
        })
  unfolding add_participants new_uuid
  add_participant_run u i elos pid pids s h e =
      let mp =
        new_participant (out.uuid4 s.queries) u i (Option.get_or (lookup pid elos) (pos 1000)) in
      >>=_run (lift (uuid_of out pid)) _ s i (rw (h, uuid_of) refl)
      ∙ >>=_run (new_uuid out) _ s (out.uuid4 s.queries) refl
      ∙ >>=_run (insert_participant mp) _ (record s { queries = s.queries + 1 }) tt
          (ap (λ x. x.0) e)
      ∙ ap (λ x. add_participants out u elos pids x.1) e

  -- The match and the two rows that a storing at the question `n` adds.
  abbrev pub match_of : ActiveGame → ℕ → Match
  match_of g n = new_match (out.uuid4 (n + 1)) g.room_id (out.now n) (out.now (n + 1 + 1))

  abbrev row_of : ActiveGame → Uuid → Uuid → String → ℕ → MatchParticipant
  row_of g u i pid n =
      new_participant (out.uuid4 n) u i (Option.get_or (lookup pid g.player_elos) (pos 1000))

  abbrev pub after_create : ActiveGame → Tables → ℕ → String → String → Uuid → Uuid → Session
  after_create g t n p1 p2 u1 u2 =
      let m = match_of g n in
      record {
        saved = t;
        rows = record {
          players = t.players;
          matches = t.matches ++ m ∷ [];
          participants =
              (t.participants ++ row_of g m.id u1 p1 (n + 1 + 1 + 1) ∷ [])
              ++ row_of g m.id u2 p2 (n + 1 + 1 + 1 + 1) ∷ [];
        };
        queries = n + 1 + 1 + 1 + 1 + 1;
      }

  pub created :
      (g : ActiveGame) (changes : Dict (ℤ × ℤ)) (t : Tables) (n : ℕ)
      → IsSound t
      → (x : IsStorable out g changes t n)
      → create_match out g.room_id (x.p1 ∷ x.p2 ∷ []) g.player_elos (open_session t n)
        ≡ (ok (match_of g n), after_create g t n x.p1 x.p2 x.u1 x.u2)
  unfolding create_match now new_uuid add_participants
  created g changes t n sound x =
      let m = match_of g n in
      let u = m.id in
      let s3 = record (open_session t n) { queries = n + 1 + 1 + 1 } in
      let t1 = record t { matches = t.matches ++ m ∷ [] } in
      let s4 = record s3 { rows = t1 } in
      let mp1 = row_of g u x.u1 x.p1 (n + 1 + 1 + 1) in
      let mp2 = row_of g u x.u2 x.p2 (n + 1 + 1 + 1 + 1) in
      let s5 = record s4 {
        rows = record t1 { participants = t.participants ++ mp1 ∷ [] };
        queries = n + 1 + 1 + 1 + 1;
      } in
      let s6 = after_create g t n x.p1 x.p2 x.u1 x.u2 in
      let there = there_now m t in
      let unlinked_t = unlinked out u t t.participants x.new_match sound.links in
      let ins = insert_match_run m s3 x.room_id x.new_match in
      let free1 = apart mp1 t.participants x.new_row1 unlinked_t in
      let free2 = apart_both mp1 mp2 t.participants x.new_rows x.distinct x.new_row2 unlinked_t in
      let add1 = add_participant_run u x.u1 g.player_elos x.p1 (x.p2 ∷ []) s4 x.id1 (
        insert_participant_run mp1 (record s4 { queries = n + 1 + 1 + 1 + 1 }) x.elo1 there x.known1
          free1) in
      let add2 = add_participant_run u x.u2 g.player_elos x.p2 [] s5 x.id2 (
        insert_participant_run mp2 (record s5 { queries = n + 1 + 1 + 1 + 1 + 1 }) x.elo2 there
          x.known2 free2) in
      let added = add1 ∙ add2 in
      >>=_run (now out) _ (open_session t n) (out.now n) refl
      ∙ >>=_run (new_uuid out) _ (record (open_session t n) { queries = n + 1 }) u refl
      ∙ >>=_run (now out) _ (record (open_session t n) { queries = n + 1 + 1 })
          (out.now (n + 1 + 1)) refl
      ∙ >>=_run (insert_match m) _ s3 tt (ap (λ y. y.0) ins)
      ∙ ap (λ y. (add_participants out u g.player_elos (x.p1 ∷ x.p2 ∷ []) >> pure m) y.1) ins
      ∙ >>=_run (add_participants out u g.player_elos (x.p1 ∷ x.p2 ∷ [])) _ s4 tt
          (ap (λ y. y.0) added)
      ∙ ap (λ y. (ok m, y.1)) added
