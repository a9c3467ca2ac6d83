-- ===== src/Matches/Created.antt =====
-- What a match that is created adds to the tables (`create_match` of
-- app/persistence/repositories.py).
use game_backend.Base.{
  ◌+◌, ◌&&◌, not, ◌≡◌, refl, ◌∙◌, sym, ap, subst, inl, inr, String, false, some, List, [], ◌∷◌,
  ◌++◌, ℤ, pos, arith, Dict, lookup, Bool-cases, ok, pure, lift,
}
use mathlib.Core.Option
use game_backend.Database.{
  ◌>>=◌, ◌>>◌, Uuid, Match, MatchParticipant, Session, Tables, Outside, any_row, fits_integer,
  fits_varchar, has_match, has_player, same_participant, now, new_uuid, insert_match,
  insert_participant,
}
use game_backend.Database.Transactions.{>>=_inv}
use game_backend.Matches.{uuid_of, add_participants, create_match, new_match, new_participant}
use game_backend.Matches.Recorded.{RowsFor}
use game_backend.Matches.Atomic.{uuid_of_ok}

insert_match_ok :
    (m : Match) (s : Session)
    → (insert_match m s).0 ≡ ok tt
    → (has_match m.id s.rows ≡ false)
      × ((insert_match m s).1
          ≡ record s { rows = record s.rows { matches = s.rows.matches ++ m ∷ [] } })
unfolding insert_match
insert_match_ok m s h = elim (Bool-cases (fits_varchar 64 m.room_id)) [
  | inr e ↦ absurd (ground (arith, h, e))
  | inl e ↦ elim (Bool-cases (has_match m.id s.rows)) [
    | inl d ↦ absurd (ground (arith, h, e, d))
    | inr d ↦ (d, rw (e, d) refl)
  ]
]

insert_participant_ok :
    (mp : MatchParticipant) (s : Session)
    → (insert_participant mp s).0 ≡ ok tt
    → (insert_participant mp s).1
      ≡ record s { rows = record s.rows { participants = s.rows.participants ++ mp ∷ [] } }
unfolding insert_participant
insert_participant_ok mp s h = elim (Bool-cases (fits_integer mp.elo_before)) [
  | inr e ↦ absurd (ground (arith, h, e))
  | inl e ↦
      elim (Bool-cases (
        has_match mp.match_id s.rows
        && has_player mp.player_id s.rows
        && not (any_row (λ q. same_participant q mp) s.rows.participants))) [
          | inr d ↦ absurd (ground (arith, h, e, d))
          | inl d ↦ rw (e, d) refl
        ]
]

append_one-append :
    {A : Type 0} (xs : List A) (y : A) (ys : List A) → (xs ++ y ∷ []) ++ ys ≡ xs ++ (y ∷ ys)
append_one-append [] y ys = refl
append_one-append (x ∷ xs) y ys = ap (λ r. x ∷ r) (append_one-append xs y ys)

-- What the adding of the participants does.
pub record Added (out : Outside) (u : Uuid) (elos : Dict ℤ) (pids : List String) (t t' : Tables)
    : Type 0 where
  pub matches : t'.matches ≡ t.matches
  pub players : t'.players ≡ t.players
  pub rows : List MatchParticipant
  pub rows_for : RowsFor out u elos pids rows
  pub parts : t'.participants ≡ t.participants ++ rows

Added-cons :
    (out : Outside) (u v i : Uuid) (elos : Dict ℤ) (pid : String) (pids : List String)
    (t t' : Tables)
    → out.parse_uuid pid ≡ some i
    → (let mp = new_participant v u i (Option.get_or (lookup pid elos) (pos 1000)) in
        Added out u elos pids (record t { participants = t.participants ++ mp ∷ [] }) t'
        → Added out u elos (pid ∷ pids) t t')
Added-cons out u v i elos pid pids t t' h a =
    let mp = new_participant v u i (Option.get_or (lookup pid elos) (pos 1000)) in
    record {
      matches = a.matches;
      players = a.players;
      rows = mp ∷ a.rows;
      rows_for = ((refl, h, refl), a.rows_for);
      parts = a.parts ∙ append_one-append t.participants mp a.rows;
    }

append-nil : {A : Type 0} (xs : List A) → xs ≡ xs ++ []
append-nil [] = refl
append-nil (x ∷ xs) = ap (λ r. x ∷ r) (append-nil xs)

ok_inj : {A : Type 0} (a b : A) → ok a ≡ ok b → a ≡ b
ok_inj a b h = cc

module _ (out : Outside) where
  add_participants_ok :
      (u : Uuid) (elos : Dict ℤ) (pids : List String) (s : Session)
      → (add_participants out u elos pids s).0 ≡ ok tt
      → Added out u elos pids s.rows (add_participants out u elos pids s).1.rows
  unfolding add_participants new_uuid
  add_participants_ok u elos [] s h = record {
    matches = refl;
    players = refl;
    rows = [];
    rows_for = tt;
    parts = append-nil s.rows.participants;
  }
  add_participants_ok u elos (pid ∷ pids) s h =
      let (i, p1, h1, e1) = >>=_inv (lift (uuid_of out pid)) _ s h in
      let (v, p2, h2, e2) = >>=_inv (new_uuid out) _ s h1 in
      let mp = new_participant v u i (Option.get_or (lookup pid elos) (pos 1000)) in
      let s1 = (new_uuid out s).1 in
      let (_, p3, h3, e3) = >>=_inv (insert_participant mp) _ s1 h2 in
      let s2 = (insert_participant mp s1).1 in
      let s3 = (add_participants out u elos pids s2).1 in
      let rest =
        subst (λ x. Added out u elos pids x.rows s3.rows) (insert_participant_ok mp s1 p3)
          (add_participants_ok u elos pids s2 h3) in
      subst (λ x. Added out u elos (pid ∷ pids) s.rows x.rows) (sym (e1 ∙ e2 ∙ e3))
        (Added-cons out u v i elos pid pids s.rows s3.rows (uuid_of_ok out pid i p1) rest)

  -- The rows of a new match.
  pub record Created (room : String) (elos : Dict ℤ) (pids : List String) (t : Tables) (m : Match)
      (t' : Tables) : Type 0 where
    pub fresh : has_match m.id t ≡ false
    pub room_id : m.room_id ≡ room
    pub matches : t'.matches ≡ t.matches ++ m ∷ []
    pub players : t'.players ≡ t.players
    pub rows : List MatchParticipant
    pub rows_for : RowsFor out m.id elos pids rows
    pub parts : t'.participants ≡ t.participants ++ rows

  inserted :
      (n : Match) (elos : Dict ℤ) (pids : List String) (s : Session) (m : Match)
      → ((insert_match n >> (add_participants out n.id elos pids >> pure n)) s).0 ≡ ok m
      → Created n.room_id elos pids s.rows m
          ((insert_match n >> (add_participants out n.id elos pids >> pure n)) s).1.rows
  inserted n elos pids s m h =
      let (_, p1, h1, e1) = >>=_inv (insert_match n) _ s h in
      let s1 = (insert_match n s).1 in
      let (_, p2, h2, e2) = >>=_inv (add_participants out n.id elos pids) _ s1 h1 in
      let s2 = (add_participants out n.id elos pids s1).1 in
      let (fresh, eq) = insert_match_ok n s p1 in
      let added =
        subst (λ x. Added out n.id elos pids x.rows s2.rows) eq
          (add_participants_ok n.id elos pids s1 p2) in
      subst (λ (x : Session). Created n.room_id elos pids s.rows m x.rows) (sym (e1 ∙ e2))
        (subst (λ (x : Match). Created n.room_id elos pids s.rows x s2.rows) (ok_inj n m h2)
          (record {
            fresh = fresh;
            room_id = refl;
            matches = added.matches;
            players = added.players;
            rows = added.rows;
            rows_for = added.rows_for;
            parts = added.parts;
          }))

  pub create_match_ok :
      (room_id : String) (pids : List String) (elos : Dict ℤ) (s : Session) (m : Match)
      → (create_match out room_id pids elos s).0 ≡ ok m
      → Created room_id elos pids s.rows m (create_match out room_id pids elos s).1.rows
  unfolding create_match now new_uuid ◌>>=◌
  create_match_ok room_id pids elos s m h =
      inserted
        (new_match (out.uuid4 (s.queries + 1)) room_id (out.now s.queries)
          (out.now (s.queries + 1 + 1)))
        elos pids (record s { queries = s.queries + 1 + 1 + 1 }) m h
