-- ===== src/Database/Soundness.antt =====
-- Sound tables: the keys, the references and the counters of app/models/database.py. Each of the
-- session's writes keeps them, also where it raises.
use game_backend.Base.{
  ◌+◌, ◌≡◌, refl, ◌∙◌, Bool, true, not, ◌&&◌, List, [], ◌∷◌, ◌++◌, arith, ◌==◌, Bool-cases,
  Result-cases, inl, inr, All, Action,
}
use game_backend.Database.{
  ◌>>=◌, ◌>>◌, Uuid, Player, Match, MatchParticipant, Tables, Session, any_row, update_rows,
  has_player, has_match, same_player, same_participant, insert_player, insert_match,
  insert_participant, player_fits, fits_varchar, fits_integer,
}
use game_backend.Database.Rows.{
  IsDistinct, IsDistinct-append_one, IsDistinct-update_rows, any_row-append, any_row-update_rows,
  All-append_one, All-update_rows,
}

-- Every game that is counted has a result that is counted.
abbrev pub IsBalanced : Player → Type 0
IsBalanced p = p.games_played ≡ p.games_won + p.games_lost + p.games_drawn

abbrev pub same_match : Match → Match → Bool
same_match a b = a.id == b.id

-- Both rows that a participant points to are there.
abbrev pub IsLinked : Tables → MatchParticipant → Type 0
IsLinked t mp = (has_match mp.match_id t && has_player mp.player_id t) ≡ true

pub record IsSound (t : Tables) : Type 0 where
  pub players : IsDistinct same_player t.players
  pub matches : IsDistinct same_match t.matches
  pub participants : IsDistinct same_participant t.participants
  pub links : All (IsLinked t) t.participants
  pub balanced : All IsBalanced t.players

-- What a call keeps, whatever it answers.
abbrev pub Keeps : {A : Type 0} → Action Session A → Type 0
Keeps {A} m = (s : Session) → IsSound s.rows → IsSound (m s).1.rows

pub Keeps->>= :
    {A B : Type 0} (m : Action Session A) (f : A → Action Session B)
    → Keeps m
    → ((a : A) → Keeps (f a))
    → Keeps (m >>= f)
unfolding ◌>>=◌
Keeps->>= m f km kf s h = elim (Result-cases (m s).0) [
  | inl (e, r) ↦ rw (r, ◌>>=◌) (km s h)
  | inr (a, r) ↦ rw (r, ◌>>=◌) (kf a (m s).1 (km s h))
]

pub Keeps->> :
    {A B : Type 0} (m : Action Session A) (k : Action Session B)
    → Keeps m
    → Keeps k
    → Keeps (m >> k)
Keeps->> m k km kk = Keeps->>= m (λ _. k) km (λ _. kk)

All_mono :
    {A : Type 0} (P Q : A → Type 0) (xs : List A) → ((x : A) → P x → Q x) → All P xs → All Q xs
All_mono P Q [] f h = tt
All_mono P Q (x ∷ xs) f h = (f x h.0, All_mono P Q xs f h.1)

-- Rows of players and matches that are only added keep the references.
grown :
    (t u : Tables)
    → ((i : Uuid) → has_player i t ≡ true → has_player i u ≡ true)
    → ((i : Uuid) → has_match i t ≡ true → has_match i u ≡ true)
    → (mp : MatchParticipant) → IsLinked t mp
    → IsLinked u mp
grown t u hp hm mp h = ground (arith, h, hp mp.player_id, hm mp.match_id)

pub insert_player-Keeps : (p : Player) → IsBalanced p → Keeps (insert_player p)
unfolding insert_player
insert_player-Keeps p b s h = elim (Bool-cases (player_fits p)) [
  | inr e ↦ rw e h
  | inl e ↦ elim (Bool-cases (any_row (λ q. same_player q p) s.rows.players)) [
    | inl d ↦ rw (e, d) h
    | inr d ↦
        rw (e, d)
          (record {
            players = IsDistinct-append_one same_player s.rows.players p d h.players;
            matches = h.matches;
            participants = h.participants;
            links =
                All_mono (IsLinked s.rows)
                  (IsLinked (record s.rows { players = s.rows.players ++ p ∷ [] }))
                  s.rows.participants
                  (grown s.rows (record s.rows { players = s.rows.players ++ p ∷ [] })
                    (λ i e.
                      ground (arith, e, any_row-append (λ x. x.id == i) s.rows.players (p ∷ [])))
                    (λ i e. e))
                  h.links;
            balanced = All-append_one IsBalanced s.rows.players p h.balanced b;
          })
  ]
]

pub insert_match-Keeps : (m : Match) → Keeps (insert_match m)
unfolding insert_match
insert_match-Keeps m s h = elim (Bool-cases (fits_varchar 64 m.room_id)) [
  | inr e ↦ rw e h
  | inl e ↦ elim (Bool-cases (has_match m.id s.rows)) [
    | inl d ↦ rw (e, d) h
    | inr d ↦
        let t = record s.rows { matches = s.rows.matches ++ m ∷ [] } in
        rw (e, d)
          (record {
            players = h.players;
            matches = IsDistinct-append_one same_match s.rows.matches m d h.matches;
            participants = h.participants;
            links =
                All_mono (IsLinked s.rows) (IsLinked t) s.rows.participants
                  (grown s.rows t (λ i e. e)
                    (λ i e.
                      ground (arith, e, any_row-append (λ x. x.id == i) s.rows.matches (m ∷ []))))
                  h.links;
            balanced = h.balanced;
          })
  ]
]

pub insert_participant-Keeps : (mp : MatchParticipant) → Keeps (insert_participant mp)
unfolding insert_participant
insert_participant-Keeps mp s h = elim (Bool-cases (fits_integer mp.elo_before)) [
  | inr e ↦ rw e h
  | inl e ↦
      elim (Bool-cases (
        has_match mp.match_id s.rows
        && has_player mp.player_id s.rows
        && not (any_row (λ q. same_participant q mp) s.rows.participants))) [
          | inr d ↦ rw (e, d) h
          | inl d ↦
              rw (e, d)
                (record {
                  players = h.players;
                  matches = h.matches;
                  participants =
                      IsDistinct-append_one same_participant s.rows.participants mp
                        (ground (arith, d)) h.participants;
                  links =
                      All-append_one (IsLinked s.rows) s.rows.participants mp h.links
                        (ground (arith, d));
                  balanced = h.balanced;
                })
        ]
]

-- An update of players that leaves keys and balance alone.
pub update_players-IsSound :
    (p : Player → Bool) (f : Player → Player) (t : Tables)
    → ((x : Player) → (f x).id ≡ x.id)
    → ((x : Player) → (f x).username ≡ x.username)
    → ((x : Player) → (f x).email ≡ x.email)
    → ((x : Player) → IsBalanced x → IsBalanced (f x))
    → IsSound t
    → IsSound (record t { players = update_rows p f t.players })
update_players-IsSound p f t i n e b h =
    let u = record t { players = update_rows p f t.players } in
    record {
      players =
          IsDistinct-update_rows same_player p f t.players (λ x y. rw (i y, n y, e y) refl)
            (λ x y. rw (i x, n x, e x) refl) h.players;
      matches = h.matches;
      participants = h.participants;
      links =
          All_mono (IsLinked t) (IsLinked u) t.participants
            (grown t u
              (λ j d. any_row-update_rows (λ x. x.id == j) p f t.players (λ x. rw (i x) refl) ∙ d)
              (λ j d. d))
            h.links;
      balanced = All-update_rows IsBalanced p f t.players b h.balanced;
    }

pub update_matches-IsSound :
    (p : Match → Bool) (f : Match → Match) (t : Tables)
    → ((x : Match) → (f x).id ≡ x.id)
    → IsSound t
    → IsSound (record t { matches = update_rows p f t.matches })
update_matches-IsSound p f t i h =
    let u = record t { matches = update_rows p f t.matches } in
    record {
      players = h.players;
      matches =
          IsDistinct-update_rows same_match p f t.matches (λ x y. rw (i y) refl)
            (λ x y. rw (i x) refl) h.matches;
      participants = h.participants;
      links =
          All_mono (IsLinked t) (IsLinked u) t.participants
            (grown t u (λ j d. d)
              (λ j d. any_row-update_rows (λ x. x.id == j) p f t.matches (λ x. rw (i x) refl) ∙ d))
            h.links;
      balanced = h.balanced;
    }

pub update_participants-IsSound :
    (p : MatchParticipant → Bool) (f : MatchParticipant → MatchParticipant) (t : Tables)
    → ((x : MatchParticipant) → (f x).id ≡ x.id)
    → ((x : MatchParticipant) → (f x).match_id ≡ x.match_id)
    → ((x : MatchParticipant) → (f x).player_id ≡ x.player_id)
    → IsSound t
    → IsSound (record t { participants = update_rows p f t.participants })
update_participants-IsSound p f t i m n h = record {
  players = h.players;
  matches = h.matches;
  participants =
      IsDistinct-update_rows same_participant p f t.participants (λ x y. rw (i y, m y, n y) refl)
        (λ x y. rw (i x, m x, n x) refl) h.participants;
  links = All-update_rows (IsLinked t) p f t.participants (λ x d. rw (m x, n x) d) h.links;
  balanced = h.balanced;
}
