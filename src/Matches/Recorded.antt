-- ===== src/Matches/Recorded.antt =====
-- What a storing that returns has written (`create_match` and `record_result` of
-- app/persistence/repositories.py).
use mathlib.Core.Option
use game_backend.Base.{
  ℕ, ◌+◌, ◌&&◌, ◌≡◌, refl, ◌∙◌, sym, ap, inl, inr, String, Bool, false, Option, none, some, List,
  [], ◌∷◌, ◌++◌, map, ℤ, pos, lookup, ==_iff, arith, Dict, Bool-cases, All, str_eq, ◌==◌, ok,
  if◌then◌else◌,
}
use game_backend.Database.{
  ◌>>=◌, Uuid, Player, MatchParticipant, Session, Tables, Outside, any_row, update_rows,
  fits_integer, now,
}
use game_backend.Database.Rows.{first_row, on_row}
use game_backend.Players.{update_elo, all_fit, credit, count_result}
use game_backend.Players.Kept.{count_result_lem}
use game_backend.Matches.{result_text, set_participant, finish_participant}

-- A player's rating and counters.
pub record Standing : Type 0 where
  pub elo : ℤ
  pub played : ℕ
  pub won : ℕ
  pub lost : ℕ
  pub drawn : ℕ

abbrev pub standing : Player → Standing
standing p = record {
  elo = p.elo_rating;
  played = p.games_played;
  won = p.games_won;
  lost = p.games_lost;
  drawn = p.games_drawn;
}

-- One more game, with its new rating: drawn without a winner, else won by the winner alone.
abbrev pub after_game : Option String → String → ℤ → Standing → Standing
after_game none pid elo st = record st { elo = elo; played = st.played + 1; drawn = st.drawn + 1 }
after_game (some w) pid elo st =
    if str_eq pid w
    then record st { elo = elo; played = st.played + 1; won = st.won + 1 }
    else record st { elo = elo; played = st.played + 1; lost = st.lost + 1 }

-- A participation in a game that is over: drawn without a winner, else won by the winner alone.
abbrev pub row_of_game : Option String → String → ℤ → ℤ → MatchParticipant → MatchParticipant
row_of_game none pid elo change mp = record mp {
  result = some "draw";
  elo_after = some elo;
  elo_delta = some change;
}
row_of_game (some w) pid elo change mp = record mp {
  result = some (if str_eq pid w then "win" else "loss");
  elo_after = some elo;
  elo_delta = some change;
}

-- The text is the player's.
abbrev pub names : Option Uuid → Uuid → Bool
names none j = false
names (some u) j = j == u

module _ (out : Outside) where
  -- A player's standing after the rating changes of a game.
  unfoldable pub standing_after : Option String → Uuid → Dict (ℤ × ℤ) → Standing → Standing
  standing_after w j [] st = st
  standing_after w j ((pid, (elo, delta)) ∷ changes) st =
      standing_after w j changes
        (if names (out.parse_uuid pid) j then after_game w pid elo st else st)

  -- A participant's row after them.
  unfoldable pub row_after : Option String → Dict (ℤ × ℤ) → MatchParticipant → MatchParticipant
  row_after w [] mp = mp
  row_after w ((pid, (elo, change)) ∷ changes) mp =
      row_after w changes
        (if names (out.parse_uuid pid) mp.player_id then row_of_game w pid elo change mp else mp)

  -- One row of the match for each player, in order, with the rating that the game began with.
  abbrev pub RowsFor : Uuid → Dict ℤ → List String → List MatchParticipant → Type 0
  RowsFor u elos [] [] = Unit
  RowsFor u elos [] (mp ∷ mps) = ⊥
  RowsFor u elos (pid ∷ pids) [] = ⊥
  RowsFor u elos (pid ∷ pids) (mp ∷ mps) =
      ((mp.match_id ≡ u)
        × (out.parse_uuid pid ≡ some mp.player_id)
        × (mp.elo_before ≡ Option.get_or (lookup pid elos) (pos 1000)))
      × RowsFor u elos pids mps

credit-standing :
    (w : Option String) (pid : String) (e : ℤ) (time : ℕ) (p : Player)
    → standing (credit e (result_text w pid) time p) ≡ after_game w pid e (standing p)
unfolding count_result result_text str_eq
credit-standing none pid e time p = refl
credit-standing (some w) pid e time p = elim (Bool-cases (str_eq pid w)) [
  | inl h ↦ rw (h, result_text) refl
  | inr h ↦ rw (h, result_text) refl
]

credit_id : (e : ℤ) (r : String) (time : ℕ) (p : Player) → (credit e r time p).id ≡ p.id
credit_id e r time p =
    (count_result_lem r
      (record p { elo_rating = e; games_played = p.games_played + 1; updated_at = time })).0

abbrev pub player_row : Uuid → Tables → Option Player
player_row j t = first_row (λ p. p.id == j) t.players

-- What an update of one player does to the standing of each.
pub standing-update_rows :
    (w : Option String) (pid : String) (e : ℤ) (time : ℕ) (u j : Uuid) (ps : List Player)
    → on_row standing (
        first_row
          (λ p. p.id == j)
          (update_rows (λ p. p.id == u) (credit e (result_text w pid) time) ps))
      ≡ on_row
          (λ st. if j == u then after_game w pid e st else st)
          (on_row standing (first_row (λ p. p.id == j) ps))
standing-update_rows w pid e time u j [] = refl
standing-update_rows w pid e time u j (p ∷ ps) = ground (
  arith,
  standing-update_rows w pid e time u j ps,
  credit-standing w pid e time p,
  credit_id e (result_text w pid) time p,
)

module _ (out : Outside) where
  -- What the loop over the rating changes does.
  pub record Changed (u : Uuid) (w : Option String) (changes : Dict (ℤ × ℤ)) (t t' : Tables)
      : Type 0 where
    pub matches : t'.matches ≡ t.matches
    pub standings :
        (j : Uuid)
        → on_row standing (player_row j t')
          ≡ on_row (standing_after out w j changes) (on_row standing (player_row j t))
    pub parts :
        (base ps : List MatchParticipant)
        → any_row (λ mp. mp.match_id == u) base ≡ false
        → All (λ mp. mp.match_id ≡ u) ps
        → t.participants ≡ base ++ ps
        → t'.participants ≡ base ++ map (row_after out w changes) ps

  pub update_elo_ok :
      (u : Uuid) (e : ℤ) (r : String) (s : Session)
      → (update_elo out u e r s).0 ≡ ok tt
      → (update_elo out u e r s).1.rows ≡ record s.rows {
        players = update_rows (λ p. p.id == u) (credit e r (out.now s.queries)) s.rows.players;
      }
  unfolding update_elo now ◌>>=◌
  update_elo_ok u e r s h =
      elim (Bool-cases (
        fits_integer e
        && all_fit (λ x. x.id == u) (credit e r (out.now s.queries)) s.rows.players)) [
          | inl b ↦ rw b refl
          | inr b ↦ absurd (ground (arith, h, b))
        ]

  pub set_participant_ok :
      (u i : Uuid) (r : String) (e d : ℤ) (s : Session)
      → (set_participant out u i r e d s).0 ≡ ok tt
      → (set_participant out u i r e d s).1 ≡ record s {
        rows = record s.rows {
          participants =
              update_rows
                (λ mp. mp.match_id == u && mp.player_id == i)
                (finish_participant r e d)
                s.rows.participants;
        };
      }
  unfolding set_participant
  set_participant_ok u i r e d s h = elim (Bool-cases (fits_integer e && fits_integer d)) [
    | inl b ↦ rw b refl
    | inr b ↦ absurd (ground (arith, h, b))
  ]

update_rows_others :
    (u i : Uuid) (f : MatchParticipant → MatchParticipant) (base ps : List MatchParticipant)
    → any_row (λ mp. mp.match_id == u) base ≡ false
    → update_rows (λ mp. mp.match_id == u && mp.player_id == i) f (base ++ ps)
      ≡ base ++ update_rows (λ mp. mp.match_id == u && mp.player_id == i) f ps
update_rows_others u i f [] ps h = refl
update_rows_others u i f (x ∷ base) ps h =
    ground (arith, h, update_rows_others u i f base ps (ground (arith, h)))

-- What the update of one player's row does to the match's rows.
pub update_rows_one :
    (w : Option String) (pid : String) (u i : Uuid) (e d : ℤ) (ps : List MatchParticipant)
    → All (λ mp. mp.match_id ≡ u) ps
    → update_rows
        (λ mp. mp.match_id == u && mp.player_id == i)
        (finish_participant (result_text w pid) e d)
        ps
      ≡ map (λ mp. if mp.player_id == i then row_of_game w pid e d mp else mp) ps
unfolding result_text
update_rows_one w pid u i e d [] h = refl
update_rows_one none pid u i e d (mp ∷ ps) h =
    ground (arith, update_rows_one none pid u i e d ps h.1, h.0, ==_iff mp.match_id u)
update_rows_one (some x) pid u i e d (mp ∷ ps) h =
    ground (arith, update_rows_one (some x) pid u i e d ps h.1, h.0, ==_iff mp.match_id u)

pub update_rows_game :
    (w : Option String) (pid : String) (u i : Uuid) (e d : ℤ) (base ps : List MatchParticipant)
    → any_row (λ mp. mp.match_id == u) base ≡ false
    → All (λ mp. mp.match_id ≡ u) ps
    → update_rows
        (λ mp. mp.match_id == u && mp.player_id == i)
        (finish_participant (result_text w pid) e d)
        (base ++ ps)
      ≡ base ++ map (λ mp. if mp.player_id == i then row_of_game w pid e d mp else mp) ps
update_rows_game w pid u i e d base ps b h =
    update_rows_others u i (finish_participant (result_text w pid) e d) base ps b
    ∙ ap (λ xs. base ++ xs) (update_rows_one w pid u i e d ps h)

pub on_row-on_row :
    {A B C : Type 0} (g : B → C) (f : A → B) (k : A → C) (o : Option A)
    → ((a : A) → g (f a) ≡ k a)
    → on_row g (on_row f o) ≡ on_row k o
on_row-on_row g f k none h = refl
on_row-on_row g f k (some a) h = ap some (h a)

pub on_row_same : {A : Type 0} (f : A → A) (o : Option A) → ((a : A) → f a ≡ a) → o ≡ on_row f o
on_row_same f none h = refl
on_row_same f (some a) h = ap some (sym (h a))
