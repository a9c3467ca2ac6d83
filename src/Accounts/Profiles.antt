-- ===== src/Accounts/Profiles.antt =====
-- Profiles (`get_player_profile` of app/api/rest_routes.py).
use game_backend.Base.{
  ◌+◌, ◌≡◌, refl, sym, subst, inl, inr, Bool-cases, Option-cases, String, Bool, Option, none, some,
  List, [], ◌∷◌, arith, All, ◌==◌, ==_iff, http_exception, Result, ok, raise,
}
use game_backend.Database.{Uuid, Player, Session, Tables, same_player}
use game_backend.Database.Rows.{first_row, scalar_one_or_none_lem}
use game_backend.Database.Soundness.{IsSound, IsBalanced}
use game_backend.Database.Transactions.{>>=_run}
use game_backend.Players.{get_by_id}
use game_backend.Accounts.{Web, PlayerProfileResponse, get_player_profile, found, profile}

-- The player of an identifier.
abbrev pub identified : Uuid → Tables → Option Player
identified u t = first_row (λ p. p.id == u) t.players

get_by_id_lem :
    (u : Uuid) (s : Session) → IsSound s.rows → (get_by_id u s).0 ≡ ok (identified u s.rows)
unfolding get_by_id
get_by_id_lem u s h =
    scalar_one_or_none_lem same_player (λ p. p.id == u) s.rows.players
      (λ x y a b. ground (arith, ==_iff x.id u, ==_iff y.id u, ==_iff x.id y.id, a, b)) h.players

some_inj : {A : Type 0} {a b : A} → some a ≡ some b → a ≡ b
some_inj e = cc

All-first_row :
    (P : Player → Type 0) (p : Player → Bool) (xs : List Player) (x : Player)
    → All P xs
    → first_row p xs ≡ some x
    → P x
All-first_row P p [] x h e = cc
All-first_row P p (y ∷ ys) x h e = elim (Bool-cases (p y)) [
  | inl b ↦ subst P (some_inj (rw b at e)) h.0
  | inr b ↦ All-first_row P p ys x h.1 (rw b at e)
]

module _ {Token F : Type 0} (web : Web Token F) where
  open web use {db}

  -- The answer for a player that is there has the player's name and as many games played as won,
  -- lost and drawn together; another text is answered with the status 404 or 400.
  abbrev pub AnswersFor : Option Player → Result (PlayerProfileResponse F) → Type 0
  AnswersFor none a = a ≡ raise (http_exception 404)
  AnswersFor (some p) a =
      (r : PlayerProfileResponse F) × (a ≡ ok r)
      × (r.player_id ≡ db.uuid_text p.id)
      × (r.username ≡ p.username)
      × (r.elo_rating ≡ p.elo_rating)
      × (r.games_played ≡ r.games_won + r.games_lost + r.games_drawn)

  abbrev pub AnswersText : Option Uuid → Tables → Result (PlayerProfileResponse F) → Type 0
  AnswersText none t a = a ≡ raise (http_exception 400)
  AnswersText (some u) t a = AnswersFor (identified u t) a

  answers_found :
      (o : Option Player) (s : Session)
      → ((p : Player) → o ≡ some p → IsBalanced p)
      → AnswersFor o (found web o s).0
  answers_found none s h = refl
  answers_found (some p) s h = (profile web p, refl, refl, refl, refl, h p refl)

  -- On sound tables, the profile of a text that is no UUID is answered with 400, that of a UUID
  -- that no player has with 404, and else with the player's identifier, username and rating, and
  -- with as many games played as won, lost and drawn together.
  pub get_player_profile-AnswersText :
      (text : String) (s : Session)
      → IsSound s.rows
      → AnswersText (db.parse_uuid text) s.rows (get_player_profile web text s).0
  unfolding get_player_profile get_by_id
  get_player_profile-AnswersText text s h = elim (Option-cases (db.parse_uuid text)) [
    | inl e ↦ rw (e, get_player_profile) refl
    | inr (u, e) ↦
        rw (e, get_player_profile)
          (subst (λ y. AnswersFor (identified u s.rows) y.0)
            (sym (>>=_run (get_by_id u) (found web) s (identified u s.rows) (get_by_id_lem u s h)))
            (answers_found (identified u s.rows) s
              (λ p g. All-first_row IsBalanced (λ q. q.id == u) s.rows.players p h.balanced g)))
  ]
