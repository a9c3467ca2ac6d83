-- ===== src/Accounts.antt =====
-- The accounts' endpoints (app/api/rest_routes.py), on the bodies of app/models/schemas.py. A
-- handler runs inside `get_db_session`. `passlib` is a parameter: a hash is salted, so each call
-- has its own, and floats are as in Elo.
pub mod Entrance
pub mod Logins
pub mod Returns
pub mod Leaderboard
pub mod Reachable
pub mod Profiles
use Prim.Native.Char.{code}
use Prim.Native.String.{count, [] as []ₛ, ◌∷◌ as ◌∷ₛ◌}
use game_backend.Base.{
  ℕ, suc, ◌+◌, String, Bool, true, ◌&&◌, ◌||◌, Option, none, some, List, [], ◌∷◌, ℤ, pos, ◌+ℤ◌,
  ◌-ℤ◌, ◌*ℤ◌, leb, ltb_ℤ, ◌==◌, http_exception, ok, Action, pure, fail, modify, if◌then◌else◌,
}
use game_backend.Elo.{Floats}
use game_backend.Auth.{Jwt, create_access_token}
use game_backend.Database.{◌>>=◌, ◌>>◌, Player, Session, Outside, commit}
use game_backend.Players.{
  create, get_by_id, get_by_username, update_login_timestamp, get_leaderboard,
}

pub record PlayerRegisterRequest : Type 0 where
  pub username : String
  pub email : String
  pub password : String

pub record PlayerLoginRequest : Type 0 where
  pub username : String
  pub password : String

pub record PlayerLoginResponse (Token : Type 0) : Type 0 where
  pub access_token : Token
  pub player_id : String
  pub username : String
  pub elo_rating : ℤ

pub record PlayerProfileResponse (F : Type 0) : Type 0 where
  pub player_id : String
  pub username : String
  pub elo_rating : ℤ
  pub games_played : ℕ
  pub games_won : ℕ
  pub games_lost : ℕ
  pub games_drawn : ℕ
  pub win_rate : F
  pub created_at : ℕ

pub record LeaderboardEntry (F : Type 0) : Type 0 where
  pub rank : ℤ
  pub player_id : String
  pub username : String
  pub elo_rating : ℤ
  pub games_played : ℕ
  pub win_rate : F

pub record LeaderboardResponse (F : Type 0) : Type 0 where
  pub entries : List (LeaderboardEntry F)
  pub total_players : ℕ
  pub page : ℤ
  pub page_size : ℤ

-- `[a-zA-Z0-9_]`
abbrev pub is_word_code : ℕ → Bool
is_word_code n =
    (leb 97 n && leb n 122) || (leb 65 n && leb n 90) || (leb 48 n && leb n 57) || n == 95

unfoldable pub is_word : String → Bool
is_word []ₛ = true
is_word (c ∷ₛ s) = is_word_code (code c) && is_word s

abbrev pub has_length : ℕ → ℕ → String → Bool
has_length least most s = leb least (count s) && leb (count s) most

-- The bodies of `/register` that pass the validation; another one is answered with the status 422.
unfoldable pub is_valid : PlayerRegisterRequest → Bool
is_valid r =
    has_length 3 50 r.username
    && is_word r.username
    && has_length 5 255 r.email
    && has_length 8 128 r.password

-- What the endpoints call. `hash` is salted by the number of the question.
pub record Web (Token F : Type 0) : Type 0 where
  pub db : Outside
  pub jwt : Jwt Token
  pub floats : Floats F
  pub round_1 : F → F
  pub hash : ℕ → String → String
  pub verify : String → String → Bool

module _ {Token F : Type 0} (web : Web Token F) where
  open web use {db, jwt, floats, round_1}

  -- `pwd_context.hash`
  unfoldable pub hash_password : String → Action Session String
  hash_password password s =
      (ok (web.hash s.queries password), record s { queries = s.queries + 1 })

  -- The answer with a new token.
  unfoldable pub with_token : Player → Action Session (PlayerLoginResponse Token)
  with_token player s = (
    ok (record {
      access_token = create_access_token jwt (db.uuid_text player.id) [] (db.now s.queries);
      player_id = db.uuid_text player.id;
      username = player.username;
      elo_rating = player.elo_rating;
    }),
    record s { queries = s.queries + 1 },
  )

  -- The handler after its first query.
  unfoldable pub register_new :
      PlayerRegisterRequest → Option Player → Action Session (PlayerLoginResponse Token)
  register_new request (some existing) = fail (http_exception 409)
  register_new request none = do
    password_hash ← hash_password request.password
    player ← create db request.username request.email password_hash
    modify commit
    with_token player

  -- `register_player`
  unfoldable pub register_player :
      PlayerRegisterRequest → Action Session (PlayerLoginResponse Token)
  register_player request =
      if is_valid request
      then get_by_username request.username >>= register_new request
      else fail (http_exception 422)

  -- The handler on a player whose password was right.
  unfoldable pub admit : Player → Action Session (PlayerLoginResponse Token)
  admit player =
      if player.is_banned
      then fail (http_exception 403)
      else (update_login_timestamp db player.id >> (modify commit >> with_token player))

  unfoldable pub check_password :
      PlayerLoginRequest → Option Player → Action Session (PlayerLoginResponse Token)
  check_password request none = fail (http_exception 401)
  check_password request (some player) =
      if web.verify request.password player.password_hash
      then admit player
      else fail (http_exception 401)

  -- `login_player`
  unfoldable pub login_player : PlayerLoginRequest → Action Session (PlayerLoginResponse Token)
  login_player request = get_by_username request.username >>= check_password request

  -- `games_played or 1`
  unfoldable pub games_or_one : ℕ → ℕ
  games_or_one n = if n == 0 then 1 else n

  -- `round(games_won / total * 100, 1)`
  unfoldable pub win_rate : Player → F
  win_rate p = round_1 (
      floats.mul
        (floats.div (floats.of_int (pos p.games_won))
          (floats.of_int (pos (games_or_one p.games_played))))
        (floats.of_int (pos 100)))

  abbrev pub profile : Player → PlayerProfileResponse F
  profile p = record {
    player_id = db.uuid_text p.id;
    username = p.username;
    elo_rating = p.elo_rating;
    games_played = p.games_played;
    games_won = p.games_won;
    games_lost = p.games_lost;
    games_drawn = p.games_drawn;
    win_rate = win_rate p;
    created_at = p.created_at;
  }

  abbrev pub found : Option Player → Action Session (PlayerProfileResponse F)
  found none = fail (http_exception 404)
  found (some p) = pure (profile p)

  -- `get_player_profile`
  unfoldable pub get_player_profile : String → Action Session (PlayerProfileResponse F)
  get_player_profile player_id = elim (db.parse_uuid player_id) [
    | none ↦ fail (http_exception 400)
    | some u ↦ get_by_id u >>= found
  ]

  abbrev pub entry : ℤ → Player → LeaderboardEntry F
  entry rank p = record {
    rank = rank;
    player_id = db.uuid_text p.id;
    username = p.username;
    elo_rating = p.elo_rating;
    games_played = p.games_played;
    win_rate = win_rate p;
  }

  -- The loop of `get_leaderboard`, from an index on.
  unfoldable pub entries : ℤ → ℤ → ℕ → List Player → List (LeaderboardEntry F)
  entries page page_size i [] = []
  entries page page_size i (p ∷ ps) =
      entry ((page -ℤ pos 1) *ℤ page_size +ℤ pos i +ℤ pos 1) p ∷ entries page page_size (suc i) ps

  -- The two tests of `get_leaderboard` on its arguments.
  unfoldable pub clamp_page : ℤ → ℤ
  clamp_page page = if ltb_ℤ page (pos 1) then pos 1 else page

  unfoldable pub clamp_size : ℤ → ℤ
  clamp_size n = if ltb_ℤ n (pos 1) || ltb_ℤ (pos 100) n then pos 50 else n

  abbrev pub leaderboard_page : ℤ → ℤ → List Player × ℕ → LeaderboardResponse F
  leaderboard_page page page_size (players, total) = record {
    entries = entries page page_size 0 players;
    total_players = total;
    page = page;
    page_size = page_size;
  }

  -- `get_leaderboard` of app/api/rest_routes.py
  unfoldable pub leaderboard : ℤ → ℤ → Action Session (LeaderboardResponse F)
  leaderboard page page_size = do
    found ← get_leaderboard (clamp_page page) (clamp_size page_size)
    pure (leaderboard_page (clamp_page page) (clamp_size page_size) found)
