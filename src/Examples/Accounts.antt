-- ===== src/Examples/Accounts.antt =====
-- Runs of the theorems on the accounts' endpoints and on tokens.
use Prim.Native.String.{◌++◌}
use game_backend.Base.{
  mem, ℕ, ◌≡◌, ◌≤◌, ◌/◌, refl, String, Bool, true, false, ◌&&◌, Option, none, some, [], arith, ℤ,
  pos, Dict, Json, int, lookup, str_eq, leb, ok, length, All, if◌then◌else◌, pure, ◌>>◌,
}
use game_backend.Schemas.{ErrorCode}
use game_backend.Env.{ticks_per_sec}
use game_backend.Auth.{Jwt, create_access_token, extract_player_id}
use game_backend.Auth.Tokens.{JwtLaws, expiry}
use game_backend.Database.{
  ◌>>=◌, Tables, open_session, with_session, now, new_uuid, commit, insert_player, fits_varchar,
  fits_integer, scalar_one_or_none,
}
use game_backend.Players.{create, get_by_username}
use game_backend.Database.Soundness.{IsSound}
use game_backend.Accounts.{
  PlayerRegisterRequest, PlayerLoginRequest, PlayerLoginResponse, LeaderboardResponse, Web,
  register_player, login_player, register_new, hash_password, with_token, is_valid, is_word,
  leaderboard, get_player_profile,
}
use game_backend.Accounts.Entrance.{Registers, register_player-Registers, registered, answer}
use game_backend.Accounts.Logins.{LogsIn, login_player-LogsIn}
use game_backend.Accounts.Returns.{login_of, login_player-register_player}
use game_backend.Accounts.Leaderboard.{IsRanked, leaderboard-IsRanked}
use game_backend.Accounts.Profiles.{AnswersText, get_player_profile-AnswersText}
use game_backend.Accounts.Reachable.{empty_tables, start, register, login, tables_reached-IsSound}
use game_backend.Gateway.{open_connection}
use game_backend.Gateway.Entry.{
  accept_connection, accepted, refused, accept_connection-create_access_token,
}
use game_backend.Examples.Numbers.{whole}
use game_backend.Examples.Outside.{outside, empty_world, ann}
use game_backend.Examples.Tables.{database, two_rows, two_rows-IsSound}

-- A token is what it says, with the key that it was signed with.
abbrev Signed : Type 0
Signed = Dict Json × String × String

abbrev good_until : ℕ → Option Json → Bool
good_until at (some (int (pos until))) = leb (at / ticks_per_sec) until
good_until at _ = false

abbrev jwt : Jwt Signed
jwt = record {
  encode = λ payload key algorithm. (payload, key, algorithm);
  decode = λ token key algorithm at.
      if str_eq token.1 key && str_eq token.2 algorithm && good_until at (lookup "exp" token.0)
      then some token.0
      else none;
  jwt_secret_key = "key";
  jwt_algorithm = "HS256";
  jwt_expiry_minutes = 1440;
}

jwt-laws : JwtLaws jwt
unfolding lookup str_eq mem
jwt-laws = record {
  algorithm = refl;
  decode-encode = λ sub iat exp at h. ground (arith, h);
  expired = λ sub iat exp at h. ground (arith, h);
}

abbrev web : Web Signed ℤ
web = record {
  db = database;
  jwt = jwt;
  floats = whole;
  round_1 = λ x. x;
  hash = λ n password. "#" ++ password;
  verify = λ password hashed. str_eq ("#" ++ password) hashed;
}

abbrev newcomer : PlayerRegisterRequest
newcomer = record { username = "carl"; email = "carl@x"; password = "password" }

abbrev carl : PlayerLoginRequest
carl = login_of newcomer

abbrev joined : Tables
joined = (with_session (register_player web newcomer) (open_session two_rows 0)).1.saved

register_player-Registers_example :
    Registers web newcomer 0 two_rows
      (with_session (register_player web newcomer) (open_session two_rows 0)).0
      joined
register_player-Registers_example =
    register_player-Registers web newcomer two_rows 0 two_rows-IsSound

login_player-LogsIn_example :
    LogsIn web carl 0 two_rows
      (with_session (login_player web carl) (open_session two_rows 0)).0
      (with_session (login_player web carl) (open_session two_rows 0)).1.saved
login_player-LogsIn_example = login_player-LogsIn web carl two_rows 0 two_rows-IsSound

carl_registered :
    (with_session (register_player web newcomer) (open_session two_rows 0)).0
    ≡ ok (answer web (registered web newcomer 0) 3)
unfolding with_session register_player get_by_username register_new hash_password create now
    new_uuid ◌>>=◌ commit with_token insert_player is_valid is_word fits_varchar fits_integer
    scalar_one_or_none str_eq
carl_registered = refl

carl_verified : web.verify newcomer.password (web.hash 0 newcomer.password) ≡ true
unfolding str_eq
carl_verified = refl

login_player-register_player_example :
    (b : PlayerLoginResponse Signed) × ((with_session
        (login_player web carl)
        (open_session joined 10)).0
      ≡ ok b)
    × (b.player_id ≡ (answer web (registered web newcomer 0) 3).player_id)
    × (extract_player_id jwt b.access_token 500
        ≡ ok (answer web (registered web newcomer 0) 3).player_id)
login_player-register_player_example =
    login_player-register_player web jwt-laws newcomer two_rows 0 10 500
      (answer web (registered web newcomer 0) 3) two_rows-IsSound carl_verified carl_registered
      (omega arith)

tables_reached-IsSound_example :
    IsSound
      (with_session (login_player web carl) (
        open_session
          (with_session (register_player web newcomer) (open_session empty_tables 0)).1.saved
          5)).1.saved
tables_reached-IsSound_example =
    tables_reached-IsSound web (login carl 5 (register newcomer 0 start))

leaderboard-IsRanked_example :
    (r : LeaderboardResponse ℤ) × ((leaderboard web (pos 1) (pos 0) (open_session two_rows 0)).0
      ≡ ok r)
    × (length r.entries ≤ 100)
    × All (IsRanked web two_rows) r.entries
leaderboard-IsRanked_example =
    leaderboard-IsRanked web (pos 1) (pos 0) (open_session two_rows 0) (omega arith)

get_player_profile-AnswersText_example :
    AnswersText web
      (database.parse_uuid ann)
      two_rows
      (get_player_profile web ann (open_session two_rows 0)).0
get_player_profile-AnswersText_example =
    get_player_profile-AnswersText web ann (open_session two_rows 0) two_rows-IsSound

accept_connection-create_access_token_example :
    accept_connection jwt outside (create_access_token jwt ann [] 0) "c1" 7 empty_world ≡ (
      if leb (7 / ticks_per_sec) (expiry jwt 0)
      then (open_connection outside ann "c1" >> pure (accepted ann)) empty_world
      else (ok (refused ErrorCode.auth_failed 1008), empty_world))
accept_connection-create_access_token_example =
    accept_connection-create_access_token jwt outside jwt-laws ann "c1" 0 7 empty_world
