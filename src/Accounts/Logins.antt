-- ===== src/Accounts/Logins.antt =====
-- Login (app/api/rest_routes.py): every answer, and the login after a registration.
use game_backend.Base.{
  ℕ, ◌+◌, ◌≡◌, refl, ap, sym, subst, Bool, true, false, Option, none, some, ◌==◌, http_exception,
  Result, ok, raise, fail, modify, if◌then◌else◌,
}
use game_backend.Database.{
  ◌>>=◌, ◌>>◌, Player, Session, Tables, update_rows, commit, rollback, open_session, now,
  with_session,
}
use game_backend.Database.Soundness.{IsSound}
use game_backend.Database.Transactions.{>>=_run}
use game_backend.Players.{get_by_username, update_login_timestamp, stamp_login}
use game_backend.Accounts.{
  PlayerLoginRequest, PlayerLoginResponse, Web, with_token, admit, check_password, login_player,
}
use game_backend.Accounts.Entrance.{named, get_by_username_lem, answer}

module _ {Token F : Type 0} (web : Web Token F) where
  open web use {db}

  -- The row's login is dated.
  abbrev pub logged_in : Player → ℕ → Tables → Tables
  logged_in p n t = record t {
    players = update_rows (λ x. x.id == p.id) (stamp_login (db.now n) (db.now (n + 1))) t.players;
  }

  -- What `/login` answers and leaves stored for a player, on whether the password is right and
  -- whether the player is banned.
  abbrev pub LogsInAs :
      ℕ → Tables → Player → Bool → Bool → Result (PlayerLoginResponse Token) → Tables → Type 0
  LogsInAs n t p false banned a t' = (a ≡ raise (http_exception 401)) × (t' ≡ t)
  LogsInAs n t p true true a t' = (a ≡ raise (http_exception 403)) × (t' ≡ t)
  LogsInAs n t p true false a t' = (a ≡ ok (answer web p (n + 1 + 1))) × (t' ≡ logged_in p n t)

  abbrev pub LogsInOn :
      PlayerLoginRequest
      → ℕ
      → Tables
      → Option Player
      → Result (PlayerLoginResponse Token)
      → Tables
      → Type 0
  LogsInOn r n t none a t' = (a ≡ raise (http_exception 401)) × (t' ≡ t)
  LogsInOn r n t (some p) a t' =
      LogsInAs n t p (web.verify r.password p.password_hash) p.is_banned a t'

  abbrev pub LogsIn :
      PlayerLoginRequest → ℕ → Tables → Result (PlayerLoginResponse Token) → Tables → Type 0
  LogsIn r n t = LogsInOn r n t (named r.username t)

  -- The handler after the two tests.
  abbrev after_tests : Player → Bool → Bool → Session → Result (PlayerLoginResponse Token) × Session
  after_tests p right banned =
      if right
      then if banned
        then fail (http_exception 403)
        else (update_login_timestamp db p.id >> (modify commit >> with_token web p))
      else fail (http_exception 401)

  tested :
      (p : Player) (t : Tables) (n : ℕ) (right banned : Bool)
      → (let x = with_session (after_tests p right banned) (open_session t n) in
          LogsInAs n t p right banned x.0 x.1.saved)
  unfolding with_session update_login_timestamp now ◌>>=◌ commit rollback with_token
  tested p t n false banned = (refl, refl)
  tested p t n true true = (refl, refl)
  tested p t n true false = (refl, refl)

  checked :
      (r : PlayerLoginRequest) (t : Tables) (n : ℕ) (o : Option Player)
      → (let x = with_session (check_password web r o) (open_session t n) in
          LogsInOn r n t o x.0 x.1.saved)
  unfolding with_session check_password commit rollback admit
  checked r t n none = (refl, refl)
  checked r t n (some p) = tested p t n (web.verify r.password p.password_hash) p.is_banned

  -- What a login on sound tables answers and stores, on each branch: 401 for an unknown username
  -- and for a wrong password, 403 for a banned player, each with the tables unchanged; and else a
  -- token for the player, whose time of the last login is then stored.
  pub login_player-LogsIn :
      (r : PlayerLoginRequest) (t : Tables) (n : ℕ)
      → IsSound t
      → LogsIn r n t
          (with_session (login_player web r) (open_session t n)).0
          (with_session (login_player web r) (open_session t n)).1.saved
  unfolding with_session login_player get_by_username
  login_player-LogsIn r t n h =
      subst
        (λ y.
          LogsIn r n t (with_session (λ _. y) (open_session t n)).0
            (with_session (λ _. y) (open_session t n)).1.saved)
        (sym (
          >>=_run (get_by_username r.username) (check_password web r) (open_session t n)
            (named r.username t)
            (ap (λ x. x.0) (get_by_username_lem r.username (open_session t n) h))))
        (checked r t n (named r.username t))
