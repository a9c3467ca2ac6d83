-- ===== src/Accounts/Reachable.antt =====
-- The tables that the endpoints and the engine can leave: registrations, logins and stored results
-- in any order, from empty tables (app/api/rest_routes.py, `_persist_result` of
-- app/core/game_engine.py).
use game_backend.Base.{
  ℕ, ◌+◌, ◌≡◌, refl, sym, subst, Bool, true, false, Option, none, some, [], ℤ, Dict, Result, ◌==◌,
}
use game_backend.Game.{ActiveGame}
use game_backend.Database.{
  Player, Tables, any_row, open_session, player_fits, same_player, with_session,
}
use game_backend.Database.Soundness.{IsSound, update_players-IsSound}
use game_backend.Players.{stamp_login}
use game_backend.Matches.{persist_result}
use game_backend.Matches.Stored.{persist_result-IsSound}
use game_backend.Accounts.{
  PlayerRegisterRequest, PlayerLoginRequest, PlayerLoginResponse, Web, is_valid, register_player,
  login_player,
}
use game_backend.Accounts.Entrance.{named, registered, RegistersOn, register_player-Registers}
use game_backend.Accounts.Logins.{LogsInOn, LogsInAs, login_player-LogsIn}
use game_backend.Accounts.Returns.{registered-IsSound}

abbrev pub empty_tables : Tables
empty_tables = record { players = []; matches = []; participants = [] }

module _ {Token F : Type 0} (web : Web Token F) where
  open web use {db}

  -- What the tables can become.
  pub data Reach : Tables → Type 0 where
    start : Reach empty_tables
    register :
        (r : PlayerRegisterRequest) (n : ℕ) {t : Tables}
        → Reach t
        → Reach (with_session (register_player web r) (open_session t n)).1.saved
    login :
        (r : PlayerLoginRequest) (n : ℕ) {t : Tables}
        → Reach t
        → Reach (with_session (login_player web r) (open_session t n)).1.saved
    store :
        (g : ActiveGame) (changes : Dict (ℤ × ℤ)) (n : ℕ) {t : Tables}
        → Reach t
        → Reach (persist_result db g changes t n)

  register-IsSound :
      (r : PlayerRegisterRequest) (n : ℕ) (t t' : Tables) (a : Result (PlayerLoginResponse Token))
      (valid : Bool) (o : Option Player) (fits taken : Bool)
      → player_fits (registered web r n) ≡ fits
      → any_row (λ q. same_player q (registered web r n)) t.players ≡ taken
      → IsSound t
      → RegistersOn web r n t valid o fits taken a t'
      → IsSound t'
  register-IsSound r n t t' a false o fits taken ef et h x = subst IsSound (sym x.1) h
  register-IsSound r n t t' a true (some p) fits taken ef et h x = subst IsSound (sym x.1) h
  register-IsSound r n t t' a true none false taken ef et h x = subst IsSound (sym x.1) h
  register-IsSound r n t t' a true none true true ef et h x = subst IsSound (sym x.1) h
  register-IsSound r n t t' a true none true false ef et h x =
      subst IsSound (sym x.1) (registered-IsSound web r n t ef et h)

  login-IsSound :
      (n : ℕ) (t t' : Tables) (p : Player) (a : Result (PlayerLoginResponse Token))
      (right banned : Bool)
      → IsSound t
      → LogsInAs web n t p right banned a t'
      → IsSound t'
  login-IsSound n t t' p a false banned h x = subst IsSound (sym x.1) h
  login-IsSound n t t' p a true true h x = subst IsSound (sym x.1) h
  login-IsSound n t t' p a true false h x = subst IsSound (sym x.1) (
      update_players-IsSound (λ y. y.id == p.id) (stamp_login (db.now n) (db.now (n + 1))) t
        (λ y. refl) (λ y. refl) (λ y. refl) (λ y b. b) h)

  logs_in-IsSound :
      (r : PlayerLoginRequest) (n : ℕ) (t t' : Tables) (o : Option Player)
      (a : Result (PlayerLoginResponse Token))
      → IsSound t
      → LogsInOn web r n t o a t'
      → IsSound t'
  logs_in-IsSound r n t t' none a h x = subst IsSound (sym x.1) h
  logs_in-IsSound r n t t' (some p) a h x =
      login-IsSound n t t' p a (web.verify r.password p.password_hash) p.is_banned h x

  -- From empty tables, every sequence of registrations, logins and stored games, of any content
  -- and with any outcome, reaches only sound tables: no two players share an identifier, a
  -- username or an email, no two matches an identifier, no two participants an identifier or a
  -- pair of match and player, every participant points to a match and a player that are there,
  -- and every player has played as many games as won, lost and drawn together.
  pub tables_reached-IsSound : {t : Tables} → Reach t → IsSound t
  tables_reached-IsSound start = record {
    players = tt;
    matches = tt;
    participants = tt;
    links = tt;
    balanced = tt;
  }
  tables_reached-IsSound (register r n {t} x) =
      let h = tables_reached-IsSound x in
      register-IsSound r n t _ _ (is_valid r) (named r.username t) _ _ refl refl h
        (register_player-Registers web r t n h)
  tables_reached-IsSound (login r n {t} x) =
      let h = tables_reached-IsSound x in
      logs_in-IsSound r n t _ (named r.username t) _ h (login_player-LogsIn web r t n h)
  tables_reached-IsSound (store g changes n {t} x) =
      persist_result-IsSound db g changes t n (tables_reached-IsSound x)
