-- ===== src/Accounts/Returns.antt =====
-- The login after a registration (app/api/rest_routes.py, app/utils/auth.py).
use game_backend.Base.{
  ℕ, ◌+◌, ◌/◌, ◌≤◌, ◌≡◌, refl, ◌∙◌, ap, sym, subst, Bool, true, false, Option, none, some, List, [],
  ◌∷◌, arith, str_eq, str_eq_refl, ok,
}
use game_backend.Env.{ticks_per_sec}
use game_backend.Auth.{extract_player_id}
use game_backend.Auth.Tokens.{JwtLaws, expiry, extract_player_id-create_access_token}
use game_backend.Database.{
  Player, Tables, any_row, open_session, player_fits, same_player, with_session,
}
use game_backend.Database.Rows.{first_row, first_row-append_one}
use game_backend.Database.Soundness.{IsSound, insert_player-Keeps}
use game_backend.Accounts.{
  PlayerRegisterRequest, PlayerLoginRequest, PlayerLoginResponse, Web, is_valid, register_player,
  login_player,
}
use game_backend.Accounts.Entrance.{
  named, registered, answer, with_player, RegistersOn, Registers, register_player-Registers,
  inserted, insert_player_lem,
}
use game_backend.Accounts.Logins.{LogsInOn, LogsInAs, login_player-LogsIn}

-- The login with what was registered.
abbrev pub login_of : PlayerRegisterRequest → PlayerLoginRequest
login_of r = record { username = r.username; password = r.password }

any_row-none : (p : Player → Bool) (xs : List Player) → first_row p xs ≡ none → any_row p xs ≡ false
any_row-none p [] h = refl
any_row-none p (x ∷ xs) h = ground (arith, h, any_row-none p xs (ground (arith, h)))

module _ {Token F : Type 0} (web : Web Token F) where
  open web use {db}

  pub registered-IsSound :
      (r : PlayerRegisterRequest) (n : ℕ) (t : Tables)
      → player_fits (registered web r n) ≡ true
      → any_row (λ q. same_player q (registered web r n)) t.players ≡ false
      → IsSound t
      → IsSound (with_player web (registered web r n) t)
  registered-IsSound r n t f k h =
      let p = registered web r n in
      subst (λ x. IsSound x.1.rows) {y = inserted p (open_session t n) true false}
        (insert_player_lem p (open_session t n) ∙ rw (f, k) refl)
        (insert_player-Keeps p refl (open_session t n) h)

  -- What a registration that is answered has met.
  accepted :
      (r : PlayerRegisterRequest) (n : ℕ) (t t' : Tables) (a : PlayerLoginResponse Token)
      (valid : Bool) (o : Option Player) (fits taken : Bool)
      → RegistersOn web r n t valid o fits taken (ok a) t'
      → (o ≡ none)
        × (fits ≡ true)
        × (taken ≡ false)
        × (a ≡ answer web (registered web r n) (n + 1 + 1 + 1))
        × (t' ≡ with_player web (registered web r n) t)
  accepted r n t t' a false o fits taken h = absurd (ground (arith, h.0))
  accepted r n t t' a true (some p) fits taken h = absurd (ground (arith, h.0))
  accepted r n t t' a true none false taken h = absurd (ground (arith, h.0))
  accepted r n t t' a true none true true h = absurd (ground (arith, h.0))
  accepted r n t t' a true none true false h = (refl, refl, refl, ok_eq h.0, h.1)
    where
      ok_eq : {x y : PlayerLoginResponse Token} → ok x ≡ ok y → x ≡ y
      ok_eq e = cc

  named_new :
      (p : Player) (t : Tables)
      → named p.username t ≡ none
      → named p.username (with_player web p t) ≡ some p
  named_new p t e =
      rw
        (
          first_row-append_one (λ y. str_eq y.username p.username) t.players p
              (any_row-none (λ y. str_eq y.username p.username) t.players e),
          str_eq_refl p.username,
        )
        refl

  -- The login on the tables that a registration left.
  returns :
      (r : PlayerRegisterRequest) (n m : ℕ) (t : Tables)
      → player_fits (registered web r n) ≡ true
      → any_row (λ q. same_player q (registered web r n)) t.players ≡ false
      → named r.username t ≡ none
      → IsSound t
      → web.verify r.password (web.hash n r.password) ≡ true
      → (with_session
          (login_player web (login_of r))
          (open_session (with_player web (registered web r n) t) m)).0
        ≡ ok (answer web (registered web r n) (m + 1 + 1))
  returns r n m t f k e h v =
      let p = registered web r n in
      let t' = with_player web p t in
      let q = login_of r in
      let x = with_session (login_player web q) (open_session t' m) in
      (subst (λ b. LogsInAs web m t' p b false x.0 x.1.saved) v
        (subst (λ o. LogsInOn web q m t' o x.0 x.1.saved) (named_new p t e)
          (login_player-LogsIn web q t' m (registered-IsSound r n t f k h)))).0

  -- On sound tables, after a registration that returned, a login with its username and password
  -- returns for the same player, and the token that it answers names the player up to the second
  -- in which it expires; for password hashes that the password verifies against, and `jose` as
  -- documented for the algorithms of HMAC and a key that it takes for them.
  pub login_player-register_player :
      (laws : JwtLaws web.jwt) (r : PlayerRegisterRequest) (t : Tables) (n m at : ℕ)
      (a : PlayerLoginResponse Token)
      → IsSound t
      → web.verify r.password (web.hash n r.password) ≡ true
      → (with_session (register_player web r) (open_session t n)).0 ≡ ok a
      → at / ticks_per_sec ≤ expiry web.jwt (db.now (m + 1 + 1))
      → (b : PlayerLoginResponse Token) × ((with_session
            (login_player web (login_of r))
            (open_session (with_session (register_player web r) (open_session t n)).1.saved m)).0
          ≡ ok b)
        × (b.player_id ≡ a.player_id)
        × (extract_player_id web.jwt b.access_token at ≡ ok a.player_id)
  login_player-register_player laws r t n m at a h v e live =
      let p = registered web r n in
      let t' = (with_session (register_player web r) (open_session t n)).1.saved in
      let (ho, hf, hk, ha, ht) =
        accepted r n t t' a (is_valid r) (named r.username t) (player_fits p)
          (any_row (λ q. same_player q p) t.players)
          (subst (λ x. Registers web r n t x t') e (register_player-Registers web r t n h)) in
      (
        answer web p (m + 1 + 1),
        rw ht (returns r n m t hf hk ho h v),
        ap (λ x. x.player_id) (sym ha),
        extract_player_id-create_access_token web.jwt laws (db.uuid_text p.id) (db.now (m + 1 + 1))
              at live
            ∙ ap (λ x. ok x.player_id) (sym ha),
      )
