-- ===== src/Gateway/Entry.antt =====
-- The first step of the WebSocket endpoint (app/api/ws_routes.py): the token is checked before
-- anything else happens.
use game_backend.Base.{
  ℕ, ◌/◌, ◌≡◌, refl, String, [], ok, raise, Action, pure, ◌>>◌, leb, leb→le, Bool-cases, inl, inr,
  arith, if◌then◌else◌,
}
use game_backend.Schemas.{ErrorCode}
use game_backend.Env.{Env, ticks_per_sec}
use game_backend.Auth.{Jwt, create_access_token, extract_player_id}
use game_backend.Auth.Tokens.{
  JwtLaws, expiry, extract_player_id-create_access_token, extract_player_id_expired,
}
use game_backend.World.{World}
use game_backend.Gateway.{open_connection}

-- How the endpoint begins: with an error reply and a close code, or with a player.
pub data Handshake : Type 0 where
  refused : ErrorCode → ℕ → Handshake
  accepted : String → Handshake

module _ {Token S F : Type 0} (jwt : Jwt Token) (env : Env S F) where
  -- With the token, the new connection's identifier and the time of the check.
  unfoldable pub accept_connection : Token → String → ℕ → Action (World S) Handshake
  accept_connection token c at = elim (extract_player_id jwt token at) [
    | raise e ↦ pure (refused ErrorCode.auth_failed 1008)
    | ok pid ↦ open_connection env pid c >> pure (accepted pid)
  ]

  -- A client that connects with a token of this server is accepted as the player of the token up
  -- to the second in which the token expires; later it is answered the error AUTH_FAILED and
  -- closed with the code 1008, and the instance is unchanged; for `jose` as documented for the
  -- algorithms of HMAC and a key that it takes for them.
  pub accept_connection-create_access_token :
      (laws : JwtLaws jwt) (pid c : String) (made at : ℕ) (w : World S)
      → accept_connection (create_access_token jwt pid [] made) c at w ≡ (
          if leb (at / ticks_per_sec) (expiry jwt made)
          then (open_connection env pid c >> pure (accepted pid)) w
          else (ok (refused ErrorCode.auth_failed 1008), w))
  unfolding accept_connection
  accept_connection-create_access_token laws pid c made at w =
      elim (Bool-cases (leb (at / ticks_per_sec) (expiry jwt made))) [
        | inl b ↦
            rw
              (
                b,
                extract_player_id-create_access_token jwt laws pid made at (leb→le _ _ b),
                accept_connection,
              )
              refl
        | inr b ↦
            rw
              (
                b,
                extract_player_id_expired jwt laws pid made at (ground (arith, b)),
                accept_connection,
              )
              refl
      ]
