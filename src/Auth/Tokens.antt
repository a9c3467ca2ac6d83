-- ===== src/Auth/Tokens.antt =====
-- Tokens that are made and read back (app/utils/auth.py).
use game_backend.Base.{
  ℕ, ◌+◌, ◌*◌, ◌/◌, ◌≤◌, ◌≡◌, refl, String, none, some, [], ◌∷◌, mem, true, str, pos, Dict, lookup,
  update, insert, ok, Json, int, str_eq, auth_error, raise, ◌<◌,
}
use game_backend.Env.{ticks_per_sec}
use game_backend.Auth.{Jwt, seconds, create_access_token, decode_token, extract_player_id}

-- The claims of a token of this server without extra ones.
abbrev pub server_claims : String → ℕ → ℕ → Dict Json
server_claims sub iat exp = ("sub", str sub) ∷ ("iat", int (pos iat)) ∷ ("exp", int (pos exp)) ∷ []

-- What `jose` documents for the settings, where the algorithm is one of HMAC and the key is a text
-- that it takes for HMAC, thus no PEM certificate: a payload of a text `sub` and integers `iat`
-- and `exp`, which has no other claim to check, is read back with the key and the algorithm that
-- signed it, up to the second in `exp`, and refused later.
pub record JwtLaws {Token : Type 0} (jwt : Jwt Token) : Type 0 where
  pub algorithm : mem jwt.jwt_algorithm ("HS256" ∷ "HS384" ∷ "HS512" ∷ []) ≡ true
  pub decode-encode :
      (sub : String) (iat exp at : ℕ)
      → at / ticks_per_sec ≤ exp
      → jwt.decode
          (jwt.encode (server_claims sub iat exp) jwt.jwt_secret_key jwt.jwt_algorithm)
          jwt.jwt_secret_key
          jwt.jwt_algorithm
          at
        ≡ some (server_claims sub iat exp)
  pub expired :
      (sub : String) (iat exp at : ℕ)
      → exp < at / ticks_per_sec
      → jwt.decode
          (jwt.encode (server_claims sub iat exp) jwt.jwt_secret_key jwt.jwt_algorithm)
          jwt.jwt_secret_key
          jwt.jwt_algorithm
          at
        ≡ none

-- The last second at which a token is good.
abbrev pub expiry : {Token : Type 0} → Jwt Token → ℕ → ℕ
expiry jwt made = (made + jwt.jwt_expiry_minutes * 60 * ticks_per_sec) / ticks_per_sec

module _ {Token : Type 0} (jwt : Jwt Token) (laws : JwtLaws jwt) where
  pub extract_player_id-create_access_token :
      (pid : String) (made at : ℕ)
      → at / ticks_per_sec ≤ expiry jwt made
      → extract_player_id jwt (create_access_token jwt pid [] made) at ≡ ok pid
  unfolding extract_player_id decode_token create_access_token lookup insert update str_eq
  extract_player_id-create_access_token pid made at h =
      rw
        (
          laws.decode-encode pid (seconds jwt made) (expiry jwt made) at h,
          extract_player_id,
          decode_token,
          create_access_token,
        )
        refl

  pub extract_player_id_expired :
      (pid : String) (made at : ℕ)
      → expiry jwt made < at / ticks_per_sec
      → extract_player_id jwt (create_access_token jwt pid [] made) at ≡ raise auth_error
  unfolding extract_player_id decode_token create_access_token update
  extract_player_id_expired pid made at h =
      rw
        (
          laws.expired pid (seconds jwt made) (expiry jwt made) at h,
          extract_player_id,
          decode_token,
          create_access_token,
        )
        refl
