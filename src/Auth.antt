-- ===== src/Auth.antt =====
-- The tokens of app/utils/auth.py. `jose`'s `jwt.encode` and `jwt.decode` are parameters, over any
-- type of tokens; `decode` is given the time at which it is called, and answers none where it
-- raises a `JWTError`. Times are counted in ticks, and written into a token in whole seconds.
pub mod Tokens
use game_backend.Base.{
  ℕ, ◌+◌, ◌*◌, ◌/◌, String, Option, none, some, [], ◌∷◌, pos, Dict, lookup, update, auth_error,
  Result, ok, raise, Json, int, str,
}
use game_backend.Env.{ticks_per_sec}

pub record Jwt (Token : Type 0) : Type 0 where
  pub encode : Dict Json → String → String → Token
  pub decode : Token → String → String → ℕ → Option (Dict Json)
  pub jwt_secret_key : String
  pub jwt_algorithm : String
  pub jwt_expiry_minutes : ℕ

module _ {Token : Type 0} (jwt : Jwt Token) where
  open jwt use {encode, decode, jwt_secret_key, jwt_algorithm, jwt_expiry_minutes}

  -- A date, as `jwt.encode` writes it.
  abbrev pub seconds : ℕ → ℕ
  seconds at = at / ticks_per_sec

  -- The claims of a token that is made at a time.
  abbrev pub claims : String → Dict Json → ℕ → Dict Json
  claims player_id extra_claims at =
      update
        (("sub", str player_id)
          ∷ ("iat", int (pos (seconds at)))
          ∷ ("exp", int (pos (seconds (at + jwt_expiry_minutes * 60 * ticks_per_sec))))
          ∷ [])
        extra_claims

  unfoldable pub create_access_token : String → Dict Json → ℕ → Token
  create_access_token player_id extra_claims at =
      encode (claims player_id extra_claims at) jwt_secret_key jwt_algorithm

  unfoldable pub decode_token : Token → ℕ → Result (Dict Json)
  decode_token token at = elim (decode token jwt_secret_key jwt_algorithm at) [
    | none ↦ raise auth_error
    | some payload ↦ elim (lookup "sub" payload) [ none ↦ raise auth_error | some sub ↦ ok payload ]
  ]

  -- `payload["sub"]`; a `decode` that returns has checked that it is a text.
  unfoldable pub extract_player_id : Token → ℕ → Result String
  extract_player_id token at = elim (decode_token token at) [
    | raise e ↦ raise e
    | ok payload ↦ elim (lookup "sub" payload) [ some (str pid) ↦ ok pid | _ ↦ raise auth_error ]
  ]
