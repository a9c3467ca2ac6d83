-- ===== src/Constants/Keys.antt =====
-- The Redis keys of rooms (`RedisKey` of app/utils/constants.py) are apart.
use Prim.Native.String.{◌++◌, count}
use text.Mathlib.TextLemmas.{length-append, append_cancel_left, append_cancel_right}
use game_backend.Base.{◌≡◌, ◌≢◌, ap, String, arith}
use game_backend.Constants.{room_key, room_state_key}

pub room_state_key_inj : (a b : String) → room_state_key a ≡ room_state_key b → a ≡ b
unfolding room_state_key
room_state_key_inj a b e =
    append_cancel_right a b ":state" (append_cancel_left "room:" (a ++ ":state") (b ++ ":state") e)

pub room_key≢room_state_key : (a : String) → room_key a ≢ room_state_key a
unfolding room_key room_state_key
room_key≢room_state_key a e =
    omega
      (arith, length-append a ":state", ap count (append_cancel_left "room:" a (a ++ ":state") e))
