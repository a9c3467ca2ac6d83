-- ===== src/Base/Text.antt =====
-- Whole texts, compared: player, room, connection and instance identifiers, keys and tags.
use Prim.Native.String.{String}
use mathlib.Core.Path.{◌≡◌}
use mathlib.Core.Logic.{◌≢◌, ◌↔◌}
use mathlib.Core.Bool.{Bool, true, false, not}
use native.Mathlib.Omega.{arith}
use text.Mathlib.Text.{◌==◌}
use text.Mathlib.TextEquality.{eq_iff}

unfoldable pub str_eq : String → String → Bool
str_eq s t = s == t

pub str_eq_iff : (s t : String) → (str_eq s t ≡ true) ↔ (s ≡ t)
unfolding str_eq
str_eq_iff s t = eq_iff s t

pub str_eq_refl : (s : String) → str_eq s s ≡ true
str_eq_refl s = ground (arith, str_eq_iff s s)

pub str_eq_ne : (s t : String) → s ≢ t → str_eq s t ≡ false
str_eq_ne s t h = ground (arith, str_eq_iff s t)

-- `if s`, for a text: the empty one is false.
unfoldable pub is_named : String → Bool
is_named s = not (str_eq s "")

pub is_named_iff : (s : String) → (is_named s ≡ true) ↔ (s ≢ "")
unfolding is_named
is_named_iff s = (λ h e. ground (arith, str_eq_iff s ""), λ h. ground (arith, str_eq_ne s "" h))
