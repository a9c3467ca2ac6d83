-- ===== src/Base/Values.antt =====
-- The values that `orjson.loads` returns, as Python sees them.
use Prim.Native.String.{String}
use mathlib.Core.Bool.{Bool}
use mathlib.Core.Option.{Option, none, some}
use game_backend.Base.Tests.{if◌then◌else◌}
use game_backend.Base.Text.{str_eq}
use game_backend.Base.Int.{ℤ}

-- `real` is a float, given by its floor: the code compares floats with integers and no more.
mutual
  pub data Json : Type 0 where
    null : Json
    bool : Bool → Json
    int : ℤ → Json
    real : ℤ → Json
    str : String → Json
    arr : Items → Json
    obj : Fields → Json

  pub data Items : Type 0 where
    nil : Items
    cons : Json → Items → Items

  pub data Fields : Type 0 where
    end : Fields
    field : String → Json → Fields → Fields

-- `m.get(k)` of a `dict`
unfoldable pub get_field : String → Fields → Option Json
get_field k end = none
get_field k (field j v fs) = if str_eq k j then some v else get_field k fs
