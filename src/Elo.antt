-- ===== src/Elo.antt =====
-- The rating changes of a finished game: `_calculate_elo_changes` of app/core/game_engine.py.
-- Python's floats, with `math.pow` and `round`, are a parameter. A difference of ratings at which
-- `math.pow` overflows (more than 120,000) is out of the model.
pub mod Bounds
use mathlib.Core.Option
use game_backend.Base.{
  String, Option, none, some, List, [], ◌∷◌, ℤ, pos, ◌+ℤ◌, ◌-ℤ◌, str_eq, Dict, lookup, insert,
  if◌then◌else◌,
}
use game_backend.Game.{ActiveGame}

pub record Floats (F : Type 0) : Type 0 where
  pub of_int : ℤ → F
  pub half : F
  pub add : F → F → F
  pub sub : F → F → F
  pub mul : F → F → F
  pub div : F → F → F
  pub pow : F → F → F
  pub round : F → ℤ

module _ {F : Type 0} (floats : Floats F) where
  open floats use {of_int, half, add, sub, mul, div, pow, round}

  abbrev pub one : F
  one = of_int (pos 1)

  abbrev pub zero_score : F
  zero_score = of_int (pos 0)

  -- `1.0 / (1.0 + math.pow(10, (other - own) / 400.0))`
  unfoldable pub expected : ℤ → ℤ → F
  expected own other =
      div one (add one (pow (of_int (pos 10)) (div (of_int (other -ℤ own)) (of_int (pos 400)))))

  abbrev pub k_factor : F
  k_factor = of_int (pos 32)

  unfoldable pub delta : F → F → ℤ
  delta actual expected_score = round (mul k_factor (sub actual expected_score))

  -- The actual scores of the two players.
  unfoldable pub actual_scores : String → String → Option String → F × F
  actual_scores p1 p2 none = (half, half)
  actual_scores p1 p2 (some winner) =
      if str_eq winner p1
      then (one, zero_score)
      else if str_eq winner p2
      then (zero_score, one)
      else (half, half)

  abbrev pub rating : String → ActiveGame → ℤ
  rating pid g = Option.get_or (lookup pid g.player_elos) (pos 1000)

  abbrev pub delta_1 : String → String → ActiveGame → ℤ
  delta_1 p1 p2 g = delta (actual_scores p1 p2 g.winner_id).0 (expected (rating p1 g) (rating p2 g))

  abbrev pub delta_2 : String → String → ActiveGame → ℤ
  delta_2 p1 p2 g =
      delta (actual_scores p1 p2 g.winner_id).1 (sub one (expected (rating p1 g) (rating p2 g)))

  -- The new rating and its change, for each of the two players.
  unfoldable pub elo_changes : List String → ActiveGame → Dict (ℤ × ℤ)
  elo_changes (p1 ∷ p2 ∷ _) g =
      insert p2 (rating p2 g +ℤ delta_2 p1 p2 g, delta_2 p1 p2 g)
        (insert p1 (rating p1 g +ℤ delta_1 p1 p2 g, delta_1 p1 p2 g) [])
  elo_changes _ g = []

  unfoldable pub calculate_elo_changes : ActiveGame → Dict (ℤ × ℤ)
  calculate_elo_changes g = elo_changes g.player_ids g
