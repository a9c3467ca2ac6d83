-- ===== src/Examples/Ratings.antt =====
-- Runs of the theorems on rating changes.
use game_backend.Base.{◌≡◌, refl, some, arith, ℤ, pos, negsuc, ◌+ℤ◌, ◌≤ℤ◌, lookup}
use game_backend.Game.{ActiveGame}
use game_backend.Elo.{expected, delta, rating, calculate_elo_changes}
use game_backend.Elo.Bounds.{elo_changes_win, elo_changes_loss, delta_upset}
use game_backend.Play.{new_game}
use game_backend.Examples.Numbers.{whole, whole-laws}
use game_backend.Examples.Outside.{ann, bob, two_players, ann≢bob}

abbrev ann_won : ActiveGame
ann_won = record two_players { winner_id = some ann }

abbrev bob_won : ActiveGame
bob_won = record two_players { winner_id = some bob }

elo_changes_win_example :
    (d1 d2 : ℤ) × (lookup ann (calculate_elo_changes whole ann_won)
      ≡ some (rating whole ann ann_won +ℤ d1, d1))
    × (lookup bob (calculate_elo_changes whole ann_won) ≡ some (rating whole bob ann_won +ℤ d2, d2))
    × ((pos 0 ≤ℤ d1) × (d1 ≤ℤ pos 32))
    × ((negsuc 31 ≤ℤ d2) × (d2 ≤ℤ pos 0))
unfolding new_game
elo_changes_win_example = elo_changes_win whole ◌≤ℤ◌ whole-laws ann bob ann_won refl ann≢bob refl

elo_changes_loss_example :
    (d1 d2 : ℤ) × (lookup ann (calculate_elo_changes whole bob_won)
      ≡ some (rating whole ann bob_won +ℤ d1, d1))
    × (lookup bob (calculate_elo_changes whole bob_won) ≡ some (rating whole bob bob_won +ℤ d2, d2))
    × ((negsuc 31 ≤ℤ d1) × (d1 ≤ℤ pos 0))
    × ((pos 0 ≤ℤ d2) × (d2 ≤ℤ pos 32))
unfolding new_game
elo_changes_loss_example = elo_changes_loss whole ◌≤ℤ◌ whole-laws ann bob bob_won refl ann≢bob refl

delta_upset_example :
    delta whole (pos 1) (expected whole (pos 1200) (pos 1000))
    ≤ℤ delta whole (pos 1) (expected whole (pos 1200) (pos 1400))
delta_upset_example =
    delta_upset whole ◌≤ℤ◌ whole-laws (pos 1) (pos 1200) (pos 1000) (pos 1400) (omega arith)
