-- ===== src/Elo/Bounds.antt =====
-- Bounds on the rating changes (`_calculate_elo_changes` in app/core/game_engine.py), from what
-- IEEE arithmetic promises: the operations are monotone, and small integers are exact.
use game_backend.Base.{
  ℕ, ◌≡◌, ◌≢◌, String, some, [], ◌∷◌, arith, ℤ, pos, negsuc, ◌+ℤ◌, ◌-ℤ◌, ◌*ℤ◌, ◌≤ℤ◌, ◌≤◌, pos_part,
  neg_part, str_eq_refl, str_eq_ne, sym, ◌∙◌, lookup, lookup-insert_self, lookup-insert_ne,
  int_laws,
}
use game_backend.Game.{ActiveGame}
use game_backend.Elo.{
  Floats, one, zero_score, expected, delta, actual_scores, rating, elo_changes,
  calculate_elo_changes,
}

-- Integers that floats hold exactly, far inside the 53 bits of a float.
abbrev pub IsSmall : ℤ → Type 0
IsSmall m = (pos_part m ≤ 1000) × (neg_part m ≤ 1000)

-- `le` is the order of the floats in play; no NaN is among them.
pub record FloatLaws {F : Type 0} (f : Floats F) (le : F → F → Type 0) : Type 0 where
  pub le_refl : (a : F) → le a a
  pub le_trans : (a b c : F) → le a b → le b c → le a c
  pub of_int_mono : (m n : ℤ) → m ≤ℤ n → le (f.of_int m) (f.of_int n)
  pub half_bounds : le (f.of_int (pos 0)) f.half × le f.half (f.of_int (pos 1))
  pub add_mono : (a b c : F) → le b c → le (f.add a b) (f.add a c)
  pub one_add :
      (a : F) → le (f.of_int (pos 0)) a → le (f.of_int (pos 1)) (f.add (f.of_int (pos 1)) a)
  pub sub_mono : (a b c d : F) → le a b → le c d → le (f.sub a d) (f.sub b c)
  pub mul_mono :
      (n : ℕ) (a b : F) → le a b → le (f.mul (f.of_int (pos n)) a) (f.mul (f.of_int (pos n)) b)
  pub div_mono :
      (n : ℕ) (a b : F) → le a b → le (f.div a (f.of_int (pos n))) (f.div b (f.of_int (pos n)))
  pub div_anti :
      (a b : F)
      → le (f.of_int (pos 1)) a
      → le a b
      → le (f.div (f.of_int (pos 1)) b) (f.div (f.of_int (pos 1)) a)
  pub div_unit :
      (a : F)
      → le (f.of_int (pos 1)) a
      → le (f.of_int (pos 0)) (f.div (f.of_int (pos 1)) a)
        × le (f.div (f.of_int (pos 1)) a) (f.of_int (pos 1))
  pub pow_nonneg : (a b : F) → le (f.of_int (pos 0)) a → le (f.of_int (pos 0)) (f.pow a b)
  pub pow_mono : (a b c : F) → le (f.of_int (pos 1)) a → le b c → le (f.pow a b) (f.pow a c)
  pub round_mono : (a b : F) → le a b → f.round a ≤ℤ f.round b
  pub sub_exact :
      (m n : ℤ) → IsSmall m → IsSmall n → f.sub (f.of_int m) (f.of_int n) ≡ f.of_int (m -ℤ n)
  pub mul_exact :
      (m n : ℤ) → IsSmall m → IsSmall n → f.mul (f.of_int m) (f.of_int n) ≡ f.of_int (m *ℤ n)
  pub round_exact : (m : ℤ) → IsSmall m → f.round (f.of_int m) ≡ m

module _ {F : Type 0} (f : Floats F) (le : F → F → Type 0) (laws : FloatLaws f le) where
  open laws use {
    le_refl, le_trans, of_int_mono, add_mono, one_add, sub_mono, mul_mono, div_mono, div_anti,
    div_unit, pow_nonneg, pow_mono, round_mono, sub_exact, mul_exact, round_exact,
  }

  -- An expected score lies between 0 and 1.
  expected_bounds :
      (own other : ℤ) → le (zero_score f) (expected f own other) × le (expected f own other) (one f)
  unfolding expected
  expected_bounds own other =
      div_unit _ (one_add _ (pow_nonneg _ _ (of_int_mono _ _ (omega arith))))

  -- It falls as the opponent's rating rises.
  expected_anti : (own a b : ℤ) → a ≤ℤ b → le (expected f own b) (expected f own a)
  unfolding expected
  expected_anti own a b h =
      div_anti _ _ (one_add _ (pow_nonneg _ _ (of_int_mono _ _ (omega arith)))) (
        add_mono _ _ _ (
          pow_mono _ _ _ (of_int_mono _ _ (omega arith))
            (div_mono 400 _ _ (of_int_mono _ _ (omega int_laws)))))

  delta_mono : (a b c d : F) → le a b → le c d → delta f a d ≤ℤ delta f b c
  unfolding delta
  delta_mono a b c d h k = round_mono _ _ (mul_mono 32 _ _ (sub_mono a b c d h k))

  delta_exact :
      (m n : ℤ)
      → IsSmall m
      → IsSmall n
      → IsSmall (m -ℤ n)
      → IsSmall (pos 32 *ℤ (m -ℤ n))
      → delta f (f.of_int m) (f.of_int n) ≡ pos 32 *ℤ (m -ℤ n)
  unfolding delta
  delta_exact m n hm hn hd hp =
      rw (sub_exact m n hm hn, delta)
        (rw (mul_exact (pos 32) (m -ℤ n) (omega arith) hd) (round_exact _ hp))

  delta_win :
      (e : F)
      → le (zero_score f) e
      → le e (one f)
      → (pos 0 ≤ℤ delta f (one f) e) × (delta f (one f) e ≤ℤ pos 32)
  unfolding ◌-ℤ◌ ◌*ℤ◌
  delta_win e lo hi = (
    rw (delta_exact (pos 1) (pos 1) (omega arith) (omega arith) (omega arith) (omega arith)) at
        (delta_mono (one f) (one f) e (one f) (le_refl _) hi),
    rw (delta_exact (pos 1) (pos 0) (omega arith) (omega arith) (omega arith) (omega arith)) at
        (delta_mono (one f) (one f) (zero_score f) e (le_refl _) lo),
  )

  delta_loss :
      (e : F)
      → le (zero_score f) e
      → le e (one f)
      → (negsuc 31 ≤ℤ delta f (zero_score f) e) × (delta f (zero_score f) e ≤ℤ pos 0)
  unfolding ◌-ℤ◌ ◌*ℤ◌
  delta_loss e lo hi = (
    rw (delta_exact (pos 0) (pos 1) (omega arith) (omega arith) (omega arith) (omega arith)) at
        (delta_mono (zero_score f) (zero_score f) e (one f) (le_refl _) hi),
    rw (delta_exact (pos 0) (pos 0) (omega arith) (omega arith) (omega arith) (omega arith)) at
        (delta_mono (zero_score f) (zero_score f) (zero_score f) e (le_refl _) lo),
  )

  module _ (p q : String) (g : ActiveGame) (players : g.player_ids ≡ p ∷ q ∷ [])
      (distinct : p ≢ q) where
    complement_bounds :
        (e : F)
        → le (zero_score f) e
        → le e (one f)
        → le (zero_score f) (f.sub (one f) e) × le (f.sub (one f) e) (one f)
    unfolding ◌-ℤ◌
    complement_bounds e lo hi = (
      rw (sub_exact (pos 1) (pos 1) (omega arith) (omega arith)) at
          (sub_mono (one f) (one f) e (one f) (le_refl _) hi),
      rw (sub_exact (pos 1) (pos 0) (omega arith) (omega arith)) at
          (sub_mono (one f) (one f) (zero_score f) e (le_refl _) lo),
    )

    -- If the first of two players has won, the first player's rating rises by 0 to 32 points and
    -- the second player's falls by 0 to 32, and the new ratings are the old ones plus the
    -- changes; for floats that are monotone and exact on small integers. The bound is that of the
    -- K-factor 32, which the code uses for every player; the K-factor 48 that the module's
    -- description promises for the first 30 games is not in the code.
    pub elo_changes_win :
        g.winner_id ≡ some p
        → (d1 d2 : ℤ) × (lookup p (calculate_elo_changes f g) ≡ some (rating f p g +ℤ d1, d1))
          × (lookup q (calculate_elo_changes f g) ≡ some (rating f q g +ℤ d2, d2))
          × ((pos 0 ≤ℤ d1) × (d1 ≤ℤ pos 32))
          × ((negsuc 31 ≤ℤ d2) × (d2 ≤ℤ pos 0))
    unfolding calculate_elo_changes elo_changes actual_scores
    elo_changes_win won =
        let e : F = expected f (rating f p g) (rating f q g) in
        let bounds = expected_bounds (rating f p g) (rating f q g) in
        let other = complement_bounds e bounds.0 bounds.1 in
        (
          delta f (one f) e,
          delta f (zero_score f) (f.sub (one f) e),
          rw (players, won, str_eq_refl)
              (lookup-insert_ne q p _ _ distinct ∙ lookup-insert_self p _ []),
          rw (players, won, str_eq_refl) (lookup-insert_self q _ _),
          delta_win e bounds.0 bounds.1,
          delta_loss _ other.0 other.1,
        )

    -- If the second of two players has won, the first player's rating falls by 0 to 32 points and
    -- the second player's rises by 0 to 32, and the new ratings are the old ones plus the
    -- changes; for floats that are monotone and exact on small integers. The bound is that of the
    -- K-factor 32, which the code uses for every player; the K-factor 48 that the module's
    -- description promises for the first 30 games is not in the code.
    pub elo_changes_loss :
        g.winner_id ≡ some q
        → (d1 d2 : ℤ) × (lookup p (calculate_elo_changes f g) ≡ some (rating f p g +ℤ d1, d1))
          × (lookup q (calculate_elo_changes f g) ≡ some (rating f q g +ℤ d2, d2))
          × ((negsuc 31 ≤ℤ d1) × (d1 ≤ℤ pos 0))
          × ((pos 0 ≤ℤ d2) × (d2 ≤ℤ pos 32))
    unfolding calculate_elo_changes elo_changes actual_scores
    elo_changes_loss won =
        let e : F = expected f (rating f p g) (rating f q g) in
        let bounds = expected_bounds (rating f p g) (rating f q g) in
        let other = complement_bounds e bounds.0 bounds.1 in
        (
          delta f (zero_score f) e,
          delta f (one f) (f.sub (one f) e),
          rw (players, won, str_eq_ne q p (λ h. distinct (sym h)), str_eq_refl)
              (lookup-insert_ne q p _ _ distinct ∙ lookup-insert_self p _ []),
          rw (players, won, str_eq_ne q p (λ h. distinct (sym h)), str_eq_refl)
              (lookup-insert_self q _ _),
          delta_loss e bounds.0 bounds.1,
          delta_win _ other.0 other.1,
        )

  -- For one actual score, the change of a player's rating is at least as great against a stronger
  -- opponent as against a weaker one; for floats that are monotone.
  pub delta_upset :
      (actual : F) (own a b : ℤ)
      → a ≤ℤ b
      → delta f actual (expected f own a) ≤ℤ delta f actual (expected f own b)
  delta_upset actual own a b h =
      delta_mono actual actual (expected f own b) (expected f own a) (le_refl _)
        (expected_anti own a b h)
