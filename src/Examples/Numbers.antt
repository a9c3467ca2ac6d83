-- ===== src/Examples/Numbers.antt =====
-- Whole numbers in the place of floats, and why the laws of floats hold of them: a quotient is
-- taken by 1 alone, and any other is 0.
use game_backend.Base.{
  ℕ, ◌+◌, ◌*◌, ◌≤◌, refl, arith, ℤ, pos, negsuc, pos_part, neg_part, ◌+ℤ◌, ◌-ℤ◌, ◌*ℤ◌, ◌≤ℤ◌,
  int_laws, ◌==◌, if◌then◌else◌,
}
use game_backend.Elo.{Floats}
use game_backend.Elo.Bounds.{FloatLaws}

abbrev pub quotient : ℤ → ℤ → ℤ
quotient a (pos n) = if n == 1 then a else pos 0
quotient a (negsuc n) = pos 0

abbrev pub whole : Floats ℤ
whole = record {
  of_int = λ a. a;
  half = pos 0;
  add = ◌+ℤ◌;
  sub = ◌-ℤ◌;
  mul = ◌*ℤ◌;
  div = quotient;
  pow = λ a b. pos 0;
  round = λ a. a;
}

times_mono : (n a b : ℕ) → a ≤ b → n * a ≤ n * b
times_mono n a b h = grind arith

scale_mono : (n : ℕ) (a b : ℤ) → a ≤ℤ b → pos n *ℤ a ≤ℤ pos n *ℤ b
unfolding ◌*ℤ◌
scale_mono n a b h =
    grind (arith, times_mono n (pos_part a + neg_part b) (pos_part b + neg_part a) h)

part_anti : (a b : ℤ) → pos 1 ≤ℤ a → a ≤ℤ b → quotient (pos 1) b ≤ℤ quotient (pos 1) a
part_anti a b h k = ground arith

part_unit : (a : ℤ) → pos 1 ≤ℤ a → (pos 0 ≤ℤ quotient (pos 1) a) × (quotient (pos 1) a ≤ℤ pos 1)
part_unit a h = ground arith

pub whole-laws : FloatLaws whole ◌≤ℤ◌
whole-laws = record {
  le_refl = λ a. omega arith;
  le_trans = λ a b c h k. omega arith;
  of_int_mono = λ m n h. h;
  half_bounds = (omega arith, omega arith);
  add_mono = λ a b c h. omega int_laws;
  one_add = λ a h. omega int_laws;
  sub_mono = λ a b c d h k. omega int_laws;
  mul_mono = scale_mono;
  div_mono = λ n a b h. ground arith;
  div_anti = part_anti;
  div_unit = part_unit;
  pow_nonneg = λ a b h. omega arith;
  pow_mono = λ a b c h k. omega arith;
  round_mono = λ a b h. h;
  sub_exact = λ m n h k. refl;
  mul_exact = λ m n h k. refl;
  round_exact = λ m h. refl;
}
