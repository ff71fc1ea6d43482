-- ===== src/Decimal/Whole.antt =====
-- The laws of Decimal can hold: whole numbers satisfy them. The witnesses are evaluated here.
use mfd.Prelude.{suc, ◌+◌, ◌/◌, ◌≤◌, ◌≡◌, refl, true, arith, ◌&&◌}
use mfd.Prelude.Int.{
  +ℤ_parts, ℤ, pos, negsuc, pos_part, neg_part, ◌+ℤ◌, ◌-ℤ◌, ◌*ℤ◌, ltb_ℤ, leb_ℤ, int_laws,
}
use native.Mathlib.Nat.{mul-le-mul_left}
use mfd.Decimal.{Decimals, HasLaws}

-- Rounds down; no law speaks of a quotient that is not exact.
unfoldable pub div_ℤ : ℤ → ℤ → ℤ
div_ℤ (pos a) b = pos (a / pos_part b)
div_ℤ (negsuc a) b = negsuc (a / pos_part b)

abbrev pub whole : Decimals
whole = record {
  D = ℤ;
  zero = pos 0;
  from_int = λ a. a;
  add = λ a b. a +ℤ b;
  sub = λ a b. a -ℤ b;
  mul = λ a b. a *ℤ b;
  div = div_ℤ;
  abs = λ a. pos (pos_part a + neg_part a);
  round = λ _ a. a;
  round_up = λ _ a. a;
  is_zero = λ a. leb_ℤ a (pos 0) && leb_ℤ (pos 0) a;
  is_negative = λ a. ltb_ℤ a (pos 0);
  is_positive = λ a. ltb_ℤ (pos 0) a;
  less_than = λ a b. ltb_ℤ a b;
  less_than_or_equal = λ a b. leb_ℤ a b;
  greater_than = λ a b. ltb_ℤ b a;
  greater_than_or_equal = λ a b. leb_ℤ b a;
}

*ℤ_mono : (a b c : ℤ) → ltb_ℤ (pos 0) a ≡ true → leb_ℤ b c ≡ true → leb_ℤ (a *ℤ b) (a *ℤ c) ≡ true
unfolding ◌*ℤ◌
*ℤ_mono (pos a) (pos b) (pos c) p h =
    let le : b ≤ c = ground arith in ground (arith, mul-le-mul_left a le)
*ℤ_mono (pos a) (pos b) (negsuc c) p h = grind arith
*ℤ_mono (pos a) (negsuc b) (pos c) p h = grind arith
*ℤ_mono (pos a) (negsuc b) (negsuc c) p h =
    let le : suc c ≤ suc b = ground arith in ground (arith, mul-le-mul_left a le)
*ℤ_mono (negsuc a) b c p h = ground arith

le-add_ℤ : (a b c : ℤ) → leb_ℤ a b ≡ true → leb_ℤ (a +ℤ c) (b +ℤ c) ≡ true
le-add_ℤ a b c h = grind int_laws

pub whole-HasLaws : HasLaws whole
whole-HasLaws = record {
  add_comm = λ a b. omega int_laws;
  add_assoc = λ a b c. omega int_laws;
  add-zero = λ a. omega int_laws;
  sub-add = λ a b. omega int_laws;
  add-sub = λ a b. omega int_laws;
  le_refl = λ a. ground arith;
  le_trans = λ a b c h k. ground arith;
  le_total = λ a b. ground arith;
  le-add = λ a b c h. le-add_ℤ a b c h;
  le_cancel = λ a b c h. ground (arith, +ℤ_parts a c, +ℤ_parts b c);
  le-mul = λ a b c p h. *ℤ_mono a b c p h;
  less_than-not = λ a b. ground arith;
  greater_than-not = λ a b. ground arith;
  greater_than_or_equal_lem = λ a b. refl;
  is_negative_lem = λ a. refl;
  is_positive_lem = λ a. refl;
}
