-- ===== src/Decimal.antt =====
-- github.com/shopspring/decimal, as far as internal/ calls it: a record of operations, which every
-- module that computes with money takes as a parameter. Two decimals are one when they are
-- numerically equal, which is all that the program's comparisons and JSON output can see.
pub mod Order
pub mod Whole
use mfd.Prelude.{ℕ, ◌⊎◌, ◌≡◌, Bool, true, false, not}
use mfd.Prelude.Int.{ℤ}

pub record Decimals : Type 1 where
  pub D : Type 0
  -- `decimal.Zero`, `decimal.NewFromInt`.
  pub zero : D
  pub from_int : ℤ → D
  -- `Add`, `Sub`, `Mul`, `Div` (16 digits where the quotient is not exact), `Abs`.
  pub add : D → D → D
  pub sub : D → D → D
  pub mul : D → D → D
  pub div : D → D → D
  pub abs : D → D
  -- `Round`, `RoundUp`.
  pub round : ℕ → D → D
  pub round_up : ℕ → D → D
  -- `IsZero`, `IsNegative`, `IsPositive`, `LessThan` and its kin.
  pub is_zero : D → Bool
  pub is_negative : D → Bool
  pub is_positive : D → Bool
  pub less_than : D → D → Bool
  pub less_than_or_equal : D → D → Bool
  pub greater_than : D → D → Bool
  pub greater_than_or_equal : D → D → Bool

-- The order of the decimals, as the package's `LessThanOrEqual` reports it.
abbrev pub Le : (d : Decimals) → d.D → d.D → Type 0
Le d a b = d.less_than_or_equal a b ≡ true

-- What the package documents: exact sums and products, and comparisons that are those of a total
-- order which sums and products by a positive factor respect.
pub record HasLaws (d : Decimals) : Type 0 where
  pub add_comm : (a b : d.D) → d.add a b ≡ d.add b a
  pub add_assoc : (a b c : d.D) → d.add (d.add a b) c ≡ d.add a (d.add b c)
  pub add-zero : (a : d.D) → d.add a d.zero ≡ a
  pub sub-add : (a b : d.D) → d.sub (d.add a b) b ≡ a
  pub add-sub : (a b : d.D) → d.add (d.sub a b) b ≡ a
  pub le_refl : (a : d.D) → Le d a a
  pub le_trans : (a b c : d.D) → Le d a b → Le d b c → Le d a c
  pub le_total : (a b : d.D) → Le d a b ⊎ Le d b a
  pub le-add : (a b c : d.D) → Le d a b → Le d (d.add a c) (d.add b c)
  pub le_cancel : (a b c : d.D) → Le d (d.add a c) (d.add b c) → Le d a b
  pub le-mul : (a b c : d.D) → d.is_positive a ≡ true → Le d b c → Le d (d.mul a b) (d.mul a c)
  pub less_than-not : (a b : d.D) → d.less_than a b ≡ not (d.less_than_or_equal b a)
  pub greater_than-not : (a b : d.D) → d.greater_than a b ≡ not (d.less_than_or_equal a b)
  pub greater_than_or_equal_lem :
      (a b : d.D) → d.greater_than_or_equal a b ≡ d.less_than_or_equal b a
  pub is_negative_lem : (a : d.D) → d.is_negative a ≡ d.less_than a d.zero
  pub is_positive_lem : (a : d.D) → d.is_positive a ≡ d.less_than d.zero a
