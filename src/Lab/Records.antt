-- ===== src/Lab/Records.antt =====
-- The records of internal/lab/lab.go, over a type D of decimals. Instants and durations are
-- nanoseconds; the name of an experiment, whose characters the code looks at, is a list of code
-- points (JSON decoding leaves no invalid UTF-8).
use mfd.Prelude.Int.{ℤ}
use mfd.Prelude.{Option, String, List, ℕ}

abbrev pub Text : Type 0
Text = List ℕ

pub record Position (D : Type 0) : Type 0 where
  pub symbol : String
  pub currency : String
  pub units : D
  pub cost : D

pub record Quote (D : Type 0) : Type 0 where
  pub symbol : String
  pub currency : String
  pub bid : D
  pub ask : D
  pub at : ℤ

pub record Sleeve (D : Type 0) : Type 0 where
  pub id : String
  pub cash : D
  pub strategy : String
  pub positions : List (Position D)

-- Named `Snapshot` in the source, as the broker's is.
pub record SleeveSnapshot (D : Type 0) : Type 0 where
  pub sleeve : String
  pub at : ℤ
  pub currency : String
  pub cash : D
  pub market_value : D
  pub equity : D
  pub liquidation_equity : D
  pub unrealized_pnl : D
  pub positions : List (Position D)
  pub quotes : List (Quote D)

-- `final_shock_bps` is a map: nil, or its entries in the order in which a `range` meets them.
pub record Experiment : Type 0 where
  pub name : Text
  pub final_shock_bps : Option (List (String × ℤ))
  pub review_threshold_bps : ℤ
