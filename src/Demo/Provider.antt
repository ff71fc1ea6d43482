-- ===== src/Demo/Provider.antt =====
-- What internal/etoro's Demo client answers, as evaluateDemo (internal/platform/demo_strategy.go)
-- asks it: the records of internal/etoro/trading.go and client.go that it reads.
use mfd.Prelude.{ℕ, String, Bool, Option, List}
use mfd.Demo.Records.{Time, Bytes}

-- A value where the error is nil.
pub record Reply (A : Type 0) : Type 0 where
  pub raw : Bytes
  pub result : Option A

-- etoro.Instrument: one holding.
pub record Instrument (D : Type 0) : Type 0 where
  pub instrument_id : ℕ
  pub asset_currency : String
  pub net_units : D
  pub exposure_usd : D
  pub pnl : D
  pub liquidation_usd : D
  pub average_leverage : D

-- etoro.Snapshot.
pub record Snapshot (D : Type 0) : Type 0 where
  pub provider_at : Time
  pub provider_time_assumed_utc : Bool
  pub currency : String
  pub available_cash : D
  pub total_value : D
  pub current_pnl : D
  pub instruments : List (Instrument D)
  pub mirror_count : ℕ

pub record MarketInstrument : Type 0 where
  pub id : ℕ
  pub symbol : String
  pub tradable : Bool
  pub buyable : Bool

pub record MarketRate (D : Type 0) : Type 0 where
  pub instrument_id : ℕ
  pub bid : D
  pub ask : D
  pub at : Time
  pub time_assumed_utc : Bool
  pub quote_type : String

pub record TradingEligibility (D : Type 0) : Type 0 where
  pub instrument_id : ℕ
  pub symbol : String
  pub can_open : Bool
  pub min_exposure : D
  pub min_position_amount : D
  pub real_long_unlevered : Bool

-- The switch on `cost.Type`.
pub data CostType : Type 0 where
  markup market_spread transaction_fee sdrt overnight_fee over_weekend_fee : CostType
  other_cost : String → CostType

pub record CostItem (D : Type 0) : Type 0 where
  pub type : CostType
  pub currency : String
  pub value : D

pub record TradingCosts (D : Type 0) : Type 0 where
  pub instrument_id : ℕ
  pub updated_at : Time
  pub items : List (CostItem D)

pub record DemoBook : Type 0 where
  pub open_position_count : ℕ
  pub pending_order_count : ℕ

-- One evaluation's client, with what each of its requests is answered.
pub record Provider (D : Type 0) : Type 0 where
  pub fetch_aggregate : Reply (Snapshot D)
  pub fetch_demo_book : Reply DemoBook
  pub find_instrument : String → Reply MarketInstrument
  pub fetch_rate : ℕ → Reply (MarketRate D)
  pub fetch_demo_eligibility : ℕ → Reply (TradingEligibility D)
  pub fetch_demo_costs : ℕ → D → Reply (TradingCosts D)
