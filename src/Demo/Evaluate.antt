-- ===== src/Demo/Evaluate.antt =====
-- evaluateDemo (internal/platform/demo_strategy.go): the checks, in their order, and the plan. What it
-- reads from outside is an argument: the client's answers, the three clocks, the account number that
-- JSON decoding finds in the aggregate, the keyed fingerprint and the digest.
use mfd.Demo.Reads.{second}
use mfd.Demo.Provider.{CostType, MarketRate, CostItem}
use mfd.Prelude.Int.{negsuc, leb_ℤ, ◌-ℤ◌, saturate, ℤ, pos}
use mfd.Decimal.{Decimals}
use mfd.Demo.Records.{DemoEvaluation, Bytes, Time}
use mfd.Prelude.{
  none, some, ok, err, ◌==◌, false, ◌++◌, length, Result, [], ◌*◌, ◌&&◌, ◌∷◌, true, Option, Bool,
  if◌then◌else◌, List, ℕ, String,
}
use text.Mathlib.Text.{◌==◌ as str_eq}

-- `recentProviderTime`.
abbrev pub recent_provider_time : Time → Time → ℤ → Bool
recent_provider_time at now max_age =
    let age = saturate (now -ℤ at) in leb_ℤ (negsuc 9_999_999_999) age && leb_ℤ age max_age

abbrev pub seconds : ℕ → ℤ
seconds n = pos (n * second)

-- `demoEvaluation.check`: on, with the check noted, or the evaluation as it is returned.
abbrev pub or_reason : String → String → String
or_reason reason detail = if str_eq reason "" then detail else reason

abbrev pub note_check : {D : Type 0} → String → Bool → String → DemoEvaluation D → DemoEvaluation D
note_check name passed detail v = record v {
  checks = v.checks ++ record { name = name; passed = passed; detail = detail } ∷ [];
}

abbrev pub fail_check : {D : Type 0} → String → String → DemoEvaluation D → DemoEvaluation D
fail_check name detail v = record (note_check name false detail v) {
  reason = or_reason v.reason detail;
}

unfoldable pub check :
    {D : Type 0}
    → String
    → Bool
    → String
    → DemoEvaluation D
    → Result (DemoEvaluation D) (DemoEvaluation D)
check name true detail v = ok (note_check name true detail v)
check name false detail v = err (fail_check name detail v)

-- `demoEvaluation.capture`.
unfoldable pub capture : {D : Type 0} → String → Bytes → DemoEvaluation D → DemoEvaluation D
capture source raw v =
    if length raw == 0
    then v
    else record v { artifacts = v.artifacts ++ record { source = source; raw = raw } ∷ [] }

-- A check that an answer came, and the answer.
unfoldable pub check_some :
    {D A : Type 0}
    → String
    → Option A
    → String
    → DemoEvaluation D
    → Result (DemoEvaluation D) (DemoEvaluation D × A)
check_some name none detail v = err (fail_check name detail v)
check_some name (some a) detail v = ok (note_check name true detail v, a)

module _ (d : Decimals) where
  abbrev pub demo_amount : d.D
  demo_amount = d.from_int (pos 100)

  abbrev pub demo_minimum_cash : d.D
  demo_minimum_cash = d.from_int (pos 500)

  abbrev pub demo_cost_cap : d.D
  demo_cost_cap = d.from_int (pos 2)

  abbrev pub demo_spread_cap_bps : d.D
  demo_spread_cap_bps = d.from_int (pos 50)

  -- 1.002
  abbrev pub demo_recheck_ask_multiplier : d.D
  demo_recheck_ask_multiplier = d.div (d.from_int (pos 1_002)) (d.from_int (pos 1_000))

  abbrev pub spread_bps : MarketRate d.D → d.D
  spread_bps q = d.mul (d.div (d.sub q.ask q.bid) q.bid) (d.from_int (pos 10_000))

  abbrev pub is_upfront : CostType → Bool
  is_upfront CostType.markup = true
  is_upfront CostType.market_spread = true
  is_upfront CostType.transaction_fee = true
  is_upfront CostType.sdrt = true
  is_upfront _ = false

  abbrev pub is_ongoing : CostType → Bool
  is_ongoing CostType.overnight_fee = true
  is_ongoing CostType.over_weekend_fee = true
  is_ongoing _ = false

  -- The loop over the costs: `immediate`, `knownCosts` and `noOngoingCosts`.
  abbrev pub add_cost : CostItem d.D → d.D × Bool × Bool → d.D × Bool × Bool
  add_cost cost (immediate, known, no_ongoing) =
      if is_upfront cost.type
      then (d.add immediate cost.value, known, no_ongoing)
      else if is_ongoing cost.type
      then (immediate, known, no_ongoing && d.is_zero cost.value)
      else (immediate, false, no_ongoing)

  unfoldable pub sum_costs : List (CostItem d.D) → d.D × Bool × Bool → d.D × Bool × Bool
  sum_costs [] sums = sums
  sum_costs (cost ∷ rest) sums = sum_costs rest (add_cost cost sums)
