-- ===== src/Etoro/Terms.antt =====
-- FetchDemoEligibility and FetchDemoCosts (internal/etoro/trading.go).
use mfd.Etoro.Wire.{
  Endpoint, request, after_request, Answer, Client, HttpResponse, HttpRequest, GoText, ClientError,
}
use mfd.Prelude.{
  ℕ, String, Bool, true, false, not, ◌&&◌, ◌||◌, Option, none, some, List, [], ◌∷◌, length, ◌==◌,
  Result, ok, err, if◌then◌else◌, fail_if, ◌>>◌, ◌>>=◌,
}
use mfd.Prelude.Int.{ℤ}
use mfd.Demo.Records.{Bytes}
use mfd.Demo.Provider.{TradingEligibility, TradingCosts, CostItem, CostType}
use mfd.Decimal.{Decimals}
use mfd.Etoro.Timestamps.{TimeParser, parse_provider_timestamp}
use mfd.Etoro.Market.{or_schema, same_id}
use text.Mathlib.Text.{◌==◌ as str_eq}

-- The structs that the two responses are decoded into; `none` for a nil pointer.
pub record LeverageConfig (D : Type 0) : Type 0 where
  pub settlement : String
  pub direction : String
  pub leverages : List ℤ
  pub potential : Bool
  pub minimum : Option D

pub record EligibilityItem (D : Type 0) : Type 0 where
  pub id : ℤ
  pub symbol : String
  pub can_open : Bool
  pub min_exposure : Option D
  pub configs : List (LeverageConfig D)

pub record EligibilityData (D : Type 0) : Type 0 where
  pub currency : String
  pub items : List (EligibilityItem D)

pub record CostData (D : Type 0) : Type 0 where
  pub type : String
  pub currency : String
  pub value : Option D

pub record CostsData (D : Type 0) : Type 0 where
  pub id : ℤ
  pub updated : List ℕ
  pub costs : List (CostData D)

pub record TermsJson (D : Type 0) : Type 0 where
  pub eligibility : Bytes → Option (EligibilityData D)
  pub costs : Bytes → Option (CostsData D)

-- The names that evaluateDemo (internal/platform/demo_strategy.go) tells apart.
abbrev pub cost_type : String → CostType
cost_type name =
    if str_eq name "markup"
    then CostType.markup
    else if str_eq name "marketSpread"
    then CostType.market_spread
    else if str_eq name "transactionFee"
    then CostType.transaction_fee
    else if str_eq name "sdrt"
    then CostType.sdrt
    else if str_eq name "overnightFee"
    then CostType.overnight_fee
    else if str_eq name "overWeekendFee"
    then CostType.over_weekend_fee
    else CostType.other_cost name

module _ (d : Decimals) where
  -- `value == nil || value.IsNegative()`.
  abbrev pub non_negative : Option d.D → Result ClientError d.D
  non_negative none = err ClientError.schema_failure
  non_negative (some value) =
      if d.is_negative value then err ClientError.schema_failure else ok value

  -- The loop over the leverage values of a matching configuration.
  unfoldable pub apply_leverages :
      Option d.D → List ℤ → TradingEligibility d.D → Result ClientError (TradingEligibility d.D)
  apply_leverages minimum [] out = ok out
  apply_leverages minimum (leverage ∷ leverages) out =
      let skipped = apply_leverages minimum leverages out in
      let taken = non_negative minimum >>= λ value.
      apply_leverages minimum leverages
        (record out { real_long_unlevered = true; min_position_amount = value }) in
      if same_id leverage 1 then taken else skipped

module _ (d : Decimals) (text : GoText) where
  abbrev pub is_real_long : LeverageConfig d.D → Bool
  is_real_long config =
      text.equal_fold config.settlement "real"
      && text.equal_fold config.direction "long"
      && not config.potential

  unfoldable pub apply_configs :
      List (LeverageConfig d.D)
      → TradingEligibility d.D
      → Result ClientError (TradingEligibility d.D)
  apply_configs [] out = ok out
  apply_configs (config ∷ configs) out =
      let skipped = apply_configs configs out in
      let taken = apply_leverages d config.minimum config.leverages out >>= apply_configs configs in
      if is_real_long config then taken else skipped

  abbrev pub only_item : ℕ → EligibilityData d.D → Result ClientError (EligibilityItem d.D)
  only_item id answer =
      if not (text.equal_fold answer.currency "USD")
      then err ClientError.schema_failure
      else elim answer.items [
        | [] ↦ err ClientError.schema_failure
        | item ∷ others ↦
            if length others == 0 && same_id item.id id
            then ok item
            else err ClientError.schema_failure
      ]

  unfoldable pub read_eligibility :
      TermsJson d.D → ℕ → Bytes → Result ClientError (TradingEligibility d.D)
  read_eligibility json id raw = do
    answer ← or_schema (json.eligibility raw)
    item ← only_item id answer
    exposure ← non_negative d item.min_exposure
    apply_configs item.configs (record {
      instrument_id = id;
      symbol = item.symbol;
      can_open = item.can_open;
      min_exposure = exposure;
      min_position_amount = d.zero;
      real_long_unlevered = false;
    })

  -- One cost: it has a type, its currency is USD, its value is there and not negative.
  abbrev pub read_cost : CostData d.D → Result ClientError (CostItem d.D)
  read_cost cost =
      if str_eq cost.type "" || not (text.equal_fold cost.currency "USD")
      then err ClientError.schema_failure
      else non_negative d cost.value >>= λ value.
          ok (record { type = cost_type cost.type; currency = cost.currency; value = value })

  unfoldable pub read_cost_items : List (CostData d.D) → Result ClientError (List (CostItem d.D))
  read_cost_items [] = ok []
  read_cost_items (cost ∷ costs) =
      let rest = read_cost_items costs in
      read_cost cost >>= λ item. rest >>= λ items. ok (item ∷ items)

  unfoldable pub read_costs :
      TermsJson d.D → TimeParser → ℕ → Bytes → Result ClientError (TradingCosts d.D)
  read_costs json time id raw = do
    answer ← or_schema (json.costs raw)
    fail_if (not (same_id answer.id id) || length answer.costs == 0) ClientError.schema_failure
    at ← or_schema (parse_provider_timestamp time answer.updated)
    items ← read_cost_items answer.costs
    ok (record { instrument_id = id; updated_at = at.0; items = items })

module _ (d : Decimals) (text : GoText) (json : TermsJson d.D) (time : TimeParser)
    (send : HttpRequest d.D → Option HttpResponse) (client : Client) where
  unfoldable pub fetch_demo_eligibility : ℕ → Answer (TradingEligibility d.D)
  fetch_demo_eligibility id =
      after_request (request text send client (Endpoint.demo_eligibility id) none)
        (read_eligibility d text json id)

  unfoldable pub fetch_demo_costs : ℕ → d.D → Answer (TradingCosts d.D)
  fetch_demo_costs id amount =
      after_request (request text send client (Endpoint.demo_costs id amount) none)
        (read_costs d text json time id)
