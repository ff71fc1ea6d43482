-- ===== src/Demo/Checks.antt =====
-- The body of evaluateDemo (internal/platform/demo_strategy.go), stage by stage: each stage asks the
-- broker once and checks its answer.
use mfd.Demo.Evaluate.{
  demo_cost_cap, demo_spread_cap_bps, demo_minimum_cash, sum_costs, seconds, spread_bps,
  recent_provider_time, demo_recheck_ask_multiplier, capture, check, demo_amount, check_some,
}
use mfd.Demo.Provider.{MarketRate, MarketInstrument, Provider}
use mfd.Prelude.Int.{pos, ltb_ℤ, ℤ}
use mfd.Decimal.{Decimals}
use mfd.Demo.Records.{Bytes, DemoEvaluation, Time}
use mfd.Prelude.{
  length, true, map, ltb, ◌&&◌, ◌==◌, ok, if◌then◌else◌, [], err, Bool, some, none, String, Result,
  Option, ◌>>=◌,
}
use text.Mathlib.Text.{◌==◌ as str_eq}

-- `time.Now()` after the aggregate, after the quote, and after the costs.
pub record EvaluationClocks : Type 0 where
  pub account : Time
  pub quote : Time
  pub costs : Time

abbrev pub empty_evaluation : {D : Type 0} → DemoEvaluation D
empty_evaluation = record { plan = none; checks = []; artifacts = []; reason = "" }

-- The exact instrument, where the lookup found it.
abbrev pub exact_btc : Option MarketInstrument → Option MarketInstrument
exact_btc none = none
exact_btc (some i) = if str_eq i.symbol "BTC" && ltb 0 i.id then some i else none

-- `cid > 0`.
abbrev pub positive_id : Option ℤ → Option ℤ
positive_id none = none
positive_id (some cid) = if ltb_ℤ (pos 0) cid then some cid else none

module _ (d : Decimals) where
  unfoldable pub check_account :
      (Bytes → Option ℤ)
      → Time
      → Provider d.D
      → DemoEvaluation d.D
      → Result (DemoEvaluation d.D) (DemoEvaluation d.D × ℤ)
  check_account account_id now client v = do
    (v1, account) ←
        check_some "account_read" client.fetch_aggregate.result
          "A fresh official Demo account read is required."
          (capture "/api/v1/trading/info/demo/aggregate-portfolio" client.fetch_aggregate.raw v)
    v2 ←
        check "account_freshness" (recent_provider_time account.provider_at now (seconds 120))
          "The Demo account snapshot is stale or has an invalid provider time." v1
    v3 ←
        check "account_currency" (str_eq account.currency "USD")
          "The strategy requires a USD account." v2
    (v4, cid) ←
        check_some "account_identity" (positive_id (account_id client.fetch_aggregate.raw))
          "A stable Demo provider account ID is required to bind the reviewed plan." v3
    v5 ←
        check "cash_budget"
          (d.greater_than_or_equal account.available_cash (demo_minimum_cash d)
            && d.greater_than_or_equal account.total_value
                (d.mul (demo_amount d) (d.from_int (pos 100))))
          "Available cash must cover $500 and the $100 order must stay within 1% of provider-reported account value."
          v4
    v6 ←
        check "aggregate_empty" (length account.instruments == 0 && account.mirror_count == 0)
          "This one-time probe requires an account without existing holdings or copy portfolios." v5
    ok (v6, cid)

  unfoldable pub check_book :
      Provider d.D → DemoEvaluation d.D → Result (DemoEvaluation d.D) (DemoEvaluation d.D)
  check_book client v = do
    (v1, book) ←
        check_some "pending_order_read" client.fetch_demo_book.result
          "The official Demo order and position read is required."
          (capture "/api/v1/trading/info/demo/pnl" client.fetch_demo_book.raw v)
    check "no_existing_orders" (book.open_position_count == 0 && book.pending_order_count == 0)
        "Existing positions or pending orders block this one-time probe." v1

  unfoldable pub check_instrument :
      Provider d.D
      → DemoEvaluation d.D
      → Result (DemoEvaluation d.D) (DemoEvaluation d.D × MarketInstrument)
  check_instrument client v = do
    (v1, instrument) ←
        check_some "instrument_lookup" (exact_btc (client.find_instrument "BTC").result)
          "An exact BTC instrument mapping is required."
          (capture "/api/v1/market-data/search" (client.find_instrument "BTC").raw v)
    v2 ←
        check "instrument_tradable" (instrument.tradable && instrument.buyable)
          "BTC must be currently tradable and enabled for buying." v1
    ok (v2, instrument)

  unfoldable pub check_quote :
      Time
      → Provider d.D
      → MarketInstrument
      → DemoEvaluation d.D
      → Result (DemoEvaluation d.D) (DemoEvaluation d.D × MarketRate d.D)
  check_quote now client instrument v = do
    (v1, quote) ←
        check_some "quote_read" (client.fetch_rate instrument.id).result
          "A valid eToro bid and ask quote is required."
          (capture "/api/v2/market-data/rates" (client.fetch_rate instrument.id).raw v)
    v2 ←
        check "realtime_quote"
          (str_eq quote.quote_type "realtime" && recent_provider_time quote.at now (seconds 30))
          "The BTC quote must be realtime and no more than 30 seconds old." v1
    v3 ←
        check "spread_cap" (d.less_than_or_equal (spread_bps d quote) (demo_spread_cap_bps d))
          "The bid/ask spread must be no wider than 50 basis points." v2
    ok (v3, quote)

  unfoldable pub check_eligibility :
      Provider d.D
      → MarketInstrument
      → DemoEvaluation d.D
      → Result (DemoEvaluation d.D) (DemoEvaluation d.D)
  check_eligibility client instrument v = do
    (v1, eligibility) ←
        check_some "eligibility_read" (client.fetch_demo_eligibility instrument.id).result
          "The account-specific Demo trading eligibility check is required."
          (capture "/api/v2/trading/info/demo/eligibility"
            (client.fetch_demo_eligibility instrument.id).raw v)
    check "unlevered_real"
        (eligibility.can_open
          && str_eq eligibility.symbol "BTC"
          && eligibility.real_long_unlevered
          && d.less_than_or_equal eligibility.min_exposure (demo_amount d)
          && d.less_than_or_equal eligibility.min_position_amount (demo_amount d))
        "The account must allow a $100 unlevered real BTC buy." v1

  -- The upfront costs come with the evaluation.
  unfoldable pub check_costs :
      Time
      → Provider d.D
      → MarketInstrument
      → DemoEvaluation d.D
      → Result (DemoEvaluation d.D) (DemoEvaluation d.D × d.D)
  check_costs now client instrument v = do
    (v1, costs) ←
        check_some "cost_read" (client.fetch_demo_costs instrument.id (demo_amount d)).result
          "An official Demo what-if cost estimate is required."
          (capture "/api/v2/trading/info/demo/costs"
            (client.fetch_demo_costs instrument.id (demo_amount d)).raw v)
    v2 ←
        check "cost_freshness" (recent_provider_time costs.updated_at now (seconds 120))
          "The Demo cost estimate must be no more than two minutes old." v1
    let sums = sum_costs d costs.items (d.zero, true, true)
    v3 ←
        check "cost_types" (sums.1 && sums.2)
          "Unknown or nonzero ongoing costs block this simple unlevered strategy." v2
    v4 ←
        check "cost_cap" (d.less_than_or_equal sums.0 (demo_cost_cap d))
          "Estimated upfront costs must not exceed $2 (2% of the order)." v3
    ok (v4, sums.0)

  abbrev pub all_passed_reason : String
  all_passed_reason =
      "All Demo account, market, eligibility, and market-order cost checks passed. The $100 market order is ready for operator submission; its execution price may differ from the quote."

  -- `v.Plan` and `v.Reason`.
  unfoldable pub with_demo_plan :
      (Bytes → String)
      → String
      → MarketInstrument
      → MarketRate d.D
      → d.D
      → DemoEvaluation d.D
      → DemoEvaluation d.D
  with_demo_plan digest fingerprint instrument quote immediate v = record v {
    plan = some (record {
      symbol = "BTC";
      account_fingerprint = fingerprint;
      instrument_id = instrument.id;
      amount_usd = demo_amount d;
      order_type = "mkt";
      settlement_type = "real";
      leverage = 1;
      bid = quote.bid;
      ask = quote.ask;
      limit_rate = none;
      max_recheck_ask = some (d.round_up 2 (d.mul quote.ask (demo_recheck_ask_multiplier d)));
      spread_bps = d.round 4 (spread_bps d quote);
      quote_at = quote.at;
      quote_time_assumed_utc = quote.time_assumed_utc;
      estimated_upfront_cost_usd = immediate;
      source_sha256 = map (λ a. (a.source, digest a.raw)) v.artifacts;
    });
    reason = all_passed_reason;
  }

  -- An early return and the last one return alike.
  abbrev pub returned : {A : Type 0} → Result A A → A
  returned (err v) = v
  returned (ok v) = v

  unfoldable pub run_checks :
      (Bytes → Option ℤ)
      → (ℤ → String)
      → (Bytes → String)
      → EvaluationClocks
      → Option (Provider d.D)
      → Bool
      → Result (DemoEvaluation d.D) (DemoEvaluation d.D)
  run_checks account_id fingerprint digest clocks bound enabled = do
    (v0, client) ←
        check_some "demo_scope" bound
          "A schema-valid Demo key must be connected before this strategy can run." empty_evaluation
    v1 ← check "demo_execution_switch" enabled "The private Demo execution switch is off." v0
    (v2, cid) ← check_account account_id clocks.account client v1
    v3 ← check_book client v2
    (v4, instrument) ← check_instrument client v3
    (v5, quote) ← check_quote clocks.quote client instrument v4
    v6 ← check_eligibility client instrument v5
    (v7, immediate) ← check_costs clocks.costs client instrument v6
    ok (with_demo_plan digest (fingerprint cid) instrument quote immediate v7)

  unfoldable pub evaluate_demo :
      (Bytes → Option ℤ)
      → (ℤ → String)
      → (Bytes → String)
      → EvaluationClocks
      → Option (Provider d.D)
      → Bool
      → DemoEvaluation d.D
  evaluate_demo account_id fingerprint digest clocks bound enabled =
      returned (run_checks account_id fingerprint digest clocks bound enabled)
