-- ===== src/Etoro/Tests.antt =====
-- The client of internal/etoro on concrete responses, over whole decimals. A response's text is one
-- number that says what it decodes to.
use mfd.Demo.Fixture.{buy_plan}
use mfd.Etoro.Market.{
  fetch_rate, fetch_demo_book, find_instrument, read_rate, read_book, read_instrument, FoundItem,
  RateItem, MarketJson,
}
use mfd.Etoro.Terms.{
  read_cost_items, read_costs, apply_leverages, apply_configs, read_eligibility, fetch_demo_costs,
  fetch_demo_eligibility, TermsJson,
}
use mfd.Etoro.Orders.{
  lookup_demo_order_by_id, read_receipt, read_lookup, ReceiptData, ErrorCode, OrderReceipt,
  submit_demo_market, lookup_demo_order, OrdersJson,
}
use mfd.Demo.Evaluate.{sum_costs, capture, check_some, check}
use mfd.Etoro.Connected.{submit_demo_market-request_id, lookup_demo_order-IsLookup}
use mfd.Etoro.Checked.{IsLookup}
use mfd.Demo.Transactions.{OrderLookup}
use mfd.Broker.Records.{demo}
use mfd.Demo.Checks.{
  check_costs, check_eligibility, check_quote, check_instrument, check_book, check_account,
  with_demo_plan, run_checks, evaluate_demo,
}
use mfd.Decimal.Whole.{div_ℤ, whole}
use mfd.Demo.Provider.{Snapshot}
use mfd.Demo.Records.{DemoPlan, DemoEvaluation, Bytes}
use mfd.Prelude.Int.{saturate, ◌*ℤ◌, negsuc, ◌-ℤ◌, ◌+ℤ◌, pos, ℤ}
use mfd.Etoro.Honest.{fetch_aggregate-IsRead, IsRead}
use mfd.Etoro.Planning.{evaluate_demo-IsFounded, IsFounded, client_provider, Json}
use mfd.Etoro.Timestamps.{parse_provider_timestamp, TimeParser}
use mfd.Etoro.Wire.{received, request, HttpResponse, HttpRequest, Client, GoText}
use mfd.Etoro.Aggregate.{
  parse_instrument, parse_instruments, Envelope, parse_aggregate, AggregateJson, read_aggregate,
  fetch_aggregate,
}
use mfd.Lab.Experiment.{trim_space, trim_left, trim_right, put_back, is_space}
use mfd.Prelude.{◌<◌, String, true, false, Option, none, some, List, [], ◌∷◌, ◌≡◌, refl, ok}
use text.Mathlib.Text.{◌==◌ as str_eq}

abbrev words : GoText
words = record { mentions = λ raw word. false; equal_fold = λ a b. str_eq a b }

abbrev utc : TimeParser
utc = record { rfc3339 = λ value. some (pos 5); offsetless = λ value. none }

abbrev keys : Client
keys = record { api_key = "key"; user_key = "user" }

abbrev totals : List (String × Bytes)
totals =
    ("accountAvailableCash", 9_000 ∷ [])
    ∷ ("accountTotalValue", 20_000 ∷ [])
    ∷ ("accountCurrentPnl", 0 ∷ [])
    ∷ []

abbrev envelope_with : List Bytes → Envelope
envelope_with aggregates = record {
  timestamp = [];
  account_currency = "USD";
  account_totals = some totals;
  instrument_aggregates = some aggregates;
  mirrors = some [];
}

abbrev first_number : Bytes → Option ℤ
first_number [] = none
first_number (n ∷ ns) = some (pos n)

abbrev seven_fields : List (String × Bytes)
seven_fields =
    ("instrumentId", 1 ∷ [])
    ∷ ("assetCurrency", 1 ∷ [])
    ∷ ("netUnits", 1 ∷ [])
    ∷ ("netCurrentExposureAccountCurrency", 1 ∷ [])
    ∷ ("pnlAssetCurrency", 1 ∷ [])
    ∷ ("liquidationValueAccountCurrency", 1 ∷ [])
    ∷ ("avgLeverage", 1 ∷ [])
    ∷ []

abbrev aggregate_json : List Bytes → AggregateJson ℤ
aggregate_json aggregates = record {
  envelope = λ raw. some (envelope_with aggregates);
  nothing_follows = λ raw. true;
  decimal = first_number;
  fields = λ item. some seven_fields;
  provider = λ item. some (record {
    instrument_id = pos 3;
    asset_currency = "USD";
    net_units = pos 1;
    exposure_usd = pos 1;
    pnl = pos 1;
    liquidation_usd = pos 1;
    average_leverage = pos 1;
  });
}

abbrev arrays : List (String × Bytes)
arrays =
    ("positions", 1 ∷ [])
    ∷ ("mirrors", 1 ∷ [])
    ∷ ("orders", 1 ∷ [])
    ∷ ("stockOrders", 1 ∷ [])
    ∷ ("entryOrders", 1 ∷ [])
    ∷ ("exitOrders", 1 ∷ [])
    ∷ ("ordersForOpen", 1 ∷ [])
    ∷ ("ordersForClose", 1 ∷ [])
    ∷ ("ordersForCloseMultiple", 1 ∷ [])
    ∷ []

abbrev bitcoin : FoundItem
bitcoin = record { id = pos 100_000; symbol = "BTC"; tradable = true; buyable = true }

abbrev bitcoin_rate : RateItem ℤ
bitcoin_rate = record {
  id = pos 100_000;
  bid = pos 60_000;
  ask = pos 60_010;
  date = [];
  quote_type = "realtime";
}

abbrev market_json : MarketJson ℤ
market_json = record {
  items = λ raw. some (bitcoin ∷ []);
  results = λ raw. some (bitcoin_rate ∷ []);
  envelope = λ raw. some (("clientPortfolio", 1 ∷ []) ∷ []);
  portfolio = λ raw. some arrays;
  elements = λ raw. some [];
}

abbrev terms_json : TermsJson ℤ
terms_json = record {
  eligibility = λ raw. some (record {
    currency = "USD";
    items =
        record {
          id = pos 100_000;
          symbol = "BTC";
          can_open = true;
          min_exposure = some (pos 10);
          configs =
              record {
                settlement = "real";
                direction = "long";
                leverages = pos 1 ∷ [];
                potential = false;
                minimum = some (pos 10);
              }
              ∷ [];
        }
        ∷ [];
  });
  costs = λ raw. some (record {
    id = pos 100_000;
    updated = [];
    costs = record { type = "marketSpread"; currency = "USD"; value = some (pos 1) } ∷ [];
  });
}

abbrev json : Json ℤ
json = record { aggregate = aggregate_json []; market = market_json; terms = terms_json }

abbrev answering : HttpRequest ℤ → Option HttpResponse
answering r = some (record { status = 200; content = 1 ∷ []; is_broken = false })

abbrev holding : Snapshot ℤ
holding = record {
  provider_at = pos 5;
  provider_time_assumed_utc = false;
  currency = "USD";
  available_cash = pos 9_000;
  total_value = pos 20_000;
  current_pnl = pos 0;
  instruments =
      record {
        instrument_id = 3;
        asset_currency = "USD";
        net_units = pos 1;
        exposure_usd = pos 1;
        pnl = pos 1;
        liquidation_usd = pos 1;
        average_leverage = pos 1;
      }
      ∷ [];
  mirror_count = 0;
}

fetched :
    fetch_aggregate whole (aggregate_json ((1 ∷ []) ∷ [])) utc words answering keys demo
    ≡ ok (1 ∷ [], holding)
unfolding fetch_aggregate read_aggregate parse_aggregate parse_instruments parse_instrument
    parse_provider_timestamp trim_space trim_left trim_right put_back is_space
fetched = refl

fetch_aggregate-IsRead_example : IsRead whole (aggregate_json ((1 ∷ []) ∷ [])) utc (1 ∷ []) holding
fetch_aggregate-IsRead_example =
    fetch_aggregate-IsRead whole (aggregate_json ((1 ∷ []) ∷ [])) utc words answering keys demo
      (1 ∷ []) holding fetched

abbrev planned : DemoEvaluation ℤ
planned =
    evaluate_demo whole (λ raw. some (pos 77)) (λ id. "demo") (λ raw. "sha256")
      (record { account = pos 10; quote = pos 11; costs = pos 12 })
      (some (client_provider whole words json utc answering keys)) true

abbrev plan_in : Option (DemoPlan ℤ) → DemoPlan ℤ
plan_in none = buy_plan
plan_in (some p) = p

abbrev found_plan : DemoPlan ℤ
found_plan = plan_in planned.plan

planned-found : planned.plan ≡ some found_plan
unfolding ◌+ℤ◌ ◌-ℤ◌ ◌*ℤ◌ div_ℤ saturate evaluate_demo run_checks with_demo_plan check_account
    check_book check_instrument check_quote check_eligibility check_costs check check_some capture
    sum_costs client_provider fetch_aggregate read_aggregate parse_aggregate parse_instruments
    parse_provider_timestamp trim_space trim_left trim_right put_back is_space fetch_demo_book
    find_instrument fetch_rate fetch_demo_eligibility fetch_demo_costs request received read_book
    read_instrument read_rate read_eligibility apply_configs apply_leverages read_costs
    read_cost_items
planned-found = refl

evaluate_demo-IsFounded_example : IsFounded whole words json utc answering keys found_plan
evaluate_demo-IsFounded_example =
    evaluate_demo-IsFounded whole words json utc answering keys (λ raw. some (pos 77))
      (λ id. "demo") (λ raw. "sha256") (record { account = pos 10; quote = pos 11; costs = pos 12 })
      true found_plan planned-found

abbrev orders_json : OrdersJson
orders_json = record {
  receipt = λ raw. some (record { order_id = pos 55; reference_id = some 8 });
  lookup = λ raw. some (record {
    order_id = pos 55;
    status_id = pos 3;
    status_name = "Filled";
    error_code = ErrorCode.no_code;
    error_message = "";
    executions = pos 9 ∷ negsuc 3 ∷ [];
  });
}

abbrev receipt : OrderReceipt
receipt = record { order_id = 55; reference_id = 8 }

submitted :
    (submit_demo_market words orders_json answering keys 8 100_000 (pos 100)).result ≡ ok receipt
unfolding submit_demo_market request received read_receipt
submitted = refl

submit_demo_market-request_id_example :
    (receipt.reference_id ≡ 8)
    × (0 < receipt.order_id)
    × ((answer : ReceiptData) × (orders_json.receipt
            (submit_demo_market words orders_json answering keys 8 100_000 (pos 100)).raw
          ≡ some answer)
        × (answer.reference_id ≡ some 8))
submit_demo_market-request_id_example =
    submit_demo_market-request_id words orders_json answering keys 8 100_000 (pos 100) receipt
      submitted

abbrev looked_up : OrderLookup
looked_up = record {
  order_id = 55;
  status_id = 3;
  status_name = "Filled";
  error_code = "";
  error_message = "";
  position_ids = 9 ∷ [];
}

lookup_demo_order-IsLookup_example :
    ((lookup_demo_order words orders_json answering keys 55).result ≡ ok looked_up
      → IsLookup looked_up)
    × ((lookup_demo_order_by_id words orders_json answering keys 55).result ≡ ok looked_up
        → IsLookup looked_up)
lookup_demo_order-IsLookup_example =
    lookup_demo_order-IsLookup words orders_json answering keys 55 looked_up

found_by_number :
    (lookup_demo_order_by_id words orders_json answering keys 55).result ≡ ok looked_up
unfolding lookup_demo_order_by_id request received read_lookup
found_by_number = refl
