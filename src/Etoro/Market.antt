-- ===== src/Etoro/Market.antt =====
-- FindInstrument, FetchRate and FetchDemoBook (internal/etoro/trading.go). `decode`, with what
-- encoding/json makes of each response, is an argument.
use mfd.Etoro.Wire.{
  Endpoint, request, after_request, Answer, Client, HttpResponse, HttpRequest, ClientError, GoText,
}
use mfd.Prelude.{
  ℕ, String, Bool, not, ◌&&◌, ◌||◌, Option, none, some, List, [], ◌∷◌, length, ◌+◌, Result, ok, err,
  if◌then◌else◌, find_by, fail_if, ◌>>◌, ◌>>=◌,
}
use mfd.Prelude.Int.{ℤ, pos, ltb_ℤ, leb_ℤ, pos_part}
use mfd.Demo.Records.{Bytes}
use mfd.Demo.Provider.{MarketInstrument, MarketRate, DemoBook}
use mfd.Decimal.{Decimals}
use mfd.Etoro.Timestamps.{TimeParser, parse_provider_timestamp}
use mfd.Etoro.Aggregate.{is_null, field_of}
use text.Mathlib.Text.{◌==◌ as str_eq}

-- The elements of FindInstrument's `data.Items` and of FetchRate's `data.Results`.
pub record FoundItem : Type 0 where
  pub id : ℤ
  pub symbol : String
  pub tradable : Bool
  pub buyable : Bool

pub record RateItem (D : Type 0) : Type 0 where
  pub id : ℤ
  pub bid : D
  pub ask : D
  pub date : List ℕ
  pub quote_type : String

pub record MarketJson (D : Type 0) : Type 0 where
  pub items : Bytes → Option (List FoundItem)
  pub results : Bytes → Option (List (RateItem D))
  -- A map of raw values, whole text or member; the elements of an array, if it is one and not null.
  pub envelope : Bytes → Option (List (String × Bytes))
  pub portfolio : Bytes → Option (List (String × Bytes))
  pub elements : Bytes → Option (List Bytes)

abbrev pub or_schema : {A : Type 0} → Option A → Result ClientError A
or_schema none = err ClientError.schema_failure
or_schema (some a) = ok a

abbrev pub same_id : ℤ → ℕ → Bool
same_id id n = leb_ℤ id (pos n) && leb_ℤ (pos n) id

module _ {D : Type 0} (json : MarketJson D) where
  abbrev pub exact_match : Option FoundItem → Result ClientError MarketInstrument
  exact_match none = err ClientError.no_exact_match
  exact_match (some item) = ok (record {
    id = pos_part item.id;
    symbol = item.symbol;
    tradable = item.tradable;
    buyable = item.buyable;
  })

  unfoldable pub read_instrument : String → Bytes → Result ClientError MarketInstrument
  read_instrument symbol raw = do
    items ← or_schema (json.items raw)
    exact_match (find_by (λ item. str_eq item.symbol symbol && ltb_ℤ (pos 0) item.id) items)

  -- One of the arrays that FetchDemoBook counts.
  abbrev pub count_of : List (String × Bytes) → String → Result ClientError ℕ
  count_of portfolio name = do
    field ← or_schema (field_of name portfolio)
    fail_if (is_null field.1) ClientError.schema_failure
    items ← or_schema (json.elements field.1)
    ok (length items)

  unfoldable pub read_book : Bytes → Result ClientError DemoBook
  read_book raw = do
    envelope ← or_schema (json.envelope raw)
    client_portfolio ← or_schema (field_of "clientPortfolio" envelope)
    portfolio ← or_schema (json.portfolio client_portfolio.1)
    positions ← count_of portfolio "positions"
    mirrors ← count_of portfolio "mirrors"
    orders ← count_of portfolio "orders"
    stock_orders ← count_of portfolio "stockOrders"
    entry_orders ← count_of portfolio "entryOrders"
    exit_orders ← count_of portfolio "exitOrders"
    open_orders ← count_of portfolio "ordersForOpen"
    close_orders ← count_of portfolio "ordersForClose"
    multiple_close_orders ← count_of portfolio "ordersForCloseMultiple"
    ok (record {
      open_position_count = positions + mirrors;
      pending_order_count =
          orders + stock_orders + entry_orders + exit_orders + open_orders + close_orders
          + multiple_close_orders;
    })

module _ (d : Decimals) (json : MarketJson d.D) (time : TimeParser) where
  abbrev pub only_result : ℕ → List (RateItem d.D) → Result ClientError (RateItem d.D)
  only_result id (item ∷ []) =
      if same_id item.id id then ok item else err ClientError.schema_failure
  only_result id [] = err ClientError.schema_failure
  only_result id (item ∷ other ∷ items) = err ClientError.schema_failure

  unfoldable pub read_rate : ℕ → Bytes → Result ClientError (MarketRate d.D)
  read_rate id raw = do
    results ← or_schema (json.results raw)
    item ← only_result id results
    at ← or_schema (parse_provider_timestamp time item.date)
    fail_if (not (d.is_positive item.bid) || not (d.greater_than item.ask item.bid))
        ClientError.schema_failure
    ok (record {
      instrument_id = id;
      bid = item.bid;
      ask = item.ask;
      at = at.0;
      time_assumed_utc = at.1;
      quote_type = item.quote_type;
    })

module _ (d : Decimals) (text : GoText) (json : MarketJson d.D) (time : TimeParser)
    (send : HttpRequest d.D → Option HttpResponse) (client : Client) where
  unfoldable pub find_instrument : String → Answer MarketInstrument
  find_instrument symbol =
      after_request (request text send client (Endpoint.search symbol) none)
        (read_instrument json symbol)

  unfoldable pub fetch_rate : ℕ → Answer (MarketRate d.D)
  fetch_rate id =
      after_request (request text send client (Endpoint.rates id) none) (read_rate d json time id)

  unfoldable pub fetch_demo_book : Answer DemoBook
  fetch_demo_book = after_request (request text send client Endpoint.demo_pnl none) (read_book json)
