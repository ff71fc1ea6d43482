-- ===== src/Etoro/Aggregate.antt =====
-- AggregatePath, FetchAggregate and ParseAggregate (internal/etoro/client.go). What encoding/json makes
-- of a text is an argument.
use mfd.Etoro.Wire.{
  Endpoint, lacks_credentials, aggregate_category, max_body, Client, HttpResponse, HttpRequest,
  GoText,
}
use mfd.Prelude.{
  ℕ, String, Bool, true, false, not, ◌||◌, Option, none, some, List, [], ◌∷◌, length, ltb, ◌==◌,
  Result, ok, err, if◌then◌else◌, take, ◌+◌, all_by, find_by, fail_if, ◌>>◌, ◌>>=◌,
}
use mfd.Prelude.Int.{ℤ, pos, ltb_ℤ, pos_part}
use mfd.Demo.Records.{Bytes}
use mfd.Demo.Provider.{Snapshot, Instrument}
use mfd.Decimal.{Decimals}
use mfd.Lab.Experiment.{trim_space}
use mfd.Jobs.Queue.{same_name}
use mfd.Broker.Records.{Environment, ReadError}
use mfd.Broker.Store.{Reading}
use mfd.Etoro.Timestamps.{TimeParser, parse_provider_timestamp}
use text.Mathlib.Text.{◌==◌ as str_eq}

-- The struct `envelope`; `none` where a map or a slice is nil.
pub record Envelope : Type 0 where
  pub timestamp : List ℕ
  pub account_currency : String
  pub account_totals : Option (List (String × Bytes))
  pub instrument_aggregates : Option (List Bytes)
  pub mirrors : Option (List Bytes)

-- The struct `provider`.
pub record ProviderInstrument (D : Type 0) : Type 0 where
  pub instrument_id : ℤ
  pub asset_currency : String
  pub net_units : D
  pub exposure_usd : D
  pub pnl : D
  pub liquidation_usd : D
  pub average_leverage : D

-- What `Decode` and `Unmarshal` return: the envelope; whether nothing follows it; a decimal; the fields
-- of an object; an instrument.
pub record AggregateJson (D : Type 0) : Type 0 where
  pub envelope : Bytes → Option Envelope
  pub nothing_follows : Bytes → Bool
  pub decimal : Bytes → Option D
  pub fields : Bytes → Option (List (String × Bytes))
  pub provider : Bytes → Option (ProviderInstrument D)

abbrev pub instrument_of : {D : Type 0} → ProviderInstrument D → Instrument D
instrument_of provider = record {
  instrument_id = pos_part provider.instrument_id;
  asset_currency = provider.asset_currency;
  net_units = provider.net_units;
  exposure_usd = provider.exposure_usd;
  pnl = provider.pnl;
  liquidation_usd = provider.liquidation_usd;
  average_leverage = provider.average_leverage;
}

pub data AggregateError : Type 0 where
  undecodable trailing_data bad_timestamp bad_header : AggregateError
  missing_total invalid_total negative_total : AggregateError
  invalid_instrument missing_field : AggregateError

abbrev pub or_error : {A : Type 0} → AggregateError → Option A → Result AggregateError A
or_error e none = err e
or_error e (some a) = ok a

-- `bytes.Equal(bytes.TrimSpace(value), []byte("null"))`.
abbrev pub is_null : Bytes → Bool
is_null value = same_name (trim_space value) (b'n' ∷ b'u' ∷ b'l' ∷ b'l' ∷ [])

-- `value, ok := m[name]`, and neither missing nor null.
abbrev pub field_of : String → List (String × Bytes) → Option (String × Bytes)
field_of name = find_by (λ f. str_eq f.0 name)

abbrev pub present : AggregateError → Option (String × Bytes) → Result AggregateError Bytes
present e none = err e
present e (some (name, value)) = if is_null value then err e else ok value

abbrev pub instrument_fields : List String
instrument_fields =
    "instrumentId" ∷ "assetCurrency" ∷ "netUnits" ∷ "netCurrentExposureAccountCurrency"
    ∷ "pnlAssetCurrency" ∷ "liquidationValueAccountCurrency" ∷ "avgLeverage" ∷ []

abbrev pub has_field : List (String × Bytes) → String → Bool
has_field fields name = elim (present AggregateError.missing_field (field_of name fields)) [
  | err e ↦ false
  | ok value ↦ true
]

module _ (d : Decimals) (json : AggregateJson d.D) (time : TimeParser) where
  -- requiredDecimal.
  abbrev pub required_decimal : List (String × Bytes) → String → Result AggregateError d.D
  required_decimal totals name = do
    value ← present AggregateError.missing_total (field_of name totals)
    or_error AggregateError.invalid_total (json.decimal value)

  -- One element of instrumentAggregates.
  unfoldable pub parse_instrument : Bytes → Result AggregateError (Instrument d.D)
  parse_instrument item = do
    fields ← or_error AggregateError.invalid_instrument (json.fields item)
    fail_if (not (all_by (has_field fields) instrument_fields)) AggregateError.missing_field
    provider ← or_error AggregateError.invalid_instrument (json.provider item)
    fail_if (not (ltb_ℤ (pos 0) provider.instrument_id) || str_eq provider.asset_currency "")
        AggregateError.invalid_instrument
    ok (instrument_of provider)

  unfoldable pub parse_instruments : List Bytes → Result AggregateError (List (Instrument d.D))
  parse_instruments [] = ok []
  parse_instruments (item ∷ items) =
      let rest = parse_instruments items in
      parse_instrument item >>= λ i. rest >>= λ is. ok (i ∷ is)

  unfoldable pub parse_aggregate : Bytes → Result AggregateError (Snapshot d.D)
  parse_aggregate raw = do
    envelope ← or_error AggregateError.undecodable (json.envelope raw)
    fail_if (not (json.nothing_follows raw)) AggregateError.trailing_data
    at ← or_error AggregateError.bad_timestamp (parse_provider_timestamp time envelope.timestamp)
    fail_if (not (str_eq envelope.account_currency "USD")) AggregateError.bad_header
    totals ← or_error AggregateError.bad_header envelope.account_totals
    aggregates ← or_error AggregateError.bad_header envelope.instrument_aggregates
    mirrors ← or_error AggregateError.bad_header envelope.mirrors
    cash ← required_decimal totals "accountAvailableCash"
    total ← required_decimal totals "accountTotalValue"
    pnl ← required_decimal totals "accountCurrentPnl"
    fail_if (d.is_negative total) AggregateError.negative_total
    instruments ← parse_instruments aggregates
    ok (record {
      provider_at = at.0;
      provider_time_assumed_utc = at.1;
      currency = "USD";
      available_cash = cash;
      total_value = total;
      current_pnl = pnl;
      instruments = instruments;
      mirror_count = length mirrors;
    })

  abbrev pub parsed_aggregate : Bytes → Option (Snapshot d.D)
  parsed_aggregate raw = elim (parse_aggregate raw) [ err e ↦ none | ok s ↦ some s ]

module _ (d : Decimals) (json : AggregateJson d.D) (time : TimeParser) (text : GoText) where
  abbrev pub read_portfolio : Bytes → Reading d.D
  read_portfolio raw = elim (parse_aggregate d json time raw) [
    | err e ↦ err ReadError.schema_error
    | ok snapshot ↦ ok (raw, snapshot)
  ]

  -- After `httpClient.Do`.
  unfoldable pub read_aggregate : Option HttpResponse → Reading d.D
  read_aggregate none = err ReadError.request_failed
  read_aggregate (some response) =
      if response.is_broken
      then err ReadError.request_failed
      else if ltb max_body (length (take (max_body + 1) response.content))
      then err ReadError.request_failed
      else if not (response.status == 200)
      then err (
          ReadError.api_error (aggregate_category text response.status response.content)
            response.status)
      else read_portfolio response.content

  unfoldable pub fetch_aggregate :
      (HttpRequest d.D → Option HttpResponse) → Client → Environment → Reading d.D
  fetch_aggregate send client environment =
      if lacks_credentials client
      then err ReadError.request_failed
      else read_aggregate
          (send (record { endpoint = Endpoint.aggregate_portfolio environment; request_id = none }))
