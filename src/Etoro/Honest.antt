-- ===== src/Etoro/Honest.antt =====
-- What FetchAggregate and ParseAggregate (internal/etoro/client.go) return.
use mfd.Broker.Calls.{IsHonest}
use mfd.Broker.Records.{Environment, ReadError}
use mfd.Broker.Store.{Reading}
use Prim.Native.Nat.{zero}
use mfd.Prelude.Int.{pos, ltb_ℤ}
use mfd.Etoro.Wire.{
  Endpoint, lacks_credentials, Client, HttpResponse, HttpRequest, max_body, GoText,
}
use mfd.Etoro.Timestamps.{parse_provider_timestamp, TimeParser}
use mfd.Prelude.{
  none, ◌==◌, Option, all_by, ok, err, Result, ◌||◌, [], ◌+◌, suc, take, ap, refl, ◌∷◌, ltb, not,
  ◌≤◌, ℕ, false, some, List, length, ◌≡◌, ◌≢◌, ◌<◌, All, arith, eq_iff,
}
use mfd.Demo.Records.{Bytes}
use mfd.Demo.Provider.{Snapshot, Instrument}
use mfd.Decimal.{Decimals}
use mfd.Etoro.Aggregate.{
  read_aggregate, fetch_aggregate, instrument_fields, has_field, required_decimal, or_error,
  AggregateError, read_portfolio, parsed_aggregate, parse_aggregate, parse_instruments,
  ProviderInstrument, instrument_of, parse_instrument, Envelope, AggregateJson,
}
use mfd.Etoro.Yields.{
  if_Yields, Yields-err, or_error-some, Yields, Yields-ok, Yields-bind, Yields-guard,
}
use text.Mathlib.Text.{◌==◌ as str_eq}

abbrev pub IsHolding : {D : Type 0} → Instrument D → Type 0
IsHolding i = (0 < i.instrument_id) × (i.asset_currency ≢ "")

-- The portfolio is in dollars and not worth less than nothing, and it holds every instrument and
-- counts every mirror of the response.
pub record IsWhole (d : Decimals) (json : AggregateJson d.D) (raw : Bytes) (s : Snapshot d.D)
    : Type 0 where
  pub in_dollars : s.currency ≡ "USD"
  pub is_worth : d.is_negative s.total_value ≡ false
  pub envelope : Envelope
  pub decoded : json.envelope raw ≡ some envelope
  pub aggregates : List Bytes
  pub has_aggregates : envelope.instrument_aggregates ≡ some aggregates
  pub all_instruments : length s.instruments ≡ length aggregates
  pub holdings : All IsHolding s.instruments
  pub mirrors : List Bytes
  pub has_mirrors : envelope.mirrors ≡ some mirrors
  pub all_mirrors : s.mirror_count ≡ length mirrors

valid_instrument :
    {D : Type 0} (provider : ProviderInstrument D)
    → (not (ltb_ℤ (pos 0) provider.instrument_id) || str_eq provider.asset_currency "") ≡ false
    → IsHolding (instrument_of provider)
valid_instrument provider h =
    (ground (arith, h), λ e. ground (arith, h, eq_iff provider.asset_currency "", e))

module _ (d : Decimals) (json : AggregateJson d.D) (time : TimeParser) where
  parse_instrument-IsHolding : (item : Bytes) → Yields IsHolding (parse_instrument d json time item)
  unfolding parse_instrument
  parse_instrument-IsHolding item =
      Yields-bind (or_error AggregateError.invalid_instrument (json.fields item)) _ λ fields f.
        Yields-guard (not (all_by (has_field fields) instrument_fields)) _ _ λ complete.
          Yields-bind (or_error AggregateError.invalid_instrument (json.provider item)) _
            λ provider p.
              Yields-guard
                (not (ltb_ℤ (pos 0) provider.instrument_id) || str_eq provider.asset_currency "") _
                _ λ valid. Yields-ok (instrument_of provider) (valid_instrument provider valid)

  parse_instruments-All :
      (items : List Bytes)
      → Yields
          (λ is. (length is ≡ length items) × All IsHolding is)
          (parse_instruments d json time items)
  unfolding parse_instruments
  parse_instruments-All [] = Yields-ok [] (refl, tt)
  parse_instruments-All (item ∷ items) =
      let rest = parse_instruments-All items in
      Yields-bind (parse_instrument d json time item) _ λ i e.
        Yields-bind (parse_instruments d json time items) _ λ is f. Yields-ok (i ∷ is) (
          ap suc (rest.where_ok is f).0,
          ((parse_instrument-IsHolding item).where_ok i e, (rest.where_ok is f).1),
        )

  parse_aggregate-IsWhole :
      (raw : Bytes) → Yields (IsWhole d json raw) (parse_aggregate d json time raw)
  unfolding parse_aggregate
  parse_aggregate-IsWhole raw =
      Yields-bind (or_error AggregateError.undecodable (json.envelope raw)) _ λ envelope e.
        Yields-guard (not (json.nothing_follows raw)) _ _ λ alone.
          Yields-bind
            (or_error AggregateError.bad_timestamp
              (parse_provider_timestamp time envelope.timestamp))
            _
            λ at t. Yields-guard (not (str_eq envelope.account_currency "USD")) _ _ λ dollars.
              Yields-bind (or_error AggregateError.bad_header envelope.account_totals) _ λ totals q.
                Yields-bind (or_error AggregateError.bad_header envelope.instrument_aggregates) _
                  λ aggregates a.
                    Yields-bind (or_error AggregateError.bad_header envelope.mirrors) _ λ mirrors m.
                      Yields-bind (required_decimal d json time totals "accountAvailableCash") _
                        λ cash c.
                          Yields-bind (required_decimal d json time totals "accountTotalValue") _
                            λ total v.
                              Yields-bind (required_decimal d json time totals "accountCurrentPnl")
                                _
                                λ pnl p. Yields-guard (d.is_negative total) _ _ λ worth.
                                  Yields-bind (parse_instruments d json time aggregates) _
                                    λ instruments i. Yields-ok _ (record {
                                      in_dollars = refl;
                                      is_worth = worth;
                                      envelope = envelope;
                                      decoded =
                                          or_error-some AggregateError.undecodable
                                            (json.envelope raw) _ e;
                                      aggregates = aggregates;
                                      has_aggregates =
                                          or_error-some AggregateError.bad_header
                                            envelope.instrument_aggregates _ a;
                                      all_instruments =
                                          ((parse_instruments-All aggregates).where_ok instruments
                                            i).0;
                                      holdings =
                                          ((parse_instruments-All aggregates).where_ok instruments
                                            i).1;
                                      mirrors = mirrors;
                                      has_mirrors =
                                          or_error-some AggregateError.bad_header envelope.mirrors _
                                            m;
                                      all_mirrors = refl;
                                    })

length-take :
    {A : Type 0} (n : ℕ) (xs : List A) → ltb n (length (take (n + 1) xs)) ≡ false → length xs ≤ n
length-take zero [] h = ground arith
length-take zero (x ∷ xs) h = ground (arith, h)
length-take (suc n) [] h = ground arith
length-take (suc n) (x ∷ xs) h = ground (arith, length-take n xs)

-- What a read that succeeded says of its response.
pub record IsRead (d : Decimals) (json : AggregateJson d.D) (time : TimeParser) (raw : Bytes)
    (s : Snapshot d.D) : Type 0 where
  pub parses : parsed_aggregate d json time raw ≡ some s
  pub is_short : length raw ≤ max_body
  pub is_whole : IsWhole d json raw s

module _ (d : Decimals) (json : AggregateJson d.D) (time : TimeParser) (text : GoText) where
  read_portfolio-IsRead :
      (raw : Bytes)
      → length raw ≤ max_body
      → Yields (λ r. IsRead d json time r.0 r.1) (read_portfolio d json time text raw)
  read_portfolio-IsRead raw short = by_result (parse_aggregate d json time raw) refl
    where
      by_result :
          (r : Result AggregateError (Snapshot d.D))
          → parse_aggregate d json time raw ≡ r
          → Yields
              (λ r. IsRead d json time r.0 r.1)
              (elim r as (λ _. Reading d.D) [
                | err e ↦ err ReadError.schema_error
                | ok snapshot ↦ ok (raw, snapshot)
              ])
      by_result (err e) h = Yields-err ReadError.schema_error
      by_result (ok s) h =
          Yields-ok (raw, s)
            (record {
              parses = rw (h, parsed_aggregate) refl;
              is_short = short;
              is_whole = (parse_aggregate-IsWhole d json time raw).where_ok s h;
            })

  read_aggregate-IsRead :
      (o : Option HttpResponse)
      → Yields (λ r. IsRead d json time r.0 r.1) (read_aggregate d json time text o)
  unfolding read_aggregate
  read_aggregate-IsRead none = Yields-err ReadError.request_failed
  read_aggregate-IsRead (some response) =
      if_Yields response.is_broken _ _ (Yields-err ReadError.request_failed) λ whole.
        if_Yields (ltb max_body (length (take (max_body + 1) response.content))) _ _
          (Yields-err ReadError.request_failed)
          λ short. if_Yields (not (response.status == 200)) _ _ (Yields-err _) λ good.
            read_portfolio-IsRead response.content (length-take max_body response.content short)

  -- A portfolio that FetchAggregate returns is the one that ParseAggregate reads from the response that
  -- comes with it, of at most 2 MiB: in dollars, worth no less than zero, with every instrument of the
  -- response, each with a positive number and a currency, and with every mirror counted.
  pub fetch_aggregate-IsRead :
      (send : HttpRequest d.D → Option HttpResponse) (client : Client) (environment : Environment)
      (raw : Bytes) (s : Snapshot d.D)
      → fetch_aggregate d json time text send client environment ≡ ok (raw, s)
      → IsRead d json time raw s
  unfolding fetch_aggregate
  fetch_aggregate-IsRead send client environment raw s h =
      (if_Yields (lacks_credentials client) _ _ (Yields-err ReadError.request_failed) (λ known.
          read_aggregate-IsRead (
            send (record {
              endpoint = Endpoint.aggregate_portfolio environment;
              request_id = none;
            })))).where_ok
        (raw, s) h

  -- The client is what the broker service takes for granted: see Broker.
  pub fetch_aggregate-IsHonest :
      (send : ℕ → HttpRequest d.D → Option HttpResponse) (clients : ℕ → Client)
      → IsHonest
          (parsed_aggregate d json time)
          (λ c e. fetch_aggregate d json time text (send c) (clients c) e)
  fetch_aggregate-IsHonest send clients = record {
    parses = λ c e raw s h. (fetch_aggregate-IsRead (send c) (clients c) e raw s h).parses;
  }
