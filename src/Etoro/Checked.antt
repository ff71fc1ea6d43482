-- ===== src/Etoro/Checked.antt =====
-- What the readers of internal/etoro/trading.go make sure of.
use mfd.Etoro.Terms.{read_cost, read_cost_items, non_negative, CostData}
use mfd.Etoro.Wire.{after_request, ClientError, GoText, Answer}
use mfd.Etoro.Orders.{
  read_error_code, ReceiptData, read_lookup, refers_to, read_receipt, OrdersJson, is_positive_id,
}
use mfd.Prelude.{
  ℕ, Bool, true, false, not, ◌||◌, Option, none, some, List, [], ◌∷◌, length, ◌≡◌, refl, Result, ok,
  err, ◌<◌, All, arith, map, keep, suc, if◌then◌else◌, ap,
}
use mfd.Prelude.Int.{ℤ, pos_part}
use mfd.Demo.Records.{Bytes}
use mfd.Demo.Transactions.{OrderLookup}
use mfd.Demo.Provider.{MarketRate, CostItem}
use mfd.Decimal.{Decimals}
use mfd.Etoro.Yields.{
  Yields, Yields-ok, Yields-err, Yields-bind, Yields-guard, if_Yields, or_schema-some,
}
use mfd.Etoro.Market.{RateItem, or_schema, read_rate, only_result, MarketJson}
use mfd.Etoro.Timestamps.{TimeParser, parse_provider_timestamp}
use text.Mathlib.Text.{◌==◌ as str_eq}

-- A quote of the instrument: the bid is positive, the ask above it.
pub record IsQuote (d : Decimals) (id : ℕ) (r : MarketRate d.D) : Type 0 where
  pub is_of : r.instrument_id ≡ id
  pub is_positive_bid : d.is_positive r.bid ≡ true
  pub is_above : d.greater_than r.ask r.bid ≡ true

-- The cost is in dollars (in any case of letters), and not negative.
abbrev pub IsCost : (d : Decimals) → GoText → CostItem d.D → Type 0
IsCost d text item =
    (text.equal_fold item.currency "USD" ≡ true) × (d.is_negative item.value ≡ false)

-- The order and the status have numbers; so have the positions.
pub record IsLookup (l : OrderLookup) : Type 0 where
  pub has_order : 0 < l.order_id
  pub has_status : 0 < l.status_id
  pub has_positions : All (λ p. 0 < p) l.position_ids

-- A request that succeeds has had its response read.
pub after_request-ok :
    {A : Type 0} (answer : Answer (Unit {0})) (next : Bytes → Result ClientError A) {a : A}
    → (after_request answer next).result ≡ ok a
    → next answer.raw ≡ ok a
after_request-ok {A} answer next {a} = by_result answer.result
  where
    by_result :
        (r : Result ClientError (Unit {0}))
        → (elim r as (λ _. Result ClientError A) [ err e ↦ err e | ok u ↦ next answer.raw ]) ≡ ok a
        → next answer.raw ≡ ok a
    by_result (err e) h = cc
    by_result (ok u) h = h

keep-positive : (ids : List ℤ) → All (λ p. 0 < p) (map pos_part (keep is_positive_id ids))
keep-positive [] = tt
keep-positive (id ∷ ids) = by_sign (is_positive_id id) refl (keep-positive ids)
  where
    by_sign :
        (b : Bool)
        → is_positive_id id ≡ b
        → All (λ p. 0 < p) (map pos_part (keep is_positive_id ids))
        → All
            (λ p. 0 < p)
            (map pos_part (if b then id ∷ keep is_positive_id ids else keep is_positive_id ids))
    by_sign true e rest = (ground (arith, e), rest)
    by_sign false e rest = rest

positive_parts :
    (a b : ℤ)
    → (not (is_positive_id a) || not (is_positive_id b)) ≡ false
    → (0 < pos_part a) × (0 < pos_part b)
positive_parts a b h = (ground (arith, h), ground (arith, h))

receipt_parts :
    (id : ℤ) (reference : Option ℕ) (request_id : ℕ)
    → (not (is_positive_id id) || not (refers_to reference request_id)) ≡ false
    → (0 < pos_part id) × (reference ≡ some request_id)
receipt_parts id none request_id h = (ground (arith, h), ground (arith, h))
receipt_parts id (some r) request_id h =
    let same : r ≡ request_id = ground (arith, h) in (ground (arith, h), ap some same)

module _ (json : OrdersJson) where
  pub read_lookup-IsLookup : (raw : Bytes) → Yields IsLookup (read_lookup json raw)
  unfolding read_lookup
  read_lookup-IsLookup raw = Yields-bind (or_schema (json.lookup raw)) _ λ answer a.
      Yields-guard (not (is_positive_id answer.order_id) || not (is_positive_id answer.status_id)) _
        _
        λ valid. Yields-bind (read_error_code answer.error_code) _ λ code c. Yields-ok _ (record {
          has_order = (positive_parts answer.order_id answer.status_id valid).0;
          has_status = (positive_parts answer.order_id answer.status_id valid).1;
          has_positions = keep-positive answer.executions;
        })

  -- A receipt is for the request that was sent, and has an order's number.
  pub read_receipt-request_id :
      (request_id : ℕ) (raw : Bytes)
      → Yields
          (λ r.
            (r.reference_id ≡ request_id)
            × (0 < r.order_id)
            × ((answer : ReceiptData) × (json.receipt raw ≡ some answer)
                × (answer.reference_id ≡ some request_id)))
          (read_receipt json request_id raw)
  unfolding read_receipt
  read_receipt-request_id request_id raw = Yields-bind (or_schema (json.receipt raw)) _ λ answer a.
      Yields-guard
        (not (is_positive_id answer.order_id) || not (refers_to answer.reference_id request_id)) _ _
        λ valid. Yields-ok _ (
          refl,
          (receipt_parts answer.order_id answer.reference_id request_id valid).0,
          (
            answer,
            or_schema-some (json.receipt raw) answer a,
            (receipt_parts answer.order_id answer.reference_id request_id valid).1,
          ),
        )

bid_and_ask :
    (d : Decimals) (item : RateItem d.D)
    → (not (d.is_positive item.bid) || not (d.greater_than item.ask item.bid)) ≡ false
    → (d.is_positive item.bid ≡ true) × (d.greater_than item.ask item.bid ≡ true)
bid_and_ask d item h = (ground (arith, h), ground (arith, h))

module _ (d : Decimals) (json : MarketJson d.D) (time : TimeParser) where
  pub read_rate-IsQuote :
      (id : ℕ) (raw : Bytes) → Yields (IsQuote d id) (read_rate d json time id raw)
  unfolding read_rate
  read_rate-IsQuote id raw = Yields-bind (or_schema (json.results raw)) _ λ results r.
      Yields-bind (only_result d json time id results) _ λ item i.
        Yields-bind (or_schema (parse_provider_timestamp time item.date)) _ λ at t.
          Yields-guard (not (d.is_positive item.bid) || not (d.greater_than item.ask item.bid)) _ _
            λ valid. Yields-ok _ (record {
              is_of = refl;
              is_positive_bid = (bid_and_ask d item valid).0;
              is_above = (bid_and_ask d item valid).1;
            })

module _ (d : Decimals) (text : GoText) where
  pub non_negative-Yields :
      (value : Option d.D) → Yields (λ v. d.is_negative v ≡ false) (non_negative d value)
  non_negative-Yields none = Yields-err ClientError.schema_failure
  non_negative-Yields (some v) =
      if_Yields (d.is_negative v) _ _ (Yields-err ClientError.schema_failure) (λ h. Yields-ok v h)

  read_cost-IsCost : (cost : CostData d.D) → Yields (IsCost d text) (read_cost d text cost)
  read_cost-IsCost cost =
      if_Yields (str_eq cost.type "" || not (text.equal_fold cost.currency "USD")) _ _
        (Yields-err ClientError.schema_failure)
        λ valid. Yields-bind (non_negative d cost.value) _ λ value v.
          Yields-ok _ (in_dollars valid, (non_negative-Yields cost.value).where_ok value v)
    where
      in_dollars :
          (str_eq cost.type "" || not (text.equal_fold cost.currency "USD")) ≡ false
          → text.equal_fold cost.currency "USD" ≡ true
      in_dollars h = ground (arith, h)

  pub read_cost_items-IsCost :
      (costs : List (CostData d.D))
      → Yields
          (λ items. (length items ≡ length costs) × All (IsCost d text) items)
          (read_cost_items d text costs)
  unfolding read_cost_items
  read_cost_items-IsCost [] = Yields-ok [] (refl, tt)
  read_cost_items-IsCost (cost ∷ costs) =
      let rest = read_cost_items-IsCost costs in
      Yields-bind (read_cost d text cost) _ λ item i.
        Yields-bind (read_cost_items d text costs) _ λ items r. Yields-ok (item ∷ items) (
          ap suc (rest.where_ok items r).0,
          ((read_cost-IsCost cost).where_ok item i, (rest.where_ok items r).1),
        )
