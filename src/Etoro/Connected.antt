-- ===== src/Etoro/Connected.antt =====
-- What the client of internal/etoro returns, and what that means for evaluateDemo
-- (internal/platform/demo_strategy.go) when it asks this client.
use mfd.Etoro.Checked.{
  read_cost_items-IsCost, after_request-ok, IsCost, read_lookup-IsLookup, read_receipt-request_id,
  IsLookup,
}
use mfd.Etoro.Orders.{
  read_lookup, read_receipt, ReceiptData, lookup_demo_order_by_id, OrderReceipt, submit_demo_market,
  lookup_demo_order, OrdersJson,
}
use mfd.Etoro.Wire.{
  Endpoint, request, ClientError, after_request, failed_with, Client, HttpResponse, HttpRequest,
  GoText,
}
use mfd.Prelude.{
  ◌==◌, ℕ, Bool, true, false, not, ◌||◌, Option, none, some, List, [], length, ◌≡◌, refl, ok, ◌<◌,
  All, arith, if◌then◌else◌,
}
use mfd.Demo.Records.{Bytes}
use mfd.Demo.Provider.{CostItem, TradingCosts}
use mfd.Demo.Transactions.{OrderLookup}
use mfd.Decimal.{Decimals}
use mfd.Etoro.Yields.{Yields, Yields-ok, Yields-bind, Yields-guard}
use mfd.Etoro.Market.{or_schema, same_id}
use mfd.Etoro.Terms.{CostsData, TermsJson, fetch_demo_costs, read_costs, read_cost_items}
use mfd.Etoro.Timestamps.{TimeParser, parse_provider_timestamp}

module _ {D : Type 0} (text : GoText) (json : OrdersJson)
    (send : HttpRequest D → Option HttpResponse) (client : Client) where
  -- A receipt that SubmitDemoMarket returns names the request that was sent, and an order: the response
  -- to another submission is never taken for this one's.
  pub submit_demo_market-request_id :
      (request_id instrument_id : ℕ) (amount : D) (receipt : OrderReceipt)
      → (submit_demo_market text json send client request_id instrument_id amount).result
        ≡ ok receipt
      → (receipt.reference_id ≡ request_id)
        × (0 < receipt.order_id)
        × ((answer : ReceiptData) × (json.receipt
                (submit_demo_market text json send client request_id instrument_id amount).raw
              ≡ some answer)
            × (answer.reference_id ≡ some request_id))
  unfolding submit_demo_market
  submit_demo_market-request_id request_id instrument_id amount receipt h =
      let sent =
        request text send client (Endpoint.demo_order instrument_id amount) (some request_id) in
      (read_receipt-request_id json request_id sent.raw).where_ok receipt
        (after_request-ok sent (read_receipt json request_id) h)

  -- A lookup that succeeds, by reference or by order, has a positive order number, a positive status
  -- and only positive position numbers.
  pub lookup_demo_order-IsLookup :
      (id : ℕ) (l : OrderLookup)
      → ((lookup_demo_order text json send client id).result ≡ ok l → IsLookup l)
        × ((lookup_demo_order_by_id text json send client id).result ≡ ok l → IsLookup l)
  unfolding lookup_demo_order lookup_demo_order_by_id
  lookup_demo_order-IsLookup id l =
      (λ h. read_by (Endpoint.lookup_by_reference id) h, by_number (id == 0))
    where
      read_by :
          (endpoint : Endpoint D)
          → (after_request (request text send client endpoint none) (read_lookup json)).result
            ≡ ok l
          → IsLookup l
      read_by endpoint h =
          let sent = request text send client endpoint none in
          (read_lookup-IsLookup json sent.raw).where_ok l
            (after_request-ok sent (read_lookup json) h)

      by_number :
          (b : Bool)
          → (if b
              then failed_with {A = OrderLookup} [] 0 ClientError.order_id_required
              else after_request
                  (request text send client (Endpoint.lookup_by_order id) none)
                  (read_lookup json)).result
            ≡ ok l
          → IsLookup l
      by_number true h = cc
      by_number false h = read_by (Endpoint.lookup_by_order id) h

module _ (d : Decimals) (text : GoText) (json : TermsJson d.D) (time : TimeParser)
    (send : HttpRequest d.D → Option HttpResponse) (client : Client) where
  read_costs-IsCost :
      (id : ℕ) (raw : Bytes)
      → Yields
          (λ c. (c.instrument_id ≡ id) × (0 < length c.items) × All (IsCost d text) c.items)
          (read_costs d text json time id raw)
  unfolding read_costs
  read_costs-IsCost id raw = Yields-bind (or_schema (json.costs raw)) _ λ answer a.
      Yields-guard (not (same_id answer.id id) || length answer.costs == 0) _ _ λ valid.
        Yields-bind (or_schema (parse_provider_timestamp time answer.updated)) _ λ at t.
          Yields-bind (read_cost_items d text answer.costs) _ λ items i.
            let read = (read_cost_items-IsCost d text answer.costs).where_ok items i in
            Yields-ok _ (refl, filled answer items valid read.0, read.1)
    where
      filled :
          (answer : CostsData d.D) (items : List (CostItem d.D))
          → (not (same_id answer.id id) || length answer.costs == 0) ≡ false
          → length items ≡ length answer.costs
          → 0 < length items
      filled answer items valid same = ground (arith, valid, same)

  -- An estimate of the costs is for the instrument, has an item, and every item is in dollars and not
  -- negative.
  pub fetch_demo_costs-IsCost :
      (id : ℕ) (amount : d.D) (costs : TradingCosts d.D)
      → (fetch_demo_costs d text json time send client id amount).result ≡ ok costs
      → (costs.instrument_id ≡ id) × (0 < length costs.items) × All (IsCost d text) costs.items
  unfolding fetch_demo_costs
  fetch_demo_costs-IsCost id amount costs h =
      let sent = request text send client (Endpoint.demo_costs id amount) none in
      (read_costs-IsCost id sent.raw).where_ok costs
        (after_request-ok sent (read_costs d text json time id) h)
