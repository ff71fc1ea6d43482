-- ===== src/Etoro/Planning.antt =====
-- evaluateDemo (internal/platform/demo_strategy.go) over the client of internal/etoro.
use mfd.Demo.Evaluate.{demo_amount, sum_costs}
use mfd.Etoro.Connected.{fetch_demo_costs-IsCost}
use mfd.Demo.Plans.{evaluate_demo_lem, IsGrounded}
use mfd.Prelude.Int.{ℤ}
use mfd.Demo.Checks.{evaluate_demo, EvaluationClocks}
use mfd.Demo.Provider.{TradingCosts, Provider, Reply, Snapshot, MarketRate, MarketInstrument}
use mfd.Etoro.Market.{fetch_rate, fetch_demo_book, find_instrument, read_rate, MarketJson}
use mfd.Etoro.Terms.{fetch_demo_costs, fetch_demo_eligibility, TermsJson}
use mfd.Etoro.Checked.{IsCost, after_request-ok, read_rate-IsQuote, IsQuote}
use mfd.Etoro.Honest.{fetch_aggregate-IsRead}
use mfd.Demo.Cleared.{IsTight, IsEmptyAccount}
use mfd.Etoro.Timestamps.{TimeParser}
use mfd.Demo.Records.{DemoPlan, Time, Bytes}
use mfd.Decimal.{Decimals}
use mfd.Etoro.Wire.{Endpoint, request, Client, HttpResponse, HttpRequest, GoText, Answer}
use mfd.Broker.Records.{demo}
use mfd.Broker.Store.{Reading}
use mfd.Etoro.Aggregate.{Envelope, AggregateJson, fetch_aggregate}
use mfd.Prelude.{
  inr, inl, All, Bool, String, true, sym, ap, ◌∷◌, arith, Option, length, ◌≡◌, [], Result, List, ok,
  err, none, some, refl, ◌∙◌,
}

abbrev pub ok_part : {E A : Type 0} → Result E A → Option A
ok_part (ok a) = some a
ok_part (err e) = none

abbrev pub reply_of : {A : Type 0} → Answer A → Reply A
reply_of answer = record { raw = answer.raw; result = ok_part answer.result }

-- FetchAggregate returns no text along with an error.
abbrev pub aggregate_reply : {D : Type 0} → Reading D → Reply (Snapshot D)
aggregate_reply (ok (raw, snapshot)) = record { raw = raw; result = some snapshot }
aggregate_reply (err e) = record { raw = []; result = none }

-- What encoding/json makes of the responses.
pub record Json (D : Type 0) : Type 0 where
  pub aggregate : AggregateJson D
  pub market : MarketJson D
  pub terms : TermsJson D

module _ (d : Decimals) (text : GoText) (json : Json d.D) (time : TimeParser)
    (send : HttpRequest d.D → Option HttpResponse) (client : Client) where
  -- The client, as evaluateDemo asks it.
  unfoldable pub client_provider : Provider d.D
  client_provider = record {
    fetch_aggregate = aggregate_reply (fetch_aggregate d json.aggregate time text send client demo);
    fetch_demo_book = reply_of (fetch_demo_book d text json.market time send client);
    find_instrument =
        λ symbol. reply_of (find_instrument d text json.market time send client symbol);
    fetch_rate = λ id. reply_of (fetch_rate d text json.market time send client id);
    fetch_demo_eligibility =
        λ id. reply_of (fetch_demo_eligibility d text json.terms time send client id);
    fetch_demo_costs =
        λ id amount. reply_of (fetch_demo_costs d text json.terms time send client id amount);
  }

ok_part-some : {E A : Type 0} (r : Result E A) (a : A) → ok_part r ≡ some a → r ≡ ok a
ok_part-some (ok b) a h = ground (arith, h)
ok_part-some (err e) a h = cc

aggregate_reply-some :
    {D : Type 0} (r : Reading D) (s : Snapshot D)
    → (aggregate_reply r).result ≡ some s
    → (raw : Bytes) × (r ≡ ok (raw, s))
aggregate_reply-some (ok (raw, t)) s h = (raw, ground (arith, h))
aggregate_reply-some (err e) s h = cc

no_members : {A : Type 0} (xs : List A) → length xs ≡ 0 → xs ≡ []
no_members [] h = refl
no_members (x ∷ xs) h = ground (arith, h)

-- The response in which the account showed no instrument and no mirror.
pub record ShowsNothing (d : Decimals) (json : AggregateJson d.D) (raw : Bytes) : Type 0 where
  pub envelope : Envelope
  pub decoded : json.envelope raw ≡ some envelope
  pub no_aggregates : envelope.instrument_aggregates ≡ some []
  pub no_mirrors : envelope.mirrors ≡ some []

module _ (d : Decimals) (text : GoText) (json : Json d.D) (time : TimeParser)
    (send : HttpRequest d.D → Option HttpResponse) (client : Client) where
  account-ShowsNothing :
      (now : Time)
      → IsEmptyAccount d now (client_provider d text json time send client)
      → (raw : Bytes) × (account : Snapshot d.D) × (fetch_aggregate d json.aggregate time text send
            client demo
          ≡ ok (raw, account))
        × ShowsNothing d json.aggregate raw
  unfolding client_provider
  account-ShowsNothing now account =
      let (raw, read) = aggregate_reply-some _ account.account account.answered in
      let whole =
        (fetch_aggregate-IsRead d json.aggregate time text send client demo raw account.account
          read).is_whole in
      (
        raw,
        account.account,
        read,
        record {
          envelope = whole.envelope;
          decoded = whole.decoded;
          no_aggregates =
              whole.has_aggregates
              ∙ ap some
                  (no_members whole.aggregates (sym whole.all_instruments ∙ account.no_holdings.0));
          no_mirrors =
              whole.has_mirrors
              ∙ ap some (no_members whole.mirrors (sym whole.all_mirrors ∙ account.no_holdings.1));
        },
      )

  fetch_rate-IsQuote :
      (now : Time) (i : MarketInstrument) (q : MarketRate d.D)
      → IsTight d now (client_provider d text json time send client) i q
      → IsQuote d i.id q
  unfolding client_provider fetch_rate
  fetch_rate-IsQuote now i q tight =
      let sent = request text send client (Endpoint.rates i.id) none in
      (read_rate-IsQuote d json.market time i.id sent.raw).where_ok q (
        after_request-ok sent (read_rate d json.market time i.id) (ok_part-some _ q tight.answered))

  -- The plan of a purchase of its instrument, as the client's responses have it: the response about the
  -- account lists no instrument and no mirror; the plan's prices are those that FetchRate returned for
  -- the instrument, a positive bid and an ask above it; and its estimate is the sum of the costs that
  -- FetchDemoCosts returned for the instrument and the amount, in dollars and none of them negative.
  pub record IsFounded (p : DemoPlan d.D) : Type 0 where
    pub raw : Bytes
    pub account : Snapshot d.D
    pub read : fetch_aggregate d json.aggregate time text send client demo ≡ ok (raw, account)
    pub shows_nothing : ShowsNothing d json.aggregate raw
    pub quote : MarketRate d.D
    pub quoted : (fetch_rate d text json.market time send client p.instrument_id).result ≡ ok quote
    pub has_prices : (p.bid ≡ quote.bid) × (p.ask ≡ quote.ask)
    pub is_positive_bid : d.is_positive p.bid ≡ true
    pub is_above : d.greater_than p.ask p.bid ≡ true
    pub costs : TradingCosts d.D
    pub priced :
        (fetch_demo_costs d text json.terms time send client p.instrument_id (demo_amount d)).result
        ≡ ok costs
    pub sums :
        sum_costs d costs.items (d.zero, true, true) ≡ (p.estimated_upfront_cost_usd, true, true)
    pub no_rebates : All (IsCost d text) costs.items

  grounded-IsFounded :
      (clocks : EvaluationClocks) (p : DemoPlan d.D)
      → IsGrounded d clocks (client_provider d text json time send client) p
      → IsFounded p
  unfolding client_provider
  grounded-IsFounded clocks p g =
      let (raw, account, read, nothing) =
        account-ShowsNothing clocks.account g.account-IsEmptyAccount in
      let quote = fetch_rate-IsQuote clocks.quote g.instrument g.quote g.quote-IsTight in
      let cheap = g.costs-IsCheap in
      record {
        raw = raw;
        account = account;
        read = read;
        shows_nothing = nothing;
        quote = g.quote;
        quoted = rw g.is_instrument (ok_part-some _ _ g.quote-IsTight.answered);
        has_prices = g.is_quote;
        is_positive_bid = rw g.is_quote.0 quote.is_positive_bid;
        is_above = rw (g.is_quote.0, g.is_quote.1) quote.is_above;
        costs = cheap.costs;
        priced = rw g.is_instrument (ok_part-some _ _ cheap.answered);
        sums = cheap.sums;
        no_rebates =
            (fetch_demo_costs-IsCost d text json.terms time send client g.instrument.id
              (demo_amount d) cheap.costs (ok_part-some _ _ cheap.answered)).2;
      }

  -- A plan that evaluateDemo makes with this client is founded on its responses: the one that
  -- FetchAggregate returned lists no instrument and no mirror; the plan's prices are those that
  -- FetchRate returned for its instrument, a positive bid and an ask above it; and its estimate is the
  -- sum of the costs that FetchDemoCosts returned for the instrument and the amount, in dollars and
  -- none of them negative.
  pub evaluate_demo-IsFounded :
      (account_id : Bytes → Option ℤ) (fingerprint : ℤ → String) (digest : Bytes → String)
      (clocks : EvaluationClocks) (enabled : Bool) (p : DemoPlan d.D)
      → (evaluate_demo d account_id fingerprint digest clocks
          (some (client_provider d text json time send client))
          enabled).plan
        ≡ some p
      → IsFounded p
  evaluate_demo-IsFounded account_id fingerprint digest clocks enabled p h =
      elim (evaluate_demo_lem d account_id fingerprint digest clocks
        (some (client_provider d text json time send client)) enabled) [
          | inl stopped ↦ absurd (planless stopped.no_plan h)
          | inr planned ↦
              let same : p ≡ planned.plan = unique h planned.has_plan in
              let own : client_provider d text json time send client ≡ planned.client =
                unique refl planned.is_bound in
              grounded-IsFounded clocks p (rw (same, own) planned.plan-IsGrounded)
        ]
    where
      planless : {A : Type 0} {o : Option A} {a : A} → o ≡ none → o ≡ some a → ⊥
      planless e f = cc

      unique : {A : Type 0} {o : Option A} {a b : A} → o ≡ some a → o ≡ some b → a ≡ b
      unique e f = cc
