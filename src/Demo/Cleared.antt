-- ===== src/Demo/Cleared.antt =====
-- What a plan of evaluateDemo (internal/platform/demo_strategy.go) has behind it.
use mfd.Demo.Verdict.{
  Leads-ok, Leads-then, Leads-check, capture-IsGoing, Leads-check_some, Leads-bind, Leads, IsGoing,
}
use mfd.Prelude.Int.{pos, ℤ}
use mfd.Demo.Evaluate.{
  demo_spread_cap_bps, demo_cost_cap, spread_bps, sum_costs, demo_minimum_cash, seconds,
  recent_provider_time, demo_amount,
}
use mfd.Demo.Records.{Bytes, DemoEvaluation, Time}
use mfd.Demo.Checks.{
  exact_btc, check_account, check_quote, check_instrument, check_book, check_costs,
  check_eligibility,
}
use mfd.Demo.Provider.{
  TradingEligibility, MarketRate, TradingCosts, Snapshot, DemoBook, MarketInstrument, Provider,
}
use mfd.Decimal.{Le, Decimals}
use mfd.Prelude.{length, none, eq_iff, arith, true, ◌<◌, some, ◌≡◌, Option}

-- An account in dollars, funded, and without a position, order or copy portfolio.
pub record IsEmptyAccount (d : Decimals) (now : Time) (client : Provider d.D) : Type 0 where
  pub account : Snapshot d.D
  pub answered : client.fetch_aggregate.result ≡ some account
  pub recent : recent_provider_time account.provider_at now (seconds 120) ≡ true
  pub in_dollars : account.currency ≡ "USD"
  pub funded : d.greater_than_or_equal account.available_cash (demo_minimum_cash d) ≡ true
  pub sized :
      d.greater_than_or_equal account.total_value (d.mul (demo_amount d) (d.from_int (pos 100)))
      ≡ true
  pub no_holdings : (length account.instruments ≡ 0) × (account.mirror_count ≡ 0)

abbrev pub IsEmptyBook : {D : Type 0} → Provider D → Type 0
IsEmptyBook client =
    (book : DemoBook) × (client.fetch_demo_book.result ≡ some book)
    × (book.open_position_count ≡ 0)
    × (book.pending_order_count ≡ 0)

-- The exact BTC instrument, open for buying.
abbrev pub IsBuyable : {D : Type 0} → Provider D → MarketInstrument → Type 0
IsBuyable client i =
    ((client.find_instrument "BTC").result ≡ some i)
    × (i.symbol ≡ "BTC")
    × (0 < i.id)
    × (i.tradable ≡ true)
    × (i.buyable ≡ true)

-- A realtime quote of the instrument with a narrow spread.
pub record IsTight (d : Decimals) (now : Time) (client : Provider d.D) (i : MarketInstrument)
    (q : MarketRate d.D) : Type 0 where
  pub answered : (client.fetch_rate i.id).result ≡ some q
  pub realtime : q.quote_type ≡ "realtime"
  pub recent : recent_provider_time q.at now (seconds 30) ≡ true
  pub narrow : Le d (spread_bps d q) (demo_spread_cap_bps d)

-- The account may buy the amount without leverage.
pub record IsEligible (d : Decimals) (client : Provider d.D) (i : MarketInstrument) : Type 0 where
  pub eligibility : TradingEligibility d.D
  pub answered : (client.fetch_demo_eligibility i.id).result ≡ some eligibility
  pub opens : eligibility.can_open ≡ true
  pub unlevered : eligibility.real_long_unlevered ≡ true
  pub exposure : Le d eligibility.min_exposure (demo_amount d)
  pub position : Le d eligibility.min_position_amount (demo_amount d)

-- The estimate of the costs is recent, knows every cost, and is under the cap.
pub record IsCheap (d : Decimals) (now : Time) (client : Provider d.D) (i : MarketInstrument)
    (immediate : d.D) : Type 0 where
  pub costs : TradingCosts d.D
  pub answered : (client.fetch_demo_costs i.id (demo_amount d)).result ≡ some costs
  pub recent : recent_provider_time costs.updated_at now (seconds 120) ≡ true
  pub sums : sum_costs d costs.items (d.zero, true, true) ≡ (immediate, true, true)
  pub capped : Le d immediate (demo_cost_cap d)

exact_btc-some :
    (o : Option MarketInstrument) {i : MarketInstrument}
    → exact_btc o ≡ some i
    → (o ≡ some i) × (i.symbol ≡ "BTC") × (0 < i.id)
exact_btc-some none h = cc
exact_btc-some (some j) h = ground (arith, eq_iff j.symbol "BTC")

module _ (d : Decimals) (client : Provider d.D) where
  pub check_account-Leads :
      (account_id : Bytes → Option ℤ) (now : Time) (v : DemoEvaluation d.D)
      → IsGoing v
      → Leads
          (λ w. IsGoing w.0 × IsEmptyAccount d now client)
          (check_account d account_id now client v)
  unfolding check_account
  check_account-Leads account_id now v g =
      Leads-bind (Leads-check_some _ _ _ _ (capture-IsGoing _ _ v g)) λ w1 p1.
        Leads-bind (Leads-check _ _ _ _ p1.0) λ w2 p2.
          Leads-bind (Leads-check _ _ _ _ p2.0) λ w3 p3.
            Leads-bind (Leads-check_some _ _ _ _ p3.0) λ w4 p4.
              Leads-bind (Leads-check _ _ _ _ p4.0) λ w5 p5.
                Leads-bind (Leads-check _ _ _ _ p5.0) λ w6 p6. Leads-ok _ (
                  p6.0,
                  record {
                    account = w1.1;
                    answered = p1.1;
                    recent = p2.1;
                    in_dollars = (eq_iff w1.1.currency "USD").0 p3.1;
                    funded = ground (arith, p5.1);
                    sized = ground (arith, p5.1);
                    no_holdings = (ground (arith, p6.1), ground (arith, p6.1));
                  },
                )

  pub check_book-Leads :
      (v : DemoEvaluation d.D)
      → IsGoing v
      → Leads (λ w. IsGoing w × IsEmptyBook client) (check_book d client v)
  unfolding check_book
  check_book-Leads v g = Leads-bind (Leads-check_some _ _ _ _ (capture-IsGoing _ _ v g)) λ w1 p1.
      Leads-then (Leads-check _ _ _ _ p1.0)
        λ w2 p2. (p2.0, (w1.1, p1.1, ground (arith, p2.1), ground (arith, p2.1)))

  pub check_instrument-Leads :
      (v : DemoEvaluation d.D)
      → IsGoing v
      → Leads (λ w. IsGoing w.0 × IsBuyable client w.1) (check_instrument d client v)
  unfolding check_instrument
  check_instrument-Leads v g =
      Leads-bind (Leads-check_some _ _ _ _ (capture-IsGoing _ _ v g)) λ w1 p1.
        Leads-bind (Leads-check _ _ _ _ p1.0) λ w2 p2.
          let (found, symbol, id) = exact_btc-some (client.find_instrument "BTC").result p1.1 in
          Leads-ok _ (p2.0, (found, symbol, id, ground (arith, p2.1), ground (arith, p2.1)))

  pub check_quote-Leads :
      (now : Time) (i : MarketInstrument) (v : DemoEvaluation d.D)
      → IsGoing v
      → Leads (λ w. IsGoing w.0 × IsTight d now client i w.1) (check_quote d now client i v)
  unfolding check_quote
  check_quote-Leads now i v g =
      Leads-bind (Leads-check_some _ _ _ _ (capture-IsGoing _ _ v g)) λ w1 p1.
        Leads-bind (Leads-check _ _ _ _ p1.0) λ w2 p2.
          Leads-bind (Leads-check _ _ _ _ p2.0) λ w3 p3. Leads-ok _ (
            p3.0,
            record {
              answered = p1.1;
              realtime = (eq_iff w1.1.quote_type "realtime").0 (ground (arith, p2.1));
              recent = ground (arith, p2.1);
              narrow = p3.1;
            },
          )

  pub check_eligibility-Leads :
      (i : MarketInstrument) (v : DemoEvaluation d.D)
      → IsGoing v
      → Leads (λ w. IsGoing w × IsEligible d client i) (check_eligibility d client i v)
  unfolding check_eligibility
  check_eligibility-Leads i v g =
      Leads-bind (Leads-check_some _ _ _ _ (capture-IsGoing _ _ v g)) λ w1 p1.
        Leads-then (Leads-check _ _ _ _ p1.0) λ w2 p2. (
          p2.0,
          record {
            eligibility = w1.1;
            answered = p1.1;
            opens = ground (arith, p2.1);
            unlevered = ground (arith, p2.1);
            exposure = ground (arith, p2.1);
            position = ground (arith, p2.1);
          },
        )

  pub check_costs-Leads :
      (now : Time) (i : MarketInstrument) (v : DemoEvaluation d.D)
      → IsGoing v
      → Leads (λ w. IsGoing w.0 × IsCheap d now client i w.1) (check_costs d now client i v)
  unfolding check_costs
  check_costs-Leads now i v g =
      Leads-bind (Leads-check_some _ _ _ _ (capture-IsGoing _ _ v g)) λ w1 p1.
        Leads-bind (Leads-check _ _ _ _ p1.0) λ w2 p2.
          Leads-bind (Leads-check _ _ _ _ p2.0) λ w3 p3.
            Leads-bind (Leads-check _ _ _ _ p3.0) λ w4 p4. Leads-ok _ (
              p4.0,
              record {
                costs = w1.1;
                answered = p1.1;
                recent = p2.1;
                sums = ground (arith, p3.1);
                capped = p4.1;
              },
            )
