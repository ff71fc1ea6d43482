-- ===== src/Demo/Plans.antt =====
-- The two ways in which evaluateDemo (internal/platform/demo_strategy.go) ends.
use mfd.Demo.Cleared.{
  check_costs-Leads, check_eligibility-Leads, check_quote-Leads, IsCheap, IsEligible,
  check_instrument-Leads, IsTight, check_book-Leads, check_account-Leads, IsBuyable, IsEmptyBook,
  IsEmptyAccount,
}
use mfd.Demo.Verdict.{
  Leads-ok, Leads-check, empty_evaluation-IsGoing, Leads-check_some, HasPassed, Leads-bind, Leads,
  IsStopped,
}
use mfd.Demo.Evaluate.{demo_recheck_ask_multiplier, demo_amount}
use mfd.Prelude.Int.{ℤ}
use mfd.Demo.Provider.{MarketRate, MarketInstrument, Provider}
use mfd.Demo.Checks.{returned, with_demo_plan, run_checks, evaluate_demo, EvaluationClocks}
use mfd.Demo.Records.{DemoEvaluation, DemoPlan, Bytes}
use mfd.Decimal.{Decimals}
use mfd.Prelude.{refl, inr, ok, inl, err, ◌⊎◌, All, true, Result, some, ◌≡◌, String, Bool, Option}

-- The plan is for the fixed order, at the quote that was checked, and all that was checked holds.
pub record IsGrounded (d : Decimals) (clocks : EvaluationClocks) (client : Provider d.D)
    (p : DemoPlan d.D) : Type 0 where
  pub order :
      (p.symbol ≡ "BTC")
      × (p.amount_usd ≡ demo_amount d)
      × (p.leverage ≡ 1)
      × (p.order_type ≡ "mkt")
  pub instrument : MarketInstrument
  pub is_instrument : p.instrument_id ≡ instrument.id
  pub quote : MarketRate d.D
  pub is_quote : (p.bid ≡ quote.bid) × (p.ask ≡ quote.ask)
  pub ceiling :
      p.max_recheck_ask ≡ some (d.round_up 2 (d.mul quote.ask (demo_recheck_ask_multiplier d)))
  pub account-IsEmptyAccount : IsEmptyAccount d clocks.account client
  pub book-IsEmptyBook : IsEmptyBook client
  pub instrument-IsBuyable : IsBuyable client instrument
  pub quote-IsTight : IsTight d clocks.quote client instrument quote
  pub instrument-IsEligible : IsEligible d client instrument
  pub costs-IsCheap : IsCheap d clocks.costs client instrument p.estimated_upfront_cost_usd

-- The evaluation that ends with a plan: it had a client, the switch was on, every check passed.
pub record IsPlanned (d : Decimals) (clocks : EvaluationClocks) (bound : Option (Provider d.D))
    (enabled : Bool) (v : DemoEvaluation d.D) : Type 0 where
  pub client : Provider d.D
  pub is_bound : bound ≡ some client
  pub is_enabled : enabled ≡ true
  pub plan : DemoPlan d.D
  pub has_plan : v.plan ≡ some plan
  pub plan-IsGrounded : IsGrounded d clocks client plan
  pub checks-HavePassed : All HasPassed v.checks

module _ (d : Decimals) (account_id : Bytes → Option ℤ) (fingerprint : ℤ → String)
    (digest : Bytes → String) (clocks : EvaluationClocks) (bound : Option (Provider d.D))
    (enabled : Bool) where
  returned-Leads :
      {P : DemoEvaluation d.D → Type 0} (m : Result (DemoEvaluation d.D) (DemoEvaluation d.D))
      → Leads P m
      → IsStopped (returned d m) ⊎ P (returned d m)
  returned-Leads (err v) l = inl l.ends
  returned-Leads (ok v) l = inr l.ends

  run_checks-Leads :
      Leads
        (IsPlanned d clocks bound enabled)
        (run_checks d account_id fingerprint digest clocks bound enabled)
  unfolding run_checks with_demo_plan
  run_checks-Leads = Leads-bind (Leads-check_some _ _ _ _ empty_evaluation-IsGoing) λ w0 p0.
      Leads-bind (Leads-check _ _ _ _ p0.0) λ w1 p1.
        Leads-bind (check_account-Leads d w0.1 account_id clocks.account w1 p1.0) λ w2 p2.
          Leads-bind (check_book-Leads d w0.1 w2.0 p2.0) λ w3 p3.
            Leads-bind (check_instrument-Leads d w0.1 w3 p3.0) λ w4 p4.
              Leads-bind (check_quote-Leads d w0.1 clocks.quote w4.1 w4.0 p4.0) λ w5 p5.
                Leads-bind (check_eligibility-Leads d w0.1 w4.1 w5.0 p5.0) λ w6 p6.
                  Leads-bind (check_costs-Leads d w0.1 clocks.costs w4.1 w6 p6.0) λ w7 p7.
                    Leads-ok _ (record {
                      client = w0.1;
                      is_bound = p0.1;
                      is_enabled = p1.1;
                      plan = _;
                      has_plan = refl;
                      plan-IsGrounded = record {
                        order = (refl, refl, refl, refl);
                        instrument = w4.1;
                        is_instrument = refl;
                        quote = w5.1;
                        is_quote = (refl, refl);
                        ceiling = refl;
                        account-IsEmptyAccount = p2.1;
                        book-IsEmptyBook = p3.1;
                        instrument-IsBuyable = p4.1;
                        quote-IsTight = p5.1;
                        instrument-IsEligible = p6.1;
                        costs-IsCheap = p7.1;
                      };
                      checks-HavePassed = p7.0.all_passed;
                    })

  -- The evaluation either stops without a plan at the first check that fails, which is its last check
  -- and whose detail is its reason; or it passes all checks and ends with the plan of the fixed $100
  -- order, behind which stand an empty funded dollar account without orders, a buyable BTC
  -- instrument, a fresh quote whose spread is under the cap, the account's eligibility, and costs
  -- under the cap.
  pub evaluate_demo_lem :
      IsStopped (evaluate_demo d account_id fingerprint digest clocks bound enabled)
      ⊎ IsPlanned d clocks bound enabled
          (evaluate_demo d account_id fingerprint digest clocks bound enabled)
  unfolding evaluate_demo
  evaluate_demo_lem =
      returned-Leads (run_checks d account_id fingerprint digest clocks bound enabled)
        run_checks-Leads
