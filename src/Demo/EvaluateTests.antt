-- ===== src/Demo/EvaluateTests.antt =====
-- evaluateDemo on concrete answers, over whole decimals.
use mfd.Demo.Posted.{demo_execute-IsPlanned}
use mfd.Demo.Plans.{evaluate_demo_lem, IsPlanned}
use mfd.Demo.Verdict.{IsStopped}
use mfd.Demo.Provider.{CostType, Snapshot, Provider, MarketRate}
use mfd.Demo.Guard.{Confirmed}
use mfd.Prelude.Int.{◌-ℤ◌, ◌+ℤ◌, pos, ℤ, ◌*ℤ◌, saturate}
use mfd.Demo.Fixture.{clocks, receipt, client, digest, seal, prepared}
use mfd.Demo.Reconcile.{
  sync_after, mark_demo_unknown, apply_lookup, on_reply, demo_reconcile, reconciled_state,
}
use mfd.Demo.Transactions.{unknown_tx, submit_tx, hold_tx, lookup_tx, intent_tx}
use mfd.Demo.Execute.{record_submit, launch, hold_demo, submit_outcome, execute_plan, demo_execute}
use mfd.Demo.Reads.{demo_run}
use mfd.Demo.Records.{Bytes, DemoEvaluation, DemoStrategyRun}
use mfd.Demo.Lookup.{lookup_demo_order_with_fallback, demo_lookup_state}
use mfd.Demo.Tables.{select_run, add_demo_event, save_artifact, save_artifacts, update_run}
use mfd.Demo.Session.{◌>>=◌, query, pure, raise, transact}
use mfd.Decimal.Whole.{whole-HasLaws, whole, div_ℤ}
use mfd.Demo.Evaluate.{check, check_some, capture, sum_costs}
use mfd.Demo.Checks.{
  EvaluationClocks, evaluate_demo, run_checks, with_demo_plan, check_account, check_book,
  check_instrument, check_quote, check_eligibility, check_costs,
}
use mfd.Prelude.{
  ◌∙◌, sym, arith, refl, ◌≢◌, [], true, Option, some, suc, ◌∷◌, ◌⊎◌, false, String, ◌≡◌,
}

abbrev account : Snapshot ℤ
account = record {
  provider_at = pos 0;
  provider_time_assumed_utc = false;
  currency = "USD";
  available_cash = pos 9_000;
  total_value = pos 20_000;
  current_pnl = pos 0;
  instruments = [];
  mirror_count = 0;
}

abbrev quote : MarketRate ℤ
quote = record {
  instrument_id = 100_000;
  bid = pos 60_000;
  ask = pos 60_010;
  at = pos 5;
  time_assumed_utc = false;
  quote_type = "realtime";
}

abbrev provider : Provider ℤ
provider = record {
  fetch_aggregate = record { raw = 1 ∷ []; result = some account };
  fetch_demo_book = record {
    raw = 2 ∷ [];
    result = some (record { open_position_count = 0; pending_order_count = 0 });
  };
  find_instrument = λ symbol. record {
    raw = 3 ∷ [];
    result = some (record { id = 100_000; symbol = symbol; tradable = true; buyable = true });
  };
  fetch_rate = λ id. record { raw = 4 ∷ []; result = some quote };
  fetch_demo_eligibility = λ id. record {
    raw = 5 ∷ [];
    result = some (record {
      instrument_id = id;
      symbol = "BTC";
      can_open = true;
      min_exposure = pos 10;
      min_position_amount = pos 10;
      real_long_unlevered = true;
    });
  };
  fetch_demo_costs = λ id amount. record {
    raw = 6 ∷ [];
    result = some (record {
      instrument_id = id;
      updated_at = pos 6;
      items = record { type = CostType.market_spread; currency = "USD"; value = pos 1 } ∷ [];
    });
  };
}

abbrev times : EvaluationClocks
times = record { account = pos 10; quote = pos 11; costs = pos 12 }

abbrev account_id : Bytes → Option ℤ
account_id _ = some (pos 77)

abbrev fingerprint : ℤ → String
fingerprint _ = "demo"

abbrev evaluation : DemoEvaluation ℤ
evaluation = evaluate_demo whole account_id fingerprint digest times (some provider) true

evaluate_demo_lem_example :
    IsStopped evaluation ⊎ IsPlanned whole times (some provider) true evaluation
evaluate_demo_lem_example =
    evaluate_demo_lem whole account_id fingerprint digest times (some provider) true

rechecked :
    (demo_execute whole seal digest suc (some client) clocks 7 evaluation receipt prepared).1.posts
    ≡ 7 ∷ []
unfolding demo_execute ◌>>=◌ demo_run query pure raise transact execute_plan hold_demo launch
    record_submit submit_outcome hold_tx intent_tx submit_tx lookup_tx unknown_tx update_run
    save_artifact save_artifacts add_demo_event demo_reconcile on_reply apply_lookup
    mark_demo_unknown sync_after reconciled_state demo_lookup_state lookup_demo_order_with_fallback
    ◌+ℤ◌ ◌-ℤ◌ ◌*ℤ◌ div_ℤ saturate evaluate_demo run_checks with_demo_plan check_account check_book
    check_instrument check_quote check_eligibility check_costs check check_some capture sum_costs
rechecked = refl

rechecked_some :
    (demo_execute whole seal digest suc (some client) clocks 7 evaluation receipt prepared).1.posts
    ≢ prepared.posts
rechecked_some e = ground (arith, sym rechecked ∙ e)

demo_execute-IsPlanned_example :
    ((run : DemoStrategyRun ℤ) × (select_run 7 prepared.tables.runs ≡ some run)
      × Confirmed whole clocks.guard run evaluation)
    × IsPlanned whole times (some provider) true evaluation
demo_execute-IsPlanned_example =
    demo_execute-IsPlanned whole whole-HasLaws seal digest suc (some client) clocks 7 receipt
      account_id fingerprint times (some provider) true prepared rechecked_some
