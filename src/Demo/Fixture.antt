-- ===== src/Demo/Fixture.antt =====
-- One decision of the Demo strategy, and the inputs of the calls that take it through, over whole
-- decimals, with a cipher that seals nothing.
use mfd.Prelude.Int.{ℤ, pos}
use mfd.Demo.Transactions.{OrderLookup}
use mfd.Demo.Execute.{Clocks, SubmitReply}
use mfd.Demo.Reads.{preview_row, DemoRunView}
use mfd.Demo.Lifecycle.Operations.{Operation}
use mfd.Demo.Records.{submitting, filled, DemoEvaluation, DemoStrategyRun, DemoPlan, Tables, Bytes}
use mfd.Demo.Session.{Session}
use mfd.Demo.Lookup.{api_error, LookupClient}
use mfd.Prelude.{ok, err, false, some, [], none, Option, ◌∷◌, String, List, ℕ}

abbrev pub buy_plan : DemoPlan ℤ
buy_plan = record {
  symbol = "BTC";
  account_fingerprint = "demo";
  instrument_id = 100_000;
  amount_usd = pos 100;
  order_type = "mkt";
  settlement_type = "real";
  leverage = 1;
  bid = pos 60_000;
  ask = pos 60_010;
  limit_rate = none;
  max_recheck_ask = some (pos 60_130);
  spread_bps = pos 1;
  quote_at = pos 5;
  quote_time_assumed_utc = false;
  estimated_upfront_cost_usd = pos 1;
  source_sha256 = [];
}

abbrev pub passed : DemoEvaluation ℤ
passed = record { plan = some buy_plan; checks = []; artifacts = []; reason = "All checks passed." }

abbrev pub failed_checks : DemoEvaluation ℤ
failed_checks = record { plan = none; checks = []; artifacts = []; reason = "A check failed." }

abbrev pub started : Session ℤ Bytes ℕ
started = record {
  tables = record { runs = []; events = []; artifacts = [] };
  intents = [];
  posts = [];
  broker = 0;
  faults = [];
}

abbrev pub ready_run : DemoStrategyRun ℤ
ready_run = preview_row "key" 7 (pos 0) (pos 1) passed

abbrev pub prepared : Session ℤ Bytes ℕ
prepared = record started { tables = record { runs = ready_run ∷ []; events = []; artifacts = [] } }

abbrev pub lookup : OrderLookup
lookup = record {
  order_id = 55;
  status_id = 3;
  status_name = "Filled";
  error_code = "";
  error_message = "";
  position_ids = 900 ∷ [];
}

abbrev pub client : LookupClient
client = record {
  by_reference = λ _. record { raw = 1 ∷ []; http_status = 404; result = err (api_error 404) };
  by_order_id = λ _. record { raw = 2 ∷ []; http_status = 200; result = ok lookup };
}

abbrev pub clocks : Clocks
clocks = record {
  guard = pos 2;
  intent = pos 3;
  recorded = pos 4;
  reconcile = pos 5;
  lookup = pos 6;
}

abbrev pub receipt : SubmitReply
receipt = record { raw = 1 ∷ []; http_status = 200; order_id = 55; failed = false }

abbrev pub seal : Bytes → Option Bytes
seal = some

abbrev pub digest : Bytes → String
digest _ = "sha256"

-- The retried execution finds the decision filled.
abbrev pub calls : List (Operation ℤ)
calls =
    Operation.preview "key" 7 (pos 0) (pos 1) passed
    ∷ Operation.execute (some client) clocks 7 passed receipt
    ∷ Operation.execute (some client) clocks 7 passed receipt
    ∷ Operation.reconcile_pending (some client) (pos 9) (pos 9)
    ∷ []

abbrev pub first_call : Operation ℤ
first_call = Operation.preview "key" 7 (pos 0) (pos 1) passed

abbrev pub completed : Session ℤ Bytes ℕ
completed = record started {
  tables = record { runs = record ready_run { status = filled } ∷ []; events = []; artifacts = [] };
}

abbrev pub first_view : DemoRunView ℤ
first_view = record {
  run = ready_run;
  events =
      record {
        run_id = 7;
        at = pos 1;
        kind = "decision";
        summary = "READY: All checks passed.";
        http_status = 0;
      }
      ∷ [];
}

abbrev pub previewed_session : Session ℤ Bytes ℕ
previewed_session = record started {
  tables = record { runs = ready_run ∷ []; events = first_view.events; artifacts = [] };
}

-- Decision 6 is being submitted, decision 7 is ready.
abbrev pub busy_tables : Tables ℤ Bytes
busy_tables = record {
  runs =
      ready_run
      ∷ record ready_run { id = 6; idempotency_key = "earlier"; status = submitting }
      ∷ [];
  events = [];
  artifacts = [];
}
