-- ===== src/Demo/Reads.antt =====
-- DemoRun, DemoRuns and DemoPreview (internal/platform/demo_strategy.go) on a session. What the code
-- reads from outside is an argument: each clock, and the evaluation that evaluateDemo returned.
use Prim.Native.String.{◌++◌ as concat}
use mfd.Prelude.{
  ℕ, String, Option, none, some, List, [], ◌∷◌, ◌*◌, ◌==◌, if◌then◌else◌, keep, take, Result, ok,
  err,
}
use mfd.Prelude.Int.{pos, leb_ℤ, ◌+ℤ◌}
use mfd.Demo.Records.{
  Time, Bytes, RunStatus, DemoPlan, DemoStrategyRun, DemoEvaluation, DemoEvent, DemoError, no_rows,
}
use mfd.Demo.Tables.{select_run, select_key}
use mfd.Demo.Session.{Session, Handler, pure, raise, ◌>>=◌, transact, query}
use mfd.Demo.Transactions.{preview_tx}

abbrev pub demo_probe_version : String
demo_probe_version = "btc-market-entry-probe-v2"

-- `time.Second`, in nanoseconds.
abbrev pub second : ℕ
second = 1_000_000_000

-- What DemoRun returns: the row, and its events by their time.
pub record DemoRunView (D : Type 0) : Type 0 where
  pub run : DemoStrategyRun D
  pub events : List DemoEvent

-- `ORDER BY at`: a stable insertion sort.
unfoldable pub insert_event : DemoEvent → List DemoEvent → List DemoEvent
insert_event e [] = e ∷ []
insert_event e (x ∷ xs) =
    let later = x ∷ insert_event e xs in if leb_ℤ e.at x.at then e ∷ x ∷ xs else later

unfoldable pub order_events : List DemoEvent → List DemoEvent
order_events [] = []
order_events (e ∷ es) = insert_event e (order_events es)

-- The newest first: `ORDER BY created_at DESC`.
unfoldable pub insert_run_desc :
    {D : Type 0} → DemoStrategyRun D → List (DemoStrategyRun D) → List (DemoStrategyRun D)
insert_run_desc r [] = r ∷ []
insert_run_desc r (x ∷ xs) =
    let later = x ∷ insert_run_desc r xs in
    if leb_ℤ x.created_at r.created_at then r ∷ x ∷ xs else later

unfoldable pub newest_first : {D : Type 0} → List (DemoStrategyRun D) → List (DemoStrategyRun D)
newest_first [] = []
newest_first (r ∷ rs) = insert_run_desc r (newest_first rs)

abbrev pub found : {A : Type 0} → Option A → Result DemoError A
found none = err no_rows
found (some a) = ok a

-- What DemoPreview sets by `evaluation.Plan != nil`.
abbrev pub preview_status : {D : Type 0} → Option (DemoPlan D) → RunStatus
preview_status none = RunStatus.hold
preview_status (some p) = RunStatus.ready

abbrev pub preview_expiry : {D : Type 0} → Time → Option (DemoPlan D) → Option Time
preview_expiry now none = none
preview_expiry now (some p) = some (now +ℤ pos (60 * second))

-- `strings.ToUpper(status)+": "`.
abbrev pub preview_label : {D : Type 0} → Option (DemoPlan D) → String
preview_label none = "HOLD: "
preview_label (some p) = "READY: "

-- The row that DemoPreview inserts; the columns that it does not name take their defaults.
abbrev pub preview_row :
    {D : Type 0} → String → ℕ → Time → Time → DemoEvaluation D → DemoStrategyRun D
preview_row key fresh now db_now evaluation = record {
  id = fresh;
  idempotency_key = key;
  strategy_version = demo_probe_version;
  actor = "operator-token";
  status = preview_status evaluation.plan;
  reason = evaluation.reason;
  created_at = db_now;
  updated_at = db_now;
  expires_at = preview_expiry now evaluation.plan;
  plan = evaluation.plan;
  checks = evaluation.checks;
  request_id = none;
  broker_order_id = none;
  broker_status_id = none;
  broker_position_ids = [];
}

module _ {D C B : Type 0} where
  unfoldable pub demo_run : ℕ → Handler (Session D C B) (DemoRunView D)
  demo_run id = do
    run ← query (λ t. found (select_run id t.runs))
    events ← query (λ t. ok (order_events (keep (λ e. e.run_id == id) t.events)))
    pure (record { run = run; events = events })

  -- The loop of DemoRuns: the row as it was listed, with the events that DemoRun reads.
  unfoldable pub with_events :
      List (DemoStrategyRun D) → Handler (Session D C B) (List (DemoRunView D))
  with_events [] = pure []
  with_events (r ∷ rs) = do
    row ← demo_run r.id
    rest ← with_events rs
    pure (record { run = r; events = row.events } ∷ rest)

  unfoldable pub demo_runs : Handler (Session D C B) (List (DemoRunView D))
  unfolding with_events
  demo_runs = do rows ← query (λ t. ok (take 30 (newest_first t.runs))); with_events rows

  -- DemoPreview once no row has the key: the decision, hold or ready, is written down. `fresh` is
  -- newID's value; the row is read again by its key where another preview was first.
  unfoldable pub save_preview :
      (Bytes → Option C)
      → (Bytes → String)
      → String
      → ℕ
      → Time
      → Time
      → DemoEvaluation D
      → Handler (Session D C B) (DemoRunView D)
  unfolding demo_run
  save_preview encrypt digest key fresh now db_now evaluation = do
    inserted ← transact (
        preview_tx encrypt digest db_now (preview_row key fresh now db_now evaluation)
          (concat (preview_label evaluation.plan) evaluation.reason) evaluation.artifacts)
    if inserted
        then demo_run fresh
        else do stored ← query (λ t. found (select_key key t.runs)); demo_run stored.id

  -- The first read of DemoPreview decides: a row with the key, none, or a failure.
  abbrev pub by_existing :
      {A : Type 0}
      → (DemoStrategyRun D → Handler (Session D C B) A)
      → Handler (Session D C B) A
      → Result DemoError (DemoStrategyRun D)
      → Handler (Session D C B) A
  by_existing old new (ok r) = old r
  by_existing old new (err DemoError.no_rows) = new
  by_existing old new (err e) = raise e

  unfoldable pub demo_preview :
      (Bytes → Option C)
      → (Bytes → String)
      → String
      → ℕ
      → Time
      → Time
      → DemoEvaluation D
      → Handler (Session D C B) (DemoRunView D)
  unfolding save_preview
  demo_preview encrypt digest key fresh now db_now evaluation s =
      let (existing, s') = query (λ t. found (select_key key t.runs)) s in
      by_existing (λ r. demo_run r.id) (save_preview encrypt digest key fresh now db_now evaluation)
        existing s'
