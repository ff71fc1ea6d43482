-- ===== src/Demo/Transactions.antt =====
-- The transactions of internal/platform/demo_strategy.go, from Begin to Commit, as functions on the
-- tables. `now` is the database's `now()`.
use Prim.Native.String.{◌++◌ as concat}
use mfd.Prelude.{
  ℕ, String, Bool, true, false, not, ◌&&◌, Option, none, some, List, [], ◌∷◌, ltb, ◌==◌,
  if◌then◌else◌, Result, ok, err, ◌>>=◌, ◌>>◌, fail_if,
}
use mfd.Prelude.Int.{ltb_ℤ}
use mfd.Demo.Records.{
  Time, Bytes, RunStatus, is_active, is_ready, is_submitting, DemoStrategyRun, DemoEvaluation,
  DemoArtifact, Tables, DemoError, intent_not_ready, active_intent,
}
use mfd.Demo.Tables.{update_run, insert_run, add_demo_event, save_artifacts}

-- `expires_at>now()`, which a NULL fails.
abbrev pub expires_after : Time → Option Time → Bool
expires_after now none = false
expires_after now (some at) = ltb_ℤ now at

-- `pgErr.Code == "23505"` on the submit intent.
abbrev pub as_active_intent : {A : Type 0} → Result DemoError A → Result DemoError A
as_active_intent (err DemoError.unique_violation) = err active_intent
as_active_intent r = r

abbrev pub order_path : String
order_path = "/api/v2/trading/execution/demo/orders"

abbrev pub order_lookup_path : String
order_lookup_path = "/api/v2/trading/info/demo/orders:lookup"

abbrev pub positive : ℕ → Option ℕ
positive n = if ltb 0 n then some n else none

-- etoro.OrderLookup.
pub record OrderLookup : Type 0 where
  pub order_id : ℕ
  pub status_id : ℕ
  pub status_name : String
  pub error_code : String
  pub error_message : String
  pub position_ids : List ℕ

-- The status that a submission leaves, with its reason and event: DemoExecute's three cases.
pub record Outcome : Type 0 where
  pub state : RunStatus
  pub reason : String
  pub event : String

-- The SET clauses of the five UPDATE statements.
module _ {D : Type 0} where
  abbrev pub hold_row : Time → String → DemoEvaluation D → DemoStrategyRun D → DemoStrategyRun D
  hold_row now reason evaluation r = record r {
    status = RunStatus.hold;
    reason = reason;
    checks = evaluation.checks;
    updated_at = now;
  }

  abbrev pub intent_row : Time → ℕ → DemoStrategyRun D → DemoStrategyRun D
  intent_row now id r = record r {
    status = RunStatus.submitting;
    reason = "A single $100 Demo BTC market order is being submitted.";
    request_id = some id;
    updated_at = now;
  }

  abbrev pub submit_row : Time → Outcome → ℕ → DemoStrategyRun D → DemoStrategyRun D
  submit_row now o order_id r = record r {
    status = o.state;
    reason = o.reason;
    broker_order_id = positive order_id;
    updated_at = now;
  }

  abbrev pub lookup_row :
      Time → RunStatus → String → OrderLookup → DemoStrategyRun D → DemoStrategyRun D
  lookup_row now state reason lookup r = record r {
    status = state;
    reason = reason;
    broker_order_id = some lookup.order_id;
    broker_status_id = some lookup.status_id;
    broker_position_ids = lookup.position_ids;
    updated_at = now;
  }

  abbrev pub unknown_row : Time → DemoStrategyRun D → DemoStrategyRun D
  unknown_row now r = record r {
    status = RunStatus.unknown;
    reason = "Broker lookup did not resolve the submission; no retry is allowed.";
    updated_at = now;
  }

  -- The test of the submit intent.
  abbrev pub may_launch : Time → DemoStrategyRun D → Bool
  may_launch now r = is_ready r.status && expires_after now r.expires_at

module _ {D C : Type 0} (encrypt : Bytes → Option C) (digest : Bytes → String) where
  -- DemoPreview: whether the row was inserted.
  unfoldable pub preview_tx :
      Time
      → DemoStrategyRun D
      → String
      → List DemoArtifact
      → Tables D C
      → Result DemoError (Tables D C × Bool)
  preview_tx now r decision artifacts t = do
    (t1, n) ← insert_run r t
    if n == 0 then ok (t1, false) else do
      t2 ← save_artifacts encrypt digest r.id "preview" artifacts t1
      ok (add_demo_event now r.id "decision" decision 0 t2, true)

  -- holdDemo.
  unfoldable pub hold_tx :
      Time → ℕ → String → DemoEvaluation D → Tables D C → Result DemoError (Tables D C × Unit {0})
  hold_tx now id reason evaluation t = do
    (t1, n) ← update_run id (λ r. is_ready r.status) (hold_row now reason evaluation) t
    t2 ← save_artifacts encrypt digest id "recheck" evaluation.artifacts t1
    ok (add_demo_event now id "hold" reason 0 t2, tt)

  -- DemoExecute: the submit intent, persisted before the broker is called.
  unfoldable pub intent_tx :
      Time → ℕ → List DemoArtifact → Tables D C → Result DemoError (Tables D C × Unit {0})
  intent_tx now id artifacts t = do
    (t1, n) ← as_active_intent (update_run id (may_launch now) (intent_row now id) t)
    fail_if (not (n == 1)) intent_not_ready
    t2 ← save_artifacts encrypt digest id "recheck" artifacts t1
    ok (
      add_demo_event now id "submit_intent"
          "The operator submitted the reviewed $100 Demo BTC market plan. Broker request ID equals the decision ID."
          0 t2,
      tt,
    )

  -- recordDemoSubmit.
  unfoldable pub submit_tx :
      Time → ℕ → Outcome → ℕ → ℕ → Bytes → Tables D C → Result DemoError (Tables D C × Unit {0})
  submit_tx now id o http_status order_id raw t = do
    (t1, n) ← update_run id (λ r. is_submitting r.status) (submit_row now o order_id) t
    t2 ←
        save_artifacts encrypt digest id "submit" (record { source = order_path; raw = raw } ∷ [])
          t1
    ok (add_demo_event now id o.event o.reason http_status t2, tt)

  -- DemoReconcile: what the broker's lookup said.
  unfoldable pub lookup_tx :
      Time
      → ℕ
      → RunStatus
      → String
      → OrderLookup
      → Bool
      → ℕ
      → Bytes
      → Tables D C
      → Result DemoError (Tables D C × Unit {0})
  lookup_tx now id state reason lookup by_order_id http_status raw t = do
    (t1, n) ← update_run id (λ r. is_active r.status) (lookup_row now state reason lookup) t
    t2 ←
        save_artifacts encrypt digest id "lookup"
          (record { source = order_lookup_path; raw = raw } ∷ []) t1
    let event_reason =
        if by_order_id
        then concat "Reference lookup returned 404; order-ID lookup resolved the broker state. "
            reason
        else reason
    ok (add_demo_event now id "broker_lookup" event_reason http_status t2, tt)

  -- markDemoUnknown.
  unfoldable pub unknown_tx :
      Time → ℕ → ℕ → Bytes → Tables D C → Result DemoError (Tables D C × Unit {0})
  unknown_tx now id http_status raw t = do
    (t1, n) ← update_run id (λ r. is_submitting r.status) (unknown_row now) t
    t2 ←
        save_artifacts encrypt digest id "lookup"
          (record { source = order_lookup_path; raw = raw } ∷ []) t1
    ok (
      add_demo_event now id "broker_lookup_unknown"
          "Broker lookup did not resolve the submission; no retry is allowed." http_status t2,
      tt,
    )
