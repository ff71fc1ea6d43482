-- ===== src/Demo/Execute.antt =====
-- DemoExecute, holdDemo and recordDemoSubmit (internal/platform/demo_strategy.go) on a session. The
-- evaluation, the broker's reply to the submission and the clocks are arguments.
use text.Mathlib.Text.{◌==◌ as str_eq}
use mfd.Prelude.{
  ℕ, String, Bool, true, false, not, ◌&&◌, ◌||◌, Option, none, some, List, [], ◌∷◌, ltb, leb, ◌==◌,
  if◌then◌else◌, ok,
}
use mfd.Prelude.Int.{ltb_ℤ}
use mfd.Decimal.{Decimals}
use mfd.Demo.Records.{
  Time, Bytes, RunStatus, is_ready, DemoPlan, DemoStrategyRun, DemoEvaluation, DemoArtifact,
  intent_not_ready,
}
use mfd.Demo.Session.{Session, Handler, raise, ◌>>=◌, ◌>>◌, transact}
use mfd.Demo.Transactions.{Outcome, hold_tx, intent_tx, submit_tx}
use mfd.Demo.Lookup.{LookupClient}
use mfd.Demo.Reads.{DemoRunView, demo_run, demo_probe_version}
use mfd.Demo.Reconcile.{demo_reconcile}

abbrev pub unexpired : Time → Option Time → Bool
unexpired now none = false
unexpired now (some at) = not (ltb_ℤ at now)

abbrev pub has_ceiling : (d : Decimals) → Option d.D → Bool
has_ceiling d none = false
has_ceiling d (some ask) = d.is_positive ask

abbrev pub is_reviewed : (d : Decimals) → Option (DemoPlan d.D) → Bool
is_reviewed d none = false
is_reviewed d (some p) = str_eq p.order_type "mkt" && has_ceiling d p.max_recheck_ask

-- The first guard of DemoExecute, negated.
abbrev pub is_executable : (d : Decimals) → Time → DemoStrategyRun d.D → Bool
is_executable d now run =
    is_ready run.status
    && str_eq run.strategy_version demo_probe_version
    && unexpired now run.expires_at
    && is_reviewed d run.plan

abbrev pub above_ceiling : (d : Decimals) → d.D → Option d.D → Bool
above_ceiling d ask none = true
above_ceiling d ask (some ceiling) = d.greater_than ask ceiling

-- The recheck found another account, another instrument, or an ask above the reviewed ceiling.
abbrev pub has_moved : (d : Decimals) → DemoPlan d.D → DemoPlan d.D → Bool
has_moved d reviewed fresh =
    not (str_eq fresh.account_fingerprint reviewed.account_fingerprint)
    || not (fresh.instrument_id == reviewed.instrument_id)
    || above_ceiling d fresh.ask reviewed.max_recheck_ask

-- What SubmitDemoMarket returned; `order_id` is 0 without a receipt.
pub record SubmitReply : Type 0 where
  pub raw : Bytes
  pub http_status : ℕ
  pub order_id : ℕ
  pub failed : Bool

unfoldable pub submit_outcome : SubmitReply → Outcome
submit_outcome r =
    if not r.failed
    then record {
      state = RunStatus.accepted;
      reason = "eToro accepted the order for processing; a fill is not yet confirmed.";
      event = "submission_accepted";
    }
    else if leb 400 r.http_status && ltb r.http_status 500 && not (r.http_status == 429)
    then record {
      state = RunStatus.rejected;
      reason = "eToro rejected the Demo order request before acceptance.";
      event = "submission_rejected";
    }
    else record {
      state = RunStatus.unknown;
      reason =
          "Broker submission outcome is uncertain; reconcile by request ID before any further order.";
      event = "submission_unknown";
    }

-- The clocks that DemoExecute reads, in their order: `time.Now()` at the guard, the database's at
-- the intent (or the hold) and at the record, and both at the reconciliation.
pub record Clocks : Type 0 where
  pub guard : Time
  pub intent : Time
  pub recorded : Time
  pub reconcile : Time
  pub lookup : Time

abbrev pub moved_reason : String
moved_reason =
    "The provider account, instrument mapping or ask changed beyond the reviewed recheck ceiling. Preview a new decision."

-- A live executor's intent is used up by its one POST.
abbrev pub remove_first : ℕ → List ℕ → List ℕ
remove_first id [] = []
remove_first id (i ∷ is) = if i == id then is else i ∷ remove_first id is

module _ (d : Decimals) {C B : Type 0} (encrypt : Bytes → Option C) (digest : Bytes → String)
    (sync : B → B) where
  unfoldable pub hold_demo :
      Time → ℕ → String → DemoEvaluation d.D → Handler (Session d.D C B) (DemoRunView d.D)
  hold_demo db_now id reason evaluation = do
    transact (hold_tx encrypt digest db_now id reason evaluation)
    demo_run id

  -- The intent is committed; from here the order will be posted.
  abbrev pub note_intent : ℕ → Handler (Session d.D C B) (Unit {0})
  note_intent id s = (ok tt, record s { intents = id ∷ s.intents })

  -- The POST itself leaves: its reply is another argument.
  abbrev pub post : ℕ → Handler (Session d.D C B) (Unit {0})
  post id s = (ok tt, record s { intents = remove_first id s.intents; posts = id ∷ s.posts })

  -- The intent is persisted before the broker is called.
  unfoldable pub launch : Time → ℕ → List DemoArtifact → Handler (Session d.D C B) (Unit {0})
  launch db_now id artifacts = do
    transact (intent_tx encrypt digest db_now id artifacts)
    note_intent id
    post id

  -- What follows the reply to the POST.
  unfoldable pub record_submit :
      Option LookupClient → Clocks → ℕ → SubmitReply → Handler (Session d.D C B) (DemoRunView d.D)
  record_submit client clocks id reply = do
    transact (
        submit_tx encrypt digest clocks.recorded id (submit_outcome reply) reply.http_status
          reply.order_id reply.raw)
    if not reply.failed
        then demo_reconcile encrypt digest sync client id clocks.reconcile clocks.lookup
        else demo_run id

  unfoldable pub execute_plan :
      Option LookupClient
      → Clocks
      → ℕ
      → DemoPlan d.D
      → DemoEvaluation d.D
      → SubmitReply
      → Option (DemoPlan d.D)
      → Handler (Session d.D C B) (DemoRunView d.D)
  unfolding hold_demo launch record_submit
  execute_plan client clocks id reviewed evaluation reply none =
      hold_demo clocks.intent id evaluation.reason evaluation
  execute_plan client clocks id reviewed evaluation reply (some fresh) =
      if has_moved d reviewed fresh
      then hold_demo clocks.intent id moved_reason evaluation
      else do launch clocks.intent id evaluation.artifacts; record_submit client clocks id reply

  -- The plan is there wherever the guard passes.
  abbrev pub with_plan :
      Option (DemoPlan d.D)
      → (DemoPlan d.D → Handler (Session d.D C B) (DemoRunView d.D))
      → Handler (Session d.D C B) (DemoRunView d.D)
  with_plan none k = raise intent_not_ready
  with_plan (some p) k = k p

  unfoldable pub demo_execute :
      Option LookupClient
      → Clocks
      → ℕ
      → DemoEvaluation d.D
      → SubmitReply
      → Handler (Session d.D C B) (DemoRunView d.D)
  unfolding execute_plan
  demo_execute client clocks id evaluation reply = do
    view ← demo_run id
    if is_executable d clocks.guard view.run
        then with_plan view.run.plan
            (λ reviewed. execute_plan client clocks id reviewed evaluation reply evaluation.plan)
        else raise intent_not_ready
