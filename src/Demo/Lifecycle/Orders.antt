-- ===== src/Demo/Lifecycle/Orders.antt =====
-- DemoExecute (internal/platform/demo_strategy.go) as a sequence of the actions of Steps.
use mfd.Demo.Lifecycle.Lookups.{Traces-demo_reconcile, Traces-submit_tx, Traces-hold_tx}
use mfd.Demo.Lifecycle.Safety.{intent-Follows}
use mfd.Demo.Lifecycle.Runs.{intent_tx-Changed}
use mfd.Decimal.{Decimals}
use mfd.Demo.Lifecycle.Steps.{posted, intended, Reach, idle, here, next, updated}
use mfd.Demo.Lifecycle.Handlers.{Traces-demo_run}
use mfd.Demo.Reads.{demo_run, DemoRunView}
use mfd.Demo.Lookup.{LookupClient}
use mfd.Demo.Session.{
  stored, lost_reply, refused, ◌>>◌, later_faults, commit, next_fault, Storage, ◌>>=◌, Session,
  Handler, transact,
}
use mfd.Demo.Transactions.{intent_row, may_launch, intent_tx}
use mfd.Demo.Lifecycle.Traces.{Traces-if, Traces-raise, Traces-bind, tracing, Traces}
use mfd.Demo.Execute.{
  post, note_intent, is_executable, with_plan, launch, execute_plan, demo_execute, Clocks,
  hold_demo, record_submit, SubmitReply,
}
use mfd.Prelude.{none, refl, err, ok, ◌∷◌, some, Result, List, arith, String, ◌≡◌, Option, ℕ}
use mfd.Demo.Records.{Tables, DemoError, DemoArtifact, DemoPlan, DemoEvaluation, Time, Bytes}

module _ (d : Decimals) {C B : Type 0} (encrypt : Bytes → Option C) (digest : Bytes → String)
    (sync : B → B) where
  Traces-hold_demo :
      (now : Time) (id : ℕ) (reason : String) (v : DemoEvaluation d.D)
      → Traces (hold_demo d encrypt digest sync now id reason v)
  unfolding hold_demo
  Traces-hold_demo now id reason v = search (tracing, Traces-hold_tx, Traces-demo_run)

  Traces-record_submit :
      (client : Option LookupClient) (clocks : Clocks) (id : ℕ) (reply : SubmitReply)
      → Traces (record_submit d encrypt digest sync client clocks id reply)
  unfolding record_submit
  Traces-record_submit client clocks id reply =
      search (tracing, Traces-submit_tx, Traces-demo_reconcile, Traces-demo_run)

  -- The intent is committed and then posted, or nothing is posted.
  launch-Reach :
      (now : Time) (id : ℕ) (as' : List DemoArtifact) (s : Session d.D C B) (f : Storage)
      (r : Result DemoError (Tables d.D C × Unit {0}))
      → intent_tx encrypt digest now id as' s.tables ≡ r
      → Reach s
          (let (a, s') = commit f r (record s { faults = later_faults s.faults }) in
            elim a as (λ _. Result DemoError (Unit {0}) × Session d.D C B) [
              | ok _ ↦ (note_intent d encrypt digest sync id >> post d encrypt digest sync id) s'
              | err e ↦ (err e, s')
            ]).1
  unfolding ◌>>=◌
  launch-Reach now id as' s refused r e = next here (idle refl refl refl)
  launch-Reach now id as' s stored (err x) e = next here (idle refl refl refl)
  launch-Reach now id as' s lost_reply (err x) e = next here (idle refl refl refl)
  launch-Reach now id as' s stored (ok (u, a)) e =
      let changed = intent_tx-Changed encrypt digest now id as' s.tables {u = u} e in
      let mid : Session d.D C B = record s {
        tables = u;
        intents = id ∷ s.intents;
        faults = later_faults s.faults;
      } in
      let first : Reach s mid = next here (intended id now changed.0 changed.1 refl refl) in
      next first (posted id (ground arith) refl refl refl)
  launch-Reach now id as' s lost_reply (ok (u, a)) e = next here (
      updated id (may_launch now) (intent_row now id) (intent-Follows now id)
        (intent_tx-Changed encrypt digest now id as' s.tables {u = u} e).0 refl refl)

  Traces-launch :
      (now : Time) (id : ℕ) (as' : List DemoArtifact)
      → Traces (launch d encrypt digest sync now id as')
  unfolding launch ◌>>=◌ transact
  Traces-launch now id as' = record {
    run = λ s.
        launch-Reach now id as' s (next_fault s.faults)
          (intent_tx encrypt digest now id as' s.tables) refl;
  }

  Traces-execute_plan :
      (client : Option LookupClient) (clocks : Clocks) (id : ℕ) (reviewed : DemoPlan d.D)
      (v : DemoEvaluation d.D) (reply : SubmitReply) (fresh : Option (DemoPlan d.D))
      → Traces (execute_plan d encrypt digest sync client clocks id reviewed v reply fresh)
  unfolding execute_plan
  Traces-execute_plan client clocks id reviewed v reply none =
      Traces-hold_demo clocks.intent id v.reason v
  Traces-execute_plan client clocks id reviewed v reply (some fresh) =
      search (tracing, Traces-hold_demo, Traces-launch, Traces-record_submit)

  Traces-with_plan :
      (p : Option (DemoPlan d.D)) (k : DemoPlan d.D → Handler (Session d.D C B) (DemoRunView d.D))
      → ((q : DemoPlan d.D) → Traces (k q))
      → Traces (with_plan d encrypt digest sync p k)
  Traces-with_plan none k h = Traces-raise _
  Traces-with_plan (some p) k h = h p

  pub Traces-demo_execute :
      (client : Option LookupClient) (clocks : Clocks) (id : ℕ) (v : DemoEvaluation d.D)
      (reply : SubmitReply)
      → Traces (demo_execute d encrypt digest sync client clocks id v reply)
  unfolding demo_execute
  Traces-demo_execute client clocks id v reply =
      Traces-bind (demo_run id) _ (Traces-demo_run id) λ view.
        Traces-if (is_executable d clocks.guard view.run) _ _
          (Traces-with_plan view.run.plan _
            λ q. Traces-execute_plan client clocks id q v reply v.plan)
          (Traces-raise _)
