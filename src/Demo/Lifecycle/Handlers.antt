-- ===== src/Demo/Lifecycle/Handlers.antt =====
-- The reads and the preview of demo_strategy.go are sequences of the actions of Steps, whatever the
-- database, the broker and the clocks answer.
use mfd.Prelude.{
  ℕ, String, ◌≡◌, refl, Bool, true, false, Option, none, some, List, [], ◌∷◌, Result, ok, err,
}
use mfd.Demo.Records.{
  Time, Bytes, DemoStrategyRun, DemoPlan, DemoArtifact, DemoEvaluation, DemoError,
}
use mfd.Demo.Tables.{select_key}
use mfd.Demo.Session.{Session, Handler, transact, query}
use mfd.Demo.Transactions.{preview_tx}
use mfd.Demo.Reads.{
  found, demo_run, with_events, demo_runs, save_preview, demo_preview, preview_row, preview_status,
  by_existing,
}
use mfd.Demo.Lifecycle.Edges.{is_new}
use mfd.Demo.Lifecycle.Runs.{Inserted, preview_tx-Inserted}
use mfd.Demo.Lifecycle.Steps.{Step, idle, previewed, Reach-trans}
use mfd.Demo.Lifecycle.Traces.{
  Traces, Traces-pure, Traces-raise, Traces-query, Traces-transact, Traces-bind, tracing,
}

module _ {D C B : Type 0} where
  pub Traces-demo_run : (id : ℕ) → Traces {D = D} {C = C} {B = B} (demo_run id)
  unfolding demo_run
  Traces-demo_run id = search tracing

  Traces-with_events :
      (rs : List (DemoStrategyRun D)) → Traces {D = D} {C = C} {B = B} (with_events rs)
  unfolding with_events
  Traces-with_events [] = search tracing
  Traces-with_events (r ∷ rs) =
      Traces-bind (demo_run r.id) _ (Traces-demo_run r.id)
        λ row. Traces-bind (with_events rs) _ (Traces-with_events rs) λ rest. Traces-pure _

  pub Traces-demo_runs : Traces {D = D} {C = C} {B = B} demo_runs
  unfolding demo_runs
  Traces-demo_runs = search (tracing, Traces-with_events)

module _ {D C B : Type 0} (encrypt : Bytes → Option C) (digest : Bytes → String) where
  Traces-preview_tx :
      (key : String) (fresh : ℕ) (now db_now : Time) (v : DemoEvaluation D) (decision : String)
      (as' : List DemoArtifact)
      → Traces {B = B} (
          transact
            (preview_tx encrypt digest db_now (preview_row key fresh now db_now v) decision as'))
  Traces-preview_tx key fresh now db_now v decision as' = Traces-transact _ λ s u b h.
      step b refl refl (
        preview_tx-Inserted encrypt digest db_now (preview_row key fresh now db_now v) decision as'
          s.tables h)
    where
      new : (p : Option (DemoPlan D)) → is_new (preview_status p) ≡ true
      new none = refl
      new (some p) = refl

      step :
          {s t : Session D C B} (b : Bool)
          → t.intents ≡ s.intents
          → t.posts ≡ s.posts
          → Inserted (preview_row key fresh now db_now v) s.tables.runs t.tables.runs b
          → Step s t
      step true f g i = previewed _ (new v.plan) i.0 i.1 i.2 f g
      step false f g i = idle i.0 f g

  Traces-save_preview :
      (key : String) (fresh : ℕ) (now db_now : Time) (v : DemoEvaluation D)
      → Traces {B = B} (save_preview encrypt digest key fresh now db_now v)
  unfolding save_preview
  Traces-save_preview key fresh now db_now v = search (tracing, Traces-demo_run, Traces-preview_tx)

  Traces-by_existing :
      {A : Type 0} (old : DemoStrategyRun D → Handler (Session D C B) A)
      (new : Handler (Session D C B) A) (r : Result DemoError (DemoStrategyRun D))
      → ((q : DemoStrategyRun D) → Traces (old q))
      → Traces new
      → Traces (by_existing old new r)
  Traces-by_existing old new (ok q) o n = o q
  Traces-by_existing old new (err DemoError.no_rows) o n = n
  Traces-by_existing old new (err DemoError.storage) o n = Traces-raise _
  Traces-by_existing old new (err DemoError.unique_violation) o n = Traces-raise _
  Traces-by_existing old new (err DemoError.intent_not_ready) o n = Traces-raise _
  Traces-by_existing old new (err DemoError.active_intent) o n = Traces-raise _

  pub Traces-demo_preview :
      (key : String) (fresh : ℕ) (now db_now : Time) (v : DemoEvaluation D)
      → Traces {B = B} (demo_preview encrypt digest key fresh now db_now v)
  unfolding demo_preview
  Traces-demo_preview key fresh now db_now v = record {
    run = λ s.
        let r = query {D = D} {C = C} {B = B} (λ t. found (select_key key t.runs)) in
        let (existing, s') = r s in
        Reach-trans ((Traces-query _).run s) (
          (Traces-by_existing _ _ existing (λ q. Traces-demo_run q.id)
              (Traces-save_preview key fresh now db_now v)).run
            s');
  }
