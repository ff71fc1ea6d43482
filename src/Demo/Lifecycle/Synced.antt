-- ===== src/Demo/Lifecycle/Synced.antt =====
-- Of all that the Demo strategy's methods (internal/platform/demo_strategy.go) do, only
-- syncDemoAfterOrder touches the rest of the BrokerService: what that keeps, they keep.
use mfd.Demo.Tables.{select_key}
use mfd.Prelude.{
  Bool, true, false, List, [], ◌∷◌, Option, none, some, String, Result, ok, err, if◌then◌else◌, ℕ,
}
use mfd.Demo.Records.{
  Time, Bytes, DemoError, DemoStrategyRun, DemoPlan, DemoEvaluation, DemoArtifact, RunStatus,
  is_submitting,
}
use mfd.Demo.Session.{Session, Handler, pure, query}
use mfd.Decimal.{Decimals}
use mfd.Demo.Transactions.{OrderLookup}
use mfd.Demo.Lookup.{LookupFailure, LookupReply, LookupClient}
use mfd.Demo.Reads.{DemoRunView, demo_run, demo_preview, save_preview, by_existing, found}
use mfd.Demo.Reconcile.{
  sync_after, is_fill, apply_lookup, mark_demo_unknown, on_reply, demo_reconcile, reconcile_all,
  reconcile_pending_demo,
}
use mfd.Demo.Execute.{
  Clocks, SubmitReply, hold_demo, launch, record_submit, execute_plan, with_plan, demo_execute,
  is_executable, note_intent, post,
}
use mfd.Demo.Lifecycle.Kept.{
  Keeps, keeping, Keeps-raise, Keeps-query, Keeps-bind, Keeps-if, Keeps-demo_run, Keeps-demo_runs,
}
use mfd.Demo.Lifecycle.Operations.{Operation, perform}

module _ {D C B : Type 0} (P : B → Type 0) (encrypt : Bytes → Option C)
    (digest : Bytes → String) where
  Keeps-save_preview :
      (key : String) (fresh : ℕ) (now db_now : Time) (v : DemoEvaluation D)
      → Keeps P (save_preview encrypt digest key fresh now db_now v)
  unfolding save_preview
  Keeps-save_preview key fresh now db_now v = search (keeping, Keeps-demo_run)

  Keeps-by_existing :
      {A : Type 0} (old : DemoStrategyRun D → Handler (Session D C B) A)
      (new : Handler (Session D C B) A) (r : Result DemoError (DemoStrategyRun D))
      → ((q : DemoStrategyRun D) → Keeps P (old q))
      → Keeps P new
      → Keeps P (by_existing old new r)
  Keeps-by_existing old new (ok q) o n = o q
  Keeps-by_existing old new (err DemoError.no_rows) o n = n
  Keeps-by_existing old new (err DemoError.storage) o n = Keeps-raise P _
  Keeps-by_existing old new (err DemoError.unique_violation) o n = Keeps-raise P _
  Keeps-by_existing old new (err DemoError.intent_not_ready) o n = Keeps-raise P _
  Keeps-by_existing old new (err DemoError.active_intent) o n = Keeps-raise P _

  Keeps-demo_preview :
      (key : String) (fresh : ℕ) (now db_now : Time) (v : DemoEvaluation D)
      → Keeps P (demo_preview encrypt digest key fresh now db_now v)
  unfolding demo_preview
  Keeps-demo_preview key fresh now db_now v = record {
    kept = λ s p.
        let r = query {D = D} {C = C} {B = B} (λ t. found (select_key key t.runs)) in
        let (existing, s') = r s in
        (Keeps-by_existing _ _ existing (λ q. Keeps-demo_run P q.id)
            (Keeps-save_preview key fresh now db_now v)).kept
          s' ((Keeps-query P _).kept s p);
  }

module _ {D C B : Type 0} (P : B → Type 0) (encrypt : Bytes → Option C) (digest : Bytes → String)
    (sync : B → B) (sync_keeps : (b : B) → P b → P (sync b)) where
  Keeps-sync_after :
      (state : RunStatus) → Keeps {D = D} {C = C} P (sync_after encrypt digest sync state)
  unfolding sync_after
  Keeps-sync_after state = record { kept = λ s p. by_fill (is_fill state) s p }
    where
      by_fill :
          (b : Bool) (s : Session D C B)
          → P s.broker
          → P (if b then record s { broker = sync s.broker } else s).broker
      by_fill true s p = sync_keeps s.broker p
      by_fill false s p = p

  Keeps-apply_lookup :
      (view : DemoRunView D) (now : Time) (l : OrderLookup) (by_order_id : Bool) (http_status : ℕ)
      (raw : Bytes)
      → Keeps P (apply_lookup encrypt digest sync view now l by_order_id http_status raw)
  unfolding apply_lookup
  Keeps-apply_lookup view now l by_order_id http_status raw =
      search (keeping, Keeps-sync_after, Keeps-demo_run)

  Keeps-mark_demo_unknown :
      (id : ℕ) (now : Time) (http_status : ℕ) (raw : Bytes)
      → Keeps {D = D} P (mark_demo_unknown encrypt digest sync id now http_status raw)
  unfolding mark_demo_unknown
  Keeps-mark_demo_unknown id now http_status raw = search (keeping, Keeps-demo_run)

  Keeps-on_reply :
      (view : DemoRunView D) (now : Time) (r : LookupReply × Bool)
      → Keeps P (on_reply encrypt digest sync view now r)
  unfolding on_reply
  Keeps-on_reply view now (reply, by_order_id) = go reply.result
    where
      go :
          (r : Result LookupFailure OrderLookup)
          → Keeps P (elim r as (λ _. Handler (Session D C B) (DemoRunView D)) [
            | ok lookup ↦
                apply_lookup encrypt digest sync view now lookup by_order_id reply.http_status
                  reply.raw
            | err e ↦
                if is_submitting view.run.status
                then mark_demo_unknown encrypt digest sync view.run.id now reply.http_status
                    reply.raw
                else pure view
          ])
      go (ok lookup) = Keeps-apply_lookup view now lookup by_order_id reply.http_status reply.raw
      go (err e) = search (keeping, Keeps-mark_demo_unknown)

  Keeps-demo_reconcile :
      (client : Option LookupClient) (id : ℕ) (now db_now : Time)
      → Keeps {D = D} P (demo_reconcile encrypt digest sync client id now db_now)
  unfolding demo_reconcile
  Keeps-demo_reconcile none id now db_now = search (keeping, Keeps-demo_run)
  Keeps-demo_reconcile (some c) id now db_now = search (keeping, Keeps-demo_run, Keeps-on_reply)

  Keeps-reconcile_all :
      (client : Option LookupClient) (now db_now : Time) (ids : List ℕ)
      → Keeps {D = D} P (reconcile_all encrypt digest sync client now db_now ids)
  unfolding reconcile_all
  Keeps-reconcile_all client now db_now [] = search keeping
  Keeps-reconcile_all client now db_now (id ∷ ids) =
      Keeps-bind P (demo_reconcile encrypt digest sync client id now db_now) _
        (Keeps-demo_reconcile client id now db_now) λ _. Keeps-reconcile_all client now db_now ids

  Keeps-reconcile_pending_demo :
      (client : Option LookupClient) (now db_now : Time)
      → Keeps {D = D} P (reconcile_pending_demo encrypt digest sync client now db_now)
  unfolding reconcile_pending_demo
  Keeps-reconcile_pending_demo client now db_now = search (keeping, Keeps-reconcile_all)

module _ (d : Decimals) {C B : Type 0} (P : B → Type 0) (encrypt : Bytes → Option C)
    (digest : Bytes → String) (sync : B → B) (sync_keeps : (b : B) → P b → P (sync b)) where
  Keeps-hold_demo :
      (now : Time) (id : ℕ) (reason : String) (v : DemoEvaluation d.D)
      → Keeps P (hold_demo d encrypt digest sync now id reason v)
  unfolding hold_demo
  Keeps-hold_demo now id reason v = search (keeping, Keeps-demo_run)

  Keeps-record_submit :
      (client : Option LookupClient) (clocks : Clocks) (id : ℕ) (reply : SubmitReply)
      → Keeps P (record_submit d encrypt digest sync client clocks id reply)
  unfolding record_submit
  Keeps-record_submit client clocks id reply =
      search (keeping, Keeps-demo_run, Keeps-demo_reconcile P encrypt digest sync sync_keeps)

  Keeps-note_intent : (id : ℕ) → Keeps P (note_intent d encrypt digest sync id)
  Keeps-note_intent id = record { kept = λ s p. p }

  Keeps-post : (id : ℕ) → Keeps P (post d encrypt digest sync id)
  Keeps-post id = record { kept = λ s p. p }

  Keeps-launch :
      (now : Time) (id : ℕ) (as' : List DemoArtifact)
      → Keeps P (launch d encrypt digest sync now id as')
  unfolding launch
  Keeps-launch now id as' = search (keeping, Keeps-note_intent, Keeps-post)

  Keeps-execute_plan :
      (client : Option LookupClient) (clocks : Clocks) (id : ℕ) (reviewed : DemoPlan d.D)
      (v : DemoEvaluation d.D) (reply : SubmitReply) (fresh : Option (DemoPlan d.D))
      → Keeps P (execute_plan d encrypt digest sync client clocks id reviewed v reply fresh)
  unfolding execute_plan
  Keeps-execute_plan client clocks id reviewed v reply none =
      Keeps-hold_demo clocks.intent id v.reason v
  Keeps-execute_plan client clocks id reviewed v reply (some fresh) =
      search (keeping, Keeps-hold_demo, Keeps-launch, Keeps-record_submit)

  Keeps-with_plan :
      (p : Option (DemoPlan d.D)) (k : DemoPlan d.D → Handler (Session d.D C B) (DemoRunView d.D))
      → ((q : DemoPlan d.D) → Keeps P (k q))
      → Keeps P (with_plan d encrypt digest sync p k)
  Keeps-with_plan none k h = Keeps-raise P _
  Keeps-with_plan (some p) k h = h p

  Keeps-demo_execute :
      (client : Option LookupClient) (clocks : Clocks) (id : ℕ) (v : DemoEvaluation d.D)
      (reply : SubmitReply)
      → Keeps P (demo_execute d encrypt digest sync client clocks id v reply)
  unfolding demo_execute
  Keeps-demo_execute client clocks id v reply =
      Keeps-bind P (demo_run id) _ (Keeps-demo_run P id) λ view.
        Keeps-if P (is_executable d clocks.guard view.run) _ _
          (Keeps-with_plan view.run.plan _
            λ q. Keeps-execute_plan client clocks id q v reply v.plan)
          (Keeps-raise P _)

  -- What holds of the rest of the service and is kept by syncDemoAfterOrder, every method keeps.
  pub perform-Keeps :
      (o : Operation d.D) (s : Session d.D C B)
      → P s.broker
      → P (perform d encrypt digest sync o s).broker
  unfolding perform
  perform-Keeps (Operation.preview key fresh now db_now v) s =
      (Keeps-demo_preview P encrypt digest key fresh now db_now v).kept s
  perform-Keeps (Operation.execute client clocks id v reply) s =
      (Keeps-demo_execute client clocks id v reply).kept s
  perform-Keeps (Operation.reconcile client id now db_now) s =
      (Keeps-demo_reconcile P encrypt digest sync sync_keeps client id now db_now).kept s
  perform-Keeps (Operation.reconcile_pending client now db_now) s =
      (Keeps-reconcile_pending_demo P encrypt digest sync sync_keeps client now db_now).kept s
  perform-Keeps (Operation.read_run id) s = (Keeps-demo_run P id).kept s
  perform-Keeps Operation.list_runs s = (Keeps-demo_runs P).kept s
