-- ===== src/Demo/Lifecycle/Lookups.antt =====
-- DemoReconcile and ReconcilePendingDemo, and the transactions of demo_strategy.go, as sequences of
-- the actions of Steps.
use mfd.Demo.Lifecycle.Runs.{
  hold_tx-Changed, unknown_tx-Changed, lookup_tx-Changed, submit_tx-Changed,
}
use mfd.Demo.Lifecycle.Steps.{idle, here, next, updated}
use mfd.Demo.Lifecycle.Handlers.{Traces-demo_run}
use mfd.Demo.Reads.{DemoRunView}
use mfd.Demo.Lookup.{LookupFailure, LookupReply, LookupClient, demo_lookup_state}
use mfd.Demo.Session.{pure, Session, Handler, transact}
use mfd.Demo.Transactions.{lookup_tx, hold_tx, unknown_tx, submit_tx, OrderLookup}
use mfd.Demo.Lifecycle.Traces.{Traces-bind, Traces-transact, tracing, Traces}
use mfd.Demo.Lifecycle.Edges.{withdrawn, settled, Edge, is_outcome}
use mfd.Demo.Execute.{SubmitReply, submit_outcome}
use mfd.Demo.Reconcile.{
  reconcile_all, demo_reconcile, on_reply, reconcile_pending_demo, apply_lookup, mark_demo_unknown,
  reconciled_state, sync_after,
}
use mfd.Prelude.{
  none, [], refl, if◌then◌else◌, err, ok, ◌∷◌, some, Result, List, Bool, arith, String, true, ◌≡◌,
  Option, ℕ,
}
use mfd.Demo.Records.{
  ready, submitting, hold, DemoStrategyRun, DemoEvaluation, Time, is_ready, Bytes, is_submitting,
  RunStatus,
}

-- The tests and SET clauses of the statements follow the edges.
active-Edge : {a b : RunStatus} → is_submitting a ≡ true → is_outcome b ≡ true → Edge a b
active-Edge {a = submitting} h o = settled refl o
active-Edge {a = hold} h o = cc
active-Edge {a = ready} h o = cc
active-Edge {a = RunStatus.accepted} h o = cc
active-Edge {a = RunStatus.filled} h o = cc
active-Edge {a = RunStatus.partially_filled} h o = cc
active-Edge {a = RunStatus.rejected} h o = cc
active-Edge {a = RunStatus.unknown} h o = cc

withdraw-Edge : (a : RunStatus) → is_ready a ≡ true → Edge a hold
withdraw-Edge ready h = withdrawn
withdraw-Edge _ h = cc

submit_outcome-is_outcome : (r : SubmitReply) → is_outcome (submit_outcome r).state ≡ true
unfolding submit_outcome
submit_outcome-is_outcome r = ground arith

module _ {D : Type 0} where
  reconciled_state-is_outcome :
      (r : DemoStrategyRun D) (l : OrderLookup) → is_outcome (reconciled_state r l).0 ≡ true
  unfolding reconciled_state demo_lookup_state
  reconciled_state-is_outcome r l = ground arith

module _ {D C B : Type 0} (encrypt : Bytes → Option C) (digest : Bytes → String) where
  pub Traces-hold_tx :
      (now : Time) (id : ℕ) (reason : String) (v : DemoEvaluation D)
      → Traces {B = B} (transact (hold_tx encrypt digest now id reason v))
  Traces-hold_tx now id reason v = Traces-transact _ λ s u a h.
      updated id _ _ (record { same_id = λ r. refl; edge = λ r. withdraw-Edge r.status })
        (hold_tx-Changed encrypt digest now id reason v s.tables h) refl refl

  pub Traces-submit_tx :
      (now : Time) (id : ℕ) (r : SubmitReply) (http_status order_id : ℕ) (raw : Bytes)
      → Traces {D = D} {B = B}
          (transact (submit_tx encrypt digest now id (submit_outcome r) http_status order_id raw))
  Traces-submit_tx now id r http_status order_id raw = Traces-transact _ λ s u a h.
      updated id _ _
        (record { same_id = λ q. refl; edge = λ q k. active-Edge k (submit_outcome-is_outcome r) })
        (submit_tx-Changed encrypt digest now id (submit_outcome r) http_status order_id raw
          s.tables h)
        refl refl

  Traces-lookup_tx :
      (now : Time) (id : ℕ) (q : DemoStrategyRun D) (l : OrderLookup) (reason : String)
      (by_order_id : Bool) (http_status : ℕ) (raw : Bytes)
      → Traces {D = D} {B = B} (
          transact (
            lookup_tx encrypt digest now id
              (reconciled_state q l).0
              reason
              l
              by_order_id
              http_status
              raw))
  Traces-lookup_tx now id q l reason by_order_id http_status raw = Traces-transact _ λ s u a h.
      updated id _ _
        (record { same_id = λ r. refl; edge = λ r k. settled k (reconciled_state-is_outcome q l) })
        (lookup_tx-Changed encrypt digest now id _ reason l by_order_id http_status raw s.tables h)
        refl refl

  Traces-unknown_tx :
      (now : Time) (id http_status : ℕ) (raw : Bytes)
      → Traces {D = D} {B = B} (transact (unknown_tx encrypt digest now id http_status raw))
  Traces-unknown_tx now id http_status raw = Traces-transact _ λ s u a h.
      updated id _ _ (record { same_id = λ r. refl; edge = λ r k. active-Edge k refl })
        (unknown_tx-Changed encrypt digest now id http_status raw s.tables h) refl refl

module _ {D C B : Type 0} (encrypt : Bytes → Option C) (digest : Bytes → String)
    (sync : B → B) where
  Traces-sync_after :
      (state : RunStatus) → Traces {D = D} {C = C} (sync_after encrypt digest sync state)
  unfolding sync_after
  Traces-sync_after state = record {
    run = λ s. next here (idle (ground arith) (ground arith) (ground arith));
  }

  Traces-apply_lookup :
      (view : DemoRunView D) (now : Time) (l : OrderLookup) (by_order_id : Bool) (http_status : ℕ)
      (raw : Bytes)
      → Traces (apply_lookup encrypt digest sync view now l by_order_id http_status raw)
  unfolding apply_lookup
  Traces-apply_lookup view now l by_order_id http_status raw =
      search (tracing, Traces-lookup_tx, Traces-sync_after, Traces-demo_run)

  Traces-mark_demo_unknown :
      (id : ℕ) (now : Time) (http_status : ℕ) (raw : Bytes)
      → Traces {D = D} (mark_demo_unknown encrypt digest sync id now http_status raw)
  unfolding mark_demo_unknown
  Traces-mark_demo_unknown id now http_status raw =
      search (tracing, Traces-unknown_tx, Traces-demo_run)

  Traces-on_reply :
      (view : DemoRunView D) (now : Time) (r : LookupReply × Bool)
      → Traces (on_reply encrypt digest sync view now r)
  unfolding on_reply
  Traces-on_reply view now (reply, by_order_id) = go reply.result
    where
      go :
          (r : Result LookupFailure OrderLookup)
          → Traces (elim r as (λ _. Handler (Session D C B) (DemoRunView D)) [
            | ok lookup ↦
                apply_lookup encrypt digest sync view now lookup by_order_id reply.http_status
                  reply.raw
            | err e ↦
                if is_submitting view.run.status
                then mark_demo_unknown encrypt digest sync view.run.id now reply.http_status
                    reply.raw
                else pure view
          ])
      go (ok lookup) = Traces-apply_lookup view now lookup by_order_id reply.http_status reply.raw
      go (err e) = search (tracing, Traces-mark_demo_unknown)

  pub Traces-demo_reconcile :
      (client : Option LookupClient) (id : ℕ) (now db_now : Time)
      → Traces {D = D} (demo_reconcile encrypt digest sync client id now db_now)
  unfolding demo_reconcile
  Traces-demo_reconcile none id now db_now = search (tracing, Traces-demo_run)
  Traces-demo_reconcile (some c) id now db_now = search (tracing, Traces-demo_run, Traces-on_reply)

  Traces-reconcile_all :
      (client : Option LookupClient) (now db_now : Time) (ids : List ℕ)
      → Traces {D = D} (reconcile_all encrypt digest sync client now db_now ids)
  unfolding reconcile_all
  Traces-reconcile_all client now db_now [] = search tracing
  Traces-reconcile_all client now db_now (id ∷ ids) =
      Traces-bind (demo_reconcile encrypt digest sync client id now db_now) _
        (Traces-demo_reconcile client id now db_now) λ _. Traces-reconcile_all client now db_now ids

  pub Traces-reconcile_pending_demo :
      (client : Option LookupClient) (now db_now : Time)
      → Traces {D = D} (reconcile_pending_demo encrypt digest sync client now db_now)
  unfolding reconcile_pending_demo
  Traces-reconcile_pending_demo client now db_now = search (tracing, Traces-reconcile_all)
