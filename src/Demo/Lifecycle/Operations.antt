-- ===== src/Demo/Lifecycle/Operations.antt =====
-- The Demo strategy's methods of BrokerService (internal/platform/demo_strategy.go) as one interface,
-- and what holds of every sequence of calls.
use mfd.Demo.Lifecycle.Safety.{posts_once, final_stays}
use mfd.Demo.Tables.{count_active}
use mfd.Demo.Reconcile.{reconcile_pending_demo, demo_reconcile}
use mfd.Demo.Lifecycle.Orders.{Traces-demo_execute}
use mfd.Demo.Lifecycle.Lookups.{Traces-reconcile_pending_demo, Traces-demo_reconcile}
use mfd.Demo.Lifecycle.Handlers.{Traces-demo_runs, Traces-demo_run, Traces-demo_preview}
use mfd.Demo.Lifecycle.Edges.{is_submitted, status_at, is_final}
use mfd.Demo.Execute.{demo_execute, SubmitReply, Clocks}
use mfd.Demo.Reads.{demo_runs, demo_run, demo_preview}
use mfd.Demo.Lifecycle.Steps.{occurs, Reach-trans, here, Reach}
use mfd.Demo.Lookup.{LookupClient}
use mfd.Demo.Session.{Session}
use mfd.Demo.Records.{RunStatus, DemoEvaluation, Time, Bytes}
use mfd.Decimal.{Decimals}
use mfd.Prelude.{◌<◌, some, ◌≤◌, true, [], ◌≡◌, ◌∷◌, List, Option, String, ℕ}

-- A call, with what the method reads from outside.
pub data Operation (D : Type 0) : Type 0 where
  preview : String → ℕ → Time → Time → DemoEvaluation D → Operation D
  execute : Option LookupClient → Clocks → ℕ → DemoEvaluation D → SubmitReply → Operation D
  reconcile : Option LookupClient → ℕ → Time → Time → Operation D
  reconcile_pending : Option LookupClient → Time → Time → Operation D
  read_run : ℕ → Operation D
  list_runs : Operation D

module _ (d : Decimals) {C B : Type 0} (encrypt : Bytes → Option C) (digest : Bytes → String)
    (sync : B → B) where
  -- The session that a call leaves, whether it returned or failed.
  unfoldable pub perform : Operation d.D → Session d.D C B → Session d.D C B
  perform (Operation.preview key fresh now db_now v) s =
      (demo_preview encrypt digest key fresh now db_now v s).1
  perform (Operation.execute client clocks id v reply) s =
      (demo_execute d encrypt digest sync client clocks id v reply s).1
  perform (Operation.reconcile client id now db_now) s =
      (demo_reconcile encrypt digest sync client id now db_now s).1
  perform (Operation.reconcile_pending client now db_now) s =
      (reconcile_pending_demo encrypt digest sync client now db_now s).1
  perform (Operation.read_run id) s = (demo_run id s).1
  perform Operation.list_runs s = (demo_runs s).1

  unfoldable pub perform_all : List (Operation d.D) → Session d.D C B → Session d.D C B
  perform_all [] s = s
  perform_all (o ∷ os) s = perform_all os (perform o s)

  -- Every method, on every branch and under every database fault, is a sequence of the atomic
  -- actions of the decision life cycle.
  pub perform-Reach : (o : Operation d.D) (s : Session d.D C B) → Reach s (perform o s)
  unfolding perform
  perform-Reach (Operation.preview key fresh now db_now v) s =
      (Traces-demo_preview encrypt digest key fresh now db_now v).run s
  perform-Reach (Operation.execute client clocks id v reply) s =
      (Traces-demo_execute d encrypt digest sync client clocks id v reply).run s
  perform-Reach (Operation.reconcile client id now db_now) s =
      (Traces-demo_reconcile encrypt digest sync client id now db_now).run s
  perform-Reach (Operation.reconcile_pending client now db_now) s =
      (Traces-reconcile_pending_demo encrypt digest sync client now db_now).run s
  perform-Reach (Operation.read_run id) s = (Traces-demo_run id).run s
  perform-Reach Operation.list_runs s = Traces-demo_runs.run s

  perform_all-Reach : (os : List (Operation d.D)) (s : Session d.D C B) → Reach s (perform_all os s)
  unfolding perform_all
  perform_all-Reach [] s = here
  perform_all-Reach (o ∷ os) s =
      Reach-trans (perform-Reach o s) (perform_all-Reach os (perform o s))

  -- After any sequence of Demo strategy calls from an empty database, with any evaluations, broker
  -- replies, clocks and database failures: no decision's order is posted twice, at most one
  -- decision is unresolved, and every posted decision is past ready.
  pub perform_all-once :
      (os : List (Operation d.D)) (s : Session d.D C B)
      → s.tables.runs ≡ []
      → s.intents ≡ []
      → s.posts ≡ []
      → ((i : ℕ) → occurs i (perform_all os s).posts ≤ 1)
        × (count_active (perform_all os s).tables.runs ≤ 1)
        × ((i : ℕ)
            → 0 < occurs i (perform_all os s).posts
            → is_submitted (status_at i (perform_all os s).tables.runs) ≡ true)
  perform_all-once os s e f g = posts_once e f g (perform_all-Reach os s)

  -- A held, filled or rejected decision keeps its status through any sequence of calls.
  pub perform_all-final :
      (os : List (Operation d.D)) (s : Session d.D C B) (i : ℕ) (a : RunStatus)
      → is_final a ≡ true
      → status_at i s.tables.runs ≡ some a
      → status_at i (perform_all os s).tables.runs ≡ some a
  perform_all-final os s i a f e = final_stays i f e (perform_all-Reach os s)
