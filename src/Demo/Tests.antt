-- ===== src/Demo/Tests.antt =====
-- The Demo strategy on concrete inputs: tests, and the theorems at those inputs.
use mfd.Demo.Settled.{perform_all-stores}
use mfd.Demo.Session.{Session, stored, refused, ◌>>=◌, query, pure, raise, transact}
use mfd.Demo.Transactions.{
  Outcome, OrderLookup, may_launch, unknown_tx, submit_tx, hold_tx, preview_tx, lookup_tx,
  intent_tx,
}
use mfd.Demo.Records.{
  is_active, RunStatus, submitting, Tables, Bytes, active_intent, partially_filled, accepted,
  rejected, filled, DemoStrategyRun,
}
use mfd.Prelude.{
  Bool, String, List, ◌∷◌, ◌<◌, ◌∙◌, ◌≤◌, sym, ◌⊎◌, ok, err, arith, none, ◌↔◌, suc, [], refl, true,
  ◌≢◌, some, ◌≡◌, ℕ,
}
use mfd.Demo.Outcomes.{demo_lookup_state_lem, intent_tx_blocked, reconciled_state-filled}
use mfd.Demo.Idempotent.{demo_preview_idempotent}
use mfd.Demo.Guard.{demo_execute-Confirmed, Confirmed}
use mfd.Prelude.Int.{◌-ℤ◌, ◌+ℤ◌, pos, ℤ}
use mfd.Decimal.Whole.{whole-HasLaws, whole}
use mfd.Demo.Fixture.{
  first_call, completed, failed_checks, passed, started, clocks, calls, receipt, busy_tables,
  client, first_view, digest, previewed_session, seal, lookup, prepared, ready_run,
}
use mfd.Demo.Lifecycle.Operations.{
  perform_all-once, perform-Reach, perform_all-final, Operation, perform_all, perform,
}
use mfd.Demo.Reconcile.{
  sync_after, mark_demo_unknown, apply_lookup, on_reply, demo_reconcile, reconciled_state,
}
use mfd.Demo.Execute.{record_submit, launch, hold_demo, submit_outcome, execute_plan, demo_execute}
use mfd.Demo.Reads.{demo_run, save_preview, demo_preview, order_events, insert_event}
use mfd.Demo.Lifecycle.Steps.{occurs, Reach}
use mfd.Demo.Lookup.{lookup_demo_order_with_fallback, demo_lookup_state}
use mfd.Demo.Lifecycle.Edges.{is_submitted, is_outcome, status_at}
use mfd.Demo.Tables.{
  count_active, rows_affected, select_run, add_demo_event, save_artifact, save_artifacts,
  update_run, insert_run,
}

executed-posts :
    (demo_execute whole seal digest suc (some client) clocks 7 passed receipt prepared).1.posts
    ≡ 7 ∷ []
unfolding demo_execute ◌>>=◌ demo_run query pure raise transact execute_plan hold_demo launch
    record_submit submit_outcome hold_tx intent_tx submit_tx lookup_tx unknown_tx update_run
    save_artifact save_artifacts add_demo_event demo_reconcile on_reply apply_lookup
    mark_demo_unknown sync_after reconciled_state demo_lookup_state lookup_demo_order_with_fallback
    ◌+ℤ◌ ◌-ℤ◌
executed-posts = refl

executed-status :
    status_at 7
      (demo_execute whole seal digest suc
        (some client)
        clocks
        7
        passed
        receipt
        prepared).1.tables.runs
    ≡ some filled
unfolding demo_execute ◌>>=◌ demo_run query pure raise transact execute_plan hold_demo launch
    record_submit submit_outcome hold_tx intent_tx submit_tx lookup_tx unknown_tx update_run
    save_artifact save_artifacts add_demo_event demo_reconcile on_reply apply_lookup
    mark_demo_unknown sync_after reconciled_state demo_lookup_state lookup_demo_order_with_fallback
    ◌+ℤ◌ ◌-ℤ◌
executed-status = refl

executed_some :
    (demo_execute whole seal digest suc (some client) clocks 7 passed receipt prepared).1.posts
    ≢ prepared.posts
executed_some e = ground (arith, sym executed-posts ∙ e)

demo_execute-Confirmed_example :
    (run : DemoStrategyRun ℤ) × (select_run 7 prepared.tables.runs ≡ some run)
    × Confirmed whole clocks.guard run passed
demo_execute-Confirmed_example =
    demo_execute-Confirmed whole whole-HasLaws seal digest suc (some client) clocks 7 passed receipt
      prepared executed_some

perform_all-once_example :
    ((i : ℕ) → occurs i (perform_all whole seal digest suc calls started).posts ≤ 1)
    × (count_active (perform_all whole seal digest suc calls started).tables.runs ≤ 1)
    × ((i : ℕ)
        → 0 < occurs i (perform_all whole seal digest suc calls started).posts
        → is_submitted (status_at i (perform_all whole seal digest suc calls started).tables.runs)
          ≡ true)
perform_all-once_example = perform_all-once whole seal digest suc calls started refl refl refl

perform-Reach_example : Reach prepared (
    perform whole seal digest suc
      (Operation.execute (some client) clocks 7 passed receipt)
      prepared)
perform-Reach_example =
    perform-Reach whole seal digest suc (Operation.execute (some client) clocks 7 passed receipt)
      prepared

perform_all-final_example :
    status_at 7 (perform_all whole seal digest suc calls completed).tables.runs ≡ some filled
perform_all-final_example =
    perform_all-final whole seal digest suc calls completed 7 filled refl refl

launched_one : rows_affected 7 (may_launch (pos 3)) prepared.tables.runs ≡ 1
unfolding ◌+ℤ◌
launched_one = refl

previewed-first :
    demo_preview seal digest "key" 7 (pos 0) (pos 1) passed started
    ≡ (ok first_view, previewed_session)
unfolding order_events insert_event demo_preview save_preview demo_run query pure raise transact
    ◌>>=◌ preview_tx insert_run save_artifact save_artifacts add_demo_event ◌+ℤ◌
previewed-first = refl

previewed-again :
    demo_preview seal digest "key" 8 (pos 9) (pos 10) failed_checks previewed_session
    ≡ (ok first_view, previewed_session)
unfolding order_events insert_event demo_preview save_preview demo_run query pure raise transact
    ◌>>=◌ preview_tx insert_run save_artifact save_artifacts add_demo_event ◌+ℤ◌
previewed-again = refl

demo_preview_idempotent_example :
    (previewed_session.tables ≡ previewed_session.tables) × (first_view.run.id ≡ first_view.run.id)
demo_preview_idempotent_example =
    demo_preview_idempotent seal digest "key" 7 8 (pos 0) (pos 9) (pos 1) (pos 10) passed
      failed_checks started previewed_session previewed_session first_view first_view
      previewed-first previewed-again

demo_lookup_state_lem_example :
    let state = (demo_lookup_state lookup).0 in
    ((state ≡ filled) ↔ ((lookup.status_id ≡ 3) × (lookup.position_ids ≢ [])))
    × ((state ≡ rejected) ↔ ((lookup.status_id ≡ 4) × (lookup.position_ids ≡ [])))
    × ((state ≡ accepted) ↔ (
        (lookup.status_id ≡ 1)
        ⊎ (lookup.status_id ≡ 2)
        ⊎ (lookup.status_id ≡ 11)
        ⊎ (lookup.status_id ≡ 12)))
    × ((state ≡ partially_filled) ↔ ((lookup.status_id ≡ 5) ⊎ (lookup.status_id ≡ 10)))
    × (is_outcome state ≡ true)
demo_lookup_state_lem_example = demo_lookup_state_lem lookup

reconciled-filled : (reconciled_state ready_run lookup).0 ≡ filled
unfolding reconciled_state demo_lookup_state
reconciled-filled = refl

reconciled_state-filled_example :
    (lookup.status_id ≡ 3)
    × (lookup.position_ids ≢ [])
    × ((ready_run.broker_order_id ≡ none) ⊎ (ready_run.broker_order_id ≡ some lookup.order_id))
reconciled_state-filled_example = reconciled_state-filled ready_run lookup reconciled-filled

launchable : rows_affected 7 (may_launch (pos 3)) busy_tables.runs ≡ 1
unfolding ◌+ℤ◌
launchable = refl

intent_tx_blocked_example : intent_tx seal digest (pos 3) 7 [] busy_tables ≡ err active_intent
intent_tx_blocked_example =
    intent_tx_blocked seal digest (pos 3) 7 [] busy_tables (omega arith) launchable

-- The record of the submission is refused, so that decision 7 stays in submission.
abbrev failing : Session ℤ Bytes ℕ
failing = record started {
  faults = stored ∷ stored ∷ stored ∷ stored ∷ stored ∷ stored ∷ stored ∷ refused ∷ [];
}

abbrev submission : List (Operation ℤ)
submission = first_call ∷ Operation.execute (some client) clocks 7 passed receipt ∷ []

abbrev stuck : Session ℤ Bytes ℕ
stuck = perform_all whole seal digest suc submission failing

stuck-status : status_at 7 stuck.tables.runs ≡ some submitting
unfolding perform_all perform demo_preview save_preview preview_tx insert_run order_events
    insert_event demo_execute ◌>>=◌ demo_run query pure raise transact execute_plan hold_demo launch
    record_submit submit_outcome hold_tx intent_tx submit_tx update_run save_artifact save_artifacts
    add_demo_event ◌+ℤ◌ ◌-ℤ◌
stuck-status = refl

perform_all-stores_example :
    ((o : Outcome) (order_id : ℕ)
      → status_at 7 stuck.tables.runs ≡ some submitting
      → (u : Tables ℤ Bytes) × (submit_tx seal digest (pos 9) 7 o 200 order_id (1 ∷ []) stuck.tables
          ≡ ok (u, tt))
        × (status_at 7 u.runs ≡ some o.state))
    × ((a state : RunStatus) (reason : String) (l : OrderLookup) (by_order_id : Bool)
        → is_active a ≡ true
        → status_at 7 stuck.tables.runs ≡ some a
        → (u : Tables ℤ Bytes) × (lookup_tx seal digest
              (pos 9)
              7
              state
              reason
              l
              by_order_id
              200
              (1 ∷ [])
              stuck.tables
            ≡ ok (u, tt))
          × (status_at 7 u.runs ≡ some state))
    × (status_at 7 stuck.tables.runs ≡ some submitting
        → (u : Tables ℤ Bytes) × (unknown_tx seal digest (pos 9) 7 200 (1 ∷ []) stuck.tables
            ≡ ok (u, tt))
          × (status_at 7 u.runs ≡ some RunStatus.unknown))
perform_all-stores_example =
    perform_all-stores whole seal digest suc submission failing (pos 9) 7 200 (1 ∷ []) (1 ∷ []) refl
      refl refl refl
