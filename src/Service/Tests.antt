-- ===== src/Service/Tests.antt =====
-- The whole BrokerService (internal/platform/broker.go and demo_strategy.go) on one order: client 1 is
-- bound to Demo, the order is filled, and the portfolio is read again after it.
mod Requests
use mfd.Broker.Spacing.{IsSpaced}
use mfd.Demo.Lookup.{lookup_demo_order_with_fallback, demo_lookup_state}
use mfd.Demo.Reconcile.{
  reconciled_state, sync_after, mark_demo_unknown, apply_lookup, on_reply, demo_reconcile,
}
use mfd.Demo.Execute.{submit_outcome, record_submit, launch, hold_demo, execute_plan, demo_execute}
use mfd.Demo.Transactions.{unknown_tx, lookup_tx, submit_tx, intent_tx, hold_tx, preview_tx}
use mfd.Demo.Reads.{demo_run, insert_event, order_events, save_preview, demo_preview}
use mfd.Prelude.{map, Option, none, some, List, [], ◌∷◌, ℕ, ◌≡◌, refl, ok, All, true, false, arith}
use mfd.Prelude.Int.{ℤ, pos, ◌+ℤ◌, ◌-ℤ◌}
use mfd.Decimal.Whole.{whole}
use mfd.Demo.Records.{Bytes}
use mfd.Demo.Provider.{Snapshot}
use mfd.Demo.Session.{transact, raise, pure, query, ◌>>=◌, Session}
use mfd.Demo.Fixture.{client, clocks, passed, receipt, seal, digest}
use mfd.Demo.Lifecycle.Operations.{Operation, perform_all, perform}
use mfd.Demo.Tables.{add_demo_event, save_artifacts, save_artifact, update_run, insert_run}
use mfd.Broker.Records.{Environment, BrokerService, demo}
use mfd.Broker.Store.{insert_snapshot, persist_tx, persist, Reading}
use mfd.Broker.Sync.{
  sync_demo_after_order, record_success, sync_client, sync_configured_slot, Round,
}
use mfd.Broker.Bindings.{Consistent}
use mfd.Broker.Calls.{IsHonest}
use mfd.Broker.Sessions.{broker_call, configured_call}
use mfd.Service.Calls.{service_call, OrderRead, Rest, ServiceCall, service_calls, sync_next}
use mfd.Service.Safety.{IsSafe, ReadIsHonest, ServiceCallIsHonest, service_calls-Consistent}

abbrev portfolio : Snapshot ℤ
portfolio = record {
  provider_at = pos 5;
  provider_time_assumed_utc = false;
  currency = "USD";
  available_cash = pos 700;
  total_value = pos 700;
  current_pnl = pos 0;
  instruments = [];
  mirror_count = 0;
}

abbrev parse : Bytes → Option (Snapshot ℤ)
parse raw = some portfolio

abbrev answers : ℕ → Environment → Reading ℤ
answers c environment = ok (7 ∷ [], portfolio)

answers-IsHonest : IsHonest parse answers
answers-IsHonest = record { parses = λ c e raw x h. ground (arith, h) }

abbrev order_read : OrderRead ℤ
order_read = record {
  fetch = answers;
  stamp = record { snapshot_id = 30; event_id = 31; now = pos 70 };
}

abbrev opened : BrokerService Bytes
opened = record {
  tables = record { snapshots = []; events = [] };
  clients = record { in_demo = some 1; in_real = none };
  bound = record { in_demo = none; in_real = none };
  conflicted = [];
  attempts = [];
  rounds = [];
  token = "0123456789abcdef0123456789abcdef";
  demo_execution_enabled = true;
  faults = [];
}

opened-Consistent : Consistent opened
opened-Consistent = record { known = λ c h. cc; clear = λ c h. cc; apart = λ c h. cc }

opened-IsSpaced : IsSpaced opened
opened-IsSpaced = record { spaced = tt; all_noted = refl }

abbrev idle_session : Session ℤ Bytes (Rest ℤ Bytes)
idle_session = record {
  tables = record { runs = []; events = []; artifacts = [] };
  intents = [];
  posts = [];
  broker = record { service = opened; reads = order_read ∷ order_read ∷ [] };
  faults = [];
}

abbrev first_round : Round ℤ
first_round = record {
  since = pos 10;
  lag = 1;
  fetch_aggregate = answers;
  first = record { snapshot_id = 20; event_id = 21; now = pos 10 };
  second = record { snapshot_id = 22; event_id = 23; now = pos 11 };
}

abbrev calls : List (ServiceCall ℤ)
calls =
    ServiceCall.broker_call_of (configured_call demo first_round)
    ∷ ServiceCall.demo_call (λ c. client) (Operation.preview "key" 7 (pos 0) (pos 1) passed)
    ∷ ServiceCall.demo_call (λ c. client) (Operation.execute none clocks 7 passed receipt)
    ∷ []

calls-ServiceCallIsHonest : All (ServiceCallIsHonest parse) calls
calls-ServiceCallIsHonest = (answers-IsHonest, (tt, (tt, tt)))

reads-ReadIsHonest : All (ReadIsHonest parse) idle_session.broker.reads
reads-ReadIsHonest = (answers-IsHonest, (answers-IsHonest, tt))

abbrev after : Session ℤ Bytes (Rest ℤ Bytes)
after = service_calls whole seal digest calls idle_session

-- The order was posted, and one of the two reads is left.
after-calls :
    (after.posts ≡ 7 ∷ [])
    × (after.broker.service.bound ≡ record { in_demo = some 1; in_real = none })
    × (map (λ r. r.id) after.broker.service.tables.snapshots ≡ 30 ∷ 20 ∷ [])
    × (after.broker.reads ≡ order_read ∷ [])
unfolding service_calls service_call sync_next broker_call sync_configured_slot sync_client
    record_success persist persist_tx insert_snapshot sync_demo_after_order perform demo_preview
    save_preview preview_tx insert_run order_events insert_event demo_execute ◌>>=◌ demo_run query
    pure raise transact execute_plan hold_demo launch record_submit submit_outcome hold_tx intent_tx
    submit_tx lookup_tx unknown_tx update_run save_artifact save_artifacts add_demo_event
    demo_reconcile on_reply apply_lookup mark_demo_unknown sync_after reconciled_state
    demo_lookup_state lookup_demo_order_with_fallback ◌+ℤ◌ ◌-ℤ◌
after-calls = (refl, refl, refl, refl)

service_calls-Consistent_example : IsSafe whole seal digest parse idle_session after
service_calls-Consistent_example =
    service_calls-Consistent whole seal digest parse calls idle_session calls-ServiceCallIsHonest
      reads-ReadIsHonest opened-Consistent opened-IsSpaced refl refl refl
