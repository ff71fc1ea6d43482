-- ===== src/Service/Calls.antt =====
-- All methods of BrokerService (internal/platform/broker.go and demo_strategy.go) on one state: the
-- tables of decisions, and the rest of the service, which syncDemoAfterOrder changes.
use mfd.Prelude.{ℕ, String, Option, none, some, List, [], ◌∷◌}
use mfd.Demo.Records.{Bytes}
use mfd.Demo.Lookup.{LookupClient}
use mfd.Demo.Session.{Session}
use mfd.Demo.Lifecycle.Operations.{Operation, perform}
use mfd.Decimal.{Decimals}
use mfd.Broker.Records.{Environment, BrokerService}
use mfd.Broker.Store.{Reading, Stamp}
use mfd.Broker.Sync.{sync_demo_after_order}
use mfd.Broker.Sessions.{BrokerCall, broker_call}

-- What one read after an order will be answered, and the identifiers and the time that its
-- transaction will use.
pub record OrderRead (D : Type 0) : Type 0 where
  pub fetch : ℕ → Environment → Reading D
  pub stamp : Stamp

-- The rest of the service, with the reads after orders to come.
pub record Rest (D C : Type 0) : Type 0 where
  pub service : BrokerService C
  pub reads : List (OrderRead D)

-- demoClient: the client that is bound to Demo, of which the lookups are an argument.
abbrev pub demo_client : {C : Type 0} → (ℕ → LookupClient) → BrokerService C → Option LookupClient
demo_client lookups s = elim s.bound.in_demo [ none ↦ none | some client ↦ some (lookups client) ]

-- The method asks the bound client.
abbrev pub with_client : {D : Type 0} → Option LookupClient → Operation D → Operation D
with_client client (Operation.execute c clocks id v reply) =
    Operation.execute client clocks id v reply
with_client client (Operation.reconcile c id now db_now) = Operation.reconcile client id now db_now
with_client client (Operation.reconcile_pending c now db_now) =
    Operation.reconcile_pending client now db_now
with_client client o = o

pub data ServiceCall (D : Type 0) : Type 0 where
  demo_call : (ℕ → LookupClient) → Operation D → ServiceCall D
  broker_call_of : BrokerCall D → ServiceCall D

module _ {D C : Type 0} (encrypt : Bytes → Option C) (digest : Bytes → String) where
  unfoldable pub sync_next : Rest D C → Rest D C
  sync_next rest = elim rest.reads [
    | [] ↦ rest
    | r ∷ rs ↦ record {
      service = sync_demo_after_order encrypt digest r.fetch r.stamp rest.service;
      reads = rs;
    }
  ]

module _ (d : Decimals) {C : Type 0} (encrypt : Bytes → Option C) (digest : Bytes → String) where
  unfoldable pub service_call :
      ServiceCall d.D → Session d.D C (Rest d.D C) → Session d.D C (Rest d.D C)
  service_call (ServiceCall.demo_call lookups o) s =
      perform d encrypt digest (sync_next encrypt digest)
        (with_client (demo_client lookups s.broker.service) o) s
  service_call (ServiceCall.broker_call_of c) s = record s {
    broker = record s.broker { service = broker_call encrypt digest c s.broker.service };
  }

  unfoldable pub service_calls :
      List (ServiceCall d.D) → Session d.D C (Rest d.D C) → Session d.D C (Rest d.D C)
  service_calls [] s = s
  service_calls (c ∷ cs) s = service_calls cs (service_call c s)
