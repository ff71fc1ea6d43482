-- ===== src/Service/Answers.antt =====
-- What the Platform's forwarding methods (internal/platform/broker.go and demo_strategy.go) do to the
-- BrokerService, asked by the handlers of internal/httpapi/server.go.
use mfd.Prelude.{List, String, Option, none, some, Result, ok, err, refl}
use mfd.Demo.Records.{Bytes, DemoError}
use mfd.Demo.Provider.{Snapshot}
use mfd.Demo.Session.{Session}
use mfd.Demo.Lifecycle.Operations.{Operation, perform}
use mfd.Demo.Lifecycle.Steps.{here as nowhere, next, idle, Reach-trans}
use mfd.Decimal.{Decimals}
use mfd.Broker.Records.{
  Environment, BrokerService, BrokerError, valid_broker_environment, demo, real,
}
use mfd.Broker.Turns.{Turns, here, one, idle as lost, Turns-trans, Turns-keep}
use mfd.Broker.Bindings.{Consistent, Turn-Consistent}
use mfd.Broker.Calls.{IsHonest}
use mfd.Broker.Status.{BrokerStatus, broker_status, status, overview_after, overview_with, sync}
use mfd.Broker.History.{BrokerSnapshot, history, history_of}
use mfd.Broker.Sessions.{sync-Turns, status-Turns}
use mfd.Http.Handlers.{Call}
use mfd.Service.Calls.{Rest, ServiceCall, service_call, with_client, demo_client, sync_next}
use mfd.Service.Safety.{After, service_call-After}
use mfd.Service.Platform.{Outside, Written, Texts, written, on_service, service_answer}

module _ {D C : Type 0} (encrypt : Bytes → Option C) (digest : Bytes → String)
    (parse : Bytes → Option (Snapshot D)) where
  overview-Turns : (s : BrokerService C) → Turns encrypt digest parse s (broker_status s).1
  unfolding broker_status
  overview-Turns s = after_demo (status demo s) (status-Turns encrypt digest parse demo s)
    where
      after_real :
          (row : BrokerStatus) (o : Result BrokerError BrokerStatus × BrokerService C)
          → Turns encrypt digest parse s o.1
          → Turns encrypt digest parse s (overview_with row o).1
      after_real row (ok r, t) h = h
      after_real row (err e, t) h = h

      after_demo :
          (o : Result BrokerError BrokerStatus × BrokerService C)
          → Turns encrypt digest parse s o.1
          → Turns encrypt digest parse s (overview_after o).1
      after_demo (ok r, t) h =
          after_real r (status real t) (Turns-trans h (status-Turns encrypt digest parse real t))
      after_demo (err e, t) h = h

  history-Turns :
      (decrypt : C → Option Bytes) (name : String) (s : BrokerService C)
      → Turns encrypt digest parse s (history decrypt digest parse name s).1
  unfolding history history_of
  history-Turns decrypt name s = by_name (valid_broker_environment name)
    where
      by_name :
          (o : Option Environment)
          → Turns encrypt digest parse s
              (elim o as (λ _. Result BrokerError (List (BrokerSnapshot D)) × BrokerService C) [
                | none ↦ (err BrokerError.invalid_environment, s)
                | some environment ↦ history_of decrypt digest parse environment s
              ]).1
      by_name none = here
      by_name (some environment) = one (lost _ refl)

module _ (d : Decimals) {C V : Type 0} (encrypt : Bytes → Option C) (decrypt : C → Option Bytes)
    (digest : Bytes → String) (parse : Bytes → Option (Snapshot d.D)) (texts : Texts)
    (w : Written d.D V) where
  abbrev To : Session d.D C (Rest d.D C) → Session d.D C (Rest d.D C) → Type 0
  To = After d encrypt digest parse

  written-After :
      {A : Type 0} (write : A → V) (s : Session d.D C (Rest d.D C))
      (o : Result DemoError A × Session d.D C (Rest d.D C))
      → To s o.1
      → To s (written write o).1
  written-After write s (ok a, t) h = h
  written-After write s (err e, t) h = h

  serviced :
      (s t : Session d.D C (Rest d.D C)) (b : BrokerService C)
      → To s t
      → Turns encrypt digest parse t.broker.service b
      → To s (record t { broker = record t.broker { service = b } })
  serviced s t b (reach, from) turns = (
    Reach-trans reach (next nowhere (idle refl refl refl)),
    record {
      honest = from.honest;
      consistent = Turns-keep Consistent Turn-Consistent turns from.consistent;
      turns = Turns-trans from.turns turns;
    },
  )

  on_service-After :
      {A : Type 0} (write : A → V) (s t : Session d.D C (Rest d.D C))
      (o : Result BrokerError A × BrokerService C)
      → To s t
      → Turns encrypt digest parse t.broker.service o.1
      → To s (on_service write t o).1
  on_service-After write s t (ok a, b) h turns = serviced s t b h turns
  on_service-After write s t (err e, b) h turns = serviced s t b h turns

  -- The Demo methods, as calls of the whole service.
  called :
      (out : Outside d.D) (o : Operation d.D) (s t : Session d.D C (Rest d.D C))
      → To s t
      → To s (
          perform d encrypt digest
            (sync_next encrypt digest)
            (with_client (demo_client out.lookups t.broker.service) o)
            t)
  unfolding service_call
  called out o s t h =
      service_call-After d encrypt digest parse (ServiceCall.demo_call out.lookups o) s t tt h

  pub service_answer-After :
      (out : Outside d.D) (call : Call) (s t : Session d.D C (Rest d.D C))
      → IsHonest parse out.round.fetch_aggregate
      → To s t
      → To s (service_answer d encrypt decrypt digest parse texts w out call t).1
  unfolding service_answer perform
  service_answer-After out Call.broker_status s t honest h =
      on_service-After w.overview s t (broker_status t.broker.service) h
        (overview-Turns encrypt digest parse t.broker.service)
  service_answer-After out (Call.broker_history environment) s t honest h =
      on_service-After w.snapshots s t (history decrypt digest parse environment t.broker.service) h
        (history-Turns encrypt digest parse decrypt environment t.broker.service)
  service_answer-After out (Call.broker_sync environment) s t honest h =
      on_service-After w.status s t (sync encrypt digest environment out.round t.broker.service) h (
        sync-Turns encrypt digest parse environment out.round t.broker.service honest
          h.1.consistent)
  service_answer-After out Call.demo_runs s t honest h =
      written-After w.decisions s _ (called out Operation.list_runs s t h)
  service_answer-After out (Call.demo_run id) s t honest h =
      written-After w.decision s _ (called out (Operation.read_run (texts.id_of id)) s t h)
  service_answer-After out (Call.demo_preview key) s t honest h = written-After w.decision s _ (
      called out (Operation.preview (texts.key_of key) out.fresh out.now out.db_now out.evaluation)
        s t h)
  service_answer-After out (Call.demo_execute id) s t honest h = written-After w.decision s _ (
      called out (Operation.execute none out.clocks (texts.id_of id) out.evaluation out.reply) s t
        h)
  service_answer-After out (Call.demo_reconcile id) s t honest h =
      written-After w.decision s _
        (called out (Operation.reconcile none (texts.id_of id) out.now out.db_now) s t h)
  service_answer-After out Call.runs s t honest h = h
  service_answer-After out Call.operations s t honest h = h
  service_answer-After out (Call.run id) s t honest h = h
