-- ===== src/Service/Platform.antt =====
-- The Platform's forwarding methods (internal/platform/broker.go and demo_strategy.go), with and without
-- a BrokerService, as the Store that internal/httpapi/server.go asks. The methods of Store that have to
-- do with runs are those of another store, an argument.
use mfd.Prelude.{◌∷◌, ℕ, String, Bool, false, Option, none, some, List, [], Result, ok, err}
use mfd.Demo.Records.{Time, Bytes, DemoEvaluation, DemoError}
use mfd.Demo.Provider.{Snapshot}
use mfd.Demo.Lookup.{LookupClient}
use mfd.Demo.Session.{Session}
use mfd.Demo.Reads.{DemoRunView, demo_preview, demo_run, demo_runs}
use mfd.Demo.Reconcile.{demo_reconcile}
use mfd.Demo.Execute.{demo_execute, Clocks, SubmitReply}
use mfd.Decimal.{Decimals}
use mfd.Broker.Records.{Environment, BrokerService, BrokerError, demo, real}
use mfd.Broker.Sync.{Round}
use mfd.Broker.Status.{BrokerStatus, BrokerOverview, authorized, broker_status, sync}
use mfd.Broker.History.{BrokerSnapshot, history}
use mfd.Http.Handlers.{StoreError, Call, Decoder, Response, Request, Route, handle}
use mfd.Http.Serve.{Store, serve}
use mfd.Service.Calls.{Rest, demo_client, sync_next}

-- What one request reads from outside: newID's value; the clocks; what an evaluation finds; the reply
-- to a submission; what lookups answer; and what a synchronisation reads.
pub record Outside (D : Type 0) : Type 0 where
  pub fresh : ℕ
  pub now : Time
  pub db_now : Time
  pub clocks : Clocks
  pub evaluation : DemoEvaluation D
  pub reply : SubmitReply
  pub lookups : ℕ → LookupClient
  pub round : Round D

-- What the handlers write as JSON.
pub record Written (D V : Type 0) : Type 0 where
  pub decision : DemoRunView D → V
  pub decisions : List (DemoRunView D) → V
  pub snapshots : List (BrokerSnapshot D) → V
  pub status : BrokerStatus → V
  pub overview : BrokerOverview → V

-- A uuid's and a key's text.
pub record Texts : Type 0 where
  pub id_of : List ℕ → ℕ
  pub key_of : List ℕ → String

abbrev pub store_error : DemoError → StoreError
store_error DemoError.no_rows = StoreError.no_rows
store_error DemoError.intent_not_ready = StoreError.intent_not_ready
store_error DemoError.active_intent = StoreError.active_intent
store_error _ = StoreError.unavailable

abbrev pub written : {A V S : Type 0} → (A → V) → Result DemoError A × S → Result StoreError V × S
written write (ok a, s) = (ok (write a), s)
written write (err e, s) = (err (store_error e), s)

-- A method of broker.go, on the session that holds the service.
abbrev pub on_service :
    {A V D C : Type 0}
    → (A → V)
    → Session D C (Rest D C)
    → Result BrokerError A × BrokerService C
    → Result StoreError V × Session D C (Rest D C)
on_service write s (ok a, b) = (ok (write a), record s { broker = record s.broker { service = b } })
on_service write s (err e, b) =
    (err StoreError.unavailable, record s { broker = record s.broker { service = b } })

abbrev pub unconfigured_status : Environment → BrokerStatus
unconfigured_status environment = record {
  configured = false;
  environment = environment;
  last_attempt = none;
  last_result = "not_configured";
  http_status = 0;
  last_success = none;
  snapshot_count = 0;
  execution_enabled = false;
}

abbrev pub unconfigured_overview : BrokerOverview
unconfigured_overview = record {
  execution_enabled = false;
  demo_status = unconfigured_status demo;
  real_status = unconfigured_status real;
}

-- `p.Broker == nil`.
abbrev pub without_broker : {D V : Type 0} → Written D V → Call → Result StoreError V
without_broker w Call.broker_status = ok (w.overview unconfigured_overview)
without_broker w Call.demo_runs = ok (w.decisions [])
without_broker w (Call.demo_run id) = err StoreError.no_rows
without_broker w _ = err StoreError.unavailable

-- The rest of the Platform, and its BrokerService, if there is one.
pub record Platform (D C J : Type 0) : Type 0 where
  pub jobs : J
  pub broker : Option (Session D C (Rest D C))

-- BrokerAuthorized.
abbrev pub platform_authorized : {D C J : Type 0} → Platform D C J → String → Bool
platform_authorized p token = elim p.broker [
  | none ↦ false
  | some s ↦ authorized token s.broker.service
]

module _ (d : Decimals) {C V : Type 0} (encrypt : Bytes → Option C) (decrypt : C → Option Bytes)
    (digest : Bytes → String) (parse : Bytes → Option (Snapshot d.D)) (texts : Texts)
    (w : Written d.D V) where
  -- BrokerStatus, BrokerHistory, BrokerSync and the Demo methods, with a service.
  unfoldable pub service_answer :
      Outside d.D
      → Call
      → Session d.D C (Rest d.D C)
      → Result StoreError V × Session d.D C (Rest d.D C)
  service_answer out Call.broker_status s = on_service w.overview s (broker_status s.broker.service)
  service_answer out (Call.broker_history environment) s =
      on_service w.snapshots s (history decrypt digest parse environment s.broker.service)
  service_answer out (Call.broker_sync environment) s =
      on_service w.status s (sync encrypt digest environment out.round s.broker.service)
  service_answer out Call.demo_runs s = written w.decisions (demo_runs s)
  service_answer out (Call.demo_run id) s = written w.decision (demo_run (texts.id_of id) s)
  service_answer out (Call.demo_preview key) s =
      written w.decision (
        demo_preview encrypt digest (texts.key_of key) out.fresh out.now out.db_now out.evaluation
          s)
  service_answer out (Call.demo_execute id) s = written w.decision (
      demo_execute d encrypt digest (sync_next encrypt digest)
        (demo_client out.lookups s.broker.service) out.clocks (texts.id_of id) out.evaluation
        out.reply s)
  service_answer out (Call.demo_reconcile id) s = written w.decision (
      demo_reconcile encrypt digest (sync_next encrypt digest)
        (demo_client out.lookups s.broker.service) (texts.id_of id) out.now out.db_now s)
  service_answer out _ s = (err StoreError.unavailable, s)

  module _ {J : Type 0} (runs_store : Store J V) where
    abbrev pub in_jobs : {A : Type 0} → Platform d.D C J → A × J → A × Platform d.D C J
    in_jobs p (a, j) = (a, record p { jobs = j })

    abbrev pub in_broker :
        Outside d.D → Call → Platform d.D C J → Result StoreError V × Platform d.D C J
    in_broker out call p = elim p.broker [
      | none ↦ (without_broker w call, p)
      | some s ↦ let (r, t) = service_answer out call s in (r, record p { broker = some t })
    ]

    unfoldable pub platform_call :
        Outside d.D → Call → Platform d.D C J → Result StoreError V × Platform d.D C J
    platform_call out Call.runs p = in_jobs p (runs_store.read_value Call.runs p.jobs)
    platform_call out Call.operations p = in_jobs p (runs_store.read_value Call.operations p.jobs)
    platform_call out (Call.run id) p = in_jobs p (runs_store.read_value (Call.run id) p.jobs)
    platform_call out call p = in_broker out call p

    abbrev pub platform_store : Outside d.D → Store (Platform d.D C J) V
    platform_store out = record {
      read_value = platform_call out;
      enqueue_run = λ key payload p. in_jobs p (runs_store.enqueue_run key payload p.jobs);
      ready_dependencies = λ p. runs_store.ready_dependencies p.jobs;
      read_metrics = λ p. runs_store.read_metrics p.jobs;
    }

    -- One request through the handlers of New(p).
    abbrev pub answer_request :
        Decoder → Outside d.D × (Route × Request) → Platform d.D C J → Response V × Platform d.D C J
    answer_request json (out, (route, request)) p =
        serve (platform_store out) (handle json (platform_authorized p) route request) p

    unfoldable pub answer_requests :
        Decoder → List (Outside d.D × (Route × Request)) → Platform d.D C J → Platform d.D C J
    answer_requests json [] p = p
    answer_requests json (q ∷ qs) p = answer_requests json qs (answer_request json q p).1
