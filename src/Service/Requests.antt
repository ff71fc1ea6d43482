-- ===== src/Service/Requests.antt =====
-- Requests to internal/httpapi/server.go, answered by the BrokerService: what any sequence of them
-- keeps, and what a request without the operator's token leaves alone.
use mfd.Prelude.{String, Option, some, List, [], ◌∷◌, ◌≡◌, refl, All}
use mfd.Demo.Records.{Bytes}
use mfd.Demo.Provider.{Snapshot}
use mfd.Demo.Session.{Session}
use mfd.Demo.Lifecycle.Steps.{here}
use mfd.Decimal.{Decimals}
use mfd.Broker.Turns.{here as no_turn}
use mfd.Broker.Bindings.{Consistent}
use mfd.Broker.Calls.{IsHonest}
use mfd.Broker.Spacing.{IsSpaced}
use mfd.Http.Handlers.{Call, HttpHandler, Decoder, Request, Route, handle}
use mfd.Http.Serve.{Store, serve}
use mfd.Service.Calls.{Rest}
use mfd.Service.Safety.{After, After-IsSafe, IsSafe, ReadIsHonest}
use mfd.Service.Platform.{
  Outside, Written, Texts, Platform, platform_call, platform_store, in_broker, answer_requests,
  platform_authorized,
}
use mfd.Service.Answers.{service_answer-After}

-- The provider's answers to one request come with the portfolio that they parse to.
abbrev pub RequestIsHonest :
    {D : Type 0} → (Bytes → Option (Snapshot D)) → Outside D × (Route × Request) → Type 0
RequestIsHonest parse (out, q) = IsHonest parse out.round.fetch_aggregate

module _ (d : Decimals) {C V : Type 0} (encrypt : Bytes → Option C) (decrypt : C → Option Bytes)
    (digest : Bytes → String) (parse : Bytes → Option (Snapshot d.D)) (texts : Texts)
    (w : Written d.D V) {J : Type 0} (runs_store : Store J V) where
  abbrev State : Type 0
  State = Session d.D C (Rest d.D C)

  -- The service is there, and after `s`.
  abbrev IsAfter : State → Option State → Type 0
  IsAfter s o = (t : State) × (o ≡ some t) × After d encrypt digest parse s t

  in_broker-IsAfter :
      (out : Outside d.D) (call : Call) (p : Platform d.D C J) (s : State)
      → IsHonest parse out.round.fetch_aggregate
      → IsAfter s p.broker
      → IsAfter s (in_broker d encrypt decrypt digest parse texts w runs_store out call p).1.broker
  in_broker-IsAfter out call p s honest (t, e, h) =
      rw e
        (_, refl, service_answer-After d encrypt decrypt digest parse texts w out call s t honest h)

  platform_call-IsAfter :
      (out : Outside d.D) (call : Call) (p : Platform d.D C J) (s : State)
      → IsHonest parse out.round.fetch_aggregate
      → IsAfter s p.broker
      → IsAfter s
          (platform_call d encrypt decrypt digest parse texts w runs_store out call p).1.broker
  unfolding platform_call
  platform_call-IsAfter out Call.runs p s honest h = h
  platform_call-IsAfter out Call.operations p s honest h = h
  platform_call-IsAfter out (Call.run id) p s honest h = h
  platform_call-IsAfter out Call.broker_status p s honest h =
      in_broker-IsAfter out Call.broker_status p s honest h
  platform_call-IsAfter out Call.demo_runs p s honest h =
      in_broker-IsAfter out Call.demo_runs p s honest h
  platform_call-IsAfter out (Call.demo_run id) p s honest h =
      in_broker-IsAfter out (Call.demo_run id) p s honest h
  platform_call-IsAfter out (Call.demo_execute id) p s honest h =
      in_broker-IsAfter out (Call.demo_execute id) p s honest h
  platform_call-IsAfter out (Call.demo_reconcile id) p s honest h =
      in_broker-IsAfter out (Call.demo_reconcile id) p s honest h
  platform_call-IsAfter out (Call.demo_preview key) p s honest h =
      in_broker-IsAfter out (Call.demo_preview key) p s honest h
  platform_call-IsAfter out (Call.broker_history name) p s honest h =
      in_broker-IsAfter out (Call.broker_history name) p s honest h
  platform_call-IsAfter out (Call.broker_sync name) p s honest h =
      in_broker-IsAfter out (Call.broker_sync name) p s honest h

  serve-IsAfter :
      (out : Outside d.D) (handler : HttpHandler V) (p : Platform d.D C J) (s : State)
      → IsHonest parse out.round.fetch_aggregate
      → IsAfter s p.broker
      → IsAfter s
          (serve
            (platform_store d encrypt decrypt digest parse texts w runs_store out)
            handler
            p).1.broker
  unfolding serve
  serve-IsAfter out (HttpHandler.respond response) p s honest h = h
  serve-IsAfter out (HttpHandler.ask_value call answer) p s honest h =
      platform_call-IsAfter out call p s honest h
  serve-IsAfter out (HttpHandler.ask_enqueue key payload answer) p s honest h = h
  serve-IsAfter out (HttpHandler.ask_ready answer) p s honest h = h
  serve-IsAfter out (HttpHandler.ask_metrics answer) p s honest h = h

  answer_requests-IsAfter :
      (json : Decoder) (qs : List (Outside d.D × (Route × Request))) (p : Platform d.D C J)
      (s : State)
      → All (RequestIsHonest parse) qs
      → IsAfter s p.broker
      → IsAfter s
          (answer_requests d encrypt decrypt digest parse texts w runs_store json qs p).broker
  unfolding answer_requests
  answer_requests-IsAfter json [] p s honest h = h
  answer_requests-IsAfter json ((out, (route, request)) ∷ qs) p s honest h =
      answer_requests-IsAfter json qs _ s honest.1
        (serve-IsAfter out (handle json (platform_authorized p) route request) p s honest.0 h)

  -- Through any requests to the HTTP interface, from an empty table of decisions, consistent
  -- bindings, and rounds of reads that are spaced and noted, whatever the requests hold, the
  -- provider answers (with portfolios that parse so) and the database fails to do: no decision's
  -- order is posted twice, one decision at most is unresolved, and every posted decision is past
  -- `ready`; no client is bound to both environments, a bound client is one of the service's and
  -- not in conflict, and an environment keeps its client; and the rounds of reads that are limited
  -- start at least 30 seconds apart for each client.
  pub answer_requests-IsSafe :
      (json : Decoder) (qs : List (Outside d.D × (Route × Request))) (p : Platform d.D C J)
      (s : State)
      → p.broker ≡ some s
      → All (RequestIsHonest parse) qs
      → All (ReadIsHonest parse) s.broker.reads
      → Consistent s.broker.service
      → IsSpaced s.broker.service
      → s.tables.runs ≡ []
      → s.intents ≡ []
      → s.posts ≡ []
      → (t : State) × ((answer_requests d encrypt decrypt digest parse texts w runs_store json qs
            p).broker
          ≡ some t)
        × IsSafe d encrypt digest parse s t
  answer_requests-IsSafe json qs p s e honest reads v spaced no_runs no_intents no_posts =
      let (t, same, after) =
        answer_requests-IsAfter json qs p s honest
          (s, e, (here, record { honest = reads; consistent = v; turns = no_turn })) in
      (t, same, After-IsSafe d encrypt digest parse s t spaced no_runs no_intents no_posts after)
