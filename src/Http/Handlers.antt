-- ===== src/Http/Handlers.antt =====
-- New's handlers (internal/httpapi/server.go): what each answers without asking the store, what it
-- asks the store, and how it answers with the reply. `V` is what the store's readers return, whose
-- JSON the handlers write; JSON decoding is an argument. A path's identifier, a key and a body are
-- their bytes.
use mfd.Prelude.{
  length, take, ltb, ℕ, String, Bool, false, not, ◌||◌, Option, none, some, List, [], ◌∷◌, Result,
  ok, err, if◌then◌else◌, ◌==◌, all_by,
}
use mfd.Lab.Records.{Experiment}
use mfd.Lab.Experiment.{normalize_experiment}
use mfd.Http.Patterns.{match_segments, key_pattern, id_pattern}
use text.Mathlib.Text.{◌==◌ as str_eq}

-- The errors of the store that handlers tell apart: pgx.ErrNoRows, ErrDemoIntentNotReady,
-- ErrDemoActiveIntent, ErrIdempotencyConflict, and any other.
pub data StoreError : Type 0 where
  no_rows intent_not_ready active_intent idempotency_conflict unavailable : StoreError

pub data Body (V : Type 0) : Type 0 where
  -- `{"error": code}`.
  failed : String → Body V
  contents : V → Body V
  accepted : List ℕ → Body V
  dependencies : List (String × Bool) → Body V
  metrics_text : String → Body V
  health : Body V

pub record Response (V : Type 0) : Type 0 where
  pub status : ℕ
  pub body : Body V

-- The calls of Store whose result is written out.
pub data Call : Type 0 where
  runs operations broker_status demo_runs : Call
  run demo_run demo_execute demo_reconcile demo_preview : List ℕ → Call
  broker_history broker_sync : String → Call

pub data HttpHandler (V : Type 0) : Type 0 where
  respond : Response V → HttpHandler V
  ask_value : Call → (Result StoreError V → Response V) → HttpHandler V
  ask_enqueue : List ℕ → Experiment → (Result StoreError (List ℕ) → Response V) → HttpHandler V
  ask_ready : (List (String × Bool) → Response V) → HttpHandler V
  ask_metrics : (Result StoreError String → Response V) → HttpHandler V

-- What the handlers read of a request: the operator's token; the query's environment; the
-- idempotency key; the content type; and the body.
pub record Request : Type 0 where
  pub operator_token : String
  pub environment : String
  pub idempotency_key : List ℕ
  pub content_type : String
  pub content : List ℕ

pub data Route : Type 0 where
  get_healthz get_readyz get_metrics get_runs get_operations get_etoro_status : Route
  get_snapshots post_sync get_strategies post_preview post_replays : Route
  get_strategy post_execute post_reconcile get_run : List ℕ → Route

module _ {V : Type 0} where
  abbrev pub write : ℕ → Body V → Response V
  write status body = record { status = status; body = body }

  abbrev pub write_error : ℕ → String → Response V
  write_error status code = write status (Body.failed code)

  -- failure.
  abbrev pub failure : Response V
  failure = write_error 503 "storage_unavailable"

  abbrev pub or_failure : Result StoreError V → Response V
  or_failure (ok v) = write 200 (Body.contents v)
  or_failure (err e) = failure

  abbrev pub or_missing : String → Result StoreError V → Response V
  or_missing code (err StoreError.no_rows) = write_error 404 code
  or_missing code r = or_failure r

  abbrev pub or_blocked : Result StoreError V → Response V
  or_blocked (err StoreError.no_rows) = write_error 404 "decision_not_found"
  or_blocked (err StoreError.intent_not_ready) = write_error 409 "demo_order_blocked"
  or_blocked (err StoreError.active_intent) = write_error 409 "demo_order_blocked"
  or_blocked r = or_failure r

  -- The guard of the operator's routes; `authorized` is the store's BrokerAuthorized.
  abbrev pub operator : (String → Bool) → Request → HttpHandler V → HttpHandler V
  operator authorized request next =
      if not (authorized request.operator_token)
      then HttpHandler.respond (write_error 401 "operator_token_required")
      else next

  -- brokerEnvironment, and what follows.
  abbrev pub broker_environment : Request → (String → HttpHandler V) → HttpHandler V
  broker_environment request next =
      if str_eq request.environment ""
      then next "demo"
      else if str_eq request.environment "demo" || str_eq request.environment "real"
      then next request.environment
      else HttpHandler.respond (write_error 400 "invalid_environment")

  abbrev pub with_key : Request → (List ℕ → HttpHandler V) → HttpHandler V
  with_key request next =
      if not (match_segments key_pattern request.idempotency_key)
      then HttpHandler.respond (write_error 400 "idempotency_key_required")
      else next request.idempotency_key

  abbrev pub with_id : String → List ℕ → (List ℕ → HttpHandler V) → HttpHandler V
  with_id code id next =
      if not (match_segments id_pattern id)
      then HttpHandler.respond (write_error 400 code)
      else next id

  -- GET /readyz.
  abbrev pub ready_response : List (String × Bool) → Response V
  ready_response deps = write (if all_by (λ d. d.1) deps then 200 else 503) (Body.dependencies deps)

  abbrev pub metrics_response : Result StoreError String → Response V
  metrics_response (ok text) = write 200 (Body.metrics_text text)
  metrics_response (err e) = failure

  abbrev pub replay_response : Result StoreError (List ℕ) → Response V
  replay_response (ok id) = write 202 (Body.accepted id)
  replay_response (err StoreError.idempotency_conflict) = write_error 409 "idempotency_key_reused"
  replay_response (err e) = failure

-- What encoding/json makes of the body of a replay: the first value, if the bytes that MaxBytesReader
-- lets through begin with one; whether that is all; and the experiment in it, if the value has the
-- known fields only.
pub record Decoder : Type 0 where
  pub first_value : List ℕ → Option (List ℕ)
  pub at_end : List ℕ → Bool
  pub strict : List ℕ → Option Experiment

abbrev pub starts_object : List ℕ → Bool
starts_object [] = false
starts_object (c ∷ cs) = c == b'{'

-- http.MaxBytesReader: the bytes it lets through, and whether there are more, which it refuses.
abbrev pub max_bytes : ℕ
max_bytes = 1024

abbrev pub is_cut : List ℕ → Bool
is_cut body = ltb max_bytes (length body)

module _ {V : Type 0} where
  abbrev pub with_experiment : Option Experiment → (Experiment → HttpHandler V) → HttpHandler V
  with_experiment none next = HttpHandler.respond (write_error 400 "invalid_experiment")
  with_experiment (some payload) next = elim (normalize_experiment payload) [
    | err e ↦ HttpHandler.respond (write_error 400 "invalid_experiment")
    | ok normal ↦ next payload
  ]

module _ {V : Type 0} (json : Decoder) where
  abbrev pub with_object : List ℕ → Option (List ℕ) → (Experiment → HttpHandler V) → HttpHandler V
  with_object body none next = HttpHandler.respond (write_error 400 "invalid_experiment")
  with_object body (some raw) next =
      if not (starts_object raw)
      then HttpHandler.respond (write_error 400 "invalid_experiment")
      else if is_cut body || not (json.at_end (take max_bytes body))
      then HttpHandler.respond (write_error 400 "expected_one_object")
      else with_experiment (json.strict raw) next

  -- POST /api/v1/replays.
  unfoldable pub post_replay : Request → HttpHandler V
  post_replay request = with_key request λ key.
      if not (str_eq request.content_type "application/json")
      then HttpHandler.respond (write_error 415 "application_json_required")
      else with_object request.content (json.first_value (take max_bytes request.content))
          λ payload. HttpHandler.ask_enqueue key payload replay_response

module _ {V : Type 0} (json : Decoder) (authorized : String → Bool) where
  unfoldable pub handle : Route → Request → HttpHandler V
  handle Route.get_healthz request = HttpHandler.respond (write 200 Body.health)
  handle Route.get_readyz request = HttpHandler.ask_ready ready_response
  handle Route.get_metrics request = HttpHandler.ask_metrics metrics_response
  handle Route.get_runs request = HttpHandler.ask_value Call.runs or_failure
  handle Route.get_operations request = HttpHandler.ask_value Call.operations or_failure
  handle Route.get_etoro_status request = HttpHandler.ask_value Call.broker_status or_failure
  handle Route.get_snapshots request = operator authorized request (
      broker_environment request
        λ environment. HttpHandler.ask_value (Call.broker_history environment) or_failure)
  handle Route.post_sync request = operator authorized request (
      broker_environment request
        λ environment. HttpHandler.ask_value (Call.broker_sync environment) or_failure)
  handle Route.get_strategies request =
      operator authorized request (HttpHandler.ask_value Call.demo_runs or_failure)
  handle Route.post_preview request =
      operator authorized request
        (with_key request λ key. HttpHandler.ask_value (Call.demo_preview key) or_failure)
  handle (Route.get_strategy id) request = operator authorized request (
      with_id "invalid_decision_id" id
        λ id. HttpHandler.ask_value (Call.demo_run id) (or_missing "decision_not_found"))
  handle (Route.post_execute id) request = operator authorized request (
      with_id "invalid_decision_id" id
        λ id. HttpHandler.ask_value (Call.demo_execute id) or_blocked)
  handle (Route.post_reconcile id) request = operator authorized request (
      with_id "invalid_decision_id" id
        λ id. HttpHandler.ask_value (Call.demo_reconcile id) (or_missing "decision_not_found"))
  handle (Route.get_run id) request =
      with_id "invalid_run_id" id
        λ id. HttpHandler.ask_value (Call.run id) (or_missing "run_not_found")
  handle Route.post_replays request = post_replay json request
