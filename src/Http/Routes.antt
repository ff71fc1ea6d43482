-- ===== src/Http/Routes.antt =====
-- What each route of internal/httpapi/server.go lets through to the store, and what it answers.
use mfd.Http.Patterns.{key_pattern, match_segments}
use mfd.Http.Proper.{
  replay_response-is_failure, with_experiment-IsProper, or_blocked-is_failure,
  or_missing-is_failure, if_IsProper, with_id-IsProper, broker_environment-IsProper,
  operator-IsProper, with_key-IsProper, IsProper,
}
use mfd.Lab.Records.{Experiment}
use mfd.Http.Handlers.{
  starts_object, or_blocked, with_experiment, or_missing, is_cut, max_bytes, or_failure,
  with_object, Call, write_error, replay_response, HttpHandler, Route, Request, post_replay, handle,
  Decoder,
}
use text.Mathlib.Text.{◌==◌ as str_eq}
use mfd.Prelude.{
  none, refl, some, inr, take, arith, true, ◌≡◌, not, if◌then◌else◌, inl, Option, ℕ, List, String,
  Bool, ◌||◌,
}

module _ (V : Type 0) (json : Decoder) where
  abbrev enqueuing : List ℕ → Experiment → HttpHandler V
  enqueuing key payload = HttpHandler.ask_enqueue key payload replay_response

  with_object-IsProper :
      (allowed : Bool) (key content : List ℕ) (raw : Option (List ℕ))
      → match_segments key_pattern key ≡ true
      → IsProper allowed (with_object json content raw (enqueuing key))
  with_object-IsProper allowed key content none valid = inr refl
  with_object-IsProper allowed key content (some raw) valid =
      if_IsProper (not (starts_object raw)) allowed
        (HttpHandler.respond (write_error 400 "invalid_experiment")) only_object (inr refl)
        (λ _.
          if_IsProper is_more allowed (HttpHandler.respond (write_error 400 "expected_one_object"))
            decoded_object (inr refl)
            (λ _.
              with_experiment-IsProper allowed (json.strict raw) (enqueuing key)
                (λ e normal n. (valid, (normal, n), (λ id. refl), replay_response-is_failure V))))
    where
      is_more : Bool
      is_more = is_cut content || not (json.at_end (take max_bytes content))

      decoded_object : HttpHandler V
      decoded_object = with_experiment (json.strict raw) (enqueuing key)

      only_object : HttpHandler V
      only_object =
          if is_more
          then HttpHandler.respond (write_error 400 "expected_one_object")
          else decoded_object

  post_replay-IsProper :
      (allowed : Bool) (request : Request) → IsProper {V = V} allowed (post_replay json request)
  unfolding post_replay
  post_replay-IsProper allowed request =
      with_key-IsProper request allowed
        (λ key.
          if not (str_eq request.content_type "application/json")
          then HttpHandler.respond (write_error 415 "application_json_required")
          else with_object json request.content (json.first_value (take max_bytes request.content))
              (enqueuing key))
        (λ key.
          if_IsProper _ allowed (HttpHandler.respond (write_error 415 "application_json_required"))
            _ (inr refl)
            (λ _.
              with_object-IsProper allowed request.idempotency_key request.content
                (json.first_value (take max_bytes request.content)) key))

-- A request asks the store for one thing at most, and for nothing that was not checked: an identifier
-- passes idPattern, a key keyPattern, an environment is demo or real, an experiment is one that
-- NormalizeExperiment accepts, and broker data and orders are read or changed only with the operator's
-- token. What the store returns is written with 200 (202 for a replay); its errors become 4xx or 503;
-- and without the store the answer is 200 or 4xx.
pub handle-IsProper :
    (V : Type 0) (json : Decoder) (authorized : String → Bool) (route : Route) (request : Request)
    → IsProper {V = V} (authorized request.operator_token) (handle json authorized route request)
unfolding handle
handle-IsProper V json authorized Route.get_healthz request = inl refl
handle-IsProper V json authorized Route.get_readyz request = λ deps. refl
handle-IsProper V json authorized Route.get_metrics request = (λ text. refl, λ e. refl)
handle-IsProper V json authorized Route.get_runs request = (refl, refl, λ v. refl, λ e. refl)
handle-IsProper V json authorized Route.get_operations request = (refl, refl, λ v. refl, λ e. refl)
handle-IsProper V json authorized Route.get_etoro_status request =
    (refl, refl, λ v. refl, λ e. refl)
handle-IsProper V json authorized Route.get_snapshots request =
    operator-IsProper authorized request _ λ allowed.
      broker_environment-IsProper request _
        (λ name. HttpHandler.ask_value (Call.broker_history name) or_failure)
        λ name valid. (valid, ground (arith, allowed), λ v. refl, λ e. refl)
handle-IsProper V json authorized Route.post_sync request =
    operator-IsProper authorized request _ λ allowed.
      broker_environment-IsProper request _
        (λ name. HttpHandler.ask_value (Call.broker_sync name) or_failure)
        λ name valid. (valid, ground (arith, allowed), λ v. refl, λ e. refl)
handle-IsProper V json authorized Route.get_strategies request =
    operator-IsProper authorized request (HttpHandler.ask_value Call.demo_runs or_failure)
      λ allowed. (refl, allowed, λ v. refl, λ e. refl)
handle-IsProper V json authorized Route.post_preview request =
    operator-IsProper authorized request _ λ allowed.
      with_key-IsProper request _ (λ key. HttpHandler.ask_value (Call.demo_preview key) or_failure)
        λ valid. (valid, allowed, λ v. refl, λ e. refl)
handle-IsProper V json authorized (Route.get_strategy id) request =
    operator-IsProper authorized request _ λ allowed.
      with_id-IsProper "invalid_decision_id" id _
        (λ id. HttpHandler.ask_value (Call.demo_run id) (or_missing "decision_not_found"))
        λ valid. (valid, allowed, λ v. refl, or_missing-is_failure V "decision_not_found")
handle-IsProper V json authorized (Route.post_execute id) request =
    operator-IsProper authorized request _ λ allowed.
      with_id-IsProper "invalid_decision_id" id _
        (λ id. HttpHandler.ask_value (Call.demo_execute id) or_blocked)
        λ valid. (valid, allowed, λ v. refl, or_blocked-is_failure V)
handle-IsProper V json authorized (Route.post_reconcile id) request =
    operator-IsProper authorized request _ λ allowed.
      with_id-IsProper "invalid_decision_id" id _
        (λ id. HttpHandler.ask_value (Call.demo_reconcile id) (or_missing "decision_not_found"))
        λ valid. (valid, allowed, λ v. refl, or_missing-is_failure V "decision_not_found")
handle-IsProper V json authorized (Route.get_run id) request =
    with_id-IsProper "invalid_run_id" id _
      (λ id. HttpHandler.ask_value (Call.run id) (or_missing "run_not_found"))
      λ valid. (valid, refl, λ v. refl, or_missing-is_failure V "run_not_found")
handle-IsProper V json authorized Route.post_replays request =
    post_replay-IsProper V json (authorized request.operator_token) request
