-- ===== src/Http/Proper.antt =====
-- That the handlers of internal/httpapi/server.go ask the store for valid things only, and answer its
-- replies with the right kind of status.
use mfd.Lab.Experiment.{ExperimentError, normalize_experiment}
use mfd.Lab.Records.{Experiment}
use text.Mathlib.Text.{◌==◌ as str_eq}
use mfd.Http.Patterns.{id_pattern, key_pattern, match_segments}
use mfd.Http.Handlers.{
  broker_environment, Body, write, with_experiment, write_error, with_key, operator, with_id,
  or_missing, replay_response, HttpHandler, or_blocked, Call, Request, StoreError,
}
use mfd.Prelude.{
  none, all_by, Result, err, arith, some, inr, not, ok, refl, ◌⊎◌, if◌then◌else◌, ltb, ◌&&◌, ◌==◌,
  ◌≡◌, false, Option, ◌||◌, true, leb, List, String, Bool, ℕ,
}

-- The calls that read or change broker data or orders.
abbrev pub is_privileged : Call → Bool
is_privileged Call.demo_runs = true
is_privileged (Call.demo_run id) = true
is_privileged (Call.demo_execute id) = true
is_privileged (Call.demo_reconcile id) = true
is_privileged (Call.demo_preview key) = true
is_privileged (Call.broker_history environment) = true
is_privileged (Call.broker_sync environment) = true
is_privileged _ = false

-- The arguments of a call have been checked.
abbrev pub is_valid : Call → Bool
is_valid (Call.run id) = match_segments id_pattern id
is_valid (Call.demo_run id) = match_segments id_pattern id
is_valid (Call.demo_execute id) = match_segments id_pattern id
is_valid (Call.demo_reconcile id) = match_segments id_pattern id
is_valid (Call.demo_preview key) = match_segments key_pattern key
is_valid (Call.broker_history environment) = str_eq environment "demo" || str_eq environment "real"
is_valid (Call.broker_sync environment) = str_eq environment "demo" || str_eq environment "real"
is_valid _ = true

abbrev pub is_client_error : ℕ → Bool
is_client_error status = leb 400 status && ltb status 500

abbrev pub is_failure : ℕ → Bool
is_failure status = is_client_error status || status == 503

-- `allowed` says whether the request has the operator's token.
abbrev pub IsProper : {V : Type 0} → Bool → HttpHandler V → Type 0
IsProper allowed (HttpHandler.respond response) =
    (response.status ≡ 200) ⊎ (is_client_error response.status ≡ true)
IsProper {V} allowed (HttpHandler.ask_value call answer) =
    (is_valid call ≡ true)
    × ((not (is_privileged call) || allowed) ≡ true)
    × ((v : V) → answer (ok v) ≡ write 200 (Body.contents v))
    × ((e : StoreError) → is_failure (answer (err e)).status ≡ true)
IsProper allowed (HttpHandler.ask_enqueue key payload answer) =
    (match_segments key_pattern key ≡ true)
    × ((normal : Experiment) × (normalize_experiment payload ≡ ok normal))
    × ((id : List ℕ) → answer (ok id) ≡ write 202 (Body.accepted id))
    × ((e : StoreError) → is_failure (answer (err e)).status ≡ true)
IsProper allowed (HttpHandler.ask_ready answer) =
    (deps : List (String × Bool))
    → (answer deps).status ≡ (if all_by (λ d. d.1) deps then 200 else 503)
IsProper allowed (HttpHandler.ask_metrics answer) =
    ((text : String) → answer (ok text) ≡ write 200 (Body.metrics_text text))
    × ((e : StoreError) → (answer (err e)).status ≡ 503)

module _ (V : Type 0) where
  pub or_missing-is_failure :
      (code : String) (e : StoreError) → is_failure (or_missing {V = V} code (err e)).status ≡ true
  or_missing-is_failure code StoreError.no_rows = refl
  or_missing-is_failure code StoreError.intent_not_ready = refl
  or_missing-is_failure code StoreError.active_intent = refl
  or_missing-is_failure code StoreError.idempotency_conflict = refl
  or_missing-is_failure code StoreError.unavailable = refl

  pub or_blocked-is_failure :
      (e : StoreError) → is_failure (or_blocked {V = V} (err e)).status ≡ true
  or_blocked-is_failure StoreError.no_rows = refl
  or_blocked-is_failure StoreError.intent_not_ready = refl
  or_blocked-is_failure StoreError.active_intent = refl
  or_blocked-is_failure StoreError.idempotency_conflict = refl
  or_blocked-is_failure StoreError.unavailable = refl

  pub replay_response-is_failure :
      (e : StoreError) → is_failure (replay_response {V = V} (err e)).status ≡ true
  replay_response-is_failure StoreError.no_rows = refl
  replay_response-is_failure StoreError.intent_not_ready = refl
  replay_response-is_failure StoreError.active_intent = refl
  replay_response-is_failure StoreError.idempotency_conflict = refl
  replay_response-is_failure StoreError.unavailable = refl

module _ {V : Type 0} where
  pub if_IsProper :
      (b allowed : Bool) (h k : HttpHandler V)
      → IsProper allowed h
      → (b ≡ false → IsProper allowed k)
      → IsProper allowed (if b then h else k)
  if_IsProper true allowed h k p q = p
  if_IsProper false allowed h k p q = q refl

  pub with_id-IsProper :
      (code : String) (id : List ℕ) (allowed : Bool) (next : List ℕ → HttpHandler V)
      → (match_segments id_pattern id ≡ true → IsProper allowed (next id))
      → IsProper allowed (with_id code id next)
  with_id-IsProper code id allowed next p =
      if_IsProper _ allowed (HttpHandler.respond (write_error 400 code)) (next id) (inr refl)
        (λ q. p (ground (arith, q)))

  pub with_key-IsProper :
      (request : Request) (allowed : Bool) (next : List ℕ → HttpHandler V)
      → (match_segments key_pattern request.idempotency_key ≡ true
          → IsProper allowed (next request.idempotency_key))
      → IsProper allowed (with_key request next)
  with_key-IsProper request allowed next p =
      if_IsProper _ allowed (HttpHandler.respond (write_error 400 "idempotency_key_required"))
        (next request.idempotency_key) (inr refl) (λ q. p (ground (arith, q)))

  pub broker_environment-IsProper :
      (request : Request) (allowed : Bool) (next : String → HttpHandler V)
      → ((name : String)
          → (str_eq name "demo" || str_eq name "real") ≡ true
          → IsProper allowed (next name))
      → IsProper allowed (broker_environment request next)
  broker_environment-IsProper request allowed next p =
      if_IsProper (str_eq request.environment "") allowed (next "demo") _ (p "demo" refl) (λ _.
        by_name (str_eq request.environment "demo" || str_eq request.environment "real")
          (p request.environment))
    where
      by_name :
          (b : Bool)
          → (b ≡ true → IsProper allowed (next request.environment))
          → IsProper allowed (
              if b
              then next request.environment
              else HttpHandler.respond (write_error 400 "invalid_environment"))
      by_name true q = q refl
      by_name false q = inr refl

  pub operator-IsProper :
      (authorized : String → Bool) (request : Request) (next : HttpHandler V)
      → (authorized request.operator_token ≡ true
          → IsProper (authorized request.operator_token) next)
      → IsProper (authorized request.operator_token) (operator authorized request next)
  operator-IsProper authorized request next p =
      if_IsProper _ _ (HttpHandler.respond (write_error 401 "operator_token_required")) next
        (inr refl) (λ q. p (ground (arith, q)))

  pub with_experiment-IsProper :
      (allowed : Bool) (payload : Option Experiment) (next : Experiment → HttpHandler V)
      → ((e normal : Experiment) → normalize_experiment e ≡ ok normal → IsProper allowed (next e))
      → IsProper allowed (with_experiment payload next)
  with_experiment-IsProper allowed none next p = inr refl
  with_experiment-IsProper allowed (some payload) next p =
      by_result (normalize_experiment payload) (p payload)
    where
      by_result :
          (r : Result ExperimentError Experiment)
          → ((normal : Experiment) → r ≡ ok normal → IsProper allowed (next payload))
          → IsProper allowed (elim r as (λ _. HttpHandler V) [
            | err e ↦ HttpHandler.respond (write_error 400 "invalid_experiment")
            | ok normal ↦ next payload
          ])
      by_result (err e) q = inr refl
      by_result (ok normal) q = q normal refl
