-- ===== src/Etoro/Wire.antt =====
-- Client, APIError, SchemaError and request (internal/etoro/client.go and trading.go). The HTTP
-- transport is an argument.
use mfd.Prelude.{
  [], ℕ, String, Bool, ◌&&◌, ◌||◌, Option, none, some, length, ltb, leb, ◌==◌, Result, ok, err,
  if◌then◌else◌, take, ◌+◌,
}
use mfd.Demo.Records.{Bytes}
use mfd.Broker.Records.{Environment}
use text.Mathlib.Text.{◌==◌ as str_eq}

pub record Client : Type 0 where
  pub api_key : String
  pub user_key : String

-- The requests that the package makes: method, path, query and body of each follow from these. The
-- only one that places an order is `demo_order`, for which there is no Real counterpart.
pub data Endpoint (D : Type 0) : Type 0 where
  aggregate_portfolio : Environment → Endpoint D
  search : String → Endpoint D
  rates : ℕ → Endpoint D
  demo_pnl : Endpoint D
  demo_eligibility : ℕ → Endpoint D
  demo_costs : ℕ → D → Endpoint D
  demo_order : ℕ → D → Endpoint D
  lookup_by_reference : ℕ → Endpoint D
  lookup_by_order : ℕ → Endpoint D

-- A request carries a fresh identifier unless the caller gives one.
pub record HttpRequest (D : Type 0) : Type 0 where
  pub endpoint : Endpoint D
  pub request_id : Option ℕ

pub record HttpResponse : Type 0 where
  pub status : ℕ
  pub content : Bytes
  pub is_broken : Bool

-- What errors of the package the program tells apart: APIError, SchemaError, and the others.
pub data ClientError : Type 0 where
  api_failure : ℕ → String → ClientError
  schema_failure : ClientError
  credentials_missing transport_failed read_failed response_too_long : ClientError
  no_exact_match order_id_required : ClientError

pub record Answer (A : Type 0) : Type 0 where
  pub raw : Bytes
  pub http_status : ℕ
  pub result : Result ClientError A

abbrev pub max_body : ℕ
max_body = 2_097_152

-- `strings.Contains(strings.ToLower(string(raw)), word)` and `strings.EqualFold`.
pub record GoText : Type 0 where
  pub mentions : Bytes → String → Bool
  pub equal_fold : String → String → Bool

module _ (text : GoText) where
  -- The categories of request.
  unfoldable pub request_category : ℕ → Bytes → String
  request_category status raw =
      if status == 401
      then "unauthorized"
      else if status == 403 && text.mentions raw "permission"
      then "permission_denied"
      else if status == 429
      then "rate_limited"
      else if leb 500 status
      then "provider_unavailable"
      else "request_rejected"

  -- The categories of FetchAggregate.
  unfoldable pub aggregate_category : ℕ → Bytes → String
  aggregate_category status raw =
      if status == 403 && text.mentions raw "permission" && text.mentions raw "access"
      then "permission_denied"
      else if status == 401
      then "unauthorized"
      else if status == 429
      then "rate_limited"
      else if leb 500 status
      then "provider_unavailable"
      else if leb 300 status && ltb status 400
      then "redirect_rejected"
      else "request_rejected"

abbrev pub lacks_credentials : Client → Bool
lacks_credentials client = str_eq client.api_key "" || str_eq client.user_key ""

abbrev pub failed_with : {A : Type 0} → Bytes → ℕ → ClientError → Answer A
failed_with raw status e = record { raw = raw; http_status = status; result = err e }

module _ (text : GoText) where
  -- After `httpClient.Do`.
  unfoldable pub received : Option HttpResponse → Answer (Unit {0})
  received none = failed_with [] 0 ClientError.transport_failed
  received (some response) =
      if response.is_broken
      then failed_with [] response.status ClientError.read_failed
      else if ltb max_body (length (take (max_body + 1) response.content))
      then failed_with [] response.status ClientError.response_too_long
      else if ltb response.status 200 || leb 300 response.status
      then failed_with response.content response.status (
          ClientError.api_failure response.status
            (request_category text response.status response.content))
      else record { raw = response.content; http_status = response.status; result = ok tt }

  unfoldable pub request :
      {D : Type 0}
      → (HttpRequest D → Option HttpResponse)
      → Client
      → Endpoint D
      → Option ℕ
      → Answer (Unit {0})
  request send client endpoint request_id =
      if lacks_credentials client
      then failed_with [] 0 ClientError.credentials_missing
      else received (send (record { endpoint = endpoint; request_id = request_id }))

-- `if err != nil { return raw, T{}, err }`, and what follows.
abbrev pub after_request :
    {A : Type 0} → Answer (Unit {0}) → (Bytes → Result ClientError A) → Answer A
after_request answer next = record {
  raw = answer.raw;
  http_status = answer.http_status;
  result = elim answer.result [ err e ↦ err e | ok u ↦ next answer.raw ];
}
