-- ===== src/Demo/Records.antt =====
-- The records of internal/platform/demo_strategy.go and of the demo tables that migrate creates in
-- internal/platform/platform.go. Identifiers (uuids, and the broker's int64 ids, which its adapter
-- lets through only if they are positive) are numbers; times are nanoseconds.
use mfd.Prelude.{◌==◌, ℕ, String, Bool, true, false, Option, List}
use mfd.Prelude.Int.{ℤ}

abbrev pub Time : Type 0
Time = ℤ

abbrev pub Bytes : Type 0
Bytes = List ℕ

-- The CHECK of `demo_strategy_runs.status`.
pub data RunStatus : Type 0 where
  hold ready submitting accepted filled partially_filled rejected unknown : RunStatus

-- The `WHERE` of the index `demo_strategy_one_active`.
abbrev pub is_active : RunStatus → Bool
is_active RunStatus.submitting = true
is_active RunStatus.accepted = true
is_active RunStatus.unknown = true
is_active RunStatus.partially_filled = true
is_active _ = false

abbrev pub is_ready : RunStatus → Bool
is_ready RunStatus.ready = true
is_ready _ = false

abbrev pub is_submitting : RunStatus → Bool
is_submitting RunStatus.submitting = true
is_submitting _ = false

abbrev pub status_number : RunStatus → ℕ
status_number RunStatus.hold = 0
status_number RunStatus.ready = 1
status_number RunStatus.submitting = 2
status_number RunStatus.accepted = 3
status_number RunStatus.filled = 4
status_number RunStatus.partially_filled = 5
status_number RunStatus.rejected = 6
status_number RunStatus.unknown = 7

-- `run.Status == state`.
abbrev pub same_status : RunStatus → RunStatus → Bool
same_status a b = status_number a == status_number b

pub record DemoCheck : Type 0 where
  pub name : String
  pub passed : Bool
  pub detail : String

pub record DemoPlan (D : Type 0) : Type 0 where
  pub symbol : String
  pub account_fingerprint : String
  pub instrument_id : ℕ
  pub amount_usd : D
  pub order_type : String
  pub settlement_type : String
  pub leverage : ℕ
  pub bid : D
  pub ask : D
  pub limit_rate : Option D
  pub max_recheck_ask : Option D
  pub spread_bps : D
  pub quote_at : Time
  pub quote_time_assumed_utc : Bool
  pub estimated_upfront_cost_usd : D
  pub source_sha256 : List (String × String)

-- A row of `demo_strategy_runs`.
pub record DemoStrategyRun (D : Type 0) : Type 0 where
  pub id : ℕ
  pub idempotency_key : String
  pub strategy_version : String
  pub actor : String
  pub status : RunStatus
  pub reason : String
  pub created_at : Time
  pub updated_at : Time
  pub expires_at : Option Time
  pub plan : Option (DemoPlan D)
  pub checks : List DemoCheck
  pub request_id : Option ℕ
  pub broker_order_id : Option ℕ
  pub broker_status_id : Option ℕ
  pub broker_position_ids : List ℕ

-- A row of `demo_strategy_events`.
pub record DemoEvent : Type 0 where
  pub run_id : ℕ
  pub at : Time
  pub kind : String
  pub summary : String
  pub http_status : ℕ

pub record DemoArtifact : Type 0 where
  pub source : String
  pub raw : Bytes

-- A row of `demo_strategy_artifacts`; `sealed` is its nonce and ciphertext.
pub record StoredArtifact (C : Type 0) : Type 0 where
  pub run_id : ℕ
  pub phase : String
  pub source : String
  pub response_sha256 : String
  pub sealed : C

pub record Tables (D C : Type 0) : Type 0 where
  pub runs : List (DemoStrategyRun D)
  pub events : List DemoEvent
  pub artifacts : List (StoredArtifact C)

-- `plan` is nil unless every check passed.
pub record DemoEvaluation (D : Type 0) : Type 0 where
  pub plan : Option (DemoPlan D)
  pub checks : List DemoCheck
  pub artifacts : List DemoArtifact
  pub reason : String

-- What the handlers of this file return as an error.
pub data DemoError : Type 0 where
  storage no_rows unique_violation intent_not_ready active_intent : DemoError
