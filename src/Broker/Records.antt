-- ===== src/Broker/Records.antt =====
-- The types of internal/platform/broker.go, and the rows of the tables etoro_snapshots and
-- etoro_sync_events that migrate creates in internal/platform/platform.go. A client (a pointer) is a
-- number, an identifier too; times are nanoseconds.
use mfd.Prelude.{
  refl, ◌≡◌, ℕ, String, Bool, true, false, Option, none, some, List, ◌==◌, if◌then◌else◌,
}
use mfd.Demo.Records.{Time}
use mfd.Demo.Session.{Storage}
use text.Mathlib.Text.{◌==◌ as str_eq}

pub data Environment : Type 0 where
  demo real : Environment

-- validBrokerEnvironment, and the environment that a valid name stands for.
unfoldable pub valid_broker_environment : String → Option Environment
valid_broker_environment name =
    if str_eq name "demo" then some demo else if str_eq name "real" then some real else none

abbrev pub environment_name : Environment → String
environment_name Environment.demo = "demo"
environment_name Environment.real = "real"

abbrev pub other_broker_environment : Environment → Environment
other_broker_environment Environment.real = demo
other_broker_environment Environment.demo = real

abbrev pub same_environment : Environment → Environment → Bool
same_environment Environment.demo Environment.demo = true
same_environment Environment.real Environment.real = true
same_environment _ _ = false

pub same_environment_refl : (e : Environment) → same_environment e e ≡ true
same_environment_refl Environment.demo = refl
same_environment_refl Environment.real = refl

-- A map from the environments to clients; a key may be missing.
pub record Slots : Type 0 where
  pub in_demo : Option ℕ
  pub in_real : Option ℕ

abbrev pub slot : Environment → Slots → Option ℕ
slot Environment.demo m = m.in_demo
slot Environment.real m = m.in_real

abbrev pub put : Environment → ℕ → Slots → Slots
put Environment.demo client m = record m { in_demo = some client }
put Environment.real client m = record m { in_real = some client }

-- `m[environment] == client`.
abbrev pub has_client : ℕ → Option ℕ → Bool
has_client client none = false
has_client client (some c) = c == client

-- A row of etoro_snapshots; `sealed` is its nonce and ciphertext.
pub record SnapshotRow (C : Type 0) : Type 0 where
  pub id : ℕ
  pub environment : Environment
  pub fetched_at : Time
  pub provider_at : Time
  pub response_sha256 : String
  pub sealed : C

-- A row of etoro_sync_events.
pub record SyncEvent : Type 0 where
  pub id : ℕ
  pub environment : Environment
  pub attempted_at : Time
  pub result : String
  pub http_status : ℕ
  pub snapshot_id : Option ℕ

pub record BrokerTables (C : Type 0) : Type 0 where
  pub snapshots : List (SnapshotRow C)
  pub events : List SyncEvent

-- BrokerService. `attempts` is lastAttempt with the values it replaced, the latest first. `rounds` is no
-- field of the source: it lists the rounds of reads that syncClient has started, the latest first.
-- `faults` says how the coming database calls end (well, if none is left).
pub record BrokerService (C : Type 0) : Type 0 where
  pub tables : BrokerTables C
  pub clients : Slots
  pub bound : Slots
  pub conflicted : List ℕ
  pub attempts : List (ℕ × Time)
  pub rounds : List (ℕ × Time)
  pub token : String
  pub demo_execution_enabled : Bool
  pub faults : List Storage

-- What a read of a portfolio fails with: *etoro.APIError, *etoro.SchemaError,
-- errBrokerCredentialConflict, or another error.
pub data ReadError : Type 0 where
  api_error : String → ℕ → ReadError
  schema_error credential_conflict request_failed : ReadError

pub data BrokerError : Type 0 where
  storage encryption duplicate_id invalid_environment : BrokerError
  snapshot_invalid digest_mismatch schema_invalid unconfigured : BrokerError
  bad_encryption_key short_token invalid_slot equal_user_keys : BrokerError
