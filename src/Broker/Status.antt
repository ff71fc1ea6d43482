-- ===== src/Broker/Status.antt =====
-- NewBrokerService, Authorized, configured, status, Status, Sync and EnableDemoExecution
-- (internal/platform/broker.go). Base64, and what a client's keys are, are arguments.
use mfd.Prelude.{
  any_by, ℕ, String, Bool, true, false, not, ◌&&◌, ◌||◌, Option, none, some, List, [], ◌∷◌, ◌==◌,
  Result, ok, err, if◌then◌else◌, length, keep, ltb, fail_if, ◌>>◌,
}
use mfd.Prelude.Int.{leb_ℤ}
use mfd.Demo.Records.{Time, Bytes}
use mfd.Demo.Session.{Storage, stored, next_fault, later_faults}
use mfd.Broker.Store.{SyncOutcome}
use mfd.Broker.Sync.{Round, sync_environment, candidate}
use mfd.Broker.Records.{
  BrokerTables, Environment, demo, real, other_broker_environment, same_environment, slot,
  BrokerService, BrokerError, SnapshotRow, SyncEvent, valid_broker_environment,
}
use text.Mathlib.Text.{◌==◌ as str_eq}

-- `ORDER BY at DESC`, of rows that are listed latest first. Rows with equal times keep that order,
-- which the query leaves open.
unfoldable pub insert_latest : {A : Type 0} → (A → Time) → A → List A → List A
insert_latest at a [] = a ∷ []
insert_latest at a (b ∷ bs) =
    let later = b ∷ insert_latest at a bs in if leb_ℤ (at b) (at a) then a ∷ b ∷ bs else later

unfoldable pub latest_first : {A : Type 0} → (A → Time) → List A → List A
latest_first at [] = []
latest_first at (a ∷ as') = insert_latest at a (latest_first at as')

abbrev pub head : {A : Type 0} → List A → Option A
head [] = none
head (a ∷ as') = some a

-- BrokerStatus, without the constant Provider.
pub record BrokerStatus : Type 0 where
  pub configured : Bool
  pub environment : Environment
  pub last_attempt : Option Time
  pub last_result : String
  pub http_status : ℕ
  pub last_success : Option Time
  pub snapshot_count : ℕ
  pub execution_enabled : Bool

pub record BrokerOverview : Type 0 where
  pub execution_enabled : Bool
  pub demo_status : BrokerStatus
  pub real_status : BrokerStatus

abbrev pub is_some : {A : Type 0} → Option A → Bool
is_some none = false
is_some (some a) = true

abbrev pub not_checked : Bool → String
not_checked true = "not_checked"
not_checked false = "not_configured"

-- LastResult and HTTPStatus of a configured environment.
abbrev pub last_result_of : Bool → Option SyncEvent → String × ℕ
last_result_of false e = ("not_configured", 0)
last_result_of true none = (not_checked true, 0)
last_result_of true (some e) = (e.result, e.http_status)

abbrev pub attempted_at_of : Option SyncEvent → Option Time
attempted_at_of none = none
attempted_at_of (some e) = some e.attempted_at

-- A query that the database answers, or not.
abbrev pub answer_query : {A : Type 0} → Storage → A → Result BrokerError A
answer_query stored a = ok a
answer_query _ a = err BrokerError.storage

module _ {C : Type 0} where
  unfoldable pub is_configured : Environment → BrokerService C → Bool
  is_configured environment s =
      is_some (slot environment s.bound)
      || is_some (
          candidate (slot environment s.clients)
            (slot (other_broker_environment environment) s.bound) s)

  abbrev pub events_of : Environment → BrokerService C → List SyncEvent
  events_of environment s =
      latest_first (λ e. e.attempted_at)
        (keep (λ e. same_environment e.environment environment) s.tables.events)

  abbrev pub snapshots_of : Environment → BrokerService C → List (SnapshotRow C)
  snapshots_of environment s =
      latest_first (λ r. r.fetched_at)
        (keep (λ r. same_environment r.environment environment) s.tables.snapshots)

  abbrev pub fetched_at_of : Option (SnapshotRow C) → Option Time
  fetched_at_of none = none
  fetched_at_of (some r) = some r.fetched_at

  -- What status reports when its queries succeed.
  unfoldable pub status_row : Environment → BrokerService C → BrokerStatus
  status_row environment s =
      let event = head (events_of environment s) in
      let known = is_configured environment s in
      let last = last_result_of known event in
      record {
        configured = known;
        environment = environment;
        last_attempt = attempted_at_of event;
        last_result = last.0;
        http_status = last.1;
        last_success = fetched_at_of (head (snapshots_of environment s));
        snapshot_count = length (snapshots_of environment s);
        execution_enabled =
            same_environment environment demo
            && s.demo_execution_enabled
            && is_some s.bound.in_demo
            && str_eq last.0 "ok";
      }

  abbrev pub next_query : BrokerService C → BrokerService C
  next_query s = record s { faults = later_faults s.faults }

  -- status: its two queries, each of which may fail.
  unfoldable pub status :
      Environment → BrokerService C → Result BrokerError BrokerStatus × BrokerService C
  status environment s = elim (next_fault s.faults) [
    | stored ↦ (
      answer_query (next_fault (later_faults s.faults)) (status_row environment s),
      next_query (next_query s),
    )
    | _ ↦ (err BrokerError.storage, next_query s)
  ]

  abbrev pub overview_with :
      BrokerStatus
      → Result BrokerError BrokerStatus × BrokerService C
      → Result BrokerError BrokerOverview × BrokerService C
  overview_with in_demo (ok in_real, s) = (
    ok (record {
      execution_enabled = in_demo.execution_enabled;
      demo_status = in_demo;
      real_status = in_real;
    }),
    s,
  )
  overview_with in_demo (err e, s) = (err e, s)

  abbrev pub overview_after :
      Result BrokerError BrokerStatus × BrokerService C
      → Result BrokerError BrokerOverview × BrokerService C
  overview_after (ok in_demo, s) = overview_with in_demo (status real s)
  overview_after (err e, s) = (err e, s)

  -- Status.
  unfoldable pub broker_status :
      BrokerService C → Result BrokerError BrokerOverview × BrokerService C
  broker_status s = overview_after (status demo s)

  abbrev pub status_after :
      Environment → SyncOutcome C → Result BrokerError BrokerStatus × BrokerService C
  status_after environment (ok u, s) = status environment s
  status_after environment (err e, s) = (err e, s)

  abbrev pub enable_demo_execution : Bool → BrokerService C → BrokerService C
  enable_demo_execution enabled s = record s { demo_execution_enabled = enabled }

  -- Authorized; the comparison in constant time is an equality.
  unfoldable pub authorized : String → BrokerService C → Bool
  authorized token s = not (str_eq token "") && str_eq token s.token

-- Sync.
unfoldable pub sync :
    {D C : Type 0} (encrypt : Bytes → Option C) (digest : Bytes → String)
    → String
    → Round D
    → BrokerService C
    → Result BrokerError BrokerStatus × BrokerService C
sync encrypt digest name round s = elim (valid_broker_environment name) [
  | none ↦ (err BrokerError.invalid_environment, s)
  | some environment ↦
      status_after environment (sync_environment encrypt digest environment round s)
]

-- The keys of the client in a slot.
pub record Credentials : Type 0 where
  pub client : ℕ
  pub api_key : String
  pub user_key : String

-- `clients[slot]` of the map that NewBrokerService is given, where nil is no client.
abbrev pub client_at : String → List (String × Option Credentials) → Option Credentials
client_at name [] = none
client_at name ((key, c) ∷ rest) = if str_eq key name then c else client_at name rest

abbrev pub client_of : Option Credentials → Option ℕ
client_of none = none
client_of (some c) = some c.client

abbrev pub lacks_key : Option Credentials → Bool
lacks_key none = true
lacks_key (some c) = str_eq c.api_key "" || str_eq c.user_key ""

-- `!validBrokerEnvironment(slot) || client == nil || client.APIKey == "" || client.UserKey == ""`.
abbrev pub is_invalid_slot : String × Option Credentials → Bool
is_invalid_slot (name, c) = not (is_some (valid_broker_environment name)) || lacks_key c

abbrev pub same_user_key : Option Credentials → Option Credentials → Bool
same_user_key (some c) (some k) = str_eq c.user_key k.user_key
same_user_key _ _ = false

-- NewBrokerService. `decode` is base64; `bytes` is the length of a text in bytes, `len`. `entries` is
-- the map of clients.
unfoldable pub new_broker_service :
    {C : Type 0} (decode : String → Option Bytes) (bytes : String → ℕ)
    → List (String × Option Credentials)
    → String
    → String
    → BrokerTables C
    → Result BrokerError (BrokerService C)
new_broker_service decode bytes entries encoded_key token tables = elim (decode encoded_key) [
  | none ↦ err BrokerError.bad_encryption_key
  | some key ↦
      fail_if (not (length key == 32)) BrokerError.bad_encryption_key
      >> fail_if (ltb (bytes token) 32) BrokerError.short_token
      >> fail_if (any_by is_invalid_slot entries) BrokerError.invalid_slot
      >> fail_if (same_user_key (client_at "demo" entries) (client_at "real" entries))
          BrokerError.equal_user_keys
      >> ok (record {
        tables = tables;
        clients = record {
          in_demo = client_of (client_at "demo" entries);
          in_real = client_of (client_at "real" entries);
        };
        bound = record { in_demo = none; in_real = none };
        conflicted = [];
        attempts = [];
        rounds = [];
        token = token;
        demo_execution_enabled = false;
        faults = [];
      })
]
