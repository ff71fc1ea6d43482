-- ===== src/Broker/Store.antt =====
-- classifyBrokerRead, encrypt and persist (internal/platform/broker.go). The cipher (AES-GCM under a
-- random nonce) and the digest are arguments.
use mfd.Prelude.{
  ℕ, String, Option, none, some, List, ◌∷◌, ◌==◌, Result, ok, err, fail_if, ◌>>=◌, ◌>>◌, any_by,
}
use mfd.Demo.Records.{Time, Bytes}
use mfd.Demo.Provider.{Snapshot}
use mfd.Demo.Session.{Storage, stored, refused, lost_reply, next_fault, later_faults}
use mfd.Broker.Records.{
  Environment, BrokerTables, BrokerService, SnapshotRow, SyncEvent, ReadError, BrokerError,
}

-- A response and the portfolio in it, or an error.
abbrev pub Reading : Type 0 → Type 0
Reading D = Result ReadError (Bytes × Snapshot D)

abbrev pub classify_broker_read : {D : Type 0} → Reading D → String × ℕ
classify_broker_read (ok _) = ("ok", 200)
classify_broker_read (err ReadError.credential_conflict) = ("credential_conflict", 200)
classify_broker_read (err (ReadError.api_error category status)) = (category, status)
classify_broker_read (err ReadError.schema_error) = ("schema_error", 200)
classify_broker_read (err ReadError.request_failed) = ("request_failed", 0)

-- The identifiers and the time that one transaction uses.
pub record Stamp : Type 0 where
  pub snapshot_id : ℕ
  pub event_id : ℕ
  pub now : Time

module _ {D C : Type 0} (encrypt : Bytes → Option C) (digest : Bytes → String) where
  abbrev pub snapshot_row : Stamp → Environment → Bytes → Snapshot D → C → SnapshotRow C
  snapshot_row stamp environment raw snapshot sealed = record {
    id = stamp.snapshot_id;
    environment = environment;
    fetched_at = stamp.now;
    provider_at = snapshot.provider_at;
    response_sha256 = digest raw;
    sealed = sealed;
  }

  -- The INSERT into etoro_snapshots, of a read that succeeded.
  unfoldable pub insert_snapshot :
      Stamp
      → Environment
      → Reading D
      → List (SnapshotRow C)
      → Result BrokerError (List (SnapshotRow C) × Option ℕ)
  insert_snapshot stamp environment (err e) rows = ok (rows, none)
  insert_snapshot stamp environment (ok (raw, snapshot)) rows = elim (encrypt raw) [
    | none ↦ err BrokerError.encryption
    | some sealed ↦
        fail_if (any_by (λ r. r.id == stamp.snapshot_id) rows) BrokerError.duplicate_id
        >> ok (snapshot_row stamp environment raw snapshot sealed ∷ rows, some stamp.snapshot_id)
  ]

  abbrev pub sync_event : Stamp → Environment → Reading D → Option ℕ → SyncEvent
  sync_event stamp environment reading snapshot_id = record {
    id = stamp.event_id;
    environment = environment;
    attempted_at = stamp.now;
    result = (classify_broker_read reading).0;
    http_status = (classify_broker_read reading).1;
    snapshot_id = snapshot_id;
  }

  -- The body of persist's transaction.
  unfoldable pub persist_tx :
      Stamp → Environment → Reading D → BrokerTables C → Result BrokerError (BrokerTables C)
  persist_tx stamp environment reading t = do
    (rows, snapshot_id) ← insert_snapshot stamp environment reading t.snapshots
    fail_if (any_by (λ e. e.id == stamp.event_id) t.events) BrokerError.duplicate_id
    ok (record {
      snapshots = rows;
      events = sync_event stamp environment reading snapshot_id ∷ t.events;
    })

-- What a method of the service returns and leaves.
abbrev pub SyncOutcome : Type 0 → Type 0
SyncOutcome C = Result BrokerError (Unit {0}) × BrokerService C

module _ {C : Type 0} where
  -- How the transaction ends: with a fault it is not carried out, or its reply is lost.
  abbrev pub settle :
      Storage → Result BrokerError (BrokerTables C) → BrokerService C → SyncOutcome C
  settle refused body s = (err BrokerError.storage, s)
  settle stored (ok t) s = (ok tt, record s { tables = t })
  settle stored (err e) s = (err e, s)
  settle lost_reply (ok t) s = (err BrokerError.storage, record s { tables = t })
  settle lost_reply (err e) s = (err e, s)

module _ {D C : Type 0} (encrypt : Bytes → Option C) (digest : Bytes → String) where
  unfoldable pub persist : Stamp → Environment → Reading D → BrokerService C → SyncOutcome C
  persist stamp environment reading s =
      settle (next_fault s.faults) (persist_tx encrypt digest stamp environment reading s.tables)
        (record s { faults = later_faults s.faults })
