-- ===== src/Broker/History.antt =====
-- decrypt and History (internal/platform/broker.go). The cipher, the digest and the parser of
-- aggregates are arguments.
use mfd.Prelude.{
  ℕ, String, not, Option, none, some, List, [], ◌∷◌, Result, ok, err, take, if◌then◌else◌,
}
use mfd.Demo.Records.{Time, Bytes}
use mfd.Demo.Provider.{Snapshot}
use mfd.Demo.Session.{stored, next_fault}
use mfd.Broker.Status.{snapshots_of, next_query}
use mfd.Broker.Records.{
  Environment, BrokerService, BrokerError, SnapshotRow, valid_broker_environment,
}
use text.Mathlib.Text.{◌==◌ as str_eq}

pub record BrokerSnapshot (D : Type 0) : Type 0 where
  pub id : ℕ
  pub environment : Environment
  pub fetched_at : Time
  pub source_sha256 : String
  pub portfolio : Snapshot D

abbrev pub snapshot_item :
    {D C : Type 0} → Environment → SnapshotRow C → Snapshot D → BrokerSnapshot D
snapshot_item environment row portfolio = record {
  id = row.id;
  environment = environment;
  fetched_at = row.fetched_at;
  source_sha256 = row.response_sha256;
  portfolio = portfolio;
}

module _ {D C : Type 0} (decrypt : C → Option Bytes) (digest : Bytes → String)
    (parse : Bytes → Option (Snapshot D)) where
  abbrev pub parsed_item :
      Environment → SnapshotRow C → Option (Snapshot D) → Result BrokerError (BrokerSnapshot D)
  parsed_item environment row none = err BrokerError.schema_invalid
  parsed_item environment row (some portfolio) = ok (snapshot_item environment row portfolio)

  abbrev pub opened_item :
      Environment → SnapshotRow C → Option Bytes → Result BrokerError (BrokerSnapshot D)
  opened_item environment row none = err BrokerError.snapshot_invalid
  opened_item environment row (some raw) =
      if not (str_eq (digest raw) row.response_sha256)
      then err BrokerError.digest_mismatch
      else parsed_item environment row (parse raw)

  -- The loop over the rows, which an unreadable row ends.
  unfoldable pub open_rows :
      Environment → List (SnapshotRow C) → Result BrokerError (List (BrokerSnapshot D))
  open_rows environment [] = ok []
  open_rows environment (row ∷ rows) =
      let rest = open_rows environment rows in
      elim (opened_item environment row (decrypt row.sealed)) [
        | err e ↦ err e
        | ok item ↦ elim rest [ err e ↦ err e | ok items ↦ ok (item ∷ items) ]
      ]

  -- History in a valid environment.
  unfoldable pub history_of :
      Environment → BrokerService C → Result BrokerError (List (BrokerSnapshot D)) × BrokerService C
  history_of environment s = (
    elim (next_fault s.faults) [
      | stored ↦ open_rows environment (take 30 (snapshots_of environment s))
      | _ ↦ err BrokerError.storage
    ],
    next_query s,
  )

  unfoldable pub history :
      String → BrokerService C → Result BrokerError (List (BrokerSnapshot D)) × BrokerService C
  history name s = elim (valid_broker_environment name) [
    | none ↦ (err BrokerError.invalid_environment, s)
    | some environment ↦ history_of environment s
  ]
