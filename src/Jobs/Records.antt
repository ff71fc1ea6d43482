-- ===== src/Jobs/Records.antt =====
-- The struct Run of internal/platform/platform.go, and the tables of internal/platform/schema.sql.
-- Identifiers are numbers, instants nanoseconds; JSON columns are the values that they encode.
use mfd.Lab.Records.{Experiment}
use mfd.Lab.Experiment.{ExperimentError}
use mfd.Lab.Replay.{ReplayResult, ReplayError}
use mfd.Prelude.Int.{ℤ}
use mfd.Prelude.{false, true, Option, Bool, List, String, ℕ}

-- The CHECK of `runs.status`.
pub data JobStatus : Type 0 where
  queued completed failed : JobStatus

abbrev pub is_queued : JobStatus → Bool
is_queued JobStatus.queued = true
is_queued _ = false

-- What is stored in `error`.
pub data RunError : Type 0 where
  replay_failed : ReplayError → RunError
  dataset_differs : RunError

-- A row of `runs`; `mode` and `actor` keep their defaults.
pub record Run (D : Type 0) : Type 0 where
  pub id : ℕ
  pub idempotency_key : String
  pub status : JobStatus
  pub dataset_hash : String
  pub experiment : Experiment
  pub created_at : ℤ
  pub finished_at : Option ℤ
  pub result : Option (ReplayResult D)
  pub error : Option RunError

-- A row of `outbox`.
pub record OutboxRow : Type 0 where
  pub run_id : ℕ
  pub created_at : ℤ
  pub published_at : Option ℤ

pub record JobTables (D : Type 0) : Type 0 where
  pub runs : List (Run D)
  pub outbox : List OutboxRow

-- The tables, the messages of the stream that are not acknowledged, and the message ids that the stream
-- remembers (its window of duplicates), the latest first.
pub record JobState (D : Type 0) : Type 0 where
  pub tables : JobTables D
  pub stream : List ℕ
  pub remembered : List ℕ

pub data JobError : Type 0 where
  bad_request : ExperimentError → JobError
  duplicate_id no_run idempotency_conflict : JobError
