-- ===== src/Jobs/Calls.antt =====
-- The calls of Enqueue, dispatch and the workers that Start runs (internal/platform/platform.go), in
-- any order, and where the message of a run is.
use mfd.Prelude.{
  keep, All, not, some, refl, ◌||◌, err, if◌then◌else◌, ◌&&◌, ok, ◌==◌, arith, Result, any_by,
  false, true, [], Bool, ◌∷◌, ◌≡◌, String, Option, List, ℕ,
}
use mfd.Lab.Replay.{Fixture}
use mfd.Lab.Records.{Experiment}
use mfd.Jobs.Queue.{run_by_id, is_unpublished, process, dispatch, set_job, enqueue, Delivery}
use mfd.Prelude.Int.{ℤ}
use mfd.Jobs.Records.{JobError, JobTables, is_queued, OutboxRow, Run, JobState}
use mfd.Decimal.{Decimals}

-- The calls that change the queue, with what each reads from outside. A transaction that fails
-- leaves the tables alone.
pub data JobCall : Type 0 where
  enqueue_call : ℕ → String → ℤ → Experiment → JobCall
  dispatch_call : (ℕ → Delivery) → ℤ → JobCall
  -- A worker fetches a message; the flag says whether its acknowledgement gets through.
  work_call : ℤ → ℕ → Bool → JobCall
  -- The stream's window of duplicates has passed for a message id.
  forget_call : ℕ → JobCall

abbrev pub acknowledge : ℕ → List ℕ → List ℕ
acknowledge id [] = []
acknowledge id (j ∷ js) = if j == id then js else j ∷ acknowledge id js

module _ (d : Decimals) (fixture : Option (Fixture d.D)) (hash : String) where
  abbrev pub after_enqueue : JobState d.D → Result JobError (JobTables d.D × ℕ) → JobState d.D
  after_enqueue s (ok (t, id)) = record s { tables = t }
  after_enqueue s (err e) = s

  -- `process` returned: `AckSync`, or `NakWithDelay`, after which the message comes again.
  abbrev pub after_work : JobState d.D → ℕ → Bool → Result JobError (JobTables d.D) → JobState d.D
  after_work s id acked (ok t) = record s {
    tables = t;
    stream = if acked then acknowledge id s.stream else s.stream;
  }
  after_work s id acked (err e) = s

  unfoldable pub run_call : JobCall → JobState d.D → JobState d.D
  run_call (JobCall.enqueue_call id key now e) s =
      after_enqueue s (enqueue id key hash now e s.tables)
  run_call (JobCall.dispatch_call delivery now) s = dispatch delivery now s
  run_call (JobCall.work_call now id acked) s =
      if any_by (λ j. j == id) s.stream
      then after_work s id acked (process d fixture hash now id s.tables)
      else s
  run_call (JobCall.forget_call id) s = record s {
    remembered = keep (λ j. not (j == id)) s.remembered;
  }

  unfoldable pub run_calls : List JobCall → JobState d.D → JobState d.D
  run_calls [] s = s
  run_calls (c ∷ cs) s = run_calls cs (run_call c s)

-- The run's message is in the outbox, unpublished, or in the stream, unacknowledged.
abbrev pub will_run : ℕ → List OutboxRow → List ℕ → Bool
will_run id outbox stream =
    any_by (λ o. o.run_id == id && is_unpublished o) outbox || any_by (λ j. j == id) stream

abbrev pub has_run : {D : Type 0} → List (Run D) → ℕ → Bool
has_run runs id = any_by (λ r. r.id == id) runs

-- Every queued run has a message that is still to come, also where the stream would take it for a
-- duplicate; and the outbox and the stream know no other runs (the outbox refers to the runs).
pub record NoneLost {D : Type 0} (s : JobState D) : Type 0 where
  pub pending :
      (id : ℕ) (r : Run D)
      → run_by_id id s.tables.runs ≡ some r
      → is_queued r.status ≡ true
      → will_run id s.tables.outbox s.stream ≡ true
  pub in_stream :
      (id : ℕ) (r : Run D)
      → run_by_id id s.tables.runs ≡ some r
      → is_queued r.status ≡ true
      → any_by (λ j. j == id) s.remembered ≡ true
      → any_by (λ j. j == id) s.stream ≡ true
  pub known_rows : All (λ o. has_run s.tables.runs o.run_id ≡ true) s.tables.outbox
  pub known_ids : All (λ id. has_run s.tables.runs id ≡ true) s.remembered

pub acknowledge-other :
    (id i : ℕ) (stream : List ℕ)
    → (id == i) ≡ false
    → any_by (λ j. j == i) (acknowledge id stream) ≡ any_by (λ j. j == i) stream
acknowledge-other id i [] h = refl
acknowledge-other id i (j ∷ js) h = ground (arith, acknowledge-other id i js h)

module _ {D : Type 0} where
  pub has_run-set_job :
      (id i : ℕ) (set : Run D → Run D) (rs : List (Run D))
      → ((q : Run D) → (set q).id ≡ q.id)
      → has_run rs i ≡ true
      → has_run (set_job id set rs) i ≡ true
  has_run-set_job id i set [] keeps h = h
  has_run-set_job id i set (r ∷ rs) keeps h =
      ground (arith, keeps r, has_run-set_job id i set rs keeps)

  pub run_by_id-other :
      (id i : ℕ) (set : Run D → Run D) (rs : List (Run D))
      → ((q : Run D) → (set q).id ≡ q.id)
      → (id == i) ≡ false
      → run_by_id i (set_job id set rs) ≡ run_by_id i rs
  run_by_id-other id i set [] keeps h = refl
  run_by_id-other id i set (r ∷ rs) keeps h =
      ground (arith, keeps r, run_by_id-other id i set rs keeps h)
