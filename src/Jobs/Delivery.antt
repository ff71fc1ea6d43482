-- ===== src/Jobs/Delivery.antt =====
-- Requests, dispatches and deliveries in any order (internal/platform/platform.go): what becomes of
-- the message of a run.
use mfd.Prelude.{
  All-map, keep, not, ◌∙◌, sym, ◌⊎◌, some, refl, Bool-cases, inl, inr, err, if◌then◌else◌, ok, ◌==◌,
  arith, Result, any_by, false, true, [], Bool, ◌∷◌, ◌≡◌, String, Option, List, ℕ, ◌>>=◌,
}
use mfd.Broker.Sorted.{All-keep}
use mfd.Jobs.Publishing.{dispatch-NoneLost, enqueue-NoneLost}
use mfd.Jobs.Calls.{
  has_run, has_run-set_job, acknowledge-other, acknowledge, will_run, after_enqueue, JobCall,
  after_work, run_calls, NoneLost, run_by_id-other, run_call,
}
use mfd.Jobs.Retries.{process-finishes, finish-id, processed, process-found}
use mfd.Lab.Experiment.{normalize_experiment, ExperimentError}
use mfd.Lab.Replay.{with_error, Fixture}
use mfd.Lab.Records.{Experiment}
use mfd.Jobs.Queue.{run_by_id, finish, replay_run, process, enqueue, enqueue_tx}
use mfd.Prelude.Int.{ℤ}
use mfd.Jobs.Records.{bad_request, JobError, JobTables, is_queued, Run, JobState}
use mfd.Decimal.{Decimals}

module _ (d : Decimals) (fixture : Option (Fixture d.D)) (hash : String) where
  -- A run that another message is about is as it was.
  process-other :
      (now : ℤ) (id i : ℕ) (t u : JobTables d.D)
      → process d fixture hash now id t ≡ ok u
      → (id == i) ≡ false
      → (run_by_id i u.runs ≡ run_by_id i t.runs) × (u.outbox ≡ t.outbox)
  process-other now id i t u h other =
      let (r, old) = process-found d fixture hash now id t u h in
      elim (Bool-cases (is_queued r.status)) [
        | inl q ↦
            let x = replay_run d fixture hash r in
            rw (processed d fixture hash now id t u r true old q h)
              (run_by_id-other id i (finish now x) t.runs (finish-id now x) other, refl)
        | inr q ↦ rw (processed d fixture hash now id t u r false old q h) (refl, refl)
      ]

  -- The outbox stays as it is, and so do the identifiers of the runs.
  process-keeps :
      (now : ℤ) (id : ℕ) (t u : JobTables d.D)
      → process d fixture hash now id t ≡ ok u
      → (u.outbox ≡ t.outbox) × ((i : ℕ) → has_run t.runs i ≡ true → has_run u.runs i ≡ true)
  process-keeps now id t u h =
      let (r, old) = process-found d fixture hash now id t u h in
      elim (Bool-cases (is_queued r.status)) [
        | inl q ↦
            let x = replay_run d fixture hash r in
            rw (processed d fixture hash now id t u r true old q h)
              (refl, λ i k. has_run-set_job id i (finish now x) t.runs (finish-id now x) k)
        | inr q ↦ rw (processed d fixture hash now id t u r false old q h) (refl, λ i k. k)
      ]

  work-NoneLost :
      (now : ℤ) (id : ℕ) (acked : Bool) (s : JobState d.D) (t : JobTables d.D)
      → NoneLost s
      → process d fixture hash now id s.tables ≡ ok t
      → NoneLost (after_work d fixture hash s id acked (ok t))
  work-NoneLost now id acked s t v h =
      let (same_outbox, keeps_runs) = process-keeps now id s.tables t h in
      record {
        pending = λ i r e q. by_id i r e q (Bool-cases (id == i));
        in_stream = λ i r e q m. in_stream_by_id i r e q m (Bool-cases (id == i));
        known_rows =
            rw same_outbox
              (All-map _ _ s.tables.outbox (λ o k. keeps_runs o.run_id k) v.known_rows);
        known_ids = All-map _ _ s.remembered (λ j k. keeps_runs j k) v.known_ids;
      }
    where
      clash :
          {o : Option (Run d.D)} {f r : Run d.D}
          → o ≡ some f
          → is_queued f.status ≡ false
          → o ≡ some r
          → is_queued r.status ≡ true
          → ⊥
      clash a b c e = cc

      in_stream_by_id :
          (i : ℕ) (r : Run d.D)
          → run_by_id i t.runs ≡ some r
          → is_queued r.status ≡ true
          → any_by (λ j. j == i) s.remembered ≡ true
          → ((id == i) ≡ true) ⊎ ((id == i) ≡ false)
          → any_by (λ j. j == i) (if acked then acknowledge id s.stream else s.stream) ≡ true
      in_stream_by_id i r e q m (inl same) =
          let (f, found, done) = process-finishes d fixture hash now id s.tables t h in
          let eq : id ≡ i = ground arith in absurd (clash (rw eq at found) done e q)
      in_stream_by_id i r e q m (inr other) =
          let (same_run, same_outbox) = process-other now id i s.tables t h other in
          ground
            (arith, v.in_stream i r (sym same_run ∙ e) q m, acknowledge-other id i s.stream other)

      by_id :
          (i : ℕ) (r : Run d.D)
          → run_by_id i t.runs ≡ some r
          → is_queued r.status ≡ true
          → ((id == i) ≡ true) ⊎ ((id == i) ≡ false)
          → will_run i t.outbox (if acked then acknowledge id s.stream else s.stream) ≡ true
      by_id i r e q (inl same) =
          let (f, found, done) = process-finishes d fixture hash now id s.tables t h in
          let eq : id ≡ i = ground arith in absurd (clash (rw eq at found) done e q)
      by_id i r e q (inr other) =
          let (same_run, same_outbox) = process-other now id i s.tables t h other in
          rw same_outbox (
            ground
              (arith, v.pending i r (sym same_run ∙ e) q, acknowledge-other id i s.stream other))

  run_call-NoneLost :
      (c : JobCall) (s : JobState d.D) → NoneLost s → NoneLost (run_call d fixture hash c s)
  unfolding run_call enqueue
  run_call-NoneLost (JobCall.enqueue_call id key now e) s v = by_normal (normalize_experiment e)
    where
      by_result :
          (x : Experiment) (y : Result JobError (JobTables d.D × ℕ))
          → enqueue_tx id key hash now x s.tables ≡ y
          → NoneLost (after_enqueue d fixture hash s y)
      by_result x (err z) h = v
      by_result x (ok (t, i)) h = enqueue-NoneLost id key hash now x s t i v h

      by_normal :
          (n : Result ExperimentError Experiment)
          → NoneLost (
              after_enqueue d fixture hash s
                (with_error bad_request n >>= λ x. enqueue_tx id key hash now x s.tables))
      by_normal (err x) = v
      by_normal (ok x) = by_result x (enqueue_tx id key hash now x s.tables) refl
  run_call-NoneLost (JobCall.dispatch_call delivery now) s v = dispatch-NoneLost delivery now s v
  run_call-NoneLost (JobCall.work_call now id acked) s v = by_fetch (any_by (λ j. j == id) s.stream)
    where
      by_result :
          (y : Result JobError (JobTables d.D))
          → process d fixture hash now id s.tables ≡ y
          → NoneLost (after_work d fixture hash s id acked y)
      by_result (err z) h = v
      by_result (ok t) h = work-NoneLost now id acked s t v h

      by_fetch :
          (b : Bool)
          → NoneLost (
              if b
              then after_work d fixture hash s id acked (process d fixture hash now id s.tables)
              else s)
      by_fetch true = by_result (process d fixture hash now id s.tables) refl
      by_fetch false = v
  run_call-NoneLost (JobCall.forget_call id) s v = record {
    pending = v.pending;
    in_stream = λ i r e q m. v.in_stream i r e q (kept i s.remembered m);
    known_rows = v.known_rows;
    known_ids = All-keep _ _ s.remembered v.known_ids;
  }
    where
      kept :
          (i : ℕ) (ids : List ℕ)
          → any_by (λ j. j == i) (keep (λ j. not (j == id)) ids) ≡ true
          → any_by (λ j. j == i) ids ≡ true
      kept i [] m = m
      kept i (j ∷ js) m = ground (arith, kept i js)

  -- Where every queued run has a message that is still to come (an unpublished outbox row or an
  -- unacknowledged message of the stream; the latter where the stream remembers its message, and would
  -- take a new one for a duplicate), that stays so through any sequence of Enqueue, dispatch and
  -- deliveries to workers, whichever publications fail, are not noted or are taken for duplicates,
  -- whenever the stream forgets a message, and whichever acknowledgements get lost. The outbox and the
  -- stream know no other runs, before and after.
  pub run_calls-NoneLost :
      (cs : List JobCall) (s : JobState d.D) → NoneLost s → NoneLost (run_calls d fixture hash cs s)
  unfolding run_calls
  run_calls-NoneLost [] s v = v
  run_calls-NoneLost (c ∷ cs) s v =
      run_calls-NoneLost cs (run_call d fixture hash c s) (run_call-NoneLost c s v)
