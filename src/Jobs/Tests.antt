-- ===== src/Jobs/Tests.antt =====
-- The replay jobs on concrete inputs, over whole decimals.
use mfd.Jobs.Retries.{process-finishes, enqueue_idempotent, process_idempotent}
use mfd.Jobs.Records.{JobStatus, is_queued, Run, JobTables, JobState}
use mfd.Lab.Records.{Experiment}
use mfd.Prelude.{arith, false, none, ok, refl, some, [], ◌≡◌, ◌∷◌, map, List}
use mfd.Lab.Replay.{
  Fixture, replay_experiment, replay_observations, replay_sleeves, decide, shock_quote,
}
use mfd.Jobs.Queue.{
  Delivery, replay_run, queued_run, finish, run_by_id, enqueue, enqueue_tx, process, dispatch,
  publish_all, oldest_first, insert_outbox,
}
use mfd.Lab.Experiment.{
  normalize_experiment, trim_space, trim_left, trim_right, put_back, is_space, check_shocks,
  is_supported,
}
use mfd.Lab.Value.{value, value_positions, by_symbol, check_mark}
use mfd.Prelude.Int.{ℤ, pos, ◌+ℤ◌, ◌-ℤ◌, ◌*ℤ◌, saturate}
use mfd.Decimal.Whole.{whole, div_ℤ}
use mfd.Jobs.Delivery.{run_calls-NoneLost}
use mfd.Jobs.Calls.{JobCall, NoneLost, run_call, run_calls}

abbrev request : Experiment
request = record {
  name = b'u' ∷ b'p' ∷ [];
  final_shock_bps = some (("AAPL", pos 250) ∷ []);
  review_threshold_bps = pos 100;
}

abbrev cash_only : Fixture ℤ
cash_only = record {
  sleeves = record { id = "cash"; cash = pos 50; strategy = "hold"; positions = [] } ∷ [];
  observations = record { at = pos 1; quotes = [] } ∷ [];
}

abbrev no_jobs : JobTables ℤ
no_jobs = record { runs = []; outbox = [] }

abbrev requested : JobTables ℤ
requested = record {
  runs = queued_run 3 "key" "hash" (pos 1) request ∷ [];
  outbox = record { run_id = 3; created_at = pos 1; published_at = none } ∷ [];
}

accepted_once : enqueue 3 "key" "hash" (pos 1) request no_jobs ≡ ok (requested, 3)
unfolding enqueue enqueue_tx normalize_experiment trim_space trim_left trim_right put_back is_space
    check_shocks is_supported
accepted_once = refl

enqueue_idempotent_example : enqueue 4 "key" "other" (pos 9) request requested ≡ ok (requested, 3)
enqueue_idempotent_example =
    enqueue_idempotent 3 4 "key" "hash" "other" (pos 1) (pos 9) request no_jobs requested 3
      accepted_once

abbrev finished_tables : JobTables ℤ
finished_tables = record requested {
  runs =
      finish (pos 5)
        (replay_run whole (some cash_only) "hash" (queued_run 3 "key" "hash" (pos 1) request))
        (queued_run 3 "key" "hash" (pos 1) request)
      ∷ [];
}

replayed_once : process whole (some cash_only) "hash" (pos 5) 3 requested ≡ ok finished_tables
unfolding process
replayed_once = refl

is_completed : map (λ r. r.status) finished_tables.runs ≡ JobStatus.completed ∷ []
unfolding replay_experiment replay_observations replay_sleeves decide shock_quote
    normalize_experiment trim_space trim_left trim_right put_back is_space check_shocks is_supported
    value value_positions by_symbol check_mark saturate ◌+ℤ◌ ◌-ℤ◌ ◌*ℤ◌ div_ℤ
is_completed = refl

process_idempotent_example :
    process whole (some cash_only) "hash" (pos 8) 3 finished_tables ≡ ok finished_tables
process_idempotent_example =
    process_idempotent whole (some cash_only) "hash" (pos 5) (pos 8) 3 requested finished_tables
      replayed_once

process-finishes_example :
    (r : Run ℤ) × (run_by_id 3 finished_tables.runs ≡ some r) × (is_queued r.status ≡ false)
process-finishes_example =
    process-finishes whole (some cash_only) "hash" (pos 5) 3 requested finished_tables replayed_once

abbrev idle_queue : JobState ℤ
idle_queue = record { tables = no_jobs; stream = []; remembered = [] }

idle-NoneLost : NoneLost idle_queue
idle-NoneLost = record {
  pending = λ id r e q. absurd (ground arith);
  in_stream = λ id r e q m. absurd (ground arith);
  known_rows = tt;
  known_ids = tt;
}

-- The first publication is not noted, and the next is taken for a duplicate; the first acknowledgement
-- is lost, and the stream forgets the message.
abbrev job_calls : List JobCall
job_calls =
    JobCall.enqueue_call 3 "key" (pos 1) request
    ∷ JobCall.dispatch_call (λ _. Delivery.unnoted) (pos 2)
    ∷ JobCall.dispatch_call (λ _. Delivery.delivered) (pos 3)
    ∷ JobCall.work_call (pos 5) 3 false
    ∷ JobCall.forget_call 3
    ∷ []

redelivered : (run_calls whole (some cash_only) "hash" job_calls idle_queue).stream ≡ 3 ∷ []
unfolding run_calls run_call dispatch publish_all oldest_first insert_outbox process enqueue
    enqueue_tx normalize_experiment trim_space trim_left trim_right put_back is_space check_shocks
    is_supported replay_experiment replay_observations replay_sleeves value by_symbol
    value_positions
redelivered = refl

run_calls-NoneLost_example : NoneLost (run_calls whole (some cash_only) "hash" job_calls idle_queue)
run_calls-NoneLost_example =
    run_calls-NoneLost whole (some cash_only) "hash" job_calls idle_queue idle-NoneLost
