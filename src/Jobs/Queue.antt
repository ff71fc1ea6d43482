-- ===== src/Jobs/Queue.antt =====
-- Enqueue, Run, dispatch and process (internal/platform/platform.go). Each transaction is a function
-- on the tables; a failure of the database leaves them as they were.
use mfd.Lab.Experiment.{normalize_experiment}
use mfd.Lab.Replay.{replay_experiment, ReplayResult, with_error, Fixture}
use mfd.Decimal.{Decimals}
use mfd.Jobs.Records.{
  is_queued, duplicate_id, replay_failed, idempotency_conflict, no_run, dataset_differs,
  bad_request, JobStatus, JobError, RunError, JobTables, JobState, Run, OutboxRow,
}
use mfd.Lab.Records.{Experiment}
use mfd.Prelude.Int.{leb_ℤ, ℤ}
use mfd.Prelude.{
  false, not, err, ok, some, true, none, keep, ◌==◌, all_by, ◌&&◌, take, if◌then◌else◌, find_by,
  any_by, [], Result, map, Bool, ◌∷◌, Option, String, List, ℕ, ◌>>=◌,
}
use text.Mathlib.Text.{◌==◌ as str_eq}

-- `reflect.DeepEqual` of two experiments, whose maps have the same entries in any order.
abbrev pub eq_ℤ : ℤ → ℤ → Bool
eq_ℤ a b = leb_ℤ a b && leb_ℤ b a

abbrev pub has_entry : List (String × ℤ) → String × ℤ → Bool
has_entry m (key, bps) = any_by (λ x. str_eq x.0 key && eq_ℤ x.1 bps) m

abbrev pub same_entries : List (String × ℤ) → List (String × ℤ) → Bool
same_entries m n = all_by (has_entry n) m && all_by (has_entry m) n

abbrev pub same_shocks : Option (List (String × ℤ)) → Option (List (String × ℤ)) → Bool
same_shocks none none = true
same_shocks (some m) (some n) = same_entries m n
same_shocks _ _ = false

abbrev pub same_name : List ℕ → List ℕ → Bool
same_name [] [] = true
same_name (a ∷ as') (b ∷ bs) = a == b && same_name as' bs
same_name _ _ = false

unfoldable pub deep_equal : Experiment → Experiment → Bool
deep_equal a b =
    same_name a.name b.name
    && same_shocks a.final_shock_bps b.final_shock_bps
    && eq_ℤ a.review_threshold_bps b.review_threshold_bps

module _ {D : Type 0} where
  abbrev pub run_by_key : String → List (Run D) → Option (Run D)
  run_by_key key = find_by (λ r. str_eq r.idempotency_key key)

  abbrev pub run_by_id : ℕ → List (Run D) → Option (Run D)
  run_by_id id = find_by (λ r. r.id == id)

  abbrev pub queued_run : ℕ → String → String → ℤ → Experiment → Run D
  queued_run id key hash now experiment = record {
    id = id;
    idempotency_key = key;
    status = JobStatus.queued;
    dataset_hash = hash;
    experiment = experiment;
    created_at = now;
    finished_at = none;
    result = none;
    error = none;
  }

  -- The transaction of Enqueue; `id` is newID's value.
  unfoldable pub enqueue_tx :
      ℕ → String → String → ℤ → Experiment → JobTables D → Result JobError (JobTables D × ℕ)
  enqueue_tx id key hash now experiment t = elim (run_by_key key t.runs) [
    | some stored ↦
        if deep_equal stored.experiment experiment
        then ok (t, stored.id)
        else err idempotency_conflict
    | none ↦
        if any_by (λ r. r.id == id) t.runs
        then err duplicate_id
        else ok (
          record {
            runs = queued_run id key hash now experiment ∷ t.runs;
            outbox = record { run_id = id; created_at = now; published_at = none } ∷ t.outbox;
          },
          id,
        )
  ]

  unfoldable pub enqueue :
      ℕ → String → String → ℤ → Experiment → JobTables D → Result JobError (JobTables D × ℕ)
  enqueue id key hash now experiment t = do
    normal ← with_error bad_request (normalize_experiment experiment)
    enqueue_tx id key hash now normal t

  unfoldable pub run_of : ℕ → JobTables D → Result JobError (Run D)
  run_of id t = elim (run_by_id id t.runs) [ none ↦ err no_run | some r ↦ ok r ]

  abbrev pub set_job : ℕ → (Run D → Run D) → List (Run D) → List (Run D)
  set_job id set [] = []
  set_job id set (r ∷ rs) = if r.id == id then set r ∷ rs else r ∷ set_job id set rs

  -- How a queued run ends.
  abbrev pub finish : ℤ → Result RunError (ReplayResult D) → Run D → Run D
  finish now (ok result) r = record r {
    status = JobStatus.completed;
    finished_at = some now;
    result = some result;
  }
  finish now (err e) r = record r {
    status = JobStatus.failed;
    finished_at = some now;
    error = some e;
  }

-- `ORDER BY created_at`.
unfoldable pub insert_outbox : OutboxRow → List OutboxRow → List OutboxRow
insert_outbox o [] = o ∷ []
insert_outbox o (x ∷ xs) =
    let later = x ∷ insert_outbox o xs in
    if leb_ℤ o.created_at x.created_at then o ∷ x ∷ xs else later

unfoldable pub oldest_first : List OutboxRow → List OutboxRow
oldest_first [] = []
oldest_first (o ∷ os) = insert_outbox o (oldest_first os)

abbrev pub is_unpublished : OutboxRow → Bool
is_unpublished o = elim o.published_at [ none ↦ true | some _ ↦ false ]

abbrev pub mark_published : ℕ → ℤ → List OutboxRow → List OutboxRow
mark_published id now =
    map
      (λ o. if o.run_id == id && is_unpublished o then record o { published_at = some now } else o)

-- How the broker and the database take one message: acknowledged and noted; acknowledged, or at least
-- taken, but the reply or the note failed; or not taken.
pub data Delivery : Type 0 where
  delivered unnoted undelivered : Delivery

module _ {D : Type 0} where
  -- `Publish` with `nats.MsgId(id)`: JetStream acknowledges a message whose id it remembers without
  -- storing it again.
  abbrev pub publish : ℕ → JobState D → JobState D
  publish id s =
      if any_by (λ j. j == id) s.remembered
      then s
      else record s { stream = id ∷ s.stream; remembered = id ∷ s.remembered }

  -- The UPDATE that notes a publication.
  abbrev pub note_published : ℕ → ℤ → JobState D → JobState D
  note_published id now s = record s {
    tables = record (s.tables) { outbox = mark_published id now s.tables.outbox };
  }

  -- The loop of dispatch stops at the first failure.
  unfoldable pub publish_all : (ℕ → Delivery) → ℤ → List ℕ → JobState D → JobState D
  publish_all delivery now [] s = s
  publish_all delivery now (id ∷ ids) s =
      let rest = publish_all delivery now ids (note_published id now (publish id s)) in
      elim (delivery id) [ delivered ↦ rest | unnoted ↦ publish id s | undelivered ↦ s ]

  unfoldable pub dispatch : (ℕ → Delivery) → ℤ → JobState D → JobState D
  dispatch delivery now s =
      publish_all delivery now
        (map (λ o. o.run_id) (take 20 (oldest_first (keep is_unpublished s.tables.outbox)))) s

module _ (d : Decimals) (fixture : Option (Fixture d.D)) (hash : String) where
  abbrev pub replay_run : Run d.D → Result RunError (ReplayResult d.D)
  replay_run r =
      if not (str_eq r.dataset_hash hash)
      then err dataset_differs
      else with_error replay_failed (replay_experiment d fixture hash r.experiment)

  -- The transaction of process; its row is locked from the SELECT to the commit.
  unfoldable pub process : ℤ → ℕ → JobTables d.D → Result JobError (JobTables d.D)
  process now id t = elim (run_by_id id t.runs) [
    | none ↦ err no_run
    | some r ↦
        if is_queued r.status
        then ok (record t { runs = set_job id (finish now (replay_run r)) t.runs })
        else ok t
  ]
