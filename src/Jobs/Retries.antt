-- ===== src/Jobs/Retries.antt =====
-- Requests and messages that come twice (Enqueue and process of internal/platform/platform.go).
use mfd.Lab.Experiment.{normalize_experiment}
use mfd.Lab.Replay.{with_error, ReplayResult, Fixture}
use mfd.Decimal.{Decimals}
use mfd.Jobs.Records.{JobError, no_run, bad_request, is_queued, RunError, Run, JobTables}
use mfd.Prelude.Int.{ℤ}
use mfd.Lab.Records.{Experiment}
use mfd.Jobs.Queue.{
  replay_run, finish, process, set_job, run_by_id, enqueue, run_by_key, same_shocks, has_entry,
  same_name, enqueue_tx, deep_equal,
}
use mathlib.Core.List.{[], ◌∷◌, List, append_assoc}
use text.Mathlib.TextPositions.{eq_refl}
use mfd.Prelude.{
  sym, ok_unique, Bool-cases, if◌then◌else◌, Bool, false, err, >>=-eq-ok, Result, inr, inl, none,
  refl, Option-cases, [], arith, ok, some, ◌++◌, true, all_by, ◌≡◌, ℕ, String, Option, List,
}

same_name_refl : (a : List ℕ) → same_name a a ≡ true
same_name_refl [] = refl
same_name_refl (x ∷ a) = ground (arith, same_name_refl a)

has_entry-append : (m n : List (String × ℤ)) (x : String × ℤ) → has_entry (m ++ x ∷ n) x ≡ true
has_entry-append [] n x = ground (arith, eq_refl x.0)
has_entry-append (y ∷ m) n x = ground (arith, has_entry-append m n x)

all-has_entry : (m n : List (String × ℤ)) → all_by (has_entry (m ++ n)) n ≡ true
all-has_entry m [] = refl
all-has_entry m (x ∷ n) = ground (
  arith,
  has_entry-append m n x,
  rw (append_assoc m (x ∷ []) n) at (all-has_entry (m ++ x ∷ []) n),
)

same_shocks_refl : (m : Option (List (String × ℤ))) → same_shocks m m ≡ true
same_shocks_refl none = refl
same_shocks_refl (some m) = ground (arith, all-has_entry [] m)

deep_equal_refl : (e : Experiment) → deep_equal e e ≡ true
unfolding deep_equal
deep_equal_refl e = ground (arith, same_name_refl e.name, same_shocks_refl e.final_shock_bps)

module _ {D : Type 0} where
  enqueue_tx-again :
      (id id' : ℕ) (key hash hash' : String) (now now' : ℤ) (e : Experiment) (t u : JobTables D)
      (i : ℕ)
      → enqueue_tx id key hash now e t ≡ ok (u, i)
      → enqueue_tx id' key hash' now' e u ≡ ok (u, i)
  unfolding enqueue_tx
  enqueue_tx-again id id' key hash hash' now now' e t u i h =
      elim (Option-cases (run_by_key key t.runs)) [
        | inl new ↦ ground (arith, rw (new, enqueue_tx) at h, eq_refl key, deep_equal_refl e)
        | inr (r, old) ↦ ground (arith, rw (old, enqueue_tx) at h, old)
      ]

  -- A request repeated under its idempotency key is answered with the first run's identifier and
  -- changes nothing.
  pub enqueue_idempotent :
      (id id' : ℕ) (key hash hash' : String) (now now' : ℤ) (e : Experiment) (t u : JobTables D)
      (i : ℕ)
      → enqueue id key hash now e t ≡ ok (u, i)
      → enqueue id' key hash' now' e u ≡ ok (u, i)
  unfolding enqueue
  enqueue_idempotent id id' key hash hash' now now' e t u i h =
      let normal = >>=-eq-ok (with_error bad_request (normalize_experiment e)) _ h in
      rw normal.1 (enqueue_tx-again id id' key hash hash' now now' normal.0 t u i normal.2)

  pub finish-id :
      (now : ℤ) (x : Result RunError (ReplayResult D)) (r : Run D) → (finish now x r).id ≡ r.id
  finish-id now (ok x) r = refl
  finish-id now (err e) r = refl

  pub finish-not_queued :
      (now : ℤ) (x : Result RunError (ReplayResult D)) (r : Run D)
      → is_queued (finish now x r).status ≡ false
  finish-not_queued now (ok x) r = refl
  finish-not_queued now (err e) r = refl

  run_by_id-set_job :
      (id : ℕ) (set : Run D → Run D) (rs : List (Run D)) {r : Run D}
      → ((q : Run D) → (set q).id ≡ q.id)
      → run_by_id id rs ≡ some r
      → run_by_id id (set_job id set rs) ≡ some (set r)
  run_by_id-set_job id set [] keeps h = cc
  run_by_id-set_job id set (q ∷ rs) {r} keeps h =
      ground (arith, keeps q, run_by_id-set_job id set rs {r = r} keeps)

module _ (d : Decimals) (fixture : Option (Fixture d.D)) (hash : String) where
  -- What `process` does with a run that it finds.
  pub processed :
      (now : ℤ) (id : ℕ) (t u : JobTables d.D) (r : Run d.D) (b : Bool)
      → run_by_id id t.runs ≡ some r
      → is_queued r.status ≡ b
      → process d fixture hash now id t ≡ ok u
      → u ≡ (
          if b
          then record t { runs = set_job id (finish now (replay_run d fixture hash r)) t.runs }
          else t)
  unfolding process
  processed now id t u r true old q h = ok_unique {r = ok u} refl (rw (old, process, q) at (sym h))
  processed now id t u r false old q h = ok_unique {r = ok u} refl (rw (old, process, q) at (sym h))

  -- A finished run is left alone.
  process-finished :
      (now : ℤ) (id : ℕ) (t : JobTables d.D) (r : Run d.D)
      → run_by_id id t.runs ≡ some r
      → is_queued r.status ≡ false
      → process d fixture hash now id t ≡ ok t
  unfolding process
  process-finished now id t r old q = rw (old, process, q) refl

  pub process-found :
      (now : ℤ) (id : ℕ) (t u : JobTables d.D)
      → process d fixture hash now id t ≡ ok u
      → (r : Run d.D) × (run_by_id id t.runs ≡ some r)
  unfolding process
  process-found now id t u h = elim (Option-cases (run_by_id id t.runs)) [
    | inl gone ↦ absurd (failed_lem (rw (gone, process) at h))
    | inr found ↦ found
  ]
    where
      failed_lem : ◌≡◌ {A = Result JobError (JobTables d.D)} (err no_run) (ok u) → ⊥
      failed_lem e = cc

  -- Processing a redelivered message changes nothing: a run is finished once.
  pub process_idempotent :
      (now now' : ℤ) (id : ℕ) (t u : JobTables d.D)
      → process d fixture hash now id t ≡ ok u
      → process d fixture hash now' id u ≡ ok u
  process_idempotent now now' id t u h =
      let (r, old) = process-found now id t u h in
      elim (Bool-cases (is_queued r.status)) [
        | inl q ↦
            let x = replay_run d fixture hash r in
            rw (processed now id t u r true old q h) (
              process-finished now' id _ (finish now x r)
                (run_by_id-set_job id (finish now x) t.runs (finish-id now x) old)
                (finish-not_queued now x r))
        | inr q ↦ rw (processed now id t u r false old q h) (process-finished now' id t r old q)
      ]

  -- Where process returns nil, and the worker acknowledges the message, its run exists and is no
  -- longer queued.
  pub process-finishes :
      (now : ℤ) (id : ℕ) (t u : JobTables d.D)
      → process d fixture hash now id t ≡ ok u
      → (r : Run d.D) × (run_by_id id u.runs ≡ some r) × (is_queued r.status ≡ false)
  process-finishes now id t u h =
      let (r, old) = process-found now id t u h in
      elim (Bool-cases (is_queued r.status)) [
        | inl q ↦
            let x = replay_run d fixture hash r in
            rw (processed now id t u r true old q h) (
              finish now x r,
              run_by_id-set_job id (finish now x) t.runs (finish-id now x) old,
              finish-not_queued now x r,
            )
        | inr q ↦ rw (processed now id t u r false old q h) (r, old, q)
      ]
