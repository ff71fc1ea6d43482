-- ===== src/Demo/Tables.antt =====
-- The SQL statements of internal/platform/demo_strategy.go, each a function on the tables, with the
-- constraints that migrate (internal/platform/platform.go) puts on them.
use mfd.Prelude.{
  ℕ, String, Bool, ◌||◌, Option, none, some, List, [], ◌∷◌, ◌++◌, leb, ltb, ◌==◌, if◌then◌else◌,
  count_by, find_by, any_by, length, Result, ok, err, ◌>>=◌,
}
use mfd.Demo.Records.{
  Time, Bytes, is_active, DemoStrategyRun, DemoArtifact, Tables, DemoError, storage,
  unique_violation,
}
use text.Mathlib.Text.{◌==◌ as str_eq}

module _ {D : Type 0} where
  abbrev pub count_active : List (DemoStrategyRun D) → ℕ
  count_active = count_by (λ r. is_active r.status)

  -- `SELECT … WHERE id=$1`: the primary key finds one row at most.
  abbrev pub select_run : ℕ → List (DemoStrategyRun D) → Option (DemoStrategyRun D)
  select_run id = find_by (λ r. r.id == id)

  -- `SELECT … WHERE idempotency_key=$1`, a unique column.
  abbrev pub select_key : String → List (DemoStrategyRun D) → Option (DemoStrategyRun D)
  select_key key = find_by (λ r. str_eq r.idempotency_key key)

  -- The rows after `UPDATE … SET … WHERE id=$1 AND test`, `set` being the SET clause.
  abbrev pub set_where :
      ℕ
      → (DemoStrategyRun D → Bool)
      → (DemoStrategyRun D → DemoStrategyRun D)
      → List (DemoStrategyRun D)
      → List (DemoStrategyRun D)
  set_where id test set [] = []
  set_where id test set (r ∷ rs) =
      if r.id == id then (if test r then set r else r) ∷ rs else r ∷ set_where id test set rs

  -- The `RowsAffected` of that statement.
  abbrev pub rows_affected : ℕ → (DemoStrategyRun D → Bool) → List (DemoStrategyRun D) → ℕ
  rows_affected id test rs = elim (select_run id rs) [ none ↦ 0 | some r ↦ if test r then 1 else 0 ]

module _ {D C : Type 0} where
  -- An UPDATE fails whole where it would leave two rows in the index `demo_strategy_one_active`.
  unfoldable pub update_run :
      ℕ
      → (DemoStrategyRun D → Bool)
      → (DemoStrategyRun D → DemoStrategyRun D)
      → Tables D C
      → Result DemoError (Tables D C × ℕ)
  update_run id test set t =
      let rs = set_where id test set t.runs in
      if leb (count_active rs) 1
      then ok (record t { runs = rs }, rows_affected id test t.runs)
      else err unique_violation

  -- `INSERT INTO demo_strategy_runs … ON CONFLICT(idempotency_key) DO NOTHING`: the rows affected,
  -- or the failure of another constraint.
  unfoldable pub insert_run : DemoStrategyRun D → Tables D C → Result DemoError (Tables D C × ℕ)
  insert_run r t = elim (select_key r.idempotency_key t.runs) [
    | some _ ↦ ok (t, 0)
    | none ↦
        if any_by (λ q. q.id == r.id) t.runs || ltb 1 (count_active (r ∷ t.runs))
        then err unique_violation
        else ok (record t { runs = r ∷ t.runs }, 1)
  ]

  -- `addDemoEvent`.
  unfoldable pub add_demo_event : Time → ℕ → String → String → ℕ → Tables D C → Tables D C
  add_demo_event now run_id kind summary http_status t = record t {
    events =
        t.events
        ++ record {
          run_id = run_id;
          at = now;
          kind = kind;
          summary = summary;
          http_status = http_status;
        }
          ∷ [];
  }

  -- One turn of `saveArtifacts`: an empty response is skipped, and `encrypt` fails where no nonce can
  -- be drawn.
  unfoldable pub save_artifact :
      (Bytes → Option C)
      → (Bytes → String)
      → ℕ
      → String
      → DemoArtifact
      → Tables D C
      → Result DemoError (Tables D C)
  save_artifact encrypt digest run_id phase a t =
      if length a.raw == 0 then ok t else elim (encrypt a.raw) [
        | none ↦ err storage
        | some c ↦ ok (record t {
          artifacts =
              t.artifacts
              ++ record {
                run_id = run_id;
                phase = phase;
                source = a.source;
                response_sha256 = digest a.raw;
                sealed = c;
              }
                ∷ [];
        })
      ]

  -- `saveArtifacts`.
  unfoldable pub save_artifacts :
      (Bytes → Option C)
      → (Bytes → String)
      → ℕ
      → String
      → List DemoArtifact
      → Tables D C
      → Result DemoError (Tables D C)
  save_artifacts encrypt digest run_id phase [] t = ok t
  save_artifacts encrypt digest run_id phase (a ∷ as') t =
      save_artifact encrypt digest run_id phase a t >>= λ u.
      save_artifacts encrypt digest run_id phase as' u
