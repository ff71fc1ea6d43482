-- ===== src/Demo/Lifecycle/Runs.antt =====
-- What each transaction does to the rows of `demo_strategy_runs`.
use mfd.Prelude.{
  ℕ, String, ◌≤◌, ◌≡◌, ◌≢◌, refl, ◌∙◌, inl, inr, Bool, true, false, not, Option, none, List, [],
  ◌∷◌, ◌==◌, if◌then◌else◌, Result, ok, err, arith, ◌>>=◌, fail_if-eq-ok, >>=-eq-ok, Bool-cases,
  any_by,
}
use mfd.Demo.Records.{
  Time, Bytes, RunStatus, is_active, is_ready, is_submitting, DemoStrategyRun, DemoEvaluation,
  DemoArtifact, Tables, DemoError,
}
use mfd.Demo.Tables.{
  count_active, save_artifact, select_key, set_where, rows_affected, update_run, insert_run,
  add_demo_event, save_artifacts,
}
use mfd.Demo.Transactions.{
  hold_row, intent_row, submit_row, lookup_row, unknown_row, may_launch, as_active_intent, Outcome,
  OrderLookup, preview_tx, hold_tx, intent_tx, submit_tx, lookup_tx, unknown_tx,
}

-- A successful UPDATE of the row `id`: the rows after it, and the unique index that it satisfies.
abbrev pub Changed :
    {D : Type 0}
    → ℕ
    → (DemoStrategyRun D → Bool)
    → (DemoStrategyRun D → DemoStrategyRun D)
    → List (DemoStrategyRun D)
    → List (DemoStrategyRun D)
    → Type 0
Changed id test set rs qs = (qs ≡ set_where id test set rs) × (count_active qs ≤ 1)

as_active_intent-ok :
    {A : Type 0} (r : Result DemoError A) {a : A} → as_active_intent r ≡ ok a → r ≡ ok a
as_active_intent-ok (ok a) h = h
as_active_intent-ok (err DemoError.unique_violation) h = cc
as_active_intent-ok (err DemoError.storage) h = cc
as_active_intent-ok (err DemoError.no_rows) h = cc
as_active_intent-ok (err DemoError.intent_not_ready) h = cc
as_active_intent-ok (err DemoError.active_intent) h = cc

-- A preview inserts its row under a new id, or finds the key taken and changes nothing.
abbrev pub Inserted :
    {D : Type 0}
    → DemoStrategyRun D
    → List (DemoStrategyRun D)
    → List (DemoStrategyRun D)
    → Bool
    → Type 0
Inserted r rs qs true =
    (qs ≡ r ∷ rs)
    × (any_by (λ q. q.id == r.id) rs ≡ false)
    × (count_active qs ≤ 1)
    × (select_key r.idempotency_key rs ≡ none)
Inserted r rs qs false = (qs ≡ rs) × (select_key r.idempotency_key rs ≢ none)

module _ {D C : Type 0} where
  save_artifact-runs :
      (encrypt : Bytes → Option C) (digest : Bytes → String) (id : ℕ) (phase : String)
      (a : DemoArtifact) (t : Tables D C) {u : Tables D C}
      → save_artifact encrypt digest id phase a t ≡ ok u
      → u.runs ≡ t.runs
  unfolding save_artifact
  save_artifact-runs encrypt digest id phase a t h = ground arith

  -- Evidence leaves the rows alone.
  save_artifacts-runs :
      (encrypt : Bytes → Option C) (digest : Bytes → String) (id : ℕ) (phase : String)
      (as' : List DemoArtifact) (t : Tables D C) {u : Tables D C}
      → save_artifacts encrypt digest id phase as' t ≡ ok u
      → u.runs ≡ t.runs
  unfolding save_artifacts
  save_artifacts-runs encrypt digest id phase [] t h = ground arith
  save_artifacts-runs encrypt digest id phase (a ∷ as') t h =
      let (v, p, q) =
        >>=-eq-ok (save_artifact encrypt digest id phase a t)
          (λ v. save_artifacts encrypt digest id phase as' v) h in
      save_artifacts-runs encrypt digest id phase as' v q
      ∙ save_artifact-runs encrypt digest id phase a t p

  update_run-Changed :
      (id : ℕ) (test : DemoStrategyRun D → Bool) (set : DemoStrategyRun D → DemoStrategyRun D)
      (t : Tables D C) {u : Tables D C} {n : ℕ}
      → update_run id test set t ≡ ok (u, n)
      → Changed id test set t.runs u.runs × (n ≡ rows_affected id test t.runs)
  unfolding update_run
  update_run-Changed id test set t h = ground arith

  -- How a transaction ends: it keeps the evidence and adds an event.
  abbrev with_evidence :
      (Bytes → Option C)
      → (Bytes → String)
      → ℕ
      → String
      → List DemoArtifact
      → (Tables D C → Tables D C)
      → Tables D C
      → Result DemoError (Tables D C × Unit {0})
  with_evidence encrypt digest id phase as' add t =
      save_artifacts encrypt digest id phase as' t >>= λ v. ok (add v, tt)

  with_evidence-runs :
      (encrypt : Bytes → Option C) (digest : Bytes → String) (id : ℕ) (phase : String)
      (as' : List DemoArtifact) (add : Tables D C → Tables D C) (t : Tables D C) {u : Tables D C}
      → ((v : Tables D C) → (add v).runs ≡ v.runs)
      → with_evidence encrypt digest id phase as' add t ≡ ok (u, tt)
      → u.runs ≡ t.runs
  with_evidence-runs encrypt digest id phase as' add t keep h =
      let (v, p, q) = >>=-eq-ok (save_artifacts encrypt digest id phase as' t) _ h in
      ground (arith, keep v, save_artifacts-runs encrypt digest id phase as' t p, q)

  update-Changed :
      (id : ℕ) (test : DemoStrategyRun D → Bool) (set : DemoStrategyRun D → DemoStrategyRun D)
      (encrypt : Bytes → Option C) (digest : Bytes → String) (phase : String)
      (as' : List DemoArtifact) (add : Tables D C → Tables D C) (t : Tables D C) {u : Tables D C}
      → ((v : Tables D C) → (add v).runs ≡ v.runs)
      → (update_run id test set t >>= λ r. with_evidence encrypt digest id phase as' add r.0)
        ≡ ok (u, tt)
      → Changed id test set t.runs u.runs
  update-Changed id test set encrypt digest phase as' add t keep h =
      let (r, p, q) = >>=-eq-ok (update_run id test set t) _ h in
      rw (with_evidence-runs encrypt digest id phase as' add r.0 keep q)
        (update_run-Changed id test set t {u = r.0} {n = r.1} p).0

  pub hold_tx-Changed :
      (encrypt : Bytes → Option C) (digest : Bytes → String) (now : Time) (id : ℕ) (reason : String)
      (evaluation : DemoEvaluation D) (t : Tables D C) {u : Tables D C}
      → hold_tx encrypt digest now id reason evaluation t ≡ ok (u, tt)
      → Changed id (λ r. is_ready r.status) (hold_row now reason evaluation) t.runs u.runs
  unfolding hold_tx add_demo_event
  hold_tx-Changed encrypt digest now id reason evaluation t h =
      update-Changed id _ _ encrypt digest _ _ _ t (λ v. refl) h

  pub submit_tx-Changed :
      (encrypt : Bytes → Option C) (digest : Bytes → String) (now : Time) (id : ℕ) (o : Outcome)
      (http_status order_id : ℕ) (raw : Bytes) (t : Tables D C) {u : Tables D C}
      → submit_tx encrypt digest now id o http_status order_id raw t ≡ ok (u, tt)
      → Changed id (λ r. is_submitting r.status) (submit_row now o order_id) t.runs u.runs
  unfolding submit_tx add_demo_event
  submit_tx-Changed encrypt digest now id o http_status order_id raw t h =
      update-Changed id _ _ encrypt digest _ _ _ t (λ v. refl) h

  pub lookup_tx-Changed :
      (encrypt : Bytes → Option C) (digest : Bytes → String) (now : Time) (id : ℕ)
      (state : RunStatus) (reason : String) (lookup : OrderLookup) (by_order_id : Bool)
      (http_status : ℕ) (raw : Bytes) (t : Tables D C) {u : Tables D C}
      → lookup_tx encrypt digest now id state reason lookup by_order_id http_status raw t
        ≡ ok (u, tt)
      → Changed id (λ r. is_active r.status) (lookup_row now state reason lookup) t.runs u.runs
  unfolding lookup_tx add_demo_event
  lookup_tx-Changed encrypt digest now id state reason lookup by_order_id http_status raw t h =
      update-Changed id _ _ encrypt digest _ _ _ t (λ v. refl) h

  pub unknown_tx-Changed :
      (encrypt : Bytes → Option C) (digest : Bytes → String) (now : Time) (id http_status : ℕ)
      (raw : Bytes) (t : Tables D C) {u : Tables D C}
      → unknown_tx encrypt digest now id http_status raw t ≡ ok (u, tt)
      → Changed id (λ r. is_submitting r.status) (unknown_row now) t.runs u.runs
  unfolding unknown_tx add_demo_event
  unknown_tx-Changed encrypt digest now id http_status raw t h =
      update-Changed id _ _ encrypt digest _ _ _ t (λ v. refl) h

  -- The submit intent changes one row: the decision was ready, and had not expired.
  pub intent_tx-Changed :
      (encrypt : Bytes → Option C) (digest : Bytes → String) (now : Time) (id : ℕ)
      (as' : List DemoArtifact) (t : Tables D C) {u : Tables D C}
      → intent_tx encrypt digest now id as' t ≡ ok (u, tt)
      → Changed id (may_launch now) (intent_row now id) t.runs u.runs
        × (rows_affected id (may_launch now) t.runs ≡ 1)
  unfolding intent_tx add_demo_event
  intent_tx-Changed encrypt digest now id as' t h =
      let (r, p, q) =
        >>=-eq-ok (as_active_intent (update_run id (may_launch now) (intent_row now id) t)) _ h in
      let c =
        update_run-Changed id (may_launch now) (intent_row now id) t {u = r.0} {n = r.1}
          (as_active_intent-ok (update_run id (may_launch now) (intent_row now id) t) p) in
      let (b, k) = fail_if-eq-ok (not (r.1 == 1)) _ _ q in
      let e = with_evidence-runs encrypt digest id _ as' _ r.0 (λ v. refl) k in
      ground (arith, b, c, e)

  insert_run-Inserted :
      (r : DemoStrategyRun D) (t : Tables D C) {u : Tables D C} {n : ℕ}
      → insert_run r t ≡ ok (u, n)
      → Inserted r t.runs u.runs (not (n == 0))
  unfolding insert_run
  insert_run-Inserted r t h = ground arith

  preview-Inserted :
      (encrypt : Bytes → Option C) (digest : Bytes → String) (r : DemoStrategyRun D)
      (as' : List DemoArtifact) (add : Tables D C → Tables D C) (t : Tables D C)
      (q : Tables D C × ℕ) {u : Tables D C} {b : Bool}
      → ((v : Tables D C) → (add v).runs ≡ v.runs)
      → Inserted r t.runs q.0.runs (not (q.1 == 0))
      → if◌then◌else◌ {A = Result DemoError (Tables D C × Bool)} (q.1 == 0) (ok (q.0, false)) (
          ◌>>=◌ {U = Tables D C × Bool}
            (save_artifacts encrypt digest r.id "preview" as' q.0)
            (λ v. ok (add v, true)))
        ≡ ok (u, b)
      → Inserted r t.runs u.runs b
  preview-Inserted encrypt digest r as' add t q {u} {b} keep i h = elim (Bool-cases (q.1 == 0)) [
    | inl e ↦ ground (arith, e)
    | inr e ↦
        let saved : (save_artifacts encrypt digest r.id "preview" as' q.0 >>= λ v. ok (add v, true))
            ≡ ok (u, b) =
          rw e at h in
        let (v, p, k) = >>=-eq-ok (save_artifacts encrypt digest r.id "preview" as' q.0) _ saved in
        ground (arith, e, keep v, k, save_artifacts-runs encrypt digest r.id "preview" as' q.0 p)
  ]

  pub preview_tx-Inserted :
      (encrypt : Bytes → Option C) (digest : Bytes → String) (now : Time) (r : DemoStrategyRun D)
      (decision : String) (as' : List DemoArtifact) (t : Tables D C) {u : Tables D C} {b : Bool}
      → preview_tx encrypt digest now r decision as' t ≡ ok (u, b)
      → Inserted r t.runs u.runs b
  unfolding preview_tx add_demo_event
  preview_tx-Inserted encrypt digest now r decision as' t h =
      let (q, p, k) = >>=-eq-ok (insert_run r t) _ h in
      preview-Inserted encrypt digest r as' _ t q (λ v. refl) (insert_run-Inserted r t p) k
