-- ===== src/Demo/Settled.antt =====
-- The outcome of an unresolved decision can be stored: the transactions of recordDemoSubmit,
-- DemoReconcile and markDemoUnknown (internal/platform/demo_strategy.go) on the tables that calls leave.
use mfd.Prelude.{
  ◌>>=◌, ◌++◌, ℕ, String, Bool, true, false, List, [], ◌∷◌, Option, some, Result, ok, ◌≡◌, refl,
  arith, length, ◌==◌, ◌≤◌, if◌then◌else◌,
}
use Prim.Native.String.{◌++◌ as concat}
use mfd.Demo.Records.{
  Time, Bytes, Tables, DemoError, DemoArtifact, DemoStrategyRun, RunStatus, submitting, is_active,
  is_submitting,
}
use mfd.Demo.Tables.{set_where, count_active, save_artifact, save_artifacts, add_demo_event}
use mfd.Demo.Transactions.{
  Outcome, OrderLookup, submit_tx, lookup_tx, unknown_tx, submit_row, lookup_row, unknown_row,
  order_path, order_lookup_path,
}
use mfd.Demo.Outcomes.{update_run-settles}
use mfd.Demo.Session.{Session}
use mfd.Demo.Lifecycle.Edges.{status_at}
use mfd.Demo.Lifecycle.Operations.{Operation, perform_all, perform_all-once}
use mfd.Decimal.{Decimals}

pub submitting-is_active : (a : RunStatus) → is_submitting a ≡ true → is_active a ≡ true
submitting-is_active a h = ground arith

module _ {D : Type 0} where
  set_where-status :
      (id : ℕ) (test : RunStatus → Bool) (set : DemoStrategyRun D → DemoStrategyRun D)
      (a b : RunStatus) (rs : List (DemoStrategyRun D))
      → ((r : DemoStrategyRun D) → (set r).id ≡ r.id)
      → ((r : DemoStrategyRun D) → (set r).status ≡ b)
      → test a ≡ true
      → status_at id rs ≡ some a
      → status_at id (set_where id (λ r. test r.status) set rs) ≡ some b
  set_where-status id test set a b [] same becomes h e = cc
  set_where-status id test set a b (r ∷ rs) same becomes h e =
      ground (arith, same r, becomes r, h, e, set_where-status id test set a b rs same becomes h)

module _ {D C : Type 0} (encrypt : Bytes → Option C) (digest : Bytes → String) where
  -- One sealed response is saved.
  save_artifacts-ok :
      (id : ℕ) (phase : String) (a : DemoArtifact) (sealed : C) (t : Tables D C)
      → encrypt a.raw ≡ some sealed
      → (u : Tables D C) × (save_artifacts encrypt digest id phase (a ∷ []) t ≡ ok u)
        × (u.runs ≡ t.runs)
  unfolding save_artifacts save_artifact
  save_artifacts-ok id phase a sealed t e = rw (e, save_artifacts) (by_length (length a.raw == 0))
    where
      saved : Tables D C
      saved = record t {
        artifacts =
            t.artifacts
            ++ record {
              run_id = id;
              phase = phase;
              source = a.source;
              response_sha256 = digest a.raw;
              sealed = sealed;
            }
              ∷ [];
      }

      by_length :
          (b : Bool)
          → (u : Tables D C) × (◌≡◌ {A = Result DemoError (Tables D C)}
              (◌>>=◌ {U = Tables D C} (if b then ok t else ok saved) (λ v. ok v))
              (ok u))
            × (u.runs ≡ t.runs)
      by_length true = (t, refl, refl)
      by_length false = (saved, refl, refl)

  submit_tx-stores :
      (now : Time) (id : ℕ) (o : Outcome) (http_status order_id : ℕ) (raw : Bytes) (sealed : C)
      (t : Tables D C)
      → count_active t.runs ≤ 1
      → encrypt raw ≡ some sealed
      → status_at id t.runs ≡ some submitting
      → (u : Tables D C) × (submit_tx encrypt digest now id o http_status order_id raw t
          ≡ ok (u, tt))
        × (status_at id u.runs ≡ some o.state)
  unfolding submit_tx add_demo_event
  submit_tx-stores now id o http_status order_id raw sealed t one e h =
      let set = submit_row {D = D} now o order_id in
      let updated =
        update_run-settles id (λ r. is_submitting r.status) set t one
          (λ r k. submitting-is_active r.status k) in
      let rs = set_where id (λ r. is_submitting r.status) set t.runs in
      let (u, saved, same) =
        save_artifacts-ok id "submit" (record { source = order_path; raw = raw }) sealed
          (record t { runs = rs }) e in
      (
        add_demo_event now id o.event o.reason http_status u,
        rw (updated, submit_tx, saved) refl,
        rw same (
            set_where-status id is_submitting set submitting o.state t.runs (λ r. refl) (λ r. refl)
              refl h),
      )

  lookup_tx-stores :
      (now : Time) (id : ℕ) (a state : RunStatus) (reason : String) (l : OrderLookup)
      (by_order_id : Bool) (http_status : ℕ) (raw : Bytes) (sealed : C) (t : Tables D C)
      → count_active t.runs ≤ 1
      → encrypt raw ≡ some sealed
      → is_active a ≡ true
      → status_at id t.runs ≡ some a
      → (u : Tables D C) × (lookup_tx encrypt digest now id state reason l by_order_id http_status
            raw t
          ≡ ok (u, tt))
        × (status_at id u.runs ≡ some state)
  unfolding lookup_tx add_demo_event
  lookup_tx-stores now id a state reason l by_order_id http_status raw sealed t one e active h =
      let set = lookup_row {D = D} now state reason l in
      let updated = update_run-settles id (λ r. is_active r.status) set t one (λ r k. k) in
      let rs = set_where id (λ r. is_active r.status) set t.runs in
      let (u, saved, same) =
        save_artifacts-ok id "lookup" (record { source = order_lookup_path; raw = raw }) sealed
          (record t { runs = rs }) e in
      (
        add_demo_event now id "broker_lookup"
            (if by_order_id
              then concat
                  "Reference lookup returned 404; order-ID lookup resolved the broker state. "
                  reason
              else reason)
            http_status u,
        rw (updated, lookup_tx, saved) refl,
        rw same (set_where-status id is_active set a state t.runs (λ r. refl) (λ r. refl) active h),
      )

  unknown_tx-stores :
      (now : Time) (id http_status : ℕ) (raw : Bytes) (sealed : C) (t : Tables D C)
      → count_active t.runs ≤ 1
      → encrypt raw ≡ some sealed
      → status_at id t.runs ≡ some submitting
      → (u : Tables D C) × (unknown_tx encrypt digest now id http_status raw t ≡ ok (u, tt))
        × (status_at id u.runs ≡ some RunStatus.unknown)
  unfolding unknown_tx add_demo_event
  unknown_tx-stores now id http_status raw sealed t one e h =
      let set = unknown_row {D = D} now in
      let updated =
        update_run-settles id (λ r. is_submitting r.status) set t one
          (λ r k. submitting-is_active r.status k) in
      let rs = set_where id (λ r. is_submitting r.status) set t.runs in
      let (u, saved, same) =
        save_artifacts-ok id "lookup" (record { source = order_lookup_path; raw = raw }) sealed
          (record t { runs = rs }) e in
      (
        add_demo_event now id "broker_lookup_unknown"
            "Broker lookup did not resolve the submission; no retry is allowed." http_status u,
        rw (updated, unknown_tx, saved) refl,
        rw same (
            set_where-status id is_submitting set submitting RunStatus.unknown t.runs (λ r. refl)
              (λ r. refl) refl h),
      )

module _ (d : Decimals) {C B : Type 0} (encrypt : Bytes → Option C) (digest : Bytes → String)
    (sync : B → B) where
  -- After any sequence of Demo strategy calls from an empty database, the body of each transaction that
  -- stores an outcome succeeds where the broker's response can be sealed, and leaves the outcome as the
  -- decision's status: recordDemoSubmit's and markDemoUnknown's for a decision that is being submitted,
  -- DemoReconcile's for every unresolved one. The unique index does not stand in the way.
  pub perform_all-stores :
      (os : List (Operation d.D)) (s : Session d.D C B) (now : Time) (id http_status : ℕ)
      (raw : Bytes) (sealed : C)
      → s.tables.runs ≡ []
      → s.intents ≡ []
      → s.posts ≡ []
      → encrypt raw ≡ some sealed
      → let t = (perform_all d encrypt digest sync os s).tables in
        ((o : Outcome) (order_id : ℕ)
          → status_at id t.runs ≡ some submitting
          → (u : Tables d.D C) × (submit_tx encrypt digest now id o http_status order_id raw t
              ≡ ok (u, tt))
            × (status_at id u.runs ≡ some o.state))
        × ((a state : RunStatus) (reason : String) (l : OrderLookup) (by_order_id : Bool)
            → is_active a ≡ true
            → status_at id t.runs ≡ some a
            → (u : Tables d.D C) × (lookup_tx encrypt digest now id state reason l by_order_id
                  http_status raw t
                ≡ ok (u, tt))
              × (status_at id u.runs ≡ some state))
        × (status_at id t.runs ≡ some submitting
            → (u : Tables d.D C) × (unknown_tx encrypt digest now id http_status raw t ≡ ok (u, tt))
              × (status_at id u.runs ≡ some RunStatus.unknown))
  perform_all-stores os s now id http_status raw sealed e f g seals =
      let t = (perform_all d encrypt digest sync os s).tables in
      let one = (perform_all-once d encrypt digest sync os s e f g).1 in
      (
        λ o order_id h.
            submit_tx-stores encrypt digest now id o http_status order_id raw sealed t one seals h,
        λ a state reason l by_order_id active h.
            lookup_tx-stores encrypt digest now id a state reason l by_order_id http_status raw
              sealed t one seals active h,
        λ h. unknown_tx-stores encrypt digest now id http_status raw sealed t one seals h,
      )
