-- ===== src/Demo/Idempotent.antt =====
-- DemoPreview (internal/platform/demo_strategy.go) decides once for each idempotency key.
use mfd.Demo.Transactions.{preview_tx}
use mfd.Demo.Lifecycle.Runs.{preview_tx-Inserted, Inserted}
use mfd.Demo.Quiet.{demo_run-row}
use mfd.Demo.Tables.{select_run, select_key}
use mfd.Demo.Reads.{
  by_existing, demo_preview, preview_label, preview_row, save_preview, found, DemoRunView, demo_run,
}
use mfd.Demo.Records.{Tables, DemoEvaluation, Time, DemoError, DemoStrategyRun, Bytes}
use mfd.Demo.Session.{
  raise, commit, lost_reply, refused, stored, next_fault, answer, Storage, transact, later_faults,
  pure, ◌>>=◌, query, Session,
}
use text.Mathlib.TextPositions.{eq_refl}
use Prim.Native.String.{◌++◌ as concat}
use mfd.Prelude.{
  ap, sym, ◌∙◌, none, false, true, if◌then◌else◌, [], Bool, refl, ◌∷◌, err, arith, some, ok, ◌≡◌,
  Option, Result, List, String, ℕ,
}

module _ {D : Type 0} where
  select_run-id :
      (id : ℕ) (rs : List (DemoStrategyRun D)) {r : DemoStrategyRun D}
      → select_run id rs ≡ some r
      → r.id ≡ id
  select_run-id id [] h = cc
  select_run-id id (q ∷ rs) {r} h = ground (arith, select_run-id id rs {r = r})

module _ {D C B : Type 0} where
  demo_run-tables : (id : ℕ) (s : Session D C B) → (demo_run id s).1.tables ≡ s.tables
  unfolding demo_run query ◌>>=◌ pure
  demo_run-tables id s = ground arith

  demo_run-id :
      (id : ℕ) (s : Session D C B) {w : DemoRunView D} → (demo_run id s).0 ≡ ok w → w.run.id ≡ id
  demo_run-id id s {w} h = select_run-id id s.tables.runs (demo_run-row id s {v = w} h)

  -- The key has a row, and that is the row that was returned.
  abbrev Keyed : String → Result DemoError (DemoRunView D) × Session D C B → Type 0
  Keyed key (err e, t) = Unit
  Keyed key (ok w, t) =
      (r : DemoStrategyRun D) × (select_key key t.tables.runs ≡ some r) × (w.run.id ≡ r.id)

  demo_run-Keyed :
      (key : String) (r : DemoStrategyRun D) (s : Session D C B)
      → select_key key s.tables.runs ≡ some r
      → Keyed key (demo_run r.id s)
  demo_run-Keyed key r s h =
      go (demo_run r.id s) (demo_run-tables r.id s) (λ w. demo_run-id r.id s {w = w})
    where
      go :
          (x : Result DemoError (DemoRunView D) × Session D C B)
          → x.1.tables ≡ s.tables
          → ((w : DemoRunView D) → x.0 ≡ ok w → w.run.id ≡ r.id)
          → Keyed key x
      go (err e, t) k i = tt
      go (ok w, t) k i = (r, rw k h, i w refl)

module _ {D C B : Type 0} (encrypt : Bytes → Option C) (digest : Bytes → String)
    (key : String) where
  reread-Keyed :
      (s : Session D C B)
      → Keyed key (
          (do
            row_again ← query (λ t. found (select_key key t.runs))
            demo_run {D = D} {C = C} {B = B} row_again.id)
            s)
  unfolding ◌>>=◌ query
  reread-Keyed s = go (next_fault s.faults) (select_key key s.tables.runs) refl
    where
      s' : Session D C B
      s' = record s { faults = later_faults s.faults }

      go :
          (f : Storage) (o : Option (DemoStrategyRun D))
          → select_key key s.tables.runs ≡ o
          → Keyed key
              (elim (answer f (found o))
                as (λ _. Result DemoError (DemoRunView D) × Session D C B) [
                  | ok a ↦ demo_run a.id s'
                  | err e ↦ (err e, s')
                ])
      go stored none e = tt
      go refused none e = tt
      go lost_reply none e = tt
      go refused (some r) e = tt
      go lost_reply (some r) e = tt
      go stored (some r) e = demo_run-Keyed key r s' e

  Inserted-Keyed :
      (row : DemoStrategyRun D) (s : Session D C B) (b : Bool) (old : List (DemoStrategyRun D))
      → row.idempotency_key ≡ key
      → Inserted row old s.tables.runs b
      → Keyed key (
          (if b
              then demo_run {D = D} {C = C} {B = B} row.id
              else do row_again ← query (λ t. found (select_key key t.runs)); demo_run row_again.id)
            s)
  Inserted-Keyed row s true old e i = demo_run-Keyed key row s (rw (i.0, e, eq_refl key))
  Inserted-Keyed row s false old e i = reread-Keyed s

  save_preview-Keyed :
      (fresh : ℕ) (now db_now : Time) (v : DemoEvaluation D) (s : Session D C B)
      → Keyed key (save_preview encrypt digest key fresh now db_now v s)
  unfolding save_preview transact ◌>>=◌
  save_preview-Keyed fresh now db_now v s =
      go (next_fault s.faults) (preview_tx encrypt digest db_now row decision v.artifacts s.tables)
        refl
    where
      row : DemoStrategyRun D
      row = preview_row key fresh now db_now v

      decision : String
      decision = concat (preview_label v.plan) v.reason

      go :
          (f : Storage) (r : Result DemoError (Tables D C × Bool))
          → preview_tx encrypt digest db_now row decision v.artifacts s.tables ≡ r
          → Keyed key (
              let (a, s') = commit f r (record s { faults = later_faults s.faults }) in
              elim a as (λ _. Result DemoError (DemoRunView D) × Session D C B) [
                | ok b ↦
                    (if b then demo_run {D = D} {C = C} {B = B} fresh else do
                      row_again ← query (λ t. found (select_key key t.runs))
                      demo_run row_again.id)
                      s'
                | err e ↦ (err e, s')
              ])
      go refused (ok (u, b)) e = tt
      go refused (err x) e = tt
      go lost_reply (ok (u, b)) e = tt
      go lost_reply (err x) e = tt
      go stored (err x) e = tt
      go stored (ok (u, b)) e =
          Inserted-Keyed row _ b s.tables.runs refl
            (preview_tx-Inserted encrypt digest db_now row decision v.artifacts s.tables e)

  demo_preview-Keyed :
      (fresh : ℕ) (now db_now : Time) (v : DemoEvaluation D) (s : Session D C B)
      → Keyed key (demo_preview encrypt digest key fresh now db_now v s)
  unfolding demo_preview query raise
  demo_preview-Keyed fresh now db_now v s =
      go (next_fault s.faults) (select_key key s.tables.runs) refl
    where
      s' : Session D C B
      s' = record s { faults = later_faults s.faults }

      go :
          (f : Storage) (o : Option (DemoStrategyRun D))
          → select_key key s.tables.runs ≡ o
          → Keyed key (
              by_existing
                (λ r. demo_run r.id)
                (save_preview encrypt digest key fresh now db_now v)
                (answer f (found o))
                s')
      go stored none e = save_preview-Keyed fresh now db_now v s'
      go refused none e = tt
      go lost_reply none e = tt
      go refused (some r) e = tt
      go lost_reply (some r) e = tt
      go stored (some r) e = demo_run-Keyed key r s' e

  -- A key that has a row: the row is read, and nothing is written.
  again :
      (fresh : ℕ) (now db_now : Time) (v : DemoEvaluation D) (t : Session D C B)
      (r : DemoStrategyRun D) {w : DemoRunView D} {u : Session D C B}
      → select_key key t.tables.runs ≡ some r
      → demo_preview encrypt digest key fresh now db_now v t ≡ (ok w, u)
      → (u.tables ≡ t.tables) × (w.run.id ≡ r.id)
  unfolding demo_preview query raise
  again fresh now db_now v t r {w} {u} e h = go (next_fault t.faults) (rw e at h)
    where
      t' : Session D C B
      t' = record t { faults = later_faults t.faults }

      go :
          (f : Storage)
          → by_existing
              (λ q. demo_run q.id)
              (save_preview encrypt digest key fresh now db_now v)
              (answer f (ok r))
              t'
            ≡ (ok w, u)
          → (u.tables ≡ t.tables) × (w.run.id ≡ r.id)
      go refused h = cc
      go lost_reply h = cc
      go stored h =
          ground (arith, demo_run-tables r.id t', demo_run-id r.id t' {w = w} (ap (λ x. x.0) h), h)

  -- Two previews under one idempotency key: the second changes no table and returns the decision of
  -- the first, whatever the evaluations found.
  pub demo_preview_idempotent :
      (fresh fresh' : ℕ) (now now' db_now db_now' : Time) (v v' : DemoEvaluation D)
      (s t u : Session D C B) (w w' : DemoRunView D)
      → demo_preview encrypt digest key fresh now db_now v s ≡ (ok w, t)
      → demo_preview encrypt digest key fresh' now' db_now' v' t ≡ (ok w', u)
      → (u.tables ≡ t.tables) × (w'.run.id ≡ w.run.id)
  demo_preview_idempotent fresh fresh' now now' db_now db_now' v v' s t u w w' h k =
      let (r, e, i) = rw h at (demo_preview-Keyed fresh now db_now v s) in
      let (same, j) = again fresh' now' db_now' v' t r e k in (same, j ∙ sym i)
