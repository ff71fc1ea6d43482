-- ===== src/Demo/Posted.antt =====
-- DemoExecute and evaluateDemo (internal/platform/demo_strategy.go) together.
use mfd.Demo.Plans.{evaluate_demo_lem, IsPlanned}
use mfd.Demo.Guard.{demo_execute-Confirmed, Confirmed}
use mfd.Demo.Tables.{select_run}
use mfd.Demo.Session.{Session}
use mfd.Demo.Provider.{Provider}
use mfd.Demo.Checks.{evaluate_demo, EvaluationClocks}
use mfd.Prelude.Int.{ℤ}
use mfd.Demo.Execute.{demo_execute, SubmitReply, Clocks}
use mfd.Demo.Lookup.{LookupClient}
use mfd.Demo.Records.{DemoStrategyRun, Bytes}
use mfd.Decimal.{HasLaws, Decimals}
use mfd.Prelude.{inr, inl, none, some, ◌≡◌, ◌≢◌, Bool, String, Option, ℕ}

-- With evaluateDemo as its recheck, a DemoExecute that posts an order does so only for a ready,
-- unexpired, reviewed decision and only where the recheck passed every check.
pub demo_execute-IsPlanned :
    (d : Decimals) (laws : HasLaws d) {C B : Type 0} (encrypt : Bytes → Option C)
    (digest : Bytes → String) (sync : B → B) (lookups : Option LookupClient) (clocks : Clocks)
    (id : ℕ) (reply : SubmitReply) (account_id : Bytes → Option ℤ) (fingerprint : ℤ → String)
    (times : EvaluationClocks) (bound : Option (Provider d.D)) (enabled : Bool)
    (s : Session d.D C B)
    → let v = evaluate_demo d account_id fingerprint digest times bound enabled in
      (demo_execute d encrypt digest sync lookups clocks id v reply s).1.posts ≢ s.posts
      → ((run : DemoStrategyRun d.D) × (select_run id s.tables.runs ≡ some run)
          × Confirmed d clocks.guard run v)
        × IsPlanned d times bound enabled v
demo_execute-IsPlanned d laws encrypt digest sync lookups clocks id reply account_id fingerprint
      times bound enabled s h =
    let found =
      demo_execute-Confirmed d laws encrypt digest sync lookups clocks id
        (evaluate_demo d account_id fingerprint digest times bound enabled) reply s h in
    elim (evaluate_demo_lem d account_id fingerprint digest times bound enabled) [
      | inl stopped ↦ absurd (planless stopped.no_plan found.2.was_rechecked)
      | inr planned ↦ (found, planned)
    ]
  where
    planless : {A : Type 0} {o : Option A} {a : A} → o ≡ none → o ≡ some a → ⊥
    planless e f = cc
