-- ===== src/Demo/Guard.antt =====
-- What must hold for DemoExecute (internal/platform/demo_strategy.go) to post an order.
use mfd.Demo.Quiet.{quiet, demo_run-row, if_Quiet, Quiet-raise, Quiet-demo_run, Quiet}
use mfd.Demo.Lookup.{LookupClient}
use mfd.Prelude.Int.{◌≤ℤ◌}
use mfd.Demo.Execute.{
  moved_reason, has_ceiling, demo_execute, execute_plan, unexpired, with_plan, hold_demo,
  SubmitReply, Clocks, has_moved, is_executable,
}
use mfd.Decimal.{Le, HasLaws, Decimals}
use mfd.Demo.Tables.{select_run}
use mfd.Demo.Records.{
  intent_not_ready, Bytes, ready, DemoPlan, DemoEvaluation, DemoStrategyRun, Time, DemoError,
}
use mfd.Demo.Reads.{demo_probe_version, DemoRunView, demo_run}
use mfd.Prelude.{
  none, inr, inl, ◌≢◌, ◌⊎◌, List, String, Option, eq_iff, false, ◌∙◌, err, some, true, refl, ok,
  arith, ◌≡◌, Result, if◌then◌else◌, Bool,
}
use mfd.Demo.Session.{Session, raise, ◌>>=◌}
use Prim.Native.Nat.{ℕ}

-- The decision is ready and unexpired at `now`, and the plan that was rechecked is still the one that
-- was reviewed: same account, same instrument, and an ask within the reviewed ceiling.
pub record Confirmed (d : Decimals) (now : Time) (run : DemoStrategyRun d.D)
    (v : DemoEvaluation d.D) : Type 0 where
  pub is_still_ready : run.status ≡ ready
  pub version : run.strategy_version ≡ demo_probe_version
  pub expiry : Time
  pub expires : run.expires_at ≡ some expiry
  pub in_time : now ≤ℤ expiry
  pub reviewed : DemoPlan d.D
  pub was_reviewed : run.plan ≡ some reviewed
  pub market_order : reviewed.order_type ≡ "mkt"
  pub fresh : DemoPlan d.D
  pub was_rechecked : v.plan ≡ some fresh
  pub same_account : fresh.account_fingerprint ≡ reviewed.account_fingerprint
  pub same_instrument : fresh.instrument_id ≡ reviewed.instrument_id
  pub ceiling : d.D
  pub has_ceiling : reviewed.max_recheck_ask ≡ some ceiling
  pub within_ceiling : Le d fresh.ask ceiling

module _ (d : Decimals) (laws : HasLaws d) where
  confirm :
      (now : Time) (run : DemoStrategyRun d.D) (v : DemoEvaluation d.D) (p q : DemoPlan d.D)
      (at : Time) (c : d.D)
      → run.plan ≡ some p
      → v.plan ≡ some q
      → run.expires_at ≡ some at
      → p.max_recheck_ask ≡ some c
      → is_executable d now run ≡ true
      → has_moved d p q ≡ false
      → Confirmed d now run v
  confirm now run v p q at c ep eq ee ec x m = record {
    is_still_ready = ground arith;
    version = ground (arith, eq_iff run.strategy_version demo_probe_version);
    expiry = at;
    expires = ee;
    in_time = ground arith;
    reviewed = p;
    was_reviewed = ep;
    market_order = ground (arith, eq_iff p.order_type "mkt");
    fresh = q;
    was_rechecked = eq;
    same_account = ground (arith, eq_iff q.account_fingerprint p.account_fingerprint);
    same_instrument = ground arith;
    ceiling = c;
    has_ceiling = ec;
    within_ceiling = ground (arith, laws.greater_than-not q.ask c);
  }

module _ (d : Decimals) (laws : HasLaws d) {C B : Type 0} (encrypt : Bytes → Option C)
    (digest : Bytes → String) (sync : B → B) (client : Option LookupClient) (clocks : Clocks)
    (id : ℕ) (v : DemoEvaluation d.D) (reply : SubmitReply) where
  abbrev plan_posts : DemoPlan d.D → Option (DemoPlan d.D) → Session d.D C B → List ℕ
  plan_posts p fresh t =
      (execute_plan d encrypt digest sync client clocks id p v reply fresh t).1.posts

  Quiet-hold_demo :
      (now : Time) (reason : String) → Quiet (hold_demo d encrypt digest sync now id reason v)
  unfolding hold_demo
  Quiet-hold_demo now reason = search (quiet, Quiet-demo_run)

  -- Without a fresh plan, or with one that moved, nothing is posted.
  plan_cases :
      (p : DemoPlan d.D) (fresh : Option (DemoPlan d.D)) (t : Session d.D C B)
      → (plan_posts p fresh t ≡ t.posts)
        ⊎ ((q : DemoPlan d.D) × (fresh ≡ some q) × (has_moved d p q ≡ false))
  unfolding execute_plan
  plan_cases p none t = inl ((Quiet-hold_demo clocks.intent v.reason).same t)
  plan_cases p (some q) t =
      elim (if_Quiet (has_moved d p q) _ _ t (Quiet-hold_demo clocks.intent moved_reason)) [
        | inl same ↦ inl same
        | inr still ↦ inr (q, refl, still)
      ]

  -- A guard that passes saw an expiry and a ceiling.
  executable_parts :
      (run : DemoStrategyRun d.D) (p : DemoPlan d.D)
      → run.plan ≡ some p
      → is_executable d clocks.guard run ≡ true
      → (at : Time) × (c : d.D) × (run.expires_at ≡ some at) × (p.max_recheck_ask ≡ some c)
  executable_parts run p e x =
      let (at, ea) = expiry run.expires_at (ground arith) in
      let (c, ec) = ceiling p.max_recheck_ask (ground arith) in (at, c, ea, ec)
    where
      expiry : (o : Option Time) → unexpired clocks.guard o ≡ true → (at : Time) × (o ≡ some at)
      expiry none h = cc
      expiry (some at) h = (at, refl)

      ceiling : (o : Option d.D) → has_ceiling d o ≡ true → (c : d.D) × (o ≡ some c)
      ceiling none h = cc
      ceiling (some c) h = (c, refl)

  run_cases :
      (run : DemoStrategyRun d.D) (plan : Option (DemoPlan d.D)) (t : Session d.D C B)
      → run.plan ≡ plan
      → is_executable d clocks.guard run ≡ true
      → ((with_plan d encrypt digest sync plan
            (λ p. execute_plan d encrypt digest sync client clocks id p v reply v.plan)
            t).1.posts
          ≡ t.posts)
        ⊎ Confirmed d clocks.guard run v
  run_cases run none t e x = inl ((Quiet-raise intent_not_ready).same t)
  run_cases run (some p) t e x = elim (plan_cases p v.plan t) [
    | inl same ↦ inl same
    | inr (q, eq, still) ↦
        let (at, c, ea, ec) = executable_parts run p e x in
        inr (confirm d laws clocks.guard run v p q at c e eq ea ec x still)
  ]

  abbrev Posted : Session d.D C B → Type 0
  Posted s =
      (run : DemoStrategyRun d.D) × (select_run id s.tables.runs ≡ some run)
      × Confirmed d clocks.guard run v

  view_cases :
      (s t : Session d.D C B) (w : DemoRunView d.D) (b : Bool)
      → is_executable d clocks.guard w.run ≡ b
      → t.posts ≡ s.posts
      → select_run id s.tables.runs ≡ some w.run
      → (((if b
              then with_plan d encrypt digest sync w.run.plan
                  (λ p. execute_plan d encrypt digest sync client clocks id p v reply v.plan)
              else raise intent_not_ready)
            t).1.posts
          ≡ s.posts)
        ⊎ Posted s
  view_cases s t w true x quiet row = elim (run_cases w.run w.run.plan t refl x) [
    | inl same ↦ inl (same ∙ quiet)
    | inr sure ↦ inr (w.run, row, sure)
  ]
  view_cases s t w false x quiet row = inl ((Quiet-raise intent_not_ready).same t ∙ quiet)

  result_cases :
      (s : Session d.D C B) (r : Result DemoError (DemoRunView d.D) × Session d.D C B)
      → r.1.posts ≡ s.posts
      → ((w : DemoRunView d.D) → r.0 ≡ ok w → select_run id s.tables.runs ≡ some w.run)
      → ((elim r.0 as (λ _. Result DemoError (DemoRunView d.D) × Session d.D C B) [
        | ok w ↦
            (if is_executable d clocks.guard w.run
                then with_plan d encrypt digest sync w.run.plan
                    (λ p. execute_plan d encrypt digest sync client clocks id p v reply v.plan)
                else raise intent_not_ready)
              r.1
        | err e ↦ (err e, r.1)
      ]).1.posts
          ≡ s.posts)
        ⊎ Posted s
  result_cases s (ok w, t) quiet row = view_cases s t w _ refl quiet (row w refl)
  result_cases s (err e, t) quiet row = inl quiet

  execute_cases :
      (s : Session d.D C B)
      → ((demo_execute d encrypt digest sync client clocks id v reply s).1.posts ≡ s.posts)
        ⊎ Posted s
  unfolding demo_execute ◌>>=◌
  execute_cases s =
      result_cases s (demo_run id s) ((Quiet-demo_run id).same s) (λ w. demo_run-row id s)

  -- A DemoExecute that posts an order posts it for a decision that was ready, of the current
  -- version and unexpired, and after a recheck that found the reviewed account and instrument and
  -- an ask within the reviewed ceiling.
  pub demo_execute-Confirmed :
      (s : Session d.D C B)
      → (demo_execute d encrypt digest sync client clocks id v reply s).1.posts ≢ s.posts
      → (run : DemoStrategyRun d.D) × (select_run id s.tables.runs ≡ some run)
        × Confirmed d clocks.guard run v
  demo_execute-Confirmed s h = elim (execute_cases s) [
    | inl same ↦ absurd (h same)
    | inr found ↦ found
  ]
