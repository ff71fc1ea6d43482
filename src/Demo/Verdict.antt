-- ===== src/Demo/Verdict.antt =====
-- How evaluateDemo (internal/platform/demo_strategy.go) ends: at the first check that fails, or with a
-- plan after all of them.
use mfd.Demo.Checks.{empty_evaluation}
use mfd.Demo.Records.{Bytes, DemoEvaluation, DemoCheck}
use mfd.Demo.Evaluate.{fail_check, note_check, check_some, capture, check}
use mfd.Prelude.{
  ◌==◌, length, refl, [], ◌∷◌, ◌++◌, if◌then◌else◌, All, All-append, ok, false, List, err, none,
  some, Bool, true, Option, String, Result, ◌≡◌, ◌>>=◌,
}

abbrev pub HasPassed : DemoCheck → Type 0
HasPassed c = c.passed ≡ true

module _ {D : Type 0} where
  -- The evaluation while it goes on.
  pub record IsGoing (v : DemoEvaluation D) : Type 0 where
    pub no_plan : v.plan ≡ none
    pub no_reason : v.reason ≡ ""
    pub all_passed : All HasPassed v.checks

  -- The evaluation that a failed check ends: it is the last check, and its detail the reason.
  pub record IsStopped (v : DemoEvaluation D) : Type 0 where
    pub no_plan : v.plan ≡ none
    pub earlier : List DemoCheck
    pub last : DemoCheck
    pub checks-end : v.checks ≡ earlier ++ last ∷ []
    pub earlier-HasPassed : All HasPassed earlier
    pub last-failed : last.passed ≡ false
    pub reason-detail : v.reason ≡ last.detail

  pub empty_evaluation-IsGoing : IsGoing empty_evaluation
  empty_evaluation-IsGoing = record { no_plan = refl; no_reason = refl; all_passed = tt }

  abbrev Ends : {A : Type 0} → (A → Type 0) → Result (DemoEvaluation D) A → Type 0
  Ends P (err v) = IsStopped v
  Ends P (ok a) = P a

  -- A stage stops at a failed check, or goes on with `P`.
  pub record Leads {A : Type 0} (P : A → Type 0) (m : Result (DemoEvaluation D) A) : Type 0 where
    pub ends : Ends P m

  pub Leads-bind :
      {A B : Type 0} {P : A → Type 0} {Q : B → Type 0} {m : Result (DemoEvaluation D) A}
      {f : A → Result (DemoEvaluation D) B}
      → Leads P m
      → ((a : A) → P a → Leads Q (f a))
      → Leads Q (m >>= f)
  Leads-bind {m = err v} l k = record { ends = l.ends }
  Leads-bind {m = ok a} l k = k a l.ends

  pub Leads-ok : {A : Type 0} {P : A → Type 0} (a : A) → P a → Leads P (ok a)
  Leads-ok a h = record { ends = h }

  pub Leads-then :
      {A : Type 0} {P Q : A → Type 0} {m : Result (DemoEvaluation D) A}
      → Leads P m
      → ((a : A) → P a → Q a)
      → Leads Q m
  Leads-then {m = err v} l k = record { ends = l.ends }
  Leads-then {m = ok a} l k = record { ends = k a l.ends }

  note_check-IsGoing :
      (name detail : String) (v : DemoEvaluation D)
      → IsGoing v
      → IsGoing (note_check name true detail v)
  note_check-IsGoing name detail v g = record {
    no_plan = g.no_plan;
    no_reason = g.no_reason;
    all_passed = All-append HasPassed v.checks _ g.all_passed (refl, tt);
  }

  fail_check-IsStopped :
      (name detail : String) (v : DemoEvaluation D)
      → IsGoing v
      → IsStopped (fail_check name detail v)
  fail_check-IsStopped name detail v g = record {
    no_plan = g.no_plan;
    earlier = v.checks;
    last = record { name = name; passed = false; detail = detail };
    checks-end = refl;
    earlier-HasPassed = g.all_passed;
    last-failed = refl;
    reason-detail = rw g.no_reason refl;
  }

  pub Leads-check :
      (name detail : String) (b : Bool) (v : DemoEvaluation D)
      → IsGoing v
      → Leads (λ w. IsGoing w × (b ≡ true)) (check name b detail v)
  unfolding check
  Leads-check name detail true v g = record { ends = (note_check-IsGoing name detail v g, refl) }
  Leads-check name detail false v g = record { ends = fail_check-IsStopped name detail v g }

  pub Leads-check_some :
      {A : Type 0} (name detail : String) (o : Option A) (v : DemoEvaluation D)
      → IsGoing v
      → Leads (λ w. IsGoing w.0 × (o ≡ some w.1)) (check_some name o detail v)
  unfolding check_some
  Leads-check_some name detail (some a) v g = record {
    ends = (note_check-IsGoing name detail v g, refl);
  }
  Leads-check_some name detail none v g = record { ends = fail_check-IsStopped name detail v g }

  pub capture-IsGoing :
      (source : String) (raw : Bytes) (v : DemoEvaluation D)
      → IsGoing v
      → IsGoing (capture source raw v)
  unfolding capture
  capture-IsGoing source raw v g = go (length raw == 0)
    where
      go :
          (b : Bool)
          → IsGoing (
              if b then v else record v {
                artifacts = v.artifacts ++ record { source = source; raw = raw } ∷ [];
              })
      go true = g
      go false = record { no_plan = g.no_plan; no_reason = g.no_reason; all_passed = g.all_passed }
