-- ===== src/Demo/Lifecycle/Traces.antt =====
-- Handlers of demo_strategy.go as sequences of the actions of Steps: one rule for each way to build a
-- handler.
use mfd.Prelude.{◌≡◌, refl, Bool, true, false, if◌then◌else◌, Result, ok, err}
use mfd.Demo.Records.{Tables, DemoError}
use mfd.Demo.Session.{
  Session, Storage, stored, refused, lost_reply, next_fault, later_faults, Handler, ◌>>=◌, pure,
  raise, commit, transact, query,
}
use mfd.Demo.Lifecycle.Steps.{Step, idle, Reach, here, next, Reach-trans}

-- A handler's run is a sequence of actions.
pub record Traces {D C B A : Type 0} (m : Handler (Session D C B) A) : Type 0 where
  pub run : (s : Session D C B) → Reach s (m s).1

module _ {D C B A : Type 0} where
  pub Traces-pure : (a : A) → Traces {D = D} {C = C} {B = B} (pure a)
  unfolding pure
  Traces-pure a = record { run = λ s. here }

  pub Traces-raise : (e : DemoError) → Traces {D = D} {C = C} {B = B} {A = A} (raise e)
  unfolding raise
  Traces-raise e = record { run = λ s. here }

  pub Traces-query : (read : Tables D C → Result DemoError A) → Traces {B = B} (query read)
  unfolding query
  Traces-query read = record { run = λ s. next here (idle refl refl refl) }

  pub Traces-if :
      (b : Bool) (m n : Handler (Session D C B) A)
      → Traces m
      → Traces n
      → Traces (if b then m else n)
  Traces-if true m n p q = p
  Traces-if false m n p q = q

  commit-Traces :
      (f : Storage) (s : Session D C B) (r : Result DemoError (Tables D C × A))
      → ((u : Tables D C) (a : A)
          → r ≡ ok (u, a)
          → Step s (record s { tables = u; faults = later_faults s.faults }))
      → Reach s (commit f r (record s { faults = later_faults s.faults })).1
  commit-Traces refused s r h = next here (idle refl refl refl)
  commit-Traces stored s (ok (u, a)) h = next here (h u a refl)
  commit-Traces stored s (err e) h = next here (idle refl refl refl)
  commit-Traces lost_reply s (ok (u, a)) h = next here (h u a refl)
  commit-Traces lost_reply s (err e) h = next here (idle refl refl refl)

  pub Traces-transact :
      (body : Tables D C → Result DemoError (Tables D C × A))
      → ((s : Session D C B) (u : Tables D C) (a : A)
          → body s.tables ≡ ok (u, a)
          → Step s (record s { tables = u; faults = later_faults s.faults }))
      → Traces {B = B} (transact body)
  unfolding transact
  Traces-transact body h = record {
    run = λ s. commit-Traces (next_fault s.faults) s (body s.tables) (h s);
  }

module _ {D C B A E : Type 0} where
  pub Traces-bind :
      (m : Handler (Session D C B) A) (f : A → Handler (Session D C B) E)
      → Traces m
      → ((a : A) → Traces (f a))
      → Traces (m >>= f)
  unfolding ◌>>=◌
  Traces-bind m f p q = record { run = λ s. rest s (m s) (p.run s) }
    where
      rest :
          (s : Session D C B) (r : Result DemoError A × Session D C B)
          → Reach s r.1
          → Reach s
              (elim r.0 as (λ x. Result DemoError E × Session D C B) [
                | ok a ↦ f a r.1
                | err e ↦ (err e, r.1)
              ]).1
      rest s (ok a, t) h = Reach-trans h ((q a).run t)
      rest s (err e, t) h = h

pub ruleset tracing = (Traces-pure, Traces-raise, Traces-query, Traces-if, Traces-bind)
