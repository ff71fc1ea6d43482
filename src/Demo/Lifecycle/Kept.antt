-- ===== src/Demo/Lifecycle/Kept.antt =====
-- What the Demo strategy's methods (internal/platform/demo_strategy.go) do to the rest of the
-- BrokerService: only syncDemoAfterOrder touches it. One rule for each way to build a handler.
use mfd.Prelude.{Bool, true, false, List, [], ◌∷◌, Result, ok, err, if◌then◌else◌, ℕ}
use mfd.Demo.Records.{Tables, DemoError, DemoStrategyRun}
use mfd.Demo.Session.{
  Session, Storage, stored, refused, lost_reply, Handler, ◌>>=◌, pure, raise, commit, transact,
  query,
}
use mfd.Demo.Reads.{with_events, demo_run, demo_runs}

-- A handler keeps what holds of the rest of the service.
pub record Keeps {D C B A : Type 0} (P : B → Type 0) (m : Handler (Session D C B) A) : Type 0 where
  pub kept : (s : Session D C B) → P s.broker → P (m s).1.broker

module _ {D C B A : Type 0} (P : B → Type 0) where
  pub Keeps-pure : (a : A) → Keeps {D = D} {C = C} P (pure a)
  unfolding pure
  Keeps-pure a = record { kept = λ s p. p }

  pub Keeps-raise : (e : DemoError) → Keeps {D = D} {C = C} {A = A} P (raise e)
  unfolding raise
  Keeps-raise e = record { kept = λ s p. p }

  pub Keeps-query : (read : Tables D C → Result DemoError A) → Keeps P (query read)
  unfolding query
  Keeps-query read = record { kept = λ s p. p }

  pub Keeps-if :
      (b : Bool) (m n : Handler (Session D C B) A)
      → Keeps P m
      → Keeps P n
      → Keeps P (if b then m else n)
  Keeps-if true m n p q = p
  Keeps-if false m n p q = q

  commit-Keeps :
      (f : Storage) (r : Result DemoError (Tables D C × A)) (s : Session D C B)
      → P s.broker
      → P (commit f r s).1.broker
  commit-Keeps refused r s p = p
  commit-Keeps stored (ok u) s p = p
  commit-Keeps stored (err e) s p = p
  commit-Keeps lost_reply (ok u) s p = p
  commit-Keeps lost_reply (err e) s p = p

  pub Keeps-transact :
      (body : Tables D C → Result DemoError (Tables D C × A)) → Keeps P (transact body)
  unfolding transact
  Keeps-transact body = record { kept = λ s p. commit-Keeps _ _ _ p }

module _ {D C B A E : Type 0} (P : B → Type 0) where
  pub Keeps-bind :
      (m : Handler (Session D C B) A) (f : A → Handler (Session D C B) E)
      → Keeps P m
      → ((a : A) → Keeps P (f a))
      → Keeps P (m >>= f)
  unfolding ◌>>=◌
  Keeps-bind m f p q = record { kept = λ s k. rest (m s) (p.kept s k) }
    where
      rest :
          (r : Result DemoError A × Session D C B)
          → P r.1.broker
          → P
              (elim r.0 as (λ x. Result DemoError E × Session D C B) [
                | ok a ↦ f a r.1
                | err e ↦ (err e, r.1)
              ]).1.broker
      rest (ok a, t) h = (q a).kept t h
      rest (err e, t) h = h

pub ruleset keeping = (Keeps-pure, Keeps-raise, Keeps-query, Keeps-if, Keeps-transact, Keeps-bind)

module _ {D C B : Type 0} (P : B → Type 0) where
  pub Keeps-demo_run : (id : ℕ) → Keeps {D = D} {C = C} P (demo_run id)
  unfolding demo_run
  Keeps-demo_run id = search keeping

  Keeps-with_events : (rs : List (DemoStrategyRun D)) → Keeps {D = D} {C = C} P (with_events rs)
  unfolding with_events
  Keeps-with_events [] = search keeping
  Keeps-with_events (r ∷ rs) =
      Keeps-bind P (demo_run r.id) _ (Keeps-demo_run r.id)
        λ row. Keeps-bind P (with_events rs) _ (Keeps-with_events rs) λ rest. Keeps-pure P _

  pub Keeps-demo_runs : Keeps {D = D} {C = C} P demo_runs
  unfolding demo_runs
  Keeps-demo_runs = search (keeping, Keeps-with_events)
