-- ===== src/Demo/Quiet.antt =====
-- Handlers of internal/platform/demo_strategy.go that post no order: one rule for each way to build a
-- handler.
use mfd.Demo.Tables.{select_run}
use mfd.Demo.Records.{Tables, DemoError}
use mfd.Demo.Reads.{DemoRunView, demo_run}
use mfd.Prelude.{
  inr, inl, ◌⊎◌, false, ◌∙◌, err, some, true, refl, ok, arith, ◌≡◌, Result, if◌then◌else◌, Bool,
}
use mfd.Demo.Session.{Session, raise, query, transact, ◌>>=◌, Handler, pure}
use Prim.Native.Nat.{ℕ}

-- A handler that posts nothing.
pub record Quiet {D C B A : Type 0} (m : Handler (Session D C B) A) : Type 0 where
  pub same : (s : Session D C B) → (m s).1.posts ≡ s.posts

module _ {D C B A : Type 0} where
  pub Quiet-pure : (a : A) → Quiet {D = D} {C = C} {B = B} (pure a)
  unfolding pure
  Quiet-pure a = record { same = λ s. refl }

  pub Quiet-raise : (e : DemoError) → Quiet {D = D} {C = C} {B = B} {A = A} (raise e)
  unfolding raise
  Quiet-raise e = record { same = λ s. refl }

  pub Quiet-query : (read : Tables D C → Result DemoError A) → Quiet {B = B} (query read)
  unfolding query
  Quiet-query read = record { same = λ s. refl }

  pub Quiet-transact :
      (body : Tables D C → Result DemoError (Tables D C × A)) → Quiet {B = B} (transact body)
  unfolding transact
  Quiet-transact body = record { same = λ s. ground arith }

  pub Quiet-if :
      (b : Bool) (m n : Handler (Session D C B) A) → Quiet m → Quiet n → Quiet (if b then m else n)
  Quiet-if true m n p q = p
  Quiet-if false m n p q = q

  pub if_Quiet :
      (b : Bool) (m n : Handler (Session D C B) A) (t : Session D C B)
      → Quiet m
      → (((if b then m else n) t).1.posts ≡ t.posts) ⊎ (b ≡ false)
  if_Quiet true m n t q = inl (q.same t)
  if_Quiet false m n t q = inr refl

module _ {D C B A E : Type 0} where
  pub Quiet-bind :
      (m : Handler (Session D C B) A) (f : A → Handler (Session D C B) E)
      → Quiet m
      → ((a : A) → Quiet (f a))
      → Quiet (m >>= f)
  unfolding ◌>>=◌
  Quiet-bind m f p q = record { same = λ s. rest s (m s) (p.same s) }
    where
      rest :
          (s : Session D C B) (r : Result DemoError A × Session D C B)
          → r.1.posts ≡ s.posts
          → (elim r.0 as (λ x. Result DemoError E × Session D C B) [
            | ok a ↦ f a r.1
            | err e ↦ (err e, r.1)
          ]).1.posts
            ≡ s.posts
      rest s (ok a, t) h = (q a).same t ∙ h
      rest s (err e, t) h = h

pub ruleset quiet = (Quiet-pure, Quiet-raise, Quiet-query, Quiet-transact, Quiet-if, Quiet-bind)

module _ {D C B : Type 0} where
  pub Quiet-demo_run : (id : ℕ) → Quiet {D = D} {C = C} {B = B} (demo_run id)
  unfolding demo_run
  Quiet-demo_run id = search quiet

  -- What DemoRun returns is the row.
  pub demo_run-row :
      (id : ℕ) (s : Session D C B) {v : DemoRunView D}
      → (demo_run id s).0 ≡ ok v
      → select_run id s.tables.runs ≡ some v.run
  unfolding demo_run query ◌>>=◌ pure
  demo_run-row id s h = ground arith
