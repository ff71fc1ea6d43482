-- ===== src/Etoro/Yields.antt =====
-- What a chain of results that may fail yields where it succeeds: one rule for each kind of step of
-- internal/etoro's readers.
use mfd.Prelude.{
  if◌then◌else◌, ◌>>◌, ◌>>=◌, Bool, true, false, Option, none, some, Result, ok, err, ◌≡◌, refl,
  fail_if, arith,
}
use mfd.Etoro.Aggregate.{AggregateError, or_error}
use mfd.Etoro.Market.{or_schema}

pub record Yields {E A : Type 0} (P : A → Type 0) (m : Result E A) : Type 0 where
  pub where_ok : (a : A) → m ≡ ok a → P a

module _ {E A : Type 0} {P : A → Type 0} where
  pub Yields-ok : (a : A) → P a → Yields {E = E} P (ok a)
  Yields-ok a p = record { where_ok = λ b e. let same : b ≡ a = ground (arith, e) in rw same p }

  pub Yields-err : (e : E) → Yields P (err e)
  Yields-err e = record { where_ok = λ b q. cc }

  pub Yields-bind :
      {B : Type 0} (step : Result E B) (rest : B → Result E A)
      → ((v : B) → step ≡ ok v → Yields P (rest v))
      → Yields P (step >>= rest)
  Yields-bind (err e) rest h = record { where_ok = λ b q. cc }
  Yields-bind (ok v) rest h = h v refl

  pub Yields-guard :
      (b : Bool) (e : E) (rest : Result E A)
      → (b ≡ false → Yields P rest)
      → Yields P (fail_if b e >> rest)
  Yields-guard true e rest h = record { where_ok = λ b q. cc }
  Yields-guard false e rest h = h refl

  pub if_Yields :
      (b : Bool) (m n : Result E A)
      → Yields P m
      → (b ≡ false → Yields P n)
      → Yields P (if b then m else n)
  if_Yields true m n h k = h
  if_Yields false m n h k = k refl

pub or_error-some :
    {A : Type 0} (e : AggregateError) (o : Option A) (a : A) → or_error e o ≡ ok a → o ≡ some a
or_error-some e none a h = cc
or_error-some e (some b) a h = ground (arith, h)

pub or_schema-some : {A : Type 0} (o : Option A) (a : A) → or_schema o ≡ ok a → o ≡ some a
or_schema-some none a h = cc
or_schema-some (some b) a h = ground (arith, h)
