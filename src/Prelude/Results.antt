-- ===== src/Prelude/Results.antt =====
-- What a Go function returns as `(T, error)`.
use mathlib.Core.Path.{◌≡◌, refl}
use mathlib.Core.Bool.{Bool, true, false}

-- `err` where the error is not nil; the value that comes along is then ignored.
pub data Result {ε τ} (Error : Type ε) (T : Type τ) : Type (ε ⊔ τ) where
  err : Error → Result Error T
  ok : T → Result Error T

-- `if bad { return err }`.
abbrev pub fail_if {ε} : {Error : Type ε} → Bool → Error → Result Error (Unit {0})
fail_if false failure = ok tt
fail_if true failure = err failure

module _ {ε υ} {Error : Type ε} {U : Type υ} where
  infixl 5 ◌>>=◌ ◌>>◌
  -- `v, err := step; if err != nil { return err }`, and what follows.
  abbrev pub ◌>>=◌ {τ} : {T : Type τ} → Result Error T → (T → Result Error U) → Result Error U
  err failure >>= rest = err failure
  ok v >>= rest = rest v

  abbrev pub ◌>>◌ : Result Error (Unit {0}) → Result Error U → Result Error U
  step >> rest = step >>= λ _. rest

  -- A successful bind has a successful first part.
  pub >>=-eq-ok {τ} :
      {T : Type τ} (step : Result Error T) (rest : T → Result Error U) {u : U}
      → (step >>= rest) ≡ ok u
      → (v : T) × (step ≡ ok v) × (rest v ≡ ok u)
  >>=-eq-ok (err failure) rest h = cc
  >>=-eq-ok (ok v) rest h = (v, refl, h)

  -- A guard that lets the rest go on has not failed.
  pub fail_if-eq-ok :
      (b : Bool) (failure : Error) (rest : Result Error U) {u : U}
      → (fail_if b failure >> rest) ≡ ok u
      → (b ≡ false) × (rest ≡ ok u)
  fail_if-eq-ok false failure rest h = (refl, h)
  fail_if-eq-ok true failure rest h = cc

pub ok_unique {ℓ κ} :
    {E : Type ℓ} {A : Type κ} {r : Result E A} {a b : A} → r ≡ ok a → r ≡ ok b → a ≡ b
ok_unique h k = cc

pub fail_if-false {ℓ} :
    {E : Type ℓ} (b : Bool) (e : E) {a : Unit {0}} → fail_if b e ≡ ok a → b ≡ false
fail_if-false true e h = cc
fail_if-false false e h = refl
