-- ===== src/Demo/Session.antt =====
-- How a handler of internal/platform/demo_strategy.go runs: against the tables, one transaction or
-- query at a time, each of which the database may refuse, or carry out while its reply is lost.
use mfd.Prelude.{ℕ, List, [], ◌∷◌, Result, ok, err}
use mfd.Demo.Records.{Tables, DemoError, storage}

pub data Storage : Type 0 where
  stored refused lost_reply : Storage

-- `intents` holds the decisions whose submit intent a live DemoExecute has committed and not yet
-- posted; `posts` every decision whose order was posted to the broker, the latest first. `broker` is
-- the rest of the BrokerService. `faults` says how the coming database calls end (well, if none is
-- left).
pub record Session (D C B : Type 0) : Type 0 where
  pub tables : Tables D C
  pub intents : List ℕ
  pub posts : List ℕ
  pub broker : B
  pub faults : List Storage

abbrev pub next_fault : List Storage → Storage
next_fault [] = stored
next_fault (f ∷ fs) = f

abbrev pub later_faults : List Storage → List Storage
later_faults [] = []
later_faults (f ∷ fs) = fs

abbrev pub Handler : Type 0 → Type 0 → Type 0
Handler S A = S → Result DemoError A × S

module _ {S A : Type 0} where
  unfoldable pub pure : A → Handler S A
  pure a s = (ok a, s)

  unfoldable pub raise : DemoError → Handler S A
  raise e s = (err e, s)

infixl 5 ◌>>=◌ ◌>>◌
unfoldable pub ◌>>=◌ : {S A E : Type 0} → Handler S A → (A → Handler S E) → Handler S E
◌>>=◌ m f s = let (r, s') = m s in elim r [ ok a ↦ f a s' | err e ↦ (err e, s') ]

abbrev pub ◌>>◌ : {S A E : Type 0} → Handler S A → Handler S E → Handler S E
m >> k = m >>= λ _. k

module _ {D C B A : Type 0} where
  -- How a transaction ends, given what its body computed.
  abbrev pub commit :
      Storage
      → Result DemoError (Tables D C × A)
      → Session D C B
      → Result DemoError A × Session D C B
  commit refused body s = (err storage, s)
  commit stored (ok (t, a)) s = (ok a, record s { tables = t })
  commit stored (err e) s = (err e, s)
  commit lost_reply (ok (t, a)) s = (err storage, record s { tables = t })
  commit lost_reply (err e) s = (err e, s)

  -- `Begin`, statements, `Commit`, and `Rollback` where a statement fails.
  unfoldable pub transact :
      (Tables D C → Result DemoError (Tables D C × A)) → Handler (Session D C B) A
  transact body s =
      commit (next_fault s.faults) (body s.tables) (record s { faults = later_faults s.faults })

abbrev pub answer : {A : Type 0} → Storage → Result DemoError A → Result DemoError A
answer stored r = r
answer _ r = err storage

unfoldable pub query :
    {D C B A : Type 0} → (Tables D C → Result DemoError A) → Handler (Session D C B) A
query read s =
    (answer (next_fault s.faults) (read s.tables), record s { faults = later_faults s.faults })
