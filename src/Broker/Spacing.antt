-- ===== src/Broker/Spacing.antt =====
-- syncClient's limit on how often a client reads its portfolio (internal/platform/broker.go).
use mfd.Prelude.{ap, All, ℕ, String, Option, none, some, List, [], ◌∷◌, ◌≡◌, false, arith}
use mfd.Prelude.Int.{pos, ◌+ℤ◌, ◌≤ℤ◌, +ℤ_parts, -ℤ_parts}
use mfd.Demo.Records.{Time, Bytes}
use mfd.Demo.Provider.{Snapshot}
use mfd.Broker.Sync.{last_attempt, is_recent, sync_interval}
use mfd.Broker.Turns.{Turn, Turns-keep}
use mfd.Broker.Bindings.{Consistent}
use mfd.Broker.Records.{BrokerService}
use mfd.Broker.Sessions.{BrokerCall, CallIsHonest, broker_calls, broker_calls-Turns}

abbrev pub LongAfter : Time → Option Time → Type 0
LongAfter at none = Unit
LongAfter at (some before) = before +ℤ sync_interval ≤ℤ at

-- Each entry is at least 30 seconds after the client's entry before it.
abbrev pub Spaced : List (ℕ × Time) → Type 0
Spaced [] = Unit
Spaced ((client, at) ∷ as') = LongAfter at (last_attempt client as') × Spaced as'

-- The rounds of reads are spaced, and each is noted.
pub record IsSpaced {C : Type 0} (s : BrokerService C) : Type 0 where
  pub spaced : Spaced s.rounds
  pub all_noted : s.attempts ≡ s.rounds

not_recent :
    (since : Time) (lag : ℕ) (o : Option Time)
    → is_recent since o ≡ false
    → LongAfter (since +ℤ pos lag) o
not_recent since lag none h = tt
not_recent since lag (some before) h =
    ground (arith, +ℤ_parts since (pos lag), +ℤ_parts before sync_interval, -ℤ_parts since before)

module _ {D C : Type 0} (encrypt : Bytes → Option C) (digest : Bytes → String)
    (parse : Bytes → Option (Snapshot D)) where
  pub Turn-IsSpaced :
      (s t : BrokerService C) → Turn encrypt digest parse s t → IsSpaced s → IsSpaced t
  Turn-IsSpaced s t (Turn.idle f e) v = rw e (record { spaced = v.spaced; all_noted = v.all_noted })
  Turn-IsSpaced s t (Turn.attempted client since lag h e) v = rw e (record {
    spaced = (not_recent since lag (last_attempt client s.rounds) (rw v.all_noted at h), v.spaced);
    all_noted = ap (λ x. (client, since +ℤ pos lag) ∷ x) v.all_noted;
  })
  Turn-IsSpaced s t (Turn.clashed client h e) v =
      rw e (record { spaced = v.spaced; all_noted = v.all_noted })
  Turn-IsSpaced s t (Turn.noted stamp environment reading u f g h e) v =
      rw e (record { spaced = v.spaced; all_noted = v.all_noted })
  Turn-IsSpaced s t (Turn.bound_to client environment stamp raw snapshot u f g h free m e) v =
      rw e (record { spaced = v.spaced; all_noted = v.all_noted })

  -- However often the portfolios are to be synchronised, by the operator or by the timer: the rounds of
  -- reads that Sync and the timer start for one client, each with its call of FetchAggregate, start at
  -- least 30 seconds apart, if those before them did and were noted. A read after an order is not
  -- limited, and is none of them.
  pub broker_calls-IsSpaced :
      (cs : List (BrokerCall D)) (s : BrokerService C)
      → All (CallIsHonest parse) cs
      → Consistent s
      → IsSpaced s
      → IsSpaced (broker_calls encrypt digest cs s)
  broker_calls-IsSpaced cs s honest v =
      Turns-keep IsSpaced Turn-IsSpaced (broker_calls-Turns encrypt digest parse cs s honest v)
