-- ===== src/Broker/Calls.antt =====
-- Every method of internal/platform/broker.go that changes the service, on every branch and under
-- every fault of the database, as a sequence of the actions of Turns.
use mfd.Demo.Lifecycle.Steps.{here}
use mfd.Prelude.Int.{pos, ◌+ℤ◌}
use mfd.Prelude.{
  ℕ, String, Bool, true, false, Option, none, some, List, ◌∷◌, ◌≡◌, refl, arith, Result, ok, err,
  if◌then◌else◌,
}
use mfd.Demo.Records.{Bytes}
use mfd.Demo.Provider.{Snapshot}
use mfd.Demo.Session.{next_fault, Storage, stored, refused, lost_reply}
use mfd.Broker.Store.{SyncOutcome, Reading, Stamp, settle, persist, persist_tx}
use mfd.Broker.Sync.{
  last_attempt, is_recent, is_denied, try_alternate, conclude, after_read, Round, sync_client,
  is_taken, record_success, bind_after,
}
use mfd.Broker.Turns.{
  attempted, here, Genuine, Turns, one, Turns-trans, MayBind, is_client, persist-Turns, idle, noted,
  clashed, bound_to,
}
use mfd.Broker.Records.{
  other_broker_environment, Environment, slot, has_client, BrokerService, BrokerTables,
  credential_conflict,
}

not_taken_by : (client : ℕ) (o : Option ℕ) → is_taken client o ≡ true → has_client client o ≡ false
not_taken_by client none h = refl
not_taken_by client (some n) h = ground arith

taken_unbound :
    {C : Type 0} (client : ℕ) (environment : Environment) (s : BrokerService C)
    → MayBind client environment s
    → is_taken client (slot environment s.bound) ≡ true
    → is_client client s.bound ≡ false
taken_unbound client Environment.demo s m h =
    ground (arith, m.is_apart, not_taken_by client s.bound.in_demo h)
taken_unbound client Environment.real s m h =
    ground (arith, m.is_apart, not_taken_by client s.bound.in_real h)

settle-MayBind :
    {C : Type 0} (client : ℕ) (environment : Environment) (s : BrokerService C) (fault : Storage)
    (r : Result _ (BrokerTables C))
    → MayBind client environment s
    → MayBind client environment (settle fault r s).1
settle-MayBind client environment s refused r m = m
settle-MayBind client environment s stored (ok u) m = record {
  is_known = m.is_known;
  is_clear = m.is_clear;
  is_apart = m.is_apart;
}
settle-MayBind client environment s stored (err e) m = m
settle-MayBind client environment s lost_reply (ok u) m = record {
  is_known = m.is_known;
  is_clear = m.is_clear;
  is_apart = m.is_apart;
}
settle-MayBind client environment s lost_reply (err e) m = m

-- The provider's answers come with the portfolio that they parse to.
pub record IsHonest {D : Type 0} (parse : Bytes → Option (Snapshot D))
    (fetch : ℕ → Environment → Reading D) : Type 0 where
  pub parses :
      (client : ℕ) (environment : Environment) (raw : Bytes) (snapshot : Snapshot D)
      → fetch client environment ≡ ok (raw, snapshot)
      → parse raw ≡ some snapshot

module _ {D C : Type 0} (encrypt : Bytes → Option C) (digest : Bytes → String)
    (parse : Bytes → Option (Snapshot D)) where
  abbrev To : BrokerService C → BrokerService C → Type 0
  To = Turns encrypt digest parse

  bind_after-Turns :
      (client : ℕ) (environment : Environment) (stamp : Stamp) (raw : Bytes) (snapshot : Snapshot D)
      (s : BrokerService C) (fault : Storage) (f : List Storage) (r : Result _ (BrokerTables C))
      → MayBind client environment s
      → parse raw ≡ some snapshot
      → is_taken client (slot environment s.bound) ≡ false
      → persist_tx encrypt digest stamp environment (ok (raw, snapshot)) s.tables ≡ r
      → To s (bind_after environment client (settle fault r (record s { faults = f }))).1
  bind_after-Turns client environment stamp raw snapshot s refused f r m g free h =
      one (idle f refl)
  bind_after-Turns client environment stamp raw snapshot s stored f (ok u) m g free h =
      one (bound_to client environment stamp raw snapshot u f g h free m refl)
  bind_after-Turns client environment stamp raw snapshot s stored f (err e) m g free h =
      one (idle f refl)
  bind_after-Turns client environment stamp raw snapshot s lost_reply f (ok u) m g free h =
      one (noted stamp environment (ok (raw, snapshot)) u f g h refl)
  bind_after-Turns client environment stamp raw snapshot s lost_reply f (err e) m g free h =
      one (idle f refl)

  pub record_success-Turns :
      (client : ℕ) (environment : Environment) (raw : Bytes) (snapshot : Snapshot D) (stamp : Stamp)
      (s : BrokerService C)
      → MayBind client environment s
      → parse raw ≡ some snapshot
      → To s (record_success encrypt digest client environment raw snapshot stamp s).1
  unfolding record_success persist
  record_success-Turns client environment raw snapshot stamp s m g = by_taken _ refl
    where
      by_taken :
          (b : Bool)
          → is_taken client (slot environment s.bound) ≡ b
          → To s
              (if b
                then persist {D = D} encrypt digest stamp environment
                    (err credential_conflict)
                    (record s { conflicted = client ∷ s.conflicted })
                else bind_after environment client
                    (persist encrypt digest stamp environment (ok (raw, snapshot)) s)).1
      by_taken true h =
          Turns-trans (one (clashed client (taken_unbound client environment s m h) refl))
            (persist-Turns stamp environment (err credential_conflict) _ tt)
      by_taken false h = bind_after-Turns client environment stamp raw snapshot s _ _ _ m g h refl

  persist-MayBind :
      (client : ℕ) (e : Environment) (stamp : Stamp) (environment : Environment)
      (reading : Reading D) (s : BrokerService C)
      → MayBind client e s
      → MayBind client e (persist encrypt digest stamp environment reading s).1
  unfolding persist
  persist-MayBind client e stamp environment reading s m =
      settle-MayBind client e _ (next_fault s.faults) _
        (record { is_known = m.is_known; is_clear = m.is_clear; is_apart = m.is_apart })

  conclude-Turns :
      (client : ℕ) (environment : Environment) (stamp : Stamp) (reading : Reading D)
      (s : BrokerService C)
      → MayBind client environment s
      → Genuine parse reading
      → To s (conclude encrypt digest client environment stamp reading s).1
  conclude-Turns client environment stamp (ok (raw, snapshot)) s m g =
      record_success-Turns client environment raw snapshot stamp s m g
  conclude-Turns client environment stamp (err e) s m g =
      persist-Turns stamp environment (err e) s tt

  try_alternate-Turns :
      (client : ℕ) (alternate : Environment) (round : Round D) (s : BrokerService C)
      (o : SyncOutcome C)
      → ((e : Environment) → Genuine parse (round.fetch_aggregate client e))
      → MayBind client alternate o.1
      → To s o.1
      → To s (try_alternate encrypt digest client alternate round o).1
  try_alternate-Turns client alternate round s (ok u, t) g m before =
      Turns-trans before (conclude-Turns client alternate round.second _ t m (g alternate))
  try_alternate-Turns client alternate round s (err e, t) g m before = before

  after_read-Turns :
      (client : ℕ) (preferred : Environment) (detect : Bool) (round : Round D) (reading : Reading D)
      (s : BrokerService C)
      → ((e : Environment) → Genuine parse (round.fetch_aggregate client e))
      → Genuine parse reading
      → MayBind client preferred s
      → (detect ≡ true → MayBind client (other_broker_environment preferred) s)
      → To s (after_read encrypt digest client preferred detect round reading s).1
  after_read-Turns client preferred detect round (ok (raw, snapshot)) s gs g m n =
      record_success-Turns client preferred raw snapshot round.first s m g
  after_read-Turns client preferred false round (err e) s gs g m n =
      persist-Turns round.first preferred (err e) s tt
  after_read-Turns client preferred true round (err e) s gs g m n = by_denied (is_denied e)
    where
      noted_first : To s (persist {D = D} encrypt digest round.first preferred (err e) s).1
      noted_first = persist-Turns round.first preferred (err e) s tt

      by_denied :
          (b : Bool)
          → To s
              (if b
                then try_alternate encrypt digest client
                    (other_broker_environment preferred)
                    round
                    (persist {D = D} encrypt digest round.first preferred (err e) s)
                else persist {D = D} encrypt digest round.first preferred (err e) s).1
      by_denied true =
          try_alternate-Turns client (other_broker_environment preferred) round s _ gs
            (persist-MayBind client (other_broker_environment preferred) round.first preferred
              (err e) s (n refl))
            noted_first
      by_denied false = noted_first

  pub sync_client-Turns :
      (client : ℕ) (preferred : Environment) (detect : Bool) (round : Round D) (s : BrokerService C)
      → IsHonest parse round.fetch_aggregate
      → MayBind client preferred s
      → (detect ≡ true → MayBind client (other_broker_environment preferred) s)
      → To s (sync_client encrypt digest client preferred detect round s).1
  unfolding sync_client
  sync_client-Turns client preferred detect round s honest m n = rw m.is_clear (by_recent _ refl)
    where
      attempting : BrokerService C
      attempting = record s {
        attempts = (client, round.since +ℤ pos round.lag) ∷ s.attempts;
        rounds = (client, round.since +ℤ pos round.lag) ∷ s.rounds;
      }

      genuine : (e : Environment) → Genuine parse (round.fetch_aggregate client e)
      genuine e = by_reading (round.fetch_aggregate client e) (honest.parses client e)
        where
          by_reading :
              (r : Reading D)
              → ((raw : Bytes) (x : Snapshot D) → r ≡ ok (raw, x) → parse raw ≡ some x)
              → Genuine parse r
          by_reading (ok (raw, x)) h = h raw x refl
          by_reading (err failure) h = tt

      by_recent :
          (b : Bool)
          → is_recent round.since (last_attempt client s.attempts) ≡ b
          → To s
              (if b
                then (ok tt, s)
                else after_read encrypt digest client preferred detect round
                    (round.fetch_aggregate client preferred)
                    attempting).1
      by_recent true h = here
      by_recent false h = Turns-trans (one (attempted client round.since round.lag h refl)) (
          after_read-Turns client preferred detect round _ attempting genuine (genuine preferred)
            (record { is_known = m.is_known; is_clear = m.is_clear; is_apart = m.is_apart })
            (λ d.
              let m' = n d in
              record { is_known = m'.is_known; is_clear = m'.is_clear; is_apart = m'.is_apart }))
