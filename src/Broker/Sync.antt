-- ===== src/Broker/Sync.antt =====
-- recordSuccess, syncClient, Sync and syncConfigured (internal/platform/broker.go), and
-- syncDemoAfterOrder (internal/platform/demo_strategy.go). The cipher, the digest, the provider's
-- answers and the clocks are arguments. Each runs under the service's mutex.
use mfd.Prelude.{
  ℕ, String, Bool, true, false, not, ◌&&◌, ◌||◌, Option, none, some, List, [], ◌∷◌, ◌==◌, ok, err,
  any_by, if◌then◌else◌,
}
use mfd.Prelude.Int.{ℤ, pos, ◌+ℤ◌, ◌-ℤ◌, ltb_ℤ}
use mfd.Demo.Records.{Time, Bytes}
use mfd.Demo.Provider.{Snapshot}
use mfd.Broker.Store.{Reading, Stamp, SyncOutcome, persist}
use mfd.Broker.Records.{
  Environment, demo, real, other_broker_environment, slot, put, has_client, BrokerService,
  ReadError,
}

abbrev pub is_conflicted : {C : Type 0} → ℕ → BrokerService C → Bool
is_conflicted client s = any_by (λ c. c == client) s.conflicted

-- `existing != nil && existing != client`.
abbrev pub is_taken : ℕ → Option ℕ → Bool
is_taken client none = false
is_taken client (some existing) = not (existing == client)

-- `b.lastAttempt[client]`.
abbrev pub last_attempt : ℕ → List (ℕ × Time) → Option Time
last_attempt client [] = none
last_attempt client ((c, at) ∷ as') = if c == client then some at else last_attempt client as'

abbrev pub sync_interval : ℤ
sync_interval = pos 30_000_000_000

-- `time.Since(b.lastAttempt[client]) < 30*time.Second`; without an attempt it is centuries.
abbrev pub is_recent : Time → Option Time → Bool
is_recent now none = false
is_recent now (some at) = ltb_ℤ (now -ℤ at) sync_interval

-- `b.lastAttempt[client] = time.Now()`.
abbrev pub note_attempt : {C : Type 0} → ℕ → Time → BrokerService C → BrokerService C
note_attempt client now s = record s { attempts = (client, now) ∷ s.attempts }

-- The call of FetchAggregate that opens a round leaves, for the client.
abbrev pub start_round : {C : Type 0} → ℕ → Time → BrokerService C → BrokerService C
start_round client now s = record s { rounds = (client, now) ∷ s.rounds }

-- `apiErr.Status == 403 || apiErr.Status == 404`.
abbrev pub is_denied : ReadError → Bool
is_denied (ReadError.api_error category status) = status == 403 || status == 404
is_denied _ = false

-- What one syncClient reads from outside: the clock when it asks how long the last attempt is ago,
-- and how much later it notes this one (the clock is monotonic); what the provider answers; and the
-- identifiers and times of its two transactions.
pub record Round (D : Type 0) : Type 0 where
  pub since : Time
  pub lag : ℕ
  pub fetch_aggregate : ℕ → Environment → Reading D
  pub first : Stamp
  pub second : Stamp

module _ {C : Type 0} where
  abbrev pub bind_after : Environment → ℕ → SyncOutcome C → SyncOutcome C
  bind_after environment client (ok u, s) =
      (ok u, record s { bound = put environment client s.bound })
  bind_after environment client (err e, s) = (err e, s)

  -- The client of the slot, if it is neither in conflict nor bound to the other environment (`to`).
  abbrev pub candidate : Option ℕ → Option ℕ → BrokerService C → Option ℕ
  candidate none to s = none
  candidate (some client) to s =
      if not (is_conflicted client s) && not (has_client client to) then some client else none

  -- The environment where the client of the slot is read first.
  abbrev pub preferred_environment : Environment → ℕ → BrokerService C → Environment
  preferred_environment environment client s =
      if has_client client (slot (other_broker_environment environment) s.bound)
      then other_broker_environment environment
      else environment

module _ {D C : Type 0} (encrypt : Bytes → Option C) (digest : Bytes → String) where
  unfoldable pub record_success :
      ℕ → Environment → Bytes → Snapshot D → Stamp → BrokerService C → SyncOutcome C
  record_success client environment raw snapshot stamp s =
      if is_taken client (slot environment s.bound)
      then persist {D = D} encrypt digest stamp environment (err ReadError.credential_conflict)
          (record s { conflicted = client ∷ s.conflicted })
      else bind_after environment client
          (persist encrypt digest stamp environment (ok (raw, snapshot)) s)

  -- After the read of the alternate environment.
  abbrev pub conclude : ℕ → Environment → Stamp → Reading D → BrokerService C → SyncOutcome C
  conclude client environment stamp (ok (raw, snapshot)) s =
      record_success client environment raw snapshot stamp s
  conclude client environment stamp (err e) s =
      persist {D = D} encrypt digest stamp environment (err e) s

  abbrev pub try_alternate : ℕ → Environment → Round D → SyncOutcome C → SyncOutcome C
  try_alternate client alternate round (ok u, s) =
      conclude client alternate round.second (round.fetch_aggregate client alternate) s
  try_alternate client alternate round (err e, s) = (err e, s)

  -- After the read of the preferred environment.
  abbrev pub after_read :
      ℕ → Environment → Bool → Round D → Reading D → BrokerService C → SyncOutcome C
  after_read client preferred detect round (ok (raw, snapshot)) s =
      record_success client preferred raw snapshot round.first s
  after_read client preferred detect round (err e) s =
      if detect && is_denied e
      then try_alternate client (other_broker_environment preferred) round
          (persist {D = D} encrypt digest round.first preferred (err e) s)
      else persist {D = D} encrypt digest round.first preferred (err e) s

  unfoldable pub sync_client : ℕ → Environment → Bool → Round D → BrokerService C → SyncOutcome C
  sync_client client preferred detect round s =
      if is_conflicted client s
      then (ok tt, s)
      else if is_recent round.since (last_attempt client s.attempts)
      then (ok tt, s)
      else after_read client preferred detect round (round.fetch_aggregate client preferred) (
          start_round client (round.since +ℤ pos round.lag)
            (note_attempt client (round.since +ℤ pos round.lag) s))

  abbrev pub sync_slot : Option ℕ → Environment → Bool → Round D → BrokerService C → SyncOutcome C
  sync_slot none preferred detect round s = (ok tt, s)
  sync_slot (some client) preferred detect round s = sync_client client preferred detect round s

  abbrev pub sync_detected :
      Option ℕ → Option ℕ → Environment → Round D → BrokerService C → SyncOutcome C
  sync_detected (some client) other environment round s =
      sync_client client environment true round s
  sync_detected none other environment round s =
      sync_slot other (other_broker_environment environment) true round s

  -- Sync up to its status, in a valid environment.
  unfoldable pub sync_environment : Environment → Round D → BrokerService C → SyncOutcome C
  sync_environment environment round s =
      let to = slot (other_broker_environment environment) s.bound in
      elim (slot environment s.bound) [
        | some client ↦ sync_client client environment false round s
        | none ↦
            sync_detected (candidate (slot environment s.clients) to s)
              (candidate (slot (other_broker_environment environment) s.clients) to s) environment
              round s
      ]

  abbrev pub sync_preferred : Environment → ℕ → Round D → BrokerService C → SyncOutcome C
  sync_preferred preferred client round s =
      sync_client client preferred (not (has_client client (slot preferred s.bound))) round s

  -- The body of syncConfigured's loop; its error is only logged.
  unfoldable pub sync_configured_slot : Environment → Round D → BrokerService C → BrokerService C
  sync_configured_slot environment round s = elim (slot environment s.clients) [
    | none ↦ s
    | some client ↦
        if is_conflicted client s
        then s
        else (sync_preferred (preferred_environment environment client s) client round s).1
  ]

  -- Other methods may run between the two iterations.
  unfoldable pub sync_configured : Round D → Round D → BrokerService C → BrokerService C
  sync_configured first second s =
      sync_configured_slot real second (sync_configured_slot demo first s)

  -- syncDemoAfterOrder, with the client that is bound to Demo.
  unfoldable pub sync_demo_after_order :
      (ℕ → Environment → Reading D) → Stamp → BrokerService C → BrokerService C
  sync_demo_after_order fetch stamp s = elim s.bound.in_demo [
    | none ↦ s
    | some client ↦ elim (fetch client demo) [
      | err e ↦ s
      | ok (raw, snapshot) ↦ (record_success client demo raw snapshot stamp s).1
    ]
  ]
