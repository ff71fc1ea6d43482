-- ===== src/Broker/Sessions.antt =====
-- Sequences of calls of BrokerService's methods (internal/platform/broker.go; syncDemoAfterOrder is in
-- internal/platform/demo_strategy.go), and the bindings after them. The mutex makes each call, and
-- each iteration of syncConfigured's loop, one step.
use mfd.Prelude.{
  none, All, ℕ, String, Option, some, List, [], ◌∷◌, ◌≡◌, refl, Result, ok, err, Option-cases, inl,
  inr,
}
use mfd.Demo.Records.{Bytes}
use mfd.Demo.Provider.{Snapshot}
use mfd.Demo.Session.{Storage, stored, next_fault, later_faults}
use mfd.Broker.Store.{Reading, Stamp, SyncOutcome}
use mfd.Broker.Sync.{Round, sync_configured_slot, sync_demo_after_order, record_success}
use mfd.Broker.Status.{
  BrokerStatus, sync, status_after, status, status_row, next_query, answer_query,
}
use mfd.Broker.Turns.{Turns, here, one, Turns-trans, Turns-keep, idle}
use mfd.Broker.Bindings.{Consistent, Turn-Consistent, Extends, Turn-Extends}
use mfd.Broker.Calls.{IsHonest, record_success-Turns}
use mfd.Broker.Methods.{
  sync_environment-Turns, sync_configured_slot-Turns, bound-MayBind, has_client-some,
}
use mfd.Broker.Records.{Environment, demo, BrokerService, valid_broker_environment, BrokerError}

pub data BrokerCall (D : Type 0) : Type 0 where
  sync_call : String → Round D → BrokerCall D
  configured_call : Environment → Round D → BrokerCall D
  order_call : (ℕ → Environment → Reading D) → Stamp → BrokerCall D

-- The provider's answers in the call come with the portfolio that they parse to.
abbrev pub CallIsHonest : {D : Type 0} → (Bytes → Option (Snapshot D)) → BrokerCall D → Type 0
CallIsHonest parse (BrokerCall.sync_call name round) = IsHonest parse round.fetch_aggregate
CallIsHonest parse (BrokerCall.configured_call e round) = IsHonest parse round.fetch_aggregate
CallIsHonest parse (BrokerCall.order_call fetch stamp) = IsHonest parse fetch

module _ {D C : Type 0} (encrypt : Bytes → Option C) (digest : Bytes → String) where
  unfoldable pub broker_call : BrokerCall D → BrokerService C → BrokerService C
  broker_call (BrokerCall.sync_call name round) s = (sync encrypt digest name round s).1
  broker_call (BrokerCall.configured_call e round) s = sync_configured_slot encrypt digest e round s
  broker_call (BrokerCall.order_call fetch stamp) s =
      sync_demo_after_order encrypt digest fetch stamp s

  unfoldable pub broker_calls : List (BrokerCall D) → BrokerService C → BrokerService C
  broker_calls [] s = s
  broker_calls (c ∷ cs) s = broker_calls cs (broker_call c s)

module _ {D C : Type 0} (encrypt : Bytes → Option C) (digest : Bytes → String)
    (parse : Bytes → Option (Snapshot D)) where
  pub status-Turns :
      (environment : Environment) (s : BrokerService C)
      → Turns encrypt digest parse s (status environment s).1
  unfolding status
  status-Turns environment s = by_fault (next_fault s.faults)
    where
      by_fault :
          (f : Storage)
          → Turns encrypt digest parse s
              (elim f as (λ _. Result BrokerError BrokerStatus × BrokerService C) [
                | stored ↦ (
                  answer_query (next_fault (later_faults s.faults)) (status_row environment s),
                  next_query (next_query s),
                )
                | _ ↦ (err BrokerError.storage, next_query s)
              ]).1
      by_fault Storage.stored = one (idle _ refl)
      by_fault Storage.refused = one (idle _ refl)
      by_fault Storage.lost_reply = one (idle _ refl)

  status_after-Turns :
      (environment : Environment) (s : BrokerService C) (o : SyncOutcome C)
      → Turns encrypt digest parse s o.1
      → Turns encrypt digest parse s (status_after environment o).1
  status_after-Turns environment s (ok u, t) before =
      Turns-trans before (status-Turns environment t)
  status_after-Turns environment s (err e, t) before = before

  pub sync-Turns :
      (name : String) (round : Round D) (s : BrokerService C)
      → IsHonest parse round.fetch_aggregate
      → Consistent s
      → Turns encrypt digest parse s (sync encrypt digest name round s).1
  unfolding sync
  sync-Turns name round s honest v = elim (Option-cases (valid_broker_environment name)) [
    | inl e ↦ rw (e, sync) here
    | inr (environment, e) ↦
        rw (e, sync)
          (status_after-Turns environment s _
            (sync_environment-Turns encrypt digest parse environment round s honest v))
  ]

  order-Turns :
      (fetch : ℕ → Environment → Reading D) (stamp : Stamp) (s : BrokerService C)
      → IsHonest parse fetch
      → Consistent s
      → Turns encrypt digest parse s (sync_demo_after_order encrypt digest fetch stamp s)
  unfolding sync_demo_after_order
  order-Turns fetch stamp s honest v = by_slot _ refl
    where
      by_reading :
          (client : ℕ) (r : Reading D)
          → fetch client demo ≡ r
          → s.bound.in_demo ≡ some client
          → Turns encrypt digest parse s (elim r as (λ _. BrokerService C) [
            | err e ↦ s
            | ok (raw, snapshot) ↦
                (record_success encrypt digest client demo raw snapshot stamp s).1
          ])
      by_reading client (err failure) h e = here
      by_reading client (ok (raw, snapshot)) h e =
          record_success-Turns encrypt digest parse client demo raw snapshot stamp s
            (bound-MayBind demo client s v (has_client-some client _ e))
            (honest.parses client demo raw snapshot h)

      by_slot :
          (o : Option ℕ)
          → s.bound.in_demo ≡ o
          → Turns encrypt digest parse s (elim o as (λ _. BrokerService C) [
            | none ↦ s
            | some client ↦ elim (fetch client demo) as (λ _. BrokerService C) [
              | err e ↦ s
              | ok (raw, snapshot) ↦
                  (record_success encrypt digest client demo raw snapshot stamp s).1
            ]
          ])
      by_slot none e = here
      by_slot (some client) e = by_reading client (fetch client demo) refl e

  pub broker_call-Turns :
      (c : BrokerCall D) (s : BrokerService C)
      → CallIsHonest parse c
      → Consistent s
      → Turns encrypt digest parse s (broker_call encrypt digest c s)
  unfolding broker_call
  broker_call-Turns (BrokerCall.sync_call name round) s honest v = sync-Turns name round s honest v
  broker_call-Turns (BrokerCall.configured_call e round) s honest v =
      sync_configured_slot-Turns encrypt digest parse e round s honest v
  broker_call-Turns (BrokerCall.order_call fetch stamp) s honest v =
      order-Turns fetch stamp s honest v

  pub broker_calls-Turns :
      (cs : List (BrokerCall D)) (s : BrokerService C)
      → All (CallIsHonest parse) cs
      → Consistent s
      → Turns encrypt digest parse s (broker_calls encrypt digest cs s)
  unfolding broker_calls
  broker_calls-Turns [] s honest v = here
  broker_calls-Turns (c ∷ cs) s honest v =
      let turns = broker_call-Turns c s honest.0 v in
      Turns-trans turns
        (broker_calls-Turns cs _ honest.1 (Turns-keep Consistent Turn-Consistent turns v))

  -- Through any sequence of Sync calls, timed synchronisations and reads after an order, whatever
  -- the provider answers (with portfolios that parse so) and the database fails to do: no client is
  -- ever bound to both environments, a bound client is one of the service's and not in conflict,
  -- and an environment keeps the client it is bound to.
  pub broker_calls-Consistent :
      (cs : List (BrokerCall D)) (s : BrokerService C)
      → All (CallIsHonest parse) cs
      → Consistent s
      → Consistent (broker_calls encrypt digest cs s)
        × Extends s.bound (broker_calls encrypt digest cs s).bound
  broker_calls-Consistent cs s honest v =
      let turns = broker_calls-Turns cs s honest v in
      (
        Turns-keep Consistent Turn-Consistent turns v,
        Turns-keep (λ t. Extends s.bound t.bound) (Turn-Extends s.bound) turns (λ e c h. h),
      )
