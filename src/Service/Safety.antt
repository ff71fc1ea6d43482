-- ===== src/Service/Safety.antt =====
-- What all methods of BrokerService (internal/platform/broker.go and demo_strategy.go) keep, called in
-- any order.
use mfd.Broker.Sync.{sync_demo_after_order}
use mfd.Prelude.{String, Option, List, [], ◌∷◌, All, ◌≡◌, refl, ◌≤◌, ◌<◌, true, ℕ}
use mfd.Demo.Records.{Bytes}
use mfd.Demo.Provider.{Snapshot}
use mfd.Demo.Session.{Session}
use mfd.Demo.Tables.{count_active}
use mfd.Demo.Lifecycle.Edges.{is_submitted, status_at}
use mfd.Demo.Lifecycle.Safety.{posts_once}
use mfd.Demo.Lifecycle.Steps.{occurs, Reach, here, next, idle, Reach-trans}
use mfd.Demo.Lifecycle.Operations.{perform-Reach}
use mfd.Demo.Lifecycle.Synced.{perform-Keeps}
use mfd.Decimal.{Decimals}
use mfd.Broker.Records.{BrokerService}
use mfd.Broker.Turns.{Turns, here as no_turn, Turns-trans, Turns-keep}
use mfd.Broker.Bindings.{Consistent, Extends, Turn-Consistent, Turn-Extends}
use mfd.Broker.Calls.{IsHonest}
use mfd.Broker.Sessions.{order_call, broker_call, BrokerCall, CallIsHonest, broker_call-Turns}
use mfd.Broker.Spacing.{IsSpaced, Turn-IsSpaced}
use mfd.Service.Calls.{OrderRead, Rest, sync_next, ServiceCall, service_call, service_calls}

-- The provider's answers, in reads after orders and in a call, come with the portfolio that they parse
-- to.
abbrev pub ReadIsHonest : {D : Type 0} → (Bytes → Option (Snapshot D)) → OrderRead D → Type 0
ReadIsHonest parse r = IsHonest parse r.fetch

abbrev pub ServiceCallIsHonest :
    {D : Type 0} → (Bytes → Option (Snapshot D)) → ServiceCall D → Type 0
ServiceCallIsHonest parse (ServiceCall.demo_call lookups o) = Unit
ServiceCallIsHonest parse (ServiceCall.broker_call_of c) = CallIsHonest parse c

module _ {D C : Type 0} (encrypt : Bytes → Option C) (digest : Bytes → String)
    (parse : Bytes → Option (Snapshot D)) where
  -- The service comes from `first` by the actions of Turns.
  pub record ComesFrom (first : BrokerService C) (rest : Rest D C) : Type 0 where
    pub honest : All (ReadIsHonest parse) rest.reads
    pub consistent : Consistent rest.service
    pub turns : Turns encrypt digest parse first rest.service

  pub call-ComesFrom :
      (first s : BrokerService C) (rs : List (OrderRead D)) (c : BrokerCall D)
      → CallIsHonest parse c
      → All (ReadIsHonest parse) rs
      → Consistent s
      → Turns encrypt digest parse first s
      → ComesFrom first (record { service = broker_call encrypt digest c s; reads = rs })
  call-ComesFrom first s rs c good honest v turns =
      let turn = broker_call-Turns encrypt digest parse c s good v in
      record {
        honest = honest;
        consistent = Turns-keep Consistent Turn-Consistent turn v;
        turns = Turns-trans turns turn;
      }

  sync_next-ComesFrom :
      (first : BrokerService C) (rest : Rest D C)
      → ComesFrom first rest
      → ComesFrom first (sync_next encrypt digest rest)
  unfolding sync_next broker_call
  sync_next-ComesFrom first rest h = by_next rest.reads h.honest h
    where
      by_next :
          (rs : List (OrderRead D))
          → All (ReadIsHonest parse) rs
          → ComesFrom first rest
          → ComesFrom first (elim rs as (λ _. Rest D C) [
            | [] ↦ rest
            | r ∷ rs ↦ record {
              service = sync_demo_after_order encrypt digest r.fetch r.stamp rest.service;
              reads = rs;
            }
          ])
      by_next [] honest k = k
      by_next (r ∷ rs) honest k =
          call-ComesFrom first rest.service rs (order_call r.fetch r.stamp) honest.0 honest.1
            k.consistent k.turns

module _ (d : Decimals) {C : Type 0} (encrypt : Bytes → Option C) (digest : Bytes → String)
    (parse : Bytes → Option (Snapshot d.D)) where
  abbrev pub State : Type 0
  State = Session d.D C (Rest d.D C)

  abbrev pub After : State → State → Type 0
  After s t = Reach s t × ComesFrom encrypt digest parse s.broker.service t.broker

  pub service_call-After :
      (c : ServiceCall d.D) (s t : State)
      → ServiceCallIsHonest parse c
      → After s t
      → After s (service_call d encrypt digest c t)
  unfolding service_call
  service_call-After (ServiceCall.demo_call lookups o) s t good (reach, from) = (
    Reach-trans reach (perform-Reach d encrypt digest (sync_next encrypt digest) _ t),
    perform-Keeps d (ComesFrom encrypt digest parse s.broker.service) encrypt digest
        (sync_next encrypt digest) (sync_next-ComesFrom encrypt digest parse s.broker.service) _ t
        from,
  )
  service_call-After (ServiceCall.broker_call_of c) s t good (reach, from) = (
    Reach-trans reach (next here (idle refl refl refl)),
    call-ComesFrom encrypt digest parse s.broker.service t.broker.service t.broker.reads c good
        from.honest from.consistent from.turns,
  )

  service_calls-After :
      (cs : List (ServiceCall d.D)) (s t : State)
      → All (ServiceCallIsHonest parse) cs
      → After s t
      → After s (service_calls d encrypt digest cs t)
  unfolding service_calls
  service_calls-After [] s t good h = h
  service_calls-After (c ∷ cs) s t good h =
      service_calls-After cs s _ good.1 (service_call-After c s t good.0 h)

  -- No decision's order was posted twice, one decision at most is unresolved, and every posted decision
  -- is past `ready`; the bindings are consistent and keep those of `s`; and limited reads are spaced.
  abbrev pub IsSafe : State → State → Type 0
  IsSafe s t =
      ((i : ℕ) → occurs i t.posts ≤ 1)
      × (count_active t.tables.runs ≤ 1)
      × ((i : ℕ) → 0 < occurs i t.posts → is_submitted (status_at i t.tables.runs) ≡ true)
      × Consistent t.broker.service
      × Extends s.broker.service.bound t.broker.service.bound
      × IsSpaced t.broker.service

  pub After-IsSafe :
      (s t : State)
      → IsSpaced s.broker.service
      → s.tables.runs ≡ []
      → s.intents ≡ []
      → s.posts ≡ []
      → After s t
      → IsSafe s t
  After-IsSafe s t spaced e f g (reach, from) =
      let (once, one, submitted) = posts_once e f g reach in
      (
        once,
        one,
        submitted,
        from.consistent,
        Turns-keep (λ b. Extends s.broker.service.bound b.bound)
            (Turn-Extends s.broker.service.bound) from.turns (λ i c h. h),
        Turns-keep IsSpaced (Turn-IsSpaced encrypt digest parse) from.turns spaced,
      )

  -- Through any calls of the service, Demo orders between synchronisations, from an empty table of
  -- decisions, consistent bindings, and rounds of reads that are spaced and noted, whatever the
  -- provider answers (with portfolios that parse so) and the database fails to do: no decision's
  -- order is posted twice, one decision at most is unresolved, and every posted decision is past
  -- `ready`; no client is bound to both environments, a bound client is one of the service's and
  -- not in conflict, and an environment keeps its client; and the rounds of reads that are limited
  -- start at least 30 seconds apart for each client.
  pub service_calls-Consistent :
      (cs : List (ServiceCall d.D)) (s : State)
      → All (ServiceCallIsHonest parse) cs
      → All (ReadIsHonest parse) s.broker.reads
      → Consistent s.broker.service
      → IsSpaced s.broker.service
      → s.tables.runs ≡ []
      → s.intents ≡ []
      → s.posts ≡ []
      → IsSafe s (service_calls d encrypt digest cs s)
  service_calls-Consistent cs s good honest v spaced e f g = After-IsSafe s _ spaced e f g (
      service_calls-After cs s s good
        (here, record { honest = honest; consistent = v; turns = no_turn }))
