-- ===== src/Broker/Methods.antt =====
-- The methods of BrokerService (internal/platform/broker.go) in any order, and what holds of the
-- bindings after them.
use mfd.Prelude.{
  ℕ, String, Bool, true, false, not, ◌&&◌, Option, none, some, ◌≡◌, refl, arith, if◌then◌else◌,
  Option-cases, inl, inr,
}
use mfd.Demo.Records.{Bytes}
use mfd.Demo.Provider.{Snapshot}
use mfd.Broker.Sync.{
  is_conflicted, Round, sync_client, sync_environment, sync_detected, sync_slot, candidate,
  sync_configured_slot, sync_preferred, preferred_environment,
}
use mfd.Broker.Turns.{Turns, here, MayBind, is_client}
use mfd.Broker.Bindings.{Consistent}
use mfd.Broker.Calls.{IsHonest, sync_client-Turns}
use mfd.Broker.Records.{Environment, other_broker_environment, slot, has_client, BrokerService}

pub has_client-some : (client : ℕ) (o : Option ℕ) → o ≡ some client → has_client client o ≡ true
has_client-some client o h = rw h (ground arith)

module _ {C : Type 0} where
  -- What the test of a candidate says.
  candidate-some :
      (o to : Option ℕ) (client : ℕ) (s : BrokerService C)
      → candidate o to s ≡ some client
      → (o ≡ some client) × (is_conflicted client s ≡ false) × (has_client client to ≡ false)
  candidate-some none to client s h = cc
  candidate-some (some c) to client s h = by_test _ refl h
    where
      by_test :
          (b : Bool)
          → (not (is_conflicted c s) && not (has_client c to)) ≡ b
          → (if b then some c else none) ≡ some client
          → (some c ≡ some client)
            × (is_conflicted client s ≡ false)
            × (has_client client to ≡ false)
      by_test false e g = cc
      by_test true e g =
          let same : c ≡ client = ground arith in rw same (refl, ground arith, ground arith)

  slot_client :
      (environment : Environment) (client : ℕ) (s : BrokerService C)
      → slot environment s.clients ≡ some client
      → is_client client s.clients ≡ true
  slot_client Environment.demo client s h =
      ground (arith, has_client-some client s.clients.in_demo h)
  slot_client Environment.real client s h =
      ground (arith, has_client-some client s.clients.in_real h)

  pub bound-MayBind :
      (environment : Environment) (client : ℕ) (s : BrokerService C)
      → Consistent s
      → has_client client (slot environment s.bound) ≡ true
      → MayBind client environment s
  bound-MayBind Environment.demo client s v h = record {
    is_known = v.known client (ground arith);
    is_clear = v.clear client (ground arith);
    is_apart = v.apart client h;
  }
  bound-MayBind Environment.real client s v h = record {
    is_known = v.known client (ground arith);
    is_clear = v.clear client (ground arith);
    is_apart = ground (arith, v.apart client);
  }

  -- A client that is bound nowhere may be bound anywhere.
  free-MayBind :
      (environment : Environment) (client : ℕ) (s : BrokerService C)
      → is_client client s.clients ≡ true
      → is_conflicted client s ≡ false
      → has_client client (slot environment s.bound) ≡ false
      → has_client client (slot (other_broker_environment environment) s.bound) ≡ false
      → (e : Environment) → MayBind client e s
  free-MayBind Environment.demo client s k q a b Environment.demo = record {
    is_known = k;
    is_clear = q;
    is_apart = b;
  }
  free-MayBind Environment.demo client s k q a b Environment.real = record {
    is_known = k;
    is_clear = q;
    is_apart = a;
  }
  free-MayBind Environment.real client s k q a b Environment.demo = record {
    is_known = k;
    is_clear = q;
    is_apart = a;
  }
  free-MayBind Environment.real client s k q a b Environment.real = record {
    is_known = k;
    is_clear = q;
    is_apart = b;
  }

module _ {D C : Type 0} (encrypt : Bytes → Option C) (digest : Bytes → String)
    (parse : Bytes → Option (Snapshot D)) where
  abbrev To : BrokerService C → BrokerService C → Type 0
  To = Turns encrypt digest parse

  pub sync_environment-Turns :
      (environment : Environment) (round : Round D) (s : BrokerService C)
      → IsHonest parse round.fetch_aggregate
      → Consistent s
      → To s (sync_environment encrypt digest environment round s).1
  unfolding sync_environment
  sync_environment-Turns environment round s honest v =
      elim (Option-cases (slot environment s.bound)) [
        | inr (client, e) ↦
            let m = bound-MayBind environment client s v (has_client-some client _ e) in
            rw (e, sync_environment)
              (sync_client-Turns encrypt digest parse client environment false round s honest m
                (λ d. cc))
        | inl e ↦ rw (e, sync_environment) (by_first _ refl e)
      ]
    where
      other : Environment
      other = other_broker_environment environment

      to : Option ℕ
      to = slot other s.bound

      detected :
          (own : Option ℕ) (client : ℕ) (e : Environment)
          → is_client client s.clients ≡ true
          → candidate own to s ≡ some client
          → slot environment s.bound ≡ none
          → To s (sync_client encrypt digest client e true round s).1
      detected own client e k h free =
          let (_, clear, apart) = candidate-some own to client s h in
          let may = free-MayBind environment client s k clear (rw free refl) apart in
          sync_client-Turns encrypt digest parse client e true round s honest (may e)
            (λ d. may (other_broker_environment e))

      by_second :
          (o : Option ℕ)
          → candidate (slot other s.clients) to s ≡ o
          → slot environment s.bound ≡ none
          → To s (sync_slot encrypt digest o other true round s).1
      by_second none h free = here
      by_second (some client) h free =
          let (own, _, _) = candidate-some (slot other s.clients) to client s h in
          detected (slot other s.clients) client other (slot_client other client s own) h free

      by_first :
          (o : Option ℕ)
          → candidate (slot environment s.clients) to s ≡ o
          → slot environment s.bound ≡ none
          → To s
              (sync_detected encrypt digest o
                (candidate (slot other s.clients) to s)
                environment
                round
                s).1
      by_first none h free = by_second _ refl free
      by_first (some client) h free =
          let (own, _, _) = candidate-some (slot environment s.clients) to client s h in
          detected (slot environment s.clients) client environment
            (slot_client environment client s own) h free

  sync_preferred-Turns :
      (e : Environment) (client : ℕ) (round : Round D) (s : BrokerService C)
      → IsHonest parse round.fetch_aggregate
      → MayBind client e s
      → To s (sync_preferred encrypt digest e client round s).1
  sync_preferred-Turns e client round s honest m =
      sync_client-Turns encrypt digest parse client e _ round s honest m (λ d.
        free-MayBind e client s m.is_known m.is_clear (ground arith) m.is_apart
          (other_broker_environment e))

  pub sync_configured_slot-Turns :
      (environment : Environment) (round : Round D) (s : BrokerService C)
      → IsHonest parse round.fetch_aggregate
      → Consistent s
      → To s (sync_configured_slot encrypt digest environment round s)
  unfolding sync_configured_slot
  sync_configured_slot-Turns environment round s honest v =
      elim (Option-cases (slot environment s.clients)) [
        | inl e ↦ rw (e, sync_configured_slot) here
        | inr (client, e) ↦ rw (e, sync_configured_slot) (by_conflict client _ refl e)
      ]
    where
      preferring :
          (client : ℕ) (b : Bool)
          → has_client client (slot (other_broker_environment environment) s.bound) ≡ b
          → is_conflicted client s ≡ false
          → slot environment s.clients ≡ some client
          → To s
              (sync_preferred encrypt digest
                (if b then other_broker_environment environment else environment)
                client
                round
                s).1
      preferring client true h clear e =
          sync_preferred-Turns _ client round s honest
            (bound-MayBind (other_broker_environment environment) client s v h)
      preferring client false h clear e =
          sync_preferred-Turns _ client round s honest (record {
            is_known = slot_client environment client s e;
            is_clear = clear;
            is_apart = h;
          })

      by_conflict :
          (client : ℕ) (b : Bool)
          → is_conflicted client s ≡ b
          → slot environment s.clients ≡ some client
          → To s (
              if b
              then s
              else (sync_preferred encrypt digest
                  (preferred_environment environment client s)
                  client
                  round
                  s).1)
      by_conflict client true h e = here
      by_conflict client false h e = preferring client _ refl h e
