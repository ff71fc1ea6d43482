-- ===== src/Broker/Turns.antt =====
-- What the methods of internal/platform/broker.go do to the service, one action at a time.
use mfd.Prelude.{
  ℕ, String, Bool, true, false, Option, some, List, ◌∷◌, Result, ok, err, ◌≡◌, refl, ◌||◌,
}
use mfd.Prelude.Int.{pos, ◌+ℤ◌}
use mfd.Demo.Records.{Time, Bytes}
use mfd.Demo.Provider.{Snapshot}
use mfd.Demo.Session.{Storage, stored, refused, lost_reply, next_fault, later_faults}
use mfd.Broker.Store.{Reading, Stamp, settle, persist, persist_tx}
use mfd.Broker.Sync.{is_conflicted, is_taken, last_attempt, is_recent}
use mfd.Broker.Records.{
  Environment, other_broker_environment, Slots, slot, put, has_client, BrokerService, BrokerTables,
}

abbrev pub is_client : ℕ → Slots → Bool
is_client client m = has_client client m.in_demo || has_client client m.in_real

-- The portfolio that comes with a response is the one that the response parses to.
abbrev pub Genuine : {D : Type 0} → (Bytes → Option (Snapshot D)) → Reading D → Type 0
Genuine parse (ok (raw, snapshot)) = parse raw ≡ some snapshot
Genuine parse (err e) = Unit

-- A client of the service that is neither in conflict nor bound to the other environment.
pub record MayBind {C : Type 0} (client : ℕ) (environment : Environment) (s : BrokerService C)
    : Type 0 where
  pub is_known : is_client client s.clients ≡ true
  pub is_clear : is_conflicted client s ≡ false
  pub is_apart : has_client client (slot (other_broker_environment environment) s.bound) ≡ false

module _ {D C : Type 0} (encrypt : Bytes → Option C) (digest : Bytes → String)
    (parse : Bytes → Option (Snapshot D)) where
  pub data Turn (s t : BrokerService C) : Type 0 where
    idle : (f : List Storage) → t ≡ record s { faults = f } → Turn s t
    attempted :
        (client : ℕ) (since : Time) (lag : ℕ)
        → is_recent since (last_attempt client s.attempts) ≡ false
        → t ≡ record s {
          attempts = (client, since +ℤ pos lag) ∷ s.attempts;
          rounds = (client, since +ℤ pos lag) ∷ s.rounds;
        }
        → Turn s t
    clashed :
        (client : ℕ)
        → is_client client s.bound ≡ false
        → t ≡ record s { conflicted = client ∷ s.conflicted }
        → Turn s t
    noted :
        (stamp : Stamp) (environment : Environment) (reading : Reading D) (u : BrokerTables C)
        (f : List Storage)
        → Genuine parse reading
        → persist_tx encrypt digest stamp environment reading s.tables ≡ ok u
        → t ≡ record s { tables = u; faults = f }
        → Turn s t
    bound_to :
        (client : ℕ) (environment : Environment) (stamp : Stamp) (raw : Bytes)
        (snapshot : Snapshot D) (u : BrokerTables C) (f : List Storage)
        → parse raw ≡ some snapshot
        → persist_tx encrypt digest stamp environment (ok (raw, snapshot)) s.tables ≡ ok u
        → is_taken client (slot environment s.bound) ≡ false
        → MayBind client environment s
        → t ≡ record s { tables = u; bound = put environment client s.bound; faults = f }
        → Turn s t

  -- A sequence of actions.
  pub data Turns (s : BrokerService C) : BrokerService C → Type 0 where
    here : Turns s s
    next : {t u : BrokerService C} → Turns s t → Turn t u → Turns s u

module _ {D C : Type 0} {encrypt : Bytes → Option C} {digest : Bytes → String}
    {parse : Bytes → Option (Snapshot D)} where
  pub one : {s t : BrokerService C} → Turn encrypt digest parse s t → Turns encrypt digest parse s t
  one turn = next here turn

  pub Turns-trans :
      {s t u : BrokerService C}
      → Turns encrypt digest parse s t
      → Turns encrypt digest parse t u
      → Turns encrypt digest parse s u
  Turns-trans before here = before
  Turns-trans before (next after turn) = next (Turns-trans before after) turn

  -- What every action keeps, every sequence keeps.
  pub Turns-keep :
      (P : BrokerService C → Type 0)
      → ((s t : BrokerService C) → Turn encrypt digest parse s t → P s → P t)
      → {s t : BrokerService C} → Turns encrypt digest parse s t
      → P s
      → P t
  Turns-keep P step here p = p
  Turns-keep P step (next turns turn) p = step _ _ turn (Turns-keep P step turns p)

  settle-Turns :
      (fault : Storage) (f : List Storage) (r : Result _ (BrokerTables C)) (s : BrokerService C)
      → ((u : BrokerTables C)
          → r ≡ ok u
          → Turn encrypt digest parse s (record s { tables = u; faults = f }))
      → Turns encrypt digest parse s (settle fault r (record s { faults = f })).1
  settle-Turns refused f r s h = one (idle f refl)
  settle-Turns stored f (ok u) s h = one (h u refl)
  settle-Turns stored f (err e) s h = one (idle f refl)
  settle-Turns lost_reply f (ok u) s h = one (h u refl)
  settle-Turns lost_reply f (err e) s h = one (idle f refl)

  pub persist-Turns :
      (stamp : Stamp) (environment : Environment) (reading : Reading D) (s : BrokerService C)
      → Genuine parse reading
      → Turns encrypt digest parse s (persist encrypt digest stamp environment reading s).1
  unfolding persist
  persist-Turns stamp environment reading s g =
      settle-Turns (next_fault s.faults) (later_faults s.faults) _ s
        (λ u e. noted stamp environment reading u _ g e refl)
