-- ===== src/Service/Unauthorized.antt =====
-- What a request to internal/httpapi/server.go without the operator's token leaves alone.
use mfd.Prelude.{ℕ, Option, none, some, List}
use mfd.Demo.Records.{Time, Tables}
use mfd.Demo.Session.{Session}
use mfd.Broker.Records.{BrokerTables, Slots, BrokerService}
use mfd.Service.Calls.{Rest}
use mfd.Service.Platform.{Platform}

-- What a service has stored, is bound to, and has read.
pub record Held (C : Type 0) : Type 0 where
  pub tables : BrokerTables C
  pub bound : Slots
  pub conflicted : List ℕ
  pub attempts : List (ℕ × Time)
  pub rounds : List (ℕ × Time)

-- The decisions, their submit intents, the orders posted, and what the rest of the service holds.
pub record Kept (D C : Type 0) : Type 0 where
  pub tables : Tables D C
  pub intents : List ℕ
  pub posts : List ℕ
  pub rest : Held C

module _ {C : Type 0} where
  abbrev pub held : BrokerService C → Held C
  held s = record {
    tables = s.tables;
    bound = s.bound;
    conflicted = s.conflicted;
    attempts = s.attempts;
    rounds = s.rounds;
  }

abbrev pub kept_of : {D C : Type 0} → Session D C (Rest D C) → Kept D C
kept_of s = record {
  tables = s.tables;
  intents = s.intents;
  posts = s.posts;
  rest = held s.broker.service;
}

abbrev pub kept_by : {D C J : Type 0} → Platform D C J → Option (Kept D C)
kept_by p = elim p.broker [ none ↦ none | some s ↦ some (kept_of s) ]
