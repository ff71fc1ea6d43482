-- ===== src/Broker/Tests.antt =====
-- The broker service (internal/platform/broker.go) on concrete calls: portfolios that parse from any
-- response, a cipher that changes nothing, and whole decimals.
use mfd.Broker.Records.{
  SnapshotRow, BrokerError, slot, has_client, valid_broker_environment, real, ReadError, demo,
  Environment, BrokerService, BrokerTables,
}
use mfd.Broker.Archive.{AreNewest, IsIntact, broker_calls-Mirrors, Mirrors, IsCipher}
use mfd.Broker.Evidence.{is_of}
use mfd.Broker.Roundtrip.{record_success-history_of}
use mfd.Demo.Session.{stored, next_fault}
use mfd.Broker.Permission.{broker_calls-IsBacked, IsBacked}
use mfd.Broker.History.{open_rows, history_of, BrokerSnapshot}
use mfd.Broker.Spacing.{broker_calls-IsSpaced, IsSpaced}
use mfd.Broker.Store.{Stamp, insert_snapshot, persist_tx, persist, Reading}
use mfd.Broker.Sync.{sync_environment, record_success, sync_client, sync_configured_slot, Round}
use mfd.Broker.Bindings.{Extends, Consistent}
use mfd.Broker.Calls.{IsHonest}
use mfd.Broker.Status.{insert_latest, latest_first, status, sync, new_broker_service, Credentials}
use mfd.Broker.Sessions.{
  broker_calls-Consistent, sync_call, broker_call, configured_call, CallIsHonest, BrokerCall,
  broker_calls,
}
use mfd.Prelude.{
  sym, any_by, arith, ◌+◌, ℕ, String, Option, none, some, List, [], ◌∷◌, ◌≡◌, refl, ok, err, All,
  true, false,
}
use mfd.Prelude.Int.{ℤ, pos, ◌+ℤ◌, ◌-ℤ◌}
use mfd.Demo.Records.{Bytes}
use mfd.Demo.Provider.{Snapshot}

abbrev seal : Bytes → Option Bytes
seal raw = some raw

abbrev digest : Bytes → String
digest raw = "sha256"

abbrev portfolio : Snapshot ℤ
portfolio = record {
  provider_at = pos 5;
  provider_time_assumed_utc = false;
  currency = "USD";
  available_cash = pos 200;
  total_value = pos 200;
  current_pnl = pos 0;
  instruments = [];
  mirror_count = 0;
}

abbrev parse : Bytes → Option (Snapshot ℤ)
parse raw = some portfolio

abbrev first_client : Credentials
first_client = record { client = 1; api_key = "key"; user_key = "user" }

abbrev second_client : Credentials
second_client = record { client = 2; api_key = "key"; user_key = "other" }

abbrev entries : List (String × Option Credentials)
entries = ("real", some second_client) ∷ ("demo", some first_client) ∷ []

abbrev secret_key : Bytes
secret_key =
    1 ∷ 2 ∷ 3 ∷ 4 ∷ 5 ∷ 6 ∷ 7 ∷ 8 ∷ 9 ∷ 10 ∷ 11 ∷ 12 ∷ 13 ∷ 14 ∷ 15 ∷ 16 ∷ 17 ∷ 18 ∷ 19 ∷ 20 ∷ 21
    ∷ 22 ∷ 23 ∷ 24 ∷ 25 ∷ 26 ∷ 27 ∷ 28 ∷ 29 ∷ 30 ∷ 31 ∷ 32 ∷ []

abbrev decode : String → Option Bytes
decode text = some secret_key

abbrev bytes : String → ℕ
bytes token = 32

abbrev no_rows : BrokerTables Bytes
no_rows = record { snapshots = []; events = [] }

abbrev service : BrokerService Bytes
service = record {
  tables = no_rows;
  clients = record { in_demo = some 1; in_real = some 2 };
  bound = record { in_demo = none; in_real = none };
  conflicted = [];
  attempts = [];
  rounds = [];
  token = "0123456789abcdef0123456789abcdef";
  demo_execution_enabled = false;
  faults = [];
}

abbrev token : String
token = "0123456789abcdef0123456789abcdef"

starts : new_broker_service decode bytes entries "key" token no_rows ≡ ok service
unfolding new_broker_service valid_broker_environment
starts = refl

-- A slot of another name, and one with no client, are refused.
misnamed :
    new_broker_service decode bytes (("live", some first_client) ∷ []) "key" token no_rows
    ≡ err BrokerError.invalid_slot
unfolding new_broker_service valid_broker_environment
misnamed = refl

clientless :
    new_broker_service decode bytes (("demo", none) ∷ []) "key" token no_rows
    ≡ err BrokerError.invalid_slot
unfolding new_broker_service valid_broker_environment
clientless = refl

service-Consistent : Consistent service
service-Consistent = record { apart = λ c h. cc; known = λ c h. cc; clear = λ c h. cc }

-- Client 1, whose slot is Demo, turns out to have a key for Real; later client 2 conflicts with it.
abbrev answers : ℕ → Environment → Reading ℤ
answers client Environment.demo = err (ReadError.api_error "forbidden" 403)
answers client Environment.real = ok (7 ∷ [], portfolio)

answers-IsHonest : IsHonest parse answers
answers-IsHonest = record { parses = by_environment }
  where
    by_environment :
        (client : ℕ) (e : Environment) (raw : Bytes) (x : Snapshot ℤ)
        → answers client e ≡ ok (raw, x)
        → parse raw ≡ some x
    by_environment client Environment.demo raw x h = cc
    by_environment client Environment.real raw x h = ground (arith, h)

abbrev round_at : ℕ → ℕ → Round ℤ
round_at now id = record {
  since = pos now;
  lag = 1;
  fetch_aggregate = answers;
  first = record { snapshot_id = id; event_id = id + 1; now = pos now };
  second = record { snapshot_id = id + 2; event_id = id + 3; now = pos now };
}

abbrev calls : List (BrokerCall ℤ)
calls =
    configured_call demo (round_at 10 100)
    ∷ configured_call real (round_at 20 200)
    ∷ sync_call "real" (round_at 30_000_000_011 300)
    ∷ []

calls-CallIsHonest : All (CallIsHonest parse) calls
calls-CallIsHonest = (answers-IsHonest, (answers-IsHonest, (answers-IsHonest, tt)))

abbrev after : BrokerService Bytes
after = broker_calls seal digest calls service

abbrev three_attempts : List (ℕ × ℤ)
three_attempts = (1, pos 30_000_000_012) ∷ (2, pos 21) ∷ (1, pos 11) ∷ []

after-calls :
    (after.bound ≡ record { in_demo = none; in_real = some 1 })
    × (after.conflicted ≡ 2 ∷ [])
    × (after.rounds ≡ three_attempts)
unfolding broker_calls broker_call sync_configured_slot sync_client record_success persist
    persist_tx insert_snapshot ◌+ℤ◌ ◌-ℤ◌ sync valid_broker_environment sync_environment status
after-calls = (refl, refl, refl)

broker_calls-Consistent_example : Consistent after × Extends service.bound after.bound
broker_calls-Consistent_example =
    broker_calls-Consistent seal digest parse calls service calls-CallIsHonest service-Consistent

service-IsSpaced : IsSpaced service
service-IsSpaced = record { spaced = tt; all_noted = refl }

broker_calls-IsSpaced_example : IsSpaced after
broker_calls-IsSpaced_example =
    broker_calls-IsSpaced seal digest parse calls service calls-CallIsHonest service-Consistent
      service-IsSpaced

seal-IsCipher : IsCipher seal seal
seal-IsCipher = record { opens = λ raw sealed e. sym e }

abbrev archived : List (BrokerSnapshot ℤ)
archived =
    record {
      id = 300;
      environment = real;
      fetched_at = pos 30_000_000_011;
      source_sha256 = "sha256";
      portfolio = portfolio;
    }
    ∷ record {
      id = 102;
      environment = real;
      fetched_at = pos 10;
      source_sha256 = "sha256";
      portfolio = portfolio;
    }
    ∷ []

after-history_of : (history_of seal digest parse real after).0 ≡ ok archived
unfolding broker_calls broker_call sync_configured_slot sync_client record_success persist
    persist_tx insert_snapshot ◌+ℤ◌ ◌-ℤ◌ sync valid_broker_environment sync_environment status
    history_of open_rows latest_first insert_latest
after-history_of = refl

service-IsBacked : IsBacked service
service-IsBacked = record {
  backed = by_environment;
  audited = record { linked = tt; recorded = tt };
}
  where
    by_environment :
        (e : Environment) (c : ℕ)
        → has_client c (slot e service.bound) ≡ true
        → any_by (is_of e) service.tables.snapshots ≡ true
    by_environment Environment.demo c h = cc
    by_environment Environment.real c h = cc

broker_calls-IsBacked_example : IsBacked after
broker_calls-IsBacked_example =
    broker_calls-IsBacked seal digest parse calls service calls-CallIsHonest service-Consistent
      service-IsBacked

abbrev stamp : Stamp
stamp = record { snapshot_id = 8; event_id = 9; now = pos 40 }

-- A portfolio is there already.
abbrev earlier : BrokerService Bytes
earlier = record service {
  tables = record {
    snapshots =
        record {
          id = 6;
          environment = demo;
          fetched_at = pos 30;
          provider_at = pos 5;
          response_sha256 = "sha256";
          sealed = 2 ∷ [];
        }
        ∷ [];
    events = [];
  };
}

abbrev bound_service : BrokerService Bytes
bound_service = (record_success seal digest 1 demo (3 ∷ []) portfolio stamp earlier).1

recorded :
    record_success seal digest 1 demo (3 ∷ []) portfolio stamp earlier ≡ (ok tt, bound_service)
unfolding record_success persist persist_tx insert_snapshot
recorded = refl

earlier-IsIntact : All (IsIntact seal seal digest parse) earlier.tables.snapshots
earlier-IsIntact = (
  record { raw = 2 ∷ []; portfolio = portfolio; opens = refl; digests = refl; parses = refl },
  tt,
)

abbrev after_earlier : BrokerService Bytes
after_earlier = broker_calls seal digest calls earlier

earlier-Consistent : Consistent earlier
earlier-Consistent = record { apart = λ c h. cc; known = λ c h. cc; clear = λ c h. cc }

after_earlier-next_fault : next_fault after_earlier.faults ≡ stored
unfolding broker_calls broker_call sync_configured_slot sync_client record_success persist
    persist_tx insert_snapshot ◌+ℤ◌ ◌-ℤ◌ sync valid_broker_environment sync_environment status
after_earlier-next_fault = refl

broker_calls-Mirrors_example :
    (items : List (BrokerSnapshot ℤ)) × (rows : List (SnapshotRow Bytes)) × ((history_of seal digest
        parse real after_earlier).0
      ≡ ok items)
    × Mirrors seal seal digest parse real rows items
    × AreNewest real after_earlier.tables.snapshots rows
broker_calls-Mirrors_example =
    broker_calls-Mirrors seal seal digest parse seal-IsCipher calls earlier real calls-CallIsHonest
      earlier-Consistent earlier-IsIntact after_earlier-next_fault

record_success-history_of_example :
    (item : BrokerSnapshot ℤ) × (items : List (BrokerSnapshot ℤ)) × ((history_of seal digest parse
        demo bound_service).0
      ≡ ok (item ∷ items))
    × (item.portfolio ≡ portfolio)
    × (item.source_sha256 ≡ "sha256")
    × (item.fetched_at ≡ pos 40)
    × (bound_service.bound ≡ record { in_demo = some 1; in_real = none })
record_success-history_of_example =
    record_success-history_of seal seal digest parse seal-IsCipher 1 demo (3 ∷ []) portfolio stamp
      earlier bound_service refl refl refl earlier-IsIntact (refl, tt) recorded
