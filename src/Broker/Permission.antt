-- ===== src/Broker/Permission.antt =====
-- What the bindings of internal/platform/broker.go rest on.
use mfd.Broker.Bindings.{Consistent}
use mfd.Broker.Turns.{Turns-keep, Turn}
use mfd.Broker.Sessions.{broker_calls-Turns, broker_calls, CallIsHonest, BrokerCall}
use mfd.Demo.Provider.{Snapshot}
use mfd.Demo.Records.{Bytes}
use mfd.Broker.Evidence.{Persisted-IsAudited, persist_tx-Persisted, IsAudited, is_of, Persisted}
use mfd.Prelude.{ok, All, arith, List, ◌≡◌, String, any_by, true, Bool, ℕ, Option}
use mfd.Broker.Records.{
  real, demo, Slots, Environment, slot, put, has_client, BrokerService, BrokerTables, SnapshotRow,
}

-- A bound environment has a stored portfolio.
pub record IsBacked {C : Type 0} (s : BrokerService C) : Type 0 where
  pub backed :
      (e : Environment) (c : ℕ)
      → has_client c (slot e s.bound) ≡ true
      → any_by (is_of e) s.tables.snapshots ≡ true
  pub audited : IsAudited s.tables

module _ {C : Type 0} where
  Persisted-keeps :
      (success : Bool) (environment e : Environment) (t u : BrokerTables C)
      → Persisted success environment t u
      → any_by (is_of e) t.snapshots ≡ true
      → any_by (is_of e) u.snapshots ≡ true
  Persisted-keeps success environment e t u (Persisted.event_only v failed n same) h = rw same h
  Persisted-keeps success environment e t u (Persisted.with_row r v er ee q result same) h =
      rw same (ground (arith, h))

  Persisted-adds :
      (environment : Environment) (t u : BrokerTables C)
      → Persisted true environment t u
      → any_by (is_of environment) u.snapshots ≡ true
  Persisted-adds environment t u (Persisted.event_only v failed n same) = cc
  Persisted-adds environment t u (Persisted.with_row r v er ee q result same) =
      rw same (ground (arith, er))

  put-backed :
      (client : ℕ) (environment : Environment) (m : Slots) (rows : List (SnapshotRow C))
      → any_by (is_of environment) rows ≡ true
      → ((e : Environment) (c : ℕ) → has_client c (slot e m) ≡ true → any_by (is_of e) rows ≡ true)
      → (e : Environment) (c : ℕ) → has_client c (slot e (put environment client m)) ≡ true
      → any_by (is_of e) rows ≡ true
  put-backed client Environment.demo m rows new old Environment.demo c h = new
  put-backed client Environment.demo m rows new old Environment.real c h = old real c h
  put-backed client Environment.real m rows new old Environment.demo c h = old demo c h
  put-backed client Environment.real m rows new old Environment.real c h = new

module _ {D C : Type 0} {encrypt : Bytes → Option C} {digest : Bytes → String}
    {parse : Bytes → Option (Snapshot D)} where
  Turn-IsBacked : (s t : BrokerService C) → Turn encrypt digest parse s t → IsBacked s → IsBacked t
  Turn-IsBacked s t (Turn.idle f e) v = rw e (record { backed = v.backed; audited = v.audited })
  Turn-IsBacked s t (Turn.attempted client since lag h e) v =
      rw e (record { backed = v.backed; audited = v.audited })
  Turn-IsBacked s t (Turn.clashed client h e) v =
      rw e (record { backed = v.backed; audited = v.audited })
  Turn-IsBacked s t (Turn.noted stamp environment reading u f g h e) v =
      let p = persist_tx-Persisted encrypt digest stamp environment reading s.tables u h in
      rw e (record {
        backed = λ i c b. Persisted-keeps _ environment i s.tables u p (v.backed i c b);
        audited = Persisted-IsAudited _ environment s.tables u p v.audited;
      })
  Turn-IsBacked s t (Turn.bound_to client environment stamp raw x u f g h free m e) v =
      let p = persist_tx-Persisted encrypt digest stamp environment (ok (raw, x)) s.tables u h in
      rw e (record {
        backed =
            put-backed client environment s.bound u.snapshots
              (Persisted-adds environment s.tables u p)
              (λ i c b. Persisted-keeps _ environment i s.tables u p (v.backed i c b));
        audited = Persisted-IsAudited _ environment s.tables u p v.audited;
      })

module _ {D C : Type 0} (encrypt : Bytes → Option C) (digest : Bytes → String)
    (parse : Bytes → Option (Snapshot D)) where
  -- After any sequence of calls: an event that names a snapshot is a success of the environment of
  -- that row, every row is named by an event, and a bound environment has a row.
  pub broker_calls-IsBacked :
      (cs : List (BrokerCall D)) (s : BrokerService C)
      → All (CallIsHonest parse) cs
      → Consistent s
      → IsBacked s
      → IsBacked (broker_calls encrypt digest cs s)
  broker_calls-IsBacked cs s honest v =
      Turns-keep IsBacked Turn-IsBacked (broker_calls-Turns encrypt digest parse cs s honest v)
